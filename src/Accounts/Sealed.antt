-- ===== src/Accounts/Sealed.antt =====
-- A record sealed by a service is opened again by the key of the pair.
use infovulcan.Common.{◌≡◌, refl, arith, Bytes}
use infovulcan.Common.Outcome.{Outcome, done, failed, map_err, >>=-done}
use infovulcan.Serde.{Serde}
use infovulcan.Shared.Encryption.{Random, encrypt_with_public_key, default_algorithm}
use infovulcan.Shared.Encryption.RoundTrip.{decrypt-encrypt}
use infovulcan.Accounts.{Platform, Keys, open_record, seal_record}

map_err-done :
    {E F A : Type 0} (f : E → F) (r : Outcome E A) (a : A) → map_err f r ≡ done a → r ≡ done a
map_err-done f (done x) a h = ground (arith, h)
map_err-done f (failed e) a h = absurd (ground (arith, h))

module _ {DateTime : Type 0} (p : Platform DateTime) (keys : Keys) {A : Type 0}
    (serde : Serde A) where
  abbrev pub HasPair : Type 0
  HasPair = p.ciphers.IsPair keys.public_key keys.private_key

  pub open_record-seal_record :
      (random : Random) (a : A) (value : Bytes)
      → HasPair
      → seal_record p keys serde random a ≡ done value
      → open_record p keys serde value ≡ done a
  unfolding seal_record open_record encrypt_with_public_key
  open_record-seal_record random a value pair h =
      let (sealed, e1, e2) = >>=-done _ _ value h in
      let e3 = map_err-done _ _ sealed e1 in
      let back =
        (decrypt-encrypt p.ciphers random (serde.to_vec a) default_algorithm sealed keys.public_key
          keys.private_key pair e3).0 in
      let same : value ≡ p.encrypted.to_vec sealed = ground (arith, e2) in
      rw (same, p.encrypted.from_slice-to_vec sealed, back, serde.from_slice-to_vec a) refl
