-- ===== src/Accounts/Deployment.antt =====
-- The services of auth/src/server.rs and admin/src/server.rs on a concrete database.
use infovulcan.Common.{
  ℕ, ◌≡◌, refl, Bool, true, ◌&&◌, Option, none, some, List, [], ◌∷◌, ◌++◌, arith, if◌then◌else◌,
  length, drop, Bytes, ascii, beq, beq_refl, starts_with-append,
}
use infovulcan.Common.Int.{ℤ, pos, le_ℤ, ◌+ℤ◌}
use infovulcan.Common.Outcome.{done}
use infovulcan.Serde.Codec.{
  Codec, nat_codec, bytes_codec, pair_codec, via_codec, serde_of, drop-append,
}
use infovulcan.Kv.{Kv, IsStore}
use infovulcan.Accounts.{Platform, Keys}
use infovulcan.Accounts.Sample.{ciphers, sealed_codec, user_codec, auth_codec, unseal}
use infovulcan.Admin.{Admin}
use infovulcan.Auth.{Tokens, Claims}

-- The length of the salt stands first.
abbrev hash : (salt password : Bytes) → Option Bytes
hash salt password = some (length salt ∷ salt ++ password)

abbrev verify : (hash password : Bytes) → Option Bool
verify [] password = none
verify (n ∷ rest) password = some (beq (drop n rest) password)

verify-hash :
    (salt password h : Bytes) → hash salt password ≡ some h → verify h password ≡ some true
verify-hash salt password h e =
    let p : length salt ∷ salt ++ password ≡ h = ground (arith, e) in
    rw (← p, drop-append salt password, beq_refl password) refl

unfoldable pub platform : Platform ℤ
unfolding verify-hash
platform = record {
  ciphers = ciphers;
  encrypted = serde_of sealed_codec;
  users = serde_of user_codec;
  auths = serde_of auth_codec;
  uuid_string = λ u. u;
  parse_uuid = λ s. some s;
  parse_uuid-uuid_string = λ u h. refl;
  timestamp = λ t. t;
  hash_password = hash;
  verify_password = verify;
  verify_password-hash_password = verify-hash;
}

abbrev pub keys : Keys
keys = record { public_key = 7 ∷ []; private_key = 7 ∷ [] }

-- The contents by collection and key.
abbrev pub Db : Type 0
Db = Bytes → Bytes → Option Bytes

abbrev pub empty : Db
empty c k = none

abbrev set : Db → Bytes → Bytes → Bytes → Db
set d collection key value c k = if beq collection c && beq key k then some value else d c k

-- A listing answers with the rows given.
abbrev pub kv : List (Bytes × Bytes) → Kv Db
kv rows = record {
  get = λ d c k. done (d c k);
  put = λ d c k v. (done tt, set d c k v);
  list = λ d c. done rows;
}

pub kv-IsStore : (rows : List (Bytes × Bytes)) → IsStore (kv rows)
kv-IsStore rows d collection key value h c k = ground arith

abbrev pub claims_of_tuple : (Bytes × ℕ) × Bytes → Option Claims
claims_of_tuple p = some (record { sub = p.0.0; exp = p.0.1; role = p.1 })

unfoldable pub claims_codec : Codec Claims
claims_codec =
    via_codec (pair_codec (pair_codec bytes_codec nat_codec) bytes_codec)
      (λ c. ((c.sub, c.exp), c.role)) claims_of_tuple (λ c. refl)

abbrev live : (now : ℤ) → Option Claims → Option Claims
live now none = none
live now (some c) = if le_ℤ now (pos c.exp) then some c else none

abbrev read_claims : (now : ℤ) → Option Bytes → Option Claims
read_claims now none = none
read_claims now (some body) = live now ((serde_of claims_codec).from_slice body)

read_back :
    (secret : Bytes) (claims : Claims) (token : Bytes) (now : ℤ)
    → some (secret ++ (serde_of claims_codec).to_vec claims) ≡ some token
    → le_ℤ now (pos claims.exp) ≡ true
    → read_claims now (unseal secret token) ≡ some claims
read_back secret claims token now e h =
    let p : secret ++ (serde_of claims_codec).to_vec claims ≡ token = ground (arith, e) in
    rw (← p) (
      rw
        (
          starts_with-append secret ((serde_of claims_codec).to_vec claims),
          drop-append secret ((serde_of claims_codec).to_vec claims),
          (serde_of claims_codec).from_slice-to_vec claims,
          h,
        )
        refl)

unfoldable pub tokens : Tokens ℤ
unfolding read_back
tokens = record {
  decode_secret = λ s. some s;
  check_totp = λ secret token now. some (beq secret token);
  add_day = λ t. some (t +ℤ pos 86400);
  jwt_encode = λ secret claims. some (secret ++ (serde_of claims_codec).to_vec claims);
  jwt_decode = λ now secret token. read_claims now (unseal secret token);
  jwt_decode-jwt_encode = read_back;
}

abbrev pub admin_service : List (Bytes × Bytes) → Admin ℤ Db
admin_service rows = record { kv = kv rows; platform = platform; keys = keys }

abbrev pub jwt_secret : Bytes
jwt_secret = ascii "secret"
