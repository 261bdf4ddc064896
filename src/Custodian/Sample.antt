-- ===== src/Custodian/Sample.antt =====
-- A concrete backend for custodian/src/storage.rs. A date is its unix seconds.
use infovulcan.Common.{ℕ, refl, Option, some}
use infovulcan.Common.Int.{ℤ, pos}
use infovulcan.Sled.Model.{sled_model}
use infovulcan.Serde.Codec.{Codec, nat_codec, int_codec, pair_codec, via_codec, serde_of}
use infovulcan.Custodian.Types.{Backend, LockInfo}

abbrev pub of_lock : LockInfo ℤ → (ℕ × ℕ) × (ℤ × ℤ)
of_lock l = ((l.ticket_id, l.user_id), (l.acquired_at, l.expires_at_unix))

abbrev pub to_lock : (ℕ × ℕ) × (ℤ × ℤ) → Option (LockInfo ℤ)
to_lock p =
    some
      (record { ticket_id = p.0.0; user_id = p.0.1; acquired_at = p.1.0; expires_at_unix = p.1.1 })

unfoldable pub lock_codec : Codec (LockInfo ℤ)
lock_codec =
    via_codec (pair_codec (pair_codec nat_codec nat_codec) (pair_codec int_codec int_codec)) of_lock
      to_lock (λ l. refl)

abbrev pub backend : Backend
backend = record {
  sled = sled_model;
  DateTime = ℤ;
  from_timestamp = λ t. some t;
  default_time = pos 0;
  locks = serde_of lock_codec;
}
