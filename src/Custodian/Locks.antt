-- ===== src/Custodian/Locks.antt =====
-- The lock table of custodian/src/storage.rs.
pub mod Table
use infovulcan.Common.{
  ℕ, zero, suc, ◌+◌, ◌-◌, ◌*◌, ◌/◌, ◌%◌, ◌^◌, ◌≤◌, ◌<◌, ◌≡◌, refl, sym, ap, ◌∙◌, subst, ◌≢◌, ◌↔◌,
  ◌⊎◌, inl, inr, Bool, true, false, not, ◌&&◌, ◌||◌, Option, none, some, List, [], ◌∷◌, ◌++◌, map,
  arith, ltb, leb, ◌==◌, if◌then◌else◌, ltb→lt, lt→ltb, leb→le, le→leb, ==_iff, tests, Bool-cases,
  Option-cases, length, length-append, take, drop, replicate, filter, In, In-filter, of_In-filter,
  All, All-In, Bytes, ascii, beq, beq_refl, eq_of_beq, starts_with, starts_with-append, blt, ble,
  blt_irrefl, blt_trans, blt_total, Error, not_found, corrupt, Result, ok, err, or_err,
}
use infovulcan.Common.Int.{ℤ, pos, le_ℤ, ◌+ℤ◌}
use infovulcan.Common.Word.{to_be_bytes, from_be_bytes}
use infovulcan.Custodian.Types.{
  Backend, LockInfo, LockCommand, acquire_lock, release_lock, tree_locks,
}

-- `if ttl_secs > 0 { at_unix + ttl_secs } else { 0 }`
abbrev pub expiry : ℤ → ℤ → ℤ
expiry at_unix ttl_secs = if le_ℤ ttl_secs (pos 0) then pos 0 else at_unix +ℤ ttl_secs

abbrev pub or_default {ℓ} : {A : Type ℓ} → Option A → A → A
or_default none a = a
or_default (some x) a = x

module _ (b : Backend) where
  abbrev pub Lock : Type 0
  Lock = LockInfo b.DateTime

  abbrev pub new_lock : ℕ → ℕ → ℤ → ℤ → Lock
  new_lock ticket_id user_id at_unix ttl_secs = record {
    ticket_id = ticket_id;
    user_id = user_id;
    acquired_at = or_default (b.from_timestamp at_unix) b.default_time;
    expires_at_unix = expiry at_unix ttl_secs;
  }

  unfoldable pub acquire_lock_at : b.sled.Db → ℕ → ℕ → ℤ → ℤ → b.sled.Db
  acquire_lock_at d ticket_id user_id at_unix ttl_secs =
      b.sled.insert d tree_locks (to_be_bytes ticket_id)
        (b.locks.to_vec (new_lock ticket_id user_id at_unix ttl_secs))

  unfoldable pub release : b.sled.Db → ℕ → b.sled.Db
  release d ticket_id = b.sled.remove d tree_locks (to_be_bytes ticket_id)

  unfoldable pub get_lock_info : b.sled.Db → ℕ → Result (Option Lock)
  get_lock_info d ticket_id = elim (b.sled.get d tree_locks (to_be_bytes ticket_id)) [
    | none ↦ ok none
    | some value ↦ elim (b.locks.from_slice value) [
      | none ↦ err corrupt
      | some lock ↦ ok (some lock)
    ]
  ]

  unfoldable pub is_locked : b.sled.Db → ℕ → Bool
  is_locked d ticket_id = elim (b.sled.get d tree_locks (to_be_bytes ticket_id)) [
    | none ↦ false
    | some value ↦ true
  ]

  -- `LockCommand::apply`: the raw change, with no check of the holder.
  unfoldable pub apply_raw : LockCommand → b.sled.Db → b.sled.Db
  apply_raw (acquire_lock t u at_unix ttl_secs) d = acquire_lock_at d t u at_unix ttl_secs
  apply_raw (release_lock t u) d = release d t
