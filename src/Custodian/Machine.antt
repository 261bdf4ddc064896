-- ===== src/Custodian/Machine.antt =====
-- `CustodianStateMachine::apply` of custodian/src/raft.rs: locks are exclusive.
pub mod Refinement
pub mod Exclusion
pub mod Progress
pub mod Log
use infovulcan.Common.{
  ℕ, zero, suc, ◌+◌, ◌-◌, ◌*◌, ◌/◌, ◌%◌, ◌^◌, ◌≤◌, ◌<◌, ◌≡◌, refl, sym, ap, ◌∙◌, subst, ◌≢◌, ◌↔◌,
  ◌⊎◌, inl, inr, Bool, true, false, not, ◌&&◌, ◌||◌, Option, none, some, List, [], ◌∷◌, ◌++◌, map,
  arith, ltb, leb, ◌==◌, if◌then◌else◌, ltb→lt, lt→ltb, leb→le, le→leb, ==_iff, tests, Bool-cases,
  Option-cases, length, length-append, take, drop, replicate, filter, In, In-filter, of_In-filter,
  All, All-In, Bytes, ascii, beq, beq_refl, eq_of_beq, starts_with, starts_with-append, blt, ble,
  blt_irrefl, blt_trans, blt_total, Error, not_found, corrupt, Result, ok, err, or_err,
}
use infovulcan.Common.Int.{ℤ}
use infovulcan.Custodian.Types.{
  Backend, LockInfo, LockCommand, acquire_lock, release_lock, LockError, locked_by, held_by_another,
  LockResponse, is_expired,
}
use infovulcan.Custodian.Locks.{Lock, acquire_lock_at, release, get_lock_info}

abbrev pub granted : LockResponse
granted = record { success = true; error = none; value = none }

abbrev pub refused : LockError → LockResponse
refused e = record { success = false; error = some e; value = none }

module _ (b : Backend) where
  -- The guard of the first arm: held by another user, and not expired at the command's time.
  abbrev pub blocks : Lock b → ℕ → ℤ → Bool
  blocks existing user_id at_unix =
      not (existing.user_id == user_id) && not (is_expired existing at_unix)

  unfoldable pub apply : LockCommand → b.sled.Db → Result LockResponse × b.sled.Db
  apply (acquire_lock ticket_id user_id at_unix ttl_secs) d =
      let acquired : Result LockResponse × b.sled.Db =
        (ok granted, acquire_lock_at b d ticket_id user_id at_unix ttl_secs) in
      elim (get_lock_info b d ticket_id) [
        | err e ↦ (err e, d)
        | ok none ↦ acquired
        | ok (some existing) ↦
            if blocks existing user_id at_unix
            then (ok (refused (locked_by ticket_id existing.user_id)), d)
            else acquired
      ]
  apply (release_lock ticket_id user_id) d = elim (get_lock_info b d ticket_id) [
    | err e ↦ (err e, d)
    | ok none ↦ (ok granted, release b d ticket_id)
    | ok (some existing) ↦
        if not (existing.user_id == user_id)
        then (ok (refused (held_by_another ticket_id)), d)
        else (ok granted, release b d ticket_id)
  ]

  -- A committed log, applied in order.
  unfoldable pub apply_all : List LockCommand → b.sled.Db → b.sled.Db
  apply_all [] d = d
  apply_all (c ∷ cs) d = apply_all cs (apply c d).1
