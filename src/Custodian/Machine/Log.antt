-- ===== src/Custodian/Machine/Log.antt =====
-- `apply_to_state_machine` of custodian/src/raft.rs: committed entries, applied in order.
pub mod Commands
mod Tests
use infovulcan.Common.{
  ℕ, zero, suc, ◌+◌, ◌-◌, ◌*◌, ◌/◌, ◌%◌, ◌^◌, ◌≤◌, ◌<◌, ◌≡◌, refl, sym, ap, ◌∙◌, subst, ◌≢◌, ◌↔◌,
  ◌⊎◌, inl, inr, Bool, true, false, not, ◌&&◌, ◌||◌, Option, none, some, List, [], ◌∷◌, ◌++◌, map,
  arith, ltb, leb, ◌==◌, if◌then◌else◌, ltb→lt, lt→ltb, leb→le, le→leb, ==_iff, tests, Bool-cases,
  Option-cases, length, length-append, take, drop, replicate, filter, In, In-filter, of_In-filter,
  All, All-In, Bytes, ascii, beq, beq_refl, eq_of_beq, starts_with, starts_with-append, blt, ble,
  blt_irrefl, blt_trans, blt_total, Error, not_found, corrupt, Result, ok, err, or_err,
  Result-cases,
}
use infovulcan.Openraft.{LogId, Entry, EntryPayload, blank, normal, membership}
use infovulcan.Custodian.Types.{Backend, LockCommand, LockResponse}
use infovulcan.Custodian.Machine.{apply, granted}

-- The memberships of a cluster are openraft's.
module _ (b : Backend) {M Stored : Type 0} (stored : Option LogId → M → Stored) where
  pub record StateMachine : Type 0 where
    pub last_applied_log : Option LogId
    pub last_membership : Stored
    pub storage : b.sled.Db

  -- One turn of the loop.
  unfoldable pub apply_one : Entry LockCommand M → StateMachine → Result LockResponse × StateMachine
  apply_one entry sm = elim entry.payload [
    | blank ↦ (ok granted, record sm { last_applied_log = some entry.log_id })
    | normal log_entry ↦
        let r = apply b log_entry sm.storage in
        (r.0, record sm { last_applied_log = some entry.log_id; storage = r.1 })
    | membership m ↦ (
      ok granted,
      record sm {
        last_applied_log = some entry.log_id;
        last_membership = stored (some entry.log_id) m;
      },
    )
  ]

  -- An error stops the loop.
  unfoldable pub apply_to_state_machine :
      List (Entry LockCommand M) → StateMachine → Result (List LockResponse) × StateMachine
  apply_to_state_machine [] sm = (ok [], sm)
  apply_to_state_machine (entry ∷ entries) sm =
      let one = apply_one entry sm in
      let rest = apply_to_state_machine entries one.1 in
      elim one.0 [
        | err e ↦ (err e, one.1)
        | ok r ↦ elim rest.0 [ err e ↦ (err e, rest.1) | ok rs ↦ (ok (r ∷ rs), rest.1) ]
      ]
