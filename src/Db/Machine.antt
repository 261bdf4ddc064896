-- ===== src/Db/Machine.antt =====
-- The replicated state machine of the database: `LogEntry::apply` of db/src/storage.rs,
-- `DbStateMachine` and `apply_to_state_machine` of db/src/raft.rs.
pub mod Batches
pub mod Frame
pub mod Consistency
mod Tests
use infovulcan.Common.{
  ℕ, zero, suc, ◌+◌, ◌-◌, ◌*◌, ◌/◌, ◌%◌, ◌^◌, ◌≤◌, ◌<◌, ◌≡◌, refl, sym, ap, ◌∙◌, subst, ◌≢◌, ◌↔◌,
  ◌⊎◌, inl, inr, Bool, true, false, not, ◌&&◌, ◌||◌, Option, none, some, List, [], ◌∷◌, ◌++◌, map,
  arith, ltb, leb, ◌==◌, if◌then◌else◌, ltb→lt, lt→ltb, leb→le, le→leb, ==_iff, tests, Bool-cases,
  Option-cases, length, length-append, take, drop, replicate, filter, In, In-filter, of_In-filter,
  All, All-In, Bytes, ascii, beq, beq_refl, eq_of_beq, starts_with, starts_with-append, blt, ble,
  blt_irrefl, blt_trans, blt_total, Error, not_found, corrupt, Result, ok, err, or_err,
}
use infovulcan.Common.Word.{to_be_bytes}
use infovulcan.Openraft.{LogId, Entry, EntryPayload, blank, normal, membership}
use infovulcan.Db.Types.{Backend, LogEntry}
use infovulcan.Db.Storage.{put, get, delete, batch_put}
use infovulcan.Db.Tickets.{create_ticket, update_ticket, soft_delete_ticket}
use infovulcan.Db.Users.{create_user, update_user, soft_delete_user}

pub record DbResponse : Type 0 where
  pub success : Bool
  pub value : Option Bytes

-- The result of a call without a payload of its own.
abbrev pub no_payload {ℓ} : {A : Type ℓ} → Result A → Result (Option Bytes)
no_payload (ok a) = ok none
no_payload (err e) = err e

abbrev pub id_payload : Result ℕ → Result (Option Bytes)
id_payload (ok id) = ok (some (to_be_bytes id))
id_payload (err e) = err e

abbrev pub is_some {ℓ} : {A : Type ℓ} → Option A → Bool
is_some none = false
is_some (some a) = true

module _ (b : Backend) where
  unfoldable pub apply_entry : LogEntry → b.sled.Db → Result (Option Bytes) × b.sled.Db
  apply_entry (LogEntry.put collection key value) d = (ok none, put b d collection key value)
  apply_entry (LogEntry.get collection key) d = (ok none, d)
  apply_entry (LogEntry.delete collection key) d = (ok none, delete b d collection key)
  apply_entry (LogEntry.batch_put collection pairs) d =
      (ok none, (batch_put b d collection pairs).0)
  apply_entry (LogEntry.create_ticket body index) d =
      let r = create_ticket b d body index in (id_payload r.0, r.1)
  apply_entry (LogEntry.update_ticket ticket_id body index) d =
      let r = update_ticket b d ticket_id body index in (no_payload r.0, r.1)
  apply_entry (LogEntry.soft_delete_ticket ticket_id at_unix) d =
      let r = soft_delete_ticket b d ticket_id at_unix in (no_payload r.0, r.1)
  apply_entry (LogEntry.create_user user_uuid body index) d =
      (ok none, create_user b d user_uuid body index)
  apply_entry (LogEntry.update_user user_uuid body index) d =
      let r = update_user b d user_uuid body index in (no_payload r.0, r.1)
  apply_entry (LogEntry.soft_delete_user user_uuid at_unix) d =
      let r = soft_delete_user b d user_uuid at_unix in (no_payload r.0, r.1)

  -- The response to an entry that was applied.
  abbrev pub response : LogEntry → Option Bytes → b.sled.Db → DbResponse
  response (LogEntry.get collection key) applied d =
      let value = get b d collection key in record { success = is_some value; value = value }
  response _ applied d = record { success = true; value = applied }

  unfoldable pub apply : LogEntry → b.sled.Db → Result DbResponse × b.sled.Db
  apply entry d =
      let applied = apply_entry entry d in
      elim applied.0 [
        | err e ↦ (err e, applied.1)
        | ok payload ↦ (ok (response entry payload applied.1), applied.1)
      ]

  -- The memberships of a cluster are openraft's.
  module _ {M Stored : Type 0} (stored : Option LogId → M → Stored) where
    pub record StateMachine : Type 0 where
      pub last_applied_log : Option LogId
      pub last_membership : Stored
      pub storage : b.sled.Db

    -- One turn of the loop.
    unfoldable pub apply_one : Entry LogEntry M → StateMachine → Result DbResponse × StateMachine
    apply_one entry sm = elim entry.payload [
      | blank ↦ (
        ok (record { success = true; value = none }),
        record sm { last_applied_log = some entry.log_id },
      )
      | normal log_entry ↦
          let r = apply log_entry sm.storage in
          (r.0, record sm { last_applied_log = some entry.log_id; storage = r.1 })
      | membership m ↦ (
        ok (record { success = true; value = none }),
        record sm {
          last_applied_log = some entry.log_id;
          last_membership = stored (some entry.log_id) m;
        },
      )
    ]

    unfoldable pub apply_to_state_machine :
        List (Entry LogEntry M) → StateMachine → Result (List DbResponse) × StateMachine
    apply_to_state_machine [] sm = (ok [], sm)
    apply_to_state_machine (entry ∷ entries) sm =
        let one = apply_one entry sm in
        let rest = apply_to_state_machine entries one.1 in
        elim one.0 [
          | err e ↦ (err e, one.1)
          | ok r ↦ elim rest.0 [ err e ↦ (err e, rest.1) | ok rs ↦ (ok (r ∷ rs), rest.1) ]
        ]
