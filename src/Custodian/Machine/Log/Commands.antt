-- ===== src/Custodian/Machine/Log/Commands.antt =====
-- The entries of a log of custodian/src/raft.rs and the commands in it.
use infovulcan.Common.{
  ◌≡◌, refl, sym, ap, ◌∙◌, subst, Option, some, List, [], ◌∷◌, arith, Result, ok,
}
use infovulcan.Openraft.{LogId, Entry, EntryPayload, blank, normal, membership}
use infovulcan.Custodian.Types.{Backend, LockCommand, LockResponse}
use infovulcan.Custodian.Locks.Table.{lock, IsReadable}
use infovulcan.Custodian.Machine.{apply, apply_all, granted}
use infovulcan.Custodian.Machine.Refinement.{ticket_of, answer, apply_refines}
use infovulcan.Custodian.Machine.Exclusion.{InRange}
use infovulcan.Custodian.Machine.Log.{StateMachine, apply_one, apply_to_state_machine}

module _ {M : Type 0} where
  abbrev command_of : EntryPayload LockCommand M → List LockCommand → List LockCommand
  command_of blank cs = cs
  command_of (normal c) cs = c ∷ cs
  command_of (membership m) cs = cs

  -- The commands among the entries.
  unfoldable pub commands : List (Entry LockCommand M) → List LockCommand
  commands [] = []
  commands (e ∷ es) = command_of e.payload (commands es)

  -- The log id of the last entry, or the one from before.
  abbrev pub last_of : List (Entry LockCommand M) → Option LogId → Option LogId
  last_of [] l = l
  last_of (e ∷ es) l = last_of es (some e.log_id)

module _ (b : Backend) {M Stored : Type 0} (stored : Option LogId → M → Stored) where
  abbrev after : EntryPayload LockCommand M → b.sled.Db → b.sled.Db
  after blank d = d
  after (normal c) d = (apply b c d).1
  after (membership m) d = d

  abbrev reply : EntryPayload LockCommand M → b.sled.Db → LockResponse
  reply blank d = granted
  reply (normal c) d = answer b c (lock b d (ticket_of c))
  reply (membership m) d = granted

  -- One answer for each entry: for a command the one that the policy calls for, on the database that
  -- the entries before it leave.
  unfoldable pub answers : List (Entry LockCommand M) → b.sled.Db → List LockResponse
  answers [] d = []
  answers (e ∷ es) d = reply e.payload d ∷ answers es (after e.payload d)

  apply_one_lem :
      (p : EntryPayload LockCommand M) (log_id : LogId) (cs : List LockCommand)
      (sm : StateMachine b stored)
      → IsReadable b sm.storage
      → InRange b (command_of p cs)
      → let r = apply_one b stored (record { log_id = log_id; payload = p }) sm in
        (r.0 ≡ ok (reply p sm.storage))
        × (r.1.storage ≡ after p sm.storage)
        × (r.1.last_applied_log ≡ some log_id)
        × IsReadable b (after p sm.storage)
        × InRange b cs
        × (apply_all b (command_of p cs) sm.storage ≡ apply_all b cs (after p sm.storage))
  unfolding apply_one apply_all
  apply_one_lem blank log_id cs sm r range = (refl, refl, refl, r, range, refl)
  apply_one_lem (normal c) log_id cs sm r range =
      let law = apply_refines b c sm.storage r range.0 in (law.0, refl, refl, law.1, range.1, refl)
  apply_one_lem (membership m) log_id cs sm r range = (refl, refl, refl, r, range, refl)

  apply_to_state_machine-cons :
      (e : Entry LockCommand M) (es : List (Entry LockCommand M)) (sm : StateMachine b stored)
      (x : LockResponse) (xs : List LockResponse)
      → (apply_one b stored e sm).0 ≡ ok x
      → (apply_to_state_machine b stored es (apply_one b stored e sm).1).0 ≡ ok xs
      → apply_to_state_machine b stored (e ∷ es) sm
        ≡ (ok (x ∷ xs), (apply_to_state_machine b stored es (apply_one b stored e sm).1).1)
  unfolding apply_to_state_machine
  apply_to_state_machine-cons e es sm x xs h k = ground (arith, h, k)

  abbrev Applied : Type 0
  Applied = Result (List LockResponse) × StateMachine b stored

  abbrev told_all : List LockResponse → Result (List LockResponse)
  told_all rs = ok rs

  -- On a database whose locks are readable, for a log whose commands are on tickets that are `u64`:
  -- the loop does not fail, answers each entry, a command as the policy says, leaves the database
  -- that the commands among the entries leave, one after the other, and records the log id of the
  -- last entry; the locks stay readable.
  pub apply_to_state_machine_lem :
      (es : List (Entry LockCommand M)) (sm : StateMachine b stored)
      → IsReadable b sm.storage
      → InRange b (commands es)
      → let r = apply_to_state_machine b stored es sm in
        (r.0 ≡ ok (answers es sm.storage))
        × (r.1.storage ≡ apply_all b (commands es) sm.storage)
        × (r.1.last_applied_log ≡ last_of es sm.last_applied_log)
        × IsReadable b r.1.storage
  unfolding apply_to_state_machine commands apply_all answers
  apply_to_state_machine_lem [] sm r range = (refl, refl, refl, r)
  apply_to_state_machine_lem (e ∷ es) sm r range =
      let (told, state, log, readable, range', all) =
        apply_one_lem e.payload e.log_id (commands es) sm r range in
      let sm1 = (apply_one b stored e sm).1 in
      let rec =
        apply_to_state_machine_lem es sm1 (subst (IsReadable b) (sym state) readable) range' in
      let cons =
        apply_to_state_machine-cons e es sm (reply e.payload sm.storage) (answers es sm1.storage)
          told rec.0 in
      (
        ap (λ (x : Applied). x.0) cons
            ∙ ap (λ d. told_all (reply e.payload sm.storage ∷ answers es d)) state,
        ap (λ (x : Applied). x.1.storage) cons
            ∙ rec.1
            ∙ ap (apply_all b (commands es)) state
            ∙ sym all,
        ap (λ (x : Applied). x.1.last_applied_log) cons ∙ rec.2 ∙ ap (last_of es) log,
        subst (λ (x : Applied). IsReadable b x.1.storage) (sym cons) rec.3,
      )
