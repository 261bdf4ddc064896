-- ===== src/Custodian/Machine/Log/Tests.antt =====
-- The loop of custodian/src/raft.rs on a concrete log.
use infovulcan.Common.{ℕ, ◌≡◌, Option, none, List, [], ◌∷◌, arith, ok}
use infovulcan.Common.Int.{pos}
use infovulcan.Openraft.{LogId, Entry, EntryPayload, blank, normal, membership}
use infovulcan.Custodian.Types.{LockCommand, acquire_lock, release_lock}
use infovulcan.Custodian.Locks.Table.{IsReadable, empty-IsReadable}
use infovulcan.Custodian.Machine.{apply_all}
use infovulcan.Custodian.Sample.{backend}
use infovulcan.Custodian.Machine.Log.{StateMachine, apply_to_state_machine}
use infovulcan.Custodian.Machine.Log.Commands.{
  commands, last_of, answers, apply_to_state_machine_lem,
}

abbrev stored : Option LogId → ℕ → ℕ
stored l m = m

abbrev at : ℕ → LogId
at i = record { leader_id = record { term = 1; node_id = 1 }; index = i }

abbrev entry : ℕ → EntryPayload LockCommand ℕ → Entry LockCommand ℕ
entry i p = record { log_id = at i; payload = p }

abbrev log : List (Entry LockCommand ℕ)
log =
    entry 1 blank
    ∷ entry 2 (normal (acquire_lock 1 7 (pos 100) (pos 60)))
    ∷ entry 3 (membership 5)
    ∷ entry 4 (normal (release_lock 1 8))
    ∷ []

abbrev start : StateMachine backend stored
start = record { last_applied_log = none; last_membership = 0; storage = backend.sled.empty }

apply_to_state_machine_lem_example :
    let r = apply_to_state_machine backend stored log start in
    (r.0 ≡ ok (answers backend stored log backend.sled.empty))
    × (r.1.storage ≡ apply_all backend (commands log) backend.sled.empty)
    × (r.1.last_applied_log ≡ last_of log none)
    × IsReadable backend r.1.storage
unfolding commands
apply_to_state_machine_lem_example =
    apply_to_state_machine_lem backend stored log start (empty-IsReadable backend)
      (omega arith, (omega arith, tt))
