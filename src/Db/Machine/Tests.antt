-- ===== src/Db/Machine/Tests.antt =====
-- The theorems on users and on the replicated state machine at concrete inputs.
use infovulcan.Common.{
  ℕ, ◌+◌, ◌≤◌, ◌≡◌, true, Option, none, some, List, [], ◌∷◌, ◌++◌, arith, ascii, not_found, ok, err,
}
use infovulcan.Common.Int.{pos}
use infovulcan.Openraft.{LogId, Entry, blank, normal, membership}
use infovulcan.Db.Types.{LogEntry, UserIndexFields, StoredUser}
use infovulcan.Db.Sample.{backend, sample_index}
use infovulcan.Db.Tickets.Invariant.{last_id, IsConsistent}
use infovulcan.Db.Tickets.Start.{empty-IsConsistent, last_id-empty}
use infovulcan.Db.Users.{create_user, get_user, update_user, soft_delete_user}
use infovulcan.Db.Users.Effect.{Writes}
use infovulcan.Db.Users.Operations.{fresh_user, updated_user, marked_user, user-Writes}
use infovulcan.Db.Machine.{StateMachine, apply_to_state_machine}
use infovulcan.Db.Machine.Consistency.{apply_to_state_machine-IsConsistent}

abbrev Db : Type 0
Db = backend.sled.Db

start : Db
start = backend.sled.empty

start-IsConsistent : IsConsistent backend start
unfolding start
start-IsConsistent = empty-IsConsistent backend

last_id-start : last_id backend start ≡ 0
unfolding start
last_id-start = last_id-empty backend

abbrev kim : UserIndexFields
kim = record { username = ascii "kim"; email = ascii "kim@north"; role = 3 }

user-Writes_example :
    Writes backend start
      (create_user backend start (ascii "u1") (7 ∷ []) kim)
      (ascii "u1")
      none
      (fresh_user (7 ∷ []) kim)
    × ((old : StoredUser)
        → get_user backend start (ascii "u1") true ≡ ok (some old)
        → ((update_user backend start (ascii "u1") (7 ∷ []) kim).0 ≡ ok tt)
          × Writes backend start
              (update_user backend start (ascii "u1") (7 ∷ []) kim).1
              (ascii "u1")
              (some old)
              (updated_user old (7 ∷ []) kim)
          × ((soft_delete_user backend start (ascii "u1") (pos 5)).0 ≡ ok tt)
          × Writes backend start
              (soft_delete_user backend start (ascii "u1") (pos 5)).1
              (ascii "u1")
              (some old)
              (marked_user old (pos 5)))
    × (get_user backend start (ascii "u1") true ≡ ok none
        → (update_user backend start (ascii "u1") (7 ∷ []) kim ≡ (err not_found, start))
          × (soft_delete_user backend start (ascii "u1") (pos 5) ≡ (err not_found, start)))
user-Writes_example = user-Writes backend start (ascii "u1") (7 ∷ []) kim (pos 5)

abbrev stored : Option LogId → ℕ → Option LogId × ℕ
stored l m = (l, m)

abbrev at_index : ℕ → LogId
at_index i = record { leader_id = record { term = 1; node_id = 1 }; index = i }

abbrev log : List (Entry LogEntry ℕ)
log =
    record { log_id = at_index 1; payload = blank }
    ∷ record { log_id = at_index 2; payload = membership 3 }
    ∷ []

abbrev writes : List (Entry LogEntry ℕ)
writes =
    record { log_id = at_index 3; payload = normal (LogEntry.create_ticket (7 ∷ []) sample_index) }
    ∷ record { log_id = at_index 4; payload = normal (LogEntry.soft_delete_ticket 9 (pos 5)) }
    ∷ []

abbrev machine : StateMachine backend stored
machine = record { last_applied_log = none; last_membership = (none, 0); storage = start }

apply_to_state_machine-IsConsistent_example :
    let d' = (apply_to_state_machine backend stored (log ++ writes) machine).1.storage in
    IsConsistent backend d' × (last_id backend d' ≤ last_id backend start + 4)
apply_to_state_machine-IsConsistent_example =
    apply_to_state_machine-IsConsistent backend stored (log ++ writes) machine
      (tt, (tt, (tt, (omega arith, tt)))) start-IsConsistent (rw last_id-start (omega arith))
