-- ===== src/Custodian/Server/LockCalls/Tests.antt =====
-- A lock taken through custodian/src/server.rs at a concrete request, on a node that commits.
use infovulcan.Common.{
  ℕ, ◌≡◌, refl, ◌⊎◌, inl, inr, Option, none, some, [], ◌∷◌, arith, Bytes, Result, ok, err,
}
use infovulcan.Common.Int.{pos}
use infovulcan.Common.Outcome.{failed}
use infovulcan.Custodian.Types.{acquire_lock, LockResponse}
use infovulcan.Custodian.Locks.{new_lock}
use infovulcan.Custodian.Locks.Table.{empty-IsReadable}
use infovulcan.Custodian.Machine.{apply}
use infovulcan.Custodian.Sample.{backend}
use infovulcan.Custodian.Server.{internal}
use infovulcan.Custodian.Server.LockCalls.{
  ClientWrite, LockRequest, lock_ttl_secs, acquire_lock_call,
}
use infovulcan.Custodian.Server.LockCalls.Answers.{
  IsTtl, Commits, Gets, Blocked, acquire_lock_call_lem,
}

abbrev Db : Type 0
Db = backend.sled.Db

abbrev number : Bytes → Option ℕ
number [] = none
number (x ∷ xs) = some x

abbrev text : ℕ → Bytes
text u = u ∷ []

-- A command that the state machine fails on is reported as a failure, without its effects.
abbrev accepted : Result LockResponse × Db → Db → Option LockResponse × Db
accepted (ok r, d') d = (some r, d')
accepted (err e, d') d = (none, d)

write_through : ClientWrite backend number text
write_through c d = accepted (apply backend c d) d

write_through-Commits : Commits backend number text write_through
unfolding write_through Commits
write_through-Commits c d = either (apply backend c d)
  where
    either :
        (x : Result LockResponse × Db)
        → ((accepted x d).0 ≡ none)
          ⊎ ((r : LockResponse) × (d' : Db) × (x ≡ (ok r, d')) × (accepted x d ≡ (some r, d')))
    either (ok r, d') = inr (r, d', refl, refl)
    either (err e, d') = inl refl

abbrev request : LockRequest
request = record { ticket_id = 1; user_uuid = 7 ∷ [] }

acquire_lock_call_lem_example :
    let c = acquire_lock 1 7 (pos 100) (lock_ttl_secs none) in
    let r =
      acquire_lock_call backend number text write_through
        (pos 100)
        none
        request
        backend.sled.empty in
    IsTtl none (lock_ttl_secs none)
    × ((r.0 ≡ failed internal)
        ⊎ Gets backend number text c 1
            (new_lock backend 1 7 (pos 100) (lock_ttl_secs none))
            r
            backend.sled.empty
        ⊎ Blocked backend number text c 1 r backend.sled.empty)
acquire_lock_call_lem_example =
    acquire_lock_call_lem backend number text write_through (pos 100) none request 7
      backend.sled.empty write_through-Commits (empty-IsReadable backend) (omega arith) refl
