-- ===== src/Db/Server/Users/Tests.antt =====
-- The calls of db/src/server.rs at concrete requests, on a node whose writes all commit.
use infovulcan.Common.{
  ◌≡◌, refl, ◌⊎◌, inl, inr, Bool, true, false, Option, none, some, [], ◌∷◌, not_found, Result, ok,
  err,
}
use infovulcan.Common.Int.{pos}
use infovulcan.Common.Outcome.{done, failed}
use infovulcan.Db.Sample.{backend}
use infovulcan.Db.Tickets.{write_entries}
use infovulcan.Db.Users.{
  soft_delete_user, existing_user, create_user, write_user_indexes, user_index_entries,
}
use infovulcan.Db.Machine.{DbResponse, apply, apply_entry}
use infovulcan.Db.Server.{ClientWrite, not_found}
use infovulcan.Db.Server.Calls.{Commits}
use infovulcan.Db.Server.Users.{
  UserWrite, user_index_from_proto, UserLookup, create_user_call, get_user_call,
  soft_delete_user_call,
}
use infovulcan.Db.Server.Users.Calls.{created, deletion, fresh_record, user_lifecycle}

abbrev Db : Type 0
Db = backend.sled.Db

-- An entry that the state machine refuses is reported as a failure, without its effects.
abbrev accepted : Result DbResponse × Db → Db → Option DbResponse × Db
accepted (ok r, d') d = (some r, d')
accepted (err e, d') d = (none, d)

write_through : ClientWrite backend
write_through entry d = accepted (apply backend entry d) d

write_through-Commits : Commits backend write_through
unfolding write_through Commits
write_through-Commits entry d = either (apply backend entry d)
  where
    either :
        (x : Result DbResponse × Db)
        → ((accepted x d).0 ≡ none)
          ⊎ ((r : DbResponse) × (d' : Db) × (x ≡ (ok r, d')) × (accepted x d ≡ (some r, d')))
    either (ok r, d') = inr (r, d', refl, refl)
    either (err e, d') = inl refl

abbrev request : UserWrite
request = record { user_uuid = 5 ∷ []; encrypted_body = 9 ∷ []; index = none }

abbrev start : Db
start = backend.sled.empty

creates :
    (create_user_call backend write_through request start).0
    ≡ done (fresh_record backend write_through request)
unfolding create_user_call write_through apply apply_entry
creates = refl

deletes : (deletion backend write_through request (pos 30) false start).0 ≡ done true
unfolding soft_delete_user_call create_user_call write_through apply apply_entry soft_delete_user
    existing_user backend create_user write_user_indexes write_entries user_index_entries
    user_index_from_proto
deletes = refl

user_lifecycle_example :
    let shown = fresh_record backend write_through request in
    let lookup : Bool → UserLookup = λ i. record { user_uuid = 5 ∷ []; include_deleted = i } in
    let after = (deletion backend write_through request (pos 30) false start).1 in
    (shown ≡ fresh_record backend write_through request)
    × (get_user_call backend (lookup false) (created backend write_through request start)
        ≡ done shown)
    × (get_user_call backend (lookup false) after ≡ failed not_found)
    × (get_user_call backend (lookup true) after
        ≡ done (record shown { deleted = true; deleted_at_unix = pos 30 }))
user_lifecycle_example =
    user_lifecycle backend write_through request (pos 30) start
      (fresh_record backend write_through request) true false write_through-Commits creates deletes
