-- ===== src/Db/Server/KeyValues/Tests.antt =====
-- The calls of db/src/server.rs at concrete requests, on a node whose writes all commit.
use infovulcan.Common.{◌≡◌, refl, ◌⊎◌, inl, inr, Option, none, some, [], ◌∷◌, beq, Result, ok, err}
use infovulcan.Common.Outcome.{done}
use infovulcan.Kv.{Kv}
use infovulcan.Db.Sample.{backend}
use infovulcan.Db.Machine.{DbResponse, apply, apply_entry}
use infovulcan.Db.Server.{ClientWrite}
use infovulcan.Db.Server.Calls.{Commits}
use infovulcan.Db.Server.KeyValues.{put_call}
use infovulcan.Db.Server.KeyValues.Store.{kv, get_call-put_call}

abbrev Db : Type 0
Db = backend.sled.Db

-- An entry that the state machine refuses is reported as a failure, without its effects.
abbrev accepted : Result DbResponse × Db → Db → Option DbResponse × Db
accepted (ok r, d') d = (some r, d')
accepted (err e, d') d = (none, d)

write_through : ClientWrite backend
write_through entry d = accepted (apply backend entry d) d

write_through-Commits : Commits backend write_through
unfolding write_through Commits
write_through-Commits entry d = either (apply backend entry d)
  where
    either :
        (x : Result DbResponse × Db)
        → ((accepted x d).0 ≡ none)
          ⊎ ((r : DbResponse) × (d' : Db) × (x ≡ (ok r, d')) × (accepted x d ≡ (some r, d')))
    either (ok r, d') = inr (r, d', refl, refl)
    either (err e, d') = inl refl

abbrev calls : Kv Db
calls = kv backend write_through

put : (calls.put backend.sled.empty (1 ∷ []) (2 ∷ []) (3 ∷ [])).0 ≡ done tt
unfolding kv put_call write_through apply apply_entry
put = refl

get_call-put_call_example :
    calls.get (calls.put backend.sled.empty (1 ∷ []) (2 ∷ []) (3 ∷ [])).1 (1 ∷ []) (2 ∷ [])
    ≡ done (some (3 ∷ []))
unfolding beq
get_call-put_call_example =
    get_call-put_call backend write_through backend.sled.empty (1 ∷ []) (2 ∷ []) (3 ∷ []) (1 ∷ [])
      (2 ∷ []) write_through-Commits put
