-- ===== src/Db/Server/Users/Calls.antt =====
-- The user calls of db/src/server.rs, from a client's point of view.
use infovulcan.Common.{
  ◌≡◌, refl, sym, ap, ◌∙◌, subst, inl, inr, Bool, true, false, none, some, arith, Bool-cases, Bytes,
  not_found, Result, ok,
}
use infovulcan.Common.Int.{ℤ}
use infovulcan.Common.Text.{is_empty}
use infovulcan.Common.Outcome.{Outcome, done, failed, done_inj}
use infovulcan.Db.Types.{Backend, LogEntry, StoredUser}
use infovulcan.Db.Users.{create_user, get_user, soft_delete_user}
use infovulcan.Db.Users.Operations.{fresh_user, marked_user, user-Writes}
use infovulcan.Db.Machine.{DbResponse, apply, apply_entry}
use infovulcan.Db.Server.{ClientWrite, Status, not_found}
use infovulcan.Db.Server.Calls.{Commits}
use infovulcan.Db.Server.Users.{
  UserWrite, UserLookup, UserRecord, user_index_from_proto, user_record, create_user_call,
  get_user_call, soft_delete_user_call,
}

module _ (b : Backend) (client_write : ClientWrite b) where
  abbrev pub stored_user : UserWrite → StoredUser
  stored_user req = fresh_user req.encrypted_body (user_index_from_proto req.index)

  get_user_call-found :
      (d : b.sled.Db) (uuid : Bytes) (include_deleted : Bool) (u : StoredUser)
      → get_user b d uuid include_deleted ≡ ok (some u)
      → get_user_call b (record { user_uuid = uuid; include_deleted = include_deleted }) d
        ≡ done (user_record uuid u)
  unfolding get_user_call
  get_user_call-found d uuid include_deleted u e = rw e refl

  get_user_call-missing :
      (d : b.sled.Db) (uuid : Bytes) (include_deleted : Bool)
      → get_user b d uuid include_deleted ≡ ok none
      → get_user_call b (record { user_uuid = uuid; include_deleted = include_deleted }) d
        ≡ failed not_found
  unfolding get_user_call
  get_user_call-missing d uuid include_deleted e = rw e refl

  abbrev lookup : Bytes → Bool → UserLookup
  lookup uuid i = record { user_uuid = uuid; include_deleted = i }

  abbrev create_entry : UserWrite → LogEntry
  create_entry req =
      LogEntry.create_user req.user_uuid req.encrypted_body (user_index_from_proto req.index)

  abbrev pub fresh_record : UserWrite → UserRecord
  fresh_record req = user_record req.user_uuid (stored_user req)

  abbrev pub Created : UserWrite → UserRecord → b.sled.Db → b.sled.Db → Type 0
  Created req shown d d' =
      (shown ≡ fresh_record req)
      × (d' ≡ create_user b d req.user_uuid req.encrypted_body (user_index_from_proto req.index))

  create_user_call-committed :
      (req : UserWrite) (d d' : b.sled.Db) (r : DbResponse)
      → is_empty req.user_uuid ≡ false
      → client_write (create_entry req) d ≡ (some r, d')
      → create_user_call b client_write req d ≡ (done (fresh_record req), d')
  unfolding create_user_call
  create_user_call-committed req d d' r f e = ground (arith, f, e)

  create_user_call-written :
      (req : UserWrite) (d d' : b.sled.Db) (r : DbResponse) (shown : UserRecord)
      → client_write (create_entry req) d ≡ (some r, d')
      → (create_user_call b client_write req d).0 ≡ done shown
      → (shown ≡ fresh_record req) × ((create_user_call b client_write req d).1 ≡ d')
  unfolding create_user_call
  create_user_call-written req d d' r shown e h = elim (Bool-cases (is_empty req.user_uuid)) [
    | inl t ↦ absurd (ground (arith, t, h))
    | inr f ↦
        let call = create_user_call-committed req d d' r f e in
        (
          done_inj (sym h ∙ ap (λ (x : Outcome Status UserRecord × b.sled.Db). x.0) call),
          ap (λ (x : Outcome Status UserRecord × b.sled.Db). x.1) call,
        )
  ]

  create_user_call-unwritten :
      (req : UserWrite) (d : b.sled.Db) (shown : UserRecord)
      → (client_write (create_entry req) d).0 ≡ none
      → (create_user_call b client_write req d).0 ≡ done shown
      → ⊥
  unfolding create_user_call
  create_user_call-unwritten req d shown e h = ground (arith, e, h)

  create_user_call-done :
      (req : UserWrite) (d : b.sled.Db) (shown : UserRecord)
      → Commits b client_write
      → (create_user_call b client_write req d).0 ≡ done shown
      → Created req shown d (create_user_call b client_write req d).1
  unfolding Commits apply apply_entry
  create_user_call-done req d shown commits h = elim (commits (create_entry req) d) [
    | inl e ↦ absurd (create_user_call-unwritten req d shown e h)
    | inr (r, d', a, e) ↦
        let (same, state) = create_user_call-written req d d' r shown e h in
        (same, state ∙ sym (ap (λ (x : Result DbResponse × b.sled.Db). x.1) a))
  ]

  apply-soft_delete_user :
      (now : ℤ) (uuid : Bytes) (d : b.sled.Db)
      → (soft_delete_user b d uuid now).0 ≡ ok tt
      → (apply b (LogEntry.soft_delete_user uuid now) d).1 ≡ (soft_delete_user b d uuid now).1
  unfolding apply apply_entry
  apply-soft_delete_user now uuid d w = rw (apply, w) refl

  soft_delete_user_call-committed :
      (now : ℤ) (req : UserLookup) (d d' : b.sled.Db) (r : DbResponse)
      → client_write (LogEntry.soft_delete_user req.user_uuid now) d ≡ (some r, d')
      → (soft_delete_user_call b client_write now req d).1 ≡ d'
  unfolding soft_delete_user_call
  soft_delete_user_call-committed now req d d' r e = ground (arith, e)

  soft_delete_user_call-unwritten :
      (now : ℤ) (req : UserLookup) (d : b.sled.Db) (ack : Bool)
      → (client_write (LogEntry.soft_delete_user req.user_uuid now) d).0 ≡ none
      → (soft_delete_user_call b client_write now req d).0 ≡ done ack
      → ⊥
  unfolding soft_delete_user_call
  soft_delete_user_call-unwritten now req d ack e h = ground (arith, e, h)

  soft_delete_user_call-done :
      (now : ℤ) (req : UserLookup) (d : b.sled.Db) (ack : Bool)
      → Commits b client_write
      → (soft_delete_user b d req.user_uuid now).0 ≡ ok tt
      → (soft_delete_user_call b client_write now req d).0 ≡ done ack
      → (soft_delete_user_call b client_write now req d).1
        ≡ (soft_delete_user b d req.user_uuid now).1
  unfolding Commits
  soft_delete_user_call-done now req d ack commits w h =
      elim (commits (LogEntry.soft_delete_user req.user_uuid now) d) [
        | inl e ↦ absurd (soft_delete_user_call-unwritten now req d ack e h)
        | inr (r, d', a, e) ↦
            soft_delete_user_call-committed now req d d' r e
            ∙ sym (ap (λ (x : Result DbResponse × b.sled.Db). x.1) a)
            ∙ apply-soft_delete_user now req.user_uuid d w
      ]

  abbrev pub created : UserWrite → b.sled.Db → b.sled.Db
  created req d = (create_user_call b client_write req d).1

  abbrev pub deletion : UserWrite → ℤ → Bool → b.sled.Db → Outcome Status Bool × b.sled.Db
  deletion req now include d =
      soft_delete_user_call b client_write now (lookup req.user_uuid include) (created req d)

  -- Where a write fails or is committed: when the creation of a user and then its soft deletion are
  -- both answered, the answer to the creation is the body of the request, not deleted; before the
  -- deletion a read gives that record, and after it a read that leaves out deleted users finds
  -- nothing, while one that includes them gives the record marked with the time of the deletion.
  pub user_lifecycle :
      (req : UserWrite) (now : ℤ) (d : b.sled.Db) (shown : UserRecord) (ack include : Bool)
      → Commits b client_write
      → (create_user_call b client_write req d).0 ≡ done shown
      → (deletion req now include d).0 ≡ done ack
      → (shown ≡ fresh_record req)
        × (get_user_call b (lookup req.user_uuid include) (created req d) ≡ done shown)
        × (get_user_call b (lookup req.user_uuid false) (deletion req now include d).1
            ≡ failed not_found)
        × (get_user_call b (lookup req.user_uuid true) (deletion req now include d).1
            ≡ done (record shown { deleted = true; deleted_at_unix = now }))
  user_lifecycle req now d shown ack include commits h1 h2 =
      let (same, state) = create_user_call-done req d shown commits h1 in
      let uuid = req.user_uuid in
      let index = user_index_from_proto req.index in
      let first = (user-Writes b d uuid req.encrypted_body index now).0 in
      let d0 = create_user b d uuid req.encrypted_body index in
      let (updated, updates, marks, marked) =
        (user-Writes b d0 uuid req.encrypted_body index now).1 (stored_user req)
          (first.found true) in
      let fresh : get_user_call b (lookup uuid include) d0 ≡ done (fresh_record req) =
        get_user_call-found d0 uuid include (stored_user req) (first.found include) in
      let able = subst (λ x. (soft_delete_user b x uuid now).0 ≡ ok tt) (sym state) marks in
      let back : (deletion req now include d).1 ≡ (soft_delete_user b d0 uuid now).1 =
        soft_delete_user_call-done now (lookup uuid include) (created req d) ack commits able h2
        ∙ ap (λ x. (soft_delete_user b x uuid now).1) state in
      let d2 = (soft_delete_user b d0 uuid now).1 in
      (
        same,
        ap (get_user_call b (lookup uuid include)) state ∙ fresh ∙ ap done (sym same),
        ap (get_user_call b (lookup uuid false)) back
            ∙ get_user_call-missing d2 uuid false (marked.found false),
        ap (get_user_call b (lookup uuid true)) back
            ∙ get_user_call-found d2 uuid true (marked_user (stored_user req) now)
                (marked.found true)
            ∙ sym (
                ap (λ (s : UserRecord). done (record s { deleted = true; deleted_at_unix = now }))
                  same),
      )
