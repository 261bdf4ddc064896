-- ===== src/Db/Users/Operations.antt =====
-- Creation, update and soft deletion of users in db/src/storage.rs.
use infovulcan.Common.{◌≡◌, refl, true, false, none, some, arith, Bytes, not_found, ok, err}
use infovulcan.Common.Int.{ℤ, pos}
use infovulcan.Db.Types.{Backend, UserIndexFields, StoredUser}
use infovulcan.Db.Users.{
  write_user_indexes, create_user, get_user, existing_user, update_user, soft_delete_user,
}
use infovulcan.Db.Tickets.{write_entries}
use infovulcan.Db.Users.Effect.{active_entries, entries_of, rewrite, Writes, rewrite-Writes}

abbrev pub updated_user : StoredUser → Bytes → UserIndexFields → StoredUser
updated_user old body index = record old { body = body; index = index }

abbrev pub marked_user : StoredUser → ℤ → StoredUser
marked_user old at_unix = record old { deleted = true; deleted_at_unix = at_unix }

abbrev pub fresh_user : Bytes → UserIndexFields → StoredUser
fresh_user body index = record {
  body = body;
  index = index;
  deleted = false;
  deleted_at_unix = pos 0;
}

module _ (b : Backend) where
  module _ (d : b.sled.Db) (uuid body : Bytes) (index : UserIndexFields) (at_unix : ℤ) where
    create_user-rewrite :
        create_user b d uuid body index ≡ rewrite b d uuid none (fresh_user body index)
    unfolding create_user rewrite entries_of active_entries write_user_indexes write_entries
    create_user-rewrite = refl

    update_user-rewrite :
        (old : StoredUser)
        → existing_user b d uuid ≡ ok old
        → update_user b d uuid body index
          ≡ (ok tt, rewrite b d uuid (some old) (updated_user old body index))
    unfolding update_user rewrite entries_of active_entries write_user_indexes write_entries
    update_user-rewrite old e = ground (arith, e)

    soft_delete_user-rewrite :
        (old : StoredUser)
        → existing_user b d uuid ≡ ok old
        → soft_delete_user b d uuid at_unix
          ≡ (ok tt, rewrite b d uuid (some old) (marked_user old at_unix))
    unfolding soft_delete_user rewrite entries_of active_entries write_user_indexes write_entries
    soft_delete_user-rewrite old e = ground (arith, e)

    existing_user_lem :
        (old : StoredUser)
        → get_user b d uuid true ≡ ok (some old)
        → existing_user b d uuid ≡ ok old
    unfolding get_user existing_user
    existing_user_lem old e = ground (arith, e)

    user_missing :
        get_user b d uuid true ≡ ok none
        → (update_user b d uuid body index ≡ (err not_found, d))
          × (soft_delete_user b d uuid at_unix ≡ (err not_found, d))
    unfolding get_user update_user soft_delete_user existing_user
    user_missing e = (ground (arith, e), ground (arith, e))

    -- Creating a user stores it, not deleted, adds its index entries and touches nothing else. For a
    -- uuid with a readable row, deleted or not, an update succeeds, sets the body and the fields and
    -- not the deletion, and a soft deletion succeeds and marks the row at the given time with its
    -- contents kept; both replace the index entries of the old row by those of the new one, where a
    -- deleted row has none, and touch nothing else. For a uuid without a row both report `not_found`
    -- and change nothing.
    pub user-Writes :
        Writes b d (create_user b d uuid body index) uuid none (fresh_user body index)
        × ((old : StoredUser)
            → get_user b d uuid true ≡ ok (some old)
            → ((update_user b d uuid body index).0 ≡ ok tt)
              × Writes b d
                  (update_user b d uuid body index).1
                  uuid
                  (some old)
                  (updated_user old body index)
              × ((soft_delete_user b d uuid at_unix).0 ≡ ok tt)
              × Writes b d
                  (soft_delete_user b d uuid at_unix).1
                  uuid
                  (some old)
                  (marked_user old at_unix))
        × (get_user b d uuid true ≡ ok none
            → (update_user b d uuid body index ≡ (err not_found, d))
              × (soft_delete_user b d uuid at_unix ≡ (err not_found, d)))
    user-Writes = (
      rw create_user-rewrite (rewrite-Writes b d uuid none (fresh_user body index)),
      λ old e.
          let found = existing_user_lem old e in
          rw (update_user-rewrite old found, soft_delete_user-rewrite old found)
            (
              refl,
              rewrite-Writes b d uuid (some old) (updated_user old body index),
              refl,
              rewrite-Writes b d uuid (some old) (marked_user old at_unix),
            ),
      user_missing,
    )
