-- ===== src/Db/Users/Effect.antt =====
-- The write that creation, update and soft deletion of a user share in db/src/storage.rs: drop the
-- old index entries, store the row, add the new entries.
use infovulcan.Common.{
  ◌≡◌, refl, ◌≢◌, Bool, true, false, not, ◌&&◌, Option, none, some, List, [], arith, if◌then◌else◌,
  Bytes, beq, beq_refl, eq_of_beq, ok,
}
use infovulcan.Db.Types.{Backend, StoredUser, tree_users}
use infovulcan.Db.Tickets.{write_entries}
use infovulcan.Db.Tickets.Entries.{has_entry, get-write_entries-true, get-write_entries-false}
use infovulcan.Db.Users.{user_index_entries, get_user}

-- The index entries of a user: none once it is soft-deleted.
unfoldable pub active_entries : StoredUser → List (Bytes × Bytes)
active_entries u = if u.deleted then [] else user_index_entries u.index

unfoldable pub entries_of : Option StoredUser → List (Bytes × Bytes)
entries_of none = []
entries_of (some u) = active_entries u

-- Entries of users are not rows.
entries_no_row :
    (u : StoredUser) (entity k : Bytes) → has_entry (active_entries u) entity tree_users k ≡ false
unfolding has_entry active_entries user_index_entries beq
entries_no_row u entity k = ground arith

module _ (b : Backend) where
  unfoldable pub rewrite : b.sled.Db → Bytes → Option StoredUser → StoredUser → b.sled.Db
  rewrite d uuid old stored =
      write_entries b
        (b.sled.insert (write_entries b d uuid (entries_of old) false) tree_users uuid
          (b.users.to_vec stored))
        uuid (active_entries stored) true

  -- `d'` is `d` with the user stored under the uuid and its index entries in place of the old ones:
  -- what every tree holds under every key, and what reading users finds.
  pub record Writes (d d' : b.sled.Db) (uuid : Bytes) (old : Option StoredUser)
      (stored : StoredUser) : Type 0 where
    pub everywhere :
        (t k : Bytes)
        → b.sled.get d' t k ≡ (
            if has_entry (active_entries stored) uuid t k
            then some uuid
            else if beq tree_users t && beq uuid k
            then some (b.users.to_vec stored)
            else if has_entry (entries_of old) uuid t k
            then none
            else b.sled.get d t k)
    pub found :
        (include_deleted : Bool)
        → get_user b d' uuid include_deleted
          ≡ ok (if stored.deleted && not include_deleted then none else some stored)
    pub kept :
        (uuid' : Bytes) (include_deleted : Bool)
        → uuid ≢ uuid'
        → get_user b d' uuid' include_deleted ≡ get_user b d uuid' include_deleted

  get-rewrite :
      (d : b.sled.Db) (uuid : Bytes) (old : Option StoredUser) (stored : StoredUser) (t k : Bytes)
      → b.sled.get (rewrite d uuid old stored) t k ≡ (
          if has_entry (active_entries stored) uuid t k
          then some uuid
          else if beq tree_users t && beq uuid k
          then some (b.users.to_vec stored)
          else if has_entry (entries_of old) uuid t k
          then none
          else b.sled.get d t k)
  unfolding rewrite
  get-rewrite d uuid old stored t k =
      let d1 = write_entries b d uuid (entries_of old) false in
      rw
        (
          get-write_entries-true b (b.sled.insert d1 tree_users uuid (b.users.to_vec stored)) uuid
              (active_entries stored) t k,
          b.sled.get-insert d1 tree_users uuid (b.users.to_vec stored) t k,
          get-write_entries-false b d uuid (entries_of old) t k,
        )
        refl

  old_no_row :
      (old : Option StoredUser) (entity k : Bytes)
      → has_entry (entries_of old) entity tree_users k ≡ false
  unfolding entries_of has_entry
  old_no_row none entity k = refl
  old_no_row (some u) entity k = entries_no_row u entity k

  get-rewrite_row :
      (d : b.sled.Db) (uuid : Bytes) (old : Option StoredUser) (stored : StoredUser) (k : Bytes)
      → b.sled.get (rewrite d uuid old stored) tree_users k
        ≡ (if beq uuid k then some (b.users.to_vec stored) else b.sled.get d tree_users k)
  get-rewrite_row d uuid old stored k = ground (
    arith,
    get-rewrite d uuid old stored tree_users k,
    entries_no_row stored uuid k,
    old_no_row old uuid k,
    beq_refl tree_users,
  )

  pub rewrite-Writes :
      (d : b.sled.Db) (uuid : Bytes) (old : Option StoredUser) (stored : StoredUser)
      → Writes d (rewrite d uuid old stored) uuid old stored
  unfolding get_user
  rewrite-Writes d uuid old stored = record {
    everywhere = get-rewrite d uuid old stored;
    found = λ inc. ground (
      arith,
      get-rewrite_row d uuid old stored uuid,
      beq_refl uuid,
      b.users.from_slice-to_vec stored,
    );
    kept = λ uuid' inc ne.
        ground (arith, get-rewrite_row d uuid old stored uuid', eq_of_beq uuid uuid');
  }
