-- ===== src/Db/Users.antt =====
-- Users in db/src/storage.rs: the rows under the bytes of the uuid, and their secondary indexes.
pub mod Effect
pub mod Operations
use infovulcan.Common.{
  ℕ, zero, suc, ◌+◌, ◌-◌, ◌*◌, ◌/◌, ◌%◌, ◌^◌, ◌≤◌, ◌<◌, ◌≡◌, refl, sym, ap, ◌∙◌, subst, ◌≢◌, ◌↔◌,
  ◌⊎◌, inl, inr, Bool, true, false, not, ◌&&◌, ◌||◌, Option, none, some, List, [], ◌∷◌, ◌++◌, map,
  arith, ltb, leb, ◌==◌, if◌then◌else◌, ltb→lt, lt→ltb, leb→le, le→leb, ==_iff, tests, Bool-cases,
  Option-cases, length, length-append, take, drop, replicate, filter, In, In-filter, of_In-filter,
  All, All-In, Bytes, ascii, beq, beq_refl, eq_of_beq, starts_with, starts_with-append, blt, ble,
  blt_irrefl, blt_trans, blt_total, Error, not_found, corrupt, Result, ok, err, or_err,
}
use infovulcan.Common.Int.{ℤ, pos}
use infovulcan.Db.Types.{
  Backend, UserIndexFields, StoredUser, tree_users, idx_user_name, idx_user_email, idx_user_role,
}
use infovulcan.Db.Storage.{put, get}
use infovulcan.Db.Tickets.{write_entries}

unfoldable pub user_index_entries : UserIndexFields → List (Bytes × Bytes)
user_index_entries index =
    (idx_user_name, index.username)
    ∷ (idx_user_email, index.email)
    ∷ (idx_user_role, index.role ∷ [])
    ∷ []

module _ (b : Backend) where
  unfoldable pub write_user_indexes : b.sled.Db → Bytes → UserIndexFields → Bool → b.sled.Db
  write_user_indexes d user_uuid index insert =
      write_entries b d user_uuid (user_index_entries index) insert

  unfoldable pub create_user : b.sled.Db → Bytes → Bytes → UserIndexFields → b.sled.Db
  create_user d user_uuid body index =
      let stored : StoredUser = record {
        body = body;
        index = index;
        deleted = false;
        deleted_at_unix = pos 0;
      } in
      write_user_indexes (put b d tree_users user_uuid (b.users.to_vec stored)) user_uuid index true

  unfoldable pub get_user : b.sled.Db → Bytes → Bool → Result (Option StoredUser)
  get_user d user_uuid include_deleted = elim (get b d tree_users user_uuid) [
    | none ↦ ok none
    | some bytes ↦ elim (b.users.from_slice bytes) [
      | none ↦ err corrupt
      | some stored ↦ if stored.deleted && not include_deleted then ok none else ok (some stored)
    ]
  ]

  -- The row that an update or a deletion starts from.
  unfoldable pub existing_user : b.sled.Db → Bytes → Result StoredUser
  existing_user d user_uuid = elim (get b d tree_users user_uuid) [
    | none ↦ err not_found
    | some bytes ↦ or_err (b.users.from_slice bytes) corrupt
  ]

  unfoldable pub update_user :
      b.sled.Db → Bytes → Bytes → UserIndexFields → Result (Unit {0}) × b.sled.Db
  update_user d user_uuid body index = elim (existing_user d user_uuid) [
    | err e ↦ (err e, d)
    | ok old ↦
        let d1 = if not old.deleted then write_user_indexes d user_uuid old.index false else d in
        let stored : StoredUser = record {
          body = body;
          index = index;
          deleted = old.deleted;
          deleted_at_unix = old.deleted_at_unix;
        } in
        let d2 = put b d1 tree_users user_uuid (b.users.to_vec stored) in
        (ok tt, if not stored.deleted then write_user_indexes d2 user_uuid index true else d2)
  ]

  unfoldable pub soft_delete_user : b.sled.Db → Bytes → ℤ → Result (Unit {0}) × b.sled.Db
  soft_delete_user d user_uuid at_unix = elim (existing_user d user_uuid) [
    | err e ↦ (err e, d)
    | ok stored ↦
        let d1 =
          if not stored.deleted then write_user_indexes d user_uuid stored.index false else d in
        let marked : StoredUser = record stored { deleted = true; deleted_at_unix = at_unix } in
        (ok tt, put b d1 tree_users user_uuid (b.users.to_vec marked))
  ]
