-- ===== src/Db/Server/Users.antt =====
-- The user calls of the gRPC service of db/src/server.rs. The clock of a soft deletion is an
-- argument.
pub mod Calls
mod Tests
use infovulcan.Common.{
  ℕ, zero, suc, ◌+◌, ◌-◌, ◌*◌, ◌/◌, ◌%◌, ◌^◌, ◌≤◌, ◌<◌, ◌≡◌, refl, sym, ap, ◌∙◌, subst, ◌≢◌, ◌↔◌,
  ◌⊎◌, inl, inr, Bool, true, false, not, ◌&&◌, ◌||◌, Option, none, some, List, [], ◌∷◌, ◌++◌, map,
  arith, ltb, leb, ◌==◌, if◌then◌else◌, ltb→lt, lt→ltb, leb→le, le→leb, ==_iff, tests, Bool-cases,
  Option-cases, length, length-append, take, drop, replicate, filter, In, In-filter, of_In-filter,
  All, All-In, Bytes, ascii, beq, beq_refl, eq_of_beq, starts_with, starts_with-append, blt, ble,
  blt_irrefl, blt_trans, blt_total, Error, not_found, corrupt, Result, ok, err, or_err,
  Result-cases,
}
use infovulcan.Common.Int.{ℤ, pos}
use infovulcan.Common.Text.{is_empty}
use infovulcan.Common.Outcome.{Outcome, done, failed}
use infovulcan.Db.Types.{Backend, LogEntry, StoredUser, UserIndexFields}
use infovulcan.Db.Users.{get_user}
use infovulcan.Db.Machine.{DbResponse}
use infovulcan.Db.Server.{ClientWrite, Status, invalid_argument, not_found, internal, u8_or_zero}

pub record ProtoUserIndex : Type 0 where
  pub username : Bytes
  pub email : Bytes
  pub role : ℕ

pub record UserWrite : Type 0 where
  pub user_uuid : Bytes
  pub encrypted_body : Bytes
  pub index : Option ProtoUserIndex

pub record UserLookup : Type 0 where
  pub user_uuid : Bytes
  pub include_deleted : Bool

pub record UserRecord : Type 0 where
  pub user_uuid : Bytes
  pub encrypted_body : Bytes
  pub deleted : Bool
  pub deleted_at_unix : ℤ

unfoldable pub user_index_from_proto : Option ProtoUserIndex → UserIndexFields
user_index_from_proto none = record { username = []; email = []; role = 0 }
user_index_from_proto (some idx) = record {
  username = idx.username;
  email = idx.email;
  role = u8_or_zero idx.role;
}

abbrev pub user_record : Bytes → StoredUser → UserRecord
user_record uuid stored = record {
  user_uuid = uuid;
  encrypted_body = stored.body;
  deleted = stored.deleted;
  deleted_at_unix = stored.deleted_at_unix;
}

-- The answer to a read of one row.
abbrev pub answer_user : Bytes → Result (Option StoredUser) → Outcome Status UserRecord
answer_user uuid (err e) = failed internal
answer_user uuid (ok none) = failed not_found
answer_user uuid (ok (some stored)) = done (user_record uuid stored)

module _ (b : Backend) where
  unfoldable pub create_user_call :
      ClientWrite b → UserWrite → b.sled.Db → Outcome Status UserRecord × b.sled.Db
  create_user_call client_write req d =
      let written =
        client_write
          (LogEntry.create_user req.user_uuid req.encrypted_body (user_index_from_proto req.index))
          d in
      if is_empty req.user_uuid then (failed invalid_argument, d) else elim written.0 [
        | none ↦ (failed internal, written.1)
        | some resp ↦ (
          done (record {
            user_uuid = req.user_uuid;
            encrypted_body = req.encrypted_body;
            deleted = false;
            deleted_at_unix = pos 0;
          }),
          written.1,
        )
      ]

  unfoldable pub get_user_call : UserLookup → b.sled.Db → Outcome Status UserRecord
  get_user_call req d = answer_user req.user_uuid (get_user b d req.user_uuid req.include_deleted)

  unfoldable pub update_user_call :
      ClientWrite b → UserWrite → b.sled.Db → Outcome Status UserRecord × b.sled.Db
  update_user_call client_write req d =
      let written =
        client_write
          (LogEntry.update_user req.user_uuid req.encrypted_body (user_index_from_proto req.index))
          d in
      if is_empty req.user_uuid then (failed invalid_argument, d) else elim written.0 [
        | none ↦ (failed internal, written.1)
        | some resp ↦
            (answer_user req.user_uuid (get_user b written.1 req.user_uuid true), written.1)
      ]

  -- `DeleteAck { success: true }`
  unfoldable pub soft_delete_user_call :
      ClientWrite b → ℤ → UserLookup → b.sled.Db → Outcome Status Bool × b.sled.Db
  soft_delete_user_call client_write now req d =
      let written = client_write (LogEntry.soft_delete_user req.user_uuid now) d in
      elim written.0 [ none ↦ (failed internal, written.1) | some resp ↦ (done true, written.1) ]
