-- ===== src/Db/Server/KeyValues.antt =====
-- The generic calls on keys and values of the gRPC service of db/src/server.rs.
pub mod Store
mod Tests
use infovulcan.Common.{
  ℕ, zero, suc, ◌+◌, ◌-◌, ◌*◌, ◌/◌, ◌%◌, ◌^◌, ◌≤◌, ◌<◌, ◌≡◌, refl, sym, ap, ◌∙◌, subst, ◌≢◌, ◌↔◌,
  ◌⊎◌, inl, inr, Bool, true, false, not, ◌&&◌, ◌||◌, Option, none, some, List, [], ◌∷◌, ◌++◌, map,
  arith, ltb, leb, ◌==◌, if◌then◌else◌, ltb→lt, lt→ltb, leb→le, le→leb, ==_iff, tests, Bool-cases,
  Option-cases, length, length-append, take, drop, replicate, filter, In, In-filter, of_In-filter,
  All, All-In, Bytes, ascii, beq, beq_refl, eq_of_beq, starts_with, starts_with-append, blt, ble,
  blt_irrefl, blt_trans, blt_total, Error, not_found, corrupt, Result, ok, err, or_err,
  Result-cases,
}
use infovulcan.Common.Outcome.{Outcome, done, failed}
use infovulcan.Db.Types.{Backend, LogEntry}
use infovulcan.Db.Storage.{get, list}
use infovulcan.Db.Machine.{DbResponse, is_some}
use infovulcan.Db.Server.{ClientWrite, Status, internal}

pub record PutRequest : Type 0 where
  pub collection : Bytes
  pub key : Bytes
  pub value : Bytes

-- Also the request of a deletion and of a test for a key.
pub record GetRequest : Type 0 where
  pub collection : Bytes
  pub key : Bytes

pub record GetResponse : Type 0 where
  pub found : Bool
  pub value : Bytes

pub record ListRequest : Type 0 where
  pub collection : Bytes
  pub prefix : Bytes
  pub limit : ℕ

pub record BatchPutRequest : Type 0 where
  pub collection : Bytes
  pub items : List (Bytes × Bytes)

abbrev pub found_value : Option Bytes → GetResponse
found_value none = record { found = false; value = [] }
found_value (some value) = record { found = true; value = value }

-- `u32::try_from(n).unwrap_or(u32::MAX)`
abbrev u32_or_max : ℕ → ℕ
u32_or_max n = if ltb n 0x100000000 then n else 0xffffffff

-- The answer of a write that ends with the given value.
abbrev pub written {ℓ} : {A : Type ℓ} → A → Option DbResponse → Outcome Status A
written a none = failed internal
written a (some r) = done a

module _ (b : Backend) where
  -- `success: true`
  unfoldable pub put_call : ClientWrite b → PutRequest → b.sled.Db → Outcome Status Bool × b.sled.Db
  put_call client_write req d =
      let r = client_write (LogEntry.put req.collection req.key req.value) d in
      (written true r.0, r.1)

  unfoldable pub get_call : GetRequest → b.sled.Db → Outcome Status GetResponse
  get_call req d = done (found_value (get b d req.collection req.key))

  unfoldable pub delete_call :
      ClientWrite b → GetRequest → b.sled.Db → Outcome Status Bool × b.sled.Db
  delete_call client_write req d =
      let r = client_write (LogEntry.delete req.collection req.key) d in (written true r.0, r.1)

  unfoldable pub list_call : ListRequest → b.sled.Db → Outcome Status (List (Bytes × Bytes))
  list_call req d =
      done (list b d req.collection req.prefix (if ltb 0 req.limit then some req.limit else none))

  -- `exists` of the storage is a test for the key.
  unfoldable pub exists_call : GetRequest → b.sled.Db → Outcome Status Bool
  exists_call req d = done (is_some (get b d req.collection req.key))

  -- Answers with the number of pairs.
  unfoldable pub batch_put_call :
      ClientWrite b → BatchPutRequest → b.sled.Db → Outcome Status ℕ × b.sled.Db
  batch_put_call client_write req d =
      let r = client_write (LogEntry.batch_put req.collection req.items) d in
      (written (u32_or_max (length req.items)) r.0, r.1)
