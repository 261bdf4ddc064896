-- ===== src/Db/Server.antt =====
-- The ticket calls of the gRPC service of db/src/server.rs. A write is committed by openraft, whose
-- `client_write` is a parameter; a read goes to the storage of the node. The clock of a soft
-- deletion is an argument.
pub mod Calls
pub mod Users
pub mod KeyValues
use infovulcan.Common.{
  ℕ, zero, suc, ◌+◌, ◌-◌, ◌*◌, ◌/◌, ◌%◌, ◌^◌, ◌≤◌, ◌<◌, ◌≡◌, refl, sym, ap, ◌∙◌, subst, ◌≢◌, ◌↔◌,
  ◌⊎◌, inl, inr, Bool, true, false, not, ◌&&◌, ◌||◌, Option, none, some, List, [], ◌∷◌, ◌++◌, map,
  arith, ltb, leb, ◌==◌, if◌then◌else◌, ltb→lt, lt→ltb, leb→le, le→leb, ==_iff, tests, Bool-cases,
  Option-cases, length, length-append, take, drop, replicate, filter, In, In-filter, of_In-filter,
  All, All-In, Bytes, ascii, beq, beq_refl, eq_of_beq, starts_with, starts_with-append, blt, ble,
  blt_irrefl, blt_trans, blt_total, Error, Result, ok, err, or_err, Result-cases,
}
use infovulcan.Common.Outcome.{Outcome, done, failed}
use infovulcan.Common.Word.{from_be_bytes}
use infovulcan.Common.Int.{ℤ, pos}
use infovulcan.Db.Types.{Backend, LogEntry, StoredTicket, TicketIndexFields, TicketQuery}
use infovulcan.Db.Tickets.{get_ticket}
use infovulcan.Db.Query.{query_tickets}
use infovulcan.Db.Machine.{DbResponse}

pub data Status : Type 0 where
  invalid_argument : Status
  not_found : Status
  internal : Status

-- The index fields on the wire, whose status is a `u32`.
pub record ProtoTicketIndex : Type 0 where
  pub status : ℕ
  pub account_uuid : Bytes
  pub assigned_to_uuid : Option Bytes
  pub project : Bytes
  pub tracking_url : Option Bytes
  pub created_at_unix : ℤ
  pub updated_at_unix : ℤ

pub record TicketWrite : Type 0 where
  pub ticket_id : ℕ
  pub encrypted_body : Bytes
  pub index : Option ProtoTicketIndex

pub record TicketLookup : Type 0 where
  pub ticket_id : ℕ
  pub include_deleted : Bool

pub record TicketRecord : Type 0 where
  pub ticket_id : ℕ
  pub encrypted_body : Bytes
  pub deleted : Bool
  pub deleted_at_unix : ℤ

-- The query on the wire, whose status is a `u32`.
pub record ProtoTicketQuery : Type 0 where
  pub status : Option ℕ
  pub assigned_to_uuid : Option Bytes
  pub account_uuid : Option Bytes
  pub project : Option Bytes
  pub include_deleted : Bool
  pub limit : ℕ

-- `u8::try_from`
abbrev pub try_u8 : ℕ → Option ℕ
try_u8 n = if ltb n 256 then some n else none

abbrev pub u8_or_zero : ℕ → ℕ
u8_or_zero n = if ltb n 256 then n else 0

abbrev pub and_then_u8 : Option ℕ → Option ℕ
and_then_u8 none = none
and_then_u8 (some n) = try_u8 n

-- The default of a message has empty fields.
abbrev pub default_index : ProtoTicketIndex
default_index = record {
  status = 0;
  account_uuid = [];
  assigned_to_uuid = none;
  project = [];
  tracking_url = none;
  created_at_unix = pos 0;
  updated_at_unix = pos 0;
}

abbrev pub index_or_default : Option ProtoTicketIndex → ProtoTicketIndex
index_or_default none = default_index
index_or_default (some i) = i

unfoldable pub ticket_index_from_proto : Option ProtoTicketIndex → TicketIndexFields
ticket_index_from_proto idx =
    let i = index_or_default idx in
    record {
      status = u8_or_zero i.status;
      account_uuid = i.account_uuid;
      assigned_to_uuid = i.assigned_to_uuid;
      project = i.project;
      tracking_url = i.tracking_url;
      created_at_unix = i.created_at_unix;
      updated_at_unix = i.updated_at_unix;
    }

abbrev pub ticket_record : ℕ → StoredTicket → TicketRecord
ticket_record id stored = record {
  ticket_id = id;
  encrypted_body = stored.body;
  deleted = stored.deleted;
  deleted_at_unix = stored.deleted_at_unix;
}

abbrev pub id_of : Option Bytes → Option ℕ
id_of none = none
id_of (some bytes) = from_be_bytes bytes

abbrev pub query_from_proto : ProtoTicketQuery → TicketQuery
query_from_proto q = record {
  status = and_then_u8 q.status;
  assigned_to_uuid = q.assigned_to_uuid;
  account_uuid = q.account_uuid;
  project = q.project;
  include_deleted = q.include_deleted;
  limit = q.limit;
}

abbrev pub records : List (ℕ × StoredTicket) → List TicketRecord
records rs = map (λ r. ticket_record r.0 r.1) rs

module _ (b : Backend) where
  abbrev pub ClientWrite : Type 0
  ClientWrite = LogEntry → b.sled.Db → Option DbResponse × b.sled.Db

  -- The answer to a read of one row.
  abbrev pub answer_row : ℕ → Result (Option StoredTicket) → Outcome Status TicketRecord
  answer_row id (err e) = failed internal
  answer_row id (ok none) = failed not_found
  answer_row id (ok (some stored)) = done (ticket_record id stored)

  unfoldable pub create_ticket_call :
      ClientWrite → TicketWrite → b.sled.Db → Outcome Status TicketRecord × b.sled.Db
  create_ticket_call client_write req d =
      let written =
        client_write (LogEntry.create_ticket req.encrypted_body (ticket_index_from_proto req.index))
          d in
      elim written.0 [
        | none ↦ (failed internal, written.1)
        | some resp ↦ elim (id_of resp.value) [
          | none ↦ (failed internal, written.1)
          | some id ↦ (
            done (record {
              ticket_id = id;
              encrypted_body = req.encrypted_body;
              deleted = false;
              deleted_at_unix = pos 0;
            }),
            written.1,
          )
        ]
      ]

  unfoldable pub get_ticket_call : TicketLookup → b.sled.Db → Outcome Status TicketRecord
  get_ticket_call req d =
      answer_row req.ticket_id (get_ticket b d req.ticket_id req.include_deleted)

  unfoldable pub update_ticket_call :
      ClientWrite → TicketWrite → b.sled.Db → Outcome Status TicketRecord × b.sled.Db
  update_ticket_call client_write req d =
      let written =
        client_write
          (LogEntry.update_ticket req.ticket_id req.encrypted_body
            (ticket_index_from_proto req.index))
          d in
      if req.ticket_id == 0 then (failed invalid_argument, d) else elim written.0 [
        | none ↦ (failed internal, written.1)
        | some resp ↦
            (answer_row req.ticket_id (get_ticket b written.1 req.ticket_id true), written.1)
      ]

  -- `DeleteAck { success: true }`
  unfoldable pub soft_delete_ticket_call :
      ClientWrite → ℤ → TicketLookup → b.sled.Db → Outcome Status Bool × b.sled.Db
  soft_delete_ticket_call client_write now req d =
      let written = client_write (LogEntry.soft_delete_ticket req.ticket_id now) d in
      elim written.0 [ none ↦ (failed internal, written.1) | some resp ↦ (done true, written.1) ]

  unfoldable pub query_tickets_call :
      ProtoTicketQuery → b.sled.Db → Outcome Status (List TicketRecord)
  query_tickets_call req d = elim (query_tickets b d (query_from_proto req)) [
    | err e ↦ failed internal
    | ok rs ↦ done (records rs)
  ]
