-- ===== src/Custodian/Server.antt =====
-- The update of a ticket in custodian/src/server.rs: the lock, the life cycle and the database.
pub mod Updates
pub mod Calls
pub mod LockCalls
mod Tests
use infovulcan.Common.{
  ℕ, zero, suc, ◌+◌, ◌-◌, ◌*◌, ◌/◌, ◌%◌, ◌^◌, ◌≤◌, ◌<◌, ◌≡◌, refl, sym, ap, ◌∙◌, subst, ◌≢◌, ◌↔◌,
  ◌⊎◌, inl, inr, Bool, true, false, not, ◌&&◌, ◌||◌, Option, none, some, List, [], ◌∷◌, ◌++◌, map,
  arith, ltb, leb, ◌==◌, if◌then◌else◌, ltb→lt, lt→ltb, leb→le, le→leb, ==_iff, tests, Bool-cases,
  Option-cases, length, length-append, take, drop, replicate, filter, In, In-filter, of_In-filter,
  All, All-In, Bytes, ascii, beq, beq_refl, eq_of_beq, starts_with, starts_with-append, blt, ble,
  blt_irrefl, blt_trans, blt_total, Error, not_found, corrupt, Result, ok, err, or_err,
  Result-cases,
}
use infovulcan.Common.Int.{ℤ, pos, negsuc}
use infovulcan.Common.Outcome.{Outcome, done, failed, ok_or, ◌>>=◌}
use infovulcan.Shared.Codes.{Resolution, symptom_from_u8, priority_from_u8, resolution_from_u8}
use infovulcan.Shared.Status.{TicketStatus, status_from_u8, status_as_u8, can_transition_to}
use infovulcan.Db.Server.{ProtoTicketIndex}
use infovulcan.Shared.Ticket.{Ticket, NextAction}
use infovulcan.Custodian.Types.{is_expired, Backend}
use infovulcan.Custodian.Locks.{Lock, get_lock_info}

-- `tonic::Status`, with the reason where one code has several.
pub data Status : Type 0 where
  invalid_argument : Status
  internal : Status
  lock_expired : Status
  lock_not_held : Status
  not_locked : Status
  no_ticket : Status
  unavailable : Status
  invalid_transition : (from_status to_status : TicketStatus) → Status

-- The request, its next action already converted.
pub record UpdateTicketRequest (DateTime : Type 0) : Type 0 where
  pub ticket_id : ℕ
  pub title : Option Bytes
  pub project : Option Bytes
  pub symptom : Option ℤ
  pub priority : Option ℤ
  pub status : Option ℤ
  pub next_action : Option (NextAction DateTime)
  pub resolution : Option ℤ
  pub assigned_to_uuid : Option Bytes
  pub updated_by_uuid : Option Bytes

-- `u8::try_from(v).unwrap_or(0)`
abbrev pub u8_or_zero : ℤ → ℕ
u8_or_zero (pos n) = if ltb n 256 then n else 0
u8_or_zero (negsuc n) = 0

abbrev pub if_some {ℓ κ} : {A : Type ℓ} {B : Type κ} → Option A → (A → B) → B → B
if_some none f b = b
if_some (some a) f b = f a

-- What the service is built on: `Uuid::parse_str` and `to_string`, the unix seconds of a date, the
-- encryption of a ticket, and the database client, which need not be there, and whose state is `S`.
-- A call of it fails, or answers.
pub record Client (DateTime S : Type 0) : Type 0 where
  pub parse_uuid : Bytes → Option ℕ
  pub uuid_string : ℕ → Bytes
  pub timestamp : DateTime → ℤ
  pub encrypt_ticket : Ticket DateTime → Option Bytes
  pub decrypt_body : Bytes → Option (Ticket DateTime)
  pub has_db_client : Bool
  pub get_ticket : S → ℕ → Option (Option (ℕ × Bytes))
  pub update_ticket : S → ℕ → Bytes → ProtoTicketIndex → Bool × S

module _ (b : Backend) {S : Type 0} (client : Client b.DateTime S) where
  abbrev pub Request : Type 0
  Request = UpdateTicketRequest b.DateTime

  -- `decrypt_ticket`: the id is that of the record.
  unfoldable pub decrypt_ticket : ℕ → Bytes → Outcome Status (Ticket b.DateTime)
  decrypt_ticket ticket_id body = do
    ticket ← ok_or (client.decrypt_body body) internal
    done (record ticket { ticket_id = ticket_id })

  unfoldable pub check_updater : Request → Outcome Status ℕ
  check_updater req = do
    updater_str ← ok_or req.updated_by_uuid invalid_argument
    ok_or (client.parse_uuid updater_str) invalid_argument

  unfoldable pub check_lock : b.sled.Db → ℕ → ℕ → ℤ → Outcome Status (Unit {0})
  check_lock d ticket_id updater now = elim (get_lock_info b d ticket_id) [
    | err e ↦ failed internal
    | ok none ↦ failed not_locked
    | ok (some lock) ↦
        if is_expired lock now
        then failed lock_expired
        else if lock.user_id == updater
        then done tt
        else failed lock_not_held
  ]

  unfoldable pub fetch : S → ℕ → Outcome Status (Ticket b.DateTime)
  fetch s ticket_id =
      if client.has_db_client
      then elim (client.get_ticket s ticket_id) [
        | none ↦ failed internal
        | some none ↦ failed no_ticket
        | some (some (id, body)) ↦ decrypt_ticket id body
      ]
      else failed unavailable

  unfoldable pub ticket_index : Ticket b.DateTime → ProtoTicketIndex
  ticket_index ticket = record {
    status = status_as_u8 ticket.status;
    account_uuid = client.uuid_string ticket.account_uuid;
    assigned_to_uuid = if_some ticket.assigned_to (λ u. some (client.uuid_string u)) none;
    project = ticket.project;
    tracking_url = ticket.tracking_url;
    created_at_unix = client.timestamp ticket.created_at;
    updated_at_unix = client.timestamp ticket.updated_at;
  }

  -- The fields that do not fail.
  abbrev pub with_texts : Request → Ticket b.DateTime → Ticket b.DateTime
  with_texts req t = record t {
    title = if_some req.title (λ x. x) t.title;
    project = if_some req.project (λ x. x) t.project;
    symptom = if_some req.symptom (λ v. symptom_from_u8 (u8_or_zero v)) t.symptom;
    priority = if_some req.priority (λ v. priority_from_u8 (u8_or_zero v)) t.priority;
  }

  unfoldable pub with_status : Request → Ticket b.DateTime → Outcome Status (Ticket b.DateTime)
  with_status req t = elim req.status [
    | none ↦ done t
    | some v ↦
        let new_status = status_from_u8 (u8_or_zero v) in
        if can_transition_to t.status new_status
        then done (record t { status = new_status })
        else failed (invalid_transition t.status new_status)
  ]

  abbrev pub with_outcome : Request → Ticket b.DateTime → Ticket b.DateTime
  with_outcome req t = record t {
    next_action = if_some req.next_action (λ x. x) t.next_action;
    resolution =
        if_some req.resolution (λ v. some (resolution_from_u8 (u8_or_zero v))) t.resolution;
  }

  unfoldable pub with_assignee : Request → Ticket b.DateTime → Outcome Status (Ticket b.DateTime)
  with_assignee req t = elim req.assigned_to_uuid [
    | none ↦ done t
    | some assigned ↦ elim (client.parse_uuid assigned) [
      | none ↦ failed invalid_argument
      | some uuid ↦ done (record t { assigned_to = some uuid })
    ]
  ]

  -- Everything before the write: the updated ticket with its encrypted body.
  unfoldable pub prepare :
      b.sled.Db → S → Request → ℤ → b.DateTime → Outcome Status (Ticket b.DateTime × Bytes)
  prepare d s req lock_now now = do
    updater ← check_updater req
    checked ← check_lock d req.ticket_id updater lock_now
    ticket ← fetch s req.ticket_id
    changed ← with_status req (with_texts req ticket)
    assigned ← with_assignee req (with_outcome req changed)
    let stamped : Ticket b.DateTime = record assigned { updated_by = updater; updated_at = now }
    encrypted ← ok_or (client.encrypt_ticket stamped) internal
    done (stamped, encrypted)

  -- The ticket of the answer is given before `domain_to_proto`, and the next action of the request
  -- comes as `proto_to_next_action` reads it.
  unfoldable pub update_ticket :
      b.sled.Db → S → Request → ℤ → b.DateTime → Outcome Status (Ticket b.DateTime) × S
  update_ticket d s req lock_now now = elim (prepare d s req lock_now now) [
    | failed e ↦ (failed e, s)
    | done (ticket, encrypted) ↦
        let written = client.update_ticket s req.ticket_id encrypted (ticket_index ticket) in
        (if written.0 then done ticket else failed internal, written.1)
  ]
