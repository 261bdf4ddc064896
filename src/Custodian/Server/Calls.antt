-- ===== src/Custodian/Server/Calls.antt =====
-- The other calls about tickets in custodian/src/server.rs: creation, reading and queries.
pub mod Created
mod Tests
use infovulcan.Common.{
  ℕ, zero, suc, ◌+◌, ◌-◌, ◌*◌, ◌/◌, ◌%◌, ◌^◌, ◌≤◌, ◌<◌, ◌≡◌, refl, sym, ap, ◌∙◌, subst, ◌≢◌, ◌↔◌,
  ◌⊎◌, inl, inr, Bool, true, false, not, ◌&&◌, ◌||◌, Option, none, some, List, [], ◌∷◌, ◌++◌, map,
  arith, ltb, leb, ◌==◌, if◌then◌else◌, ltb→lt, lt→ltb, leb→le, le→leb, ==_iff, tests, Bool-cases,
  Option-cases, length, length-append, take, drop, replicate, filter, In, In-filter, of_In-filter,
  All, All-In, Bytes, ascii, beq, beq_refl, eq_of_beq, starts_with, starts_with-append, blt, ble,
  blt_irrefl, blt_trans, blt_total, Error, not_found, corrupt, Result, ok, err, or_err,
  Result-cases,
}
use infovulcan.Common.Int.{ℤ}
use infovulcan.Common.Text.{is_empty}
use infovulcan.Common.Outcome.{Outcome, done, failed, ok_or, ensure, ◌>>=◌}
use infovulcan.Shared.Codes.{symptom_from_u8, priority_from_u8}
use infovulcan.Shared.Ticket.{Ticket, new}
use infovulcan.Db.Server.{ProtoTicketIndex, ProtoTicketQuery}
use infovulcan.Custodian.Types.{Backend}
use infovulcan.Custodian.Wire.{Clock}
use infovulcan.Custodian.Wire.Tickets.{ProtoTicket, domain_to_proto}
use infovulcan.Custodian.Server.{
  Client, Status, invalid_argument, internal, no_ticket, unavailable, u8_or_zero, fetch,
  decrypt_ticket, ticket_index,
}

-- The devices of the request are not read by the call.
pub record CreateTicketRequest : Type 0 where
  pub customer_ticket_number : Option Bytes
  pub isp_ticket_number : Option Bytes
  pub other_ticket_number : Option Bytes
  pub title : Bytes
  pub project : Bytes
  pub account_uuid : Bytes
  pub symptom : ℤ
  pub priority : ℤ
  pub created_by_uuid : Bytes
  pub ebond : Option Bytes
  pub tracking_url : Option Bytes

-- The calls of the database client that create and find tickets; none is a failure.
pub record Directory (S : Type 0) : Type 0 where
  pub create_ticket : S → Bytes → ProtoTicketIndex → Option ℕ × S
  pub query_tickets : S → ProtoTicketQuery → Option (List (ℕ × Bytes))

module _ (b : Backend) {S : Type 0} (client : Client b.DateTime S) (directory : Directory S)
    (clock : Clock b.DateTime) where
  abbrev pub to_proto : Ticket b.DateTime → ProtoTicket
  to_proto ticket = domain_to_proto clock client.uuid_string ticket

  unfoldable pub get_ticket : S → (ticket_id : ℕ) → Outcome Status ProtoTicket
  get_ticket s ticket_id = do ticket ← fetch b client s ticket_id; done (to_proto ticket)

  -- The loop over the records; one that cannot be opened fails the call.
  unfoldable pub open_all : List (ℕ × Bytes) → Outcome Status (List ProtoTicket)
  open_all [] = done []
  open_all ((id, body) ∷ records) = do
    ticket ← decrypt_ticket b client id body
    rest ← open_all records
    done (to_proto ticket ∷ rest)

  unfoldable pub query_tickets : S → ProtoTicketQuery → Outcome Status (List ProtoTicket)
  query_tickets s query = do
    connected ← ensure client.has_db_client unavailable
    records ← ok_or (directory.query_tickets s query) internal
    open_all records

  -- The ticket before its id is known, at the time of the call.
  unfoldable pub draft : CreateTicketRequest → b.DateTime → Outcome Status (Ticket b.DateTime)
  draft req now = do
    titled ← ensure (not (is_empty req.title)) invalid_argument
    account_uuid ← ok_or (client.parse_uuid req.account_uuid) invalid_argument
    created_by ← ok_or (client.parse_uuid req.created_by_uuid) invalid_argument
    let made : Ticket b.DateTime =
        new now 0 req.title req.project account_uuid (symptom_from_u8 (u8_or_zero req.symptom))
          created_by
    done (record made {
      priority = priority_from_u8 (u8_or_zero req.priority);
      customer_ticket_number = req.customer_ticket_number;
      isp_ticket_number = req.isp_ticket_number;
      other_ticket_number = req.other_ticket_number;
      ebond = req.ebond;
      tracking_url = req.tracking_url;
    })

  unfoldable pub prepare_new :
      CreateTicketRequest → b.DateTime → Outcome Status (Ticket b.DateTime × Bytes)
  prepare_new req now = do
    ticket ← draft req now
    encrypted ← ok_or (client.encrypt_ticket ticket) internal
    done (ticket, encrypted)

  -- The answer for the id that the database gave.
  abbrev pub created_answer : Ticket b.DateTime → Option ℕ → Outcome Status ProtoTicket
  created_answer ticket none = failed internal
  created_answer ticket (some id) = done (to_proto (record ticket { ticket_id = id }))

  -- Without a database client the id is made of the milliseconds of the clock.
  abbrev pub place :
      S
      → (now_millis : ℕ) → Outcome Status (Ticket b.DateTime × Bytes)
      → Outcome Status ProtoTicket × S
  place s now_millis (failed e) = (failed e, s)
  place s now_millis (done (ticket, encrypted)) =
      if client.has_db_client
      then (let written = directory.create_ticket s encrypted (ticket_index b client ticket) in
          (created_answer ticket written.0, written.1))
      else (created_answer ticket (some now_millis), s)

  unfoldable pub create_ticket :
      S
      → CreateTicketRequest
      → (now : b.DateTime) → (now_millis : ℕ) → Outcome Status ProtoTicket × S
  create_ticket s req now now_millis = place s now_millis (prepare_new req now)
