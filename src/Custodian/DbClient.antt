-- ===== src/Custodian/DbClient.antt =====
-- The database client of custodian/src/db_client.rs: calls of the ticket service of db/src/server.rs,
-- with the errors of its transport left out. The write of openraft there is a parameter.
use infovulcan.Common.{ℕ, Bool, true, false, Option, none, some, List, map, Bytes, not_found}
use infovulcan.Common.Int.{ℤ}
use infovulcan.Common.Outcome.{Outcome, done, failed}
use infovulcan.Db.Types.{Backend}
use infovulcan.Db.Server.{
  Status, invalid_argument, not_found, internal, ProtoTicketIndex, ProtoTicketQuery, TicketRecord,
  ClientWrite, create_ticket_call, get_ticket_call, update_ticket_call, soft_delete_ticket_call,
  query_tickets_call,
}

abbrev id_answer : Outcome Status TicketRecord → Option ℕ
id_answer (done r) = some r.ticket_id
id_answer (failed e) = none

-- A status of not found is an absent record.
abbrev found_answer : Outcome Status TicketRecord → Option (Option (ℕ × Bytes))
found_answer (done r) = some (some (r.ticket_id, r.encrypted_body))
found_answer (failed not_found) = some none
found_answer (failed invalid_argument) = none
found_answer (failed internal) = none

abbrev is_done : {A : Type 0} → Outcome Status A → Bool
is_done (done a) = true
is_done (failed e) = false

abbrev bodies : Outcome Status (List TicketRecord) → Option (List (ℕ × Bytes))
bodies (done rs) = some (map (λ (r : TicketRecord). (r.ticket_id, r.encrypted_body)) rs)
bodies (failed e) = none

module _ (db : Backend) (client_write : ClientWrite db) where
  unfoldable pub create_ticket : db.sled.Db → Bytes → ProtoTicketIndex → Option ℕ × db.sled.Db
  create_ticket d encrypted_body index =
      let r =
        create_ticket_call db client_write
          (record { ticket_id = 0; encrypted_body = encrypted_body; index = some index }) d in
      (id_answer r.0, r.1)

  unfoldable pub get_ticket :
      db.sled.Db → (ticket_id : ℕ) → (include_deleted : Bool) → Option (Option (ℕ × Bytes))
  get_ticket d ticket_id include_deleted =
      found_answer
        (get_ticket_call db (record { ticket_id = ticket_id; include_deleted = include_deleted }) d)

  unfoldable pub update_ticket : db.sled.Db → ℕ → Bytes → ProtoTicketIndex → Bool × db.sled.Db
  update_ticket d ticket_id encrypted_body index =
      let r =
        update_ticket_call db client_write
          (record { ticket_id = ticket_id; encrypted_body = encrypted_body; index = some index })
          d in
      (is_done r.0, r.1)

  unfoldable pub soft_delete_ticket : (now : ℤ) → db.sled.Db → ℕ → Bool × db.sled.Db
  soft_delete_ticket now d ticket_id =
      let r =
        soft_delete_ticket_call db client_write now
          (record { ticket_id = ticket_id; include_deleted = false }) d in
      (is_done r.0, r.1)

  unfoldable pub query_tickets : db.sled.Db → ProtoTicketQuery → Option (List (ℕ × Bytes))
  query_tickets d query = bodies (query_tickets_call db query d)
