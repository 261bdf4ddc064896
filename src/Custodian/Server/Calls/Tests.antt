-- ===== src/Custodian/Server/Calls/Tests.antt =====
-- A ticket created and read through custodian/src/server.rs, on a node whose writes all commit.
use infovulcan.Common.{
  ℕ, ◌+◌, ◌≡◌, refl, sym, ap, ◌∙◌, ◌⊎◌, inl, inr, true, false, Option, none, some, [], ◌∷◌, arith,
  Bytes, ascii, Result, ok, err,
}
use infovulcan.Common.Int.{ℤ, pos}
use infovulcan.Common.Word.{to_be_bytes, from_be_bytes}
use infovulcan.Common.Outcome.{done, done_inj}
use infovulcan.Shared.Codes.{Symptom, symptom_from_u8, priority_from_u8}
use infovulcan.Shared.Ticket.{Ticket, new}
use infovulcan.Db.Sample
use infovulcan.Db.Tickets
use infovulcan.Db.Tickets.Invariant.{last_id, IsConsistent}
use infovulcan.Db.Tickets.Start.{empty-IsConsistent, last_id-empty}
use infovulcan.Db.Machine.{DbResponse, apply, apply_entry}
use infovulcan.Db.Server.{ClientWrite, create_ticket_call}
use infovulcan.Db.Server.Calls.{Commits}
use infovulcan.Custodian.DbClient
use infovulcan.Custodian.Sample.{backend}
use infovulcan.Custodian.Wire.{Clock}
use infovulcan.Custodian.Wire.Tickets.{ProtoTicket}
use infovulcan.Custodian.Server.{Client}
use infovulcan.Custodian.Server.Calls.{
  CreateTicketRequest, Directory, to_proto, draft, prepare_new, create_ticket, get_ticket,
}
use infovulcan.Custodian.Server.Calls.Created.{
  connected, directory, Decrypts, get_ticket-create_ticket,
}

abbrev Db : Type 0
Db = Sample.backend.sled.Db

abbrev accepted : Result DbResponse × Db → Db → Option DbResponse × Db
accepted (ok r, d') d = (some r, d')
accepted (err e, d') d = (none, d)

unfoldable write_through : ClientWrite Sample.backend
write_through entry d = accepted (apply Sample.backend entry d) d

write_through-Commits : Commits Sample.backend write_through
unfolding write_through Commits
write_through-Commits entry d = either (apply Sample.backend entry d)
  where
    either :
        (x : Result DbResponse × Db)
        → ((accepted x d).0 ≡ none)
          ⊎ ((r : DbResponse) × (d' : Db) × (x ≡ (ok r, d')) × (accepted x d ≡ (some r, d')))
    either (ok r, d') = inr (r, d', refl, refl)
    either (err e, d') = inl refl

abbrev clock : Clock ℤ
clock = record {
  to_timestamp = λ t. record { seconds = t; nanos = pos 0 };
  from_timestamp = λ seconds nanos. some seconds;
  default_time = pos 0;
  nanos_of = λ t. 0;
  nanos-to_timestamp = λ t. refl;
  from_timestamp-to_timestamp = λ t. refl;
  to_timestamp-from_timestamp = λ seconds t e. ground (arith, e);
}

abbrev number : Bytes → Option ℕ
number [] = none
number (x ∷ xs) = some x

abbrev ticket : Ticket ℤ
ticket = new (pos 10) 0 (ascii "down") (ascii "north") 5 Symptom.power 7

abbrev client : Client ℤ Db
client = record {
  parse_uuid = number;
  uuid_string = λ u. u ∷ [];
  timestamp = λ t. t;
  encrypt_ticket = λ t. some [];
  decrypt_body = λ x. some ticket;
  has_db_client = true;
  get_ticket = λ s id. none;
  update_ticket = λ s id body index. (false, s);
}

abbrev request : CreateTicketRequest
request = record {
  customer_ticket_number = none;
  isp_ticket_number = none;
  other_ticket_number = none;
  title = ascii "down";
  project = ascii "north";
  account_uuid = 5 ∷ [];
  symptom = pos 4;
  priority = pos 0;
  created_by_uuid = 7 ∷ [];
  ebond = none;
  tracking_url = none;
}

prepared :
    prepare_new backend
      (connected backend Sample.backend write_through client)
      (directory backend Sample.backend write_through)
      clock
      request
      (pos 10)
    ≡ done (ticket, [])
unfolding prepare_new draft new symptom_from_u8 priority_from_u8
prepared = refl

decrypts : Decrypts backend Sample.backend write_through client clock request (pos 10)
decrypts t x e = ap (λ (q : Ticket ℤ × Bytes). some q.0) (done_inj (sym prepared ∙ e))

start : Db
start = Sample.backend.sled.empty

start-IsConsistent : IsConsistent Sample.backend start
unfolding start
start-IsConsistent = empty-IsConsistent Sample.backend

last_id-start : last_id Sample.backend start ≡ 0
unfolding start
last_id-start = last_id-empty Sample.backend

abbrev in_db : Client ℤ Db
in_db = connected backend Sample.backend write_through client

abbrev rows : Directory Db
rows = directory backend Sample.backend write_through

abbrev shown : ProtoTicket
shown = to_proto backend in_db rows clock (record ticket { ticket_id = 1 })

created : (create_ticket backend in_db rows clock start request (pos 10) 0).0 ≡ done shown
unfolding start create_ticket prepare_new draft new symptom_from_u8 priority_from_u8
    DbClient.create_ticket create_ticket_call write_through apply apply_entry Tickets.create_ticket
    Tickets.next_id Sample.backend Tickets.bump from_be_bytes to_be_bytes
created = refl

get_ticket-create_ticket_example :
    let d' = (create_ticket backend in_db rows clock start request (pos 10) 0).1 in
    (shown.ticket_id ≡ last_id Sample.backend start + 1)
    × (get_ticket backend in_db rows clock d' shown.ticket_id ≡ done shown)
    × IsConsistent Sample.backend d'
get_ticket-create_ticket_example =
    get_ticket-create_ticket backend Sample.backend write_through client clock request (pos 10) 0
      start shown decrypts write_through-Commits start-IsConsistent (rw last_id-start (omega arith))
      created
