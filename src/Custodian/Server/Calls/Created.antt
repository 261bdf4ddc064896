-- ===== src/Custodian/Server/Calls/Created.antt =====
-- A ticket created through custodian/src/server.rs and read again, down to the storage of
-- db/src/storage.rs.
use infovulcan.Common.{
  ℕ, ◌+◌, ◌^◌, ◌<◌, ◌≡◌, refl, sym, ap, ◌∙◌, subst, inl, inr, true, false, some, Bytes,
}
use infovulcan.Common.Outcome.{Outcome, Outcome-cases, done, failed, failed_ne, done_inj}
use infovulcan.Shared.Ticket.{Ticket}
use infovulcan.Db.Server.{
  ClientWrite, TicketRecord, ProtoTicketIndex, TicketWrite, ticket_index_from_proto, ticket_record,
  create_ticket_call, get_ticket_call,
}
use infovulcan.Db.Server.Calls.{Commits, create_ticket_call_lem}
use infovulcan.Db.Tickets.Invariant.{IsConsistent, last_id}
use infovulcan.Db.Tickets.Operations.{fresh}
use infovulcan.Db.Server
use infovulcan.Db.Types
use infovulcan.Custodian.DbClient
use infovulcan.Custodian.Types.{Backend}
use infovulcan.Custodian.Wire.{Clock}
use infovulcan.Custodian.Wire.Tickets.{ProtoTicket, domain_to_proto}
use infovulcan.Custodian.Server.{Client, Status, internal, fetch, decrypt_ticket, ticket_index}
use infovulcan.Custodian.Server.Calls.{
  CreateTicketRequest, Directory, to_proto, get_ticket, prepare_new, created_answer, place,
  create_ticket,
}

module _ (b : Backend) (db : Types.Backend) (client_write : ClientWrite db) where
  -- The client of the service, connected to the database.
  abbrev pub connected : Client b.DateTime db.sled.Db → Client b.DateTime db.sled.Db
  connected client = record client {
    has_db_client = true;
    get_ticket = λ d id. DbClient.get_ticket db client_write d id false;
    update_ticket = DbClient.update_ticket db client_write;
  }

  abbrev pub directory : Directory db.sled.Db
  directory = record {
    create_ticket = DbClient.create_ticket db client_write;
    query_tickets = DbClient.query_tickets db client_write;
  }

  -- The body made for a request decrypts to the ticket that it was made of.
  abbrev pub Decrypts :
      Client b.DateTime db.sled.Db → Clock b.DateTime → CreateTicketRequest → b.DateTime → Type 0
  Decrypts client clock req now =
      (t : Ticket b.DateTime) (x : Bytes)
      → prepare_new b (connected client) directory clock req now ≡ done (t, x)
      → client.decrypt_body x ≡ some t

  module _ (client : Client b.DateTime db.sled.Db) (clock : Clock b.DateTime) where
    abbrev creates :
        db.sled.Db → CreateTicketRequest → b.DateTime → ℕ → Outcome Status ProtoTicket × db.sled.Db
    creates = create_ticket b (connected client) directory clock

    abbrev writes : Bytes → ProtoTicketIndex → TicketWrite
    writes encrypted index = record {
      ticket_id = 0;
      encrypted_body = encrypted;
      index = some index;
    }

    abbrev numbered : Ticket b.DateTime → ℕ → ProtoTicket
    numbered ticket id =
        to_proto b (connected client) directory clock (record ticket { ticket_id = id })

    read_back :
        (d : db.sled.Db) (ticket : Ticket b.DateTime) (encrypted : Bytes) (n : ℕ) (r : TicketRecord)
        → client.decrypt_body encrypted ≡ some ticket
        → get_ticket_call db (record { ticket_id = n; include_deleted = false }) d ≡ done r
        → r.ticket_id ≡ n
        → r.encrypted_body ≡ encrypted
        → get_ticket b (connected client) directory clock d n ≡ done (numbered ticket n)
    unfolding get_ticket fetch decrypt_ticket DbClient.get_ticket
    read_back d ticket encrypted n r opens found id body = rw (found, body, opens, id) refl

    -- The answer of the call, for a ticket that was made and encrypted.
    abbrev answered :
        db.sled.Db → Ticket b.DateTime → Bytes → Outcome Status ProtoTicket × db.sled.Db
    answered d ticket encrypted =
        let index = ticket_index b (connected client) ticket in
        let r = create_ticket_call db client_write (writes encrypted index) d in
        (
          created_answer b (connected client) directory clock ticket
              (DbClient.create_ticket db client_write d encrypted index).0,
          r.1,
        )

    create_ticket-failed :
        (req : CreateTicketRequest) (now : b.DateTime) (now_millis : ℕ) (d : db.sled.Db)
        (e : Status)
        → prepare_new b (connected client) directory clock req now ≡ failed e
        → (creates d req now now_millis).0 ≡ failed e
    unfolding create_ticket
    create_ticket-failed req now now_millis d e p =
        ap (λ m. (place b (connected client) directory clock d now_millis m).0) p

    create_ticket-prepared :
        (req : CreateTicketRequest) (now : b.DateTime) (now_millis : ℕ) (d : db.sled.Db)
        (ticket : Ticket b.DateTime) (encrypted : Bytes)
        → prepare_new b (connected client) directory clock req now ≡ done (ticket, encrypted)
        → creates d req now now_millis ≡ answered d ticket encrypted
    unfolding create_ticket DbClient.create_ticket
    create_ticket-prepared req now now_millis d ticket encrypted p =
        ap (place b (connected client) directory clock d now_millis) p

    answered-failed :
        (d : db.sled.Db) (ticket : Ticket b.DateTime) (encrypted : Bytes) (e : Server.Status)
        → (create_ticket_call db client_write
            (writes encrypted (ticket_index b (connected client) ticket))
            d).0
          ≡ failed e
        → (answered d ticket encrypted).0 ≡ failed internal
    unfolding DbClient.create_ticket
    answered-failed d ticket encrypted e p = rw p refl

    answered-done :
        (d : db.sled.Db) (ticket : Ticket b.DateTime) (encrypted : Bytes) (r : TicketRecord)
        → (create_ticket_call db client_write
            (writes encrypted (ticket_index b (connected client) ticket))
            d).0
          ≡ done r
        → (answered d ticket encrypted).0 ≡ done (numbered ticket r.ticket_id)
    unfolding DbClient.create_ticket
    answered-done d ticket encrypted r p = rw p refl

    -- On a consistent database with ids left, where a write fails or is committed and the body made
    -- for the request decrypts to the ticket it was made of: a creation that succeeds answers with
    -- the next id of the database, and a read of that id then gives the very ticket of the answer;
    -- the database is consistent.
    pub get_ticket-create_ticket :
        (req : CreateTicketRequest) (now : b.DateTime) (now_millis : ℕ) (d : db.sled.Db)
        (shown : ProtoTicket)
        → Decrypts client clock req now
        → Commits db client_write
        → IsConsistent db d
        → last_id db d + 1 < 2 ^ 64
        → (creates d req now now_millis).0 ≡ done shown
        → let d' = (creates d req now now_millis).1 in
          (shown.ticket_id ≡ last_id db d + 1)
          × (get_ticket b (connected client) directory clock d' shown.ticket_id ≡ done shown)
          × IsConsistent db d'
    unfolding domain_to_proto
    get_ticket-create_ticket req now now_millis d shown decrypts commits c room h =
        elim (Outcome-cases (prepare_new b (connected client) directory clock req now)) [
          | inr (e, p) ↦
              absurd (failed_ne (sym (create_ticket-failed req now now_millis d e p) ∙ h))
          | inl ((ticket, encrypted), p) ↦
              let call = create_ticket-prepared req now now_millis d ticket encrypted p in
              let opens = decrypts ticket encrypted p in
              let index = ticket_index b (connected client) ticket in
              elim (create_ticket_call_lem db client_write (writes encrypted index) d false commits
                c room) [
                  | inl e ↦ absurd (
                      failed_ne (
                        sym (
                          ap (λ (x : Outcome Status ProtoTicket × db.sled.Db). x.0) call
                          ∙ answered-failed d ticket encrypted Server.internal e)
                        ∙ h))
                  | inr (told, sets, found) ↦
                      let n = last_id db d + 1 in
                      let stored = fresh encrypted (ticket_index_from_proto (some index)) in
                      let d' = (create_ticket_call db client_write (writes encrypted index) d).1 in
                      let first = ap (λ (x : Outcome Status ProtoTicket × db.sled.Db). x.0) call in
                      let next : (creates d req now now_millis).1 ≡ d' =
                        ap (λ (x : Outcome Status ProtoTicket × db.sled.Db). x.1) call in
                      let same : shown ≡ numbered ticket n = done_inj (
                        sym h
                        ∙ first
                        ∙ answered-done d ticket encrypted (ticket_record n stored) told) in
                      let number : shown.ticket_id ≡ n =
                        ap (λ (t : ProtoTicket). t.ticket_id) same in
                      let again =
                        read_back d' ticket encrypted n (ticket_record n stored) opens found refl
                          refl in
                      (
                        number,
                        ap (λ x. get_ticket b (connected client) directory clock x shown.ticket_id)
                              next
                            ∙ ap (get_ticket b (connected client) directory clock d') number
                            ∙ again
                            ∙ ap done (sym same),
                        subst (IsConsistent db) (sym next) sets.consistent,
                      )
                ]
        ]
