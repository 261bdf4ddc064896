-- ===== src/Db/Server/Calls.antt =====
-- Calls of the service of db/src/server.rs, from a client's point of view.
use infovulcan.Common.{
  ℕ, ◌+◌, ◌^◌, ◌<◌, ◌≡◌, refl, sym, ap, ◌∙◌, ◌⊎◌, inl, inr, Bool, true, Option, none, some, arith,
  Bytes, Result, ok, err,
}
use infovulcan.Common.Outcome.{done, failed}
use infovulcan.Common.Word.{to_be_bytes, from-to_be_bytes}
use infovulcan.Db.Types.{Backend, LogEntry, TicketIndexFields}
use infovulcan.Db.Tickets.{create_ticket}
use infovulcan.Db.Tickets.Invariant.{row, last_id, IsConsistent}
use infovulcan.Db.Tickets.Operations.{Sets, create_ticket_lem, fresh}
use infovulcan.Db.Query.Select.{visible, get_ticket-row}
use infovulcan.Db.Machine.{DbResponse, apply, apply_entry}
use infovulcan.Db.Server.{
  ClientWrite, TicketWrite, ticket_record, internal, create_ticket_call, get_ticket_call,
  ticket_index_from_proto,
}

module _ (b : Backend) where
  -- What a write through openraft does on the node that answers: it fails, and it is not known what
  -- became of the entry, or the entry is committed, and the node has applied it when the call
  -- returns. Calls are looked at one at a time.
  unfoldable pub Commits : ClientWrite b → Type 0
  Commits client_write =
      (entry : LogEntry) (d : b.sled.Db)
      → ((client_write entry d).0 ≡ none)
        ⊎ ((r : DbResponse) × (d' : b.sled.Db) × (apply b entry d ≡ (ok r, d'))
            × (client_write entry d ≡ (some r, d')))

  apply-create :
      (d : b.sled.Db) (body : Bytes) (index : TicketIndexFields) (n : ℕ)
      → (create_ticket b d body index).0 ≡ ok n
      → apply b (LogEntry.create_ticket body index) d ≡ (
        ok (record { success = true; value = some (to_be_bytes n) }),
        (create_ticket b d body index).1,
      )
  unfolding apply apply_entry
  apply-create d body index n e = ground (arith, e)

  call_of_write :
      (client_write : ClientWrite b) (req : TicketWrite) (d d' : b.sled.Db) (n : ℕ)
      → n < 2 ^ 64
      → client_write
          (LogEntry.create_ticket req.encrypted_body (ticket_index_from_proto req.index))
          d
        ≡ (some (record { success = true; value = some (to_be_bytes n) }), d')
      → create_ticket_call b client_write req d ≡ (
        done (ticket_record n (fresh req.encrypted_body (ticket_index_from_proto req.index))),
        d',
      )
  unfolding create_ticket_call
  call_of_write client_write req d d' n h e = ground (arith, e, from-to_be_bytes n h)

  failed_write :
      (client_write : ClientWrite b) (req : TicketWrite) (d : b.sled.Db)
      → (client_write
          (LogEntry.create_ticket req.encrypted_body (ticket_index_from_proto req.index))
          d).0
        ≡ none
      → (create_ticket_call b client_write req d).0 ≡ failed internal
  unfolding create_ticket_call
  failed_write client_write req d e = ground (arith, e)

  get_fresh :
      (d : b.sled.Db) (n : ℕ) (body : Bytes) (index : TicketIndexFields) (include_deleted : Bool)
      → IsConsistent b d
      → row b d n ≡ some (fresh body index)
      → get_ticket_call b (record { ticket_id = n; include_deleted = include_deleted }) d
        ≡ done (ticket_record n (fresh body index))
  unfolding get_ticket_call visible
  get_fresh d n body index include_deleted c e =
      rw (get_ticket_call, get_ticket-row b d n include_deleted c, e) refl

  -- A ticket that a client creates can be read back, where a write fails or is committed. From a
  -- consistent state with ids left, a call fails with an internal error, or returns the next id,
  -- not deleted, with the body of the request, and then a call with that id returns the same
  -- record, every other row is as before, and the state is consistent.
  pub create_ticket_call_lem :
      (client_write : ClientWrite b) (req : TicketWrite) (d : b.sled.Db) (include_deleted : Bool)
      → Commits client_write
      → IsConsistent b d
      → last_id b d + 1 < 2 ^ 64
      → let stored = fresh req.encrypted_body (ticket_index_from_proto req.index) in
        let answer = ticket_record (last_id b d + 1) stored in
        let r = create_ticket_call b client_write req d in
        (r.0 ≡ failed internal)
        ⊎ ((r.0 ≡ done answer)
            × Sets b d r.1 (last_id b d + 1) stored
            × (get_ticket_call b
                  (record { ticket_id = last_id b d + 1; include_deleted = include_deleted })
                  r.1
                ≡ done answer))
  unfolding Commits
  create_ticket_call_lem client_write req d include_deleted commits c room =
      let index = ticket_index_from_proto req.index in
      let n = last_id b d + 1 in
      let law = create_ticket_lem b d req.encrypted_body index c room in
      let state = (create_ticket b d req.encrypted_body index).1 in
      let applied = apply-create d req.encrypted_body index n law.0 in
      elim (commits (LogEntry.create_ticket req.encrypted_body index) d) [
        | inl e ↦ inl (failed_write client_write req d e)
        | inr (r, d', a, e) ↦
            let same : (ok r, d')
                ≡ (ok (record { success = true; value = some (to_be_bytes n) }), state) =
              sym a ∙ applied in
            let e' = e ∙ ap some_of same in
            let call = call_of_write client_write req d state n room e' in
            inr (
              rw call (
                refl,
                law.2,
                get_fresh state n req.encrypted_body index include_deleted law.2.consistent
                    law.2.set,
              ))
      ]
    where
      some_of : Result DbResponse × b.sled.Db → Option DbResponse × b.sled.Db
      some_of (ok r, d) = (some r, d)
      some_of (err x, d) = (none, d)
