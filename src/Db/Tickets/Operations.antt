-- ===== src/Db/Tickets/Operations.antt =====
-- Creation, update and soft deletion of tickets in db/src/storage.rs as changes of the table of rows.
use infovulcan.Common.{
  ℕ, ◌+◌, ◌^◌, ◌≤◌, ◌<◌, ◌≡◌, refl, ap, ◌∙◌, ◌≢◌, inl, inr, true, false, none, some, arith,
  Option-cases, Bytes, not_found, ok, err,
}
use infovulcan.Common.Int.{ℤ, pos}
use infovulcan.Common.Word.{to_be_bytes}
use infovulcan.Db.Types.{Backend, TicketIndexFields, StoredTicket, tree_tickets, seq_ticket}
use infovulcan.Db.Tickets.{
  next_id, existing_ticket, create_ticket, update_ticket, soft_delete_ticket,
}
use infovulcan.Db.Tickets.Invariant.{active, row, last_id, IsConsistent}
use infovulcan.Db.Tickets.Repoint.{repoint, row-repoint_self, row-repoint_ne}
use infovulcan.Db.Tickets.Consistency.{repoint-IsConsistent, last_id-repoint}
use infovulcan.Db.Tickets.NextId.{
  next_id-last_id, row-next_id, last_id-next_id, next_id-IsConsistent,
}

-- The row that an update leaves: new contents, the old state of deletion.
abbrev pub updated : StoredTicket → Bytes → TicketIndexFields → StoredTicket
updated old body index = record old { body = body; index = index }

abbrev pub marked : StoredTicket → ℤ → StoredTicket
marked old at_unix = record old { deleted = true; deleted_at_unix = at_unix }

abbrev pub fresh : Bytes → TicketIndexFields → StoredTicket
fresh body index = record { body = body; index = index; deleted = false; deleted_at_unix = pos 0 }

module _ (b : Backend) where
  -- `d'` is `d` with one row set, and is as consistent.
  pub record Sets (d d' : b.sled.Db) (id : ℕ) (stored : StoredTicket) : Type 0 where
    pub consistent : IsConsistent b d'
    pub set : row b d' id ≡ some stored
    pub kept : (i : ℕ) → i < 2 ^ 64 → i ≢ id → row b d' i ≡ row b d i

  repoint-Sets :
      (d : b.sled.Db) (id : ℕ) (stored : StoredTicket)
      → id < 2 ^ 64
      → IsConsistent b d
      → 0 < id
      → id ≤ last_id b d
      → Sets d (repoint b d id (active (row b d id)) stored) id stored
  repoint-Sets d id stored h c p le = record {
    consistent = repoint-IsConsistent b d id (active (row b d id)) stored h c refl p le;
    set = row-repoint_self b d id (active (row b d id)) stored;
    kept = λ i hi ne. row-repoint_ne b d id (active (row b d id)) stored i h hi ne;
  }

  pub existing-row :
      (d : b.sled.Db) (id : ℕ) (old : StoredTicket)
      → row b d id ≡ some old
      → existing_ticket b d id ≡ ok old
  unfolding row existing_ticket
  existing-row d id old e = ground arith

  pub existing_missing :
      (d : b.sled.Db) (id : ℕ)
      → b.sled.get d tree_tickets (to_be_bytes id) ≡ none
      → existing_ticket b d id ≡ err not_found
  unfolding existing_ticket
  existing_missing d id e = ground arith

  update_ticket-repoint :
      (d : b.sled.Db) (id : ℕ) (body : Bytes) (index : TicketIndexFields) (old : StoredTicket)
      → row b d id ≡ some old
      → update_ticket b d id body index
        ≡ (ok tt, repoint b d id (active (row b d id)) (updated old body index))
  unfolding update_ticket repoint active
  update_ticket-repoint d id body index old e = ground (arith, existing-row d id old e)

  soft_delete_ticket-repoint :
      (d : b.sled.Db) (id : ℕ) (at_unix : ℤ) (old : StoredTicket)
      → row b d id ≡ some old
      → soft_delete_ticket b d id at_unix
        ≡ (ok tt, repoint b d id (active (row b d id)) (marked old at_unix))
  unfolding soft_delete_ticket repoint active
  soft_delete_ticket-repoint d id at_unix old e = ground (arith, existing-row d id old e)

  create_ticket-repoint :
      (d : b.sled.Db) (body : Bytes) (index : TicketIndexFields) (n : ℕ)
      → (next_id b d seq_ticket).0 ≡ ok n
      → create_ticket b d body index
        ≡ (ok n, repoint b (next_id b d seq_ticket).1 n none (fresh body index))
  unfolding create_ticket repoint active
  create_ticket-repoint d body index n e = ground arith

  row_fresh :
      (d : b.sled.Db)
      → IsConsistent b d
      → last_id b d + 1 < 2 ^ 64
      → row b d (last_id b d + 1) ≡ none
  row_fresh d c h = elim (Option-cases (row b d (last_id b d + 1))) [
    | inl e ↦ e
    | inr (s, e) ↦ absurd (omega (arith, c.counted (last_id b d + 1) s h e))
  ]

  create-Sets :
      (d : b.sled.Db) (body : Bytes) (index : TicketIndexFields)
      → IsConsistent b d
      → last_id b d + 1 < 2 ^ 64
      → Sets d
          (repoint b (next_id b d seq_ticket).1 (last_id b d + 1) none (fresh body index))
          (last_id b d + 1)
          (fresh body index)
  create-Sets d body index c h =
      let d1 = (next_id b d seq_ticket).1 in
      let n = last_id b d + 1 in
      let rows : row b d1 ≡ row b d = row-next_id b d c h in
      let free : none ≡ active (row b d1 n) = rw (rows, row_fresh d c h) (unfold active in refl) in
      record {
        consistent =
            repoint-IsConsistent b d1 n none (fresh body index) h (next_id-IsConsistent b d c h)
              free (omega arith) (rw (last_id-next_id b d c h) (omega arith));
        set = row-repoint_self b d1 n none (fresh body index);
        kept =
            λ i hi ne. row-repoint_ne b d1 n none (fresh body index) i h hi ne ∙ ap (λ f. f i) rows;
      }

  -- From a consistent state with ids left, creating a ticket gives it the id after the last one,
  -- which no row has; the state stays consistent, the row holds the given body and fields and is not
  -- deleted, every other row is as before, and the counter has moved on by one.
  pub create_ticket_lem :
      (d : b.sled.Db) (body : Bytes) (index : TicketIndexFields)
      → IsConsistent b d
      → last_id b d + 1 < 2 ^ 64
      → ((create_ticket b d body index).0 ≡ ok (last_id b d + 1))
        × (row b d (last_id b d + 1) ≡ none)
        × Sets d (create_ticket b d body index).1 (last_id b d + 1) (fresh body index)
        × (last_id b (create_ticket b d body index).1 ≡ last_id b d + 1)
  create_ticket_lem d body index c h =
      rw (create_ticket-repoint d body index (last_id b d + 1) (next_id-last_id b d c h)) (
        refl,
        row_fresh d c h,
        create-Sets d body index c h,
        last_id-repoint b (next_id b d seq_ticket).1 (last_id b d + 1) none (fresh body index)
            ∙ last_id-next_id b d c h,
      )

  -- From a consistent state, updating a ticket with a `u64` id that has a row succeeds, keeps the
  -- state consistent, sets the body and fields of that row and not its deletion, and leaves every
  -- other row and the counter as they were.
  pub update_ticket_lem :
      (d : b.sled.Db) (id : ℕ) (body : Bytes) (index : TicketIndexFields) (old : StoredTicket)
      → IsConsistent b d
      → id < 2 ^ 64
      → row b d id ≡ some old
      → ((update_ticket b d id body index).0 ≡ ok tt)
        × Sets d (update_ticket b d id body index).1 id (updated old body index)
        × (last_id b (update_ticket b d id body index).1 ≡ last_id b d)
  update_ticket_lem d id body index old c h e =
      let below = c.counted id old h e in
      rw (update_ticket-repoint d id body index old e) (
        refl,
        repoint-Sets d id (updated old body index) h c below.0 below.1,
        last_id-repoint b d id _ _,
      )

  -- From a consistent state, soft deletion of a ticket with a `u64` id that has a row succeeds,
  -- keeps the state consistent, marks that row deleted at the given time with its contents kept,
  -- and leaves every other row and the counter as they were.
  pub soft_delete_ticket_lem :
      (d : b.sled.Db) (id : ℕ) (at_unix : ℤ) (old : StoredTicket)
      → IsConsistent b d
      → id < 2 ^ 64
      → row b d id ≡ some old
      → ((soft_delete_ticket b d id at_unix).0 ≡ ok tt)
        × Sets d (soft_delete_ticket b d id at_unix).1 id (marked old at_unix)
        × (last_id b (soft_delete_ticket b d id at_unix).1 ≡ last_id b d)
  soft_delete_ticket_lem d id at_unix old c h e =
      let below = c.counted id old h e in
      rw (soft_delete_ticket-repoint d id at_unix old e) (
        refl,
        repoint-Sets d id (marked old at_unix) h c below.0 below.1,
        last_id-repoint b d id _ _,
      )

  -- Where there is no row for the id, both an update and a soft deletion report `not_found` and
  -- change nothing.
  pub missing_ticket_unchanged :
      (d : b.sled.Db) (id : ℕ) (body : Bytes) (index : TicketIndexFields) (at_unix : ℤ)
      → b.sled.get d tree_tickets (to_be_bytes id) ≡ none
      → (update_ticket b d id body index ≡ (err not_found, d))
        × (soft_delete_ticket b d id at_unix ≡ (err not_found, d))
  unfolding update_ticket soft_delete_ticket
  missing_ticket_unchanged d id body index at_unix e = (
    rw (existing_missing d id e, update_ticket),
    rw (existing_missing d id e, soft_delete_ticket),
  )
