-- ===== src/Db/Tickets/Consistency.antt =====
-- The shared write keeps the rows and the secondary indexes of db/src/storage.rs consistent.
use infovulcan.Common.{
  ℕ, ◌^◌, ◌≤◌, ◌<◌, ◌≡◌, refl, sym, ◌∙◌, inl, inr, true, false, Option, some, arith, Bool-cases,
  Bytes, beq, beq_refl, eq_of_beq,
}
use native.Mathlib.Decide.{ℕ_discrete}
use infovulcan.Common.Word.{to_be_bytes}
use infovulcan.Db.Types.{
  Backend, TicketIndexFields, StoredTicket, tree_tickets, tree_seq, seq_ticket,
}
use infovulcan.Db.Tickets.Entries.{is_ticket_index}
use infovulcan.Db.Tickets.Invariant.{active, index_row, index_row_set, row, last_id, IsConsistent}
use infovulcan.Db.Tickets.Repoint.{
  repoint, get-repoint_index, get-repoint_other, row-repoint_self, row-repoint_ne,
}

seq_no_index : is_ticket_index tree_seq ≡ false
unfolding beq
seq_no_index = refl

tickets_no_index : is_ticket_index tree_tickets ≡ false
unfolding beq
tickets_no_index = refl

tickets_ne_seq : beq tree_tickets tree_seq ≡ false
unfolding beq
tickets_ne_seq = refl

module _ (b : Backend) (d : b.sled.Db) (id : ℕ) (old : Option TicketIndexFields)
    (stored : StoredTicket) where
  seq-repoint :
      (k : Bytes) → b.sled.get (repoint b d id old stored) tree_seq k ≡ b.sled.get d tree_seq k
  seq-repoint k =
      ground (arith, get-repoint_other b d id old stored tree_seq k seq_no_index, tickets_ne_seq)

  pub last_id-repoint : last_id b (repoint b d id old stored) ≡ last_id b d
  unfolding last_id
  last_id-repoint = rw (seq-repoint seq_ticket, last_id)

  module _ (h : id < 2 ^ 64) (c : IsConsistent b d) (e : old ≡ active (row b d id)) (p : 0 < id)
      (le : id ≤ last_id b d) where
    indexed_after :
        (t k : Bytes)
        → is_ticket_index t ≡ true
        → b.sled.get (repoint b d id old stored) t k
          ≡ index_row (row b (repoint b d id old stored)) t k
    indexed_after t k ti =
        let d' = repoint b d id old stored in
        let step =
          index_row_set (row b d) (row b d') id t k h
            (λ i hi ne. row-repoint_ne b d id old stored i h hi ne) in
        ground (
          arith,
          get-repoint_index b d id old stored t k ti,
          step,
          row-repoint_self b d id old stored,
          c.indexed t k ti,
        )

    keyed_after :
        (k v : Bytes)
        → b.sled.get (repoint b d id old stored) tree_tickets k ≡ some v
        → (i : ℕ) × (s : StoredTicket) × (i < 2 ^ 64)
          × (k ≡ to_be_bytes i)
          × (v ≡ b.tickets.to_vec s)
    keyed_after k v g = elim (Bool-cases (beq (to_be_bytes id) k)) [
      | inl q ↦ (
        id,
        stored,
        h,
        sym (eq_of_beq (to_be_bytes id) k q),
        ground (
          arith,
          get-repoint_other b d id old stored tree_tickets k tickets_no_index,
          beq_refl tree_tickets,
        ),
      )
      | inr q ↦
          c.keyed k v
            (ground (arith, get-repoint_other b d id old stored tree_tickets k tickets_no_index))
    ]

    counted_after :
        (i : ℕ) (s : StoredTicket)
        → i < 2 ^ 64
        → row b (repoint b d id old stored) i ≡ some s
        → (0 < i) × (i ≤ last_id b (repoint b d id old stored))
    counted_after i s hi r = elim (ℕ_discrete i id) [
      | yes q ↦ rw last_id-repoint (omega arith)
      | no q ↦
          rw last_id-repoint
            (c.counted i s hi (sym (row-repoint_ne b d id old stored i h hi q) ∙ r))
    ]

    pub repoint-IsConsistent : IsConsistent b (repoint b d id old stored)
    repoint-IsConsistent = record {
      indexed = indexed_after;
      keyed = keyed_after;
      counted = counted_after;
      counter = rw (seq-repoint seq_ticket) c.counter;
    }
