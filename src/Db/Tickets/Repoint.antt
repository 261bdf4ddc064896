-- ===== src/Db/Tickets/Repoint.antt =====
-- The write that creation, update and soft deletion of a ticket share: drop the old index entries,
-- store the row, add the new entries.
use infovulcan.Common.{
  ℕ, ◌^◌, ◌<◌, ◌≡◌, refl, sym, ◌∙◌, subst, ◌≢◌, inl, inr, Bool, true, false, ◌&&◌, Option, none,
  some, arith, if◌then◌else◌, Bool-cases, Bytes, beq, beq_refl, eq_of_beq,
}
use mathlib.Core.Bool.{false≢true}
use infovulcan.Common.Word.{to_be_bytes, to_be_bytes-injective}
use infovulcan.Db.Types.{Backend, TicketIndexFields, StoredTicket, tree_tickets}
use infovulcan.Db.Tickets.{ticket_index_entries, write_ticket_indexes}
use infovulcan.Db.Tickets.Entries.{
  is_ticket_index, has_entry_other, get-write_entries-true, get-write_entries-false,
}
use infovulcan.Db.Tickets.Invariant.{active, has_index, row}

tickets_no_index : is_ticket_index tree_tickets ≡ false
unfolding beq
tickets_no_index = refl

is_index_ne : (t : Bytes) → is_ticket_index t ≡ true → beq tree_tickets t ≡ false
is_index_ne t h = elim (Bool-cases (beq tree_tickets t)) [
  | inl e ↦
      let p : is_ticket_index t ≡ false =
        subst (λ s. is_ticket_index s ≡ false) (eq_of_beq tree_tickets t e) tickets_no_index in
      absurd (false≢true (sym p ∙ h))
  | inr e ↦ e
]

module _ (b : Backend) where
  unfoldable pub reindex : b.sled.Db → ℕ → Option TicketIndexFields → Bool → b.sled.Db
  reindex d id none insert = d
  reindex d id (some index) insert = write_ticket_indexes b d id index insert

  unfoldable pub repoint : b.sled.Db → ℕ → Option TicketIndexFields → StoredTicket → b.sled.Db
  unfolding reindex
  repoint d id old stored =
      reindex
        (b.sled.insert (reindex d id old false) tree_tickets (to_be_bytes id)
          (b.tickets.to_vec stored))
        id (active (some stored)) true

  get-reindex-true :
      (d : b.sled.Db) (id : ℕ) (index : Option TicketIndexFields) (t k : Bytes)
      → b.sled.get (reindex d id index true) t k
        ≡ (if has_index id index t k then some (to_be_bytes id) else b.sled.get d t k)
  unfolding reindex has_index write_ticket_indexes
  get-reindex-true d id none t k = refl
  get-reindex-true d id (some index) t k =
      get-write_entries-true b d (to_be_bytes id) (ticket_index_entries index) t k

  get-reindex-false :
      (d : b.sled.Db) (id : ℕ) (index : Option TicketIndexFields) (t k : Bytes)
      → b.sled.get (reindex d id index false) t k
        ≡ (if has_index id index t k then none else b.sled.get d t k)
  unfolding reindex has_index write_ticket_indexes
  get-reindex-false d id none t k = refl
  get-reindex-false d id (some index) t k =
      get-write_entries-false b d (to_be_bytes id) (ticket_index_entries index) t k

  has_index_other :
      (id : ℕ) (index : Option TicketIndexFields) (t k : Bytes)
      → is_ticket_index t ≡ false
      → has_index id index t k ≡ false
  unfolding has_index
  has_index_other id none t k h = refl
  has_index_other id (some index) t k h = has_entry_other index (to_be_bytes id) t k h

  module _ (d : b.sled.Db) (id : ℕ) (old : Option TicketIndexFields) (stored : StoredTicket) where
    pub get-repoint_index :
        (t k : Bytes)
        → is_ticket_index t ≡ true
        → b.sled.get (repoint d id old stored) t k ≡ (
            if has_index id (active (some stored)) t k
            then some (to_be_bytes id)
            else if has_index id old t k
            then none
            else b.sled.get d t k)
    unfolding repoint
    get-repoint_index t k h =
        let d1 = reindex d id old false in
        let key = to_be_bytes id in
        let value = b.tickets.to_vec stored in
        let d2 = b.sled.insert d1 tree_tickets key value in
        ground (
          arith,
          get-reindex-true d2 id (active (some stored)) t k,
          b.sled.get-insert d1 tree_tickets key value t k,
          get-reindex-false d id old t k,
          is_index_ne t h,
        )

    pub get-repoint_other :
        (t k : Bytes)
        → is_ticket_index t ≡ false
        → b.sled.get (repoint d id old stored) t k ≡ (
            if beq tree_tickets t && beq (to_be_bytes id) k
            then some (b.tickets.to_vec stored)
            else b.sled.get d t k)
    unfolding repoint
    get-repoint_other t k h =
        let d1 = reindex d id old false in
        let key = to_be_bytes id in
        let value = b.tickets.to_vec stored in
        let d2 = b.sled.insert d1 tree_tickets key value in
        ground (
          arith,
          get-reindex-true d2 id (active (some stored)) t k,
          b.sled.get-insert d1 tree_tickets key value t k,
          get-reindex-false d id old t k,
          has_index_other id (active (some stored)) t k h,
          has_index_other id old t k h,
        )

    pub row-repoint_self : row b (repoint d id old stored) id ≡ some stored
    unfolding row
    row-repoint_self = ground (
      arith,
      get-repoint_other tree_tickets (to_be_bytes id) tickets_no_index,
      beq_refl tree_tickets,
      beq_refl (to_be_bytes id),
      b.tickets.from_slice-to_vec stored,
    )

    pub row-repoint_ne :
        (i : ℕ) → id < 2 ^ 64 → i < 2 ^ 64 → i ≢ id → row b (repoint d id old stored) i ≡ row b d i
    unfolding row
    row-repoint_ne i h k ne = ground (
      arith,
      get-repoint_other tree_tickets (to_be_bytes i) tickets_no_index,
      eq_of_beq (to_be_bytes id) (to_be_bytes i),
      to_be_bytes-injective id i h k,
      λ (e : id ≡ i). ne (sym e),
    )
