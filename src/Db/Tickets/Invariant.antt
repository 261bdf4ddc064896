-- ===== src/Db/Tickets/Invariant.antt =====
-- The state of the ticket trees as a table of rows, and the invariant that ties the secondary
-- indexes of db/src/storage.rs to it.
use infovulcan.Common.{
  ℕ, ◌<◌, ◌≤◌, ◌^◌, ◌≡◌, ◌≢◌, ◌⊎◌, Bool, true, false, Option, none, some, Bytes, if◌then◌else◌,
  arith, Option-cases, inl, inr, ap, ◌∙◌,
}
use native.Mathlib.Decide.{ℕ_discrete}
use infovulcan.Common.Word.{to_be_bytes}
use infovulcan.Db.Types.{
  Backend, TicketIndexFields, StoredTicket, tree_tickets, tree_seq, seq_ticket,
}
use infovulcan.Db.Tickets.{ticket_index_entries, counter_of}
use infovulcan.Db.Tickets.Entries.{
  is_ticket_index, has_entry, owner, owner_bound, owner_of_has_entry,
}

abbrev pub Table : Type 0
Table = ℕ → Option StoredTicket

-- The fields that are indexed: none for a row that is missing or soft-deleted.
unfoldable pub active : Option StoredTicket → Option TicketIndexFields
active none = none
active (some stored) = if stored.deleted then none else some stored.index

unfoldable pub has_index : ℕ → Option TicketIndexFields → Bytes → Bytes → Bool
has_index id none t k = false
has_index id (some index) t k = has_entry (ticket_index_entries index) (to_be_bytes id) t k

-- What an index tree holds under a key, told from the rows alone.
unfoldable pub index_row : Table → Bytes → Bytes → Option Bytes
index_row rows t k = elim (owner k) [
  | none ↦ none
  | some id ↦ if has_index id (active (rows id)) t k then some (to_be_bytes id) else none
]

owner_of_has_index :
    (id : ℕ) (index : Option TicketIndexFields) (t k : Bytes)
    → id < 2 ^ 64
    → has_index id index t k ≡ true
    → owner k ≡ some id
unfolding has_index
owner_of_has_index id none t k h e = cc
owner_of_has_index id (some index) t k h e =
    owner_of_has_entry (ticket_index_entries index) id t k h e

-- Changing one row drops its old entries and adds its new ones.
pub index_row_set :
    (rows rows' : Table) (id : ℕ) (t k : Bytes)
    → id < 2 ^ 64
    → ((i : ℕ) → i < 2 ^ 64 → i ≢ id → rows' i ≡ rows i)
    → index_row rows' t k ≡ (
        if has_index id (active (rows' id)) t k
        then some (to_be_bytes id)
        else if has_index id (active (rows id)) t k
        then none
        else index_row rows t k)
unfolding index_row
index_row_set rows rows' id t k h same = elim (Option-cases (owner k)) [
  | inl e ↦ rw (e, index_row) (ground (arith, of_new, of_old))
  | inr (i, e) ↦ elim (ℕ_discrete i id) [
    | yes p ↦ let q : owner k ≡ some id = e ∙ ap some p in rw (q, index_row) (ground arith)
    | no p ↦
        let s : rows' i ≡ rows i = same i (owner_bound k i e) p in
        rw (e, index_row) (rw s (ground (arith, of_new, of_old)))
  ]
]
  where
    of_new : has_index id (active (rows' id)) t k ≡ true → owner k ≡ some id
    of_new = owner_of_has_index id (active (rows' id)) t k h

    of_old : has_index id (active (rows id)) t k ≡ true → owner k ≡ some id
    of_old = owner_of_has_index id (active (rows id)) t k h

module _ (b : Backend) where
  unfoldable pub row : b.sled.Db → Table
  row d id = elim (b.sled.get d tree_tickets (to_be_bytes id)) [
    | none ↦ none
    | some bytes ↦ b.tickets.from_slice bytes
  ]

  -- The last id given out, 0 before the first.
  unfoldable pub last_id : b.sled.Db → ℕ
  last_id d = elim (b.sled.get d tree_seq seq_ticket) [ none ↦ 0 | some bytes ↦ counter_of bytes ]

  -- Every index tree holds exactly the entries of the active rows, every row parses and is stored
  -- under its id, and no id lies above the counter.
  pub record IsConsistent (d : b.sled.Db) : Type 0 where
    pub indexed :
        (t k : Bytes) → is_ticket_index t ≡ true → b.sled.get d t k ≡ index_row (row d) t k
    pub keyed :
        (k v : Bytes)
        → b.sled.get d tree_tickets k ≡ some v
        → (id : ℕ) × (stored : StoredTicket) × (id < 2 ^ 64)
          × (k ≡ to_be_bytes id)
          × (v ≡ b.tickets.to_vec stored)
    pub counted :
        (id : ℕ) (stored : StoredTicket)
        → id < 2 ^ 64
        → row d id ≡ some stored
        → (0 < id) × (id ≤ last_id d)
    pub counter :
        (b.sled.get d tree_seq seq_ticket ≡ none)
        ⊎ ((n : ℕ) × (n < 2 ^ 64) × (b.sled.get d tree_seq seq_ticket ≡ some (to_be_bytes n)))
