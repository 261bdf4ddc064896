-- ===== src/Db/Query/Candidates.antt =====
-- Every row that a query asks for is among the candidates of `query_tickets` in db/src/storage.rs.
use infovulcan.Common.{
  ℕ, ◌^◌, ◌<◌, ◌≡◌, refl, sym, ap, ◌∙◌, subst, ◌⊎◌, inl, inr, true, false, none, some, List, [],
  ◌∷◌, ◌++◌, arith, Bool-cases, Option-cases, In, In-filter, Bytes, beq, beq_refl, eq_of_beq,
  starts_with, starts_with-append,
}
use mathlib.Core.Bool.{false≢true}
use mathlib.Core.List.{append_assoc}
use infovulcan.Common.Word.{to_be_bytes, from_be_bytes, from-to_be_bytes}
use infovulcan.Db.Types.{
  Backend, StoredTicket, TicketIndexFields, TicketQuery, tree_tickets, idx_ticket_status,
  idx_ticket_assignee, idx_ticket_project, idx_ticket_account,
}
use infovulcan.Db.Storage.{list}
use infovulcan.Db.Tickets.{index_key, index_prefix, ticket_index_entries}
use infovulcan.Db.Tickets.Entries.{is_ticket_index, has_entry, owner-index_key}
use infovulcan.Db.Tickets.Invariant.{Table, active, has_index, index_row, row, IsConsistent}
use infovulcan.Db.Query.{
  passes, ids_of_keys, ids_of_values, all_ticket_ids, scan_index_ids, active_candidates, candidates,
}

In-ids_of_keys :
    (rows : List (Bytes × Bytes)) (id : ℕ) (v : Bytes)
    → id < 2 ^ 64
    → In (to_be_bytes id, v) rows
    → In id (ids_of_keys rows)
unfolding ids_of_keys
In-ids_of_keys [] id v h m = elim m [ ]
In-ids_of_keys ((j, w) ∷ rows) id v h (inl e) =
    let p : j ≡ to_be_bytes id = ap (λ r. r.0) e in rw (p, from-to_be_bytes id h) (inl refl)
In-ids_of_keys ((j, w) ∷ rows) id v h (inr m) = elim (Option-cases (from_be_bytes j)) [
  | inl e ↦ rw e (In-ids_of_keys rows id v h m)
  | inr (i, e) ↦ rw e (inr (In-ids_of_keys rows id v h m))
]

In-ids_of_values :
    (rows : List (Bytes × Bytes)) (id : ℕ) (k : Bytes)
    → id < 2 ^ 64
    → In (k, to_be_bytes id) rows
    → In id (ids_of_values rows)
unfolding ids_of_values
In-ids_of_values [] id k h m = elim m [ ]
In-ids_of_values ((j, w) ∷ rows) id k h (inl e) =
    let p : w ≡ to_be_bytes id = ap (λ r. r.1) e in rw (p, from-to_be_bytes id h) (inl refl)
In-ids_of_values ((j, w) ∷ rows) id k h (inr m) = elim (Option-cases (from_be_bytes w)) [
  | inl e ↦ rw e (In-ids_of_values rows id k h m)
  | inr (i, e) ↦ rw e (inr (In-ids_of_values rows id k h m))
]

has_entry-In :
    (es : List (Bytes × Bytes)) (entity t value : Bytes)
    → In (t, value) es
    → has_entry es entity t (index_key value entity) ≡ true
unfolding has_entry
has_entry-In [] entity t value m = elim m [ ]
has_entry-In ((j, w) ∷ es) entity t value (inl e) =
    let p : j ≡ t = ap (λ r. r.0) e in
    let q : w ≡ value = ap (λ r. r.1) e in
    rw (p, q) (ground (arith, beq_refl t, beq_refl (index_key value entity)))
has_entry-In ((j, w) ∷ es) entity t value (inr m) = ground (arith, has_entry-In es entity t value m)

prefixed_key :
    (value entity : Bytes) → starts_with (index_prefix value) (index_key value entity) ≡ true
unfolding index_prefix index_key
prefixed_key value entity =
    rw (← append_assoc value (0 ∷ []) entity) (starts_with-append (value ++ 0 ∷ []) entity)

index_row_at :
    (rows : Table) (id : ℕ) (stored : StoredTicket) (t value : Bytes)
    → id < 2 ^ 64
    → rows id ≡ some stored
    → stored.deleted ≡ false
    → In (t, value) (ticket_index_entries stored.index)
    → index_row rows t (index_key value (to_be_bytes id)) ≡ some (to_be_bytes id)
unfolding index_row has_index active
index_row_at rows id stored t value h e live m = ground (
  arith,
  owner-index_key value id h,
  has_entry-In (ticket_index_entries stored.index) (to_be_bytes id) t value m,
)

status_entry :
    (index : TicketIndexFields)
    → In (idx_ticket_status, index.status ∷ []) (ticket_index_entries index)
unfolding ticket_index_entries
status_entry index = inl refl

account_entry :
    (index : TicketIndexFields)
    → In (idx_ticket_account, index.account_uuid) (ticket_index_entries index)
unfolding ticket_index_entries
account_entry index = inr (inl refl)

project_entry :
    (index : TicketIndexFields)
    → In (idx_ticket_project, index.project) (ticket_index_entries index)
unfolding ticket_index_entries
project_entry index = inr (inr (inl refl))

assignee_entry :
    (index : TicketIndexFields) (a : Bytes)
    → index.assigned_to_uuid ≡ some a
    → In (idx_ticket_assignee, a) (ticket_index_entries index)
unfolding ticket_index_entries
assignee_entry index a e = inr (inr (inr (inr (inr (rw e (inl refl))))))

-- The four trees that a query scans are index trees.
abbrev AreIndexes : Type 0
AreIndexes =
    (is_ticket_index idx_ticket_status ≡ true)
    × (is_ticket_index idx_ticket_assignee ≡ true)
    × (is_ticket_index idx_ticket_account ≡ true)
    × (is_ticket_index idx_ticket_project ≡ true)

are_indexes : AreIndexes
unfolding beq
are_indexes = (refl, refl, refl, refl)

-- What a filter that is set says of a row that passes.
status_of_passes :
    (q : TicketQuery) (stored : StoredTicket) (s : ℕ)
    → passes q stored ≡ true
    → q.status ≡ some s
    → stored.index.status ≡ s
unfolding passes
status_of_passes q stored s p e = ground arith

assignee_of_passes :
    (q : TicketQuery) (stored : StoredTicket) (a : Bytes)
    → passes q stored ≡ true
    → q.assigned_to_uuid ≡ some a
    → stored.index.assigned_to_uuid ≡ some a
unfolding passes
assignee_of_passes q stored a p e = elim (Option-cases stored.index.assigned_to_uuid) [
  | inl n ↦ ground arith
  | inr (x, n) ↦ ground (arith, eq_of_beq x a)
]

account_of_passes :
    (q : TicketQuery) (stored : StoredTicket) (a : Bytes)
    → passes q stored ≡ true
    → q.account_uuid ≡ some a
    → stored.index.account_uuid ≡ a
unfolding passes
account_of_passes q stored a p e = ground (arith, eq_of_beq stored.index.account_uuid a)

project_of_passes :
    (q : TicketQuery) (stored : StoredTicket) (a : Bytes)
    → passes q stored ≡ true
    → q.project ≡ some a
    → stored.index.project ≡ a
unfolding passes
project_of_passes q stored a p e = ground (arith, eq_of_beq stored.index.project a)

module _ (b : Backend) (d : b.sled.Db) (c : IsConsistent b d) where
  -- A stored row is found by the full scan.
  pub In-all_ticket_ids :
      (id : ℕ) (stored : StoredTicket)
      → id < 2 ^ 64
      → row b d id ≡ some stored
      → In id (all_ticket_ids b d)
  unfolding all_ticket_ids list row
  In-all_ticket_ids id stored h e =
      elim (Option-cases (b.sled.get d tree_tickets (to_be_bytes id))) [
        | inl g ↦ absurd (gone g)
        | inr (v, g) ↦
            In-ids_of_keys (b.sled.iter d tree_tickets) id v h
              (b.sled.iter_complete d tree_tickets (to_be_bytes id) v g)
      ]
    where
      gone : b.sled.get d tree_tickets (to_be_bytes id) ≡ none → ⊥
      gone g = ground arith

  -- An active row is found by a scan for any of its index entries.
  pub In-scan_index_ids :
      (id : ℕ) (stored : StoredTicket) (t value : Bytes)
      → id < 2 ^ 64
      → row b d id ≡ some stored
      → stored.deleted ≡ false
      → is_ticket_index t ≡ true
      → In (t, value) (ticket_index_entries stored.index)
      → In id (scan_index_ids b d t value)
  unfolding scan_index_ids
  In-scan_index_ids id stored t value h e live ti m =
      rw (b.sled.scan_prefix_lem d t (index_prefix value)) (
        In-ids_of_values _ id key h
          (In-filter _ (key, to_be_bytes id) (b.sled.iter d t) listed prefixed))
    where
      key : Bytes
      key = index_key value (to_be_bytes id)

      entry : b.sled.get d t key ≡ some (to_be_bytes id)
      entry = c.indexed t key ti ∙ index_row_at (row b d) id stored t value h e live m

      listed : In (key, to_be_bytes id) (b.sled.iter d t)
      listed = b.sled.iter_complete d t key (to_be_bytes id) entry

      prefixed : starts_with (index_prefix value) key ≡ true
      prefixed = prefixed_key value (to_be_bytes id)

  module _ (q : TicketQuery) (id : ℕ) (stored : StoredTicket) (h : id < 2 ^ 64)
      (e : row b d id ≡ some stored) (p : passes q stored ≡ true) where
    -- An active row that passes is found by the scan that the query picks.
    In-active_candidates : stored.deleted ≡ false → In id (active_candidates b d q)
    unfolding active_candidates
    In-active_candidates live = elim (Option-cases q.status) [
      | inr (s, f) ↦ rw f (
          scan idx_ticket_status (s ∷ []) are_indexes.0 (
            subst (λ x. Listed idx_ticket_status (x ∷ [])) (status_of_passes q stored s p f)
              (status_entry stored.index)))
      | inl f ↦ rw f (elim (Option-cases q.assigned_to_uuid) [
        | inr (a, g) ↦ rw g (
            scan idx_ticket_assignee a are_indexes.1
              (assignee_entry stored.index a (assignee_of_passes q stored a p g)))
        | inl g ↦ rw g (elim (Option-cases q.account_uuid) [
          | inr (a, k) ↦ rw k (
              scan idx_ticket_account a are_indexes.2 (
                subst (Listed idx_ticket_account) (account_of_passes q stored a p k)
                  (account_entry stored.index)))
          | inl k ↦ rw k (elim (Option-cases q.project) [
            | inr (a, l) ↦ rw l (
                scan idx_ticket_project a are_indexes.3 (
                  subst (Listed idx_ticket_project) (project_of_passes q stored a p l)
                    (project_entry stored.index)))
            | inl l ↦ rw l (In-all_ticket_ids id stored h e)
          ])
        ])
      ])
    ]
      where
        Listed : Bytes → Bytes → Type 0
        Listed t value = In (t, value) (ticket_index_entries stored.index)

        scan :
            (t value : Bytes)
            → is_ticket_index t ≡ true
            → Listed t value
            → In id (scan_index_ids b d t value)
        scan t value = In-scan_index_ids id stored t value h e live

    pub In-candidates :
        (stored.deleted ≡ false) ⊎ (q.include_deleted ≡ true) → In id (candidates b d q)
    unfolding candidates
    In-candidates live = elim (Bool-cases q.include_deleted) [
      | inl i ↦ simp i (In-all_ticket_ids id stored h e)
      | inr i ↦
          simp i (
            In-active_candidates
              (elim live [ inl l ↦ l | inr l ↦ absurd (false≢true (sym i ∙ l)) ]))
    ]
