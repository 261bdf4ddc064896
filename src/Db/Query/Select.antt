-- ===== src/Db/Query/Select.antt =====
-- The loop of `query_tickets` in db/src/storage.rs against a filter of the candidates.
use infovulcan.Common.{
  ℕ, zero, suc, ◌+◌, ◌-◌, ◌<◌, ◌≡◌, refl, ◌⊎◌, inl, inr, Bool, not, ◌&&◌, Option, none, some, List,
  [], ◌∷◌, arith, ltb, leb, ◌==◌, if◌then◌else◌, Bool-cases, Option-cases, take, ok,
}
use infovulcan.Common.Word.{to_be_bytes}
use infovulcan.Db.Types.{Backend, StoredTicket, TicketQuery, tree_tickets}
use infovulcan.Db.Tickets.{get_ticket}
use infovulcan.Db.Tickets.Invariant.{row, IsConsistent}
use infovulcan.Db.Query.{passes, query_loop}

-- A row that a reader sees: soft-deleted rows only if asked for.
unfoldable pub visible : Bool → Option StoredTicket → Option StoredTicket
visible include_deleted none = none
visible include_deleted (some stored) =
    if stored.deleted && not include_deleted then none else some stored

unfoldable pub chosen : TicketQuery → Option StoredTicket → Option StoredTicket
chosen q none = none
chosen q (some stored) = if passes q stored then some stored else none

abbrev pub push_chosen : ℕ → Option StoredTicket → List (ℕ × StoredTicket) → List (ℕ × StoredTicket)
push_chosen id none out = out
push_chosen id (some stored) out = (id, stored) ∷ out

-- At most the limit; 0 is no limit.
abbrev pub limited : ℕ → ℕ → List (ℕ × StoredTicket) → List (ℕ × StoredTicket)
limited limit found out = if limit == 0 then out else take (limit - found) out

take_nil {ℓ} : {A : Type ℓ} (n : ℕ) → take {A = A} n [] ≡ []
take_nil zero = refl
take_nil (suc n) = refl

take_step {ℓ} :
    {A : Type ℓ} (m n : ℕ) (x : A) (xs : List A) → m ≡ suc n → take m (x ∷ xs) ≡ x ∷ take n xs
take_step m n x xs e = rw e

module _ (b : Backend) where
  -- The rows of the candidates that are visible and pass the filters, in the candidates' order.
  unfoldable pub select : b.sled.Db → TicketQuery → List ℕ → List (ℕ × StoredTicket)
  select d q [] = []
  select d q (id ∷ ids) =
      push_chosen id (chosen q (visible q.include_deleted (row b d id))) (select d q ids)

  -- Reading a ticket of a consistent state never fails, and gives its row if that is visible.
  pub get_ticket-row :
      (d : b.sled.Db) (id : ℕ) (include_deleted : Bool)
      → IsConsistent b d
      → get_ticket b d id include_deleted ≡ ok (visible include_deleted (row b d id))
  unfolding get_ticket visible row
  get_ticket-row d id inc c = elim (Option-cases (b.sled.get d tree_tickets (to_be_bytes id))) [
    | inl e ↦ rw (e, get_ticket, row) refl
    | inr (v, e) ↦
        let (i, s, hi, ki, vi) = c.keyed (to_be_bytes id) v e in
        ground (arith, e, vi, b.tickets.from_slice-to_vec s)
  ]

  pub query_loop-select :
      (d : b.sled.Db) (q : TicketQuery) (ids : List ℕ) (found : ℕ)
      → IsConsistent b d
      → (q.limit ≡ 0) ⊎ (found < q.limit)
      → query_loop b d q ids found ≡ ok (limited q.limit found (select d q ids))
  unfolding query_loop select chosen
  query_loop-select d q [] found c h =
      ground (arith, take_nil {A = ℕ × StoredTicket} (q.limit - found))
  query_loop-select d q (id ∷ ids) found c h =
      let shown = visible q.include_deleted (row b d id) in
      elim (Option-cases shown) [
        | inl e ↦
            rw (get_ticket-row d id q.include_deleted c, e, query_loop, select)
              (query_loop-select d q ids found c h)
        | inr (stored, e) ↦ elim (Bool-cases (passes q stored)) [
          | inl p ↦ elim (Bool-cases (ltb 0 q.limit && leb q.limit (found + 1))) [
            | inl last ↦ ground (
              arith,
              get_ticket-row d id q.include_deleted c,
              take_step (q.limit - found) 0 (id, stored) (select d q ids),
            )
            | inr more ↦
                let h' : (q.limit ≡ 0) ⊎ (found + 1 < q.limit) = ground arith in
                ground (
                  arith,
                  get_ticket-row d id q.include_deleted c,
                  query_loop-select d q ids (found + 1) c h',
                  take_step (q.limit - found) (q.limit - (found + 1)) (id, stored) (select d q ids),
                )
          ]
          | inr p ↦
              ground (
                arith,
                get_ticket-row d id q.include_deleted c,
                query_loop-select d q ids found c h,
              )
        ]
      ]
