-- ===== src/Db/Query/Answers.antt =====
-- What `query_tickets` of db/src/storage.rs answers.
use infovulcan.Common.{
  ℕ, zero, suc, ◌-◌, ◌^◌, ◌≤◌, ◌<◌, ◌≡◌, ap, ◌∙◌, subst, ◌⊎◌, inl, inr, true, false, not, ◌&&◌,
  Option, none, some, List, [], ◌∷◌, arith, ◌==◌, ==_iff, Bool-cases, Option-cases, length, take,
  In, ok,
}
use infovulcan.Db.Types.{Backend, StoredTicket, TicketQuery}
use infovulcan.Db.Tickets.Invariant.{row, IsConsistent}
use infovulcan.Db.Query.{passes, candidates, query_tickets}
use infovulcan.Db.Query.Select.{visible, chosen, limited, select, query_loop-select}
use infovulcan.Db.Query.Candidates.{In-candidates}

abbrev Row : Type 0
Row = ℕ × StoredTicket

In-take : (n : ℕ) (x : Row) (xs : List Row) → In x (take n xs) → In x xs
In-take zero x xs m = elim m [ ]
In-take (suc n) x [] m = elim m [ ]
In-take (suc n) x (y ∷ xs) (inl e) = inl e
In-take (suc n) x (y ∷ xs) (inr m) = inr (In-take n x xs m)

length-take-le : (n : ℕ) (xs : List Row) → length (take n xs) ≤ n
length-take-le zero xs = omega arith
length-take-le (suc n) [] = omega arith
length-take-le (suc n) (x ∷ xs) = omega (arith, length-take-le n xs)

-- A row that a query may answer: visible, and past every filter that is set.
abbrev pub IsAnswer : TicketQuery → StoredTicket → Type 0
IsAnswer q stored =
    ((stored.deleted ≡ false) ⊎ (q.include_deleted ≡ true)) × (passes q stored ≡ true)

chosen-IsAnswer :
    (q : TicketQuery) (o : Option StoredTicket) (stored : StoredTicket)
    → chosen q (visible q.include_deleted o) ≡ some stored
    → (o ≡ some stored) × IsAnswer q stored
unfolding chosen visible
chosen-IsAnswer q none stored e = ground arith
chosen-IsAnswer q (some s) stored e = elim (Bool-cases (s.deleted && not q.include_deleted)) [
  | inl h ↦ absurd (ground arith)
  | inr h ↦ elim (Bool-cases (passes q s)) [
    | inl p ↦
        let f : some s ≡ some stored = ground arith in
        (f, subst (λ o. IsAnswer q (of o)) f (ground arith, p))
    | inr p ↦ absurd (ground arith)
  ]
]
  where
    of : Option StoredTicket → StoredTicket
    of none = s
    of (some x) = x

chosen_of_IsAnswer :
    (q : TicketQuery) (stored : StoredTicket)
    → IsAnswer q stored
    → chosen q (visible q.include_deleted (some stored)) ≡ some stored
unfolding chosen visible
chosen_of_IsAnswer q stored a = ground arith

module _ (b : Backend) (d : b.sled.Db) (q : TicketQuery) where
  select_sound :
      (ids : List ℕ) (id : ℕ) (stored : StoredTicket)
      → In (id, stored) (select b d q ids)
      → (row b d id ≡ some stored) × IsAnswer q stored
  unfolding select
  select_sound [] id stored m = elim m [ ]
  select_sound (i ∷ ids) id stored m =
      elim (Option-cases (chosen q (visible q.include_deleted (row b d i)))) [
        | inl e ↦ select_sound ids id stored (rw e at m)
        | inr (s, e) ↦ at_head s e (select_sound ids id stored) (rw e at m)
      ]
    where
      at_head :
          (s : StoredTicket)
          → chosen q (visible q.include_deleted (row b d i)) ≡ some s
          → (In (id, stored) (select b d q ids) → (row b d id ≡ some stored) × IsAnswer q stored)
          → In (id, stored) ((i, s) ∷ select b d q ids)
          → (row b d id ≡ some stored) × IsAnswer q stored
      at_head s e rest (inr m) = rest m
      at_head s e rest (inl p) = chosen-IsAnswer q (row b d id) stored (
          subst (λ j. chosen q (visible q.include_deleted (row b d j)) ≡ some stored)
            (ap (λ r. r.0) p) (e ∙ ap (λ r. some r.1) p))

  select_complete :
      (ids : List ℕ) (id : ℕ) (stored : StoredTicket)
      → In id ids
      → row b d id ≡ some stored
      → IsAnswer q stored
      → In (id, stored) (select b d q ids)
  unfolding select
  select_complete [] id stored m e a = elim m [ ]
  select_complete (i ∷ ids) id stored (inl p) e a =
      let r : row b d i ≡ some stored = ap (row b d) p ∙ e in
      let ch : chosen q (visible q.include_deleted (row b d i)) ≡ some stored =
        ap (λ o. chosen q (visible q.include_deleted o)) r ∙ chosen_of_IsAnswer q stored a in
      rw ch (inl (ap (λ j. (j, stored)) p))
  select_complete (i ∷ ids) id stored (inr m) e a =
      let rest = select_complete ids id stored m e a in
      elim (Option-cases (chosen q (visible q.include_deleted (row b d i)))) [
        | inl n ↦ rw n rest
        | inr (s, n) ↦ rw n (inr rest)
      ]

  In-limited : (x : Row) (xs : List Row) → In x (limited q.limit 0 xs) → In x xs
  In-limited x xs m = elim (Bool-cases (q.limit == 0)) [
    | inl e ↦ rw e at m
    | inr e ↦ In-take (q.limit - 0) x xs (rw e at m)
  ]

  -- In a consistent state a query never fails. It answers only rows as they are stored that are not
  -- soft-deleted, or that it asks for in spite of that, and that pass every filter that is set. It
  -- answers at most `limit` rows, and with limit 0 it answers every such row.
  pub query_tickets_answers :
      IsConsistent b d
      → (rs : List (ℕ × StoredTicket)) × (query_tickets b d q ≡ ok rs)
        × ((id : ℕ) (stored : StoredTicket)
            → In (id, stored) rs
            → (row b d id ≡ some stored) × IsAnswer q stored)
        × ((q.limit ≡ 0) ⊎ (length rs ≤ q.limit))
        × ((id : ℕ) (stored : StoredTicket)
            → q.limit ≡ 0
            → id < 2 ^ 64
            → row b d id ≡ some stored
            → IsAnswer q stored
            → In (id, stored) rs)
  unfolding query_tickets
  query_tickets_answers c =
      let rs = select b d q (candidates b d q) in
      (
        limited q.limit 0 rs,
        query_loop-select b d q (candidates b d q) 0 c (ground arith),
        λ id stored m. select_sound (candidates b d q) id stored (In-limited (id, stored) rs m),
        elim (Bool-cases (q.limit == 0)) [
          | inl z ↦ inl ((==_iff q.limit 0).0 z)
          | inr z ↦ inr (rw z (omega (arith, length-take-le (q.limit - 0) rs)))
        ],
        λ id stored z h e a.
            let z' : (q.limit == 0) ≡ true = (==_iff q.limit 0).1 z in
            simp z' (
              select_complete (candidates b d q) id stored
                (In-candidates b d c q id stored h e a.1 a.0) e a),
      )
