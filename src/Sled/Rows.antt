-- ===== src/Sled/Rows.antt =====
-- Rows of one tree as a list in the order of the keys, for an instance of the interface.
use infovulcan.Common.{
  ◌≡◌, refl, true, Option, none, some, List, [], ◌∷◌, arith, inl, inr, Bytes, beq, beq_refl,
  eq_of_beq, blt, blt_irrefl, blt_trans, blt_total, if◌then◌else◌, Bool-cases, In, All, All-In, ap,
}
use infovulcan.Sled.{IsSorted}

abbrev pub Rows : Type 0
Rows = List (Bytes × Bytes)

unfoldable pub find : Bytes → Rows → Option Bytes
find k [] = none
find k ((j, w) ∷ r) = if beq j k then some w else find k r

unfoldable pub ins : Bytes → Bytes → Rows → Rows
ins k v [] = (k, v) ∷ []
ins k v ((j, w) ∷ r) =
    if blt k j then (k, v) ∷ (j, w) ∷ r else if beq k j then (k, v) ∷ r else (j, w) ∷ ins k v r

unfoldable pub del : Bytes → Rows → Rows
del k [] = []
del k ((j, w) ∷ r) = if beq j k then del k r else (j, w) ∷ del k r

unfoldable pub sort : Rows → Rows
sort [] = []
sort ((k, v) ∷ r) = ins k v (sort r)

pub find-ins :
    (k v k' : Bytes) (r : Rows) → find k' (ins k v r) ≡ (if beq k k' then some v else find k' r)
unfolding find ins
find-ins k v k' [] = refl
find-ins k v k' ((j, w) ∷ r) =
    ground (arith, find-ins k v k' r, eq_of_beq k j, eq_of_beq j k', eq_of_beq k k', beq_refl k)

pub find-del :
    (k k' : Bytes) (r : Rows) → find k' (del k r) ≡ (if beq k k' then none else find k' r)
unfolding find del
find-del k k' [] = ground arith
find-del k k' ((j, w) ∷ r) =
    ground (arith, find-del k k' r, eq_of_beq j k, eq_of_beq k k', beq_refl k)

pub find-sort : (k : Bytes) (r : Rows) → find k (sort r) ≡ find k r
unfolding sort find
find-sort k [] = refl
find-sort k ((j, w) ∷ r) = ground (arith, find-ins j w k (sort r), find-sort k r)

All-ins :
    (b k v : Bytes) (r : Rows)
    → blt b k ≡ true
    → All (λ p. blt b p.0 ≡ true) r
    → All (λ p. blt b p.0 ≡ true) (ins k v r)
unfolding ins
All-ins b k v [] h a = (h, tt)
All-ins b k v ((j, w) ∷ r) h a = ground (arith, All-ins b k v r h a.1)

All-trans :
    (k j : Bytes) (r : Rows)
    → blt k j ≡ true
    → All (λ p. blt j p.0 ≡ true) r
    → All (λ p. blt k p.0 ≡ true) r
All-trans k j [] h a = tt
All-trans k j ((i, w) ∷ r) h a = (blt_trans k j i h a.0, All-trans k j r h a.1)

ins-IsSorted : (k v : Bytes) (r : Rows) → IsSorted r → IsSorted (ins k v r)
unfolding ins
ins-IsSorted k v [] s = (tt, tt)
ins-IsSorted k v ((j, w) ∷ r) s =
    ground (
      arith,
      All-trans k j r,
      eq_of_beq k j,
      blt_total k j,
      All-ins j k v r,
      ins-IsSorted k v r s.1,
    )

pub sort-IsSorted : (r : Rows) → IsSorted (sort r)
unfolding sort
sort-IsSorted [] = tt
sort-IsSorted ((k, v) ∷ r) = ins-IsSorted k v (sort r) (sort-IsSorted r)

-- In rising rows an entry is what its key finds.
pub find_of_In : (k v : Bytes) (r : Rows) → IsSorted r → In (k, v) r → find k r ≡ some v
unfolding find
find_of_In k v [] s m = elim m [ ]
find_of_In k v ((j, w) ∷ r) s (inl e) =
    let p : j ≡ k = ap (λ x. x.0) e in let q : w ≡ v = ap (λ x. x.1) e in ground (arith, beq_refl k)
find_of_In k v ((j, w) ∷ r) s (inr m) =
    let above : blt j k ≡ true = All-In (λ p. blt j p.0 ≡ true) (k, v) r s.0 m in
    ground (arith, find_of_In k v r s.1 m, eq_of_beq j k, blt_irrefl k)

pub In-of_find : (k v : Bytes) (r : Rows) → find k r ≡ some v → In (k, v) r
unfolding find
In-of_find k v [] h = cc
In-of_find k v ((j, w) ∷ r) h = elim (Bool-cases (beq j k)) [
  | inl t ↦ inl (ground (arith, eq_of_beq j k t))
  | inr f ↦ inr (In-of_find k v r (rw f at h))
]
