-- ===== src/Db/Snapshot/Rows.antt =====
-- Membership in the rows that `build_snapshot` of db/src/raft.rs collects.
use infovulcan.Common.{◌≡◌, ap, ◌⊎◌, inl, inr, List, [], ◌∷◌, ◌++◌, In, Bytes}
use infovulcan.Db.Snapshot.{with_collection}

pub In-append : {A : Type 0} (a : A) (xs ys : List A) → In a (xs ++ ys) → In a xs ⊎ In a ys
In-append a [] ys m = inr m
In-append a (x ∷ xs) ys (inl e) = inl (inl e)
In-append a (x ∷ xs) ys (inr m) = elim (In-append a xs ys m) [ inl l ↦ inl (inr l) | inr r ↦ inr r ]

pub In-append_left : {A : Type 0} (a : A) (xs ys : List A) → In a xs → In a (xs ++ ys)
In-append_left a [] ys m = absurd m
In-append_left a (x ∷ xs) ys (inl e) = inl e
In-append_left a (x ∷ xs) ys (inr m) = inr (In-append_left a xs ys m)

pub In-append_right : {A : Type 0} (a : A) (xs ys : List A) → In a ys → In a (xs ++ ys)
In-append_right a [] ys m = m
In-append_right a (x ∷ xs) ys m = inr (In-append_right a xs ys m)

pub In-with_collection_of :
    (c k v : Bytes) (pairs : List (Bytes × Bytes))
    → In (k, v) pairs
    → In (c, k, v) (with_collection c pairs)
In-with_collection_of c k v [] m = absurd m
In-with_collection_of c k v ((j, w) ∷ pairs) (inl e) = inl (ap (λ r. (c, r.0, r.1)) e)
In-with_collection_of c k v ((j, w) ∷ pairs) (inr m) = inr (In-with_collection_of c k v pairs m)

pub In-with_collection :
    (c t k v : Bytes) (pairs : List (Bytes × Bytes))
    → In (t, k, v) (with_collection c pairs)
    → (c ≡ t) × In (k, v) pairs
In-with_collection c t k v [] m = absurd m
In-with_collection c t k v ((j, w) ∷ pairs) (inl e) =
    (ap (λ r. r.0) e, inl (ap (λ r. (r.1, r.2)) e))
In-with_collection c t k v ((j, w) ∷ pairs) (inr m) =
    let rest = In-with_collection c t k v pairs m in (rest.0, inr rest.1)
