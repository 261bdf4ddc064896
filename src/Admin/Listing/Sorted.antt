-- ===== src/Admin/Listing/Sorted.antt =====
-- The order of `list_users` in admin/src/server.rs.
use mathlib.Core.List.{Perm}
use mathlib.Core.List.Perm
use infovulcan.Common.{
  suc, ◌≡◌, refl, inl, inr, false, List, [], ◌∷◌, arith, Bool-cases, length, All, blt,
}
use infovulcan.Common.{blt_asymm, ble_trans}
use infovulcan.Admin.{ProtoUser}
use infovulcan.Admin.Listing.{insert, sort_by_username}

-- No username stands after a greater one.
abbrev pub IsSorted : List ProtoUser → Type 0
IsSorted [] = Unit
IsSorted (u ∷ us) = All (λ v. blt v.username u.username ≡ false) us × IsSorted us

insert-perm : (u : ProtoUser) (us : List ProtoUser) → Perm (insert u us) (u ∷ us)
unfolding insert
insert-perm u [] = Perm.refl (u ∷ [])
insert-perm u (v ∷ vs) = elim (Bool-cases (blt v.username u.username)) [
  | inl e ↦ rw e (Perm.trans (Perm.cons v (insert-perm u vs)) (Perm.swap u v vs))
  | inr e ↦ rw e (Perm.refl (u ∷ v ∷ vs))
]

pub sort-perm : (us : List ProtoUser) → Perm (sort_by_username us) us
unfolding sort_by_username
sort-perm [] = Perm.refl []
sort-perm (u ∷ us) = Perm.trans (insert-perm u (sort_by_username us)) (Perm.cons u (sort-perm us))

insert-All :
    (P : ProtoUser → Type 0) (u : ProtoUser) (us : List ProtoUser)
    → P u
    → All P us
    → All P (insert u us)
unfolding insert
insert-All P u [] p h = (p, tt)
insert-All P u (v ∷ vs) p h = elim (Bool-cases (blt v.username u.username)) [
  | inl e ↦ rw e (h.0, insert-All P u vs p h.1)
  | inr e ↦ rw e (p, h)
]

All-le :
    (u v : ProtoUser) (us : List ProtoUser)
    → blt v.username u.username ≡ false
    → All (λ w. blt w.username v.username ≡ false) us
    → All (λ w. blt w.username u.username ≡ false) us
All-le u v [] e h = tt
All-le u v (w ∷ ws) e h = (ble_trans u.username v.username w.username e h.0, All-le u v ws e h.1)

insert-IsSorted : (u : ProtoUser) (us : List ProtoUser) → IsSorted us → IsSorted (insert u us)
unfolding insert
insert-IsSorted u [] h = (tt, tt)
insert-IsSorted u (v ∷ vs) h = elim (Bool-cases (blt v.username u.username)) [
  | inl e ↦ rw e (
    insert-All (λ w. blt w.username v.username ≡ false) u vs (blt_asymm v.username u.username e)
        h.0,
    insert-IsSorted u vs h.1,
  )
  | inr e ↦ rw e ((e, All-le u v vs e h.0), h)
]

pub sort-IsSorted : (us : List ProtoUser) → IsSorted (sort_by_username us)
unfolding sort_by_username
sort-IsSorted [] = tt
sort-IsSorted (u ∷ us) = insert-IsSorted u (sort_by_username us) (sort-IsSorted us)

length-insert : (u : ProtoUser) (us : List ProtoUser) → length (insert u us) ≡ suc (length us)
unfolding insert
length-insert u [] = refl
length-insert u (v ∷ vs) = ground (arith, length-insert u vs)

pub length-sort : (us : List ProtoUser) → length (sort_by_username us) ≡ length us
unfolding sort_by_username
length-sort [] = refl
length-sort (u ∷ us) = omega (arith, length-insert u (sort_by_username us), length-sort us)
