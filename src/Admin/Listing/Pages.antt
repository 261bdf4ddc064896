-- ===== src/Admin/Listing/Pages.antt =====
-- Walking through the pages of `list_users` in admin/src/server.rs.
use mathlib.Core.List.{Perm}
use native.Mathlib.Nat.{add-zero, suc-add, suc-mul}
use infovulcan.Common.{
  ℕ, zero, suc, ◌+◌, ◌-◌, ◌*◌, ◌≤◌, ◌<◌, ◌≡◌, refl, sym, ap, ◌∙◌, subst, ◌⊎◌, inl, inr, List, [],
  ◌∷◌, ◌++◌, arith, ◌==◌, if◌then◌else◌, le→leb, length, take, drop, Bytes,
}
use infovulcan.Common.Outcome.{Outcome, Outcome-cases, done, failed, ◌>>=◌}
use infovulcan.Grpc.{Code}
use infovulcan.Accounts.{users_collection}
use infovulcan.Shared.User.{User}
use infovulcan.Admin.{Admin, ProtoUser, decrypt_user, user_to_proto}
use infovulcan.Admin.Listing.Sorted.{IsSorted, sort-IsSorted, sort-perm, length-sort}
use infovulcan.Admin.Listing.{
  ListUsersRequest, sort_by_username, decodable, list_users, page_number, page_length, page_start,
  u32_max,
}

module _ {A : Type 0} where
  take-sum : (m n : ℕ) (xs : List A) → take m xs ++ take n (drop m xs) ≡ take (m + n) xs
  take-sum zero n xs = ap (λ k. take k xs) (omega arith)
  take-sum (suc m) zero [] = rw add-zero refl
  take-sum (suc m) (suc n) [] = rw suc-add refl
  take-sum (suc m) n (x ∷ xs) = rw suc-add (ap (λ l. x ∷ l) (take-sum m n xs))

  take-all : (n : ℕ) (xs : List A) → length xs ≤ n → take n xs ≡ xs
  take-all zero [] h = refl
  take-all zero (x ∷ xs) h = absurd (omega (arith, h))
  take-all (suc n) [] h = refl
  take-all (suc n) (x ∷ xs) h = ap (λ l. x ∷ l) (take-all n xs (omega (arith, h)))

page_length_lem :
    (n size : ℕ) → 0 < size → page_length (record { page = suc n; page_size = size }) ≡ size
unfolding page_length
page_length_lem n size pos = ground (arith, pos)

page_start_lem :
    (n size : ℕ)
    → 0 < size
    → n * size ≤ u32_max
    → page_start (record { page = suc n; page_size = size }) ≡ n * size
unfolding page_start page_number
page_start_lem n size pos h =
    let page : (if suc n == 0 then 1 else suc n) - 1 ≡ n = ground arith in
    rw (page, page_length_lem n size pos, le→leb (n * size) u32_max h) refl

module _ {DateTime S : Type 0} (a : Admin DateTime S) where
  -- The profiles of the rows that decrypt, one for each, in the order of the rows.
  abbrev pub Decrypts : List (Bytes × Bytes) → List ProtoUser → Type 0
  Decrypts [] profiles = profiles ≡ []
  Decrypts (row ∷ rows) profiles =
      ((user : User DateTime) × (rest : List ProtoUser) × (decrypt_user a row.1 ≡ done user)
        × (profiles ≡ user_to_proto a user ∷ rest)
        × Decrypts rows rest)
      ⊎ ((e : Code) × (decrypt_user a row.1 ≡ failed e) × Decrypts rows profiles)

  decodable-done :
      (key value : Bytes) (items : List (Bytes × Bytes)) (user : User DateTime)
      → decrypt_user a value ≡ done user
      → decodable a ((key, value) ∷ items) ≡ user_to_proto a user ∷ decodable a items
  unfolding decodable
  decodable-done key value items user p = rw (decodable, p) refl

  decodable-failed :
      (key value : Bytes) (items : List (Bytes × Bytes)) (e : Code)
      → decrypt_user a value ≡ failed e
      → decodable a ((key, value) ∷ items) ≡ decodable a items
  unfolding decodable
  decodable-failed key value items e p = rw (decodable, p) refl

  Decrypts-decodable : (items : List (Bytes × Bytes)) → Decrypts items (decodable a items)
  unfolding decodable
  Decrypts-decodable [] = refl
  Decrypts-decodable ((key, value) ∷ items) = elim (Outcome-cases (decrypt_user a value)) [
    | inl (user, p) ↦ inl (
      user,
      decodable a items,
      p,
      decodable-done key value items user p,
      Decrypts-decodable items,
    )
    | inr (e, p) ↦ inr (
      e,
      p,
      subst (Decrypts items) (sym (decodable-failed key value items e p))
          (Decrypts-decodable items),
    )
  ]

module _ {DateTime S : Type 0} (a : Admin DateTime S) (s : S) (size : ℕ) where
  -- A client that asks for the first pages in turn, and keeps the users.
  unfoldable pub walk : (pages : ℕ) → Outcome Code (List ProtoUser)
  walk zero = done []
  walk (suc n) = do
    before ← walk n
    answer ← list_users a s (record { page = suc n; page_size = size })
    done (before ++ answer.users)

  module _ (items : List (Bytes × Bytes)) (listed : a.kv.list s users_collection ≡ done items) where
    abbrev sorted : List ProtoUser
    sorted = sort_by_username (decodable a items)

    walk-take : (n : ℕ) → 0 < size → n * size ≤ u32_max → walk n ≡ done (take (n * size) sorted)
    unfolding walk list_users
    walk-take zero pos h = let e : 0 ≡ zero * size = omega arith in ap (λ k. done (take k sorted)) e
    walk-take (suc n) pos h =
        let fits : n * size + size ≤ u32_max = rw (suc-mul n size) at h in
        let before = walk-take n pos (omega (arith, fits)) in
        let req : ListUsersRequest = record { page = suc n; page_size = size } in
        let start = page_start_lem n size pos (omega (arith, fits)) in
        let long = page_length_lem n size pos in
        rw (before, listed, start, long, suc-mul n size) (ap done (take-sum (n * size) size sorted))

    -- A client that asks for pages of one size, in turn, until the number of pages times their size
    -- (at most the largest u32) reaches the number of profiles that decrypt, has been shown each of
    -- these once, in order of username, whatever the rows that do not decrypt: there is one profile
    -- for each row that decrypts, and none for another row.
    pub walk_lem :
        (pages : ℕ)
        → 0 < size
        → pages * size ≤ u32_max
        → length (decodable a items) ≤ pages * size
        → (users : List ProtoUser) × (walk pages ≡ done users)
          × IsSorted users
          × Perm users (decodable a items)
          × Decrypts a items (decodable a items)
    walk_lem pages pos h k = (
      sorted,
      walk-take pages pos h
          ∙ ap done (
              take-all (pages * size) sorted
                (subst (λ l. l ≤ pages * size) (sym (length-sort (decodable a items))) k)),
      sort-IsSorted (decodable a items),
      sort-perm (decodable a items),
      Decrypts-decodable a items,
    )
