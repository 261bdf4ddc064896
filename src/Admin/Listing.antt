-- ===== src/Admin/Listing.antt =====
-- `list_users` of admin/src/server.rs: the profiles that decrypt, by username, a page at a time.
pub mod Pages
pub mod Sorted
use infovulcan.Common.{
  ℕ, zero, suc, ◌+◌, ◌-◌, ◌*◌, ◌/◌, ◌%◌, ◌^◌, ◌≤◌, ◌<◌, ◌≡◌, refl, sym, ap, ◌∙◌, subst, ◌≢◌, ◌↔◌,
  ◌⊎◌, inl, inr, Bool, true, false, not, ◌&&◌, ◌||◌, Option, none, some, List, [], ◌∷◌, ◌++◌, map,
  arith, ltb, leb, ◌==◌, if◌then◌else◌, ltb→lt, lt→ltb, leb→le, le→leb, ==_iff, tests, Bool-cases,
  Option-cases, length, length-append, take, drop, replicate, filter, In, In-filter, of_In-filter,
  All, All-In, Bytes, ascii, beq, beq_refl, eq_of_beq, starts_with, starts_with-append, blt, ble,
  blt_irrefl, blt_trans, blt_total, Error, not_found, corrupt, Result, ok, err, or_err,
  Result-cases,
}
use infovulcan.Common.Outcome.{Outcome, done, failed, ◌>>=◌}
use infovulcan.Grpc.{Code}
use infovulcan.Accounts.{users_collection}
use infovulcan.Admin.{Admin, ProtoUser, user_to_proto, decrypt_user}

pub record ListUsersRequest : Type 0 where
  pub page : ℕ
  pub page_size : ℕ

pub record ListUsersResponse : Type 0 where
  pub users : List ProtoUser
  pub total_count : ℕ

abbrev pub u32_max : ℕ
u32_max = 0xFFFFFFFF

-- `sort_by` on the username; the sort is stable.
unfoldable pub insert : ProtoUser → List ProtoUser → List ProtoUser
insert u [] = u ∷ []
insert u (v ∷ vs) =
    let rest = insert u vs in if blt v.username u.username then v ∷ rest else u ∷ v ∷ vs

unfoldable pub sort_by_username : List ProtoUser → List ProtoUser
sort_by_username [] = []
sort_by_username (u ∷ us) = insert u (sort_by_username us)

-- `u32::try_from(n).unwrap_or(u32::MAX)`
abbrev pub u32_or_max : ℕ → ℕ
u32_or_max n = if leb n u32_max then n else u32_max

-- `max(1)`
unfoldable pub page_number : ListUsersRequest → ℕ
page_number req = if req.page == 0 then 1 else req.page

-- 0 stands for 50.
unfoldable pub page_length : ListUsersRequest → ℕ
page_length req = if req.page_size == 0 then 50 else req.page_size

-- `saturating_mul` on u32.
unfoldable pub page_start : ListUsersRequest → ℕ
page_start req = u32_or_max ((page_number req - 1) * page_length req)

module _ {DateTime S : Type 0} (a : Admin DateTime S) where
  -- The loop over the rows: one that does not decrypt is skipped.
  unfoldable pub decodable : List (Bytes × Bytes) → List ProtoUser
  decodable [] = []
  decodable ((key, value) ∷ items) =
      let rest = decodable items in
      elim (decrypt_user a value) [ done user ↦ user_to_proto a user ∷ rest | failed e ↦ rest ]

  unfoldable pub list_users : S → ListUsersRequest → Outcome Code ListUsersResponse
  list_users s req = do
    items ← a.kv.list s users_collection
    let users : List ProtoUser = sort_by_username (decodable items)
    done (record {
      users = take (page_length req) (drop (page_start req) users);
      total_count = u32_or_max (length users);
    })
