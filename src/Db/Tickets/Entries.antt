-- ===== src/Db/Tickets/Entries.antt =====
-- What the loop over index entries of db/src/storage.rs leaves in each tree, and who owns a key.
use mathlib.Core.List.{append_assoc}
use infovulcan.Common.{
  ap, ◌∙◌, ℕ, ◌-◌, ◌<◌, ◌^◌, ◌≡◌, refl, Bool, true, false, ◌&&◌, ◌||◌, Option, none, some, List, [],
  ◌∷◌, ◌++◌, Bytes, beq, eq_of_beq, if◌then◌else◌, arith, length, length-append, drop, ltb, lt→ltb,
}
use infovulcan.Common.Word.{to_be_bytes, from_be_bytes, from-to_be_bytes}
use infovulcan.Db.Types.{
  Backend, TicketIndexFields, idx_ticket_status, idx_ticket_assignee, idx_ticket_project,
  idx_ticket_account, idx_ticket_created, idx_ticket_updated, idx_ticket_tracking,
}
use infovulcan.Db.Tickets.{index_key, write_entries, ticket_index_entries}

-- The seven trees of secondary indexes on tickets.
abbrev pub is_ticket_index : Bytes → Bool
is_ticket_index t =
    beq idx_ticket_status t
    || beq idx_ticket_account t
    || beq idx_ticket_project t
    || beq idx_ticket_created t
    || beq idx_ticket_updated t
    || beq idx_ticket_assignee t
    || beq idx_ticket_tracking t

-- Whether one of the entries is written under a key of a tree.
unfoldable pub has_entry : List (Bytes × Bytes) → Bytes → Bytes → Bytes → Bool
has_entry [] entity t k = false
has_entry ((tree, value) ∷ rest) entity t k =
    (beq tree t && beq (index_key value entity) k) || has_entry rest entity t k

module _ (b : Backend) where
  pub get-write_entries-true :
      (d : b.sled.Db) (entity : Bytes) (es : List (Bytes × Bytes)) (t k : Bytes)
      → b.sled.get (write_entries b d entity es true) t k
        ≡ (if has_entry es entity t k then some entity else b.sled.get d t k)
  unfolding write_entries has_entry
  get-write_entries-true d entity [] t k = refl
  get-write_entries-true d entity ((tree, value) ∷ rest) t k =
      let key : Bytes = index_key value entity in
      ground (
        arith,
        get-write_entries-true (b.sled.insert d tree key entity) entity rest t k,
        b.sled.get-insert d tree key entity t k,
      )

  pub get-write_entries-false :
      (d : b.sled.Db) (entity : Bytes) (es : List (Bytes × Bytes)) (t k : Bytes)
      → b.sled.get (write_entries b d entity es false) t k
        ≡ (if has_entry es entity t k then none else b.sled.get d t k)
  unfolding write_entries has_entry
  get-write_entries-false d entity [] t k = refl
  get-write_entries-false d entity ((tree, value) ∷ rest) t k =
      let key : Bytes = index_key value entity in
      ground (
        arith,
        get-write_entries-false (b.sled.remove d tree key) entity rest t k,
        b.sled.get-remove d tree key t k,
      )

abbrev pub as_u64 : Option ℕ → Option ℕ
as_u64 none = none
as_u64 (some id) = if ltb id (2 ^ 64) then some id else none

-- The id in the last eight bytes of an index key.
unfoldable pub owner : Bytes → Option ℕ
owner k = as_u64 (from_be_bytes (drop (length k - 8) k))

pub owner_bound : (k : Bytes) (id : ℕ) → owner k ≡ some id → id < 2 ^ 64
unfolding owner
owner_bound k id h = ground arith

drop-append : (xs ys : Bytes) → drop (length xs) (xs ++ ys) ≡ ys
drop-append [] ys = refl
drop-append (x ∷ xs) ys = drop-append xs ys

pub length-to_be_bytes : (n : ℕ) → length (to_be_bytes n) ≡ 8
unfolding to_be_bytes
length-to_be_bytes n = refl

drop_suffix : (xs ys : Bytes) (n : ℕ) → length ys ≡ n → drop (length (xs ++ ys) - n) (xs ++ ys) ≡ ys
drop_suffix xs ys n h =
    let e : length (xs ++ ys) - n ≡ length xs = omega (arith, length-append xs ys) in
    rw e (drop-append xs ys)

drop_to_entity :
    (value : Bytes) (id : ℕ)
    → drop (length (index_key value (to_be_bytes id)) - 8) (index_key value (to_be_bytes id))
      ≡ to_be_bytes id
unfolding index_key
drop_to_entity value id =
    rw (← append_assoc value (0 ∷ []) (to_be_bytes id))
      (drop_suffix (value ++ 0 ∷ []) (to_be_bytes id) 8 (length-to_be_bytes id))

pub owner-index_key :
    (value : Bytes) (id : ℕ) → id < 2 ^ 64 → owner (index_key value (to_be_bytes id)) ≡ some id
unfolding owner
owner-index_key value id h =
    ap (λ e. as_u64 (from_be_bytes e)) (drop_to_entity value id)
    ∙ ap as_u64 (from-to_be_bytes id h)
    ∙ ap (λ t. if t then some id else none) (lt→ltb id (2 ^ 64) h)

-- A key written for an id names that id.
pub owner_of_has_entry :
    (es : List (Bytes × Bytes)) (id : ℕ) (t k : Bytes)
    → id < 2 ^ 64
    → has_entry es (to_be_bytes id) t k ≡ true
    → owner k ≡ some id
unfolding has_entry
owner_of_has_entry [] id t k h e = cc
owner_of_has_entry ((tree, value) ∷ rest) id t k h e = ground (
  arith,
  owner_of_has_entry rest id t k h,
  eq_of_beq (index_key value (to_be_bytes id)) k,
  owner-index_key value id h,
)

-- Entries of tickets go to the seven index trees only.
pub has_entry_other :
    (index : TicketIndexFields) (entity t k : Bytes)
    → is_ticket_index t ≡ false
    → has_entry (ticket_index_entries index) entity t k ≡ false
unfolding has_entry ticket_index_entries
has_entry_other index entity t k h = ground arith
