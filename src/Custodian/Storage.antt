-- ===== src/Custodian/Storage.antt =====
-- The calls on keys and values of custodian/src/storage.rs, and the listing of all locks.
use infovulcan.Common.{
  ℕ, zero, suc, ◌+◌, ◌≡◌, refl, Bool, true, false, not, ◌||◌, Option, none, some, List, [], ◌∷◌,
  arith, leb, if◌then◌else◌, take, filter, Bytes, ascii, beq, corrupt, Result, ok, err,
}
use infovulcan.Common.Text.{is_empty}
use infovulcan.Common.Word.{from_be_bytes}
use infovulcan.Custodian.Types.{Backend, tree_locks}
use infovulcan.Custodian.Locks.{Lock}

abbrev pub tree_raft_metadata : Bytes
tree_raft_metadata = ascii "raft_metadata"

abbrev pub tree_raft_state : Bytes
tree_raft_state = ascii "raft_state"

abbrev pub tree_raft_log : Bytes
tree_raft_log = ascii "raft_log"

-- The trees that a snapshot leaves out.
abbrev pub is_skipped : Bytes → Bool
is_skipped name =
    beq tree_raft_metadata name
    || beq tree_raft_state name
    || beq tree_raft_log name
    || beq (ascii "__sled__default") name

abbrev reaches : ℕ → Option ℕ → Bool
reaches n none = false
reaches n (some limit) = leb limit n

-- The loop of `list`: the limit is looked at after a row has been taken.
unfoldable pub take_rows : Option ℕ → (taken : ℕ) → List (Bytes × Bytes) → List (Bytes × Bytes)
take_rows limit taken [] = []
take_rows limit taken (row ∷ rows) =
    let rest = take_rows limit (taken + 1) rows in
    if reaches (taken + 1) limit then row ∷ [] else row ∷ rest

-- A limit is honoured, except that 0 lets one row through.
pub take_rows-take :
    (k taken limit : ℕ) (rows : List (Bytes × Bytes))
    → limit ≡ taken + suc k
    → take_rows (some limit) taken rows ≡ take (suc k) rows
unfolding take_rows
take_rows-take zero taken limit [] h = refl
take_rows-take (suc k) taken limit [] h = refl
take_rows-take zero taken limit (row ∷ []) h = ground (arith, h)
take_rows-take zero taken limit (row ∷ (next ∷ rows)) h = ground (arith, h)
take_rows-take (suc k) taken limit (row ∷ rows) h =
    ground (arith, h, take_rows-take k (taken + 1) limit rows (omega arith))

module _ (b : Backend) where
  unfoldable pub data_tree_names : b.sled.Db → List Bytes
  data_tree_names d = filter (λ name. not (is_skipped name)) (b.sled.tree_names d)

  abbrev pub put : b.sled.Db → Bytes → Bytes → Bytes → b.sled.Db
  put d tree key value = b.sled.insert d tree key value

  abbrev pub get : b.sled.Db → Bytes → Bytes → Option Bytes
  get d tree key = b.sled.get d tree key

  abbrev pub delete : b.sled.Db → Bytes → Bytes → b.sled.Db
  delete d tree key = b.sled.remove d tree key

  unfoldable pub list : b.sled.Db → Bytes → Bytes → Option ℕ → List (Bytes × Bytes)
  list d tree prefix limit =
      take_rows limit 0
        (if is_empty prefix then b.sled.iter d tree else b.sled.scan_prefix d tree prefix)

  abbrev pub exists : b.sled.Db → Bytes → Bytes → Bool
  exists d tree key = elim (b.sled.get d tree key) [ none ↦ false | some v ↦ true ]

  -- The loop of `get_all_locks`; the map has one entry for each key of the tree.
  unfoldable pub read_locks : List (Bytes × Bytes) → Result (List (ℕ × Lock b))
  read_locks [] = ok []
  read_locks ((key, value) ∷ rows) = elim (from_be_bytes key) [
    | none ↦ err corrupt
    | some ticket_id ↦ elim (b.locks.from_slice value) [
      | none ↦ err corrupt
      | some lock_info ↦ elim (read_locks rows) [
        | err e ↦ err e
        | ok locks ↦ ok ((ticket_id, lock_info) ∷ locks)
      ]
    ]
  ]

  unfoldable pub get_all_locks : b.sled.Db → Result (List (ℕ × Lock b))
  get_all_locks d = read_locks (b.sled.iter d tree_locks)
