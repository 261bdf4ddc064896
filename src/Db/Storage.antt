-- ===== src/Db/Storage.antt =====
-- The key-value calls of `Storage` in db/src/storage.rs. A collection is a sled tree.
use infovulcan.Common.{
  ℕ, Bool, not, ◌||◌, Option, none, some, List, [], ◌∷◌, Bytes, ascii, beq, filter, take, length,
  if◌then◌else◌,
}
use infovulcan.Sled.{BatchOp}
use infovulcan.Db.Types.{Backend, tree_raft_metadata, tree_raft_state, tree_raft_log}

-- The trees that a snapshot leaves out.
abbrev pub is_skipped : Bytes → Bool
is_skipped name =
    beq tree_raft_metadata name
    || beq tree_raft_state name
    || beq tree_raft_log name
    || beq (ascii "__sled__default") name

abbrev pub puts : List (Bytes × Bytes) → List BatchOp
puts [] = []
puts ((k, v) ∷ pairs) = BatchOp.put k v ∷ puts pairs

abbrev pub is_empty : Bytes → Bool
is_empty [] = Bool.true
is_empty (x ∷ xs) = Bool.false

module _ (b : Backend) where
  unfoldable pub data_tree_names : b.sled.Db → List Bytes
  data_tree_names d = filter (λ name. not (is_skipped name)) (b.sled.tree_names d)

  abbrev pub put : b.sled.Db → Bytes → Bytes → Bytes → b.sled.Db
  put d collection key value = b.sled.insert d collection key value

  abbrev pub get : b.sled.Db → Bytes → Bytes → Option Bytes
  get d collection key = b.sled.get d collection key

  abbrev pub delete : b.sled.Db → Bytes → Bytes → b.sled.Db
  delete d collection key = b.sled.remove d collection key

  unfoldable pub list : b.sled.Db → Bytes → Bytes → Option ℕ → List (Bytes × Bytes)
  list d collection prefix limit =
      let rows =
        if is_empty prefix
        then b.sled.iter d collection
        else b.sled.scan_prefix d collection prefix in
      elim limit [ none ↦ rows | some n ↦ take n rows ]

  abbrev pub batch_put : b.sled.Db → Bytes → List (Bytes × Bytes) → b.sled.Db × ℕ
  batch_put d collection pairs = (b.sled.apply_batch d collection (puts pairs), length pairs)
