-- ===== src/Sled.antt =====
-- The `sled` crate, which the storage layers call. It is not part of the repository: a database is a
-- parameter with the calls that db/src/storage.rs, custodian/src/storage.rs and the two raft.rs make,
-- and the behaviour that sled documents for them. Opening a tree that does not exist makes an empty
-- one, which reads like a tree never opened, so a tree is given by its name. Disk failures, the
-- errors that sled itself returns, are not modelled.
pub mod Rows
pub mod Model
use infovulcan.Common.{
  ◌≡◌, Bool, true, Option, none, some, List, [], ◌∷◌, ◌&&◌, Bytes, beq, ble, blt, starts_with,
  if◌then◌else◌, In, filter, All,
}

-- One entry of a `sled::Batch`.
pub data BatchOp : Type 0 where
  put : Bytes → Bytes → BatchOp
  del : Bytes → BatchOp

-- What a key holds after a batch, from what it held before: the last entry for it counts.
abbrev pub after_batch : List BatchOp → Bytes → Option Bytes → Option Bytes
after_batch [] k old = old
after_batch (put j v ∷ b) k old = after_batch b k (if beq j k then some v else old)
after_batch (del j ∷ b) k old = after_batch b k (if beq j k then none else old)

-- Keys rise strictly.
abbrev pub IsSorted : List (Bytes × Bytes) → Type 0
IsSorted [] = Unit
IsSorted ((k, v) ∷ rows) = All (λ r. blt k r.0 ≡ true) rows × IsSorted rows

pub record Sled : Type 1 where
  pub Db : Type 0
  pub empty : Db
  pub get : Db → Bytes → Bytes → Option Bytes
  pub insert : Db → Bytes → Bytes → Bytes → Db
  pub remove : Db → Bytes → Bytes → Db
  pub apply_batch : Db → Bytes → List BatchOp → Db
  pub update_and_fetch : Db → Bytes → Bytes → (Option Bytes → Option Bytes) → Db × Option Bytes
  pub iter : Db → Bytes → List (Bytes × Bytes)
  pub scan_prefix : Db → Bytes → Bytes → List (Bytes × Bytes)
  pub range_from : Db → Bytes → Bytes → List (Bytes × Bytes)
  pub range_to : Db → Bytes → Bytes → List (Bytes × Bytes)
  pub tree_names : Db → List Bytes
  pub get-empty : (t k : Bytes) → get empty t k ≡ none
  pub get-insert :
      (d : Db) (t k v t' k' : Bytes)
      → get (insert d t k v) t' k' ≡ (if beq t t' && beq k k' then some v else get d t' k')
  pub get-remove :
      (d : Db) (t k t' k' : Bytes)
      → get (remove d t k) t' k' ≡ (if beq t t' && beq k k' then none else get d t' k')
  pub get-apply_batch :
      (d : Db) (t : Bytes) (b : List BatchOp) (t' k' : Bytes)
      → get (apply_batch d t b) t' k'
        ≡ (if beq t t' then after_batch b k' (get d t' k') else get d t' k')
  pub get-update_and_fetch :
      (d : Db) (t k : Bytes) (f : Option Bytes → Option Bytes) (t' k' : Bytes)
      → get (update_and_fetch d t k f).0 t' k'
        ≡ (if beq t t' && beq k k' then f (get d t k) else get d t' k')
  pub fetch-update_and_fetch :
      (d : Db) (t k : Bytes) (f : Option Bytes → Option Bytes)
      → (update_and_fetch d t k f).1 ≡ f (get d t k)
  pub iter_sound : (d : Db) (t k v : Bytes) → In (k, v) (iter d t) → get d t k ≡ some v
  pub iter_complete : (d : Db) (t k v : Bytes) → get d t k ≡ some v → In (k, v) (iter d t)
  pub iter-IsSorted : (d : Db) (t : Bytes) → IsSorted (iter d t)
  pub scan_prefix_lem :
      (d : Db) (t p : Bytes) → scan_prefix d t p ≡ filter (λ r. starts_with p r.0) (iter d t)
  pub range_from_lem :
      (d : Db) (t lo : Bytes) → range_from d t lo ≡ filter (λ r. ble lo r.0) (iter d t)
  pub range_to_lem : (d : Db) (t hi : Bytes) → range_to d t hi ≡ filter (λ r. ble r.0 hi) (iter d t)
  pub tree_names_complete : (d : Db) (t k v : Bytes) → get d t k ≡ some v → In t (tree_names d)
