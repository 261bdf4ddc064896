-- ===== src/Custodian/Locks/Table.antt =====
-- The lock trees of custodian/src/storage.rs as a table from tickets to locks.
use infovulcan.Common.{
  ℕ, ◌^◌, ◌<◌, ◌≡◌, refl, inl, inr, Option, none, some, arith, ◌==◌, if◌then◌else◌, Bool-cases,
  Option-cases, Bytes, beq, beq_refl, ok,
}
use infovulcan.Common.Int.{ℤ}
use infovulcan.Common.Word.{to_be_bytes, beq-to_be_bytes}
use infovulcan.Custodian.Types.{Backend, tree_locks}
use infovulcan.Custodian.Locks.{Lock, new_lock, acquire_lock_at, release, get_lock_info}

module _ (b : Backend) where
  -- The lock of a ticket, none where there is no row or it does not parse.
  unfoldable pub lock : b.sled.Db → ℕ → Option (Lock b)
  lock d ticket_id = elim (b.sled.get d tree_locks (to_be_bytes ticket_id)) [
    | none ↦ none
    | some value ↦ b.locks.from_slice value
  ]

  -- Every row of the tree parses.
  pub IsReadable : b.sled.Db → Type 0
  IsReadable d =
      (k v : Bytes) → b.sled.get d tree_locks k ≡ some v → (l : Lock b) × (v ≡ b.locks.to_vec l)

  pub get_lock_info-lock :
      (d : b.sled.Db) (t : ℕ) → IsReadable d → get_lock_info b d t ≡ ok (lock d t)
  unfolding get_lock_info lock IsReadable
  get_lock_info-lock d t r = elim (Option-cases (b.sled.get d tree_locks (to_be_bytes t))) [
    | inl e ↦ rw (e, get_lock_info, lock) refl
    | inr (v, e) ↦
        let (l, p) = r (to_be_bytes t) v e in ground (arith, e, p, b.locks.from_slice-to_vec l)
  ]

  module _ (d : b.sled.Db) (t u : ℕ) (at_unix ttl_secs : ℤ) where
    pub acquire_lock_at-IsReadable :
        IsReadable d → IsReadable (acquire_lock_at b d t u at_unix ttl_secs)
    unfolding acquire_lock_at IsReadable
    acquire_lock_at-IsReadable r k v g = elim (Bool-cases (beq (to_be_bytes t) k)) [
      | inl q ↦ (
        new_lock b t u at_unix ttl_secs,
        ground (
          arith,
          b.sled.get-insert d tree_locks (to_be_bytes t)
              (b.locks.to_vec (new_lock b t u at_unix ttl_secs)) tree_locks k,
          beq_refl tree_locks,
        ),
      )
      | inr q ↦ r k v (
          ground (
            arith,
            b.sled.get-insert d tree_locks (to_be_bytes t)
                (b.locks.to_vec (new_lock b t u at_unix ttl_secs)) tree_locks k,
          ))
    ]

    pub lock-acquire_lock_at :
        (i : ℕ)
        → t < 2 ^ 64
        → i < 2 ^ 64
        → lock (acquire_lock_at b d t u at_unix ttl_secs) i
          ≡ (if t == i then some (new_lock b t u at_unix ttl_secs) else lock d i)
    unfolding acquire_lock_at lock
    lock-acquire_lock_at i ht hi = ground (
      arith,
      b.sled.get-insert d tree_locks (to_be_bytes t)
          (b.locks.to_vec (new_lock b t u at_unix ttl_secs)) tree_locks (to_be_bytes i),
      beq_refl tree_locks,
      beq-to_be_bytes t i ht hi,
      b.locks.from_slice-to_vec (new_lock b t u at_unix ttl_secs),
    )

  pub release-IsReadable : (d : b.sled.Db) (t : ℕ) → IsReadable d → IsReadable (release b d t)
  unfolding release IsReadable
  release-IsReadable d t r k v g =
      r k v (ground (arith, b.sled.get-remove d tree_locks (to_be_bytes t) tree_locks k))

  pub lock-release :
      (d : b.sled.Db) (t i : ℕ)
      → t < 2 ^ 64
      → i < 2 ^ 64
      → lock (release b d t) i ≡ (if t == i then none else lock d i)
  unfolding release lock
  lock-release d t i ht hi = ground (
    arith,
    b.sled.get-remove d tree_locks (to_be_bytes t) tree_locks (to_be_bytes i),
    beq_refl tree_locks,
    beq-to_be_bytes t i ht hi,
  )

  -- A database with nothing in it has readable locks, and no ticket is locked.
  pub empty-IsReadable : IsReadable b.sled.empty
  unfolding IsReadable
  empty-IsReadable k v g = ground (arith, b.sled.get-empty tree_locks k)

  pub lock-empty : (t : ℕ) → lock b.sled.empty t ≡ none
  unfolding lock
  lock-empty t = rw (lock, b.sled.get-empty tree_locks (to_be_bytes t)) refl
