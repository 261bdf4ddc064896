-- ===== src/Db/RaftLog/Table.antt =====
-- The Raft log of db/src/raft.rs as a table from indexes to entries.
pub mod Reading
pub mod Durable
pub mod Kept
use infovulcan.Common.{
  ℕ, zero, suc, ◌+◌, ◌-◌, ◌*◌, ◌/◌, ◌%◌, ◌^◌, ◌≤◌, ◌<◌, ◌≡◌, refl, sym, ap, ◌∙◌, subst, ◌≢◌, ◌↔◌,
  ◌⊎◌, inl, inr, Bool, true, false, not, ◌&&◌, ◌||◌, Option, none, some, List, [], ◌∷◌, ◌++◌, map,
  arith, ltb, leb, ◌==◌, if◌then◌else◌, ltb→lt, lt→ltb, leb→le, le→leb, ==_iff, tests, Bool-cases,
  Option-cases, length, length-append, take, drop, replicate, filter, In, In-filter, of_In-filter,
  All, All-In, Bytes, ascii, beq, beq_refl, eq_of_beq, starts_with, starts_with-append, blt, ble,
  blt_irrefl, blt_trans, blt_total, Error, not_found, corrupt, Result, ok, err, or_err,
  Result-cases,
}
use mathlib.Core.Bool.{false≢true}
use infovulcan.Common.Word.{to_be_bytes, beq-to_be_bytes, blt-to_be_bytes}
use infovulcan.Openraft.{LogId, Vote, Entry}
use infovulcan.Sled.{Sled, BatchOp, after_batch}
use infovulcan.Db.Types.{tree_raft_log, tree_raft_metadata}
use infovulcan.Db.RaftLog.{
  LogBackend, Store, removals, insertions, append_to_log, delete_conflict_logs_since,
  purge_logs_upto, persist_last_purged, key_last_purged,
}

unfoldable pub has_key : Bytes → List (Bytes × Bytes) → Bool
has_key k [] = false
has_key k ((j, v) ∷ rows) = beq j k || has_key k rows

after_batch-removals :
    (rows : List (Bytes × Bytes)) (k : Bytes) (old : Option Bytes)
    → after_batch (removals rows) k old ≡ (if has_key k rows then none else old)
unfolding has_key
after_batch-removals [] k old = refl
after_batch-removals ((j, v) ∷ rows) k old =
    ground (arith, after_batch-removals rows k (if beq j k then none else old))

has_key_of_In : (rows : List (Bytes × Bytes)) (k v : Bytes) → In (k, v) rows → has_key k rows ≡ true
unfolding has_key
has_key_of_In [] k v m = absurd m
has_key_of_In ((j, w) ∷ rows) k v (inl e) = ground (arith, beq_refl k, e)
has_key_of_In ((j, w) ∷ rows) k v (inr m) = ground (arith, has_key_of_In rows k v m)

has_key-filter :
    (f : Bytes → Bool) (rows : List (Bytes × Bytes)) (k : Bytes)
    → f k ≡ false
    → has_key k (filter (λ r. f r.0) rows) ≡ false
unfolding has_key
has_key-filter f [] k h = refl
has_key-filter f ((j, v) ∷ rows) k h = elim (Bool-cases (f j)) [
  | inl e ↦ elim (Bool-cases (beq j k)) [
    | inl q ↦ absurd (false≢true (sym h ∙ ap f (sym (eq_of_beq j k q)) ∙ e))
    | inr q ↦ rw (e, q) (has_key-filter f rows k h)
  ]
  | inr e ↦ rw e (has_key-filter f rows k h)
]

-- Removing the rows whose keys pass a test, by a scan and a batch.
pub get-removals :
    (s : Sled) (d : s.Db) (t : Bytes) (f : Bytes → Bool) (k : Bytes)
    → s.get (s.apply_batch d t (removals (filter (λ r. f r.0) (s.iter d t)))) t k
      ≡ (if f k then none else s.get d t k)
get-removals s d t f k =
    let rows : List (Bytes × Bytes) = filter (λ r. f r.0) (s.iter d t) in
    rw
      (
        s.get-apply_batch d t (removals rows) t k,
        beq_refl t,
        after_batch-removals rows k (s.get d t k),
      )
      (elim (Bool-cases (f k)) [
        | inr e ↦ rw (e, has_key-filter f (s.iter d t) k e) refl
        | inl e ↦ elim (Option-cases (s.get d t k)) [
          | inl g ↦ rw (e, g) (ground arith)
          | inr (v, g) ↦
              let m : has_key k rows ≡ true =
                has_key_of_In rows k v
                  (In-filter (λ r. f r.0) (k, v) (s.iter d t) (s.iter_complete d t k v g) e) in
              rw (e, m) refl
        ]
      ])

-- What appending entries leaves at an index: the last of them with that index counts.
abbrev pub written : {D M : Type 0} → ℕ → List (Entry D M) → Option (Entry D M) → Option (Entry D M)
written i [] old = old
written i (e ∷ es) old = written i es (if e.log_id.index == i then some e else old)

module _ {D M : Type 0} (b : LogBackend D M) where
  abbrev pub read : Option Bytes → Option (Entry D M)
  read none = none
  read (some v) = b.entries.from_slice v

  -- The entry at an index, none where there is no row.
  unfoldable pub log_row : Store b → ℕ → Option (Entry D M)
  log_row s i = read (b.sled.get s.storage tree_raft_log (to_be_bytes i))

  read-insertions :
      (es : List (Entry D M)) (i : ℕ) (old : Option Bytes)
      → All (λ e. e.log_id.index < 2 ^ 64) es
      → i < 2 ^ 64
      → read (after_batch (insertions b es) (to_be_bytes i) old) ≡ written i es (read old)
  unfolding insertions
  read-insertions [] i old h k = refl
  read-insertions (e ∷ es) i old h k =
      let key : Bytes = to_be_bytes e.log_id.index in
      rw
        (read-insertions es i (if beq key (to_be_bytes i) then some (b.entries.to_vec e) else old)
          h.1 k)
        (rw (beq-to_be_bytes e.log_id.index i h.0 k) (
          ap (written i es) (elim (Bool-cases (e.log_id.index == i)) [
            | inl q ↦ rw q (b.entries.from_slice-to_vec e)
            | inr q ↦ rw q refl
          ])))

  logs_ne_metadata : beq tree_raft_metadata tree_raft_log ≡ false
  unfolding beq
  logs_ne_metadata = refl

  log_row-append :
      (s : Store b) (i : ℕ) (es : List (Entry D M))
      → i < 2 ^ 64
      → All (λ e. e.log_id.index < 2 ^ 64) es
      → log_row (append_to_log b es s) i ≡ written i es (log_row s i)
  unfolding append_to_log log_row
  log_row-append s i es h k =
      rw
        (
          b.sled.get-apply_batch s.storage tree_raft_log (insertions b es) tree_raft_log
              (to_be_bytes i),
          beq_refl tree_raft_log,
        )
        (read-insertions es i (b.sled.get s.storage tree_raft_log (to_be_bytes i)) k h)

  log_row-delete :
      (s : Store b) (i : ℕ) (l : LogId)
      → i < 2 ^ 64
      → l.index < 2 ^ 64
      → log_row (delete_conflict_logs_since b l s) i ≡ (if leb l.index i then none else log_row s i)
  unfolding delete_conflict_logs_since log_row
  log_row-delete s i l h k =
      rw
        (
          b.sled.range_from_lem s.storage tree_raft_log (to_be_bytes l.index),
          get-removals b.sled s.storage tree_raft_log (λ j. ble (to_be_bytes l.index) j)
              (to_be_bytes i),
        )
        (ground (arith, blt-to_be_bytes i l.index h k))

  log_row-purge :
      (s : Store b) (i : ℕ) (l : LogId)
      → i < 2 ^ 64
      → l.index < 2 ^ 64
      → log_row (purge_logs_upto b l s) i ≡ (if leb i l.index then none else log_row s i)
  unfolding purge_logs_upto log_row persist_last_purged
  log_row-purge s i l h k =
      let rows = b.sled.range_to s.storage tree_raft_log (to_be_bytes l.index) in
      let d1 = b.sled.apply_batch s.storage tree_raft_log (removals rows) in
      rw
        (
          b.sled.get-insert d1 tree_raft_metadata key_last_purged (b.log_ids.to_vec l) tree_raft_log
              (to_be_bytes i),
          logs_ne_metadata,
          b.sled.range_to_lem s.storage tree_raft_log (to_be_bytes l.index),
          get-removals b.sled s.storage tree_raft_log (λ j. ble j (to_be_bytes l.index))
              (to_be_bytes i),
        )
        (ground (arith, blt-to_be_bytes l.index i k h))

  -- Appending entries sets the entries at their indexes and no others; resolving a conflict removes
  -- every entry from the index of the log id on; purging removes every entry up to the index of the
  -- log id and remembers the log id as the last purged one. Indexes are `u64`.
  pub log_lem :
      (s : Store b) (i : ℕ)
      → i < 2 ^ 64
      → ((es : List (Entry D M))
          → All (λ e. e.log_id.index < 2 ^ 64) es
          → log_row (append_to_log b es s) i ≡ written i es (log_row s i))
        × ((l : LogId)
            → l.index < 2 ^ 64
            → (log_row (delete_conflict_logs_since b l s) i
                ≡ (if leb l.index i then none else log_row s i))
              × (log_row (purge_logs_upto b l s) i ≡ (if leb i l.index then none else log_row s i))
              × ((purge_logs_upto b l s).last_purged ≡ some l))
  unfolding purge_logs_upto
  log_lem s i h = (
    λ es k. log_row-append s i es h k,
    λ l k. (log_row-delete s i l h k, log_row-purge s i l h k, refl),
  )
