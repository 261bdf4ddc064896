-- ===== src/Db/RaftLog.antt =====
-- The Raft log and metadata of db/src/raft.rs, in trees of the database.
pub mod Table
mod Tests
use infovulcan.Common.{
  ℕ, zero, suc, ◌+◌, ◌-◌, ◌*◌, ◌/◌, ◌%◌, ◌^◌, ◌≤◌, ◌<◌, ◌≡◌, refl, sym, ap, ◌∙◌, subst, ◌≢◌, ◌↔◌,
  ◌⊎◌, inl, inr, Bool, true, false, not, ◌&&◌, ◌||◌, Option, none, some, List, [], ◌∷◌, ◌++◌, map,
  arith, ltb, leb, ◌==◌, if◌then◌else◌, ltb→lt, lt→ltb, leb→le, le→leb, ==_iff, tests, Bool-cases,
  Option-cases, length, length-append, take, drop, replicate, filter, In, In-filter, of_In-filter,
  All, All-In, Bytes, ascii, beq, beq_refl, eq_of_beq, starts_with, starts_with-append, blt, ble,
  blt_irrefl, blt_trans, blt_total, Error, not_found, corrupt, Result, ok, err, or_err,
  Result-cases,
}
use infovulcan.Common.Word.{to_be_bytes, from_be_bytes}
use infovulcan.Openraft.{LogId, Vote, Entry}
use infovulcan.Sled.{Sled, BatchOp}
use infovulcan.Serde.{Serde}
use infovulcan.Db.Types.{tree_raft_log, tree_raft_metadata}

abbrev pub key_vote : Bytes
key_vote = ascii "vote"

abbrev pub key_last_purged : Bytes
key_last_purged = ascii "last_purged"

-- `std::ops::Bound<u64>`
pub data Bound : Type 0 where
  included : ℕ → Bound
  excluded : ℕ → Bound
  unbounded : Bound

-- What the store is built on. The payloads of entries and the memberships are `D` and `M`.
pub record LogBackend (D M : Type 0) : Type 1 where
  pub sled : Sled
  pub entries : Serde (Entry D M)
  pub votes : Serde Vote
  pub log_ids : Serde LogId

-- The first and the last index of a range. Arithmetic on `u64` wraps, as in a release build: a debug
-- build panics at an excluded start of 2 ^ 64 - 1 and at an excluded end of 0.
unfoldable pub start_index : Bound → ℕ
start_index (included i) = i
start_index (excluded i) = (i + 1) % 2 ^ 64
start_index unbounded = 0

unfoldable pub end_index : Bound → Option ℕ
end_index (included i) = some i
end_index (excluded i) = some ((i + (2 ^ 64 - 1)) % 2 ^ 64)
end_index unbounded = none

abbrev pub past : Option ℕ → ℕ → Bool
past none index = false
past (some end_idx) index = ltb end_idx index

-- A batch that removes the keys of the rows.
abbrev pub removals : List (Bytes × Bytes) → List BatchOp
removals [] = []
removals ((key, value) ∷ rows) = BatchOp.del key ∷ removals rows

abbrev pub last_row : List (Bytes × Bytes) → Option Bytes
last_row [] = none
last_row ((key, value) ∷ []) = some value
last_row ((key, value) ∷ (row ∷ rows)) = last_row (row ∷ rows)

module _ {D M : Type 0} (b : LogBackend D M) where
  -- `RaftMetadata`: what it keeps in memory, and the database.
  pub record Store : Type 0 where
    pub vote : Option Vote
    pub last_purged : Option LogId
    pub storage : b.sled.Db

  abbrev pub parsed : {A : Type 0} → Serde A → Option Bytes → Result (Option A)
  parsed s none = ok none
  parsed s (some bytes) = elim (s.from_slice bytes) [ none ↦ err corrupt | some a ↦ ok (some a) ]

  -- `RaftMetadata::new`
  unfoldable pub open_store : b.sled.Db → Result Store
  open_store d = elim (parsed b.votes (b.sled.get d tree_raft_metadata key_vote)) [
    | err e ↦ err e
    | ok vote ↦ elim (parsed b.log_ids (b.sled.get d tree_raft_metadata key_last_purged)) [
      | err e ↦ err e
      | ok last_purged ↦ ok (record { vote = vote; last_purged = last_purged; storage = d })
    ]
  ]

  unfoldable pub persist_vote : Option Vote → b.sled.Db → b.sled.Db
  persist_vote (some v) d = b.sled.insert d tree_raft_metadata key_vote (b.votes.to_vec v)
  persist_vote none d = b.sled.remove d tree_raft_metadata key_vote

  unfoldable pub persist_last_purged : Option LogId → b.sled.Db → b.sled.Db
  persist_last_purged (some purged) d =
      b.sled.insert d tree_raft_metadata key_last_purged (b.log_ids.to_vec purged)
  persist_last_purged none d = b.sled.remove d tree_raft_metadata key_last_purged

  unfoldable pub save_vote : Vote → Store → Store
  save_vote vote s = record s { vote = some vote; storage = persist_vote (some vote) s.storage }

  -- The loop of `try_get_log_entries` over the rows from the start on.
  unfoldable pub read_rows : Option ℕ → List (Bytes × Bytes) → Result (List (Entry D M))
  read_rows end_ [] = ok []
  read_rows end_ ((k, v) ∷ rows) = elim (from_be_bytes k) [
    | none ↦ err corrupt
    | some index ↦ elim (past end_ index) [
      | true ↦ ok []
      | false ↦ elim (b.entries.from_slice v) [
        | none ↦ err corrupt
        | some entry ↦ elim (read_rows end_ rows) [
          | err e ↦ err e
          | ok entries ↦ ok (entry ∷ entries)
        ]
      ]
    ]
  ]

  unfoldable pub try_get_log_entries : Bound → Bound → Store → Result (List (Entry D M))
  try_get_log_entries start_bound end_bound s =
      read_rows (end_index end_bound)
        (b.sled.range_from s.storage tree_raft_log (to_be_bytes (start_index start_bound)))

  unfoldable pub insertions : List (Entry D M) → List BatchOp
  insertions [] = []
  insertions (entry ∷ entries) =
      BatchOp.put (to_be_bytes entry.log_id.index) (b.entries.to_vec entry) ∷ insertions entries

  unfoldable pub append_to_log : List (Entry D M) → Store → Store
  append_to_log entries s = record s {
    storage = b.sled.apply_batch s.storage tree_raft_log (insertions entries);
  }

  unfoldable pub delete_conflict_logs_since : LogId → Store → Store
  delete_conflict_logs_since log_id s =
      let rows = b.sled.range_from s.storage tree_raft_log (to_be_bytes log_id.index) in
      record s { storage = b.sled.apply_batch s.storage tree_raft_log (removals rows) }

  unfoldable pub purge_logs_upto : LogId → Store → Store
  purge_logs_upto log_id s =
      let rows = b.sled.range_to s.storage tree_raft_log (to_be_bytes log_id.index) in
      let d = b.sled.apply_batch s.storage tree_raft_log (removals rows) in
      record s { last_purged = some log_id; storage = persist_last_purged (some log_id) d }

  unfoldable pub get_log_state : Store → Result (Option LogId × Option LogId)
  get_log_state s = elim (last_row (b.sled.iter s.storage tree_raft_log)) [
    | none ↦ ok (none, s.last_purged)
    | some v ↦ elim (b.entries.from_slice v) [
      | none ↦ err corrupt
      | some entry ↦ ok (some entry.log_id, s.last_purged)
    ]
  ]
