-- ===== src/Db/RaftLog/Table/Kept.antt =====
-- The writes of the log in db/src/raft.rs keep every row an entry under its index.
use infovulcan.Common.{
  ◌^◌, ◌<◌, ◌≡◌, refl, sym, inl, inr, Bool, false, Option, some, List, [], ◌∷◌, arith,
  if◌then◌else◌, Bool-cases, All, Bytes, beq, beq_refl, eq_of_beq, ble,
}
use infovulcan.Common.Word.{to_be_bytes}
use infovulcan.Openraft.{LogId, Entry}
use infovulcan.Sled.{after_batch}
use infovulcan.Db.Types.{tree_raft_log, tree_raft_metadata}
use infovulcan.Db.RaftLog.{
  LogBackend, Store, insertions, removals, append_to_log, delete_conflict_logs_since,
  purge_logs_upto, persist_last_purged, key_last_purged,
}
use infovulcan.Db.RaftLog.Table.{get-removals}
use infovulcan.Db.RaftLog.Table.Reading.{IsRow, IsLog}

module _ {D M : Type 0} (b : LogBackend D M) where
  insertions-IsRow :
      (es : List (Entry D M)) (k v : Bytes) (old : Option Bytes)
      → All (λ e. e.log_id.index < 2 ^ 64) es
      → ((w : Bytes) → old ≡ some w → IsRow b k w)
      → after_batch (insertions b es) k old ≡ some v
      → IsRow b k v
  unfolding insertions
  insertions-IsRow [] k v old h wf g = wf v g
  insertions-IsRow (e ∷ es) k v old h wf g =
      let key : Bytes = to_be_bytes e.log_id.index in
      let bytes = b.entries.to_vec e in
      insertions-IsRow es k v (if beq key k then some bytes else old) h.1
        (λ w q. elim (Bool-cases (beq key k)) [
          | inl t ↦ (e, h.0, sym (eq_of_beq key k t), ground (arith, t, q))
          | inr t ↦ wf w (ground (arith, t, q))
        ])
        g

  metadata_ne_logs : beq tree_raft_metadata tree_raft_log ≡ false
  unfolding beq
  metadata_ne_logs = refl

  IsLog-append :
      (s : Store b) (es : List (Entry D M))
      → IsLog b s
      → All (λ e. e.log_id.index < 2 ^ 64) es
      → IsLog b (append_to_log b es s)
  unfolding IsLog append_to_log
  IsLog-append s es wf h k v g =
      insertions-IsRow es k v (b.sled.get s.storage tree_raft_log k) h (wf k) (
        ground (
          arith,
          g,
          b.sled.get-apply_batch s.storage tree_raft_log (insertions b es) tree_raft_log k,
          beq_refl tree_raft_log,
        ))

  IsLog-delete : (s : Store b) (l : LogId) → IsLog b s → IsLog b (delete_conflict_logs_since b l s)
  unfolding IsLog delete_conflict_logs_since
  IsLog-delete s l wf k v g =
      let from_start : Bytes → Bool = λ j. ble (to_be_bytes l.index) j in
      let g' =
        rw
          (
            b.sled.range_from_lem s.storage tree_raft_log (to_be_bytes l.index),
            get-removals b.sled s.storage tree_raft_log from_start k,
          )
          at g in
      wf k v (ground (arith, g'))

  IsLog-purge : (s : Store b) (l : LogId) → IsLog b s → IsLog b (purge_logs_upto b l s)
  unfolding IsLog purge_logs_upto persist_last_purged
  IsLog-purge s l wf k v g =
      let rows = b.sled.range_to s.storage tree_raft_log (to_be_bytes l.index) in
      let d1 = b.sled.apply_batch s.storage tree_raft_log (removals rows) in
      let g' =
        rw
          (
            b.sled.get-insert d1 tree_raft_metadata key_last_purged (b.log_ids.to_vec l)
                tree_raft_log k,
            metadata_ne_logs,
            b.sled.range_to_lem s.storage tree_raft_log (to_be_bytes l.index),
            get-removals b.sled s.storage tree_raft_log (λ j. ble j (to_be_bytes l.index)) k,
          )
          at g in
      wf k v (ground (arith, g'))

  -- A log whose rows all are entries under their indexes stays one when entries with `u64` indexes
  -- are appended, when a conflict is resolved and when it is purged.
  pub IsLog-kept :
      (s : Store b)
      → IsLog b s
      → ((es : List (Entry D M))
          → All (λ e. e.log_id.index < 2 ^ 64) es
          → IsLog b (append_to_log b es s))
        × ((l : LogId)
            → IsLog b (delete_conflict_logs_since b l s) × IsLog b (purge_logs_upto b l s))
  IsLog-kept s wf = (λ es h. IsLog-append s es wf h, λ l. (IsLog-delete s l wf, IsLog-purge s l wf))
