-- ===== src/Db/RaftLog/Table/Durable.antt =====
-- What db/src/raft.rs finds again after a restart.
use infovulcan.Common.{◌≡◌, refl, true, false, none, List, Bytes, beq, ok}
use infovulcan.Common.Word.{to_be_bytes}
use infovulcan.Openraft.{LogId, Vote, Entry}
use infovulcan.Sled.{BatchOp}
use infovulcan.Db.Types.{tree_raft_log, tree_raft_metadata}
use infovulcan.Db.RaftLog.{
  LogBackend, Store, key_vote, key_last_purged, parsed, open_store, removals, insertions,
  append_to_log, delete_conflict_logs_since, purge_logs_upto, persist_last_purged, persist_vote,
  save_vote,
}

module _ {D M : Type 0} (b : LogBackend D M) where
  -- Opening the database again gives the store as it is in memory.
  unfoldable pub IsPersisted : Store b → Type 0
  IsPersisted s =
      (parsed b b.votes (b.sled.get s.storage tree_raft_metadata key_vote) ≡ ok s.vote)
      × (parsed b b.log_ids (b.sled.get s.storage tree_raft_metadata key_last_purged)
          ≡ ok s.last_purged)

  trees_and_keys :
      (beq tree_raft_log tree_raft_metadata ≡ false)
      × (beq tree_raft_metadata tree_raft_metadata ≡ true)
      × (beq key_vote key_last_purged ≡ false)
      × (beq key_last_purged key_vote ≡ false)
      × (beq key_vote key_vote ≡ true)
      × (beq key_last_purged key_last_purged ≡ true)
  unfolding beq
  trees_and_keys = (refl, refl, refl, refl, refl, refl)

  get-log_batch :
      (d : b.sled.Db) (ops : List BatchOp) (k : Bytes)
      → b.sled.get (b.sled.apply_batch d tree_raft_log ops) tree_raft_metadata k
        ≡ b.sled.get d tree_raft_metadata k
  get-log_batch d ops k =
      rw (b.sled.get-apply_batch d tree_raft_log ops tree_raft_metadata k, trees_and_keys.0) refl

  IsPersisted-batch :
      (s : Store b) (ops : List BatchOp)
      → IsPersisted s
      → IsPersisted (record s { storage = b.sled.apply_batch s.storage tree_raft_log ops })
  unfolding IsPersisted
  IsPersisted-batch s ops p =
      rw (get-log_batch s.storage ops key_vote, get-log_batch s.storage ops key_last_purged) p

  IsPersisted-save_vote : (s : Store b) (v : Vote) → IsPersisted s → IsPersisted (save_vote b v s)
  unfolding IsPersisted save_vote persist_vote
  IsPersisted-save_vote s v p =
      let bytes = b.votes.to_vec v in
      rw
        (
          b.sled.get-insert s.storage tree_raft_metadata key_vote bytes tree_raft_metadata key_vote,
          b.sled.get-insert s.storage tree_raft_metadata key_vote bytes tree_raft_metadata
              key_last_purged,
          trees_and_keys.1,
          trees_and_keys.2,
          trees_and_keys.4,
          b.votes.from_slice-to_vec v,
        )
        (refl, p.1)

  IsPersisted-purge :
      (s : Store b) (l : LogId) → IsPersisted s → IsPersisted (purge_logs_upto b l s)
  unfolding IsPersisted purge_logs_upto persist_last_purged
  IsPersisted-purge s l p =
      let ops = removals (b.sled.range_to s.storage tree_raft_log (to_be_bytes l.index)) in
      let d1 = b.sled.apply_batch s.storage tree_raft_log ops in
      let bytes = b.log_ids.to_vec l in
      rw
        (
          b.sled.get-insert d1 tree_raft_metadata key_last_purged bytes tree_raft_metadata key_vote,
          b.sled.get-insert d1 tree_raft_metadata key_last_purged bytes tree_raft_metadata
              key_last_purged,
          trees_and_keys.1,
          trees_and_keys.3,
          trees_and_keys.5,
          get-log_batch s.storage ops key_vote,
          b.log_ids.from_slice-to_vec l,
        )
        (p.0, refl)

  open_store_lem : (s : Store b) → IsPersisted s → open_store b s.storage ≡ ok s
  unfolding IsPersisted open_store
  open_store_lem s p = rw (open_store, p.0, p.1) refl

  -- A store that matches its database still does after saving a vote, appending to the log, resolving
  -- a conflict or purging, and a restart then finds it again: the vote and the last purged log id
  -- that were in memory are read back.
  pub restart :
      (s : Store b)
      → IsPersisted s
      → ((v : Vote)
          → IsPersisted (save_vote b v s)
            × (open_store b (save_vote b v s).storage ≡ ok (save_vote b v s)))
        × ((es : List (Entry D M))
            → IsPersisted (append_to_log b es s)
              × (open_store b (append_to_log b es s).storage ≡ ok (append_to_log b es s)))
        × ((l : LogId)
            → IsPersisted (delete_conflict_logs_since b l s)
              × (open_store b (delete_conflict_logs_since b l s).storage
                  ≡ ok (delete_conflict_logs_since b l s))
              × IsPersisted (purge_logs_upto b l s)
              × (open_store b (purge_logs_upto b l s).storage ≡ ok (purge_logs_upto b l s)))
  restart s p = (
    λ v. kept (save_vote b v s) (IsPersisted-save_vote s v p),
    λ es. kept (append_to_log b es s) (appended es),
    λ l.
        let removed = deleted l in
        let purged = IsPersisted-purge s l p in
        (
          removed,
          open_store_lem (delete_conflict_logs_since b l s) removed,
          purged,
          open_store_lem (purge_logs_upto b l s) purged,
        ),
  )
    where
      kept : (t : Store b) → IsPersisted t → IsPersisted t × (open_store b t.storage ≡ ok t)
      kept t q = (q, open_store_lem t q)

      appended : (es : List (Entry D M)) → IsPersisted (append_to_log b es s)
      appended es = unfold append_to_log in IsPersisted-batch s (insertions b es) p

      deleted : (l : LogId) → IsPersisted (delete_conflict_logs_since b l s)
      deleted l =
          unfold delete_conflict_logs_since in
          IsPersisted-batch s
            (removals (b.sled.range_from s.storage tree_raft_log (to_be_bytes l.index))) p

  -- The first start, on a database with nothing in it.
  pub empty-IsPersisted :
      IsPersisted (record { vote = none; last_purged = none; storage = b.sled.empty })
  unfolding IsPersisted
  empty-IsPersisted =
      rw
        (
          b.sled.get-empty tree_raft_metadata key_vote,
          b.sled.get-empty tree_raft_metadata key_last_purged,
        )
        (refl, refl)
