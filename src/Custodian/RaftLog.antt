-- ===== src/Custodian/RaftLog.antt =====
-- The Raft log and metadata of custodian/src/raft.rs. Its code is that of db/src/raft.rs, line by
-- line, for entries that carry lock commands, with the same names of trees and keys; so its
-- operations are those of Db/RaftLog at these entries, and what is shown there holds here.
use infovulcan.Common.{Option, List, Result}
use infovulcan.Openraft.{LogId, Vote, Entry}
use infovulcan.Db.RaftLog
use infovulcan.Db.RaftLog.{Bound, LogBackend}
use infovulcan.Custodian.Types.{LockCommand}

module _ {M : Type 0} (b : LogBackend LockCommand M) where
  abbrev pub Store : Type 0
  Store = RaftLog.Store b

  abbrev pub open_store : b.sled.Db → Result Store
  open_store d = RaftLog.open_store b d

  abbrev pub persist_vote : Option Vote → b.sled.Db → b.sled.Db
  persist_vote vote d = RaftLog.persist_vote b vote d

  abbrev pub persist_last_purged : Option LogId → b.sled.Db → b.sled.Db
  persist_last_purged purged d = RaftLog.persist_last_purged b purged d

  abbrev pub save_vote : Vote → Store → Store
  save_vote vote s = RaftLog.save_vote b vote s

  abbrev pub try_get_log_entries : Bound → Bound → Store → Result (List (Entry LockCommand M))
  try_get_log_entries start_bound end_bound s =
      RaftLog.try_get_log_entries b start_bound end_bound s

  abbrev pub append_to_log : List (Entry LockCommand M) → Store → Store
  append_to_log entries s = RaftLog.append_to_log b entries s

  abbrev pub delete_conflict_logs_since : LogId → Store → Store
  delete_conflict_logs_since log_id s = RaftLog.delete_conflict_logs_since b log_id s

  abbrev pub purge_logs_upto : LogId → Store → Store
  purge_logs_upto log_id s = RaftLog.purge_logs_upto b log_id s

  -- The last log id of the log and the last one purged.
  abbrev pub get_log_state : Store → Result (Option LogId × Option LogId)
  get_log_state s = RaftLog.get_log_state b s
