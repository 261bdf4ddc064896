-- ===== src/Db/RaftLog/Tests.antt =====
-- The theorems on the log store at a concrete log.
use infovulcan.Common.{
  ℕ, ◌^◌, ◌<◌, ◌≡◌, refl, ap, ◌↔◌, none, some, List, [], ◌∷◌, arith, leb, ◌==◌, if◌then◌else◌, In,
  All, ok,
}
use infovulcan.Openraft.{LogId, Vote, Entry, EntryPayload, blank, normal, membership}
use infovulcan.Sled.Model.{sled_model}
use infovulcan.Serde.Codec.{Codec, nat_codec, bool_codec, pair_codec, via_codec, serde_of}
use infovulcan.Db.Types.{tree_raft_log}
use infovulcan.Db.RaftLog.{
  LogBackend, Store, included, excluded, append_to_log, delete_conflict_logs_since, purge_logs_upto,
  save_vote, open_store, try_get_log_entries,
}
use infovulcan.Db.RaftLog.Table.{log_row, written, log_lem}
use infovulcan.Db.RaftLog.Table.Durable.{IsPersisted, restart, empty-IsPersisted}
use infovulcan.Db.RaftLog.Table.Reading.{IsLog, Begun, NotPassed, try_get_log_entries_lem}
use infovulcan.Db.RaftLog.Table.Kept.{IsLog-kept}

abbrev E : Type 0
E = Entry ℕ ℕ

abbrev of_log_id : LogId → (ℕ × ℕ) × ℕ
of_log_id l = ((l.leader_id.term, l.leader_id.node_id), l.index)

abbrev to_log_id : (ℕ × ℕ) × ℕ → LogId
to_log_id p = record { leader_id = record { term = p.0.0; node_id = p.0.1 }; index = p.1 }

abbrev of_payload : EntryPayload ℕ ℕ → ℕ × ℕ
of_payload blank = (0, 0)
of_payload (normal d) = (1, d)
of_payload (membership m) = (2, m)

abbrev to_payload : ℕ × ℕ → EntryPayload ℕ ℕ
to_payload p = if p.0 == 0 then blank else if p.0 == 1 then normal p.1 else membership p.1

payload_back : (p : EntryPayload ℕ ℕ) → to_payload (of_payload p) ≡ p
payload_back blank = refl
payload_back (normal d) = refl
payload_back (membership m) = refl

abbrev log_id_pairs : Codec ((ℕ × ℕ) × ℕ)
log_id_pairs = pair_codec (pair_codec nat_codec nat_codec) nat_codec

unfoldable log_id_codec : Codec LogId
log_id_codec = via_codec log_id_pairs of_log_id (λ p. some (to_log_id p)) (λ l. refl)

unfoldable vote_codec : Codec Vote
vote_codec =
    via_codec (pair_codec (pair_codec nat_codec nat_codec) bool_codec)
      (λ v. ((v.leader_id.term, v.leader_id.node_id), v.committed))
      (λ p. some (record { leader_id = record { term = p.0.0; node_id = p.0.1 }; committed = p.1 }))
      (λ v. refl)

unfoldable entry_codec : Codec E
entry_codec =
    via_codec (pair_codec log_id_pairs (pair_codec nat_codec nat_codec))
      (λ e. (of_log_id e.log_id, of_payload e.payload))
      (λ p. some (record { log_id = to_log_id p.0; payload = to_payload p.1 }))
      (λ e. ap (λ q. some (record { log_id = e.log_id; payload = q })) (payload_back e.payload))

abbrev backend : LogBackend ℕ ℕ
backend = record {
  sled = sled_model;
  entries = serde_of entry_codec;
  votes = serde_of vote_codec;
  log_ids = serde_of log_id_codec;
}

start : Store backend
start = record { vote = none; last_purged = none; storage = backend.sled.empty }

abbrev at_index : ℕ → LogId
at_index i = record { leader_id = record { term = 1; node_id = 1 }; index = i }

abbrev two : List E
two =
    record { log_id = at_index 1; payload = blank }
    ∷ record { log_id = at_index 2; payload = normal 7 }
    ∷ []

start-IsPersisted : IsPersisted backend start
unfolding start
start-IsPersisted = empty-IsPersisted backend

start-IsLog : IsLog backend start
unfolding start IsLog
start-IsLog k v g = absurd (ground (arith, g, backend.sled.get-empty tree_raft_log k))

IsLog-kept_example :
    ((es : List E)
      → All (λ e. e.log_id.index < 2 ^ 64) es
      → IsLog backend (append_to_log backend es start))
    × ((l : LogId)
        → IsLog backend (delete_conflict_logs_since backend l start)
          × IsLog backend (purge_logs_upto backend l start))
IsLog-kept_example = IsLog-kept backend start start-IsLog

abbrev filled : Store backend
filled = append_to_log backend two start

filled-IsLog : IsLog backend filled
filled-IsLog = IsLog-kept_example.0 two (omega arith, (omega arith, tt))

try_get_log_entries_lem_example :
    (es : List E) × (try_get_log_entries backend (included 2) (excluded 3) filled ≡ ok es)
    × ((e : E)
        → e.log_id.index < 2 ^ 64
        → In e es ↔ (
            (log_row backend filled e.log_id.index ≡ some e)
            × Begun (included 2) e.log_id.index
            × NotPassed (excluded 3) e.log_id.index))
try_get_log_entries_lem_example =
    try_get_log_entries_lem backend (included 2) (excluded 3) filled filled-IsLog (omega arith)
      (omega arith)

log_lem_example :
    ((es : List E)
      → All (λ e. e.log_id.index < 2 ^ 64) es
      → log_row backend (append_to_log backend es filled) 2
        ≡ written 2 es (log_row backend filled 2))
    × ((l : LogId)
        → l.index < 2 ^ 64
        → (log_row backend (delete_conflict_logs_since backend l filled) 2
            ≡ (if leb l.index 2 then none else log_row backend filled 2))
          × (log_row backend (purge_logs_upto backend l filled) 2
              ≡ (if leb 2 l.index then none else log_row backend filled 2))
          × ((purge_logs_upto backend l filled).last_purged ≡ some l))
log_lem_example = log_lem backend filled 2 (omega arith)

filled-IsPersisted : IsPersisted backend filled
filled-IsPersisted = ((restart backend start start-IsPersisted).1 two).0

restart_example :
    ((v : Vote)
      → IsPersisted backend (save_vote backend v filled)
        × (open_store backend (save_vote backend v filled).storage
            ≡ ok (save_vote backend v filled)))
    × ((es : List E)
        → IsPersisted backend (append_to_log backend es filled)
          × (open_store backend (append_to_log backend es filled).storage
              ≡ ok (append_to_log backend es filled)))
    × ((l : LogId)
        → IsPersisted backend (delete_conflict_logs_since backend l filled)
          × (open_store backend (delete_conflict_logs_since backend l filled).storage
              ≡ ok (delete_conflict_logs_since backend l filled))
          × IsPersisted backend (purge_logs_upto backend l filled)
          × (open_store backend (purge_logs_upto backend l filled).storage
              ≡ ok (purge_logs_upto backend l filled)))
restart_example = restart backend filled filled-IsPersisted
