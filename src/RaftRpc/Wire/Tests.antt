-- ===== src/RaftRpc/Wire/Tests.antt =====
-- The theorems on the wire at concrete inputs.
use infovulcan.Common.{ℕ, ◌≡◌, true, Option, none, some, [], ◌∷◌}
use infovulcan.Common.Outcome.{done, failed}
use infovulcan.Openraft.{
  Vote, LogId, VoteRequest, VoteResponse, AppendEntriesResponse, partial_success,
}
use infovulcan.Serde.Codec.{nat_codec, serde_of}
use infovulcan.Serde.{Serde}
use infovulcan.RaftRpc.{AppendEntriesRequest}
use infovulcan.RaftRpc.Service.{append_entries_handler, append_entries_call, call, internal}
use infovulcan.RaftRpc.Wire.{relabel_request, relabel_response, append_entries_rpc}

abbrev ballot : Vote
ballot = record { leader_id = record { term = 4; node_id = 2 }; committed = true }

abbrev older : LogId
older = record { leader_id = record { term = 3; node_id = 1 }; index = 9 }

abbrev request : VoteRequest
request = record { vote = ballot; last_log_id = some older }

abbrev grant : VoteRequest → Option VoteResponse
grant r = some (record { vote = r.vote; vote_granted = true; last_log_id = r.last_log_id })

abbrev numbers : Serde ℕ
numbers = serde_of nat_codec

abbrev two_entries : AppendEntriesRequest ℕ
two_entries = record {
  vote = ballot;
  prev_log_id = some older;
  entries = 5 ∷ 6 ∷ [];
  leader_commit = none;
}

abbrev half : AppendEntriesRequest ℕ → Option AppendEntriesResponse
half r = some (partial_success r.prev_log_id)

append_entries_rpc_example :
    append_entries_call numbers (append_entries_handler numbers half) two_entries
    ≡ (elim (half (relabel_request two_entries)) [
      | none ↦ failed (call internal)
      | some r ↦ done (relabel_response two_entries.vote.leader_id.node_id r)
    ])
append_entries_rpc_example = append_entries_rpc numbers half two_entries
