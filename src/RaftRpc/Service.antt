-- ===== src/RaftRpc/Service.antt =====
-- One call over the wire: the client of db/src/network.rs and the server of db/src/raft_service.rs,
-- with the messages of db/proto/db.proto. The node that answers is a parameter, and so is the
-- transport, which the client calls.
use infovulcan.Common.{ℕ, Bool, Option, some, List, map, Bytes}
use infovulcan.Common.Outcome.{Outcome, done, ok_or, map_err, ◌>>=◌}
use infovulcan.Openraft.{VoteRequest, VoteResponse, AppendEntriesResponse}
use infovulcan.Serde.{Serde}
use infovulcan.RaftRpc.{
  WireError, VoteParts, LogIdParts, option_map, vote, vote_parts, log_id, log_id_parts,
  classify_append_response, append_response_from_wire, vote_request, AppendEntriesRequest,
  append_request, decode_entries,
}

pub record ProtoVote : Type 0 where
  pub term : ℕ
  pub node_id : ℕ
  pub committed : Bool

pub record ProtoLogId : Type 0 where
  pub term : ℕ
  pub index : ℕ

pub record ProtoVoteRequest : Type 0 where
  pub vote : Option ProtoVote
  pub last_log_id : Option ProtoLogId

pub record ProtoVoteResponse : Type 0 where
  pub vote : Option ProtoVote
  pub vote_granted : Bool
  pub last_log_id : Option ProtoLogId

pub record ProtoAppendEntriesRequest : Type 0 where
  pub vote : Option ProtoVote
  pub prev_log_id : Option ProtoLogId
  pub entries : List Bytes
  pub leader_commit : Option ProtoLogId

pub record ProtoAppendEntriesResponse : Type 0 where
  pub vote : Option ProtoVote
  pub response_type : ℕ
  pub partial_success_index : Option ProtoLogId

pub data Status : Type 0 where
  invalid_argument : Status
  internal : Status

-- `RPCError::Network`, by its cause.
pub data RpcError : Type 0 where
  call : Status → RpcError
  missing_vote : RpcError
  invalid_data : WireError → RpcError

abbrev pub to_proto_vote : VoteParts → ProtoVote
to_proto_vote (term, node_id, committed) = record {
  term = term;
  node_id = node_id;
  committed = committed;
}

abbrev pub to_proto_log_id : LogIdParts → ProtoLogId
to_proto_log_id (term, index) = record { term = term; index = index }

abbrev pub of_proto_vote : ProtoVote → VoteParts
of_proto_vote v = (v.term, v.node_id, v.committed)

abbrev pub of_proto_log_id : ProtoLogId → LogIdParts
of_proto_log_id l = (l.term, l.index)

unfoldable pub vote_handler :
    (VoteRequest → Option VoteResponse) → ProtoVoteRequest → Outcome Status ProtoVoteResponse
unfolding vote_parts log_id_parts
vote_handler raft req = do
  proto_vote ← ok_or req.vote invalid_argument
  raft_response ←
      ok_or
        (raft
          (vote_request (of_proto_vote proto_vote) (option_map of_proto_log_id req.last_log_id)))
        internal
  done (record {
    vote = some (to_proto_vote (vote_parts raft_response.vote));
    vote_granted = raft_response.vote_granted;
    last_log_id = option_map (λ l. to_proto_log_id (log_id_parts l)) raft_response.last_log_id;
  })

unfoldable pub vote_call :
    (ProtoVoteRequest → Outcome Status ProtoVoteResponse)
    → VoteRequest
    → Outcome RpcError VoteResponse
vote_call send rpc = do
  resp ← map_err call (
      send (record {
        vote = some (to_proto_vote (vote_parts rpc.vote));
        last_log_id = option_map (λ l. to_proto_log_id (log_id_parts l)) rpc.last_log_id;
      }))
  proto_vote ← ok_or resp.vote missing_vote
  done (record {
    vote = vote (of_proto_vote proto_vote);
    vote_granted = resp.vote_granted;
    last_log_id = option_map (λ l. log_id proto_vote.node_id (of_proto_log_id l)) resp.last_log_id;
  })

module _ {E : Type 0} (s : Serde E) where
  unfoldable pub append_entries_handler :
      (AppendEntriesRequest E → Option AppendEntriesResponse)
      → ProtoAppendEntriesRequest
      → Outcome Status ProtoAppendEntriesResponse
  append_entries_handler raft req = do
    proto_vote ← ok_or req.vote invalid_argument
    entries ← map_err (λ e. invalid_argument) (decode_entries E s req.entries)
    raft_response ←
        ok_or
          (raft (
            append_request E (of_proto_vote proto_vote) (option_map of_proto_log_id req.prev_log_id)
              entries (option_map of_proto_log_id req.leader_commit)))
          internal
    let wire = classify_append_response raft_response (of_proto_vote proto_vote)
    done (record {
      vote = some (to_proto_vote wire.vote);
      response_type = wire.response_type;
      partial_success_index = option_map to_proto_log_id wire.partial_index;
    })

  unfoldable pub append_entries_call :
      (ProtoAppendEntriesRequest → Outcome Status ProtoAppendEntriesResponse)
      → AppendEntriesRequest E
      → Outcome RpcError AppendEntriesResponse
  append_entries_call send rpc = do
    resp ← map_err call (
        send (record {
          vote = some (to_proto_vote (vote_parts rpc.vote));
          prev_log_id = option_map (λ l. to_proto_log_id (log_id_parts l)) rpc.prev_log_id;
          entries = map s.to_vec rpc.entries;
          leader_commit = option_map (λ l. to_proto_log_id (log_id_parts l)) rpc.leader_commit;
        }))
    proto_vote ← ok_or resp.vote missing_vote
    map_err invalid_data (
        append_response_from_wire resp.response_type
          (option_map of_proto_log_id resp.partial_success_index) (of_proto_vote proto_vote))
