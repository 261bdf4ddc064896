-- ===== src/RaftRpc/Wire.antt =====
-- What survives the wire of raft-rpc/src/lib.rs and db/src/raft_service.rs: everything but the node
-- id of a log id, which is replaced by that of the vote that travels with it.
mod Tests
use infovulcan.Common.{
  ℕ, zero, suc, ◌+◌, ◌-◌, ◌*◌, ◌/◌, ◌%◌, ◌^◌, ◌≤◌, ◌<◌, ◌≡◌, refl, sym, ap, ◌∙◌, subst, ◌≢◌, ◌↔◌,
  ◌⊎◌, inl, inr, Bool, true, false, not, ◌&&◌, ◌||◌, Option, none, some, List, [], ◌∷◌, ◌++◌, map,
  arith, ltb, leb, ◌==◌, if◌then◌else◌, ltb→lt, lt→ltb, leb→le, le→leb, ==_iff, tests, Bool-cases,
  Option-cases, length, length-append, take, drop, replicate, filter, In, In-filter, of_In-filter,
  All, All-In, Bytes, ascii, beq, beq_refl, eq_of_beq, starts_with, starts_with-append, blt, ble,
  blt_irrefl, blt_trans, blt_total, Error, not_found, corrupt, Result, ok, err, or_err,
}
use infovulcan.Common.Outcome.{Outcome, done, failed, ◌>>=◌, ok_or, map_err}
use infovulcan.Openraft.{
  LogId, Vote, VoteRequest, VoteResponse, AppendEntriesResponse, success, partial_success, conflict,
  higher_vote,
}
use infovulcan.Serde.{Serde}
use infovulcan.RaftRpc.{
  vote, vote_parts, log_id, log_id_parts, option_map, classify_append_response,
  append_response_from_wire, vote_request, append_request, AppendEntriesRequest, decode_entries,
  unknown_response_type,
}
use infovulcan.RaftRpc.Service.{
  vote_handler, vote_call, append_entries_handler, append_entries_call, call, internal,
  to_proto_log_id, of_proto_log_id,
}

-- A log id as the other side sees it.
abbrev pub relabel : ℕ → LogId → LogId
relabel n l = record {
  leader_id = record { term = l.leader_id.term; node_id = n };
  index = l.index;
}

abbrev pub relabel_request : {E : Type 0} → AppendEntriesRequest E → AppendEntriesRequest E
relabel_request r = record {
  vote = r.vote;
  prev_log_id = option_map (relabel r.vote.leader_id.node_id) r.prev_log_id;
  entries = r.entries;
  leader_commit = option_map (relabel r.vote.leader_id.node_id) r.leader_commit;
}

abbrev pub relabel_response : ℕ → AppendEntriesResponse → AppendEntriesResponse
relabel_response n success = success
relabel_response n (partial_success o) = partial_success (option_map (relabel n) o)
relabel_response n conflict = conflict
relabel_response n (higher_vote v) = higher_vote v

decode-map :
    {E : Type 0} (s : Serde E) (es : List E) → decode_entries E s (map s.to_vec es) ≡ done es
unfolding decode_entries
decode-map s [] = refl
decode-map s (e ∷ es) = rw (s.from_slice-to_vec e, decode-map s es) refl

abbrev pub relabel_vote_request : VoteRequest → VoteRequest
relabel_vote_request r = record {
  vote = r.vote;
  last_log_id = option_map (relabel r.vote.leader_id.node_id) r.last_log_id;
}

abbrev pub relabel_vote_response : VoteResponse → VoteResponse
relabel_vote_response r = record {
  vote = r.vote;
  vote_granted = r.vote_granted;
  last_log_id = option_map (relabel r.vote.leader_id.node_id) r.last_log_id;
}

log_id-wire :
    (n : ℕ) (o : Option LogId)
    → option_map
        (λ l. log_id n (of_proto_log_id l))
        (option_map (λ l. to_proto_log_id (log_id_parts l)) o)
      ≡ option_map (relabel n) o
unfolding log_id log_id_parts
log_id-wire n none = refl
log_id-wire n (some l) = refl

log_id-wire_request :
    (n : ℕ) (o : Option LogId)
    → option_map
        (log_id n)
        (option_map of_proto_log_id (option_map (λ l. to_proto_log_id (log_id_parts l)) o))
      ≡ option_map (relabel n) o
unfolding log_id log_id_parts
log_id-wire_request n none = refl
log_id-wire_request n (some l) = refl

-- One vote call through the client and the server. The node sees the candidate's request with its
-- last log id under the candidate's node id, and the candidate sees the node's response with its
-- last log id under the node id of the vote in it; a failure of the node is an error of the call.
pub vote_rpc :
    (raft : VoteRequest → Option VoteResponse) (rpc : VoteRequest)
    → vote_call (vote_handler raft) rpc ≡ (elim (raft (relabel_vote_request rpc)) [
      | none ↦ failed (call internal)
      | some r ↦ done (relabel_vote_response r)
    ])
unfolding vote_call vote_handler vote_request vote vote_parts
vote_rpc raft rpc =
    rw (log_id-wire_request rpc.vote.leader_id.node_id rpc.last_log_id)
      (elim (Option-cases (raft (relabel_vote_request rpc))) [
        | inl e ↦ rw e refl
        | inr (r, e) ↦ rw (e, log_id-wire r.vote.leader_id.node_id r.last_log_id) refl
      ])

classify_lem :
    (r : AppendEntriesResponse) (v : Vote)
    → let w = classify_append_response r (vote_parts v) in
      append_response_from_wire w.response_type w.partial_index w.vote
      ≡ done (relabel_response v.leader_id.node_id r)
unfolding classify_append_response append_response_from_wire vote vote_parts log_id log_id_parts
classify_lem success v = refl
classify_lem (partial_success none) v = refl
classify_lem (partial_success (some l)) v = refl
classify_lem conflict v = refl
classify_lem (higher_vote u) v = refl

-- Classifying a response and rebuilding it gives it back, a partial success with its log id under
-- the node id of the echoed vote, and a response type above 3 is an error.
pub append_response_from_wire-classify :
    ((r : AppendEntriesResponse) (v : Vote)
      → let w = classify_append_response r (vote_parts v) in
        append_response_from_wire w.response_type w.partial_index w.vote
        ≡ done (relabel_response v.leader_id.node_id r))
    × ((t : ℕ) (o : Option (ℕ × ℕ)) (v : Vote)
        → 3 < t
        → append_response_from_wire t o (vote_parts v) ≡ failed (unknown_response_type t))
unfolding classify_append_response append_response_from_wire vote vote_parts log_id log_id_parts
append_response_from_wire-classify = (classify_lem, λ t o v h. ground arith)

-- The response of the handler, as the client decodes it.
answered :
    (r : AppendEntriesResponse) (v : Vote)
    → let w = classify_append_response r (vote_parts v) in
      append_response_from_wire w.response_type
        (option_map of_proto_log_id (option_map to_proto_log_id w.partial_index))
        w.vote
      ≡ done (relabel_response v.leader_id.node_id r)
unfolding classify_append_response append_response_from_wire vote vote_parts log_id log_id_parts
answered success v = refl
answered (partial_success none) v = refl
answered (partial_success (some l)) v = refl
answered conflict v = refl
answered (higher_vote u) v = refl

-- One append-entries call through the client and the server. The follower sees the leader's request,
-- every entry as it was sent, its two log ids under the leader's node id, and the leader sees the
-- follower's response, a partial success with its log id under the leader's node id; a failure of
-- the follower is an error of the call.
pub append_entries_rpc :
    {E : Type 0} (s : Serde E) (raft : AppendEntriesRequest E → Option AppendEntriesResponse)
    (rpc : AppendEntriesRequest E)
    → append_entries_call s (append_entries_handler s raft) rpc
      ≡ (elim (raft (relabel_request rpc)) [
        | none ↦ failed (call internal)
        | some r ↦ done (relabel_response rpc.vote.leader_id.node_id r)
      ])
unfolding append_entries_call append_entries_handler append_request vote vote_parts
append_entries_rpc s raft rpc =
    rw
      (
        decode-map s rpc.entries,
        log_id-wire_request rpc.vote.leader_id.node_id rpc.prev_log_id,
        log_id-wire_request rpc.vote.leader_id.node_id rpc.leader_commit,
      )
      (elim (Option-cases (raft (relabel_request rpc))) [
        | inl e ↦ rw e refl
        | inr (r, e) ↦ rw (e, answered r rpc.vote) refl
      ])
