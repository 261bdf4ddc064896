-- ===== src/RaftRpc.antt =====
-- The conversions between openraft and the wire of raft-rpc/src/lib.rs.
pub mod Wire
pub mod Service
use infovulcan.Common.{
  ℕ, zero, suc, ◌+◌, ◌-◌, ◌*◌, ◌/◌, ◌%◌, ◌^◌, ◌≤◌, ◌<◌, ◌≡◌, refl, sym, ap, ◌∙◌, subst, ◌≢◌, ◌↔◌,
  ◌⊎◌, inl, inr, Bool, true, false, not, ◌&&◌, ◌||◌, Option, none, some, List, [], ◌∷◌, ◌++◌, map,
  arith, ltb, leb, ◌==◌, if◌then◌else◌, ltb→lt, lt→ltb, leb→le, le→leb, ==_iff, tests, Bool-cases,
  Option-cases, length, length-append, take, drop, replicate, filter, In, In-filter, of_In-filter,
  All, All-In, Bytes, ascii, beq, beq_refl, eq_of_beq, starts_with, starts_with-append, blt, ble,
  blt_irrefl, blt_trans, blt_total, Error, not_found, corrupt, Result, ok, err, or_err,
}
use infovulcan.Common.Outcome.{Outcome, done, failed}
use infovulcan.Openraft.{
  LeaderId, LogId, Vote, VoteRequest, AppendEntriesResponse, success, partial_success, conflict,
  higher_vote,
}
use infovulcan.Serde.{Serde}

pub data WireError : Type 0 where
  unknown_response_type : ℕ → WireError
  entry_decode : WireError

-- `(term, node_id, committed)`
abbrev pub VoteParts : Type 0
VoteParts = ℕ × ℕ × Bool

-- `(term, index)`
abbrev pub LogIdParts : Type 0
LogIdParts = ℕ × ℕ

abbrev pub option_map {ℓ κ} : {A : Type ℓ} {B : Type κ} → (A → B) → Option A → Option B
option_map f none = none
option_map f (some a) = some (f a)

unfoldable pub vote : VoteParts → Vote
vote (term, node_id, committed) = record {
  leader_id = record { term = term; node_id = node_id };
  committed = committed;
}

unfoldable pub vote_parts : Vote → VoteParts
vote_parts v = (v.leader_id.term, v.leader_id.node_id, v.committed)

unfoldable pub log_id : ℕ → LogIdParts → LogId
log_id node_id (term, index) = record {
  leader_id = record { term = term; node_id = node_id };
  index = index;
}

unfoldable pub log_id_parts : LogId → LogIdParts
log_id_parts l = (l.leader_id.term, l.index)

pub record AppendWire : Type 0 where
  pub response_type : ℕ
  pub partial_index : Option LogIdParts
  pub vote : VoteParts

unfoldable pub classify_append_response : AppendEntriesResponse → VoteParts → AppendWire
unfolding log_id_parts vote_parts
classify_append_response success echoed_vote = record {
  response_type = 0;
  partial_index = none;
  vote = echoed_vote;
}
classify_append_response (partial_success matching) echoed_vote = record {
  response_type = 1;
  partial_index = option_map log_id_parts matching;
  vote = echoed_vote;
}
classify_append_response conflict echoed_vote = record {
  response_type = 2;
  partial_index = none;
  vote = echoed_vote;
}
classify_append_response (higher_vote higher) echoed_vote = record {
  response_type = 3;
  partial_index = none;
  vote = vote_parts higher;
}

unfoldable pub append_response_from_wire :
    ℕ → Option LogIdParts → VoteParts → Outcome WireError AppendEntriesResponse
append_response_from_wire response_type partial_index (term, node_id, committed) =
    if response_type == 0
    then done success
    else if response_type == 1
    then done (partial_success (option_map (log_id node_id) partial_index))
    else if response_type == 2
    then done conflict
    else if response_type == 3
    then done (higher_vote (vote (term, node_id, committed)))
    else failed (unknown_response_type response_type)

unfoldable pub vote_request : VoteParts → Option LogIdParts → VoteRequest
vote_request (term, node_id, committed) last_log_id = record {
  vote = vote (term, node_id, committed);
  last_log_id = option_map (log_id node_id) last_log_id;
}

-- The requests of openraft that carry entries, for one type of entries.
module _ (E : Type 0) where
  pub record AppendEntriesRequest : Type 0 where
    pub vote : Vote
    pub prev_log_id : Option LogId
    pub entries : List E
    pub leader_commit : Option LogId

  unfoldable pub append_request :
      VoteParts → Option LogIdParts → List E → Option LogIdParts → AppendEntriesRequest
  append_request (term, node_id, committed) prev_log_id entries leader_commit = record {
    vote = infovulcan.RaftRpc.vote (term, node_id, committed);
    prev_log_id = option_map (log_id node_id) prev_log_id;
    entries = entries;
    leader_commit = option_map (log_id node_id) leader_commit;
  }

  unfoldable pub decode_entries : Serde E → List Bytes → Outcome WireError (List E)
  decode_entries s [] = done []
  decode_entries s (bytes ∷ raw) = elim (s.from_slice bytes) [
    | none ↦ failed entry_decode
    | some e ↦ elim (decode_entries s raw) [ failed x ↦ failed x | done es ↦ done (e ∷ es) ]
  ]
