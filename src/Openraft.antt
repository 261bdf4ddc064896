-- ===== src/Openraft.antt =====
-- The types of the `openraft` crate, as far as the repository builds them and reads them: the fields
-- and variants are those that raft-rpc/src/lib.rs and db/src/raft.rs name. Node ids are `u64`.
use infovulcan.Common.{ℕ, Bool, Option}

pub record LeaderId : Type 0 where
  pub term : ℕ
  pub node_id : ℕ

pub record LogId : Type 0 where
  pub leader_id : LeaderId
  pub index : ℕ

pub record Vote : Type 0 where
  pub leader_id : LeaderId
  pub committed : Bool

pub record VoteRequest : Type 0 where
  pub vote : Vote
  pub last_log_id : Option LogId

pub record VoteResponse : Type 0 where
  pub vote : Vote
  pub vote_granted : Bool
  pub last_log_id : Option LogId

pub data AppendEntriesResponse : Type 0 where
  success : AppendEntriesResponse
  partial_success : Option LogId → AppendEntriesResponse
  conflict : AppendEntriesResponse
  higher_vote : Vote → AppendEntriesResponse

pub data EntryPayload (D M : Type 0) : Type 0 where
  blank : EntryPayload D M
  normal : D → EntryPayload D M
  membership : M → EntryPayload D M

pub record Entry (D M : Type 0) : Type 0 where
  pub log_id : LogId
  pub payload : EntryPayload D M
