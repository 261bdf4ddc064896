-- ===== src/Custodian/RaftService.antt =====
-- The Raft transport of the custodian: custodian/src/network.rs and custodian/src/raft_service.rs.
-- The calls and their handlers do what those of db do, with messages of the same fields, for entries
-- that carry lock commands; so they are those of RaftRpc/Service at these entries.
use infovulcan.Common.{ℕ, ◌≡◌, Option, none, some, ◌++◌, arith, ◌==◌, if◌then◌else◌, Bytes, ascii}
use infovulcan.Common.Outcome.{Outcome}
use infovulcan.Serde.{Serde}
use infovulcan.Openraft.{Entry, VoteRequest, VoteResponse, AppendEntriesResponse}
use infovulcan.RaftRpc.{AppendEntriesRequest}
use infovulcan.RaftRpc.Service
use infovulcan.RaftRpc.Service.{
  Status, RpcError, ProtoVoteRequest, ProtoVoteResponse, ProtoAppendEntriesRequest,
  ProtoAppendEntriesResponse,
}
use infovulcan.Custodian.Types.{LockCommand}

-- `CustodianNetworkFactory`: the addresses of the nodes that are known by their id.
pub record NetworkFactory : Type 0 where
  pub peers : ℕ → Option Bytes

abbrev pub new : NetworkFactory
new = record { peers = λ i. none }

unfoldable pub get_peer_address : ℕ → NetworkFactory → Option Bytes
get_peer_address node_id f = f.peers node_id

unfoldable pub add_node : ℕ → Bytes → NetworkFactory → NetworkFactory
add_node node_id address f = record {
  peers = λ i. if node_id == i then some address else f.peers i;
}

abbrev or_default : Option Bytes → Bytes → Bytes
or_default none b = b
or_default (some a) b = a

-- The address of the client that `new_client` makes, for a node with the given `addr`.
unfoldable pub client_address : NetworkFactory → (target : ℕ) → (addr : Bytes) → Bytes
client_address f target addr =
    or_default (get_peer_address target f) (ascii "http://" ++ addr ++ ascii ":8081")

-- A node that was added is called at its address, whatever address its membership has, and the others
-- are called where they were.
pub client_address-add_node :
    (f : NetworkFactory) (node_id target : ℕ) (address addr : Bytes)
    → client_address (add_node node_id address f) target addr
      ≡ (if node_id == target then address else client_address f target addr)
unfolding client_address get_peer_address add_node
client_address-add_node f node_id target address addr = ground arith

abbrev pub vote_handler :
    (VoteRequest → Option VoteResponse) → ProtoVoteRequest → Outcome Status ProtoVoteResponse
vote_handler raft req = Service.vote_handler raft req

abbrev pub vote_call :
    (ProtoVoteRequest → Outcome Status ProtoVoteResponse)
    → VoteRequest
    → Outcome RpcError VoteResponse
vote_call send rpc = Service.vote_call send rpc

module _ {M : Type 0} (s : Serde (Entry LockCommand M)) where
  abbrev pub append_entries_handler :
      (AppendEntriesRequest (Entry LockCommand M) → Option AppendEntriesResponse)
      → ProtoAppendEntriesRequest
      → Outcome Status ProtoAppendEntriesResponse
  append_entries_handler raft req = Service.append_entries_handler s raft req

  abbrev pub append_entries_call :
      (ProtoAppendEntriesRequest → Outcome Status ProtoAppendEntriesResponse)
      → AppendEntriesRequest (Entry LockCommand M)
      → Outcome RpcError AppendEntriesResponse
  append_entries_call send rpc = Service.append_entries_call s send rpc
