-- ===== src/Lib.antt =====
-- InfoVulcan, a ticketing system of Rust services that replicate their state with Raft: the `db`
-- service stores tickets and users in an embedded key-value database (sled) with secondary
-- indexes, the `custodian` service in front of it encrypts tickets and hands out exclusive locks
-- on them, `auth` logs users in and issues session tokens, `admin` manages the users, `lbrp` is
-- the REST gateway in front of all of them, and `shared` holds the types that they use. A write
-- reaches every node of a service as an entry of its Raft log, and the state machine of the node
-- applies the committed entries in order.
--
-- Parts and files:
--  - Common: shared helpers. Numbers are the native naturals; `Common.Word` writes a u64 as eight
--    big-endian bytes, `Common.Int` is i64 with the wrap-around of `as u64` and of addition,
--    `Common.Outcome` is the result of a call with `?` as a bind, `Common.Action` a call that
--    changes a state and may fail. Text and keys are lists of bytes. Grpc has the codes of a
--    status.
--  - Sled: the sled crate as a parameter. A database is an abstract state with the calls the
--    repository makes and their documented behaviour; Sled/Model is an instance, for the tests.
--    Opening a tree, flushing and disk failures are left out.
--  - Serde: serde_json as a parameter, of which only is used that a written value reads back;
--    Serde/Codec has instances, for the tests.
--  - Openraft: the fields of the openraft types that the repository builds and reads.
--  - Db: db/src/storage.rs (Types, Storage, Tickets, Users, Query) and the state machine of
--    db/src/raft.rs (Machine). An operation takes the database and returns its result with the new
--    database; an error keeps the database as it was when the error arose. A Backend is the
--    database with the JSON form of the two row types. A counter or a row that does not parse is
--    the error `corrupt`, a missing row `not_found`.
--  - Db also holds the log store and the snapshots of db/src/raft.rs (RaftLog, Snapshot) and the
--    calls of db/src/server.rs about tickets (Server), users (Server/Users) and keys and values
--    (Server/KeyValues), where the write of openraft is a parameter that fails or commits and
--    applies the entry; calls are looked at one at a time. In RaftLog the arithmetic on indexes
--    wraps around as in a release build.
--  - Custodian: the lock calls of custodian/src/storage.rs (Types, Locks, Storage) and the lock
--    state machine of custodian/src/raft.rs (Machine), with its loop over entries (Machine/Log),
--    its snapshots (Snapshot) and its log store (RaftLog), whose code is that of db; of
--    custodian/src/server.rs the update of a ticket (Server), its creation, reading and queries
--    (Server/Calls), the calls about locks (Server/LockCalls) and the conversions to the messages
--    of the protocol (Wire); and the ticket calls of custodian/src/db_client.rs (DbClient); and
--    the Raft messages of custodian/src/network.rs and custodian/src/raft_service.rs
--    (RaftService), which are those of db. Time is the time stamp in a command, or an argument.
--    Unix seconds become a date by a parameter, as chrono does it; a user id is the 128-bit number
--    of its UUID. The encryption of a ticket and the database client are parameters of Server;
--    DbClient joins it to Db.
--  - Shared: of shared/src/ticket.rs the byte-sized enums (Codes), the life cycle of a ticket
--    (Status), the ticket itself (Ticket) and MAC addresses (Mac); the roles, users and sessions
--    of shared/src/user.rs (User); the envelope of shared/src/encryption.rs (Encryption) over the
--    ciphers, the key encapsulation and the key derivation as parameters, the random bytes of a
--    call being arguments; the resolution of endpoints of shared/src/discovery.rs (Discovery); the
--    stored key pair of shared/src/key_store.rs (KeyStore).
--  - Kv: the generic calls of the database as the clients in auth and admin see them, a parameter
--    with the law that a put is read back, which Db/Server/KeyValues/Store fills.
--  - Accounts: what auth/src/server.rs and admin/src/server.rs share: where the two records of an
--    account are kept and how they are sealed. Accounts/Journey is about both services on one
--    database with the same keys, Accounts/Replicated sets it on Db; Accounts/Deployment is a
--    concrete one, for the tests.
--  - Auth: auth/src/server.rs. Password hashing, one-time codes and signed tokens are parameters.
--  - Admin: admin/src/server.rs, the users and their audit trail. A failure in the middle of a
--    call keeps the writes that were made.
--  - Lbrp: lbrp/src/error.rs and lbrp/src/middleware.rs (Lbrp), the handlers and the router of
--    lbrp/src/routes.rs (Routes), the next actions of its JSON (Actions) and the reload of
--    endpoints of lbrp/src/discovery.rs (Discovery), a tick of its timer being an argument. The
--    clients of the services are parameters; for two of them the theorems take Auth and Admin.
--  - Honeypot: the download of honeypot/src/service.rs.
--  - RaftRpc: the conversions of raft-rpc/src/lib.rs, and one call from the client of
--    db/src/network.rs through the server of db/src/raft_service.rs and back (Service). The node
--    that answers and the transport are parameters.
--
-- A reader of the ticket theorems starts at Db/Tickets/Invariant: `row` reads the table of
-- tickets, `last_id` the counter, and `IsConsistent` says that each of the seven index trees holds
-- exactly the entries of the rows that are not deleted. Ids are below 2 ^ 64, which bounds the
-- length of a log; all loops are recursion on lists, so there is no fuel.
--
-- Not modelled: the transfer of snapshots between nodes, health and cluster reports, the service
-- chaos, the reports of the service honeypot, the user interface under web, the start of the
-- processes, and what only does input and output.
pub mod Common
pub mod Sled
pub mod Serde
pub mod Grpc
pub mod Honeypot
pub mod Lbrp
pub mod Kv
pub mod Accounts
pub mod Auth
pub mod Admin
pub mod Db
pub mod Custodian
pub mod Shared
pub mod Openraft
pub mod RaftRpc
