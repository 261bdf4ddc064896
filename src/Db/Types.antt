-- ===== src/Db/Types.antt =====
-- The records and constants of db/src/storage.rs.
use infovulcan.Common.{ℕ, Bool, Option, List, Bytes, ascii}
use infovulcan.Common.Int.{ℤ}
use infovulcan.Sled.{Sled}
use infovulcan.Serde.{Serde}

abbrev pub tree_raft_metadata : Bytes
tree_raft_metadata = ascii "raft_metadata"

abbrev pub tree_raft_state : Bytes
tree_raft_state = ascii "raft_state"

abbrev pub tree_raft_log : Bytes
tree_raft_log = ascii "raft_log"

abbrev pub tree_tickets : Bytes
tree_tickets = ascii "tickets"

abbrev pub tree_users : Bytes
tree_users = ascii "users"

abbrev pub tree_seq : Bytes
tree_seq = ascii "seq"

abbrev pub seq_ticket : Bytes
seq_ticket = ascii "ticket"

abbrev pub idx_ticket_status : Bytes
idx_ticket_status = ascii "idx_ticket_status"

abbrev pub idx_ticket_assignee : Bytes
idx_ticket_assignee = ascii "idx_ticket_assignee"

abbrev pub idx_ticket_project : Bytes
idx_ticket_project = ascii "idx_ticket_project"

abbrev pub idx_ticket_account : Bytes
idx_ticket_account = ascii "idx_ticket_account"

abbrev pub idx_ticket_created : Bytes
idx_ticket_created = ascii "idx_ticket_created"

abbrev pub idx_ticket_updated : Bytes
idx_ticket_updated = ascii "idx_ticket_updated"

abbrev pub idx_ticket_tracking : Bytes
idx_ticket_tracking = ascii "idx_ticket_tracking"

abbrev pub idx_user_name : Bytes
idx_user_name = ascii "idx_user_name"

abbrev pub idx_user_email : Bytes
idx_user_email = ascii "idx_user_email"

abbrev pub idx_user_role : Bytes
idx_user_role = ascii "idx_user_role"

pub record TicketIndexFields : Type 0 where
  pub status : ℕ
  pub account_uuid : Bytes
  pub assigned_to_uuid : Option Bytes
  pub project : Bytes
  pub tracking_url : Option Bytes
  pub created_at_unix : ℤ
  pub updated_at_unix : ℤ

pub record StoredTicket : Type 0 where
  pub body : Bytes
  pub index : TicketIndexFields
  pub deleted : Bool
  pub deleted_at_unix : ℤ

pub record UserIndexFields : Type 0 where
  pub username : Bytes
  pub email : Bytes
  pub role : ℕ

pub record StoredUser : Type 0 where
  pub body : Bytes
  pub index : UserIndexFields
  pub deleted : Bool
  pub deleted_at_unix : ℤ

-- A limit of 0 means no limit.
pub record TicketQuery : Type 0 where
  pub status : Option ℕ
  pub assigned_to_uuid : Option Bytes
  pub account_uuid : Option Bytes
  pub project : Option Bytes
  pub include_deleted : Bool
  pub limit : ℕ

pub data LogEntry : Type 0 where
  put : (collection key value : Bytes) → LogEntry
  get : (collection key : Bytes) → LogEntry
  delete : (collection key : Bytes) → LogEntry
  batch_put : (collection : Bytes) (pairs : List (Bytes × Bytes)) → LogEntry
  create_ticket : (body : Bytes) (index : TicketIndexFields) → LogEntry
  update_ticket : (ticket_id : ℕ) (body : Bytes) (index : TicketIndexFields) → LogEntry
  soft_delete_ticket : (ticket_id : ℕ) (at_unix : ℤ) → LogEntry
  create_user : (user_uuid body : Bytes) (index : UserIndexFields) → LogEntry
  update_user : (user_uuid body : Bytes) (index : UserIndexFields) → LogEntry
  soft_delete_user : (user_uuid : Bytes) (at_unix : ℤ) → LogEntry

-- What the storage layer is built on: the embedded database and the JSON form of its records.
pub record Backend : Type 1 where
  pub sled : Sled
  pub tickets : Serde StoredTicket
  pub users : Serde StoredUser
