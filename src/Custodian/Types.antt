-- ===== src/Custodian/Types.antt =====
-- The records of custodian/src/storage.rs and custodian/src/raft.rs.
use infovulcan.Common.{ℕ, Bool, not, ◌&&◌, Option, Bytes, ascii}
use infovulcan.Common.Int.{ℤ, pos, le_ℤ}
use infovulcan.Sled.{Sled}
use infovulcan.Serde.{Serde}

abbrev pub tree_locks : Bytes
tree_locks = ascii "locks"

-- A `Uuid` is its 128-bit number. `DateTime<Utc>` of the `chrono` crate is a parameter.
pub record LockInfo (DateTime : Type 0) : Type 0 where
  pub ticket_id : ℕ
  pub user_id : ℕ
  pub acquired_at : DateTime
  pub expires_at_unix : ℤ

abbrev pub is_zero : ℤ → Bool
is_zero z = le_ℤ z (pos 0) && le_ℤ (pos 0) z

-- An expiry of 0 means that the lock does not expire.
unfoldable pub is_expired : {DateTime : Type 0} → LockInfo DateTime → ℤ → Bool
is_expired lock now_unix = not (is_zero lock.expires_at_unix) && le_ℤ lock.expires_at_unix now_unix

pub data LockCommand : Type 0 where
  acquire_lock : (ticket_id user_id : ℕ) (at_unix ttl_secs : ℤ) → LockCommand
  release_lock : (ticket_id user_id : ℕ) → LockCommand

-- The messages of a refused command, by what is formatted into them.
pub data LockError : Type 0 where
  locked_by : (ticket_id user_id : ℕ) → LockError
  held_by_another : (ticket_id : ℕ) → LockError

pub record LockResponse : Type 0 where
  pub success : Bool
  pub error : Option LockError
  pub value : Option Bytes

-- What the storage layer is built on: the embedded database, the JSON form of a lock, and the
-- conversion of unix seconds to a date, which can fail, with the default date.
pub record Backend : Type 1 where
  pub sled : Sled
  pub DateTime : Type 0
  pub from_timestamp : ℤ → Option DateTime
  pub default_time : DateTime
  pub locks : Serde (LockInfo DateTime)
