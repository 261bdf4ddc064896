-- ===== src/Custodian/Machine/Refinement.antt =====
-- The lock state machine of custodian/src/raft.rs implements a table with one policy: who may change
-- the lock of a ticket.
use infovulcan.Common.{
  ℕ, ◌^◌, ◌<◌, ◌≡◌, Bool, true, false, ◌&&◌, ◌||◌, Option, none, some, arith, ◌==◌, if◌then◌else◌,
  ok,
}
use infovulcan.Custodian.Types.{
  Backend, LockCommand, acquire_lock, release_lock, locked_by, held_by_another, is_expired,
  LockResponse,
}
use infovulcan.Custodian.Locks.{Lock, new_lock}
use infovulcan.Custodian.Locks.Table.{
  lock, IsReadable, get_lock_info-lock, acquire_lock_at-IsReadable, lock-acquire_lock_at,
  release-IsReadable, lock-release,
}
use infovulcan.Custodian.Machine.{apply, granted, refused}

abbrev pub ticket_of : LockCommand → ℕ
ticket_of (acquire_lock t u a s) = t
ticket_of (release_lock t u) = t

module _ (b : Backend) where
  -- The policy. A free ticket is anybody's; a held one is the holder's, and may be taken over once
  -- the lock has expired.
  unfoldable pub permits : Option (Lock b) → LockCommand → Bool
  permits none c = true
  permits (some l) (acquire_lock t u at_unix ttl_secs) = l.user_id == u || is_expired l at_unix
  permits (some l) (release_lock t u) = l.user_id == u

  unfoldable pub outcome : LockCommand → Option (Lock b)
  outcome (acquire_lock t u at_unix ttl_secs) = some (new_lock b t u at_unix ttl_secs)
  outcome (release_lock t u) = none

  unfoldable pub step : LockCommand → (ℕ → Option (Lock b)) → ℕ → Option (Lock b)
  step c table i =
      if permits (table (ticket_of c)) c && ticket_of c == i then outcome c else table i

  -- The answer that the policy calls for.
  unfoldable pub answer : LockCommand → Option (Lock b) → LockResponse
  answer c none = granted
  answer (acquire_lock t u at_unix ttl_secs) (some l) =
      if permits (some l) (acquire_lock t u at_unix ttl_secs)
      then granted
      else refused (locked_by t l.user_id)
  answer (release_lock t u) (some l) =
      if permits (some l) (release_lock t u) then granted else refused (held_by_another t)

  -- On a database whose locks are readable, every command on a `u64` ticket succeeds as a call,
  -- answers as the policy says, leaves the locks readable, and changes the table of locks as the
  -- policy says; a refused command changes nothing at all.
  pub apply_refines :
      (c : LockCommand) (d : b.sled.Db)
      → IsReadable b d
      → ticket_of c < 2 ^ 64
      → ((apply b c d).0 ≡ ok (answer c (lock b d (ticket_of c))))
        × IsReadable b (apply b c d).1
        × ((i : ℕ) → i < 2 ^ 64 → lock b (apply b c d).1 i ≡ step c (lock b d) i)
        × (permits (lock b d (ticket_of c)) c ≡ false → (apply b c d).1 ≡ d)
  unfolding apply step answer permits outcome
  apply_refines (acquire_lock t u at_unix ttl_secs) d r ht = (
    ground (arith, get_lock_info-lock b d t r),
    ground (arith, acquire_lock_at-IsReadable b d t u at_unix ttl_secs r),
    λ i hi.
        ground (
          arith,
          get_lock_info-lock b d t r,
          lock-acquire_lock_at b d t u at_unix ttl_secs i ht hi,
        ),
    λ h. ground (arith, get_lock_info-lock b d t r),
  )
  apply_refines (release_lock t u) d r ht = (
    ground (arith, get_lock_info-lock b d t r),
    ground (arith, release-IsReadable b d t r),
    λ i hi. ground (arith, get_lock_info-lock b d t r, lock-release b d t i ht hi),
    λ h. ground (arith, get_lock_info-lock b d t r),
  )
