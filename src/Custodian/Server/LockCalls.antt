-- ===== src/Custodian/Server/LockCalls.antt =====
-- The calls of custodian/src/server.rs that take and give back a lock. A command is committed by
-- openraft, whose `client_write` is a parameter; the clock is an argument.
pub mod Answers
mod Tests
use infovulcan.Common.{
  ℕ, zero, suc, ◌+◌, ◌-◌, ◌*◌, ◌/◌, ◌%◌, ◌^◌, ◌≤◌, ◌<◌, ◌≡◌, refl, sym, ap, ◌∙◌, subst, ◌≢◌, ◌↔◌,
  ◌⊎◌, inl, inr, Bool, true, false, not, ◌&&◌, ◌||◌, Option, none, some, List, [], ◌∷◌, ◌++◌, map,
  arith, ltb, leb, ◌==◌, if◌then◌else◌, ltb→lt, lt→ltb, leb→le, le→leb, ==_iff, tests, Bool-cases,
  Option-cases, length, length-append, take, drop, replicate, filter, In, In-filter, of_In-filter,
  All, All-In, Bytes, ascii, beq, beq_refl, eq_of_beq, starts_with, starts_with-append, blt, ble,
  blt_irrefl, blt_trans, blt_total, Error, not_found, corrupt, Result, ok, err, or_err,
  Result-cases,
}
use infovulcan.Common.Int.{ℤ, pos, negsuc}
use infovulcan.Common.Outcome.{Outcome, done, failed, ok_or}
use infovulcan.Custodian.Types.{
  Backend, LockCommand, acquire_lock, release_lock, LockError, LockResponse,
}
use infovulcan.Custodian.Locks.{Lock, get_lock_info}
use infovulcan.Custodian.Server.{Status, invalid_argument, internal}

-- A request to take or to give back a lock.
pub record LockRequest : Type 0 where
  pub ticket_id : ℕ
  pub user_uuid : Bytes

-- The reason stands for its text, which is empty when there is none.
pub record ProtoLockResponse : Type 0 where
  pub success : Bool
  pub error : Option LockError
  pub current_holder : Option Bytes

abbrev is_digit : ℕ → Bool
is_digit c = leb 48 c && leb c 57

unfoldable pub parse_digits : ℕ → Bytes → Option ℕ
parse_digits n [] = some n
parse_digits n (c ∷ cs) =
    let rest = parse_digits (n * 10 + (c - 48)) cs in if is_digit c then rest else none

-- `parse` to an i64: an optional sign, and digits, of a number in range.
abbrev in_i64 : (negative : Bool) → Option ℕ → Option ℤ
in_i64 negative none = none
in_i64 true (some zero) = some (pos 0)
in_i64 true (some (suc n)) = if ltb n 0x8000000000000000 then some (negsuc n) else none
in_i64 false (some n) = if ltb n 0x8000000000000000 then some (pos n) else none

abbrev parse_number : (negative : Bool) → Bytes → Option ℤ
parse_number negative [] = none
parse_number negative (c ∷ cs) = in_i64 negative (parse_digits 0 (c ∷ cs))

unfoldable pub parse_i64 : Bytes → Option ℤ
parse_i64 [] = none
parse_i64 (c ∷ cs) =
    if c == 45
    then parse_number true cs
    else if c == 43
    then parse_number false cs
    else parse_number false (c ∷ cs)

abbrev or_900 : Option ℤ → ℤ
or_900 none = pos 900
or_900 (some n) = n

-- From the variable `LOCK_TTL_SECS`.
unfoldable pub lock_ttl_secs : Option Bytes → ℤ
lock_ttl_secs none = pos 900
lock_ttl_secs (some v) = or_900 (parse_i64 v)

module _ (b : Backend) (parse_uuid : Bytes → Option ℕ) (uuid_string : ℕ → Bytes) where
  abbrev pub ClientWrite : Type 0
  ClientWrite = LockCommand → b.sled.Db → Option LockResponse × b.sled.Db

  -- `ok().flatten()`, and the holder in text.
  unfoldable pub holder_of : Result (Option (Lock b)) → Option Bytes
  holder_of (err e) = none
  holder_of (ok none) = none
  holder_of (ok (some lock)) = some (uuid_string lock.user_id)

  unfoldable pub acquire_answer :
      (ticket_id : ℕ) → Option LockResponse → b.sled.Db → Outcome Status ProtoLockResponse
  acquire_answer ticket_id none d = failed internal
  acquire_answer ticket_id (some r) d = done (record {
    success = r.success;
    error = r.error;
    current_holder = if r.success then none else holder_of (get_lock_info b d ticket_id);
  })

  unfoldable pub acquire_lock_call :
      ClientWrite
      → (now : ℤ) → (ttl_var : Option Bytes) → LockRequest
      → b.sled.Db
      → Outcome Status ProtoLockResponse × b.sled.Db
  acquire_lock_call client_write now ttl_var req d = elim (parse_uuid req.user_uuid) [
    | none ↦ (failed invalid_argument, d)
    | some user_id ↦
        let written =
          client_write (acquire_lock req.ticket_id user_id now (lock_ttl_secs ttl_var)) d in
        (acquire_answer req.ticket_id written.0 written.1, written.1)
  ]

  unfoldable pub release_answer : Option LockResponse → Outcome Status ProtoLockResponse
  release_answer none = failed internal
  release_answer (some r) =
      done (record { success = r.success; error = r.error; current_holder = none })

  unfoldable pub release_lock_call :
      ClientWrite → LockRequest → b.sled.Db → Outcome Status ProtoLockResponse × b.sled.Db
  release_lock_call client_write req d = elim (parse_uuid req.user_uuid) [
    | none ↦ (failed invalid_argument, d)
    | some user_id ↦
        let written = client_write (release_lock req.ticket_id user_id) d in
        (release_answer written.0, written.1)
  ]
