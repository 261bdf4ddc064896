-- ===== src/Custodian/Server/LockCalls/Answers.antt =====
-- What the acquisition of a lock through custodian/src/server.rs tells its caller.
use infovulcan.Common.{
  ℕ, ◌^◌, ◌<◌, ◌≡◌, refl, sym, ap, ◌∙◌, subst, ◌⊎◌, inl, inr, true, false, Option, none, some,
  arith, Bool-cases, Option-cases, Bytes, Result, ok,
}
use infovulcan.Common.Int.{ℤ, pos}
use infovulcan.Common.Outcome.{Outcome, done, failed}
use infovulcan.Custodian.Types.{Backend, LockCommand, acquire_lock, locked_by, LockResponse}
use infovulcan.Custodian.Locks.{Lock, new_lock}
use infovulcan.Custodian.Locks.Table.{lock, IsReadable, get_lock_info-lock}
use infovulcan.Custodian.Machine.{apply, granted, refused}
use infovulcan.Custodian.Machine.Refinement.{permits, step, outcome, answer, apply_refines}
use infovulcan.Custodian.Server.{Status, internal}
use infovulcan.Custodian.Server.LockCalls.{
  ClientWrite, LockRequest, ProtoLockResponse, lock_ttl_secs, parse_i64, holder_of, acquire_answer,
  acquire_lock_call,
}

-- The time to live that a variable stands for: its number, or 900 seconds where it is not set or is no
-- number.
abbrev pub IsTtl : Option Bytes → ℤ → Type 0
IsTtl none ttl = ttl ≡ pos 900
IsTtl (some v) ttl = ((parse_i64 v ≡ none) × (ttl ≡ pos 900)) ⊎ (parse_i64 v ≡ some ttl)

lock_ttl_secs-IsTtl : (ttl_var : Option Bytes) → IsTtl ttl_var (lock_ttl_secs ttl_var)
unfolding lock_ttl_secs
lock_ttl_secs-IsTtl none = refl
lock_ttl_secs-IsTtl (some v) = elim (Option-cases (parse_i64 v)) [
  | inl e ↦ inl (e, rw (lock_ttl_secs, e) refl)
  | inr (n, e) ↦ inr (rw (lock_ttl_secs, e) refl)
]

module _ (b : Backend) (parse_uuid : Bytes → Option ℕ) (uuid_string : ℕ → Bytes) where
  -- A write fails, or the command is applied and its answer returned.
  unfoldable pub Commits : ClientWrite b parse_uuid uuid_string → Type 0
  Commits client_write =
      (c : LockCommand) (d : b.sled.Db)
      → ((client_write c d).0 ≡ none)
        ⊎ ((r : LockResponse) × (d' : b.sled.Db) × (apply b c d ≡ (ok r, d'))
            × (client_write c d ≡ (some r, d')))

  abbrev pub granted_answer : ProtoLockResponse
  granted_answer = record { success = true; error = none; current_holder = none }

  abbrev pub refused_answer : (ticket_id holder : ℕ) → ProtoLockResponse
  refused_answer ticket_id holder = record {
    success = false;
    error = some (locked_by ticket_id holder);
    current_holder = some (uuid_string holder);
  }

  -- The call that got the lock, for a user who may have it.
  abbrev pub Gets :
      LockCommand → ℕ → Lock b → Outcome Status ProtoLockResponse × b.sled.Db → b.sled.Db → Type 0
  Gets c t l r d =
      (permits b (lock b d t) c ≡ true)
      × (r.0 ≡ done granted_answer)
      × (lock b r.1 t ≡ some l)
      × IsReadable b r.1

  -- The call that was refused, because of the lock of another user.
  abbrev pub Blocked :
      LockCommand → ℕ → Outcome Status ProtoLockResponse × b.sled.Db → b.sled.Db → Type 0
  Blocked c t r d =
      (l : Lock b) × (lock b d t ≡ some l)
      × (permits b (some l) c ≡ false)
      × (r.0 ≡ done (refused_answer t l.user_id))
      × (r.1 ≡ d)

  failed_call :
      (client_write : ClientWrite b parse_uuid uuid_string) (now : ℤ) (ttl_var : Option Bytes)
      (req : LockRequest) (user_id : ℕ) (d : b.sled.Db)
      → parse_uuid req.user_uuid ≡ some user_id
      → (client_write (acquire_lock req.ticket_id user_id now (lock_ttl_secs ttl_var)) d).0 ≡ none
      → (acquire_lock_call b parse_uuid uuid_string client_write now ttl_var req d).0
        ≡ failed internal
  unfolding acquire_lock_call acquire_answer
  failed_call client_write now ttl_var req user_id d p e = ground (arith, p, e)

  answered_call :
      (client_write : ClientWrite b parse_uuid uuid_string) (now : ℤ) (ttl_var : Option Bytes)
      (req : LockRequest) (user_id : ℕ) (d d' : b.sled.Db) (r : LockResponse)
      → parse_uuid req.user_uuid ≡ some user_id
      → client_write (acquire_lock req.ticket_id user_id now (lock_ttl_secs ttl_var)) d
        ≡ (some r, d')
      → acquire_lock_call b parse_uuid uuid_string client_write now ttl_var req d
        ≡ (acquire_answer b parse_uuid uuid_string req.ticket_id (some r) d', d')
  unfolding acquire_lock_call
  answered_call client_write now ttl_var req user_id d d' r p e = rw (acquire_lock_call, p, e) refl

  answer-granted :
      (t u : ℕ) (now ttl : ℤ) (o : Option (Lock b))
      → permits b o (acquire_lock t u now ttl) ≡ true
      → answer b (acquire_lock t u now ttl) o ≡ granted
  unfolding answer
  answer-granted t u now ttl none p = refl
  answer-granted t u now ttl (some l) p = rw p refl

  answer-refused :
      (t u : ℕ) (now ttl : ℤ) (l : Lock b)
      → permits b (some l) (acquire_lock t u now ttl) ≡ false
      → answer b (acquire_lock t u now ttl) (some l) ≡ refused (locked_by t l.user_id)
  unfolding answer
  answer-refused t u now ttl l p = rw p refl

  acquire_answer-granted :
      (t : ℕ) (d : b.sled.Db)
      → acquire_answer b parse_uuid uuid_string t (some granted) d ≡ done granted_answer
  unfolding acquire_answer
  acquire_answer-granted t d = refl

  step-permits :
      (t u : ℕ) (now ttl : ℤ) (d : b.sled.Db)
      → permits b (lock b d t) (acquire_lock t u now ttl) ≡ true
      → step b (acquire_lock t u now ttl) (lock b d) t ≡ some (new_lock b t u now ttl)
  unfolding step outcome
  step-permits t u now ttl d p = ground (arith, p)

  acquire_answer-refused :
      (t : ℕ) (l : Lock b) (d : b.sled.Db)
      → IsReadable b d
      → lock b d t ≡ some l
      → acquire_answer b parse_uuid uuid_string t (some (refused (locked_by t l.user_id))) d
        ≡ done (refused_answer t l.user_id)
  unfolding acquire_answer holder_of
  acquire_answer-refused t l d r e = ground (arith, get_lock_info-lock b d t r, e)

  response_eq : {r s : LockResponse} → ◌≡◌ {A = Result LockResponse} (ok r) (ok s) → r ≡ s
  response_eq e = ground (arith, e)

  blocked :
      (client_write : ClientWrite b parse_uuid uuid_string) (now : ℤ) (ttl_var : Option Bytes)
      (req : LockRequest) (user_id : ℕ) (d d' : b.sled.Db) (r : LockResponse)
      → let t = req.ticket_id in
        let c = acquire_lock t user_id now (lock_ttl_secs ttl_var) in
        let call = acquire_lock_call b parse_uuid uuid_string client_write now ttl_var req d in
        call ≡ (acquire_answer b parse_uuid uuid_string t (some r) d', d')
        → permits b (lock b d t) c ≡ false
        → ◌≡◌ {A = Result LockResponse} (ok r) (ok (answer b c (lock b d t)))
        → d' ≡ d
        → IsReadable b d
        → Blocked c t call d
  unfolding permits
  blocked client_write now ttl_var req user_id d d' r call p same back readable =
      elim (Option-cases (lock b d req.ticket_id)) [
        | inl e ↦ absurd (ground (arith, p, e))
        | inr (l, e) ↦
            let q : permits b (some l)
                  (acquire_lock req.ticket_id user_id now (lock_ttl_secs ttl_var))
                ≡ false =
              subst
                (λ o.
                  permits b o (acquire_lock req.ticket_id user_id now (lock_ttl_secs ttl_var))
                  ≡ false)
                e p in
            let lost : r ≡ refused (locked_by req.ticket_id l.user_id) =
              response_eq same
              ∙ ap (answer b (acquire_lock req.ticket_id user_id now (lock_ttl_secs ttl_var))) e
              ∙ answer-refused req.ticket_id user_id now (lock_ttl_secs ttl_var) l q in
            let told =
              acquire_answer-refused req.ticket_id l d' (subst (IsReadable b) (sym back) readable)
                (subst (λ x. lock b x req.ticket_id ≡ some l) (sym back) e) in
            rw call (l, e, q, rw lost told, back)
      ]

  -- On a database whose locks are readable, for a ticket id that is a `u64` and a user that parses,
  -- where a write fails or is committed: a call to take a lock fails with an internal error, or the
  -- user may have the lock, is told so and has it, with the time to live of the variable, or another
  -- user holds the lock and it has not expired; then nothing changes and the answer names that
  -- holder. The time to live is the number of the variable, or 900 seconds where the variable is not
  -- set or is no number.
  pub acquire_lock_call_lem :
      (client_write : ClientWrite b parse_uuid uuid_string) (now : ℤ) (ttl_var : Option Bytes)
      (req : LockRequest) (user_id : ℕ) (d : b.sled.Db)
      → Commits client_write
      → IsReadable b d
      → req.ticket_id < 2 ^ 64
      → parse_uuid req.user_uuid ≡ some user_id
      → let c = acquire_lock req.ticket_id user_id now (lock_ttl_secs ttl_var) in
        let r = acquire_lock_call b parse_uuid uuid_string client_write now ttl_var req d in
        IsTtl ttl_var (lock_ttl_secs ttl_var)
        × ((r.0 ≡ failed internal)
            ⊎ Gets c req.ticket_id
                (new_lock b req.ticket_id user_id now (lock_ttl_secs ttl_var))
                r
                d
            ⊎ Blocked c req.ticket_id r d)
  unfolding Commits
  acquire_lock_call_lem client_write now ttl_var req user_id d commits readable range parsed =
      let t = req.ticket_id in
      let ttl = lock_ttl_secs ttl_var in
      let c = acquire_lock t user_id now ttl in
      let (told, kept, table, still) = apply_refines b c d readable range in
      (
        lock_ttl_secs-IsTtl ttl_var,
        elim (commits c d) [
          | inl e ↦ inl (failed_call client_write now ttl_var req user_id d parsed e)
          | inr (r, d', a, e) ↦
              let call = answered_call client_write now ttl_var req user_id d d' r parsed e in
              let after : (apply b c d).1 ≡ d' =
                ap (λ (x : Result LockResponse × b.sled.Db). x.1) a in
              let same : ◌≡◌ {A = Result LockResponse} (ok r) (ok (answer b c (lock b d t))) =
                sym (ap (λ (x : Result LockResponse × b.sled.Db). x.0) a) ∙ told in
              elim (Bool-cases (permits b (lock b d t) c)) [
                | inl p ↦
                    let won : r ≡ granted =
                      response_eq same ∙ answer-granted t user_id now ttl (lock b d t) p in
                    let held : lock b d' t ≡ some (new_lock b t user_id now ttl) =
                      subst (λ x. lock b x t ≡ some (new_lock b t user_id now ttl)) after
                        (table t range ∙ step-permits t user_id now ttl d p) in
                    inr (
                      inl (
                        rw call (
                          p,
                          rw won (acquire_answer-granted t d'),
                          held,
                          subst (IsReadable b) after kept,
                        )))
                | inr p ↦ inr (
                    inr (
                      blocked client_write now ttl_var req user_id d d' r call p same
                        (sym after ∙ still p) readable))
              ]
        ],
      )
