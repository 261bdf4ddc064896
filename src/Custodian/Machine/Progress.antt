-- ===== src/Custodian/Machine/Progress.antt =====
-- No lock is held for ever: logs of timed lock commands, for the state machine of
-- custodian/src/raft.rs.
use infovulcan.Common.{
  ℕ, ◌^◌, ◌<◌, ◌≡◌, sym, subst, inl, inr, Bool, true, ◌&&◌, Option, none, some, List, [], ◌∷◌,
  arith, ◌==◌, Bool-cases, Option-cases, All, ok,
}
use infovulcan.Common.Int.{ℤ}
use infovulcan.Custodian.Types.{Backend, LockCommand, acquire_lock, is_expired}
use infovulcan.Custodian.Locks.{Lock, new_lock}
use infovulcan.Custodian.Locks.Table.{lock, IsReadable, get_lock_info-lock}
use infovulcan.Custodian.Machine.{apply, apply_all, granted}
use infovulcan.Custodian.Machine.Refinement.{ticket_of, permits, outcome, step, apply_refines}
use infovulcan.Custodian.Machine.Exclusion.{InRange, lock_of_granted, granted_expired}

module _ (b : Backend) (horizon : ℤ) where
  -- A free lock, or one that has expired by the horizon.
  unfoldable pub ends : Option (Lock b) → Bool
  ends none = true
  ends (some l) = is_expired l horizon

  -- What the command may take has expired by the horizon.
  abbrev pub IsTimed : LockCommand → Type 0
  IsTimed c = ends (outcome b c) ≡ true

  ends-step :
      (c : LockCommand) (table : ℕ → Option (Lock b)) (t : ℕ)
      → ends (table t) ≡ true
      → IsTimed c
      → ends (step b c table t) ≡ true
  unfolding step
  ends-step c table t e s =
      elim (Bool-cases (permits b (table (ticket_of c)) c && ticket_of c == t)) [
        | inl p ↦ rw p s
        | inr p ↦ rw p e
      ]

  ends-apply_all :
      (t : ℕ) (cs : List LockCommand) (d : b.sled.Db)
      → IsReadable b d
      → t < 2 ^ 64
      → InRange b cs
      → All IsTimed cs
      → ends (lock b d t) ≡ true
      → IsReadable b (apply_all b cs d) × (ends (lock b (apply_all b cs d) t) ≡ true)
  unfolding apply_all
  ends-apply_all t [] d r ht range s e = (r, e)
  ends-apply_all t (c ∷ cs) d r ht range s e =
      let one = apply_refines b c d r range.0 in
      ends-apply_all t cs (apply b c d).1 one.1 ht range.1 s.1
        (subst (λ o. ends o ≡ true) (sym (one.2 t ht)) (ends-step c (lock b d) t e s.0))

  granted_ended :
      (t v : ℕ) (ttl : ℤ) (d : b.sled.Db)
      → IsReadable b d
      → ends (lock b d t) ≡ true
      → (apply b (acquire_lock t v horizon ttl) d).0 ≡ ok granted
  unfolding apply ends
  granted_ended t v ttl d r e = elim (Option-cases (lock b d t)) [
    | inl free ↦ ground (arith, get_lock_info-lock b d t r, free)
    | inr (l, held) ↦
        granted_expired b t v horizon ttl l d r held (subst (λ o. ends o ≡ true) held e)
  ]

  -- On a database whose locks are readable, for ticket ids that are `u64`: where the lock of a ticket
  -- and every lock that a log may take expire by the horizon, then after the log, whoever holds the
  -- lock, an attempt of any user at the horizon gets it.
  pub lock_freed :
      (t v : ℕ) (ttl : ℤ) (cs : List LockCommand) (d : b.sled.Db)
      → IsReadable b d
      → t < 2 ^ 64
      → InRange b cs
      → All IsTimed cs
      → ends (lock b d t) ≡ true
      → let r = apply b (acquire_lock t v horizon ttl) (apply_all b cs d) in
        (r.0 ≡ ok granted) × (lock b r.1 t ≡ some (new_lock b t v horizon ttl))
  lock_freed t v ttl cs d r ht range timed e =
      let (readable, free) = ends-apply_all t cs d r ht range timed e in
      let g = granted_ended t v ttl (apply_all b cs d) readable free in
      (g, lock_of_granted b t v horizon ttl (apply_all b cs d) readable ht g)
