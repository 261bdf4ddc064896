-- ===== src/Custodian/Machine/Exclusion.antt =====
-- Mutual exclusion over logs of lock commands, for the state machine of custodian/src/raft.rs.
use infovulcan.Common.{
  ℕ, ◌+◌, ◌^◌, ◌≤◌, ◌<◌, ◌≡◌, ap, ◌∙◌, ◌≢◌, ◌⊎◌, inl, inr, true, false, Option, some, List, [], ◌∷◌,
  arith, leb, ◌==◌, le→leb, ==_iff, Bool-cases, All, ok,
}
use infovulcan.Common.Int.{ℤ, pos}
use infovulcan.Custodian.Types.{
  Backend, LockCommand, acquire_lock, release_lock, locked_by, is_expired,
}
use infovulcan.Custodian.Locks.{Lock, new_lock}
use infovulcan.Custodian.Locks.Table.{lock, IsReadable, get_lock_info-lock}
use infovulcan.Custodian.Machine.{apply, apply_all, granted, refused}
use infovulcan.Custodian.Machine.Refinement.{
  ticket_of, permits, outcome, step, answer, apply_refines,
}

module _ (b : Backend) where
  -- Every ticket that a log names is a `u64`.
  abbrev pub InRange : List LockCommand → Type 0
  InRange cs = All (λ c. ticket_of c < 2 ^ 64) cs

  -- The command is on another ticket, or comes from another user at a time before the expiry.
  abbrev pub Spares : ℕ → Lock b → LockCommand → Type 0
  Spares t l (acquire_lock t' u at_unix ttl_secs) =
      (t' ≢ t) ⊎ ((l.user_id ≢ u) × (is_expired l at_unix ≡ false))
  Spares t l (release_lock t' u) = (t' ≢ t) ⊎ (l.user_id ≢ u)

  Spares-step :
      (t : ℕ) (l : Lock b) (c : LockCommand) (table : ℕ → Option (Lock b))
      → table t ≡ some l
      → Spares t l c
      → step b c table t ≡ some l
  unfolding step permits
  Spares-step t l (acquire_lock t' u at_unix ttl_secs) table e (inl ne) = ground arith
  Spares-step t l (acquire_lock t' u at_unix ttl_secs) table e (inr s) =
      elim (Bool-cases (t' == t)) [
        | inl same ↦
            let p : t' ≡ t = (==_iff t' t).0 same in
            let q : table t' ≡ some l = ap table p ∙ e in ground arith
        | inr other ↦ ground arith
      ]
  Spares-step t l (release_lock t' u) table e (inl ne) = ground arith
  Spares-step t l (release_lock t' u) table e (inr s) = elim (Bool-cases (t' == t)) [
    | inl same ↦
        let p : t' ≡ t = (==_iff t' t).0 same in
        let q : table t' ≡ some l = ap table p ∙ e in ground arith
    | inr other ↦ ground arith
  ]

  -- On a database whose locks are readable, and for ticket ids that are `u64`, a lock stays with its
  -- holder through every log whose commands on the ticket come from other users, acquisitions at
  -- times before its expiry, and the locks stay readable.
  pub lock_kept :
      (t : ℕ) (l : Lock b) (cs : List LockCommand) (d : b.sled.Db)
      → IsReadable b d
      → t < 2 ^ 64
      → InRange cs
      → lock b d t ≡ some l
      → All (Spares t l) cs
      → IsReadable b (apply_all b cs d) × (lock b (apply_all b cs d) t ≡ some l)
  unfolding apply_all
  lock_kept t l [] d r ht range e s = (r, e)
  lock_kept t l (c ∷ cs) d r ht range e s =
      let one = apply_refines b c d r range.0 in
      lock_kept t l cs (apply b c d).1 one.1 ht range.1
        (one.2 t ht ∙ Spares-step t l c (lock b d) e s.0) s.1

  -- A lock taken at `now` for a positive `ttl` in seconds, with `now + ttl` below 2 ^ 63, runs to
  -- `now + ttl` and no longer.
  pub new_lock-is_expired :
      (t u now ttl later : ℕ)
      → 0 < ttl
      → now + ttl < 2 ^ 63
      → is_expired (new_lock b t u (pos now) (pos ttl)) (pos later) ≡ leb (now + ttl) later
  unfolding is_expired
  new_lock-is_expired t u now ttl later h k = ground arith

  pub lock_of_granted :
      (t u : ℕ) (at_unix ttl_secs : ℤ) (d : b.sled.Db)
      → IsReadable b d
      → t < 2 ^ 64
      → (apply b (acquire_lock t u at_unix ttl_secs) d).0 ≡ ok granted
      → lock b (apply b (acquire_lock t u at_unix ttl_secs) d).1 t
        ≡ some (new_lock b t u at_unix ttl_secs)
  unfolding answer step permits outcome
  lock_of_granted t u at_unix ttl_secs d r ht g =
      let law = apply_refines b (acquire_lock t u at_unix ttl_secs) d r ht in
      ground (arith, law.0, law.2 t ht)

  refused_lem :
      (t v : ℕ) (at_unix ttl_secs : ℤ) (l : Lock b) (d : b.sled.Db)
      → IsReadable b d
      → lock b d t ≡ some l
      → l.user_id ≢ v
      → is_expired l at_unix ≡ false
      → apply b (acquire_lock t v at_unix ttl_secs) d ≡ (ok (refused (locked_by t l.user_id)), d)
  unfolding apply
  refused_lem t v at_unix ttl_secs l d r e ne live = ground (arith, get_lock_info-lock b d t r)

  pub granted_expired :
      (t v : ℕ) (at_unix ttl_secs : ℤ) (l : Lock b) (d : b.sled.Db)
      → IsReadable b d
      → lock b d t ≡ some l
      → is_expired l at_unix ≡ true
      → (apply b (acquire_lock t v at_unix ttl_secs) d).0 ≡ ok granted
  unfolding apply
  granted_expired t v at_unix ttl_secs l d r e x = ground (arith, get_lock_info-lock b d t r)

  -- Mutual exclusion, on a database whose locks are readable, for ticket ids that are `u64`, a
  -- positive `ttl` and `now + ttl` below 2 ^ 63. After user `u` has acquired the lock of a ticket
  -- at `now` for `ttl` seconds, and after any log whose commands on the ticket come from other
  -- users before `now + ttl`, an attempt of another user before `now + ttl` is refused, naming `u`,
  -- and changes nothing; an attempt from `now + ttl` on gets the lock.
  pub exclusive :
      (t u v now ttl later : ℕ) (ttl' : ℤ) (cs : List LockCommand) (d : b.sled.Db)
      → IsReadable b d
      → t < 2 ^ 64
      → InRange cs
      → 0 < ttl
      → now + ttl < 2 ^ 63
      → u ≢ v
      → (apply b (acquire_lock t u (pos now) (pos ttl)) d).0 ≡ ok granted
      → All (Spares t (new_lock b t u (pos now) (pos ttl))) cs
      → let d' = apply_all b cs (apply b (acquire_lock t u (pos now) (pos ttl)) d).1 in
        (later < now + ttl
          → apply b (acquire_lock t v (pos later) ttl') d' ≡ (ok (refused (locked_by t u)), d'))
        × (now + ttl ≤ later
            → ((apply b (acquire_lock t v (pos later) ttl') d').0 ≡ ok granted)
              × (lock b (apply b (acquire_lock t v (pos later) ttl') d').1 t
                  ≡ some (new_lock b t v (pos later) ttl')))
  exclusive t u v now ttl later ttl' cs d r ht range hp ho ne g s =
      let l = new_lock b t u (pos now) (pos ttl) in
      let d1 = (apply b (acquire_lock t u (pos now) (pos ttl)) d).1 in
      let d' = apply_all b cs d1 in
      let first = apply_refines b (acquire_lock t u (pos now) (pos ttl)) d r ht in
      let taken = lock_of_granted t u (pos now) (pos ttl) d r ht g in
      let held = lock_kept t l cs d1 first.1 ht range taken s in
      let runs = new_lock-is_expired t u now ttl later hp ho in
      (
        λ early. refused_lem t v (pos later) ttl' l d' held.0 held.1 ne (runs ∙ ground arith),
        λ late.
            let g' : (apply b (acquire_lock t v (pos later) ttl') d').0 ≡ ok granted =
              granted_expired t v (pos later) ttl' l d' held.0 held.1
                (runs ∙ le→leb (now + ttl) later late) in
            (g', lock_of_granted t v (pos later) ttl' d' held.0 ht g'),
      )
