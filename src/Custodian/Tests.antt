-- ===== src/Custodian/Tests.antt =====
-- The theorems on the lock machine at concrete inputs.
use infovulcan.Common.{
  ℕ, ◌+◌, ◌^◌, ◌≤◌, ◌<◌, ◌≡◌, refl, inr, false, none, some, List, [], ◌∷◌, arith, ok,
}
use infovulcan.Common.Int.{pos}
use infovulcan.Custodian.Types.{LockCommand, acquire_lock, release_lock, locked_by, is_expired}
use infovulcan.Custodian.Locks.{new_lock}
use infovulcan.Custodian.Locks.Table.{lock, IsReadable, empty-IsReadable, lock-empty}
use infovulcan.Custodian.Machine.{apply, apply_all, granted, refused}
use infovulcan.Custodian.Machine.Refinement.{
  ticket_of, permits, step, answer, outcome, apply_refines,
}
use infovulcan.Custodian.Machine.Exclusion.{exclusive}
use infovulcan.Custodian.Machine.Progress.{ends, lock_freed}
use infovulcan.Custodian.Sample.{backend}

abbrev Db : Type 0
Db = backend.sled.Db

start : Db
start = backend.sled.empty

start-IsReadable : IsReadable backend start
unfolding start
start-IsReadable = empty-IsReadable backend

lock-start : lock backend start 1 ≡ none
unfolding start
lock-start = lock-empty backend 1

abbrev take_lock : LockCommand
take_lock = acquire_lock 1 7 (pos 100) (pos 60)

apply_refines_example :
    ((apply backend take_lock start).0
      ≡ ok (answer backend take_lock (lock backend start (ticket_of take_lock))))
    × IsReadable backend (apply backend take_lock start).1
    × ((i : ℕ)
        → i < 2 ^ 64
        → lock backend (apply backend take_lock start).1 i
          ≡ step backend take_lock (lock backend start) i)
    × (permits backend (lock backend start (ticket_of take_lock)) take_lock ≡ false
        → (apply backend take_lock start).1 ≡ start)
apply_refines_example = apply_refines backend take_lock start start-IsReadable (omega arith)

held : Db
held = (apply backend take_lock start).1

lock-held : lock backend held 1 ≡ some (new_lock backend 1 7 (pos 100) (pos 60))
unfolding held step permits outcome
lock-held = ground (arith, apply_refines_example.2 1 (omega arith), lock-start)

held-IsReadable : IsReadable backend held
unfolding held
held-IsReadable = apply_refines_example.1

start-granted : (apply backend take_lock start).0 ≡ ok granted
unfolding answer
start-granted = ground (arith, apply_refines_example.0, lock-start)

abbrev others : List LockCommand
others = acquire_lock 1 8 (pos 150) (pos 60) ∷ release_lock 1 9 ∷ []

exclusive_example :
    let d' = apply_all backend others held in
    (149 < 100 + 60
      → apply backend (acquire_lock 1 8 (pos 149) (pos 5)) d' ≡ (ok (refused (locked_by 1 7)), d'))
    × (100 + 60 ≤ 149
        → ((apply backend (acquire_lock 1 8 (pos 149) (pos 5)) d').0 ≡ ok granted)
          × (lock backend (apply backend (acquire_lock 1 8 (pos 149) (pos 5)) d').1 1
              ≡ some (new_lock backend 1 8 (pos 149) (pos 5))))
unfolding held is_expired
exclusive_example =
    exclusive backend 1 7 8 100 60 149 (pos 5) others start start-IsReadable (omega arith)
      (omega arith, (omega arith, tt)) (omega arith) (omega arith) (omega arith) start-granted
      (inr (omega arith, refl), (inr (omega arith), tt))

lock_freed_example :
    let d' = apply backend (acquire_lock 1 8 (pos 220) (pos 5)) (apply_all backend others held) in
    (d'.0 ≡ ok granted) × (lock backend d'.1 1 ≡ some (new_lock backend 1 8 (pos 220) (pos 5)))
unfolding ends outcome is_expired
lock_freed_example =
    lock_freed backend (pos 220) 1 8 (pos 5) others held held-IsReadable (omega arith)
      (omega arith, (omega arith, tt)) (refl, (refl, tt)) (rw lock-held refl)
