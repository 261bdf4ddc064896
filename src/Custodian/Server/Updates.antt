-- ===== src/Custodian/Server/Updates.antt =====
-- Who may update a ticket through custodian/src/server.rs, and how its status may change.
use infovulcan.Common.{
  ℕ, ◌≡◌, refl, ap, ◌∙◌, ◌≢◌, ◌⊎◌, inl, inr, true, false, Option, none, some, arith, Bytes, ok,
}
use infovulcan.Common.Int.{ℤ}
use infovulcan.Common.Outcome.{Outcome-cases, done, failed, ok_or, >>=-done}
use infovulcan.Shared.Status.{TicketStatus, can_transition_to}
use infovulcan.Shared.Ticket.{Ticket}
use infovulcan.Custodian.Types.{is_expired, Backend}
use infovulcan.Custodian.Locks.{Lock, get_lock_info}
use infovulcan.Custodian.Locks.Table.{lock, IsReadable, get_lock_info-lock}
use infovulcan.Custodian.Server.{
  Client, Request, Status, internal, lock_expired, lock_not_held, not_locked, check_updater,
  check_lock, fetch, with_texts, with_status, with_outcome, with_assignee, prepare, update_ticket,
}

can_transition_to_self : (s : TicketStatus) → can_transition_to s s ≡ true
unfolding can_transition_to
can_transition_to_self s = ground arith

module _ (b : Backend) {S : Type 0} (client : Client b.DateTime S) where
  -- Why a lock does not admit an updater.
  abbrev pub Refuses : Option (Lock b) → ℕ → ℤ → Status → Type 0
  Refuses none updater now status = status ≡ not_locked
  Refuses (some l) updater now status =
      ((is_expired l now ≡ true) × (status ≡ lock_expired))
      ⊎ ((is_expired l now ≡ false) × (l.user_id ≢ updater) × (status ≡ lock_not_held))

  check_lock_refused :
      (d : b.sled.Db) (id updater : ℕ) (now : ℤ) (status : Status) (o : Option (Lock b))
      → get_lock_info b d id ≡ ok o
      → Refuses o updater now status
      → check_lock b client d id updater now ≡ failed status
  unfolding check_lock
  check_lock_refused d id updater now status none g h = rw (check_lock, g, h) refl
  check_lock_refused d id updater now status (some l) g (inl h) = ground (arith, g, h.0, h.1)
  check_lock_refused d id updater now status (some l) g (inr h) = ground (arith, g, h.0, h.1, h.2)

  -- On a database whose locks are readable, an updater who does not hold the lock of the ticket, or
  -- whose lock has expired, is told which of these it is, whatever the request says, and the
  -- database is not called to write.
  pub update_ticket_refused :
      (d : b.sled.Db) (s : S) (req : Request b client) (lock_now : ℤ) (now : b.DateTime)
      (updater : ℕ) (status : Status)
      → IsReadable b d
      → check_updater b client req ≡ done updater
      → Refuses (lock b d req.ticket_id) updater lock_now status
      → update_ticket b client d s req lock_now now ≡ (failed status, s)
  unfolding update_ticket prepare
  update_ticket_refused d s req lock_now now updater status r u h =
      let locked =
        check_lock_refused d req.ticket_id updater lock_now status (lock b d req.ticket_id)
          (get_lock_info-lock b d req.ticket_id r) h in
      let stopped : prepare b client d s req lock_now now ≡ failed status =
        rw (prepare, u, locked) refl in
      rw (update_ticket, stopped) refl

  check_lock_done :
      (d : b.sled.Db) (id updater : ℕ) (now : ℤ)
      → IsReadable b d
      → check_lock b client d id updater now ≡ done tt
      → (l : Lock b) × (lock b d id ≡ some l) × (l.user_id ≡ updater) × (is_expired l now ≡ false)
  unfolding check_lock
  check_lock_done d id updater now r h = held (lock b d id) refl
    where
      held :
          (o : Option (Lock b))
          → lock b d id ≡ o
          → (l : Lock b) × (lock b d id ≡ some l)
            × (l.user_id ≡ updater)
            × (is_expired l now ≡ false)
      held none e = absurd (ground (arith, h, get_lock_info-lock b d id r, e))
      held (some l) e = (
        l,
        e,
        ground (arith, h, get_lock_info-lock b d id r, e),
        ground (arith, h, get_lock_info-lock b d id r, e),
      )

  with_status_done :
      (req : Request b client) (t t' : Ticket b.DateTime)
      → with_status b client req t ≡ done t'
      → can_transition_to t.status t'.status ≡ true
  unfolding with_status
  with_status_done req t t' h = ground (arith, h, can_transition_to_self t.status)

  with_assignee_done :
      (req : Request b client) (t t' : Ticket b.DateTime)
      → with_assignee b client req t ≡ done t'
      → t'.status ≡ t.status
  unfolding with_assignee
  with_assignee_done req t t' h = ground (arith, h)

  -- What holds of a request that passes every check.
  abbrev pub Admits : b.sled.Db → S → Request b client → ℤ → b.DateTime → Ticket b.DateTime → Type 0
  Admits d s req lock_now now t =
      (updater : ℕ) × (l : Lock b) × (old : Ticket b.DateTime) × (check_updater b client req
        ≡ done updater)
      × (lock b d req.ticket_id ≡ some l)
      × (l.user_id ≡ updater)
      × (is_expired l lock_now ≡ false)
      × (fetch b client s req.ticket_id ≡ done old)
      × (can_transition_to old.status t.status ≡ true)
      × (t.updated_by ≡ updater)
      × (t.updated_at ≡ now)

  prepare_done :
      (d : b.sled.Db) (s : S) (req : Request b client) (lock_now : ℤ) (now : b.DateTime)
      (t : Ticket b.DateTime) (encrypted : Bytes)
      → IsReadable b d
      → prepare b client d s req lock_now now ≡ done (t, encrypted)
      → Admits d s req lock_now now t
  unfolding prepare
  prepare_done d s req lock_now now t encrypted r h =
      let (updater, e1, h1) = >>=-done _ _ _ h in
      let (checked, e2, h2) = >>=-done _ _ _ h1 in
      let (old, e3, h3) = >>=-done _ _ _ h2 in
      let (changed, e4, h4) = >>=-done _ _ _ h3 in
      let (assigned, e5, h5) = >>=-done _ _ _ h4 in
      let stamped : Ticket b.DateTime = record assigned {
        updated_by = updater;
        updated_at = now;
      } in
      let (sealed, e6, h6) =
        >>=-done (ok_or (client.encrypt_ticket stamped) internal) (λ x. done (stamped, x))
          (t, encrypted) h5 in
      let (l, held, holder, live) = check_lock_done d req.ticket_id updater lock_now r e2 in
      let moved = with_status_done req (with_texts b client req old) changed e4 in
      let same = with_assignee_done req (with_outcome b client req changed) assigned e5 in
      (
        updater,
        l,
        old,
        e1,
        held,
        holder,
        live,
        e3,
        ground (arith, moved, same, h6),
        ground (arith, h6),
        ground (arith, h6),
      )

  -- On a database whose locks are readable, a call that succeeds comes from the holder of a lock
  -- that is not expired; the ticket was there, its old status may change to the new one by the life
  -- cycle, and the result names the updater and the time of the update.
  pub update_ticket_guarded :
      (d : b.sled.Db) (s : S) (req : Request b client) (lock_now : ℤ) (now : b.DateTime)
      (t : Ticket b.DateTime)
      → IsReadable b d
      → (update_ticket b client d s req lock_now now).0 ≡ done t
      → Admits d s req lock_now now t
  unfolding update_ticket
  update_ticket_guarded d s req lock_now now t r h =
      elim (Outcome-cases (prepare b client d s req lock_now now)) [
        | inl ((ticket, encrypted), e) ↦
            let same : ticket ≡ t = ground (arith, h, e) in
            prepare_done d s req lock_now now t encrypted r (e ∙ ap (λ x. done (x, encrypted)) same)
        | inr (x, e) ↦ absurd (ground (arith, h, e))
      ]
