-- ===== src/Db/Machine/Consistency.antt =====
-- Committed logs of db/src/raft.rs keep the tickets and their indexes consistent.
use infovulcan.Common.{
  ℕ, ◌+◌, ◌^◌, ◌≤◌, ◌<◌, ◌≡◌, sym, subst, inl, inr, true, false, Option, some, List, [], ◌∷◌, arith,
  length, All, Bytes, beq, ok, Result-cases,
}
use infovulcan.Common.Int.{ℤ, pos}
use infovulcan.Openraft.{LogId, Entry, EntryPayload, blank, normal, membership}
use infovulcan.Db.Types.{
  Backend, LogEntry, TicketIndexFields, UserIndexFields, StoredTicket, StoredUser,
}
use infovulcan.Db.Storage.{puts}
use infovulcan.Db.Tickets.{existing_ticket, update_ticket, soft_delete_ticket}
use infovulcan.Db.Tickets.Invariant.{row, last_id, IsConsistent}
use infovulcan.Db.Tickets.Operations.{create_ticket_lem, update_ticket_lem, soft_delete_ticket_lem}
use infovulcan.Db.Users.{get_user, update_user, soft_delete_user, existing_user}
use infovulcan.Db.Users.Operations.{user-Writes}
use infovulcan.Db.Machine.{apply_entry, apply, StateMachine, apply_one, apply_to_state_machine}
use infovulcan.Db.Machine.Frame.{
  is_ticket_tree, other_tree, Agrees, last_id-Agrees, IsConsistent-Agrees, Writes-Agrees,
}

module _ (b : Backend) where
  -- The state stays consistent and at most one id is used.
  abbrev pub Keeps : b.sled.Db → b.sled.Db → Type 0
  Keeps d d' = IsConsistent b d' × (last_id b d' ≤ last_id b d + 1)

  Keeps-Agrees : (d d' : b.sled.Db) → IsConsistent b d → Agrees b d d' → Keeps d d'
  Keeps-Agrees d d' c h = (IsConsistent-Agrees b d d' h c, omega (arith, last_id-Agrees b d d' h))

  Keeps-same : (d : b.sled.Db) → IsConsistent b d → Keeps d d
  Keeps-same d c = (c, omega arith)

  -- The entries that clients of the ticket calls commit: a raw write stays off the ticket trees, and
  -- ids are `u64`.
  abbrev pub Domain : LogEntry → Type 0
  Domain (LogEntry.put collection key value) = is_ticket_tree collection ≡ false
  Domain (LogEntry.delete collection key) = is_ticket_tree collection ≡ false
  Domain (LogEntry.batch_put collection pairs) = is_ticket_tree collection ≡ false
  Domain (LogEntry.update_ticket id body index) = id < 2 ^ 64
  Domain (LogEntry.soft_delete_ticket id at_unix) = id < 2 ^ 64
  Domain _ = Unit

  row_of_existing :
      (d : b.sled.Db) (id : ℕ) (old : StoredTicket)
      → existing_ticket b d id ≡ ok old
      → row b d id ≡ some old
  unfolding existing_ticket row
  row_of_existing d id old e = ground (arith, e)

  get_of_existing :
      (d : b.sled.Db) (uuid : Bytes) (old : StoredUser)
      → existing_user b d uuid ≡ ok old
      → get_user b d uuid true ≡ ok (some old)
  unfolding existing_user get_user
  get_of_existing d uuid old e = ground (arith, e)

  update_ticket-Keeps :
      (d : b.sled.Db) (id : ℕ) (body : Bytes) (index : TicketIndexFields)
      → IsConsistent b d
      → id < 2 ^ 64
      → Keeps d (update_ticket b d id body index).1
  unfolding update_ticket
  update_ticket-Keeps d id body index c h = elim (Result-cases (existing_ticket b d id)) [
    | inl (old, e) ↦
        let law = update_ticket_lem b d id body index old c h (row_of_existing d id old e) in
        (law.1.consistent, omega (arith, law.2))
    | inr (x, e) ↦ rw (update_ticket, e) (Keeps-same d c)
  ]

  soft_delete_ticket-Keeps :
      (d : b.sled.Db) (id : ℕ) (at_unix : ℤ)
      → IsConsistent b d
      → id < 2 ^ 64
      → Keeps d (soft_delete_ticket b d id at_unix).1
  unfolding soft_delete_ticket
  soft_delete_ticket-Keeps d id at_unix c h = elim (Result-cases (existing_ticket b d id)) [
    | inl (old, e) ↦
        let law = soft_delete_ticket_lem b d id at_unix old c h (row_of_existing d id old e) in
        (law.1.consistent, omega (arith, law.2))
    | inr (x, e) ↦ rw (soft_delete_ticket, e) (Keeps-same d c)
  ]

  update_user-Keeps :
      (d : b.sled.Db) (uuid body : Bytes) (index : UserIndexFields)
      → IsConsistent b d
      → Keeps d (update_user b d uuid body index).1
  unfolding update_user
  update_user-Keeps d uuid body index c = elim (Result-cases (existing_user b d uuid)) [
    | inl (old, e) ↦
        let law = (user-Writes b d uuid body index (pos 0)).1 old (get_of_existing d uuid old e) in
        Keeps-Agrees d _ c (Writes-Agrees b d _ uuid _ _ law.1)
    | inr (x, e) ↦ rw (update_user, e) (Keeps-same d c)
  ]

  soft_delete_user-Keeps :
      (d : b.sled.Db) (uuid : Bytes) (at_unix : ℤ) (index : UserIndexFields)
      → IsConsistent b d
      → Keeps d (soft_delete_user b d uuid at_unix).1
  unfolding soft_delete_user
  soft_delete_user-Keeps d uuid at_unix index c = elim (Result-cases (existing_user b d uuid)) [
    | inl (old, e) ↦
        let law = (user-Writes b d uuid [] index at_unix).1 old (get_of_existing d uuid old e) in
        Keeps-Agrees d _ c (Writes-Agrees b d _ uuid _ _ law.3)
    | inr (x, e) ↦ rw (soft_delete_user, e) (Keeps-same d c)
  ]

  raw_Agrees :
      (d d' : b.sled.Db) (collection : Bytes)
      → is_ticket_tree collection ≡ false
      → ((t k : Bytes) → beq collection t ≡ false → b.sled.get d' t k ≡ b.sled.get d t k)
      → Agrees b d d'
  unfolding Agrees
  raw_Agrees d d' collection h same t k i = same t k (other_tree collection t h i)

  apply_entry-Keeps :
      (entry : LogEntry) (d : b.sled.Db)
      → Domain entry
      → IsConsistent b d
      → last_id b d + 1 < 2 ^ 64
      → Keeps d (apply_entry b entry d).1
  unfolding apply_entry
  apply_entry-Keeps (LogEntry.put collection key value) d h c room = Keeps-Agrees d _ c (
      raw_Agrees d _ collection h
        (λ t k e. ground (arith, b.sled.get-insert d collection key value t k, e)))
  apply_entry-Keeps (LogEntry.get collection key) d h c room = Keeps-same d c
  apply_entry-Keeps (LogEntry.delete collection key) d h c room = Keeps-Agrees d _ c (
      raw_Agrees d _ collection h
        (λ t k e. ground (arith, b.sled.get-remove d collection key t k, e)))
  apply_entry-Keeps (LogEntry.batch_put collection pairs) d h c room = Keeps-Agrees d _ c (
      raw_Agrees d _ collection h
        (λ t k e. ground (arith, b.sled.get-apply_batch d collection (puts pairs) t k, e)))
  apply_entry-Keeps (LogEntry.create_ticket body index) d h c room =
      let law = create_ticket_lem b d body index c room in (law.2.consistent, omega (arith, law.3))
  apply_entry-Keeps (LogEntry.update_ticket id body index) d h c room =
      update_ticket-Keeps d id body index c h
  apply_entry-Keeps (LogEntry.soft_delete_ticket id at_unix) d h c room =
      soft_delete_ticket-Keeps d id at_unix c h
  apply_entry-Keeps (LogEntry.create_user uuid body index) d h c room =
      Keeps-Agrees d _ c (Writes-Agrees b d _ uuid _ _ (user-Writes b d uuid body index (pos 0)).0)
  apply_entry-Keeps (LogEntry.update_user uuid body index) d h c room =
      update_user-Keeps d uuid body index c
  apply_entry-Keeps (LogEntry.soft_delete_user uuid at_unix) d h c room =
      soft_delete_user-Keeps d uuid at_unix (record { username = []; email = []; role = 0 }) c

  apply-storage :
      (entry : LogEntry) (d : b.sled.Db) → (apply b entry d).1 ≡ (apply_entry b entry d).1
  unfolding apply
  apply-storage entry d = ground arith

  module _ {M Stored : Type 0} (stored : Option LogId → M → Stored) where
    abbrev pub DomainEntry : Entry LogEntry M → Type 0
    DomainEntry e = elim e.payload [ blank ↦ Unit | normal c ↦ Domain c | membership m ↦ Unit ]

    apply_one-Keeps :
        (e : Entry LogEntry M) (sm : StateMachine b stored)
        → DomainEntry e
        → IsConsistent b sm.storage
        → last_id b sm.storage + 1 < 2 ^ 64
        → Keeps sm.storage (apply_one b stored e sm).1.storage
    unfolding apply_one
    apply_one-Keeps e sm h c room = by_payload e.payload h
      where
        by_payload :
            (p : EntryPayload LogEntry M)
            → DomainEntry (record { log_id = e.log_id; payload = p })
            → Keeps sm.storage
                (apply_one b stored (record { log_id = e.log_id; payload = p }) sm).1.storage
        by_payload blank h = Keeps-same sm.storage c
        by_payload (membership m) h = Keeps-same sm.storage c
        by_payload (normal entry) h =
            subst (Keeps sm.storage) (sym (apply-storage entry sm.storage))
              (apply_entry-Keeps entry sm.storage h c room)

    -- From a consistent state, applying a committed log of any length keeps the tickets and all
    -- their indexes consistent, also where an entry fails and the rest of the log is not applied,
    -- and uses at most one id per entry. The raw writes of the log stay off the ticket trees, its
    -- ticket ids are `u64`, and there are ids left for all entries.
    pub apply_to_state_machine-IsConsistent :
        (es : List (Entry LogEntry M)) (sm : StateMachine b stored)
        → All DomainEntry es
        → IsConsistent b sm.storage
        → last_id b sm.storage + length es < 2 ^ 64
        → let d' = (apply_to_state_machine b stored es sm).1.storage in
          IsConsistent b d' × (last_id b d' ≤ last_id b sm.storage + length es)
    unfolding apply_to_state_machine
    apply_to_state_machine-IsConsistent [] sm h c room = (c, omega arith)
    apply_to_state_machine-IsConsistent (e ∷ es) sm h c room =
        let one = apply_one-Keeps e sm h.0 c (omega (arith, room)) in
        let rest =
          apply_to_state_machine-IsConsistent es (apply_one b stored e sm).1 h.1 one.0
            (omega (arith, room, one.1)) in
        elim (Result-cases (apply_one b stored e sm).0) [
          | inr (x, p) ↦ rw (apply_to_state_machine, p) (one.0, omega (arith, one.1))
          | inl (r, p) ↦
              elim (Result-cases
                (apply_to_state_machine b stored es (apply_one b stored e sm).1).0) [
                  | inl (rs, q) ↦
                      rw (apply_to_state_machine, p, q) (rest.0, omega (arith, one.1, rest.1))
                  | inr (x, q) ↦
                      rw (apply_to_state_machine, p, q) (rest.0, omega (arith, one.1, rest.1))
                ]
        ]
