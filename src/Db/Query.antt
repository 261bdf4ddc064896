-- ===== src/Db/Query.antt =====
-- `query_tickets` of db/src/storage.rs and the scans that it starts from.
pub mod Select
pub mod Candidates
pub mod Answers
use infovulcan.Common.{
  ℕ, zero, suc, ◌+◌, ◌-◌, ◌*◌, ◌/◌, ◌%◌, ◌^◌, ◌≤◌, ◌<◌, ◌≡◌, refl, sym, ap, ◌∙◌, subst, ◌≢◌, ◌↔◌,
  ◌⊎◌, inl, inr, Bool, true, false, not, ◌&&◌, ◌||◌, Option, none, some, List, [], ◌∷◌, ◌++◌, map,
  arith, ltb, leb, ◌==◌, if◌then◌else◌, ltb→lt, lt→ltb, leb→le, le→leb, ==_iff, tests, Bool-cases,
  Option-cases, length, length-append, take, drop, replicate, filter, In, In-filter, of_In-filter,
  All, All-In, Bytes, ascii, beq, beq_refl, eq_of_beq, starts_with, starts_with-append, blt, ble,
  blt_irrefl, blt_trans, blt_total, Error, not_found, corrupt, Result, ok, err, or_err,
}
use infovulcan.Common.Word.{from_be_bytes}
use infovulcan.Db.Types.{
  Backend, StoredTicket, TicketQuery, tree_tickets, idx_ticket_status, idx_ticket_assignee,
  idx_ticket_project, idx_ticket_account,
}
use infovulcan.Db.Storage.{list}
use infovulcan.Db.Tickets.{index_prefix, get_ticket}

-- Entries whose id is not eight bytes long are passed over.
abbrev pub push_id : Option ℕ → List ℕ → List ℕ
push_id none ids = ids
push_id (some id) ids = id ∷ ids

unfoldable pub ids_of_keys : List (Bytes × Bytes) → List ℕ
ids_of_keys [] = []
ids_of_keys ((k, v) ∷ rows) = push_id (from_be_bytes k) (ids_of_keys rows)

unfoldable pub ids_of_values : List (Bytes × Bytes) → List ℕ
ids_of_values [] = []
ids_of_values ((k, v) ∷ rows) = push_id (from_be_bytes v) (ids_of_values rows)

-- A filter that is not set lets everything pass.
abbrev pub status_passes : Option ℕ → ℕ → Bool
status_passes none s = true
status_passes (some wanted) s = s == wanted

abbrev pub text_passes : Option Bytes → Bytes → Bool
text_passes none s = true
text_passes (some wanted) s = beq s wanted

abbrev pub optional_passes : Option Bytes → Option Bytes → Bool
optional_passes none s = true
optional_passes (some wanted) none = false
optional_passes (some wanted) (some s) = beq s wanted

-- The four tests of the loop body.
unfoldable pub passes : TicketQuery → StoredTicket → Bool
passes q stored =
    status_passes q.status stored.index.status
    && optional_passes q.assigned_to_uuid stored.index.assigned_to_uuid
    && text_passes q.account_uuid stored.index.account_uuid
    && text_passes q.project stored.index.project

abbrev pub prepend :
    ℕ → StoredTicket → Result (List (ℕ × StoredTicket)) → Result (List (ℕ × StoredTicket))
prepend id stored (ok out) = ok ((id, stored) ∷ out)
prepend id stored (err e) = err e

module _ (b : Backend) where
  unfoldable pub all_ticket_ids : b.sled.Db → List ℕ
  all_ticket_ids d = ids_of_keys (list b d tree_tickets [] none)

  unfoldable pub scan_index_ids : b.sled.Db → Bytes → Bytes → List ℕ
  scan_index_ids d tree value = ids_of_values (b.sled.scan_prefix d tree (index_prefix value))

  -- The index that is scanned where deleted rows are not asked for: the first filter that is set.
  unfoldable pub active_candidates : b.sled.Db → TicketQuery → List ℕ
  active_candidates d q = elim q.status [
    | some status ↦ scan_index_ids d idx_ticket_status (status ∷ [])
    | none ↦ elim q.assigned_to_uuid [
      | some assignee ↦ scan_index_ids d idx_ticket_assignee assignee
      | none ↦ elim q.account_uuid [
        | some account ↦ scan_index_ids d idx_ticket_account account
        | none ↦ elim q.project [
          | some project ↦ scan_index_ids d idx_ticket_project project
          | none ↦ all_ticket_ids d
        ]
      ]
    ]
  ]

  unfoldable pub candidates : b.sled.Db → TicketQuery → List ℕ
  candidates d q = if q.include_deleted then all_ticket_ids d else active_candidates d q

  -- The loop over the candidates, with the number of tickets found so far.
  unfoldable pub query_loop :
      b.sled.Db → TicketQuery → List ℕ → ℕ → Result (List (ℕ × StoredTicket))
  query_loop d q [] found = ok []
  query_loop d q (id ∷ ids) found = elim (get_ticket b d id q.include_deleted) [
    | err e ↦ err e
    | ok none ↦ query_loop d q ids found
    | ok (some stored) ↦ elim (passes q stored) [
      | false ↦ query_loop d q ids found
      | true ↦ elim (ltb 0 q.limit && leb q.limit (found + 1)) [
        | true ↦ ok ((id, stored) ∷ [])
        | false ↦ prepend id stored (query_loop d q ids (found + 1))
      ]
    ]
  ]

  unfoldable pub query_tickets : b.sled.Db → TicketQuery → Result (List (ℕ × StoredTicket))
  query_tickets d q = query_loop d q (candidates d q) 0
