-- ===== src/Db/Tickets.antt =====
-- Tickets in db/src/storage.rs: allocation of ids, the rows and their secondary indexes.
pub mod Entries
pub mod Invariant
pub mod Repoint
pub mod Consistency
pub mod NextId
pub mod Operations
pub mod Start
use infovulcan.Common.{
  ℕ, ◌+◌, ◌<◌, ◌^◌, ◌-◌, Bool, true, false, not, ◌&&◌, ◌||◌, Option, none, some, List, [], ◌∷◌,
  ◌++◌, Bytes, beq, if◌then◌else◌, ltb, Result, ok, err, or_err, not_found, corrupt,
}
use infovulcan.Common.Word.{to_be_bytes, from_be_bytes}
use infovulcan.Common.Int.{ℤ, pos, bits}
use infovulcan.Db.Types.{
  Backend, TicketIndexFields, StoredTicket, tree_tickets, tree_seq, seq_ticket, idx_ticket_status,
  idx_ticket_assignee, idx_ticket_project, idx_ticket_account, idx_ticket_created,
  idx_ticket_updated, idx_ticket_tracking,
}
use infovulcan.Db.Storage.{put, get}

-- `<value>\x00<entity_key>`
unfoldable pub index_key : Bytes → Bytes → Bytes
index_key value entity_key = value ++ 0 ∷ entity_key

unfoldable pub index_prefix : Bytes → Bytes
index_prefix value = value ++ 0 ∷ []

-- `u64::saturating_add`
abbrev pub saturating_add : ℕ → ℕ → ℕ
saturating_add a c = if ltb (a + c) (2 ^ 64) then a + c else 2 ^ 64 - 1

-- `bytes.try_into().unwrap_or([0u8; 8])`, read as a number.
abbrev pub counter_of : Bytes → ℕ
counter_of bytes = elim (from_be_bytes bytes) [ none ↦ 0 | some n ↦ n ]

unfoldable pub bump : Option Bytes → Option Bytes
bump (some bytes) = some (to_be_bytes (saturating_add (counter_of bytes) 1))
bump none = some (to_be_bytes 1)

-- The entries that are there only if the field is set.
abbrev pub optional_entry : Bytes → Option Bytes → List (Bytes × Bytes)
optional_entry tree none = []
optional_entry tree (some value) = (tree, value) ∷ []

unfoldable pub ticket_index_entries : TicketIndexFields → List (Bytes × Bytes)
ticket_index_entries index =
    (idx_ticket_status, index.status ∷ [])
    ∷ (idx_ticket_account, index.account_uuid)
    ∷ (idx_ticket_project, index.project)
    ∷ (idx_ticket_created, to_be_bytes (bits index.created_at_unix))
    ∷ (idx_ticket_updated, to_be_bytes (bits index.updated_at_unix))
    ∷ (optional_entry idx_ticket_assignee index.assigned_to_uuid
        ++ optional_entry idx_ticket_tracking index.tracking_url)

module _ (b : Backend) where
  unfoldable pub next_id : b.sled.Db → Bytes → Result ℕ × b.sled.Db
  next_id d name =
      let updated = b.sled.update_and_fetch d tree_seq name bump in
      (
        elim updated.1 [ none ↦ err corrupt | some bytes ↦ or_err (from_be_bytes bytes) corrupt ],
        updated.0,
      )

  -- The loop over index entries, for an entity key.
  unfoldable pub write_entries : b.sled.Db → Bytes → List (Bytes × Bytes) → Bool → b.sled.Db
  write_entries d entity [] insert = d
  write_entries d entity ((tree, value) ∷ rest) insert =
      write_entries
        (if insert
          then b.sled.insert d tree (index_key value entity) entity
          else b.sled.remove d tree (index_key value entity))
        entity rest insert

  unfoldable pub write_ticket_indexes : b.sled.Db → ℕ → TicketIndexFields → Bool → b.sled.Db
  write_ticket_indexes d id index insert =
      write_entries d (to_be_bytes id) (ticket_index_entries index) insert

  unfoldable pub create_ticket : b.sled.Db → Bytes → TicketIndexFields → Result ℕ × b.sled.Db
  create_ticket d body index =
      let (allocated, d1) = next_id d seq_ticket in
      elim allocated [
        | err e ↦ (err e, d1)
        | ok id ↦
            let stored : StoredTicket = record {
              body = body;
              index = index;
              deleted = false;
              deleted_at_unix = pos 0;
            } in
            let d2 = put b d1 tree_tickets (to_be_bytes id) (b.tickets.to_vec stored) in
            (ok id, write_ticket_indexes d2 id index true)
      ]

  unfoldable pub get_ticket : b.sled.Db → ℕ → Bool → Result (Option StoredTicket)
  get_ticket d id include_deleted = elim (get b d tree_tickets (to_be_bytes id)) [
    | none ↦ ok none
    | some bytes ↦ elim (b.tickets.from_slice bytes) [
      | none ↦ err corrupt
      | some stored ↦ if stored.deleted && not include_deleted then ok none else ok (some stored)
    ]
  ]

  -- The row that an update or a deletion starts from.
  unfoldable pub existing_ticket : b.sled.Db → ℕ → Result StoredTicket
  existing_ticket d id = elim (get b d tree_tickets (to_be_bytes id)) [
    | none ↦ err not_found
    | some bytes ↦ or_err (b.tickets.from_slice bytes) corrupt
  ]

  unfoldable pub update_ticket :
      b.sled.Db → ℕ → Bytes → TicketIndexFields → Result (Unit {0}) × b.sled.Db
  update_ticket d id body index = elim (existing_ticket d id) [
    | err e ↦ (err e, d)
    | ok old ↦
        let d1 = if not old.deleted then write_ticket_indexes d id old.index false else d in
        let stored : StoredTicket = record {
          body = body;
          index = index;
          deleted = old.deleted;
          deleted_at_unix = old.deleted_at_unix;
        } in
        let d2 = put b d1 tree_tickets (to_be_bytes id) (b.tickets.to_vec stored) in
        (ok tt, if not stored.deleted then write_ticket_indexes d2 id index true else d2)
  ]

  unfoldable pub soft_delete_ticket : b.sled.Db → ℕ → ℤ → Result (Unit {0}) × b.sled.Db
  soft_delete_ticket d id at_unix = elim (existing_ticket d id) [
    | err e ↦ (err e, d)
    | ok stored ↦
        let d1 = if not stored.deleted then write_ticket_indexes d id stored.index false else d in
        let marked : StoredTicket = record stored { deleted = true; deleted_at_unix = at_unix } in
        (ok tt, put b d1 tree_tickets (to_be_bytes id) (b.tickets.to_vec marked))
  ]
