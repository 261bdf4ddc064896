-- ===== src/Db/Tests.antt =====
-- Runs of db/src/storage.rs on a concrete backend, and the theorems at concrete inputs.
use infovulcan.Common.{
  ℕ, ◌+◌, ◌^◌, ◌≤◌, ◌<◌, ◌≡◌, refl, ◌⊎◌, false, none, some, List, [], ◌∷◌, arith, length, In, ok,
}
use infovulcan.Common.Int.{pos}
use infovulcan.Common.Word.{to_be_bytes, from_be_bytes}
use infovulcan.Db.Types.{StoredTicket, TicketQuery}
use infovulcan.Db.Sample.{backend, sample_index}
use infovulcan.Db.Tickets.{
  create_ticket, update_ticket, soft_delete_ticket, get_ticket, next_id, bump, write_ticket_indexes,
  write_entries, ticket_index_entries, index_key, index_prefix,
}
use infovulcan.Db.Tickets.Invariant.{row, last_id, IsConsistent}
use infovulcan.Db.Tickets.Start.{empty-IsConsistent, last_id-empty}
use infovulcan.Db.Tickets.Operations.{
  Sets, fresh, updated, marked, create_ticket_lem, update_ticket_lem, soft_delete_ticket_lem,
}
use infovulcan.Db.Query.{
  query_tickets, query_loop, candidates, active_candidates, scan_index_ids, ids_of_values, passes,
}
use infovulcan.Db.Query.Answers.{IsAnswer, query_tickets_answers}

abbrev Db : Type 0
Db = backend.sled.Db

start : Db
start = backend.sled.empty

start-IsConsistent : IsConsistent backend start
unfolding start
start-IsConsistent = empty-IsConsistent backend

last_id-start : last_id backend start ≡ 0
unfolding start
last_id-start = last_id-empty backend

one : Db
one = (create_ticket backend start (7 ∷ []) sample_index).1

create_ticket_lem_example :
    ((create_ticket backend start (7 ∷ []) sample_index).0 ≡ ok (last_id backend start + 1))
    × (row backend start (last_id backend start + 1) ≡ none)
    × Sets backend start
        (create_ticket backend start (7 ∷ []) sample_index).1
        (last_id backend start + 1)
        (fresh (7 ∷ []) sample_index)
    × (last_id backend (create_ticket backend start (7 ∷ []) sample_index).1
        ≡ last_id backend start + 1)
create_ticket_lem_example =
    create_ticket_lem backend start (7 ∷ []) sample_index start-IsConsistent
      (rw last_id-start (omega arith))

one-IsConsistent : IsConsistent backend one
unfolding one
one-IsConsistent = create_ticket_lem_example.2.consistent

row-one : row backend one 1 ≡ some (fresh (7 ∷ []) sample_index)
unfolding one
row-one = rw last_id-start at create_ticket_lem_example.2.set

update_ticket_lem_example :
    ((update_ticket backend one 1 (8 ∷ []) sample_index).0 ≡ ok tt)
    × Sets backend one
        (update_ticket backend one 1 (8 ∷ []) sample_index).1
        1
        (updated (fresh (7 ∷ []) sample_index) (8 ∷ []) sample_index)
    × (last_id backend (update_ticket backend one 1 (8 ∷ []) sample_index).1 ≡ last_id backend one)
update_ticket_lem_example =
    update_ticket_lem backend one 1 (8 ∷ []) sample_index (fresh (7 ∷ []) sample_index)
      one-IsConsistent (omega arith) row-one

soft_delete_ticket_lem_example :
    ((soft_delete_ticket backend one 1 (pos 5)).0 ≡ ok tt)
    × Sets backend one
        (soft_delete_ticket backend one 1 (pos 5)).1
        1
        (marked (fresh (7 ∷ []) sample_index) (pos 5))
    × (last_id backend (soft_delete_ticket backend one 1 (pos 5)).1 ≡ last_id backend one)
soft_delete_ticket_lem_example =
    soft_delete_ticket_lem backend one 1 (pos 5) (fresh (7 ∷ []) sample_index) one-IsConsistent
      (omega arith) row-one

abbrev open_tickets : TicketQuery
open_tickets = record {
  status = some 0;
  assigned_to_uuid = none;
  account_uuid = none;
  project = none;
  include_deleted = false;
  limit = 0;
}

query_tickets_answers_example :
    (rs : List (ℕ × StoredTicket)) × (query_tickets backend one open_tickets ≡ ok rs)
    × ((id : ℕ) (stored : StoredTicket)
        → In (id, stored) rs
        → (row backend one id ≡ some stored) × IsAnswer open_tickets stored)
    × ((open_tickets.limit ≡ 0) ⊎ (length rs ≤ open_tickets.limit))
    × ((id : ℕ) (stored : StoredTicket)
        → open_tickets.limit ≡ 0
        → id < 2 ^ 64
        → row backend one id ≡ some stored
        → IsAnswer open_tickets stored
        → In (id, stored) rs)
query_tickets_answers_example = query_tickets_answers backend one open_tickets one-IsConsistent

-- The whole path, evaluated: the ticket just created is what the query answers.
query_runs : query_tickets backend one open_tickets ≡ ok ((1, fresh (7 ∷ []) sample_index) ∷ [])
unfolding one start backend query_tickets query_loop candidates active_candidates scan_index_ids
    ids_of_values passes create_ticket get_ticket next_id bump write_ticket_indexes write_entries
    ticket_index_entries index_key index_prefix to_be_bytes from_be_bytes
query_runs = refl
