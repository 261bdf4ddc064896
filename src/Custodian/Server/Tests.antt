-- ===== src/Custodian/Server/Tests.antt =====
-- Updates through custodian/src/server.rs at a concrete lock, ticket and database.
use infovulcan.Common.{
  ℕ, ◌≡◌, refl, inr, true, Option, none, some, [], ◌∷◌, arith, Bytes, ascii, beq,
}
use infovulcan.Common.Int.{ℤ, pos}
use infovulcan.Common.Word.{to_be_bytes}
use infovulcan.Common.Outcome.{done, failed}
use infovulcan.Shared.Codes.{Symptom}
use infovulcan.Shared.Status.{
  status_from_u8, status_as_u8, can_transition_to, contains, allowed_transitions,
}
use infovulcan.Shared.Ticket.{Ticket, new}
use infovulcan.Custodian.Types.{is_expired}
use infovulcan.Custodian.Locks.{new_lock, acquire_lock_at, get_lock_info}
use infovulcan.Custodian.Locks.Table.{
  lock, IsReadable, empty-IsReadable, acquire_lock_at-IsReadable, lock-acquire_lock_at,
}
use infovulcan.Custodian.Sample.{backend, lock_codec}
use infovulcan.Sled.Model.{sled_model}
use infovulcan.Sled.Rows.{find, ins}
use infovulcan.Serde.Codec.{serde_of, via_codec, pair_codec, nat_codec, int_codec}
use infovulcan.Custodian.Server.{
  Client, Request, lock_not_held, update_ticket, prepare, check_updater, check_lock, fetch,
  decrypt_ticket, with_status, with_assignee, ticket_index,
}
use infovulcan.Custodian.Server.Updates.{Admits, update_ticket_refused, update_ticket_guarded}

abbrev Db : Type 0
Db = backend.sled.Db

abbrev number : Bytes → Option ℕ
number [] = none
number (x ∷ xs) = some x

abbrev ticket : ℕ → Ticket ℤ
ticket code = record (new (pos 10) 1 (ascii "down") (ascii "north") 5 Symptom.power 7) {
  status = status_from_u8 code;
}

abbrev restored : Bytes → Option (Ticket ℤ)
restored [] = none
restored (x ∷ xs) = some (ticket x)

-- The database keeps the status of one ticket.
abbrev client : Client ℤ ℕ
client = record {
  parse_uuid = number;
  uuid_string = λ u. u ∷ [];
  timestamp = λ t. t;
  encrypt_ticket = λ t. some (status_as_u8 t.status ∷ []);
  decrypt_body = restored;
  has_db_client = true;
  get_ticket = λ s id. some (some (id, s ∷ []));
  update_ticket = λ s id body index. (true, index.status);
}

abbrev request : ℕ → Request backend client
request user = record {
  ticket_id = 1;
  title = none;
  project = none;
  symptom = none;
  priority = none;
  status = some (pos 1);
  next_action = none;
  resolution = none;
  assigned_to_uuid = none;
  updated_by_uuid = some (user ∷ []);
}

locked : Db
locked = acquire_lock_at backend backend.sled.empty 1 7 (pos 100) (pos 60)

locked-IsReadable : IsReadable backend locked
unfolding locked
locked-IsReadable =
    acquire_lock_at-IsReadable backend backend.sled.empty 1 7 (pos 100) (pos 60)
      (empty-IsReadable backend)

lock-locked : lock backend locked 1 ≡ some (new_lock backend 1 7 (pos 100) (pos 60))
unfolding locked
lock-locked =
    lock-acquire_lock_at backend backend.sled.empty 1 7 (pos 100) (pos 60) 1 (omega arith)
      (omega arith)

update_ticket_refused_example :
    update_ticket backend client locked 0 (request 8) (pos 120) (pos 120)
    ≡ (failed lock_not_held, 0)
unfolding check_updater is_expired
update_ticket_refused_example =
    update_ticket_refused backend client locked 0 (request 8) (pos 120) (pos 120) 8 lock_not_held
      locked-IsReadable refl (rw lock-locked (inr (refl, omega arith, refl)))

abbrev moved : Ticket ℤ
moved = record (ticket 1) { updated_by = 7; updated_at = pos 120 }

moves : (update_ticket backend client locked 0 (request 7) (pos 120) (pos 120)).0 ≡ done moved
unfolding locked update_ticket prepare check_updater check_lock fetch decrypt_ticket with_status
    with_assignee ticket_index get_lock_info acquire_lock_at is_expired can_transition_to contains
    allowed_transitions status_from_u8 status_as_u8 new to_be_bytes sled_model find beq ins serde_of
    lock_codec via_codec pair_codec nat_codec int_codec
moves = refl

update_ticket_guarded_example : Admits backend client locked 0 (request 7) (pos 120) (pos 120) moved
update_ticket_guarded_example =
    update_ticket_guarded backend client locked 0 (request 7) (pos 120) (pos 120) moved
      locked-IsReadable moves
