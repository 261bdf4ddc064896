-- ===== src/Db/Sample.antt =====
-- A concrete backend for db/src/storage.rs, and tickets to try the calls on.
use infovulcan.Common.{ℕ, refl, Bool, Option, none, some, Bytes, ascii, beq, starts_with, blt}
use infovulcan.Sled.Rows.{find, ins, del, sort}
use infovulcan.Common.Int.{ℤ, pos}
use infovulcan.Serde.Codec.{
  Codec, nat_codec, bytes_codec, bool_codec, int_codec, option_codec, pair_codec, via_codec,
  serde_of,
}
use infovulcan.Sled.Model.{sled_model}
use infovulcan.Db.Types.{Backend, TicketIndexFields, StoredTicket, StoredUser}

abbrev pub IndexFields : Type 0
IndexFields = (ℕ × Bytes) × ((Option Bytes × Bytes) × (Option Bytes × (ℤ × ℤ)))

abbrev pub of_index : TicketIndexFields → IndexFields
of_index i = (
  (i.status, i.account_uuid),
  ((i.assigned_to_uuid, i.project), (i.tracking_url, (i.created_at_unix, i.updated_at_unix))),
)

abbrev pub to_index : IndexFields → TicketIndexFields
to_index p = record {
  status = p.0.0;
  account_uuid = p.0.1;
  assigned_to_uuid = p.1.0.0;
  project = p.1.0.1;
  tracking_url = p.1.1.0;
  created_at_unix = p.1.1.1.0;
  updated_at_unix = p.1.1.1.1;
}

abbrev pub of_ticket : StoredTicket → (Bytes × IndexFields) × (Bool × ℤ)
of_ticket s = ((s.body, of_index s.index), (s.deleted, s.deleted_at_unix))

abbrev pub to_ticket : (Bytes × IndexFields) × (Bool × ℤ) → Option StoredTicket
to_ticket p =
    some (record { body = p.0.0; index = to_index p.0.1; deleted = p.1.0; deleted_at_unix = p.1.1 })

abbrev pub of_user : StoredUser → (Bytes × (Bytes × (Bytes × ℕ))) × (Bool × ℤ)
of_user s =
    ((s.body, (s.index.username, (s.index.email, s.index.role))), (s.deleted, s.deleted_at_unix))

abbrev pub to_user : (Bytes × (Bytes × (Bytes × ℕ))) × (Bool × ℤ) → Option StoredUser
to_user p = some (record {
  body = p.0.0;
  index = record { username = p.0.1.0; email = p.0.1.1.0; role = p.0.1.1.1 };
  deleted = p.1.0;
  deleted_at_unix = p.1.1;
})

abbrev pub index_codec : Codec IndexFields
index_codec = pair_codec (pair_codec nat_codec bytes_codec) (
    pair_codec (pair_codec option_codec bytes_codec)
      (pair_codec option_codec (pair_codec int_codec int_codec)))

unfoldable pub ticket_codec : Codec StoredTicket
ticket_codec =
    via_codec (pair_codec (pair_codec bytes_codec index_codec) (pair_codec bool_codec int_codec))
      of_ticket to_ticket (λ s. refl)

unfoldable pub user_codec : Codec StoredUser
user_codec =
    via_codec
      (pair_codec
        (pair_codec bytes_codec (pair_codec bytes_codec (pair_codec bytes_codec nat_codec)))
        (pair_codec bool_codec int_codec))
      of_user to_user (λ s. refl)

unfoldable pub backend : Backend
unfolding sled_model find ins del sort ticket_codec user_codec serde_of pair_codec via_codec
    bytes_codec nat_codec bool_codec int_codec option_codec beq blt starts_with
backend = record { sled = sled_model; tickets = serde_of ticket_codec; users = serde_of user_codec }

abbrev pub sample_index : TicketIndexFields
sample_index = record {
  status = 0;
  account_uuid = ascii "acme";
  assigned_to_uuid = some (ascii "kim");
  project = ascii "north";
  tracking_url = none;
  created_at_unix = pos 100;
  updated_at_unix = pos 100;
}
