-- ===== src/Lbrp/Actions/RoundTrip.antt =====
-- A next action set through lbrp/src/routes.rs, kept by custodian/src/server.rs, and shown again.
use infovulcan.Common.{◌≡◌, refl, ap, Option, none, some, arith, if◌then◌else◌, Bytes, ascii, beq}
use infovulcan.Shared.Ticket.{NextAction}
use infovulcan.Custodian.Wire.{
  Clock, Kind, ProtoNextAction, proto_to_auto_close, auto_close_to_proto, proto_to_dt,
  proto_to_next_action,
}
use infovulcan.Custodian.Wire
use infovulcan.Lbrp.Actions.{
  ApiNextAction, ApiNextActionInput, schedule_name, schedule_number, map_next_action,
  to_proto_next_action,
}

-- The four names are kept; another name stands for the end of the day.
abbrev pub canonical : Bytes → Bytes
canonical schedule =
    if beq schedule (ascii "hours_24")
    then ascii "hours_24"
    else if beq schedule (ascii "hours_48")
    then ascii "hours_48"
    else if beq schedule (ascii "hours_72")
    then ascii "hours_72"
    else ascii "end_of_day"

-- What the interface shows for an action that was set.
abbrev pub shown : ApiNextActionInput → Option ApiNextAction
shown ApiNextActionInput.clear = none
shown (ApiNextActionInput.follow_up t) = some (ApiNextAction.follow_up t)
shown (ApiNextActionInput.appointment t) = some (ApiNextAction.appointment t)
shown (ApiNextActionInput.auto_close schedule) =
    some (ApiNextAction.auto_close (canonical schedule))

schedule_lem :
    (schedule : Bytes)
    → schedule_name (auto_close_to_proto (proto_to_auto_close (schedule_number schedule)))
      ≡ canonical schedule
unfolding schedule_name auto_close_to_proto proto_to_auto_close schedule_number
schedule_lem schedule = ground arith

module _ {DateTime : Type 0} (c : Clock DateTime) where
  -- The ticket of an action that custodian keeps, as the interface shows it.
  abbrev pub reply : NextAction DateTime → Option ApiNextAction
  reply action = elim (Wire.map_next_action c action) [ none ↦ none | some m ↦ map_next_action m ]

  -- A time of an action is a date of chrono.
  abbrev pub IsDated : ApiNextActionInput → Type 0
  IsDated ApiNextActionInput.clear = Unit
  IsDated (ApiNextActionInput.follow_up t) = (d : DateTime) × (c.from_timestamp t 0 ≡ some d)
  IsDated (ApiNextActionInput.appointment t) = (d : DateTime) × (c.from_timestamp t 0 ≡ some d)
  IsDated (ApiNextActionInput.auto_close schedule) = Unit

  -- An action with a time that is a date, set by a client, reaches the ticket and is shown as it
  -- was set: the same kind and time, the same schedule if its name is known and the end of the day
  -- if not, and nothing when the action was cleared.
  pub reply-to_proto_next_action :
      (input : ApiNextActionInput)
      → IsDated input
      → reply (proto_to_next_action c (to_proto_next_action input)) ≡ shown input
  unfolding Wire.map_next_action proto_to_next_action to_proto_next_action map_next_action
      proto_to_dt
  reply-to_proto_next_action ApiNextActionInput.clear h = refl
  reply-to_proto_next_action (ApiNextActionInput.follow_up t) (d, e) =
      rw (e, c.to_timestamp-from_timestamp t d e) refl
  reply-to_proto_next_action (ApiNextActionInput.appointment t) (d, e) =
      rw (e, c.to_timestamp-from_timestamp t d e) refl
  reply-to_proto_next_action (ApiNextActionInput.auto_close schedule) h =
      ap (λ s. some (ApiNextAction.auto_close s)) (schedule_lem schedule)
