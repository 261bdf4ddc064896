-- ===== src/Lbrp/Actions.antt =====
-- Next actions in the REST interface, lbrp/src/routes.rs.
pub mod RoundTrip
use infovulcan.Common.{
  ℕ, zero, suc, ◌+◌, ◌-◌, ◌*◌, ◌/◌, ◌%◌, ◌^◌, ◌≤◌, ◌<◌, ◌≡◌, refl, sym, ap, ◌∙◌, subst, ◌≢◌, ◌↔◌,
  ◌⊎◌, inl, inr, Bool, true, false, not, ◌&&◌, ◌||◌, Option, none, some, List, [], ◌∷◌, ◌++◌, map,
  arith, ltb, leb, ◌==◌, if◌then◌else◌, ltb→lt, lt→ltb, leb→le, le→leb, ==_iff, tests, Bool-cases,
  Option-cases, length, length-append, take, drop, replicate, filter, In, In-filter, of_In-filter,
  All, All-In, Bytes, ascii, beq, beq_refl, eq_of_beq, starts_with, starts_with-append, blt, ble,
  blt_irrefl, blt_trans, blt_total, Error, not_found, corrupt, Result, ok, err, or_err,
  Result-cases,
}
use infovulcan.Common.Int.{ℤ, pos, negsuc}
use infovulcan.Custodian.Wire.{Kind, ProtoNextAction}

-- What a ticket shows; a schedule is its name.
pub data ApiNextAction : Type 0 where
  follow_up : (at_ : ℤ) → ApiNextAction
  appointment : (at_ : ℤ) → ApiNextAction
  auto_close : (schedule : Bytes) → ApiNextAction

-- What a client may set.
pub data ApiNextActionInput : Type 0 where
  clear : ApiNextActionInput
  follow_up : (at_ : ℤ) → ApiNextActionInput
  appointment : (at_ : ℤ) → ApiNextActionInput
  auto_close : (schedule : Bytes) → ApiNextActionInput

-- The name for the number of a schedule.
unfoldable pub schedule_name : ℤ → Bytes
schedule_name (negsuc n) = ascii "end_of_day"
schedule_name (pos n) =
    if n == 2
    then ascii "hours_24"
    else if n == 3
    then ascii "hours_48"
    else if n == 4
    then ascii "hours_72"
    else ascii "end_of_day"

unfoldable pub map_next_action : ProtoNextAction → Option ApiNextAction
map_next_action action = elim action.kind [
  | none ↦ none
  | some kind ↦ elim kind [
    | Kind.follow_up ts ↦ some (ApiNextAction.follow_up ts.seconds)
    | Kind.appointment ts ↦ some (ApiNextAction.appointment ts.seconds)
    | Kind.auto_close v ↦ some (ApiNextAction.auto_close (schedule_name v))
  ]
]

-- The number for the name of a schedule.
unfoldable pub schedule_number : Bytes → ℤ
schedule_number schedule =
    if beq schedule (ascii "hours_24")
    then pos 2
    else if beq schedule (ascii "hours_48")
    then pos 3
    else if beq schedule (ascii "hours_72")
    then pos 4
    else pos 1

unfoldable pub to_proto_next_action : ApiNextActionInput → ProtoNextAction
to_proto_next_action ApiNextActionInput.clear = record { kind = none }
to_proto_next_action (ApiNextActionInput.follow_up t) = record {
  kind = some (Kind.follow_up (record { seconds = t; nanos = pos 0 }));
}
to_proto_next_action (ApiNextActionInput.appointment t) = record {
  kind = some (Kind.appointment (record { seconds = t; nanos = pos 0 }));
}
to_proto_next_action (ApiNextActionInput.auto_close schedule) = record {
  kind = some (Kind.auto_close (schedule_number schedule));
}
