-- ===== src/Custodian/Wire.antt =====
-- The next action of a ticket on the wire: the conversions of custodian/src/server.rs, between the
-- ticket and the messages of custodian/proto/custodian.proto.
pub mod Actions
pub mod Tickets
use infovulcan.Common.{
  ℕ, zero, suc, ◌+◌, ◌-◌, ◌*◌, ◌/◌, ◌%◌, ◌^◌, ◌≤◌, ◌<◌, ◌≡◌, refl, sym, ap, ◌∙◌, subst, ◌≢◌, ◌↔◌,
  ◌⊎◌, inl, inr, Bool, true, false, not, ◌&&◌, ◌||◌, Option, none, some, List, [], ◌∷◌, ◌++◌, map,
  arith, ltb, leb, ◌==◌, if◌then◌else◌, ltb→lt, lt→ltb, leb→le, le→leb, ==_iff, tests, Bool-cases,
  Option-cases, length, length-append, take, drop, replicate, filter, In, In-filter, of_In-filter,
  All, All-In, Bytes, ascii, beq, beq_refl, eq_of_beq, starts_with, starts_with-append, blt, ble,
  blt_irrefl, blt_trans, blt_total, Error, not_found, corrupt, Result, ok, err, or_err,
  Result-cases,
}
use infovulcan.Common.Int.{ℤ, pos, negsuc}
use infovulcan.Shared.Ticket.{AutoCloseSchedule, end_of_day, hours24, hours48, hours72, NextAction}

-- `prost_types::Timestamp`
pub record Timestamp : Type 0 where
  pub seconds : ℤ
  pub nanos : ℤ

pub data Kind : Type 0 where
  follow_up : Timestamp → Kind
  appointment : Timestamp → Kind
  auto_close : ℤ → Kind

pub record ProtoNextAction : Type 0 where
  pub kind : Option Kind

-- `chrono` and `prost_types`: a date is sent and read back, and so is a number of whole seconds that
-- is a date.
pub record Clock (DateTime : Type 0) : Type 0 where
  pub to_timestamp : DateTime → Timestamp
  pub from_timestamp : (seconds : ℤ) → (nanos : ℕ) → Option DateTime
  pub default_time : DateTime
  pub nanos_of : DateTime → ℕ
  pub nanos-to_timestamp : (t : DateTime) → (to_timestamp t).nanos ≡ pos (nanos_of t)
  pub from_timestamp-to_timestamp :
      (t : DateTime) → from_timestamp (to_timestamp t).seconds (nanos_of t) ≡ some t
  pub to_timestamp-from_timestamp :
      (seconds : ℤ) (t : DateTime)
      → from_timestamp seconds 0 ≡ some t
      → to_timestamp t ≡ record { seconds = seconds; nanos = pos 0 }

-- The number of a schedule of the protocol; 0 is unspecified.
unfoldable pub auto_close_to_proto : AutoCloseSchedule → ℤ
auto_close_to_proto end_of_day = pos 1
auto_close_to_proto hours24 = pos 2
auto_close_to_proto hours48 = pos 3
auto_close_to_proto hours72 = pos 4

unfoldable pub proto_to_auto_close : ℤ → AutoCloseSchedule
proto_to_auto_close (negsuc n) = end_of_day
proto_to_auto_close (pos n) =
    if n == 2 then hours24 else if n == 3 then hours48 else if n == 4 then hours72 else end_of_day

-- `u32::try_from(v).unwrap_or(0)` of an i32.
abbrev pub u32_or_zero : ℤ → ℕ
u32_or_zero (pos n) = n
u32_or_zero (negsuc n) = 0

abbrev or_default : {A : Type 0} → Option A → A → A
or_default none a = a
or_default (some b) a = b

module _ {DateTime : Type 0} (c : Clock DateTime) where
  unfoldable pub proto_to_dt : Timestamp → DateTime
  proto_to_dt ts = or_default (c.from_timestamp ts.seconds (u32_or_zero ts.nanos)) c.default_time

  unfoldable pub map_next_action : NextAction DateTime → Option ProtoNextAction
  map_next_action NextAction.no_action = none
  map_next_action (NextAction.follow_up t) =
      some (record { kind = some (Kind.follow_up (c.to_timestamp t)) })
  map_next_action (NextAction.appointment t) =
      some (record { kind = some (Kind.appointment (c.to_timestamp t)) })
  map_next_action (NextAction.auto_close_at schedule) =
      some (record { kind = some (Kind.auto_close (auto_close_to_proto schedule)) })

  unfoldable pub proto_to_next_action : ProtoNextAction → NextAction DateTime
  proto_to_next_action action = elim action.kind [
    | none ↦ NextAction.no_action
    | some kind ↦ elim kind [
      | Kind.follow_up ts ↦ NextAction.follow_up (proto_to_dt ts)
      | Kind.appointment ts ↦ NextAction.appointment (proto_to_dt ts)
      | Kind.auto_close v ↦ NextAction.auto_close_at (proto_to_auto_close v)
    ]
  ]
