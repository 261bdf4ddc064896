-- ===== src/Custodian/Wire/Actions.antt =====
-- What the conversions of next actions in custodian/src/server.rs keep.
use infovulcan.Common.{◌≡◌, refl, ap, Option, none, some, arith}
use infovulcan.Shared.Ticket.{AutoCloseSchedule, NextAction}
use infovulcan.Custodian.Wire.{
  Clock, ProtoNextAction, auto_close_to_proto, proto_to_auto_close, proto_to_dt, map_next_action,
  proto_to_next_action,
}

pub proto_to_auto_close-auto_close_to_proto :
    (s : AutoCloseSchedule) → proto_to_auto_close (auto_close_to_proto s) ≡ s
unfolding proto_to_auto_close auto_close_to_proto
proto_to_auto_close-auto_close_to_proto s = ground arith

module _ {DateTime : Type 0} (c : Clock DateTime) where
  proto_to_dt-to_timestamp : (t : DateTime) → proto_to_dt c (c.to_timestamp t) ≡ t
  unfolding proto_to_dt
  proto_to_dt-to_timestamp t = rw (c.nanos-to_timestamp t, c.from_timestamp-to_timestamp t) refl

  -- The receiver of the message, who reads an absent one as no action.
  abbrev pub received : Option ProtoNextAction → NextAction DateTime
  received none = NextAction.no_action
  received (some action) = proto_to_next_action c action

  pub received-map_next_action : (a : NextAction DateTime) → received (map_next_action c a) ≡ a
  unfolding map_next_action proto_to_next_action
  received-map_next_action NextAction.no_action = refl
  received-map_next_action (NextAction.follow_up t) =
      ap NextAction.follow_up (proto_to_dt-to_timestamp t)
  received-map_next_action (NextAction.appointment t) =
      ap NextAction.appointment (proto_to_dt-to_timestamp t)
  received-map_next_action (NextAction.auto_close_at s) =
      ap NextAction.auto_close_at (proto_to_auto_close-auto_close_to_proto s)
