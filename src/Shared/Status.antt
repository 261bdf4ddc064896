-- ===== src/Shared/Status.antt =====
-- The status of a ticket and its life cycle: `TicketStatus` of shared/src/ticket.rs.
pub mod Lifecycle
use infovulcan.Common.{
  ℕ, zero, suc, ◌+◌, ◌-◌, ◌*◌, ◌/◌, ◌%◌, ◌^◌, ◌≤◌, ◌<◌, ◌≡◌, refl, sym, ap, ◌∙◌, subst, ◌≢◌, ◌↔◌,
  ◌⊎◌, inl, inr, Bool, true, false, not, ◌&&◌, ◌||◌, Option, none, some, List, [], ◌∷◌, ◌++◌, map,
  arith, ltb, leb, ◌==◌, if◌then◌else◌, ltb→lt, lt→ltb, leb→le, le→leb, ==_iff, tests, Bool-cases,
  Option-cases, length, length-append, take, drop, replicate, filter, In, In-filter, of_In-filter,
  All, All-In, Bytes, ascii, beq, beq_refl, eq_of_beq, starts_with, starts_with-append, blt, ble,
  blt_irrefl, blt_trans, blt_total, Error, not_found, corrupt, Result, ok, err, or_err,
}

pub data TicketStatus : Type 0 where
  open_ : TicketStatus
  awaiting_customer : TicketStatus
  awaiting_isp : TicketStatus
  awaiting_partner : TicketStatus
  support_hold : TicketStatus
  handed_off : TicketStatus
  appointment_scheduled : TicketStatus
  ebond_received : TicketStatus
  voicemail_received : TicketStatus
  auto_close : TicketStatus
  closed : TicketStatus

unfoldable pub status_as_u8 : TicketStatus → ℕ
status_as_u8 open_ = 0
status_as_u8 awaiting_customer = 1
status_as_u8 awaiting_isp = 2
status_as_u8 awaiting_partner = 3
status_as_u8 support_hold = 4
status_as_u8 handed_off = 5
status_as_u8 appointment_scheduled = 6
status_as_u8 ebond_received = 7
status_as_u8 voicemail_received = 8
status_as_u8 auto_close = 254
status_as_u8 closed = 255

unfoldable pub status_from_u8 : ℕ → TicketStatus
status_from_u8 n =
    if n == 1
    then awaiting_customer
    else if n == 2
    then awaiting_isp
    else if n == 3
    then awaiting_partner
    else if n == 4
    then support_hold
    else if n == 5
    then handed_off
    else if n == 6
    then appointment_scheduled
    else if n == 7
    then ebond_received
    else if n == 8
    then voicemail_received
    else if n == 254
    then auto_close
    else if n == 255
    then closed
    else open_

unfoldable pub requires_resolution : TicketStatus → Bool
requires_resolution closed = true
requires_resolution auto_close = true
requires_resolution _ = false

unfoldable pub requires_next_action : TicketStatus → Bool
requires_next_action open_ = true
requires_next_action awaiting_customer = true
requires_next_action awaiting_isp = true
requires_next_action awaiting_partner = true
requires_next_action _ = false

unfoldable pub is_terminal : TicketStatus → Bool
is_terminal closed = true
is_terminal auto_close = true
is_terminal _ = false

unfoldable pub allowed_transitions : TicketStatus → List TicketStatus
allowed_transitions open_ =
    awaiting_customer ∷ awaiting_isp ∷ awaiting_partner ∷ support_hold ∷ handed_off
    ∷ appointment_scheduled ∷ ebond_received ∷ voicemail_received ∷ closed ∷ auto_close ∷ []
allowed_transitions awaiting_customer =
    open_ ∷ support_hold ∷ appointment_scheduled ∷ ebond_received ∷ voicemail_received ∷ closed
    ∷ auto_close ∷ []
allowed_transitions awaiting_isp = open_ ∷ support_hold ∷ ebond_received ∷ closed ∷ auto_close ∷ []
allowed_transitions awaiting_partner = open_ ∷ support_hold ∷ handed_off ∷ closed ∷ auto_close ∷ []
allowed_transitions support_hold =
    open_ ∷ awaiting_customer ∷ awaiting_isp ∷ awaiting_partner ∷ appointment_scheduled ∷ closed
    ∷ auto_close ∷ []
allowed_transitions handed_off = open_ ∷ awaiting_partner ∷ closed ∷ auto_close ∷ []
allowed_transitions appointment_scheduled =
    open_ ∷ awaiting_customer ∷ support_hold ∷ closed ∷ auto_close ∷ []
allowed_transitions ebond_received = open_ ∷ awaiting_isp ∷ closed ∷ auto_close ∷ []
allowed_transitions voicemail_received = open_ ∷ awaiting_customer ∷ closed ∷ auto_close ∷ []
allowed_transitions _ = []

-- The derived `PartialEq`: an enum without fields is compared by discriminant.
abbrev pub status_eq : TicketStatus → TicketStatus → Bool
status_eq s t = status_as_u8 s == status_as_u8 t

-- `slice::contains`.
unfoldable pub contains : List TicketStatus → TicketStatus → Bool
contains [] t = false
contains (s ∷ ss) t = status_eq s t || contains ss t

unfoldable pub can_transition_to : TicketStatus → TicketStatus → Bool
can_transition_to s t = status_eq s t || contains (allowed_transitions s) t
