-- ===== src/Shared/Codes.antt =====
-- The enums of shared/src/ticket.rs that are stored and sent as one byte: their discriminants and
-- the conversions from a byte.
pub mod RoundTrip
use infovulcan.Common.{ℕ, ◌==◌, if◌then◌else◌}

pub data Symptom : Type 0 where
  unknown : Symptom
  broadband_down : Symptom
  broadband_intermittent : Symptom
  packet_loss : Symptom
  power : Symptom
  vpn_issue : Symptom
  configuration_error : Symptom
  hardware_failure : Symptom
  software_bug : Symptom
  security_incident : Symptom
  slow_bandwidth : Symptom
  duplexing_mismatch : Symptom
  latency_issues : Symptom
  jitter_problems : Symptom
  dns_issues : Symptom
  other : Symptom

pub data TicketPriority : Type 0 where
  unknown : TicketPriority
  hard_down : TicketPriority
  primary_down : TicketPriority
  backup_down : TicketPriority
  intermittent : TicketPriority
  packet_loss : TicketPriority

pub data Resolution : Type 0 where
  none : Resolution
  resolved : Resolution
  workaround : Resolution
  cannot_reproduce : Resolution
  unsupported_issue : Resolution
  duplicate : Resolution
  service_outage : Resolution
  user_error : Resolution

-- The discriminant of `#[repr(u8)]`, which `as` gives.
unfoldable pub symptom_as_u8 : Symptom → ℕ
symptom_as_u8 unknown = 0
symptom_as_u8 broadband_down = 1
symptom_as_u8 broadband_intermittent = 2
symptom_as_u8 packet_loss = 3
symptom_as_u8 power = 4
symptom_as_u8 vpn_issue = 5
symptom_as_u8 configuration_error = 6
symptom_as_u8 hardware_failure = 7
symptom_as_u8 software_bug = 8
symptom_as_u8 security_incident = 9
symptom_as_u8 slow_bandwidth = 10
symptom_as_u8 duplexing_mismatch = 11
symptom_as_u8 latency_issues = 12
symptom_as_u8 jitter_problems = 13
symptom_as_u8 dns_issues = 14
symptom_as_u8 other = 255

unfoldable pub symptom_from_u8 : ℕ → Symptom
symptom_from_u8 n =
    if n == 1
    then Symptom.broadband_down
    else if n == 2
    then Symptom.broadband_intermittent
    else if n == 3
    then Symptom.packet_loss
    else if n == 4
    then Symptom.power
    else if n == 5
    then Symptom.vpn_issue
    else if n == 6
    then Symptom.configuration_error
    else if n == 7
    then Symptom.hardware_failure
    else if n == 8
    then Symptom.software_bug
    else if n == 9
    then Symptom.security_incident
    else if n == 10
    then Symptom.slow_bandwidth
    else if n == 11
    then Symptom.duplexing_mismatch
    else if n == 12
    then Symptom.latency_issues
    else if n == 13
    then Symptom.jitter_problems
    else if n == 14
    then Symptom.dns_issues
    else if n == 255
    then Symptom.other
    else Symptom.unknown

unfoldable pub priority_as_u8 : TicketPriority → ℕ
priority_as_u8 unknown = 0
priority_as_u8 hard_down = 1
priority_as_u8 primary_down = 2
priority_as_u8 backup_down = 3
priority_as_u8 intermittent = 4
priority_as_u8 packet_loss = 5

unfoldable pub priority_from_u8 : ℕ → TicketPriority
priority_from_u8 n =
    if n == 1
    then TicketPriority.hard_down
    else if n == 2
    then TicketPriority.primary_down
    else if n == 3
    then TicketPriority.backup_down
    else if n == 4
    then TicketPriority.intermittent
    else if n == 5
    then TicketPriority.packet_loss
    else TicketPriority.unknown

unfoldable pub resolution_as_u8 : Resolution → ℕ
resolution_as_u8 none = 0
resolution_as_u8 resolved = 1
resolution_as_u8 workaround = 2
resolution_as_u8 cannot_reproduce = 3
resolution_as_u8 unsupported_issue = 4
resolution_as_u8 duplicate = 5
resolution_as_u8 service_outage = 6
resolution_as_u8 user_error = 7

unfoldable pub resolution_from_u8 : ℕ → Resolution
resolution_from_u8 n =
    if n == 1
    then Resolution.resolved
    else if n == 2
    then Resolution.workaround
    else if n == 3
    then Resolution.cannot_reproduce
    else if n == 4
    then Resolution.unsupported_issue
    else if n == 5
    then Resolution.duplicate
    else if n == 6
    then Resolution.service_outage
    else if n == 7
    then Resolution.user_error
    else Resolution.none
