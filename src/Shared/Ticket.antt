-- ===== src/Shared/Ticket.antt =====
-- The ticket of shared/src/ticket.rs. A date is of a type of its own, a UUID its 128-bit number, and
-- the map of custom fields a list of pairs.
pub mod Validation
use infovulcan.Common.{
  ℕ, Bool, true, false, ◌&&◌, Option, none, some, List, [], if◌then◌else◌, Bytes,
}
use infovulcan.Common.Outcome.{Outcome, done, failed}
use infovulcan.Shared.Codes.{Symptom, TicketPriority, Resolution}
use infovulcan.Shared.Status.{TicketStatus, open_, requires_resolution, requires_next_action}

-- A validated address, by its text.
pub record MacAddress : Type 0 where
  pub as_str : Bytes

pub data NetworkDevice : Type 0 where
  dsl_modem :
      (make model : Bytes) (mac_address : Option MacAddress) (serial_number : Option Bytes)
      → NetworkDevice
  coax_modem :
      (make model : Bytes) (mac_address : Option MacAddress) (serial_number : Option Bytes)
      → NetworkDevice
  ont :
      (make model : Bytes) (mac_address : Option MacAddress) (serial_number : Option Bytes)
      → NetworkDevice
  fixed_wireless_antenna :
      (make model : Bytes) (mac_address : Option MacAddress) (serial_number : Option Bytes)
      → NetworkDevice
  vpn_gw :
      (make model : Bytes) (mac_address : Option MacAddress) (serial_number : Option Bytes)
      → NetworkDevice
  switch :
      (make model : Bytes) (mac_address : Option MacAddress) (serial_number : Option Bytes)
      → NetworkDevice
  router :
      (make model : Bytes) (mac_address : Option MacAddress) (serial_number : Option Bytes)
      → NetworkDevice
  firewall :
      (make model : Bytes) (mac_address : Option MacAddress) (serial_number : Option Bytes)
      → NetworkDevice

pub data AutoCloseSchedule : Type 0 where
  end_of_day : AutoCloseSchedule
  hours24 : AutoCloseSchedule
  hours48 : AutoCloseSchedule
  hours72 : AutoCloseSchedule

pub data NextAction (DateTime : Type 0) : Type 0 where
  no_action : NextAction DateTime
  follow_up : DateTime → NextAction DateTime
  appointment : DateTime → NextAction DateTime
  auto_close_at : AutoCloseSchedule → NextAction DateTime

pub record HistoryEntry (DateTime : Type 0) : Type 0 where
  pub timestamp : DateTime
  pub user_id : ℕ
  pub field_changed : Bytes
  pub old_value : Option Bytes
  pub new_value : Option Bytes

pub record Ticket (DateTime : Type 0) : Type 0 where
  pub ticket_id : ℕ
  pub customer_ticket_number : Option Bytes
  pub isp_ticket_number : Option Bytes
  pub other_ticket_number : Option Bytes
  pub title : Bytes
  pub project : Bytes
  pub account_uuid : ℕ
  pub symptom : Symptom
  pub priority : TicketPriority
  pub status : TicketStatus
  pub next_action : NextAction DateTime
  pub resolution : Option Resolution
  pub locked_by : Option ℕ
  pub assigned_to : Option ℕ
  pub created_by : ℕ
  pub created_at : DateTime
  pub updated_by : ℕ
  pub updated_at : DateTime
  pub history : List (HistoryEntry DateTime)
  pub ebond : Option Bytes
  pub tracking_url : Option Bytes
  pub network_devices : List NetworkDevice
  pub schema_version : ℕ
  pub custom_fields : List (Bytes × Bytes)

pub data ValidationError : Type 0 where
  needs_resolution : TicketStatus → ValidationError
  needs_next_action : TicketStatus → ValidationError

abbrev pub is_none {ℓ} : {A : Type ℓ} → Option A → Bool
is_none none = true
is_none (some a) = false

abbrev pub is_no_action : {DateTime : Type 0} → NextAction DateTime → Bool
is_no_action no_action = true
is_no_action _ = false

module _ {DateTime : Type 0} where
  -- `Ticket::new`; the clock is an argument.
  unfoldable pub new : DateTime → ℕ → Bytes → Bytes → ℕ → Symptom → ℕ → Ticket DateTime
  new now ticket_id title project account_uuid symptom created_by = record {
    ticket_id = ticket_id;
    customer_ticket_number = none;
    isp_ticket_number = none;
    other_ticket_number = none;
    title = title;
    project = project;
    account_uuid = account_uuid;
    symptom = symptom;
    priority = TicketPriority.unknown;
    status = open_;
    next_action = no_action;
    resolution = none;
    locked_by = none;
    assigned_to = none;
    created_by = created_by;
    created_at = now;
    updated_by = created_by;
    updated_at = now;
    history = [];
    ebond = none;
    tracking_url = none;
    network_devices = [];
    schema_version = 1;
    custom_fields = [];
  }

  unfoldable pub validate : Ticket DateTime → Outcome ValidationError (Unit {0})
  validate t =
      if requires_resolution t.status && is_none t.resolution
      then failed (needs_resolution t.status)
      else if requires_next_action t.status && is_no_action t.next_action
      then failed (needs_next_action t.status)
      else done tt
