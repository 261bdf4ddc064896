-- ===== src/Custodian/Wire/Tickets.antt =====
-- A ticket on the wire: `domain_to_proto` of custodian/src/server.rs and the maps of its parts.
use infovulcan.Common.{ℕ, Option, none, some, List, [], ◌∷◌, ◌++◌, map, Bytes, ascii}
use infovulcan.Common.Int.{ℤ, pos}
use infovulcan.Shared.Codes.{symptom_as_u8, priority_as_u8, resolution_as_u8}
use infovulcan.Shared.Status.{status_as_u8}
use infovulcan.Shared.Ticket.{MacAddress, NetworkDevice, HistoryEntry, Ticket}
use infovulcan.Custodian.Wire.{Timestamp, Clock, ProtoNextAction, map_next_action}

-- The fields of each kind of device.
pub record DeviceFields : Type 0 where
  pub make : Bytes
  pub model : Bytes
  pub mac_address : Option Bytes
  pub serial_number : Option Bytes

pub data DeviceType : Type 0 where
  dsl_modem : DeviceFields → DeviceType
  coax_modem : DeviceFields → DeviceType
  ont : DeviceFields → DeviceType
  fixed_wireless_antenna : DeviceFields → DeviceType
  vpn_gw : DeviceFields → DeviceType
  switch : DeviceFields → DeviceType
  router : DeviceFields → DeviceType
  firewall : DeviceFields → DeviceType

pub record ProtoDevice : Type 0 where
  pub device_type : Option DeviceType

pub record ProtoHistoryEntry : Type 0 where
  pub user_uuid : Bytes
  pub timestamp : Option Timestamp
  pub action : Bytes
  pub details : Bytes

pub record ProtoTicket : Type 0 where
  pub ticket_id : ℕ
  pub customer_ticket_number : Option Bytes
  pub isp_ticket_number : Option Bytes
  pub other_ticket_number : Option Bytes
  pub title : Bytes
  pub project : Bytes
  pub account_uuid : Bytes
  pub symptom : ℤ
  pub priority : ℤ
  pub status : ℤ
  pub next_action : Option ProtoNextAction
  pub resolution : Option ℤ
  pub locked_by_uuid : Option Bytes
  pub assigned_to_uuid : Option Bytes
  pub created_by_uuid : Bytes
  pub created_at : Option Timestamp
  pub updated_by_uuid : Bytes
  pub updated_at : Option Timestamp
  pub history : List ProtoHistoryEntry
  pub ebond : Option Bytes
  pub tracking_url : Option Bytes
  pub network_devices : List ProtoDevice
  pub schema_version : ℕ

abbrev pub map_option : {A B : Type 0} → (A → B) → Option A → Option B
map_option f none = none
map_option f (some a) = some (f a)

unfoldable pub make_proto_fields :
    (make model : Bytes) → Option MacAddress → (serial_number : Option Bytes) → DeviceFields
make_proto_fields make model mac serial_number = record {
  make = make;
  model = model;
  mac_address = map_option (λ (m : MacAddress). m.as_str) mac;
  serial_number = serial_number;
}

unfoldable pub device_type_of : NetworkDevice → DeviceType
device_type_of (NetworkDevice.dsl_modem make model mac sn) =
    DeviceType.dsl_modem (make_proto_fields make model mac sn)
device_type_of (NetworkDevice.coax_modem make model mac sn) =
    DeviceType.coax_modem (make_proto_fields make model mac sn)
device_type_of (NetworkDevice.ont make model mac sn) =
    DeviceType.ont (make_proto_fields make model mac sn)
device_type_of (NetworkDevice.fixed_wireless_antenna make model mac sn) =
    DeviceType.fixed_wireless_antenna (make_proto_fields make model mac sn)
device_type_of (NetworkDevice.vpn_gw make model mac sn) =
    DeviceType.vpn_gw (make_proto_fields make model mac sn)
device_type_of (NetworkDevice.switch make model mac sn) =
    DeviceType.switch (make_proto_fields make model mac sn)
device_type_of (NetworkDevice.router make model mac sn) =
    DeviceType.router (make_proto_fields make model mac sn)
device_type_of (NetworkDevice.firewall make model mac sn) =
    DeviceType.firewall (make_proto_fields make model mac sn)

unfoldable pub map_network_device : NetworkDevice → ProtoDevice
map_network_device device = record { device_type = some (device_type_of device) }

-- A space, an arrow and a space.
abbrev arrow : Bytes
arrow = 32 ∷ 0xE2 ∷ 0x86 ∷ 0x92 ∷ 32 ∷ []

unfoldable pub details_of : (field : Bytes) → (old new : Option Bytes) → Bytes
details_of field (some old) (some new) = field ++ ascii ": " ++ old ++ arrow ++ new
details_of field (some old) none = field ++ ascii ": " ++ old ++ arrow ++ ascii "(removed)"
details_of field none (some new) = field ++ ascii ": (new)" ++ arrow ++ new
details_of field none none = field

module _ {DateTime : Type 0} (c : Clock DateTime) (uuid_string : ℕ → Bytes) where
  unfoldable pub map_history_entry : HistoryEntry DateTime → ProtoHistoryEntry
  map_history_entry entry = record {
    user_uuid = uuid_string entry.user_id;
    timestamp = some (c.to_timestamp entry.timestamp);
    action = entry.field_changed;
    details = details_of entry.field_changed entry.old_value entry.new_value;
  }

  unfoldable pub domain_to_proto : Ticket DateTime → ProtoTicket
  domain_to_proto ticket = record {
    ticket_id = ticket.ticket_id;
    customer_ticket_number = ticket.customer_ticket_number;
    isp_ticket_number = ticket.isp_ticket_number;
    other_ticket_number = ticket.other_ticket_number;
    title = ticket.title;
    project = ticket.project;
    account_uuid = uuid_string ticket.account_uuid;
    symptom = pos (symptom_as_u8 ticket.symptom);
    priority = pos (priority_as_u8 ticket.priority);
    status = pos (status_as_u8 ticket.status);
    next_action = map_next_action c ticket.next_action;
    resolution = map_option (λ r. pos (resolution_as_u8 r)) ticket.resolution;
    locked_by_uuid = map_option uuid_string ticket.locked_by;
    assigned_to_uuid = map_option uuid_string ticket.assigned_to;
    created_by_uuid = uuid_string ticket.created_by;
    created_at = some (c.to_timestamp ticket.created_at);
    updated_by_uuid = uuid_string ticket.updated_by;
    updated_at = some (c.to_timestamp ticket.updated_at);
    history = map map_history_entry ticket.history;
    ebond = ticket.ebond;
    tracking_url = ticket.tracking_url;
    network_devices = map map_network_device ticket.network_devices;
    schema_version = ticket.schema_version;
  }
