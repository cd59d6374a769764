-- ===== src/Client/Notify.antt =====
-- Notifications of src/SNMPClient.cpp and src/SNMPClient.h: traps and INFORM requests, their check, the
-- application's handler, and the acknowledgement.
pub mod Hear
pub mod Inform
use arduino_snmp_manager.Ber.Address.{IpAddress}
use arduino_snmp_manager.Ber.Complex.{
  Container, Values, complex_type, cons, from_buffer, integer_type, network_address_type, nil,
  octet_type, oid_type, serialise, type_of,
}
use arduino_snmp_manager.Ber.Header.{buffer}
use arduino_snmp_manager.Ber.Tag.{
  AsnType, get_response_pdu, inform_request_pdu, integer, nulltype, oid, same_type, structure,
  timestamp, trap_pdu, trapv2_pdu,
}
use arduino_snmp_manager.Client.Types.{
  SnmpResult, SnmpVersion, Status, invalid_configuration, is_ok, success, version1, version2c,
}
use arduino_snmp_manager.Client.Value.{copy_value}
use arduino_snmp_manager.Common.{
  Bool, List, Option, [], false, if◌then◌else◌, leb, length, ltb, none, not, require, same_bytes,
  some, suc, true, zero, ℕ, ◌&&◌, ◌+◌, ◌==◌, ◌>>=◌, ◌^◌, ◌||◌, ◌∷◌,
}
use arduino_snmp_manager.Config.{snmp_packet_length}
use arduino_snmp_manager.Response.{is_valid_binding_type}

-- `SNMPNotification`: 32-bit fields are patterns; `none` is a null pointer, or an
-- address that is not set.
pub record Notification : Type 0 where
  pub peer : IpAddress
  pub port : ℕ
  pub version : SnmpVersion
  pub inform : Bool
  pub request_id : ℕ
  pub enterprise : Option (List ℕ)
  pub agent_address : Option IpAddress
  pub generic_trap : ℕ
  pub specific_trap : ℕ
  pub uptime : ℕ
  pub bindings : Values

-- `SNMPNotification::size`.
unfoldable pub size_of : Values → ℕ
size_of nil = 0
size_of (cons b rest) = size_of rest + 1

-- The loop of `SNMPNotification::read`.
unfoldable pub nth_value : ℕ → Values → Option Container
nth_value index nil = none
nth_value zero (cons b rest) = some b
nth_value (suc index) (cons b rest) = nth_value index rest

-- A binding of a notification as a result. `notify` has checked its shape; another one, which the source
-- does not expect here, counts as missing.
unfoldable pub result_of : Container → Option SnmpResult
result_of (complex_type type (cons (oid_type text) (cons value rest))) =
    let (status, copy) = copy_value value in
    some (record { oid = text; value = copy; status = status; expected = nulltype })
result_of other = none

-- `SNMPNotification::read`: the result, whose status is the answer; `none` is Missing.
unfoldable pub read_binding : ℕ → Values → Option SnmpResult
unfolding nth_value result_of
read_binding index bindings = nth_value index bindings >>= result_of

-- The client's members for notifications, whatever a handler is; `none` is a null pointer.
pub record Listener (Handler : Type 0) : Type 0 where
  pub community : List ℕ
  pub handler : Option Handler

module _ {Handler : Type 0} where
  -- `notifications`, where `none` is a null pointer.
  unfoldable pub notifications :
      Option (List ℕ) → Option Handler → Listener Handler → Listener Handler × Status
  notifications none handler listener = (listener, invalid_configuration)
  notifications (some community) handler listener =
      if leb 64 (length community)
      then (listener, invalid_configuration)
      else (record { community = community; handler = handler }, success)

-- The check of the bindings: each is a STRUCTURE of an OID and a value of a valid type.
abbrev pub is_binding : Bool → Container → Bool
is_binding version2 (complex_type type (cons (oid_type text) (cons value nil))) =
    same_type type structure && is_valid_binding_type (type_of value) version2
is_binding version2 entry = false

abbrev pub are_bindings : Bool → Values → Bool
are_bindings version2 nil = true
are_bindings version2 (cons b rest) = is_binding version2 b && are_bindings version2 rest

-- The fields of a version 1 trap.
unfoldable pub trap_fields : IpAddress → ℕ → Values → Option Notification
trap_fields peer port
      (cons (oid_type enterprise) (
        cons (network_address_type agent) (
          cons (integer_type generic_type generic) (
            cons (integer_type specific_type specific) (
              cons
                (integer_type uptime_type uptime)
                (cons (complex_type list_type bindings) nil)))))) =
    if not (same_type generic_type integer)
      || not (same_type specific_type integer)
      || not (same_type uptime_type timestamp)
      || not (same_type list_type structure)
    then none
    else if leb (2 ^ 31) generic || ltb 6 generic || leb (2 ^ 31) specific
    then none
    else if not (are_bindings false bindings)
    then none
    else some (record {
      peer = peer;
      port = port;
      version = version1;
      inform = false;
      request_id = 0;
      enterprise = some enterprise;
      agent_address = some agent;
      generic_trap = generic;
      specific_trap = specific;
      uptime = uptime;
      bindings = bindings;
    })
trap_fields peer port fields = none

-- `.1.3.6.1.2.1.1.3.0` and `.1.3.6.1.6.3.1.1.4.1.0`.
abbrev pub sys_uptime : List ℕ
sys_uptime =
    b'.' ∷ b'1' ∷ b'.' ∷ b'3' ∷ b'.' ∷ b'6' ∷ b'.' ∷ b'1' ∷ b'.' ∷ b'2' ∷ b'.' ∷ b'1' ∷ b'.' ∷ b'1'
    ∷ b'.' ∷ b'3' ∷ b'.' ∷ b'0' ∷ []

abbrev pub snmp_trap_oid : List ℕ
snmp_trap_oid =
    b'.' ∷ b'1' ∷ b'.' ∷ b'3' ∷ b'.' ∷ b'6' ∷ b'.' ∷ b'1' ∷ b'.' ∷ b'6' ∷ b'.' ∷ b'3' ∷ b'.' ∷ b'1'
    ∷ b'.' ∷ b'1' ∷ b'.' ∷ b'4' ∷ b'.' ∷ b'1' ∷ b'.' ∷ b'0' ∷ []

-- The two bindings that begin an event of version 2; the uptime.
unfoldable pub event_uptime : Values → Option ℕ
unfolding read_binding
event_uptime bindings = do
  uptime ← read_binding 0 bindings
  trap ← read_binding 1 bindings
  require
      (is_ok uptime.status
        && is_ok trap.status
        && same_bytes uptime.oid sys_uptime
        && same_type uptime.value.type timestamp
        && same_bytes trap.oid snmp_trap_oid
        && same_type trap.value.type oid)
      (some uptime.value.number)

-- The fields of a version 2 trap or INFORM request.
unfoldable pub event_fields : IpAddress → ℕ → Bool → Values → Option Notification
unfolding event_uptime
event_fields peer port inform
      (cons (integer_type id_type id) (
        cons
          (integer_type status_type status)
          (cons (integer_type index_type index) (cons (complex_type list_type bindings) nil)))) =
    if not (same_type id_type integer)
      || not (same_type status_type integer)
      || not (same_type index_type integer)
      || not (same_type list_type structure)
    then none
    else if not (status == 0) || not (index == 0)
    then none
    else if not (are_bindings true bindings)
    then none
    else (event_uptime bindings >>= λ uptime. some (record {
      peer = peer;
      port = port;
      version = version2c;
      inform = inform;
      request_id = id;
      enterprise = none;
      agent_address = none;
      generic_trap = 0;
      specific_trap = 0;
      uptime = uptime;
      bindings = bindings;
    }))
event_fields peer port inform fields = none

-- The fields by version and type of the PDU; another pair is dropped.
abbrev pub notification_fields : IpAddress → ℕ → ℕ → AsnType → Values → Option Notification
notification_fields peer port version type fields =
    if (version == 0) && same_type type trap_pdu
    then trap_fields peer port fields
    else if (version == 1) && same_type type trapv2_pdu
    then event_fields peer port false fields
    else if (version == 1) && same_type type inform_request_pdu
    then event_fields peer port true fields
    else none

-- The tree of an acknowledgement: `pdu->_type = GetResponsePDU` in the decoded packet.
abbrev pub acknowledgement : Container → Container → Values → Container
acknowledgement version community fields =
    complex_type structure
      (cons version (cons community (cons (complex_type get_response_pdu fields) nil)))

-- What `notify` does with a packet: the notification that the handler gets, if one, and the bytes of
-- the acknowledgement that it sends, if one.
abbrev Heard : Type 0
Heard = Option Notification × Option (List ℕ)

unfoldable pub notify_packet : List ℕ → (Notification → Bool) → IpAddress → ℕ → Container → Heard
unfolding trap_fields event_fields
notify_packet expected handler peer port
      (complex_type structure_type (
        cons
          (integer_type version_type version)
          (cons (octet_type community) (cons (complex_type type fields) nil)))) =
    if not (same_type version_type integer) || not (same_bytes community.value expected)
    then (none, none)
    else (elim (notification_fields peer port version type fields) [
      | none ↦ (none, none)
      | some notification ↦ (
        some notification,
        if not (handler notification) || not notification.inform
            then none
            else (serialise
                  (acknowledgement (integer_type version_type version) (octet_type community)
                    fields)
                  buffer snmp_packet_length
                >>= λ w. some w.1),
      )
    ])
notify_packet expected handler peer port packet = (none, none)

-- `SNMPClient::notify`, for the bytes in the buffer.
unfoldable pub notify : List ℕ → (Notification → Bool) → IpAddress → ℕ → List ℕ → Heard
unfolding notify_packet
notify expected handler peer port packet = elim (from_buffer structure packet) [
  | none ↦ (none, none)
  | some tree ↦ notify_packet expected handler peer port tree
]
