-- ===== src/Client/Types.antt =====
-- The types of src/SNMPClient.h: status codes, values, results, devices, operations and the client.
use arduino_snmp_manager.Common.{ℕ, Bool, List, [], ◌==◌}
use arduino_snmp_manager.Ber.Tag.{AsnType, nulltype}
use arduino_snmp_manager.Ber.Address.{IpAddress}

-- `SNMPStatus::Code`.
pub data Status : Type 0 where
  success pending busy invalid_address invalid_configuration invalid_oid : Status
  capacity_exceeded not_started transport_error timeout cancelled missing : Status
  type_mismatch protocol_error partial unsupported allocation_failure : Status

-- The enumerator's number, by which codes are compared.
abbrev pub code : Status → ℕ
code success = 0
code pending = 1
code busy = 2
code invalid_address = 3
code invalid_configuration = 4
code invalid_oid = 5
code capacity_exceeded = 6
code not_started = 7
code transport_error = 8
code timeout = 9
code cancelled = 10
code missing = 11
code type_mismatch = 12
code protocol_error = 13
code partial = 14
code unsupported = 15
code allocation_failure = 16

-- `SNMPStatus::ok` and the test `code() == Pending`.
abbrev pub is_ok : Status → Bool
is_ok s = code s == 0

abbrev pub is_pending : Status → Bool
is_pending s = code s == 1

-- `SNMPValue`; `length` is the length of `bytes`. Copies share an immutable payload, so a value is
-- its content.
pub record SnmpValue : Type 0 where
  pub type : AsnType
  pub number : ℕ
  pub bytes : List ℕ

-- `SNMPValue()`.
abbrev pub empty_value : SnmpValue
empty_value = record { type = nulltype; number = 0; bytes = [] }

-- `SNMPResult`.
pub record SnmpResult : Type 0 where
  pub oid : List ℕ
  pub value : SnmpValue
  pub status : Status
  pub expected : AsnType

-- `SNMPVersion`: the wire value is 0 or 1.
pub data SnmpVersion : Type 0 where
  version1 version2c : SnmpVersion

abbrev pub version_number : SnmpVersion → ℕ
version_number version1 = 0
version_number version2c = 1

-- `SNMPDevice`.
pub record Device : Type 0 where
  pub address : IpAddress
  pub port : ℕ
  pub community : List ℕ
  pub version : SnmpVersion
  pub status : Status
  pub timeout_ms : ℕ
  pub retries : ℕ

-- `SNMPOperation`: `results` are the first `count_` cells; `streaming` says that `onValue_` is set.
pub record Operation : Type 0 where
  pub device : Device
  pub results : List SnmpResult
  pub capacity : ℕ
  pub mode : AsnType
  pub walking : Bool
  pub root : List ℕ
  pub cursor : List ℕ
  pub streaming : Bool
  pub status : Status
  pub completed : Bool
  pub offset : ℕ
  pub batch : ℕ
  pub batch_limit : ℕ
  pub id : ℕ
  pub agent_error : ℕ
  pub agent_error_index : ℕ
  pub sent_at : ℕ
  pub attempts : ℕ
  pub sent : Bool
  pub started_at : ℕ

-- `SNMPOperation::pending`.
abbrev pub op_pending : Operation → Bool
op_pending op = is_pending op.status
