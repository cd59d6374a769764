-- ===== src/Client/Value.antt =====
-- `SNMPValue::setBytes`, the integer constructors, and `copyValue` of src/SNMPClient.cpp.
use arduino_snmp_manager.Common.{
  ℕ, ◌%◌, ◌^◌, ◌≤◌, ◌<◌, ◌≡◌, Bool, true, false, not, ◌&&◌, ◌||◌, List, [], ◌∷◌, arith, length, ltb,
  leb, ◌==◌, if◌then◌else◌,
}
use arduino_snmp_manager.Config.{max_oid_length, snmp_value_max_length}
use arduino_snmp_manager.Ber.Tag.{
  AsnType, integer, string, oid, network_address, counter32, opaque, counter64, nosuchobject,
  nosuchinstance, endofmibview, same_type,
}
use arduino_snmp_manager.Ber.Address.{ip_bytes}
use arduino_snmp_manager.Ber.Complex.{
  Container, integer_type, octet_type, raw_type, oid_type, null_type, network_address_type,
  counter64_type, complex_type,
}
use arduino_snmp_manager.Client.Types.{
  Status, success, invalid_configuration, capacity_exceeded, missing, unsupported, is_ok, SnmpValue,
  empty_value,
}

abbrev pub has_zero : List ℕ → Bool
has_zero [] = false
has_zero (b ∷ rest) = (b == 0) || has_zero rest

abbrev is_bytes_type : AsnType → Bool
is_bytes_type string = true
is_bytes_type opaque = true
is_bytes_type oid = true
is_bytes_type network_address = true
is_bytes_type type = false

-- `SNMPValue::setBytes` on data that is not null: the status, and the value afterwards.
unfoldable pub set_bytes : List ℕ → AsnType → SnmpValue → Status × SnmpValue
set_bytes data_bytes tag value =
    let size = length data_bytes in
    let is_oid = same_type tag oid in
    if not (is_bytes_type tag)
    then (invalid_configuration, value)
    else if ltb snmp_value_max_length size || (is_oid && leb max_oid_length size)
    then (capacity_exceeded, value)
    else if (same_type tag network_address && not (size == 4))
        || (is_oid && ((size == 0) || has_zero data_bytes))
    then (invalid_configuration, value)
    else (success, record { type = tag; number = 0; bytes = data_bytes })

-- `SNMPValue::integer32` on the bit pattern, and `SNMPValue::counter32`.
abbrev pub integer32 : ℕ → SnmpValue
integer32 n = record { type = integer; number = n % 2 ^ 32; bytes = [] }

abbrev pub counter32_value : ℕ → SnmpValue
counter32_value n = record { type = counter32; number = n; bytes = [] }

-- `copyValue`: the result of a decoded object, owned.
unfoldable pub copy_value : Container → Status × SnmpValue
unfolding set_bytes
copy_value (integer_type type v) = (success, record { type = type; number = v; bytes = [] })
copy_value (counter64_type v) = (success, record { type = counter64; number = v; bytes = [] })
copy_value (network_address_type ip) =
    set_bytes (ip_bytes ip) network_address (record empty_value { type = network_address })
copy_value (oid_type text) = set_bytes text oid (record empty_value { type = oid })
copy_value (octet_type o) = set_bytes o.value string (record empty_value { type = string })
copy_value (raw_type opaque v) = set_bytes v opaque (record empty_value { type = opaque })
copy_value (raw_type nosuchobject v) = (missing, record empty_value { type = nosuchobject })
copy_value (raw_type nosuchinstance v) = (missing, record empty_value { type = nosuchinstance })
copy_value (raw_type endofmibview v) = (missing, record empty_value { type = endofmibview })
copy_value (raw_type type v) = (unsupported, record empty_value { type = type })
copy_value null_type = (success, empty_value)
copy_value (complex_type type vs) = (unsupported, record empty_value { type = type })

-- What `setBytes` promises of a stored value.
pub record IsStorable (data_bytes : List ℕ) (tag : AsnType) : Type 0 where
  pub kind : is_bytes_type tag ≡ true
  pub short : length data_bytes ≤ snmp_value_max_length
  pub oid_short :
      same_type tag oid ≡ true
      → (0 < length data_bytes)
        × (length data_bytes < max_oid_length)
        × (has_zero data_bytes ≡ false)
  pub address_size : same_type tag network_address ≡ true → length data_bytes ≡ 4

pub set_bytes_kept :
    (data_bytes : List ℕ) (tag : AsnType) (value : SnmpValue)
    → is_ok (set_bytes data_bytes tag value).0 ≡ false
    → (set_bytes data_bytes tag value).1 ≡ value
unfolding set_bytes
set_bytes_kept data_bytes tag value h = ground arith

pub set_bytes_stored :
    (data_bytes : List ℕ) (tag : AsnType) (value : SnmpValue)
    → is_ok (set_bytes data_bytes tag value).0 ≡ true
    → (set_bytes data_bytes tag value).1 ≡ record { type = tag; number = 0; bytes = data_bytes }
unfolding set_bytes
set_bytes_stored data_bytes tag value h = ground arith
