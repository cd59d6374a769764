-- ===== src/Response.antt =====
-- src/SNMPGetResponse.cpp and src/VarBinds.h: from a decoded tree to the fields of a message. The C
-- `int` and `int32_t` fields are kept as their 32-bit patterns.
pub mod Laws
pub mod RoundTrip
use arduino_snmp_manager.Common.{
  ℕ, ◌+◌, Bool, true, false, not, ◌&&◌, ◌||◌, Option, none, some, List, [], ◌∷◌, length, ltb, ◌==◌,
  if◌then◌else◌, ◌>>=◌, require,
}
use arduino_snmp_manager.Ber.Tag.{
  AsnType, integer, string, nulltype, oid, structure, network_address, counter32, gauge32,
  timestamp, opaque, counter64, nosuchobject, nosuchinstance, endofmibview, get_request_pdu,
  get_next_request_pdu, get_response_pdu, set_request_pdu, get_bulk_request_pdu, inform_request_pdu,
  trapv2_pdu, wire, same_type,
}
use arduino_snmp_manager.Ber.Header.{byte_at}
use arduino_snmp_manager.Ber.Oid.{oid_text}
use arduino_snmp_manager.Ber.Complex.{
  Container, Values, integer_type, octet_type, oid_type, complex_type, nil, cons, type_of,
  from_buffer,
}

-- `VarBind`: the object identifier's text, and the value, whose tag is the member `type`.
pub record VarBind : Type 0 where
  pub oid_text : List ℕ
  pub value : Container

-- The public fields of `SNMPGetResponse` after a successful `parseFrom`.
pub record Response : Type 0 where
  pub community : List ℕ
  pub version : ℕ
  pub request_type : AsnType
  pub request_id : ℕ
  pub error_status : ℕ
  pub error_index : ℕ
  pub var_binds : List VarBind

-- `isValidBindingType`: version 1 has neither Counter64 nor the exceptions.
abbrev pub is_valid_binding_type : AsnType → Bool → Bool
is_valid_binding_type integer version2 = true
is_valid_binding_type string version2 = true
is_valid_binding_type oid version2 = true
is_valid_binding_type nulltype version2 = true
is_valid_binding_type network_address version2 = true
is_valid_binding_type counter32 version2 = true
is_valid_binding_type gauge32 version2 = true
is_valid_binding_type timestamp version2 = true
is_valid_binding_type opaque version2 = true
is_valid_binding_type counter64 version2 = version2
is_valid_binding_type nosuchobject version2 = version2
is_valid_binding_type nosuchinstance version2 = version2
is_valid_binding_type endofmibview version2 = version2
is_valid_binding_type type version2 = false

-- The PDU tags that are accepted, and those that version 1 lacks.
abbrev pub is_supported_request : AsnType → Bool → Bool
is_supported_request get_request_pdu version2 = true
is_supported_request get_next_request_pdu version2 = true
is_supported_request get_response_pdu version2 = true
is_supported_request set_request_pdu version2 = true
is_supported_request get_bulk_request_pdu version2 = version2
is_supported_request inform_request_pdu version2 = version2
is_supported_request trapv2_pdu version2 = version2
is_supported_request type version2 = false

-- One entry of the binding list: a STRUCTURE of an OID and one value, and no third field.
unfoldable pub parse_binding : Bool → Container → Option VarBind
parse_binding version2 (complex_type type (cons (oid_type text) (cons value nil))) =
    require (same_type type structure) (
      require (is_valid_binding_type (type_of value) version2)
        (some (record { oid_text = text; value = value })))
parse_binding version2 entry = none

unfoldable pub parse_bindings : Bool → Values → Option (List VarBind)
unfolding parse_binding
parse_bindings version2 nil = some []
parse_bindings version2 (cons entry rest) = do
  binding ← parse_binding version2 entry
  more ← parse_bindings version2 rest
  some (binding ∷ more)

-- The four fields of the PDU.
unfoldable pub parse_pdu : List ℕ → ℕ → AsnType → Values → Option Response
unfolding parse_bindings
parse_pdu community wire_version request_type
      (cons (integer_type id_type id) (
        cons
          (integer_type status_type status)
          (cons (integer_type index_type index) (cons (complex_type list_type bindings) nil)))) =
    require
      (same_type id_type integer
        && same_type status_type integer
        && same_type index_type integer
        && same_type list_type structure)
      (parse_bindings (wire_version == 1) bindings >>= λ binds. some (record {
        community = community;
        version = wire_version + 1;
        request_type = request_type;
        request_id = id;
        error_status = status;
        error_index = index;
        var_binds = binds;
      }))
parse_pdu community wire_version request_type fields = none

-- The three fields of the message, and the tests on version and PDU type.
unfoldable pub parse_message : Container → Option Response
unfolding parse_pdu
parse_message
      (complex_type type (
        cons
          (integer_type version_type version)
          (cons (octet_type community) (cons (complex_type request_type fields) nil)))) =
    require (same_type version_type integer) (
      if ltb 1 version
      then none
      else require (is_supported_request request_type (version == 1))
          (parse_pdu community.value version request_type fields))
parse_message packet = none

-- `SNMPGetResponse::parseFrom`.
unfoldable pub parse_from : List ℕ → Option Response
unfolding parse_message
parse_from buf =
    if ltb (length buf) 2 || not (byte_at buf 0 == wire structure)
    then none
    else (from_buffer structure buf >>= parse_message)
