-- ===== src/Client/Operation.antt =====
-- `SNMPOperation` of src/SNMPClient.cpp: adding cells, choosing the root of a walk, and what the end
-- of an operation does to its own fields.
use arduino_snmp_manager.Common.{
  ℕ, ◌-◌, ◌^◌, Bool, true, false, not, ◌&&◌, ◌||◌, Option, none, some, List, [], ◌∷◌, ◌++◌, length,
  same_bytes, ltb, leb, ◌==◌, if◌then◌else◌, ◌>>=◌,
}
use arduino_snmp_manager.Config.{max_oid_length, snmp_value_max_length, size_max}
use arduino_snmp_manager.Ber.Tag.{
  AsnType, integer, string, nulltype, oid, network_address, counter32, gauge32, timestamp, opaque,
  counter64, get_next_request_pdu, set_request_pdu, get_bulk_request_pdu, same_type,
}
use arduino_snmp_manager.Ber.Header.{measure, buffer}
use arduino_snmp_manager.Ber.Oid.{oid_of_text, oid_serialise, oid_from_buffer}
use arduino_snmp_manager.Client.Types.{
  Status, success, pending, busy, invalid_configuration, invalid_oid, capacity_exceeded,
  not_started, unsupported, is_ok, is_pending, SnmpValue, empty_value, SnmpResult, SnmpVersion,
  version1, version2c, Operation, op_pending,
}
use arduino_snmp_manager.Client.Value.{has_zero}

-- `strlen(oid) >= MAX_OID_LENGTH`, then encode and decode: the canonical text, if it is one.
unfoldable pub canonical : List ℕ → Option (List ℕ)
canonical text =
    if leb max_oid_length (length text)
    then none
    else (oid_serialise (oid_of_text text) buffer max_oid_length >>= λ w. oid_from_buffer w.1)

abbrev pub has_oid : List ℕ → List SnmpResult → Bool
has_oid name [] = false
has_oid name (result ∷ rest) = same_bytes result.oid name || has_oid name rest

-- The `switch` on the type of a value to be written: success, or why it cannot be.
unfoldable pub check_value : SnmpValue → AsnType → Status
check_value value integer = if ltb (2 ^ 32 - 1) value.number then invalid_configuration else success
check_value value counter32 =
    if ltb (2 ^ 32 - 1) value.number then invalid_configuration else success
check_value value gauge32 = if ltb (2 ^ 32 - 1) value.number then invalid_configuration else success
check_value value timestamp =
    if ltb (2 ^ 32 - 1) value.number then invalid_configuration else success
check_value value counter64 = success
check_value value string =
    if ltb snmp_value_max_length (length value.bytes) then capacity_exceeded else success
check_value value opaque =
    if ltb snmp_value_max_length (length value.bytes) then capacity_exceeded else success
check_value value oid =
    if leb max_oid_length (length value.bytes)
      || ltb snmp_value_max_length (length value.bytes)
      || has_zero value.bytes
    then invalid_oid
    else (elim (oid_serialise (oid_of_text value.bytes) measure size_max) [
      | none ↦ invalid_oid
      | some w ↦ success
    ])
check_value value network_address =
    if length value.bytes == 4 then success else invalid_configuration
check_value value type = unsupported

abbrev pub is_version1 : SnmpVersion → Bool
is_version1 version1 = true
is_version1 version2c = false

-- The checks that `add` makes on the value; success where there is none.
unfoldable pub check_write : SnmpVersion → Option SnmpValue → Status
unfolding check_value
check_write v none = success
check_write v (some value) =
    let status = check_value value value.type in
    if not (is_ok status)
    then status
    else if same_type value.type counter64 && is_version1 v
    then unsupported
    else success

-- `SNMPOperation::add`, for a text that is not null: the operation afterwards, and the status.
unfoldable pub add : List ℕ → AsnType → Option SnmpValue → Operation → Operation × Status
unfolding canonical check_write
add text expected value op =
    let status = check_write op.device.version value in
    if op_pending op
    then (op, busy)
    else if length op.results == op.capacity
    then (op, capacity_exceeded)
    else (elim (canonical text) [
      | none ↦ (op, invalid_oid)
      | some name ↦
          if has_oid name op.results
          then (op, invalid_oid)
          else if not (is_ok status)
          then (op, status)
          else (
            record op {
              results =
                  op.results
                  ++ (record {
                    oid = name;
                    value = elim value [ none ↦ empty_value | some v ↦ v ];
                    status = not_started;
                    expected = expected;
                  }
                      ∷ []);
            },
            success,
          )
    ])

abbrev pub first_oid : List SnmpResult → List ℕ
first_oid [] = []
first_oid (result ∷ rest) = result.oid

abbrev pub overwrite_first : List SnmpResult → List SnmpResult → List SnmpResult
overwrite_first (result ∷ other) (old ∷ rest) = result ∷ rest
overwrite_first written old = old

-- `SNMPOperation::setRoot`. `add` runs on no cells and writes its name into the first one, which is
-- then among the results again if there were any.
unfoldable pub set_root : List ℕ → Operation → Operation × Status
unfolding add
set_root text op =
    if op_pending op
    then (op, busy)
    else (let (op', status) = add text nulltype none (record op { results = [] }) in
        if is_ok status
        then (
          record op {
            root = first_oid op'.results;
            results = overwrite_first op'.results op.results;
          },
          status,
        )
        else (op, status))

-- Pending cells take the final status.
unfoldable pub settle : Status → List SnmpResult → List SnmpResult
settle status [] = []
settle status (result ∷ rest) =
    (if is_pending result.status then record result { status = status } else result)
    ∷ settle status rest

-- The fields of the operation that `finish` sets.
unfoldable pub finished : Status → Operation → Operation
unfolding settle
finished status op = record op {
  results = settle status op.results;
  status = status;
  completed = true;
}

-- Every cell starts pending, and only a write keeps the value that it will send.
abbrev pub restarted : Bool → List SnmpResult → List SnmpResult
restarted setting [] = []
restarted setting (result ∷ rest) =
    record result { status = pending; value = if setting then result.value else empty_value }
    ∷ restarted setting rest

-- The fields of the operation that `schedule` sets when it takes a slot.
unfoldable pub admitted : Operation → Operation
admitted op =
    let results = if op.walking then [] else op.results in
    let mode =
      if op.walking
      then (if is_version1 op.device.version then get_next_request_pdu else get_bulk_request_pdu)
      else op.mode in
    record op {
      status = pending;
      cursor = if op.walking then op.root else op.cursor;
      mode = mode;
      started_at = 0;
      agent_error = 0;
      agent_error_index = 0;
      completed = false;
      offset = 0;
      sent = false;
      batch_limit = length results;
      attempts = 0;
      id = 0;
      results = restarted (same_type mode set_request_pdu) results;
    }
