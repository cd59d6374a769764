-- ===== src/Ber/Complex.antt =====
-- `ComplexType` of src/BER.cpp: a tag with a list of owned children, encoded and decoded as a tree.
-- Every allocation is taken to succeed.
pub mod Encode
pub mod RoundTrip
use arduino_snmp_manager.Common.{
  ℕ, zero, suc, ◌+◌, ◌-◌, Bool, true, Option, none, some, List, [], ◌∷◌, ◌++◌, take, drop, ltb,
  ◌==◌, if◌then◌else◌, ◌>>=◌, require,
}
use arduino_snmp_manager.Config.{size_max}
use arduino_snmp_manager.Ber.Tag.{
  AsnType, integer, string, nulltype, oid, network_address, counter32, gauge32, timestamp, opaque,
  counter64, nosuchobject, nosuchinstance, endofmibview, wire, of_wire,
}
use arduino_snmp_manager.Ber.Header.{
  read_ber_header, header_size, write_header, Dest, measure, buffer,
}
use arduino_snmp_manager.Ber.Oid.{oid_serialise, oid_from_buffer}
use arduino_snmp_manager.Ber.Integer.{integer_serialise, integer_from_buffer}
use arduino_snmp_manager.Ber.Counter64.{counter64_serialise, counter64_from_buffer}
use arduino_snmp_manager.Ber.Octet.{
  OctetType, octet_serialise, octet_from_buffer, raw_serialise, raw_from_buffer,
}
use arduino_snmp_manager.Ber.Address.{
  IpAddress, network_address_serialise, network_address_from_buffer, null_serialise,
  null_from_buffer,
}

-- A `BER_CONTAINER` is one of its subclasses; `Values` is the linked list `ValuesList`.
mutual
  pub data Container : Type 0 where
    integer_type : AsnType → ℕ → Container
    octet_type : OctetType → Container
    raw_type : AsnType → List ℕ → Container
    oid_type : List ℕ → Container
    null_type : Container
    network_address_type : IpAddress → Container
    counter64_type : ℕ → Container
    complex_type : AsnType → Values → Container

  pub data Values : Type 0 where
    nil : Values
    cons : Container → Values → Values

-- The member `_type`.
abbrev pub type_of : Container → AsnType
type_of (integer_type type v) = type
type_of (octet_type o) = string
type_of (raw_type type v) = type
type_of (oid_type text) = oid
type_of null_type = nulltype
type_of (network_address_type ip) = network_address
type_of (counter64_type v) = counter64
type_of (complex_type type vs) = type

-- `ComplexType::addValueToList`: append at the end of the list.
unfoldable pub add_value_to_list : Values → Container → Values
add_value_to_list nil child = cons child nil
add_value_to_list (cons v vs) child = cons v (add_value_to_list vs child)

-- What follows the test of the capacity: the size where there is no buffer, else the header and what
-- the second pass wrote behind it.
abbrev pub stored : Dest → ℕ → ℕ → Option (ℕ × List ℕ) → Option (ℕ × List ℕ)
stored measure tag len written = some (header_size len + len, [])
stored buffer tag len written = written >>= λ w. some (w.0, write_header tag len ++ w.1)

-- `serialise`. A constructed value measures all children first (`measure_all` holds the length so
-- far), and writes nothing where the capacity is short; then it writes them at increasing offsets.
unfoldable mutual
  unfolding integer_serialise octet_serialise raw_serialise oid_serialise null_serialise
      network_address_serialise counter64_serialise

  pub serialise : Container → Dest → ℕ → Option (ℕ × List ℕ)
  serialise (integer_type type v) dest capacity = integer_serialise type v dest capacity
  serialise (octet_type o) dest capacity = octet_serialise o dest capacity
  serialise (raw_type type v) dest capacity = raw_serialise type v dest capacity
  serialise (oid_type text) dest capacity = oid_serialise text dest capacity
  serialise null_type dest capacity = null_serialise dest capacity
  serialise (network_address_type ip) dest capacity = network_address_serialise ip dest capacity
  serialise (counter64_type v) dest capacity = counter64_serialise v dest capacity
  serialise (complex_type type vs) dest capacity = measure_all vs 0 >>= λ len.
      if ltb capacity (header_size len + len)
      then none
      else stored dest (wire type) len (write_all vs capacity (header_size len))

  pub measure_all : Values → ℕ → Option ℕ
  measure_all nil len = some len
  measure_all (cons v vs) len = serialise v measure size_max >>= λ (child, _).
      if ltb (65535 - len) child then none else measure_all vs (len + child)

  pub write_all : Values → ℕ → ℕ → Option (ℕ × List ℕ)
  write_all nil capacity offset = some (offset, [])
  write_all (cons v vs) capacity offset =
      serialise v buffer (capacity - offset) >>= λ (child, bytes).
      write_all vs capacity (offset + child) >>= λ w. some (w.0, bytes ++ w.1)

-- The lengths that `ComplexType::decode` enforces before it makes a child.
abbrev length_allowed : AsnType → ℕ → Bool
length_allowed nulltype len = len == 0
length_allowed nosuchobject len = len == 0
length_allowed nosuchinstance len = len == 0
length_allowed endofmibview len = len == 0
length_allowed network_address len = len == 4
length_allowed _ len = true

-- The `switch` on the child's tag, and its `fromBuffer` on the child's bytes. `nested` decodes a
-- constructed child one level deeper.
unfoldable pub decode_child :
    (AsnType → List ℕ → Option Container) → AsnType → List ℕ → Option Container
unfolding integer_from_buffer octet_from_buffer raw_from_buffer oid_from_buffer null_from_buffer
    network_address_from_buffer counter64_from_buffer
decode_child nested integer buf =
    integer_from_buffer integer buf >>= λ v. some (integer_type integer v)
decode_child nested counter32 buf =
    integer_from_buffer counter32 buf >>= λ v. some (integer_type counter32 v)
decode_child nested gauge32 buf =
    integer_from_buffer gauge32 buf >>= λ v. some (integer_type gauge32 v)
decode_child nested timestamp buf =
    integer_from_buffer timestamp buf >>= λ v. some (integer_type timestamp v)
decode_child nested string buf = octet_from_buffer buf >>= λ o. some (octet_type o)
decode_child nested oid buf = oid_from_buffer buf >>= λ text. some (oid_type text)
decode_child nested nulltype buf = if null_from_buffer buf then some null_type else none
decode_child nested network_address buf =
    network_address_from_buffer buf >>= λ ip. some (network_address_type ip)
decode_child nested counter64 buf = counter64_from_buffer buf >>= λ v. some (counter64_type v)
decode_child nested opaque buf = raw_from_buffer opaque buf >>= λ v. some (raw_type opaque v)
decode_child nested nosuchobject buf =
    raw_from_buffer nosuchobject buf >>= λ v. some (raw_type nosuchobject v)
decode_child nested nosuchinstance buf =
    raw_from_buffer nosuchinstance buf >>= λ v. some (raw_type nosuchinstance v)
decode_child nested endofmibview buf =
    raw_from_buffer endofmibview buf >>= λ v. some (raw_type endofmibview v)
decode_child nested type buf = nested type buf

-- `while (offset < end)`: the list is what stands between `offset` and `end`. On fuel; each round
-- takes two bytes at least.
unfoldable pub decode_all : (AsnType → List ℕ → Option Container) → ℕ → List ℕ → Option Values
unfolding decode_child
decode_all nested fuel [] = some nil
decode_all nested zero (b ∷ bs) = none
decode_all nested (suc fuel) (b ∷ bs) = do
  (header, len) ← read_ber_header (b ∷ bs)
  type ← of_wire b
  require (length_allowed type len) (
      decode_child nested type (take (header + len) (b ∷ bs)) >>= λ child.
      decode_all nested fuel (drop (header + len) (b ∷ bs)) >>= λ children.
      some (cons child children))

-- `ComplexType::decode`; `levels` is what is left of the depth limit, 32 at the top. The tag of the
-- buffer is not looked at: the object has its own.
unfoldable pub decode : ℕ → AsnType → List ℕ → Option Container
unfolding decode_all
decode zero type buf = none
decode (suc levels) type buf = do
  (header, len) ← read_ber_header buf
  children ← decode_all (decode levels) len (take len (drop header buf))
  some (complex_type type children)

abbrev pub depth_limit : ℕ
depth_limit = 32

-- `ComplexType::fromBuffer`.
unfoldable pub from_buffer : AsnType → List ℕ → Option Container
unfolding decode
from_buffer type buf = decode depth_limit type buf
