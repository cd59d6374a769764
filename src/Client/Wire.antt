-- ===== src/Client/Wire.antt =====
-- The helpers of src/SNMPClient.cpp that build a datagram in the shared buffer, and the numeric order
-- on object identifiers. The buffer is the list of its bytes below `end`.
use arduino_snmp_manager.Common.{
  ℕ, zero, suc, ◌+◌, ◌-◌, ◌*◌, ◌%◌, ◌^◌, Bool, true, false, ◌&&◌, ◌||◌, Option, none, some, List,
  [], ◌∷◌, ◌++◌, length, take, drop, ltb, ◌==◌, if◌then◌else◌, ◌>>=◌,
}
use arduino_snmp_manager.Config.{snmp_value_max_length}
use arduino_snmp_manager.Ber.Tag.{
  AsnType, integer, string, oid, network_address, counter32, gauge32, timestamp, opaque, counter64,
  wire,
}
use arduino_snmp_manager.Ber.Header.{header_size, write_header, buffer}
use arduino_snmp_manager.Ber.Oid.{dot, is_digit, oid_of_text}
use arduino_snmp_manager.Ber.Complex.{
  Container, integer_type, oid_type, network_address_type, counter64_type, serialise,
}
use arduino_snmp_manager.Client.Value.{has_zero}
use arduino_snmp_manager.Client.Types.{SnmpValue}

-- `wrap`: put a header in front of what stands from `start` on.
unfoldable pub wrap : ℕ → ℕ → AsnType → List ℕ → Option (List ℕ)
wrap capacity start tag buf =
    let len = length buf - start in
    if ltb 65535 len
    then none
    else if ltb capacity (length buf) || ltb (capacity - length buf) (header_size len)
    then none
    else some (take start buf ++ write_header (wire tag) len ++ drop start buf)

-- `append`: serialise an object behind the bytes.
unfoldable pub append : ℕ → Container → List ℕ → Option (List ℕ)
append capacity value buf =
    serialise value buffer (capacity - length buf) >>= λ w. some (buf ++ w.1)

abbrev is_word_type : AsnType → Bool
is_word_type integer = true
is_word_type counter32 = true
is_word_type gauge32 = true
is_word_type timestamp = true
is_word_type type = false

append_bytes : ℕ → SnmpValue → List ℕ → Option (List ℕ)
unfolding wrap
append_bytes capacity value buf =
    if ltb snmp_value_max_length (length value.bytes)
      || ltb (capacity - length buf) (length value.bytes)
    then none
    else wrap capacity (length buf) value.type (buf ++ value.bytes)

append_address : ℕ → List ℕ → List ℕ → Option (List ℕ)
unfolding append
append_address capacity (a ∷ b ∷ c ∷ d ∷ []) buf =
    append capacity (network_address_type (record { a = a; b = b; c = c; d = d })) buf
append_address capacity bytes buf = none

-- The `switch` of `appendValue` on the tag. `setBytes` ends every value with a zero octet after its
-- bytes, so the test of `value.bytes[value.length]` for an OID never refuses and is left out.
append_typed : ℕ → AsnType → SnmpValue → List ℕ → Option (List ℕ)
unfolding append append_bytes append_address
append_typed capacity integer value buf =
    append capacity (integer_type integer (value.number % 2 ^ 32)) buf
append_typed capacity counter32 value buf =
    append capacity (integer_type counter32 (value.number % 2 ^ 32)) buf
append_typed capacity gauge32 value buf =
    append capacity (integer_type gauge32 (value.number % 2 ^ 32)) buf
append_typed capacity timestamp value buf =
    append capacity (integer_type timestamp (value.number % 2 ^ 32)) buf
append_typed capacity counter64 value buf = append capacity (counter64_type value.number) buf
append_typed capacity string value buf = append_bytes capacity value buf
append_typed capacity opaque value buf = append_bytes capacity value buf
append_typed capacity oid value buf =
    if ltb snmp_value_max_length (length value.bytes) || has_zero value.bytes
    then none
    else append capacity (oid_type (oid_of_text value.bytes)) buf
append_typed capacity network_address value buf = append_address capacity value.bytes buf
append_typed capacity type value buf = none

-- `appendValue`.
unfoldable pub append_value : ℕ → SnmpValue → List ℕ → Option (List ℕ)
unfolding append_typed
append_value capacity value buf =
    if is_word_type value.type && ltb (2 ^ 32 - 1) value.number
    then none
    else append_typed capacity value.type value buf

-- The digits at the front of a text as a number, and the rest: `while (*a >= '0' && *a <= '9')`.
unfoldable pub number_at : List ℕ → ℕ → ℕ × List ℕ
number_at [] x = (x, [])
number_at (c ∷ rest) x =
    let more = number_at rest ((x * 10 + (c - b'0')) % 2 ^ 64) in
    if is_digit c then more else (x, c ∷ rest)

after_dot : List ℕ → List ℕ
after_dot [] = []
after_dot (c ∷ rest) = if c == dot then rest else c ∷ rest

-- The answer of `compareOID`: below, equal or above.
pub data Order : Type 0 where
  below equal above : Order

-- `compareOID`, on fuel; each round takes a character of each text, as long as a round reads one.
unfoldable pub compare_oid_loop : ℕ → List ℕ → List ℕ → Order
unfolding number_at after_dot
compare_oid_loop fuel [] [] = equal
compare_oid_loop fuel [] (d ∷ b) = below
compare_oid_loop fuel (c ∷ a) [] = above
compare_oid_loop zero (c ∷ a) (d ∷ b) = equal
compare_oid_loop (suc fuel) (c ∷ a) (d ∷ b) =
    let (x, a') = number_at (after_dot (c ∷ a)) 0 in
    let (y, b') = number_at (after_dot (d ∷ b)) 0 in
    let more = compare_oid_loop fuel a' b' in
    if x == y then more else if ltb x y then below else above

unfoldable pub compare_oid : List ℕ → List ℕ → Order
unfolding compare_oid_loop
compare_oid a b = compare_oid_loop (length a) a b
