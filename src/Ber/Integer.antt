-- ===== src/Ber/Integer.antt =====
-- The INTEGER class of src/BER.cpp and its unsigned subclasses: `IntegerType`, `TimestampType`,
-- `Counter32` and `Gauge`. `unsigned long` has 32 bits, as on the ESP8266 and the ESP32.
use arduino_snmp_manager.Common.{
  ℕ, ◌+◌, ◌-◌, ◌*◌, ◌/◌, ◌%◌, ◌^◌, ◌≤◌, ◌<◌, ◌≡◌, sym, subst, ◌⊎◌, inl, inr, Bool, true, false, not,
  ◌&&◌, ◌||◌, Option, none, some, List, [], ◌∷◌, ◌++◌, arith, IsU32, length, drop, ltb, ◌==◌,
  if◌then◌else◌, ltb→lt, not_ltb→le, Bool-cases, ◌>>=◌,
}
use arduino_snmp_manager.Ber.Tag.{
  AsnType, integer, counter32, gauge32, timestamp, wire, same_type, same_type_sound,
}
use arduino_snmp_manager.Ber.Header.{high_bit, read_tlv-tlv, Dest, put, tlv, read_tlv, byte_at}

-- `contents`: a zero, then the four bytes of the 32-bit value.
abbrev contents_of : ℕ → List ℕ
contents_of value =
    0 ∷ value / 2 ^ 24 % 256 ∷ value / 2 ^ 16 % 256 ∷ value / 2 ^ 8 % 256 ∷ value % 256 ∷ []

-- `while (start < 4)`: drop leading bytes that carry neither value nor sign.
trim : Bool → List ℕ → List ℕ
trim signed [] = []
trim signed (a ∷ []) = a ∷ []
trim signed (a ∷ b ∷ rest) =
    let shorter = trim signed (b ∷ rest) in
    let redundant_zero = (a == 0) && not (high_bit b) in
    let redundant_sign = signed && (a == 0xff) && high_bit b in
    if not redundant_zero && not redundant_sign then a ∷ b ∷ rest else shorter

-- `start` is 1 for INTEGER and 0 for the unsigned types.
unfoldable pub integer_contents : AsnType → ℕ → List ℕ
unfolding trim
integer_contents type value =
    let signed = same_type type integer in
    trim signed
      (if signed then drop 1 (contents_of (value % 2 ^ 32)) else contents_of (value % 2 ^ 32))

-- `IntegerType::serialise`.
unfoldable pub integer_serialise : AsnType → ℕ → Dest → ℕ → Option (ℕ × List ℕ)
unfolding integer_contents
integer_serialise type value dest capacity =
    put dest capacity (tlv (wire type) (integer_contents type value))

-- `value = (value << 8) | *buf++`
unfoldable pub shift_in : List ℕ → ℕ → ℕ
shift_in [] value = value
shift_in (b ∷ rest) value = shift_in rest ((value * 256 + b) % 2 ^ 32)

-- The tests and the loop of `IntegerType::fromBuffer` on the content bytes.
unfoldable pub integer_value : AsnType → List ℕ → Option ℕ
unfolding shift_in
integer_value type contents =
    let signed = same_type type integer in
    let len = length contents in
    let first = byte_at contents 0 in
    if (len == 0) || ltb (if signed then 4 else 5) len
    then none
    else if not signed && (high_bit first || ((len == 5) && not (first == 0)))
    then none
    else some (shift_in contents (if signed && high_bit first then 2 ^ 32 - 1 else 0))

-- `IntegerType::fromBuffer`.
unfoldable pub integer_from_buffer : AsnType → List ℕ → Option ℕ
unfolding integer_value
integer_from_buffer type buf = read_tlv (wire type) buf >>= integer_value type

-- INTEGER and the three types that derive from it.
abbrev pub IsIntegerType : AsnType → Type 0
IsIntegerType type = (type ≡ integer) ⊎ (type ≡ counter32) ⊎ (type ≡ gauge32) ⊎ (type ≡ timestamp)

signed_value : (v : ℕ) → IsU32 v → integer_value integer (integer_contents integer v) ≡ some v
unfolding integer_value integer_contents
signed_value v h = ground arith

-- What the loop leaves of an unsigned value, by its size.
abbrev unsigned_result : ℕ → Option ℕ
unsigned_result v =
    let contents = trim false (contents_of (v % 2 ^ 32)) in
    let first = byte_at contents 0 in
    if (length contents == 0) || ltb 5 (length contents)
    then none
    else if high_bit first || ((length contents == 5) && not (first == 0))
    then none
    else some (shift_in contents 0)

unsigned_short : (v : ℕ) → v < 2 ^ 15 → unsigned_result v ≡ some v
unfolding trim shift_in
unsigned_short v h = ground arith

unsigned_middle : (v : ℕ) → 2 ^ 15 ≤ v → v < 2 ^ 31 → unsigned_result v ≡ some v
unfolding trim shift_in
unsigned_middle v l h = ground arith

unsigned_long : (v : ℕ) → 2 ^ 31 ≤ v → v < 2 ^ 32 → unsigned_result v ≡ some v
unfolding trim shift_in
unsigned_long v l h = ground arith

unsigned_value :
    (type : AsnType) (v : ℕ)
    → same_type type integer ≡ false
    → IsU32 v
    → integer_value type (integer_contents type v) ≡ some v
unfolding integer_value integer_contents
unsigned_value type v e h = rw e (elim (Bool-cases (ltb v (2 ^ 15))) [
  | inl s ↦ unsigned_short v (ltb→lt _ _ s)
  | inr m ↦ elim (Bool-cases (ltb v (2 ^ 31))) [
    | inl s ↦ unsigned_middle v (not_ltb→le _ _ m) (ltb→lt _ _ s)
    | inr l ↦ unsigned_long v (not_ltb→le _ _ l) h
  ]
])

pub integer_value-integer_contents :
    (type : AsnType) (v : ℕ) → IsU32 v → integer_value type (integer_contents type v) ≡ some v
integer_value-integer_contents type v h = elim (Bool-cases (same_type type integer)) [
  | inl e ↦
      subst (λ t. integer_value t (integer_contents t v) ≡ some v) (sym (same_type_sound _ _ e))
        (signed_value v h)
  | inr e ↦ unsigned_value type v e h
]

length-trim : (signed : Bool) (xs : List ℕ) → (length (trim signed xs) ≤ length xs)
unfolding trim
length-trim signed [] = omega arith
length-trim signed (a ∷ []) = omega arith
length-trim signed (a ∷ b ∷ rest) = ground (arith, length-trim signed (b ∷ rest))

-- At most four content bytes for INTEGER and five for the unsigned types.
pub length-integer_contents : (type : AsnType) (v : ℕ) → length (integer_contents type v) ≤ 5
unfolding integer_contents
length-integer_contents type v = ground (
  arith,
  length-trim (same_type type integer) (drop 1 (contents_of (v % 2 ^ 32))),
  length-trim (same_type type integer) (contents_of (v % 2 ^ 32)),
)

pub length-integer_contents_signed : (v : ℕ) → length (integer_contents integer v) ≤ 4
unfolding integer_contents
length-integer_contents_signed v = length-trim true (drop 1 (contents_of (v % 2 ^ 32)))

-- A 32-bit value of any integer type is read back from its encoding, whatever follows it.
pub integer_from_buffer-tlv :
    (type : AsnType) (v : ℕ) (rest : List ℕ)
    → IsU32 v
    → integer_from_buffer type (tlv (wire type) (integer_contents type v) ++ rest) ≡ some v
unfolding integer_from_buffer
integer_from_buffer-tlv type v rest h =
    rw
      (read_tlv-tlv (wire type) (integer_contents type v) rest
        (omega (arith, length-integer_contents type v)))
      (integer_value-integer_contents type v h)

-- A decoded value fits in 32 bits.
shift_in-IsU32 : (xs : List ℕ) (v : ℕ) → IsU32 v → IsU32 (shift_in xs v)
unfolding shift_in
shift_in-IsU32 [] v h = h
shift_in-IsU32 (b ∷ rest) v h = shift_in-IsU32 rest _ (omega arith)

pub integer_value-IsU32 :
    (type : AsnType) (contents : List ℕ) (v : ℕ) → integer_value type contents ≡ some v → IsU32 v
unfolding integer_value
integer_value-IsU32 type contents v e = ground (
  arith,
  shift_in-IsU32 contents (2 ^ 32 - 1) (omega arith),
  shift_in-IsU32 contents 0 (omega arith),
)
