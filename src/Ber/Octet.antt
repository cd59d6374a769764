-- ===== src/Ber/Octet.antt =====
-- `OctetType` and `RawType` of src/BER.cpp: octet strings, and the payloads of OPAQUE and of the
-- exception tags.
use arduino_snmp_manager.Common.{
  ℕ, ◌≤◌, ◌<◌, ◌≡◌, Bool, true, false, not, ◌||◌, Option, none, some, List, [], ◌∷◌, ◌++◌, arith,
  length, ltb, ◌==◌, if◌then◌else◌, lt→ltb, le→not_ltb, ◌>>=◌, require,
}
use arduino_snmp_manager.Config.{snmp_octetstring_max_length}
use arduino_snmp_manager.Ber.Tag.{AsnType, string, opaque, wire, same_type}
use arduino_snmp_manager.Ber.Header.{read_tlv-tlv, Dest, put, tlv, read_tlv}

-- A C string ends at the first zero byte; `strlen`, or the scan over `_value`, finds it.
unfoldable pub c_string : List ℕ → List ℕ
c_string [] = []
c_string (b ∷ rest) = if b == 0 then [] else b ∷ c_string rest

-- `_value` is held without the zeros that fill it up; of a decoded string it is the binary content.
pub record OctetType : Type 0 where
  pub value : List ℕ
  pub decoded : Bool
  pub valid : Bool

-- The constructor from a C string.
unfoldable pub octet_of_text : List ℕ → OctetType
octet_of_text text =
    let valid = ltb (length text) snmp_octetstring_max_length in
    record { value = if valid then text else []; decoded = false; valid = valid }

-- The bytes that `OctetType::serialise` sends, if it sends any.
unfoldable pub octet_contents : OctetType → Option (List ℕ)
unfolding c_string
octet_contents o =
    let text = c_string o.value in
    if not o.valid
    then none
    else if o.decoded
    then some o.value
    else if length text == snmp_octetstring_max_length
    then none
    else some text

-- `OctetType::serialise`.
unfoldable pub octet_serialise : OctetType → Dest → ℕ → Option (ℕ × List ℕ)
unfolding octet_contents
octet_serialise o dest capacity =
    octet_contents o >>= λ contents. put dest capacity (tlv (wire string) contents)

-- `OctetType::fromBuffer`.
unfoldable pub octet_from_buffer : List ℕ → Option OctetType
octet_from_buffer buf = do
  contents ← read_tlv (wire string) buf
  require (ltb (length contents) snmp_octetstring_max_length)
      (some (record { value = contents; decoded = true; valid = true }))

-- `RawType::serialise` sends the stored length whatever the tag.
unfoldable pub raw_serialise : AsnType → List ℕ → Dest → ℕ → Option (ℕ × List ℕ)
raw_serialise type value dest capacity = put dest capacity (tlv (wire type) value)

-- `RawType::fromBuffer`: only OPAQUE has content.
unfoldable pub raw_from_buffer : AsnType → List ℕ → Option (List ℕ)
raw_from_buffer type buf = do
  contents ← read_tlv (wire type) buf
  require (not (ltb snmp_octetstring_max_length (length contents)))
      (require (same_type type opaque || (length contents == 0)) (some contents))

-- A binary string shorter than the array is read back from its encoding, zeros included, whatever follows it.
pub octet_from_buffer-tlv :
    (value rest : List ℕ)
    → length value < snmp_octetstring_max_length
    → octet_from_buffer (tlv (wire string) value ++ rest)
      ≡ some (record { value = value; decoded = true; valid = true })
unfolding octet_from_buffer
octet_from_buffer-tlv value rest h =
    rw (read_tlv-tlv (wire string) value rest (omega arith)) (rw (lt→ltb _ _ h))

pub raw_from_buffer-tlv :
    (type : AsnType) (value rest : List ℕ)
    → length value ≤ snmp_octetstring_max_length
    → (same_type type opaque || (length value == 0)) ≡ true
    → raw_from_buffer type (tlv (wire type) value ++ rest) ≡ some value
unfolding raw_from_buffer
raw_from_buffer-tlv type value rest h e =
    rw (read_tlv-tlv (wire type) value rest (omega arith)) (rw (le→not_ltb _ _ h, e))
