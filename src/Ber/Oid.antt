-- ===== src/Ber/Oid.antt =====
-- `OIDType` of src/BER.cpp: `_value` is the dotted text of an object identifier, held without its
-- terminator; on the wire it is base 128. A text is a list of character codes.
pub mod Digits
pub mod Base128
pub mod Bounds
pub mod RoundTrip
use arduino_snmp_manager.Common.{
  ℕ, zero, suc, ◌+◌, ◌-◌, ◌*◌, ◌/◌, ◌%◌, ◌^◌, Bool, true, false, not, ◌&&◌, Option, none, some,
  List, [], ◌∷◌, ◌++◌, length, ltb, leb, ◌==◌, if◌then◌else◌, ◌>>=◌, require,
}
use arduino_snmp_manager.Config.{max_oid_length}
use arduino_snmp_manager.Ber.Tag.{oid, wire}
use arduino_snmp_manager.Ber.Header.{high_bit, low_bits, Dest, put, tlv, read_tlv}

-- The character '.', and the test for a decimal digit.
abbrev pub dot : ℕ
dot = b'.'

abbrev pub is_digit : ℕ → Bool
is_digit c = leb b'0' c && leb c b'9'

-- The constructor from a C string: an oversized text leaves the value empty.
unfoldable pub oid_of_text : List ℕ → List ℕ
oid_of_text text = if ltb (length text) max_oid_length then text else []

-- `while (cursor < end && *cursor != '.')`: the number, and where the cursor stops.
unfoldable pub read_arc : List ℕ → ℕ → Option (ℕ × List ℕ)
read_arc [] arc = some (arc, [])
read_arc (c ∷ rest) arc =
    let arc' = arc * 10 + (c - b'0') in
    let more = read_arc rest arc' in
    if c == dot
    then some (arc, c ∷ rest)
    else if not (is_digit c)
    then none
    else if ltb (2 ^ 32 - 1) arc'
    then none
    else more

-- The do-while loop that fills `encoded` from its end, with the top bit set on all groups but the
-- last; `taken` is what stands from `start` on. Five rounds take every arc below 2 ^ 35.
groups : ℕ → ℕ → List ℕ → List ℕ
groups zero arc taken = taken
groups (suc rounds) arc taken =
    let group = arc % 128 + (elim taken [ [] ↦ 0 | _ ∷ _ ↦ 0x80 ]) in
    let more = groups rounds (arc / 128) (group ∷ taken) in
    if arc / 128 == 0 then group ∷ taken else more

unfoldable pub base128 : ℕ → List ℕ
unfolding groups
base128 arc = groups 5 arc []

-- The variables of the loop of `OIDType::serialise`.
pub record Scan : Type 0 where
  pub contents : List ℕ
  pub arcs : ℕ
  pub first : ℕ

-- Append the encoded number to `contents`, if it fits.
unfoldable pub store_arc : Scan → ℕ → Option Scan
store_arc s arc =
    if ltb max_oid_length (length s.contents + length (base128 arc))
    then none
    else some (record s { contents = s.contents ++ base128 arc; arcs = s.arcs + 1 })

-- One arc: its place decides what it may be, and the first two share one encoded number.
unfoldable pub scan_arc : Scan → ℕ → Option Scan
unfolding store_arc
scan_arc s arc =
    if s.arcs == 128
    then none
    else if s.arcs == 0
    then (if ltb 2 arc then none else some (record s { arcs = s.arcs + 1; first = arc }))
    else if s.arcs + 1 == 2
    then (if ltb s.first 2 && ltb 39 arc then none else store_arc s (arc + s.first * 40))
    else store_arc s arc

-- `*cursor++ != '.' || cursor == end`, and no digit before the next dot.
pub starts_arc : List ℕ → Bool
starts_arc [] = false
starts_arc (c ∷ []) = false
starts_arc (c ∷ d ∷ rest) = (c == dot) && not (d == dot)

-- The loop over the text, on fuel; each round takes two characters at least.
unfoldable pub scan_text : ℕ → List ℕ → Scan → Option Scan
unfolding starts_arc read_arc scan_arc base128
scan_text fuel [] s = some s
scan_text zero (c ∷ rest) s = none
scan_text (suc fuel) (c ∷ rest) s =
    require (starts_arc (c ∷ rest))
      (read_arc rest 0 >>= λ (arc, rest'). scan_arc s arc >>= λ s'. scan_text fuel rest' s')

-- The content bytes of `OIDType::serialise`, if the text is an object identifier.
unfoldable pub oid_contents : List ℕ → Option (List ℕ)
unfolding scan_text
oid_contents text =
    if length text == max_oid_length
    then none
    else (scan_text (length text) text (record { contents = []; arcs = 0; first = 0 }) >>= λ s.
        if ltb s.arcs 2 then none else some s.contents)

-- `OIDType::serialise`.
unfoldable pub oid_serialise : List ℕ → Dest → ℕ → Option (ℕ × List ℕ)
unfolding oid_contents
oid_serialise text dest capacity =
    oid_contents text >>= λ contents. put dest capacity (tlv (wire oid) contents)

-- `%lu` of a 32-bit number.
pub digits : ℕ → ℕ → List ℕ
digits zero n = []
digits (suc f) n =
    let more = digits f (n / 10) in (if n / 10 == 0 then [] else more) ++ ((b'0' + n % 10) ∷ [])

unfoldable pub decimal : ℕ → List ℕ
unfolding digits
decimal n = digits 10 (n % 2 ^ 32)

-- The inner do-while loop of `OIDType::fromBuffer`: one base 128 number of at most five bytes,
-- without a leading zero group.
unfoldable pub read_base128 : List ℕ → ℕ → ℕ → Option (ℕ × List ℕ)
read_base128 [] octets arc = none
read_base128 (byte ∷ rest) octets arc =
    let arc' = arc * 128 + low_bits byte in
    let more = read_base128 rest (octets + 1) arc' in
    if ltb 5 (octets + 1)
    then none
    else if (octets == 0) && (byte == 0x80)
    then none
    else if high_bit byte
    then more
    else some (arc', rest)

-- What `snprintf` appends for one number: the first number holds two arcs.
unfoldable pub arc_text : Bool → ℕ → List ℕ
unfolding decimal
arc_text first arc =
    let root = if ltb arc 40 then 0 else if ltb arc 80 then 1 else 2 in
    if first then dot ∷ decimal root ++ (dot ∷ decimal (arc - root * 40)) else dot ∷ decimal arc

-- The loop over the content bytes, on fuel; each round takes one byte at least.
unfoldable pub print_arcs : ℕ → List ℕ → Bool → ℕ → List ℕ → Option (List ℕ)
unfolding read_base128
print_arcs fuel [] first arcs text = some text
print_arcs zero (b ∷ bs) first arcs text = none
print_arcs (suc fuel) (b ∷ bs) first arcs text = read_base128 (b ∷ bs) 0 0 >>= λ (arc, rest).
    let arcs' = arcs + (if first then 2 else 1) in
    let written = arc_text first arc in
    if ltb (2 ^ 32 - 1 + (if first then 80 else 0)) arc
    then none
    else if ltb 128 arcs'
    then none
    else if leb (max_oid_length - length text) (length written)
    then none
    else print_arcs fuel rest false arcs' (text ++ written)

unfoldable pub oid_text : List ℕ → Option (List ℕ)
unfolding print_arcs arc_text
oid_text contents =
    if length contents == 0 then none else print_arcs (length contents) contents true 0 []

-- `OIDType::fromBuffer`.
unfoldable pub oid_from_buffer : List ℕ → Option (List ℕ)
unfolding oid_text
oid_from_buffer buf = read_tlv (wire oid) buf >>= oid_text
