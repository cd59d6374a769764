-- ===== src/Manager/Hex.antt =====
-- The packets as text of src/Arduino_SNMP_Manager.cpp: `testParsePacket` reads what `printPacket` prints.
use arduino_snmp_manager.Ber.Address.{IpAddress}
use arduino_snmp_manager.Common.{
  All, Bool, Bool-cases, IsByte, List, Option, [], arith, false, if◌then◌else◌, inl, inr, leb,
  length, ltb, ltb→lt, none, not, not_ltb→le, refl, some, true, ℕ, ◌%◌, ◌&&◌, ◌*◌, ◌++◌, ◌+◌, ◌-◌,
  ◌/◌, ◌<◌, ◌==◌, ◌>>=◌, ◌||◌, ◌∙◌, ◌∷◌, ◌≡◌, ◌≤◌,
}
use arduino_snmp_manager.Config.{snmp_packet_length}
use arduino_snmp_manager.Manager.{Manager, parse_packet}
use arduino_snmp_manager.Registration.{Heap}

-- `hexDigit`; `none` for -1.
unfoldable pub hex_digit : ℕ → Option ℕ
hex_digit c =
    if leb b'0' c && leb c b'9'
    then some (c - b'0')
    else if leb b'a' c && leb c b'f'
    then some (c - b'a' + 10)
    else if leb b'A' c && leb c b'F'
    then some (c - b'A' + 10)
    else none

-- The `switch` of a character: the terminator, white space, or another one.
pub data Kind : Type 0 where
  terminator blank mark : Kind

abbrev pub kind_of : ℕ → Kind
kind_of c =
    if c == 0
    then terminator
    else if (c == 32) || (c == 9) || (c == 13) || (c == 10)
    then blank
    else mark

-- What may follow a pair of digits.
abbrev pub is_separated : List ℕ → Bool
is_separated [] = true
is_separated (c ∷ rest) = elim (kind_of c) [ terminator ↦ true | blank ↦ true | mark ↦ false ]

-- The loop of `testParsePacket` with `used` bytes in the buffer: the bytes that it adds, or `none` where
-- it returns false. The end of the list is the terminator of the string.
unfoldable pub parse_hex : ℕ → List ℕ → Option (List ℕ)
unfolding hex_digit
parse_hex used [] = some []
parse_hex used (c ∷ []) = elim (kind_of c) [ terminator ↦ some [] | blank ↦ some [] | mark ↦ none ]
parse_hex used (c ∷ d ∷ rest) = elim (kind_of c) [
  | terminator ↦ some []
  | blank ↦ parse_hex used (d ∷ rest)
  | mark ↦ hex_digit c >>= λ high. hex_digit d >>= λ low.
      if (used == snmp_packet_length) || not (is_separated rest)
      then none
      else (parse_hex (used + 1) rest >>= λ later. some ((high * 16 + low) ∷ later))
]

-- `SNMPManager::testParsePacket`.
unfoldable pub test_parse_packet : Manager → IpAddress → List ℕ → Heap → Heap × Bool
unfolding parse_hex
test_parse_packet manager peer text heap = elim (parse_hex 0 text) [
  | none ↦ (heap, false)
  | some packet ↦ parse_packet manager peer packet heap
]

-- `SNMPManager::printPacket` behind its heading, where `print` is `Serial.print(…, HEX)`.
unfoldable pub print_packet : (ℕ → List ℕ) → List ℕ → List ℕ
print_packet print [] = []
print_packet print (b ∷ rest) =
    (if ltb b 16 then b'0' ∷ print b else print b) ++ 32 ∷ print_packet print rest

abbrev pub upper_digit : ℕ → ℕ
upper_digit n = if ltb n 10 then b'0' + n else b'A' + (n - 10)

-- `Serial.print(…, HEX)` of a byte: upper case, without leading zeros.
pub record PrintsHex (print : ℕ → List ℕ) : Type 0 where
  pub one : (b : ℕ) → b < 16 → print b ≡ upper_digit b ∷ []
  pub two : (b : ℕ) → 16 ≤ b → b < 256 → print b ≡ upper_digit (b / 16) ∷ upper_digit (b % 16) ∷ []

two_digits :
    (print : ℕ → List ℕ) (b : ℕ)
    → PrintsHex print
    → b < 256
    → (if ltb b 16 then b'0' ∷ print b else print b)
      ≡ upper_digit (b / 16) ∷ upper_digit (b % 16) ∷ []
two_digits print b p h = elim (Bool-cases (ltb b 16)) [
  | inl small ↦
      let lt = ltb→lt b 16 small in
      rw small (
        rw (p.one b lt)
          (let e : b / 16 ≡ 0 = omega arith in let f : b % 16 ≡ b = omega arith in rw (e, f) refl))
  | inr large ↦ rw large (p.two b (not_ltb→le b 16 large) h)
]

hex_digit-upper_digit : (n : ℕ) → n < 16 → hex_digit (upper_digit n) ≡ some n
unfolding hex_digit
hex_digit-upper_digit n h = ground arith

upper_digit_mark : (n : ℕ) → n < 16 → kind_of (upper_digit n) ≡ mark
upper_digit_mark n h = ground arith

parse_hex-blank : (used : ℕ) (rest : List ℕ) → parse_hex used (32 ∷ rest) ≡ parse_hex used rest
unfolding parse_hex
parse_hex-blank used [] = refl
parse_hex-blank used (c ∷ rest) = refl

parse_hex-pair :
    (used high low : ℕ) (rest : List ℕ)
    → high < 16
    → low < 16
    → used < snmp_packet_length
    → parse_hex used (upper_digit high ∷ upper_digit low ∷ 32 ∷ rest)
      ≡ (parse_hex (used + 1) rest >>= λ later. some ((high * 16 + low) ∷ later))
unfolding parse_hex
parse_hex-pair used high low rest h l room =
    let e : (used == snmp_packet_length) ≡ false = ground arith in
    rw
      (
        parse_hex,
        upper_digit_mark high h,
        hex_digit-upper_digit high h,
        hex_digit-upper_digit low l,
        e,
        parse_hex-blank (used + 1) rest,
      )
      refl

-- Bytes that fit the packet buffer come back from their print.
pub parse_hex-print_packet :
    (print : ℕ → List ℕ) (used : ℕ) (packet : List ℕ)
    → PrintsHex print
    → All IsByte packet
    → used + length packet ≤ snmp_packet_length
    → parse_hex used (print_packet print packet) ≡ some packet
unfolding print_packet parse_hex
parse_hex-print_packet print used [] p bytes fits = refl
parse_hex-print_packet print used (b ∷ rest) p bytes fits =
    let e : b / 16 * 16 + b % 16 ≡ b = omega arith in
    rw (two_digits print b p bytes.0) (
      parse_hex-pair used (b / 16) (b % 16) (print_packet print rest) (omega (arith, bytes.0))
        (omega arith) (omega arith)
      ∙ rw (parse_hex-print_packet print (used + 1) rest p bytes.1 (omega arith), e) refl)
