-- ===== src/Mib.antt =====
-- src/SNMPMIB.cpp: the helpers on values that a query has returned, but for those that compute with
-- `double`. `none` is false, with the caller's output kept.
pub mod Addresses
use arduino_snmp_manager.Ber.Oid.{decimal}
use arduino_snmp_manager.Ber.Tag.{integer, same_type, string}
use arduino_snmp_manager.Client.Types.{SnmpValue}
use arduino_snmp_manager.Common.{
  Bool, List, Option, [], if◌then◌else◌, leb, length, ltb, none, not, some, ℕ, ◌%◌, ◌&&◌, ◌*◌, ◌++◌,
  ◌+◌, ◌-◌, ◌/◌, ◌==◌, ◌>>=◌, ◌^◌, ◌||◌, ◌∷◌,
}

-- `value.integer()` is negative, for its 32-bit pattern.
abbrev pub is_negative : ℕ → Bool
is_negative n = leb (2 ^ 31) n

-- `storageBytes`, in 64 bits.
unfoldable pub storage_bytes : SnmpValue → SnmpValue → Option ℕ
storage_bytes units blocks =
    let unit = units.number % 2 ^ 32 in
    let block = blocks.number % 2 ^ 32 in
    if not (same_type units.type integer)
      || not (same_type blocks.type integer)
      || (unit == 0)
      || is_negative unit
      || is_negative block
    then none
    else some (unit * block % 2 ^ 64)

-- `truthValue`.
unfoldable pub truth_value : SnmpValue → Option Bool
truth_value value =
    let n = value.number % 2 ^ 32 in
    if not (same_type value.type integer) || (not (n == 1) && not (n == 2))
    then none
    else some (n == 1)

-- `SupplyState`, and `supplyState`: -1, -2 and -3 are states.
pub data SupplyState : Type 0 where
  known other_state unknown some_remaining invalid : SupplyState

unfoldable pub supply_state : SnmpValue → SupplyState
supply_state level =
    let n = level.number % 2 ^ 32 in
    if not (same_type level.type integer)
    then invalid
    else if n == 2 ^ 32 - 1
    then other_state
    else if n == 2 ^ 32 - 2
    then unknown
    else if n == 2 ^ 32 - 3
    then some_remaining
    else if is_negative n
    then invalid
    else known

-- A digit of `%x`, and `%02x` of a byte.
abbrev pub hex_character : ℕ → ℕ
hex_character n = if ltb n 10 then b'0' + n else b'a' + (n - 10)

abbrev pub hex_byte : ℕ → List ℕ
hex_byte n = hex_character (n / 16) ∷ hex_character (n % 16) ∷ []

-- `%x` of a 16-bit group: without leading zeros.
abbrev pub hex_group : ℕ → List ℕ
hex_group n =
    if ltb n 16
    then hex_character n ∷ []
    else if ltb n (16 ^ 2)
    then hex_byte n
    else if ltb n (16 ^ 3)
    then hex_character (n / 16 ^ 2) ∷ hex_byte (n % 16 ^ 2)
    else hex_byte (n / 16 ^ 2) ++ hex_byte (n % 16 ^ 2)

-- The texts with a separator between the parts.
abbrev pub joined_by : ℕ → List (List ℕ) → List ℕ
joined_by separator [] = []
joined_by separator (part ∷ []) = part
joined_by separator (part ∷ second ∷ rest) = part ++ separator ∷ joined_by separator (second ∷ rest)

abbrev pub map_texts : (ℕ → List ℕ) → List ℕ → List (List ℕ)
map_texts f [] = []
map_texts f (x ∷ xs) = f x ∷ map_texts f xs

-- `formatMAC`, for a destination that is not null: the text before its terminator.
unfoldable pub format_mac : SnmpValue → ℕ → Option (List ℕ)
format_mac value capacity =
    if not (same_type value.type string) || not (length value.bytes == 6) || ltb capacity 18
    then none
    else some (joined_by b':' (map_texts hex_byte value.bytes))

-- Two bytes a group.
abbrev pub groups_of : List ℕ → List ℕ
groups_of [] = []
groups_of (high ∷ []) = high ∷ []
groups_of (high ∷ low ∷ rest) = (high * 256 + low) ∷ groups_of rest

-- The text of `formatAddress` for the kind of address and the bytes.
abbrev pub address_text : ℕ → List ℕ → Option (List ℕ)
address_text kind bytes =
    if (kind == 1) && (length bytes == 4)
    then some (joined_by b'.' (map_texts decimal bytes))
    else if (kind == 2) && (length bytes == 16)
    then some (joined_by b':' (map_texts hex_group (groups_of bytes)))
    else none

-- `formatAddress`, for a destination that is not null.
unfoldable pub format_address : SnmpValue → SnmpValue → ℕ → Option (List ℕ)
unfolding decimal
format_address address_type value capacity =
    if not (same_type address_type.type integer) || not (same_type value.type string)
    then none
    else (address_text (address_type.number % 2 ^ 32) value.bytes >>= λ text.
        if leb capacity (length text) then none else some text)
