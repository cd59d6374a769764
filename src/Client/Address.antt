-- ===== src/Client/Address.antt =====
-- `parseAddress` of src/SNMPClient.cpp: dotted IPv4 text, without names and without more than three
-- digits a part. The text ends where the list ends.
use arduino_snmp_manager.Common.{
  ℕ, zero, suc, ◌+◌, ◌-◌, ◌*◌, not, ◌||◌, Option, none, some, List, [], ◌∷◌, ltb, ◌==◌,
  if◌then◌else◌, ◌>>=◌, require,
}
use arduino_snmp_manager.Ber.Oid.{dot, is_digit}
use arduino_snmp_manager.Ber.Address.{IpAddress}

-- The inner `while`: at most three digits, at most 255; what is read, how many digits, and the rest.
unfoldable pub read_part : List ℕ → ℕ → ℕ → Option (ℕ × ℕ × List ℕ)
read_part [] value count = some (value, count, [])
read_part (c ∷ rest) value count =
    let value' = value * 10 + (c - b'0') in
    let more = read_part rest value' (count + 1) in
    if not (is_digit c)
    then some (value, count, c ∷ rest)
    else if ltb 3 (count + 1) || ltb 255 value'
    then none
    else more

skip_dot : List ℕ → Option (List ℕ)
skip_dot [] = none
skip_dot (c ∷ rest) = require (c == dot) (some rest)

-- The `for` over the four parts; `left` parts follow.
unfoldable pub read_parts : ℕ → List ℕ → Option (List ℕ × List ℕ)
unfolding read_part skip_dot
read_parts zero text = some ([], text)
read_parts (suc left) text = read_part text 0 0 >>= λ (value, count, rest).
    if count == 0
    then none
    else ((if left == 0 then some rest else skip_dot rest) >>= λ rest'.
        read_parts left rest' >>= λ (values, end). some (value ∷ values, end))

address_of : List ℕ × List ℕ → Option IpAddress
address_of (a ∷ b ∷ c ∷ d ∷ [], []) = some (record { a = a; b = b; c = c; d = d })
address_of other = none

-- `parseAddress`.
unfoldable pub parse_address : List ℕ → Option IpAddress
unfolding read_parts address_of
parse_address text = read_parts 4 text >>= address_of
