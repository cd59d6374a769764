-- ===== src/Mib/Addresses.antt =====
-- The texts and sizes of src/SNMPMIB.cpp: `formatAddress` prints what `parseAddress` of
-- src/SNMPClient.cpp reads, and `storageBytes` does not wrap.
use arduino_snmp_manager.Ber.Oid.{decimal, dot, is_digit}
use arduino_snmp_manager.Ber.Oid.Digits.{Ends, decimal-one, decimal-three, decimal-two}
use arduino_snmp_manager.Ber.Tag.{integer, same_type, string}
use arduino_snmp_manager.Client.Address.{parse_address, read_part}
use arduino_snmp_manager.Client.Types.{SnmpValue}
use arduino_snmp_manager.Common.{
  >>=-eq-some, Bool-cases, List, [], append-nil, arith, false, if◌then◌else◌, inl, inr, leb, length,
  ltb, ltb→lt, none, not, not_ltb→le, refl, some, subst, sym, true, unless-some, ℕ, ◌%◌, ◌*◌, ◌++◌,
  ◌+◌, ◌-◌, ◌/◌, ◌<◌, ◌==◌, ◌>>=◌, ◌^◌, ◌||◌, ◌∙◌, ◌∷◌, ◌≡◌, ◌≤◌,
}
use arduino_snmp_manager.Manager.Counts.{count}
use arduino_snmp_manager.Mib.{address_text, format_address, is_negative, storage_bytes}
use mathlib.Core.Option.{some-injective}
use native.Mathlib.Nat.{mul-le-mul}

-- Reading the digits of a number below 256.
abbrev Reads : ℕ → List ℕ → List ℕ → Type 0
Reads n text rest =
    (count : ℕ) × (0 < count) × (read_part (text ++ rest) 0 0 ≡ some (n, count, rest))

read_part-Ends :
    (n count : ℕ) (rest : List ℕ) → Ends rest → read_part rest n count ≡ some (n, count, rest)
unfolding read_part
read_part-Ends n count [] h = refl
read_part-Ends n count (c ∷ rest) h = ground arith

read_part-digit :
    (d n value count count' : ℕ) (rest : List ℕ)
    → d < 10
    → count < 3
    → value ≡ n * 10 + d
    → count' ≡ count + 1
    → value < 256
    → read_part ((b'0' + d) ∷ rest) n count ≡ read_part rest value count'
unfolding read_part
read_part-digit d n value count count' rest h k e f l =
    let digit : is_digit (b'0' + d) ≡ true = ground arith in
    let same : n * 10 + (b'0' + d - b'0') ≡ value = omega arith in
    let short : ltb 3 count' ≡ false = ground arith in
    let small : ltb 255 value ≡ false = ground arith in rw (digit, same, sym f, short, small) refl

read_part-decimal : (n : ℕ) (rest : List ℕ) → n < 256 → Ends rest → Reads n (decimal n) rest
read_part-decimal n rest h ends = elim (Bool-cases (ltb n 10)) [
  | inl one ↦
      let small = ltb→lt n 10 one in
      (
        1,
        omega arith,
        rw (decimal-one n small) (
            read_part-digit n 0 n 0 1 rest small (omega arith) (omega arith) (omega arith) h
            ∙ read_part-Ends n 1 rest ends),
      )
  | inr more ↦
      let ten = not_ltb→le n 10 more in
      elim (Bool-cases (ltb n 100)) [
        | inl two ↦
            let small = ltb→lt n 100 two in
            (
              2,
              omega arith,
              rw (decimal-two n ten small) (
                  read_part-digit (n / 10) 0 (n / 10) 0 1 _ (omega arith) (omega arith)
                    (omega arith) (omega arith) (omega arith)
                  ∙ read_part-digit (n % 10) (n / 10) n 1 2 rest (omega arith) (omega arith)
                      (omega arith) (omega arith) h
                  ∙ read_part-Ends n 2 rest ends),
            )
        | inr three ↦
            let large = not_ltb→le n 100 three in
            (
              3,
              omega arith,
              rw (decimal-three n large (omega arith)) (
                  read_part-digit (n / 10 / 10) 0 (n / 10 / 10) 0 1 _ (omega arith) (omega arith)
                    (omega arith) (omega arith) (omega arith)
                  ∙ read_part-digit (n / 10 % 10) (n / 10 / 10) (n / 10) 1 2 _ (omega arith)
                      (omega arith) (omega arith) (omega arith) (omega arith)
                  ∙ read_part-digit (n % 10) (n / 10) n 2 3 rest (omega arith) (omega arith)
                      (omega arith) (omega arith) h
                  ∙ read_part-Ends n 3 rest ends),
            )
      ]
]

printed_address : ℕ → ℕ → ℕ → ℕ → List ℕ
printed_address a b c d = decimal a ++ dot ∷ (decimal b ++ dot ∷ (decimal c ++ dot ∷ decimal d))

parse_address-printed :
    (a b c d : ℕ)
    → (a < 256) × (b < 256) × (c < 256) × (d < 256)
    → parse_address (printed_address a b c d) ≡ some (record { a = a; b = b; c = c; d = d })
unfolding parse_address printed_address
parse_address-printed a b c d small =
    let (i, i_pos, first) =
      read_part-decimal a (dot ∷ (decimal b ++ dot ∷ (decimal c ++ dot ∷ decimal d))) small.0
        refl in
    let (j, j_pos, second) =
      read_part-decimal b (dot ∷ (decimal c ++ dot ∷ decimal d)) small.1 refl in
    let (k, k_pos, third) = read_part-decimal c (dot ∷ decimal d) small.2 refl in
    let (l, l_pos, fourth) = read_part-decimal d [] small.3 tt in
    let last : read_part (decimal d) 0 0 ≡ some (d, l, []) =
      subst (λ (t : List ℕ). read_part t 0 0 ≡ some (d, l, [])) (append-nil (decimal d)) fourth in
    let i_some : (i == 0) ≡ false = ground arith in
    let j_some : (j == 0) ≡ false = ground arith in
    let k_some : (k == 0) ≡ false = ground arith in
    let l_some : (l == 0) ≡ false = ground arith in
    rw (first, i_some, second, j_some, third, k_some, last, l_some) refl

format_address-text :
    (address_type value : SnmpValue) (capacity : ℕ) (text : List ℕ)
    → format_address address_type value capacity ≡ some text
    → address_text (address_type.number % 2 ^ 32) value.bytes ≡ some text
unfolding format_address
format_address-text address_type value capacity text e =
    let typed =
      unless-some (not (same_type address_type.type integer) || not (same_type value.type string))
        (address_text (address_type.number % 2 ^ 32) value.bytes >>= λ t.
          if leb capacity (length t) then none else some t)
        e in
    let (t, found, fits) =
      >>=-eq-some (address_text (address_type.number % 2 ^ 32) value.bytes)
        (λ t. if leb capacity (length t) then none else some t) typed.1 in
    found ∙ (unless-some (leb capacity (length t)) (some t) fits).1

-- An IPv4 address that is printed for an application is read as the same address by `parseAddress`.
pub format_address-parse_address :
    (address_type value : SnmpValue) (a b c d capacity : ℕ) (text : List ℕ)
    → address_type.number % 2 ^ 32 ≡ 1
    → value.bytes ≡ a ∷ b ∷ c ∷ d ∷ []
    → (a < 256) × (b < 256) × (c < 256) × (d < 256)
    → format_address address_type value capacity ≡ some text
    → parse_address text ≡ some (record { a = a; b = b; c = c; d = d })
unfolding printed_address
format_address-parse_address address_type value a b c d capacity text kind bytes small e =
    let found = format_address-text address_type value capacity text e in
    let same : some (printed_address a b c d) ≡ some text = rw (kind, bytes) at found in
    rw (sym (some-injective _ _ same)) (parse_address-printed a b c d small)

-- The bytes of a storage are the exact product of its two numbers, which 64 bits hold.
pub storage_bytes_exact :
    (units blocks : SnmpValue) (bytes : ℕ)
    → storage_bytes units blocks ≡ some bytes
    → (bytes ≡ (units.number % 2 ^ 32) * (blocks.number % 2 ^ 32)) × (bytes < 2 ^ 62)
unfolding storage_bytes
storage_bytes_exact units blocks bytes e =
    let unit = units.number % 2 ^ 32 in
    let block = blocks.number % 2 ^ 32 in
    let tested =
      unless-some
        (not (same_type units.type integer)
          || not (same_type blocks.type integer)
          || (unit == 0)
          || is_negative unit
          || is_negative block)
        (some (unit * block % 2 ^ 64)) e in
    let small_unit : unit ≤ 2 ^ 31 - 1 = ground (arith, tested.0) in
    let small_block : block ≤ 2 ^ 31 - 1 = ground (arith, tested.0) in
    let product : unit * block ≤ (2 ^ 31 - 1) * (2 ^ 31 - 1) = mul-le-mul small_unit small_block in
    let same = some-injective _ _ tested.1 in exact (unit * block) bytes product same
  where
    exact :
        (n bytes : ℕ)
        → n ≤ (2 ^ 31 - 1) * (2 ^ 31 - 1)
        → n % 2 ^ 64 ≡ bytes
        → (bytes ≡ n) × (bytes < 2 ^ 62)
    exact n bytes h e = omega arith
