-- ===== src/Ber/Header.antt =====
-- The type/length framing of src/BER.cpp: `readBERHeader`, and the header that every `serialise`
-- writes. A buffer is the list of its accessible bytes, so `available` is its length.
use arduino_snmp_manager.Common.{
  require, ==_refl, sym, append_assoc, take-append, drop-append_at, ℕ, zero, suc, ◌+◌, ◌-◌, ◌*◌,
  ◌/◌, ◌%◌, ◌≤◌, ◌≡◌, refl, arith, Bool, ◌&&◌, ◌||◌, Option, none, some, List, [], ◌∷◌, ◌++◌,
  length, take, drop, ltb, leb, ◌==◌, if◌then◌else◌, ◌>>=◌, length-append,
}

-- `byte & 0x80` and `byte & 0x7f` of an `unsigned char`.
abbrev pub high_bit : ℕ → Bool
high_bit b = leb 128 b

abbrev pub low_bits : ℕ → ℕ
low_bits b = b % 128

-- `while (octets--)`: accumulate the length octets, as long as the length stays in 16 bits.
pub read_length : ℕ → List ℕ → ℕ → Option ℕ
read_length zero rest len = some len
read_length (suc octets) [] len = none
read_length (suc octets) (b ∷ rest) len =
    let more = read_length octets rest (len * 256 + b) in
    if ltb (65535 / 256) len then none else more

-- The last test of `readBERHeader`: the value fits in 16 bits and in the buffer.
abbrev bounded : ℕ → ℕ → ℕ → Option (ℕ × ℕ)
bounded available header len =
    if leb len 65535 && leb len (available - header) then some (header, len) else none

-- The size of the header, and the size of the value.
unfoldable pub read_ber_header : List ℕ → Option (ℕ × ℕ)
unfolding read_length
read_ber_header [] = none
read_ber_header (t ∷ []) = none
read_ber_header (t ∷ l ∷ rest) =
    if high_bit l
    then (let octets = low_bits l in
        if octets == 0 || octets == 127 || ltb (length rest) octets
        then none
        else (read_length octets rest 0 >>= λ len. bounded (2 + length rest) (2 + octets) len))
    else bounded (2 + length rest) 2 l

-- `length < 128 ? 2 : (length < 256 ? 3 : 4)`
abbrev pub header_size : ℕ → ℕ
header_size n = if ltb n 128 then 2 else if ltb n 256 then 3 else 4

-- The tag and the length octets that stand before `n` content bytes.
abbrev pub write_header : ℕ → ℕ → List ℕ
write_header tag n =
    if ltb n 128
    then tag ∷ n ∷ []
    else if ltb n 256
    then tag ∷ 0x81 ∷ n ∷ []
    else tag ∷ 0x82 ∷ n / 256 % 256 ∷ n % 256 ∷ []

pub length-write_header : (tag n : ℕ) → length (write_header tag n) ≡ header_size n
length-write_header tag n = ground arith

-- A header that was written is read back, whatever follows the value.
pub read_ber_header-write_header :
    (tag n : ℕ) (body : List ℕ)
    → n ≤ 65535
    → n ≤ length body
    → read_ber_header (write_header tag n ++ body) ≡ some (header_size n, n)
unfolding read_ber_header
read_ber_header-write_header tag n body small fits = ground arith

-- An accepted header has at least two bytes, it and the value it announces lie within the buffer, and
-- the value has at most 65535 bytes.
pub read_ber_header_bounds :
    (buf : List ℕ) (header len : ℕ)
    → read_ber_header buf ≡ some (header, len)
    → (2 ≤ header) × (header + len ≤ length buf) × (len ≤ 65535)
unfolding read_ber_header
read_ber_header_bounds [] header len e = cc
read_ber_header_bounds (t ∷ []) header len e = cc
read_ber_header_bounds (t ∷ l ∷ rest) header len e = ground arith

-- The destination of a `serialise`: the null pointer, which asks for the size only, or a buffer.
pub data Dest : Type 0 where
  measure buffer : Dest

-- The end of every `serialise`: -1 if the capacity is short, else the size, and the bytes that are
-- stored where there is a buffer.
abbrev pub put : Dest → ℕ → List ℕ → Option (ℕ × List ℕ)
put measure capacity bytes = if ltb capacity (length bytes) then none else some (length bytes, [])
put buffer capacity bytes = if ltb capacity (length bytes) then none else some (length bytes, bytes)

-- Tag, length and contents.
abbrev pub tlv : ℕ → List ℕ → List ℕ
tlv tag contents = write_header tag (length contents) ++ contents

abbrev pub byte_at : List ℕ → ℕ → ℕ
byte_at [] i = 0
byte_at (x ∷ xs) zero = x
byte_at (x ∷ xs) (suc i) = byte_at xs i

-- The start of every `fromBuffer`: the framing and the tag's test, then the content bytes.
unfoldable pub read_tlv : ℕ → List ℕ → Option (List ℕ)
read_tlv tag buf = do
  (header, len) ← read_ber_header buf
  require (byte_at buf 0 == tag) (some (take len (drop header buf)))

pub byte_at-write_header :
    (tag n : ℕ) (body : List ℕ) → byte_at (write_header tag n ++ body) 0 ≡ tag
byte_at-write_header tag n body = ground arith

pub length-tlv :
    (tag : ℕ) (contents : List ℕ)
    → length (tlv tag contents) ≡ header_size (length contents) + length contents
length-tlv tag contents = rw length-append (rw length-write_header refl)

-- The contents that `tlv` framed are read back.
pub read_tlv-tlv :
    (tag : ℕ) (contents rest : List ℕ)
    → length contents ≤ 65535
    → read_tlv tag (tlv tag contents ++ rest) ≡ some contents
unfolding read_tlv
read_tlv-tlv tag contents rest small =
    let header = write_header tag (length contents) in
    let fits : length contents ≤ length (contents ++ rest) =
      omega (arith, length-append contents rest) in
    rw (append_assoc header contents rest) (
      rw (
        read_ber_header-write_header tag (length contents) (contents ++ rest) small fits,
        byte_at-write_header tag (length contents) (contents ++ rest),
        ==_refl tag,
        drop-append_at _ header (contents ++ rest)
            (sym (length-write_header tag (length contents))),
        take-append contents rest,
      ))
