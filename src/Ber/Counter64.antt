-- ===== src/Ber/Counter64.antt =====
-- `Counter64` of src/BER.cpp: an unsigned 64-bit total.
use native.Mathlib.Nat.{pow-suc}
use arduino_snmp_manager.Common.{
  ℕ, zero, suc, ◌+◌, ◌*◌, ◌/◌, ◌%◌, ◌^◌, ◌≤◌, ◌<◌, ◌≡◌, refl, sym, ap, ◌∙◌, inl, inr, not, ◌&&◌,
  ◌||◌, Option, none, some, List, [], ◌∷◌, ◌++◌, append_assoc, arith, IsU64, length, length-append,
  ltb, ◌==◌, if◌then◌else◌, Bool-cases, ◌>>=◌,
}
use arduino_snmp_manager.Ber.Tag.{counter64, wire}
use arduino_snmp_manager.Ber.Header.{
  high_bit, read_tlv-tlv, read_tlv-tlv, Dest, put, tlv, read_tlv, byte_at,
}

-- The do-while loop that fills `contents` from its end; `taken` is what stands from `start` on.
octets : ℕ → ℕ → List ℕ → List ℕ
octets zero remaining taken = taken
octets (suc rounds) remaining taken =
    let taken' = remaining % 256 ∷ taken in
    let more = octets rounds (remaining / 256) taken' in
    if remaining / 256 == 0 then taken' else more

-- Eight rounds take all of a 64-bit value; a zero goes in front of a byte with its high bit set.
unfoldable pub counter64_contents : ℕ → List ℕ
unfolding octets
counter64_contents value =
    let taken = octets 8 value [] in if high_bit (byte_at taken 0) then 0 ∷ taken else taken

-- `Counter64::serialise`.
unfoldable pub counter64_serialise : ℕ → Dest → ℕ → Option (ℕ × List ℕ)
unfolding counter64_contents
counter64_serialise value dest capacity =
    put dest capacity (tlv (wire counter64) (counter64_contents value))

-- `value = (value << 8) | *buf++` in 64 bits.
unfoldable pub shift_in64 : List ℕ → ℕ → ℕ
shift_in64 [] value = value
shift_in64 (b ∷ rest) value = shift_in64 rest ((value * 256 + b) % 2 ^ 64)

unfoldable pub counter64_value : List ℕ → Option ℕ
unfolding shift_in64
counter64_value contents =
    let len = length contents in
    let first = byte_at contents 0 in
    if (len == 0) || ltb 9 len || high_bit first
    then none
    else if (len == 9) && not (first == 0)
    then none
    else some (shift_in64 contents 0)

-- `Counter64::fromBuffer`.
unfoldable pub counter64_from_buffer : List ℕ → Option ℕ
unfolding counter64_value
counter64_from_buffer buf = read_tlv (wire counter64) buf >>= counter64_value

-- The loop by the number of bytes that a value needs.
shift_in64-append :
    (xs : List ℕ) (b v : ℕ) → shift_in64 (xs ++ (b ∷ [])) v ≡ (shift_in64 xs v * 256 + b) % 2 ^ 64
unfolding shift_in64
shift_in64-append [] b v = refl
shift_in64-append (x ∷ xs) b v = shift_in64-append xs b ((v * 256 + x) % 2 ^ 64)

octets-append :
    (rounds v : ℕ) (taken : List ℕ) → octets rounds v taken ≡ octets rounds v [] ++ taken
unfolding octets
octets-append zero v taken = refl
octets-append (suc rounds) v taken = elim (Bool-cases (v / 256 == 0)) [
  | inl e ↦ rw e refl
  | inr e ↦ rw e (
      octets-append rounds (v / 256) (v % 256 ∷ taken)
      ∙ sym (
          ap (λ (t : List ℕ). t ++ taken) (octets-append rounds (v / 256) (v % 256 ∷ []))
          ∙ append_assoc (octets rounds (v / 256) []) (v % 256 ∷ []) taken))
]

-- The bytes taken read back as the value.
shift_in64-octets :
    (rounds v : ℕ) → v < 256 ^ rounds → IsU64 v → shift_in64 (octets rounds v []) 0 ≡ v
unfolding octets shift_in64
shift_in64-octets zero v h k = omega arith
shift_in64-octets (suc rounds) v h k = elim (Bool-cases (v / 256 == 0)) [
  | inl e ↦ rw e (ground arith)
  | inr e ↦
      rw
        (
          e,
          octets-append rounds (v / 256) (v % 256 ∷ []),
          shift_in64-append (octets rounds (v / 256) []) (v % 256) 0,
        )
        (omega (
          arith,
          shift_in64-octets rounds (v / 256) (omega (arith, pow-suc 256 rounds)) (omega arith),
        ))
]

length-octets :
    (rounds v : ℕ)
    → (length (octets rounds v []) ≤ rounds) × (0 < rounds → 0 < length (octets rounds v []))
unfolding octets
length-octets zero v = omega arith
length-octets (suc rounds) v = elim (Bool-cases (v / 256 == 0)) [
  | inl e ↦ rw e (omega arith)
  | inr e ↦
      rw
        (
          e,
          octets-append rounds (v / 256) (v % 256 ∷ []),
          length-append (octets rounds (v / 256) []) (v % 256 ∷ []),
        )
        (omega (arith, length-octets rounds (v / 256)))
]

pub length-counter64_contents : (v : ℕ) → length (counter64_contents v) ≤ 9
unfolding counter64_contents
length-counter64_contents v = ground (arith, length-octets 8 v)

counter64_value-counter64_contents :
    (v : ℕ) → IsU64 v → counter64_value (counter64_contents v) ≡ some v
unfolding counter64_value counter64_contents
counter64_value-counter64_contents v h =
    settle (octets 8 v []) (length-octets 8 v).0 ((length-octets 8 v).1 (omega arith))
      (shift_in64-octets 8 v h h)
  where
    settle :
        (xs : List ℕ)
        → length xs ≤ 8
        → 0 < length xs
        → shift_in64 xs 0 ≡ v
        → counter64_value (if high_bit (byte_at xs 0) then 0 ∷ xs else xs) ≡ some v
    settle xs l p e = ground arith

-- A 64-bit total is read back from its encoding, whatever follows it.
pub counter64_from_buffer-tlv :
    (v : ℕ) (rest : List ℕ)
    → IsU64 v
    → counter64_from_buffer (tlv (wire counter64) (counter64_contents v) ++ rest) ≡ some v
unfolding counter64_from_buffer
counter64_from_buffer-tlv v rest h =
    rw
      (read_tlv-tlv (wire counter64) (counter64_contents v) rest
        (omega (arith, length-counter64_contents v)))
      (counter64_value-counter64_contents v h)
