-- ===== src/Ber/Complex/Encode.antt =====
-- What `serialise` writes, without sizes, capacities and offsets: the plain recursive encoding.
use arduino_snmp_manager.Common.{
  ℕ, ◌+◌, ◌-◌, ◌≤◌, ◌≡◌, refl, ◌∙◌, inl, inr, Option, none, some, List, [], ◌∷◌, ◌++◌, arith,
  length, length-append, ltb, if◌then◌else◌, le→not_ltb, Option-cases, ◌>>=◌,
}
use arduino_snmp_manager.Config.{snmp_octetstring_max_length, max_oid_length, size_max}
use arduino_snmp_manager.Ber.Tag.{wire}
use arduino_snmp_manager.Ber.Header.{length-tlv, header_size, Dest, measure, buffer, put, tlv}
use arduino_snmp_manager.Ber.Oid.{oid_contents}
use arduino_snmp_manager.Ber.Integer.{integer_contents, length-integer_contents}
use arduino_snmp_manager.Ber.Counter64.{counter64_contents, length-counter64_contents}
use arduino_snmp_manager.Ber.Octet.{OctetType, c_string, octet_contents}
use arduino_snmp_manager.Ber.Address.{ip_bytes}
use arduino_snmp_manager.Ber.Oid.Bounds.{length-oid_contents}
use arduino_snmp_manager.Ber.Complex.{
  Container, Values, integer_type, octet_type, raw_type, oid_type, null_type, network_address_type,
  counter64_type, complex_type, nil, cons, type_of, stored, serialise, measure_all, write_all,
}

unfoldable mutual
  pub contents : Container → Option (List ℕ)
  contents (integer_type type v) = some (integer_contents type v)
  contents (octet_type o) = octet_contents o
  contents (raw_type type v) = some v
  contents (oid_type text) = oid_contents text
  contents null_type = some []
  contents (network_address_type ip) = some (ip_bytes ip)
  contents (counter64_type v) = some (counter64_contents v)
  contents (complex_type type vs) =
      encodings vs >>= λ bytes. if ltb 65535 (length bytes) then none else some bytes

  pub encodings : Values → Option (List ℕ)
  encodings nil = some []
  encodings (cons v vs) =
      contents v >>= λ c. encodings vs >>= λ rest. some (tlv (wire (type_of v)) c ++ rest)

unfoldable pub encoding : Container → Option (List ℕ)
unfolding contents
encoding v = contents v >>= λ c. some (tlv (wire (type_of v)) c)

-- What the fixed arrays of the objects can hold.
unfoldable mutual
  pub IsStored : Container → Type 0
  IsStored (integer_type type v) = Unit
  IsStored (octet_type o) = length o.value ≤ snmp_octetstring_max_length
  IsStored (raw_type type v) = length v ≤ snmp_octetstring_max_length
  IsStored (oid_type text) = length text ≤ max_oid_length
  IsStored null_type = Unit
  IsStored (network_address_type ip) = Unit
  IsStored (counter64_type v) = Unit
  IsStored (complex_type type vs) = AreStored vs

  pub AreStored : Values → Type 0
  AreStored nil = Unit
  AreStored (cons v vs) = IsStored v × AreStored vs

bind_map :
    (m : Option (List ℕ)) (f : List ℕ → List ℕ) (g : List ℕ → Option (ℕ × List ℕ))
    → (m >>= λ c. g (f c)) ≡ ((m >>= λ c. some (f c)) >>= g)
bind_map none f g = refl
bind_map (some c) f g = refl

pub length-c_string : (xs : List ℕ) → length (c_string xs) ≤ length xs
unfolding c_string
length-c_string [] = omega arith
length-c_string (x ∷ xs) = ground (arith, length-c_string xs)

length-octet_contents :
    (o : OctetType) (c : List ℕ)
    → length o.value ≤ snmp_octetstring_max_length
    → octet_contents o ≡ some c
    → length c ≤ snmp_octetstring_max_length
unfolding octet_contents
length-octet_contents o c h e = ground (arith, length-c_string o.value)

-- Fewer than 65536 content bytes, whatever the object.
length-contents : (v : Container) (c : List ℕ) → IsStored v → contents v ≡ some c → length c ≤ 65535
unfolding contents IsStored
length-contents (integer_type type v) c h e = ground (arith, length-integer_contents type v)
length-contents (octet_type o) c h e = omega (arith, length-octet_contents o c h e)
length-contents (raw_type type v) c h e = ground arith
length-contents (oid_type text) c h e = omega (arith, length-oid_contents text c e)
length-contents null_type c h e = ground arith
length-contents (network_address_type ip) c h e = ground arith
length-contents (counter64_type v) c h e = ground (arith, length-counter64_contents v)
length-contents (complex_type type vs) c h e = ground arith

put_measure :
    (tag : ℕ) (c : List ℕ)
    → length c ≤ 65535
    → put measure size_max (tlv tag c) ≡ some (length (tlv tag c), [])
put_measure tag c h =
    rw (le→not_ltb size_max (length (tlv tag c)) (ground (arith, length-tlv tag c)))

-- What the writing pass returns, if it ends within the capacity.
abbrev within : ℕ → ℕ → List ℕ → Option (ℕ × List ℕ)
within capacity offset c =
    if ltb capacity (offset + length c) then none else some (offset + length c, c)

-- The totals of one more child, in the measuring pass and in the writing pass.
measure_cons :
    (len : ℕ) (child : List ℕ) (rest : Option (List ℕ)) (m : Option ℕ)
    → len ≤ 65535
    → (length child ≤ 65535 - len
        → m ≡ (
            rest >>= λ c.
            if ltb 65535 (len + length child + length c)
            then none
            else some (len + length child + length c)))
    → (if ltb (65535 - len) (length child) then none else m) ≡ (
        (rest >>= λ r. some (child ++ r)) >>= λ c.
        if ltb 65535 (len + length c) then none else some (len + length c))
measure_cons len child none m small h = ground arith
measure_cons len child (some r) m small h = ground (arith, length-append child r)

write_cons :
    (capacity offset : ℕ) (child : List ℕ) (rest : Option (List ℕ)) (w : ℕ → Option (ℕ × List ℕ))
    → offset ≤ capacity
    → (offset + length child ≤ capacity
        → w (offset + length child) ≡ (rest >>= within capacity (offset + length child)))
    → (put buffer (capacity - offset) child >>= λ (n, bytes).
        w (offset + n) >>= λ t. some (t.0, bytes ++ t.1))
      ≡ ((rest >>= λ r. some (child ++ r)) >>= within capacity offset)
write_cons capacity offset child none w small h = ground arith
write_cons capacity offset child (some r) w small h = ground (arith, length-append child r)

complex_put :
    (bytes : Option (List ℕ)) (tag : ℕ) (dest : Dest) (capacity : ℕ)
    (written : ℕ → Option (ℕ × List ℕ))
    → ((offset : ℕ) → offset ≤ capacity → written offset ≡ (bytes >>= within capacity offset))
    → ((bytes >>= λ c. if ltb 65535 (0 + length c) then none else some (0 + length c)) >>= λ len.
        if ltb capacity (header_size len + len)
        then none
        else stored dest tag len (written (header_size len)))
      ≡ ((bytes >>= λ c. if ltb 65535 (length c) then none else some c) >>= λ c.
          put dest capacity (tlv tag c))
complex_put none tag dest capacity written h = refl
complex_put (some c) tag measure capacity written h = ground (arith, length-tlv tag c)
complex_put (some c) tag buffer capacity written h =
    ground (arith, length-tlv tag c, h (header_size (length c)))

mutual
  unfolding serialise measure_all write_all contents encodings IsStored

  serialise-put :
      (v : Container) (dest : Dest) (capacity : ℕ)
      → IsStored v
      → serialise v dest capacity
        ≡ (contents v >>= λ c. put dest capacity (tlv (wire (type_of v)) c))
  serialise-put (integer_type type v) dest capacity h = refl
  serialise-put (octet_type o) dest capacity h = refl
  serialise-put (raw_type type v) dest capacity h = refl
  serialise-put (oid_type text) dest capacity h = refl
  serialise-put null_type dest capacity h = refl
  serialise-put (network_address_type ip) dest capacity h = refl
  serialise-put (counter64_type v) dest capacity h = refl
  serialise-put (complex_type type vs) dest capacity h =
      rw (measure_all-encodings vs 0 h (omega arith)) (
        complex_put (encodings vs) (wire type) dest capacity (write_all vs capacity)
          (λ offset. write_all-encodings vs capacity offset h))

  measure_all-encodings :
      (vs : Values) (len : ℕ)
      → AreStored vs
      → len ≤ 65535
      → measure_all vs len
        ≡ (encodings vs >>= λ c. if ltb 65535 (len + length c) then none else some (len + length c))
  measure_all-encodings nil len h k = ground arith
  measure_all-encodings (cons v vs) len h k = elim (Option-cases (contents v)) [
    | inl p ↦ rw (serialise-put v measure size_max h.0, p) refl
    | inr (c, p) ↦
        let child = tlv (wire (type_of v)) c in
        rw
          (
            serialise-put v measure size_max h.0,
            p,
            put_measure (wire (type_of v)) c (length-contents v c h.0 p),
          )
          (measure_cons len child (encodings vs) (measure_all vs (len + length child)) k
            (λ l. measure_all-encodings vs (len + length child) h.1 (omega arith)))
  ]

  write_all-encodings :
      (vs : Values) (capacity offset : ℕ)
      → AreStored vs
      → offset ≤ capacity
      → write_all vs capacity offset ≡ (encodings vs >>= within capacity offset)
  write_all-encodings nil capacity offset h k = ground arith
  write_all-encodings (cons v vs) capacity offset h k = elim (Option-cases (contents v)) [
    | inl p ↦ rw (serialise-put v buffer (capacity - offset) h.0, p) refl
    | inr (c, p) ↦
        let child = tlv (wire (type_of v)) c in
        rw (serialise-put v buffer (capacity - offset) h.0, p)
          (write_cons capacity offset child (encodings vs) (write_all vs capacity) k
            (λ l. write_all-encodings vs capacity (offset + length child) h.1 l))
  ]

-- For an object within its arrays, `serialise` is its plain encoding, refused only for capacity:
-- the two passes of a constructed value agree, at every depth.
pub serialise-encoding :
    (v : Container) (dest : Dest) (capacity : ℕ)
    → IsStored v
    → serialise v dest capacity ≡ (encoding v >>= put dest capacity)
unfolding encoding
serialise-encoding v dest capacity h =
    serialise-put v dest capacity h
    ∙ bind_map (contents v) (tlv (wire (type_of v))) (put dest capacity)
