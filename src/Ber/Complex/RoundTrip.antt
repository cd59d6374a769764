-- ===== src/Ber/Complex/RoundTrip.antt =====
-- Encoding a tree and decoding it, for every tree that the protocol can send.
use mathlib.Core.Option.{some-injective}
use arduino_snmp_manager.Common.{
  ℕ, zero, suc, ◌+◌, ◌≤◌, ◌<◌, ◌≡◌, refl, sym, ap, ◌∙◌, subst, Bool, true, false, Option, none,
  some, List, [], ◌∷◌, ◌++◌, append-nil, append_assoc, arith, IsU32, IsU64, length, take, drop,
  length-append, take-append, take-append_at, drop-append_at, ltb, ◌==◌, if◌then◌else◌, ◌>>=◌,
  >>=-eq-some,
}
use arduino_snmp_manager.Config.{snmp_octetstring_max_length}
use arduino_snmp_manager.Ber.Complex.Encode.{contents, encodings, encoding, length-c_string}
use arduino_snmp_manager.Ber.Tag.{
  AsnType, integer, structure, counter32, gauge32, timestamp, opaque, nosuchobject, nosuchinstance,
  endofmibview, get_request_pdu, get_next_request_pdu, get_response_pdu, set_request_pdu, trap_pdu,
  get_bulk_request_pdu, inform_request_pdu, trapv2_pdu, wire, of_wire, of_wire-wire,
}
use arduino_snmp_manager.Ber.Header.{
  length-tlv, read_ber_header, header_size, write_header, length-write_header,
  read_ber_header-write_header, tlv, byte_at, byte_at-write_header,
}
use arduino_snmp_manager.Ber.Oid.{oid_contents}
use arduino_snmp_manager.Ber.Integer.{
  integer_contents, integer_from_buffer, integer_from_buffer-tlv, length-integer_contents,
}
use arduino_snmp_manager.Ber.Counter64.{
  counter64_contents, counter64_from_buffer-tlv, length-counter64_contents,
}
use arduino_snmp_manager.Ber.Octet.{
  OctetType, c_string, octet_contents, octet_from_buffer-tlv, raw_from_buffer-tlv,
}
use arduino_snmp_manager.Ber.Address.{
  IpAddress, ip_bytes, network_address_from_buffer-tlv, null_from_buffer-tlv,
}
use arduino_snmp_manager.Ber.Oid.RoundTrip.{
  ObjectId, IsValid, dotted, encoded, oid_contents-dotted, oid_from_buffer-tlv,
}
use arduino_snmp_manager.Ber.Complex.{
  Container, Values, integer_type, octet_type, raw_type, oid_type, null_type, network_address_type,
  counter64_type, complex_type, nil, cons, type_of, length_allowed, decode_child, decode_all,
  decode, depth_limit, from_buffer,
}

-- What the receiver holds for what was sent: a string that was set from text becomes a decoded one.
unfoldable mutual
  pub received : Container → Container
  received (integer_type type v) = integer_type type v
  received (octet_type o) = octet_type (record {
    value = if o.decoded then o.value else c_string o.value;
    decoded = true;
    valid = true;
  })
  received (raw_type type v) = raw_type type v
  received (oid_type text) = oid_type text
  received null_type = null_type
  received (network_address_type ip) = network_address_type ip
  received (counter64_type v) = counter64_type v
  received (complex_type type vs) = complex_type type (received_all vs)

  pub received_all : Values → Values
  received_all nil = nil
  received_all (cons v vs) = cons (received v) (received_all vs)

-- The tags of constructed values.
abbrev pub is_constructed : AsnType → Bool
is_constructed structure = true
is_constructed get_request_pdu = true
is_constructed get_next_request_pdu = true
is_constructed get_response_pdu = true
is_constructed set_request_pdu = true
is_constructed trap_pdu = true
is_constructed get_bulk_request_pdu = true
is_constructed inform_request_pdu = true
is_constructed trapv2_pdu = true
is_constructed _ = false

-- The tags that `RawType` carries: OPAQUE with any payload, an exception with none.
abbrev raw_allowed : AsnType → ℕ → Bool
raw_allowed opaque len = true
raw_allowed nosuchobject len = len == 0
raw_allowed nosuchinstance len = len == 0
raw_allowed endofmibview len = len == 0
raw_allowed _ len = false

abbrev is_integer_type : AsnType → Bool
is_integer_type integer = true
is_integer_type counter32 = true
is_integer_type gauge32 = true
is_integer_type timestamp = true
is_integer_type _ = false

-- A tree that can be sent: values in range, object identifiers well formed, strings within the
-- capacity, at most `levels` constructed values around each other.
unfoldable mutual
  pub IsSendable : Container → ℕ → Type 0
  IsSendable (integer_type type v) levels = (is_integer_type type ≡ true) × IsU32 v
  IsSendable (octet_type o) levels =
      (o.valid ≡ true) × (length o.value < snmp_octetstring_max_length)
  IsSendable (raw_type type v) levels =
      (raw_allowed type (length v) ≡ true) × (length v ≤ snmp_octetstring_max_length)
  IsSendable (oid_type text) levels = (o : ObjectId) × IsValid o × (text ≡ dotted o)
  IsSendable null_type levels = Unit
  IsSendable (network_address_type ip) levels = Unit
  IsSendable (counter64_type v) levels = IsU64 v
  IsSendable (complex_type type vs) zero = ⊥
  IsSendable (complex_type type vs) (suc levels) =
      (is_constructed type ≡ true) × AreSendable vs levels

  pub AreSendable : Values → ℕ → Type 0
  AreSendable nil levels = Unit
  AreSendable (cons v vs) levels = IsSendable v levels × AreSendable vs levels

-- The bytes of a child are decoded to what the receiver holds.
abbrev Decodes : ℕ → Container → List ℕ → Type 0
Decodes levels v c =
    (length_allowed (type_of v) (length c) ≡ true)
    × (decode_child (decode levels) (type_of v) (tlv (wire (type_of v)) c) ≡ some (received v))
    × (length c ≤ 65535)

-- One round of the child loop.
decode_all_round :
    (nested : AsnType → List ℕ → Option Container) (fuel : ℕ) (buf : List ℕ) (header len : ℕ)
    (type : AsnType) (child : Container)
    → 0 < length buf
    → read_ber_header buf ≡ some (header, len)
    → of_wire (byte_at buf 0) ≡ some type
    → length_allowed type len ≡ true
    → decode_child nested type (take (header + len) buf) ≡ some child
    → decode_all nested (suc fuel) buf ≡ (
        decode_all nested fuel (drop (header + len) buf) >>= λ children. some (cons child children))
unfolding decode_all
decode_all_round nested fuel [] header len type child pos e t a d = absurd (omega arith)
decode_all_round nested fuel (b ∷ bs) header len type child pos e t a d = rw (e, t, a, d) refl

decode_all-tlv :
    (levels fuel : ℕ) (v : Container) (c rest : List ℕ)
    → Decodes levels v c
    → decode_all (decode levels) (suc fuel) (tlv (wire (type_of v)) c ++ rest)
      ≡ (decode_all (decode levels) fuel rest >>= λ children. some (cons (received v) children))
decode_all-tlv levels fuel v c rest (allowed, decoded, small) =
    let tag = wire (type_of v) in
    let buf = tlv tag c ++ rest in
    let split : buf ≡ write_header tag (length c) ++ (c ++ rest) =
      append_assoc (write_header tag (length c)) c rest in
    let size : header_size (length c) + length c ≡ length (tlv tag c) = sym (length-tlv tag c) in
    let head : read_ber_header buf ≡ some (header_size (length c), length c) = rw split (
      read_ber_header-write_header tag (length c) (c ++ rest) small
        (omega (arith, length-append c rest))) in
    let first : byte_at buf 0 ≡ tag = rw split (byte_at-write_header tag (length c) (c ++ rest)) in
    let whole : take (header_size (length c) + length c) buf ≡ tlv tag c =
      take-append_at _ (tlv tag c) rest size in
    let next : drop (header_size (length c) + length c) buf ≡ rest =
      drop-append_at _ (tlv tag c) rest size in
    decode_all_round (decode levels) fuel buf (header_size (length c)) (length c) (type_of v)
      (received v) (ground (arith, length-append (tlv tag c) rest, size)) head
      (ap of_wire first ∙ of_wire-wire (type_of v)) allowed
      (ap (decode_child (decode levels) (type_of v)) whole ∙ decoded)
    ∙ ap
        (λ (r : List ℕ).
          decode_all (decode levels) fuel r >>= λ children. some (cons (received v) children))
        next

-- The leaves.
integer_back :
    (type : AsnType) (v : ℕ)
    → IsU32 v
    → integer_from_buffer type (tlv (wire type) (integer_contents type v)) ≡ some v
integer_back type v h = rw append-nil at (integer_from_buffer-tlv type v [] h)

integer_Decodes :
    (levels : ℕ) (type : AsnType) (v : ℕ)
    → is_integer_type type ≡ true
    → IsU32 v
    → Decodes levels (integer_type type v) (integer_contents type v)
unfolding decode_child received
integer_Decodes levels integer v t h =
    (refl, rw (integer_back integer v h) refl, omega (arith, length-integer_contents integer v))
integer_Decodes levels counter32 v t h =
    (refl, rw (integer_back counter32 v h) refl, omega (arith, length-integer_contents counter32 v))
integer_Decodes levels gauge32 v t h =
    (refl, rw (integer_back gauge32 v h) refl, omega (arith, length-integer_contents gauge32 v))
integer_Decodes levels timestamp v t h =
    (refl, rw (integer_back timestamp v h) refl, omega (arith, length-integer_contents timestamp v))
integer_Decodes levels type v t h = cc

octet_Decodes :
    (levels : ℕ) (o : OctetType)
    → o.valid ≡ true
    → length o.value < snmp_octetstring_max_length
    → (c : List ℕ) × (octet_contents o ≡ some c) × Decodes levels (octet_type o) c
unfolding decode_child received octet_contents
octet_Decodes levels o valid h =
    let value = if o.decoded then o.value else c_string o.value in
    let short : length value < snmp_octetstring_max_length =
      ground (arith, length-c_string o.value) in
    (
      value,
      ground arith,
      (refl, rw (rw append-nil at (octet_from_buffer-tlv value [] short)) refl, omega arith),
    )

raw_Decodes :
    (levels : ℕ) (type : AsnType) (v : List ℕ)
    → raw_allowed type (length v) ≡ true
    → length v ≤ snmp_octetstring_max_length
    → Decodes levels (raw_type type v) v
unfolding decode_child received
raw_Decodes levels opaque v t h =
    (refl, rw (rw append-nil at (raw_from_buffer-tlv opaque v [] h refl)) refl, omega arith)
raw_Decodes levels nosuchobject v t h =
    (t, rw (rw append-nil at (raw_from_buffer-tlv nosuchobject v [] h t)) refl, omega arith)
raw_Decodes levels nosuchinstance v t h =
    (t, rw (rw append-nil at (raw_from_buffer-tlv nosuchinstance v [] h t)) refl, omega arith)
raw_Decodes levels endofmibview v t h =
    (t, rw (rw append-nil at (raw_from_buffer-tlv endofmibview v [] h t)) refl, omega arith)
raw_Decodes levels type v t h = cc

oid_Decodes :
    (levels : ℕ) (text : List ℕ) (o : ObjectId)
    → IsValid o
    → text ≡ dotted o
    → (c : List ℕ) × (oid_contents text ≡ some c) × Decodes levels (oid_type text) c
unfolding decode_child received
oid_Decodes levels text o v e = (
  encoded o,
  rw e (oid_contents-dotted o v),
  (refl, rw (rw append-nil at (oid_from_buffer-tlv o [] v), e) refl, omega (arith, v.packed)),
)

null_Decodes : (levels : ℕ) → Decodes levels null_type []
unfolding decode_child received
null_Decodes levels = (refl, rw (null_from_buffer-tlv []) refl, omega arith)

address_Decodes :
    (levels : ℕ) (ip : IpAddress) → Decodes levels (network_address_type ip) (ip_bytes ip)
unfolding decode_child received
address_Decodes levels ip = (refl, rw (network_address_from_buffer-tlv ip []) refl, omega arith)

counter64_Decodes :
    (levels v : ℕ) → IsU64 v → Decodes levels (counter64_type v) (counter64_contents v)
unfolding decode_child received
counter64_Decodes levels v h = (
  refl,
  rw (rw append-nil at (counter64_from_buffer-tlv v [] h)) refl,
  omega (arith, length-counter64_contents v),
)

-- A constructed child goes to the nested decoder.
decode_child-nested :
    (nested : AsnType → List ℕ → Option Container) (type : AsnType) (buf : List ℕ)
    → is_constructed type ≡ true
    → (decode_child nested type buf ≡ nested type buf)
      × ((len : ℕ) → length_allowed type len ≡ true)
unfolding decode_child
decode_child-nested nested structure buf h = (refl, λ len. refl)
decode_child-nested nested get_request_pdu buf h = (refl, λ len. refl)
decode_child-nested nested get_next_request_pdu buf h = (refl, λ len. refl)
decode_child-nested nested get_response_pdu buf h = (refl, λ len. refl)
decode_child-nested nested set_request_pdu buf h = (refl, λ len. refl)
decode_child-nested nested trap_pdu buf h = (refl, λ len. refl)
decode_child-nested nested get_bulk_request_pdu buf h = (refl, λ len. refl)
decode_child-nested nested inform_request_pdu buf h = (refl, λ len. refl)
decode_child-nested nested trapv2_pdu buf h = (refl, λ len. refl)
decode_child-nested nested type buf h = cc

-- Decoding a constructed value whose children decode.
decode-tlv :
    (levels : ℕ) (type : AsnType) (bytes rest : List ℕ) (children : Values)
    → length bytes ≤ 65535
    → decode_all (decode levels) (length bytes) bytes ≡ some children
    → decode (suc levels) type (tlv (wire type) bytes ++ rest) ≡ some (complex_type type children)
unfolding decode
decode-tlv levels type bytes rest children small e =
    let tag = wire type in
    let header = write_header tag (length bytes) in
    rw (append_assoc header bytes rest) (
      rw (
        read_ber_header-write_header tag (length bytes) (bytes ++ rest) small
            (omega (arith, length-append bytes rest)),
        drop-append_at _ header (bytes ++ rest) (sym (length-write_header tag (length bytes))),
        take-append bytes rest,
        e,
      ))

kept_small :
    (bytes c : List ℕ)
    → (if ltb 65535 (length bytes) then none else some bytes) ≡ some c
    → (length c ≤ 65535) × (bytes ≡ c)
kept_small bytes c e = ground arith

-- An encoding takes two bytes at least.
no_bytes : (tag : ℕ) (c rest bytes : List ℕ) → tlv tag c ++ rest ≡ bytes → length bytes ≤ 0 → ⊥
no_bytes tag c rest bytes e h =
    ground (arith, ap length e, length-append (tlv tag c) rest, length-tlv tag c)

shorter :
    (tag : ℕ) (c rest bytes : List ℕ) (fuel : ℕ)
    → tlv tag c ++ rest ≡ bytes
    → length bytes ≤ suc fuel
    → length rest ≤ fuel
shorter tag c rest bytes fuel e h =
    ground (arith, ap length e, length-append (tlv tag c) rest, length-tlv tag c)

decode_all-nil :
    (nested : AsnType → List ℕ → Option Container) (fuel : ℕ) → decode_all nested fuel [] ≡ some nil
unfolding decode_all
decode_all-nil nested fuel = ground arith

mutual
  unfolding contents encodings received IsSendable

  -- If a sendable child has an encoding, that encoding decodes.
  child_Decodes :
      (v : Container) (levels : ℕ) (c : List ℕ)
      → IsSendable v levels
      → contents v ≡ some c
      → Decodes levels v c
  child_Decodes (integer_type type v) levels c h e =
      subst (Decodes levels (integer_type type v)) (some-injective _ _ e)
        (integer_Decodes levels type v h.0 h.1)
  child_Decodes (octet_type o) levels c h e =
      let (c', found, decoded) = octet_Decodes levels o h.0 h.1 in
      subst (Decodes levels (octet_type o)) (some-injective c' c (sym found ∙ e)) decoded
  child_Decodes (raw_type type v) levels c h e =
      subst (Decodes levels (raw_type type v)) (some-injective _ _ e)
        (raw_Decodes levels type v h.0 h.1)
  child_Decodes (oid_type text) levels c (o, v, p) e =
      let (c', found, decoded) = oid_Decodes levels text o v p in
      subst (Decodes levels (oid_type text)) (some-injective c' c (sym found ∙ e)) decoded
  child_Decodes null_type levels c h e =
      subst (Decodes levels null_type) (some-injective _ _ e) (null_Decodes levels)
  child_Decodes (network_address_type ip) levels c h e =
      subst (Decodes levels (network_address_type ip)) (some-injective _ _ e)
        (address_Decodes levels ip)
  child_Decodes (counter64_type v) levels c h e =
      subst (Decodes levels (counter64_type v)) (some-injective _ _ e)
        (counter64_Decodes levels v h)
  child_Decodes (complex_type type vs) zero c h e = absurd h
  child_Decodes (complex_type type vs) (suc levels) c h e =
      let (bytes, found, kept) = >>=-eq-some (encodings vs) _ e in
      let (small, same) = kept_small bytes c kept in
      let nested = decode_child-nested (decode (suc levels)) type (tlv (wire type) c) h.0 in
      (
        nested.1 (length c),
        nested.0
            ∙ (rw append-nil at (
                decode-tlv levels type c [] (received_all vs) small (
                  children_decode vs levels (length c) c h.1 (found ∙ ap some same)
                    (omega arith)))),
        small,
      )

  children_decode :
      (vs : Values) (levels fuel : ℕ) (bytes : List ℕ)
      → AreSendable vs levels
      → encodings vs ≡ some bytes
      → length bytes ≤ fuel
      → decode_all (decode levels) fuel bytes ≡ some (received_all vs)
  children_decode nil levels fuel bytes h e f =
      rw (sym (some-injective _ _ e)) (decode_all-nil (decode levels) fuel)
  children_decode (cons v vs) levels zero bytes h e f =
      let (c, found, more) = >>=-eq-some (contents v) _ e in
      let (rest, found', whole) = >>=-eq-some (encodings vs) _ more in
      absurd (no_bytes (wire (type_of v)) c rest bytes (some-injective _ _ whole) f)
  children_decode (cons v vs) levels (suc fuel) bytes h e f =
      let (c, found, more) = >>=-eq-some (contents v) _ e in
      let (rest, found', whole) = >>=-eq-some (encodings vs) _ more in
      let same = some-injective _ _ whole in
      rw (sym same) (
        decode_all-tlv levels fuel v c rest (child_Decodes v levels c h.0 found)
        ∙ rw (
            children_decode vs levels fuel rest h.1 found'
              (shorter (wire (type_of v)) c rest bytes fuel same f)))

-- A message tree that can be sent, and that fits in the lengths of the protocol, is decoded from its
-- encoding to what the receiver holds, whatever bytes follow it.
pub from_buffer-encoding :
    (type : AsnType) (vs : Values) (bytes rest : List ℕ)
    → IsSendable (complex_type type vs) depth_limit
    → encoding (complex_type type vs) ≡ some bytes
    → from_buffer type (bytes ++ rest) ≡ some (received (complex_type type vs))
unfolding from_buffer encoding contents IsSendable received
from_buffer-encoding type vs bytes rest h e =
    let (c, found, framed) = >>=-eq-some (contents (complex_type type vs)) _ e in
    let (inner, encoded, kept) = >>=-eq-some (encodings vs) _ found in
    let (small, same) = kept_small inner c kept in
    rw (sym (some-injective _ _ framed)) (
      decode-tlv 31 type c rest (received_all vs) small
        (children_decode vs 31 (length c) c h.1 (encoded ∙ ap some same) (omega arith)))
