-- ===== src/Ber/Tag.antt =====
-- The enumeration ASN_TYPE of src/BER.h: the wire tags.
use mathlib.Core.Option.{some-injective}
use arduino_snmp_manager.Common.{
  ℕ, ◌≡◌, refl, sym, ◌∙◌, ==_iff, Bool, true, Option, none, some, ◌==◌, if◌then◌else◌, ap, arith,
  ◌<◌,
}

pub data AsnType : Type 0 where
  integer string nulltype oid structure : AsnType
  network_address counter32 gauge32 timestamp opaque counter64 : AsnType
  nosuchobject nosuchinstance endofmibview : AsnType
  get_request_pdu get_next_request_pdu get_response_pdu set_request_pdu : AsnType
  trap_pdu get_bulk_request_pdu inform_request_pdu trapv2_pdu : AsnType

-- The byte of a tag.
abbrev pub wire : AsnType → ℕ
wire integer = 0x02
wire string = 0x04
wire nulltype = 0x05
wire oid = 0x06
wire structure = 0x30
wire network_address = 0x40
wire counter32 = 0x41
wire gauge32 = 0x42
wire timestamp = 0x43
wire opaque = 0x44
wire counter64 = 0x46
wire nosuchobject = 0x80
wire nosuchinstance = 0x81
wire endofmibview = 0x82
wire get_request_pdu = 0xa0
wire get_next_request_pdu = 0xa1
wire get_response_pdu = 0xa2
wire set_request_pdu = 0xa3
wire trap_pdu = 0xa4
wire get_bulk_request_pdu = 0xa5
wire inform_request_pdu = 0xa6
wire trapv2_pdu = 0xa7

-- `==` on the enumeration.
abbrev pub same_type : AsnType → AsnType → Bool
same_type a b = wire a == wire b

-- The enumerator that a byte stands for, if it is one: the `case` labels of a `switch` on a tag.
pub of_wire : ℕ → Option AsnType
of_wire b =
    if b == 0x02
    then some integer
    else if b == 0x04
    then some string
    else if b == 0x05
    then some nulltype
    else if b == 0x06
    then some oid
    else if b == 0x30
    then some structure
    else if b == 0x40
    then some network_address
    else if b == 0x41
    then some counter32
    else if b == 0x42
    then some gauge32
    else if b == 0x43
    then some timestamp
    else if b == 0x44
    then some opaque
    else if b == 0x46
    then some counter64
    else if b == 0x80
    then some nosuchobject
    else if b == 0x81
    then some nosuchinstance
    else if b == 0x82
    then some endofmibview
    else if b == 0xa0
    then some get_request_pdu
    else if b == 0xa1
    then some get_next_request_pdu
    else if b == 0xa2
    then some get_response_pdu
    else if b == 0xa3
    then some set_request_pdu
    else if b == 0xa4
    then some trap_pdu
    else if b == 0xa5
    then some get_bulk_request_pdu
    else if b == 0xa6
    then some inform_request_pdu
    else if b == 0xa7
    then some trapv2_pdu
    else none

-- Every tag is read back from its byte.
pub of_wire-wire : (t : AsnType) → of_wire (wire t) ≡ some t
unfolding of_wire
of_wire-wire integer = refl
of_wire-wire _ = refl

pub wire-lt : (t : AsnType) → wire t < 256
wire-lt integer = omega arith
wire-lt _ = omega arith

-- The test on wire tags is equality of tags.
pub same_type_sound : (a b : AsnType) → same_type a b ≡ true → a ≡ b
same_type_sound a b h =
    some-injective _ _ (sym (of_wire-wire a) ∙ ap of_wire ((==_iff _ _).0 h) ∙ of_wire-wire b)
