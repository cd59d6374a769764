-- ===== src/Client/Packet/Steps.antt =====
-- Each step of the in-place building, as an equation on bytes.
use arduino_snmp_manager.Common.{
  ℕ, ◌+◌, ◌-◌, ◌≤◌, ◌<◌, ◌≡◌, refl, ap, some, List, [], ◌++◌, append_assoc, arith, length,
  length-append, take-append, drop-append, le→not_ltb,
}
use arduino_snmp_manager.Ber.Tag.{AsnType, integer, string, wire}
use arduino_snmp_manager.Ber.Header.{length-tlv, header_size, write_header, buffer, tlv}
use arduino_snmp_manager.Ber.Integer.{integer_contents, length-integer_contents_signed}
use arduino_snmp_manager.Ber.Complex.{Container, integer_type, stored}
use arduino_snmp_manager.Client.Packet.{append_kept, wrap_kept}
use arduino_snmp_manager.Ber.Complex.Encode.{contents, encoding, serialise-encoding, IsStored}
use arduino_snmp_manager.Client.Wire.{wrap, append}
use arduino_snmp_manager.Client.Packet.{pdu_prefix, message_prefix}

-- `wrap` frames what stands behind `front`.
pub wrap-tlv :
    (capacity : ℕ) (tag : AsnType) (front body : List ℕ)
    → length body ≤ 65535
    → length front + header_size (length body) + length body ≤ capacity
    → wrap capacity (length front) tag (front ++ body) ≡ some (front ++ tlv (wire tag) body)
unfolding wrap
wrap-tlv capacity tag front body small fits =
    let size : length (front ++ body) - length front ≡ length body =
      omega (arith, length-append front body) in
    rw
      (
        size,
        le→not_ltb 65535 (length body) small,
        le→not_ltb capacity (length (front ++ body)) (ground (arith, length-append front body)),
        le→not_ltb (capacity - length (front ++ body)) (header_size (length body))
            (ground (arith, length-append front body)),
        take-append front body,
        drop-append front body,
      )
      (ap some (append_assoc front (write_header (wire tag) (length body)) body))

-- `append` puts the encoding behind the bytes, if it fits.
pub append-encoding :
    (capacity : ℕ) (v : Container) (buf bytes : List ℕ)
    → IsStored v
    → encoding v ≡ some bytes
    → length buf + length bytes ≤ capacity
    → append capacity v buf ≡ some (buf ++ bytes)
unfolding append
append-encoding capacity v buf bytes stored e fits = rw (
  serialise-encoding v buffer (capacity - length buf) stored,
  e,
  le→not_ltb (capacity - length buf) (length bytes) (omega arith),
)

encoding-integer :
    (n : ℕ)
    → encoding (integer_type integer n) ≡ some (tlv (wire integer) (integer_contents integer n))
unfolding encoding contents
encoding-integer n = refl

pub length-integer_tlv : (n : ℕ) → length (tlv (wire integer) (integer_contents integer n)) ≤ 6
length-integer_tlv n = ground (
  arith,
  length-tlv (wire integer) (integer_contents integer n),
  length-integer_contents_signed n,
)

pub append_kept-integer :
    (n : ℕ) (buf : List ℕ)
    → length buf ≤ 90
    → append_kept (integer_type integer n) buf
      ≡ buf ++ tlv (wire integer) (integer_contents integer n)
unfolding append_kept
append_kept-integer n buf h =
    rw
      (
        append_kept,
        append-encoding 96 (integer_type integer n) buf _ (unfold IsStored in tt)
            (encoding-integer n) (omega (arith, length-integer_tlv n)),
      )
      refl

pub pdu_prefix-lem :
    (id repetitions : ℕ)
    → pdu_prefix id repetitions
      ≡ tlv (wire integer) (integer_contents integer id)
        ++ (tlv (wire integer) (integer_contents integer 0)
            ++ tlv (wire integer) (integer_contents integer repetitions))
unfolding pdu_prefix
pdu_prefix-lem id repetitions =
    let a = tlv (wire integer) (integer_contents integer id) in
    let b = tlv (wire integer) (integer_contents integer 0) in
    rw
      (
        append_kept-integer id [] (omega arith),
        append_kept-integer 0 a (omega (arith, length-integer_tlv id)),
        append_kept-integer repetitions (a ++ b)
            (omega (arith, length-integer_tlv id, length-integer_tlv 0, length-append a b)),
      )
      (append_assoc a b (tlv (wire integer) (integer_contents integer repetitions)))

pub message_prefix-lem :
    (version : ℕ) (community : List ℕ)
    → length community < 64
    → message_prefix version community
      ≡ tlv (wire integer) (integer_contents integer version) ++ tlv (wire string) community
unfolding message_prefix wrap_kept
message_prefix-lem version community h =
    let a = tlv (wire integer) (integer_contents integer version) in
    rw
      (
        append_kept-integer version [] (omega arith),
        wrap_kept,
        wrap-tlv 96 string a community (omega arith) (ground (arith, length-integer_tlv version)),
      )
      refl
