-- ===== src/Client/Packet/Message.antt =====
-- The datagram is the encoding of the message tree that a low-level caller would build.
use arduino_snmp_manager.Common.{
  ℕ, ◌+◌, ◌≤◌, ◌<◌, ◌≡◌, refl, sym, ap, ◌∙◌, ◌≢◌, true, none, some, List, [], ◌++◌, append-nil,
  append_assoc, arith, length, length-append, le→not_ltb,
}
use arduino_snmp_manager.Config.{snmp_packet_length}
use arduino_snmp_manager.Ber.Tag.{AsnType, integer, string, structure, wire}
use arduino_snmp_manager.Ber.Header.{length-tlv, header_size, tlv}
use arduino_snmp_manager.Ber.Integer.{integer_contents}
use arduino_snmp_manager.Ber.Octet.{octet_contents}
use arduino_snmp_manager.Response.RoundTrip.{binding_trees, message}
use arduino_snmp_manager.Client.Packet.Steps.{
  wrap-tlv, length-integer_tlv, pdu_prefix-lem, message_prefix-lem,
}
use arduino_snmp_manager.Ber.Complex.Encode.{contents, encodings, encoding}
use arduino_snmp_manager.Response.{VarBind}
use arduino_snmp_manager.Client.Wire.{wrap}
use arduino_snmp_manager.Client.Packet.{reserve_of, assemble}

-- The three integers of a PDU, and the envelope, as bytes.
abbrev int_tlv : ℕ → List ℕ
int_tlv n = tlv (wire integer) (integer_contents integer n)

abbrev pdu_of : ℕ → ℕ → List ℕ → List ℕ
pdu_of id repetitions list = int_tlv id ++ (int_tlv 0 ++ int_tlv repetitions) ++ list

abbrev body_of : ℕ → List ℕ → List ℕ → List ℕ
body_of version community pdu = int_tlv version ++ tlv (wire string) community ++ pdu

length-framed : (tag : ℕ) (xs : List ℕ) → length (tlv tag xs) ≤ length xs + 4
length-framed tag xs = ground (arith, length-tlv tag xs)

length-pdu_of :
    (id repetitions : ℕ) (list : List ℕ) → length (pdu_of id repetitions list) ≤ 18 + length list
length-pdu_of id repetitions list = omega (
  arith,
  length-append (int_tlv id ++ (int_tlv 0 ++ int_tlv repetitions)) list,
  length-append (int_tlv id) (int_tlv 0 ++ int_tlv repetitions),
  length-append (int_tlv 0) (int_tlv repetitions),
  length-integer_tlv id,
  length-integer_tlv 0,
  length-integer_tlv repetitions,
)

length-short : (tag : ℕ) (xs : List ℕ) → length xs < 64 → length (tlv tag xs) ≤ length xs + 2
length-short tag xs h = ground (arith, length-tlv tag xs)

length-body_of :
    (version : ℕ) (community pdu : List ℕ)
    → length community < 64
    → length (body_of version community pdu) ≤ 8 + length community + length pdu
length-body_of version community pdu h = omega (
  arith,
  length-append (int_tlv version ++ tlv (wire string) community) pdu,
  length-append (int_tlv version) (tlv (wire string) community),
  length-integer_tlv version,
  length-short (wire string) community h,
)

header_size-le : (n : ℕ) → header_size n ≤ 4
header_size-le n = ground arith

wrap_all :
    (tag : AsnType) (xs : List ℕ)
    → length xs + 4 ≤ snmp_packet_length
    → wrap snmp_packet_length 0 tag xs ≡ some (tlv (wire tag) xs)
wrap_all tag xs h =
    wrap-tlv snmp_packet_length tag [] xs (omega arith) (omega (arith, header_size-le (length xs)))

-- The reserve that `send` keeps is enough for everything around the bindings.
assemble-tlv :
    (mode : AsnType) (id repetitions version : ℕ) (community bindings : List ℕ)
    → length community < 64
    → length bindings + reserve_of community ≤ snmp_packet_length
    → assemble mode id repetitions version community bindings
      ≡ some (
          tlv (wire structure) (
            body_of version community
              (tlv (wire mode) (pdu_of id repetitions (tlv (wire structure) bindings)))))
unfolding assemble
assemble-tlv mode id repetitions version community bindings h fits =
    let list = tlv (wire structure) bindings in
    let pdu = pdu_of id repetitions list in
    let body = body_of version community (tlv (wire mode) pdu) in
    rw (
      wrap_all structure bindings (omega arith),
      pdu_prefix-lem id repetitions,
      wrap_all mode pdu (
          omega
            (arith, length-pdu_of id repetitions list, length-framed (wire structure) bindings)),
      message_prefix-lem version community h,
      wrap_all structure body (
          omega (
            arith,
            length-body_of version community (tlv (wire mode) pdu) h,
            length-framed (wire mode) pdu,
            length-pdu_of id repetitions list,
            length-framed (wire structure) bindings,
          )),
    )

-- The same envelope as the tree's encoding associates it.
abbrev pdu_tree : ℕ → ℕ → List ℕ → List ℕ
pdu_tree id repetitions list = int_tlv id ++ (int_tlv 0 ++ (int_tlv repetitions ++ (list ++ [])))

abbrev body_tree : ℕ → List ℕ → List ℕ → List ℕ
body_tree version community pdu = int_tlv version ++ (tlv (wire string) community ++ (pdu ++ []))

pdu_tree-pdu_of :
    (id repetitions : ℕ) (list : List ℕ) → pdu_tree id repetitions list ≡ pdu_of id repetitions list
pdu_tree-pdu_of id repetitions list = simp (append_assoc, append-nil)

body_tree-body_of :
    (version : ℕ) (community pdu : List ℕ)
    → body_tree version community pdu ≡ body_of version community pdu
body_tree-body_of version community pdu = simp (append_assoc, append-nil)

encoding-message :
    (mode : AsnType) (id repetitions version : ℕ) (community bindings : List ℕ)
    (binds : List VarBind)
    → encodings (binding_trees binds) ≡ some bindings
    → length bindings ≤ 65535
    → length (pdu_tree id repetitions (tlv (wire structure) bindings)) ≤ 65535
    → length (
        body_tree version community
          (tlv (wire mode) (pdu_tree id repetitions (tlv (wire structure) bindings))))
      ≤ 65535
    → encoding (
        message version
          (record { value = community; decoded = true; valid = true })
          mode
          id
          0
          repetitions
          binds)
      ≡ some (
          tlv (wire structure) (
            body_tree version community
              (tlv (wire mode) (pdu_tree id repetitions (tlv (wire structure) bindings)))))
unfolding encoding contents octet_contents
encoding-message mode id repetitions version community bindings binds e small small_pdu small_body =
    rw (e, le→not_ltb 65535 _ small, le→not_ltb 65535 _ small_pdu, le→not_ltb 65535 _ small_body)

-- The datagram that is built in place is the encoding of the message tree with the same fields, for
-- every binding list that leaves the reserve free: no step of the building fails or overflows.
pub assemble-encoding :
    (mode : AsnType) (id repetitions version : ℕ) (community bindings : List ℕ)
    (binds : List VarBind)
    → length community < 64
    → encodings (binding_trees binds) ≡ some bindings
    → length bindings + reserve_of community ≤ snmp_packet_length
    → (assemble mode id repetitions version community bindings
        ≡ encoding (
            message version
              (record { value = community; decoded = true; valid = true })
              mode
              id
              0
              repetitions
              binds))
      × (assemble mode id repetitions version community bindings ≢ none)
assemble-encoding mode id repetitions version community bindings binds h e fits =
    let list = tlv (wire structure) bindings in
    let p = pdu_tree-pdu_of id repetitions list in
    let built = assemble-tlv mode id repetitions version community bindings h fits in
    let b : body_tree version community (tlv (wire mode) (pdu_tree id repetitions list))
        ≡ body_of version community (tlv (wire mode) (pdu_of id repetitions list)) =
      rw p (body_tree-body_of version community (tlv (wire mode) (pdu_of id repetitions list))) in
    let tree =
      encoding-message mode id repetitions version community bindings binds e (omega arith)
        (omega (
          arith,
          ap length p,
          length-pdu_of id repetitions list,
          length-framed (wire structure) bindings,
        ))
        (omega (
          arith,
          ap length b,
          length-body_of version community (tlv (wire mode) (pdu_of id repetitions list)) h,
          length-framed (wire mode) (pdu_of id repetitions list),
          length-pdu_of id repetitions list,
          length-framed (wire structure) bindings,
        )) in
    (built ∙ sym (tree ∙ rw b refl), λ n. cc (built, n))
