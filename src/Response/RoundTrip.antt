-- ===== src/Response/RoundTrip.antt =====
-- Messages as a manager or an agent builds them, and what `parseFrom` reads of them.
use arduino_snmp_manager.Common.{
  ℕ, ◌+◌, ◌≤◌, ◌≡◌, refl, sym, ap, Bool, true, false, some, List, [], ◌∷◌, ◌++◌, append_assoc,
  arith, length, length-append, ltb, ◌==◌, if◌then◌else◌, le→not_ltb, >>=-eq-some,
}
use arduino_snmp_manager.Ber.Tag.{AsnType, integer, structure, wire}
use arduino_snmp_manager.Ber.Header.{length-tlv, write_header, tlv, byte_at, byte_at-write_header}
use arduino_snmp_manager.Ber.Octet.{OctetType, c_string}
use arduino_snmp_manager.Ber.Complex.{
  Container, Values, integer_type, octet_type, oid_type, complex_type, nil, cons, type_of,
  depth_limit,
}
use arduino_snmp_manager.Response.Laws.{AreAllowed}
use mathlib.Core.Option.{some-injective}
use arduino_snmp_manager.Ber.Complex.Encode.{contents, encoding}
use arduino_snmp_manager.Ber.Complex.RoundTrip.{
  received, received_all, IsSendable, from_buffer-encoding,
}
use arduino_snmp_manager.Response.{
  VarBind, is_supported_request, parse_bindings, parse_message, parse_from,
}

-- The tree of a binding list.
abbrev pub binding_tree : VarBind → Container
binding_tree b = complex_type structure (cons (oid_type b.oid_text) (cons b.value nil))

abbrev pub binding_trees : List VarBind → Values
binding_trees [] = nil
binding_trees (b ∷ binds) = cons (binding_tree b) (binding_trees binds)

-- The tree of a message; `wire_version` is 0 or 1.
abbrev pub message : ℕ → OctetType → AsnType → ℕ → ℕ → ℕ → List VarBind → Container
message wire_version community request_type id status index binds = complex_type structure (
    cons (integer_type integer wire_version) (
      cons (octet_type community) (
        cons
          (complex_type request_type (
            cons (integer_type integer id) (
              cons (integer_type integer status) (
                cons (integer_type integer index)
                  (cons (complex_type structure (binding_trees binds)) nil)))))
          nil)))

abbrev pub received_binds : List VarBind → List VarBind
received_binds [] = []
received_binds (b ∷ binds) =
    record { oid_text = b.oid_text; value = received b.value } ∷ received_binds binds

pub type_of-received : (v : Container) → type_of (received v) ≡ type_of v
unfolding received
type_of-received (integer_type type v) = refl
type_of-received _ = refl

parse_bindings-binding_trees :
    (version2 : Bool) (binds : List VarBind)
    → AreAllowed version2 binds
    → parse_bindings version2 (received_all (binding_trees binds)) ≡ some (received_binds binds)
unfolding parse_bindings received
parse_bindings-binding_trees version2 [] h = refl
parse_bindings-binding_trees version2 (b ∷ binds) h =
    rw (type_of-received b.value, h.0, parse_bindings-binding_trees version2 binds h.1) refl

abbrev pub received_text : OctetType → List ℕ
received_text o = if o.decoded then o.value else c_string o.value

parse_message-message :
    (wire_version : ℕ) (community : OctetType) (type : AsnType) (id status index : ℕ)
    (binds : List VarBind)
    → wire_version ≤ 1
    → is_supported_request type (wire_version == 1) ≡ true
    → AreAllowed (wire_version == 1) binds
    → parse_message (received (message wire_version community type id status index binds))
      ≡ some (record {
        community = received_text community;
        version = wire_version + 1;
        request_type = type;
        request_id = id;
        error_status = status;
        error_index = index;
        var_binds = received_binds binds;
      })
unfolding parse_message received
parse_message-message wire_version community type id status index binds small known allowed =
    rw
      (
        le→not_ltb 1 wire_version small,
        known,
        parse_bindings-binding_trees (wire_version == 1) binds allowed,
      )
      refl

starts_message :
    (tag : ℕ) (c bytes rest : List ℕ)
    → tlv tag c ≡ bytes
    → (ltb (length (bytes ++ rest)) 2 ≡ false) × (byte_at (bytes ++ rest) 0 ≡ tag)
starts_message tag c bytes rest e = (
  le→not_ltb _ 2 (ground (arith, ap length e, length-append bytes rest, length-tlv tag c)),
  rw (sym e, append_assoc (write_header tag (length c)) c rest)
      (byte_at-write_header tag (length c) (c ++ rest)),
)

-- A message of a supported version and type that can be sent is parsed from its bytes to its own
-- fields, whatever bytes follow it.
pub parse_from-message :
    (wire_version : ℕ) (community : OctetType) (type : AsnType) (id status index : ℕ)
    (binds : List VarBind) (bytes rest : List ℕ)
    → wire_version ≤ 1
    → is_supported_request type (wire_version == 1) ≡ true
    → AreAllowed (wire_version == 1) binds
    → IsSendable (message wire_version community type id status index binds) depth_limit
    → encoding (message wire_version community type id status index binds) ≡ some bytes
    → parse_from (bytes ++ rest)
      ≡ some (record {
        community = received_text community;
        version = wire_version + 1;
        request_type = type;
        request_id = id;
        error_status = status;
        error_index = index;
        var_binds = received_binds binds;
      })
unfolding parse_from encoding
parse_from-message wire_version community type id status index binds bytes rest small known allowed
      sendable e =
    let packet = message wire_version community type id status index binds in
    let (c, found, framed) = >>=-eq-some (contents packet) _ e in
    let (long, tagged) = starts_message (wire structure) c bytes rest (some-injective _ _ framed) in
    rw (
      long,
      tagged,
      from_buffer-encoding structure _ bytes rest sendable e,
      parse_message-message wire_version community type id status index binds small known allowed,
    )
