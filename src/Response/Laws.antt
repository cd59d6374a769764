-- ===== src/Response/Laws.antt =====
-- What a parsed message satisfies, whatever bytes arrived.
use arduino_snmp_manager.Common.{
  ℕ, ◌+◌, ◌≡◌, refl, sym, ap, ◌∙◌, subst, ◌⊎◌, Bool, true, false, not, ◌&&◌, ◌||◌, some, List,
  arith, length, All, ltb, ◌==◌, >>=-eq-some, require-some, unless-some,
}
use arduino_snmp_manager.Ber.Tag.{AsnType, integer, structure, wire, same_type}
use arduino_snmp_manager.Ber.Header.{byte_at}
use arduino_snmp_manager.Ber.Complex.{
  Container, Values, integer_type, octet_type, oid_type, complex_type, nil, cons, type_of,
  from_buffer,
}
use mathlib.Core.Option.{some-injective}
use arduino_snmp_manager.Response.{
  VarBind, Response, is_valid_binding_type, is_supported_request, parse_binding, parse_bindings,
  parse_pdu, parse_message, parse_from,
}

-- Every binding has a value that its protocol version allows.
abbrev pub AreAllowed : Bool → List VarBind → Type 0
AreAllowed version2 binds = All (λ b. is_valid_binding_type (type_of b.value) version2 ≡ true) binds

pub record IsSupported (r : Response) : Type 0 where
  pub known_version : (r.version ≡ 1) ⊎ (r.version ≡ 2)
  pub known_request : is_supported_request r.request_type (r.version == 2) ≡ true
  pub allowed : AreAllowed (r.version == 2) r.var_binds

parse_binding_allowed :
    (version2 : Bool) (entry : Container) (b : VarBind)
    → parse_binding version2 entry ≡ some b
    → is_valid_binding_type (type_of b.value) version2 ≡ true
unfolding parse_binding
parse_binding_allowed version2 (complex_type type (cons (oid_type text) (cons value nil))) b e =
    ground arith
parse_binding_allowed version2 entry b e = cc

parse_bindings_allowed :
    (version2 : Bool) (entries : Values) (binds : List VarBind)
    → parse_bindings version2 entries ≡ some binds
    → AreAllowed version2 binds
unfolding parse_bindings
parse_bindings_allowed version2 nil binds e = rw (sym (some-injective _ _ e)) tt
parse_bindings_allowed version2 (cons entry rest) binds e =
    let (b, first, more) = >>=-eq-some (parse_binding version2 entry) _ e in
    let (others, found, whole) = >>=-eq-some (parse_bindings version2 rest) _ more in
    rw (sym (some-injective _ _ whole)) (
      parse_binding_allowed version2 entry b first,
      parse_bindings_allowed version2 rest others found,
    )

parse_pdu_supported :
    (community : List ℕ) (wire_version : ℕ) (request_type : AsnType) (fields : Values)
    (r : Response)
    → parse_pdu community wire_version request_type fields ≡ some r
    → (r.version ≡ wire_version + 1)
      × (r.request_type ≡ request_type)
      × AreAllowed (wire_version == 1) r.var_binds
unfolding parse_pdu
parse_pdu_supported community wire_version request_type
      (cons (integer_type id_type id) (
        cons
          (integer_type status_type status)
          (cons (integer_type index_type index) (cons (complex_type list_type bindings) nil))))
      r e =
    let (guarded, parsed) =
      require-some
        (same_type id_type integer
          && same_type status_type integer
          && same_type index_type integer
          && same_type list_type structure)
        _ e in
    let (binds, found, whole) =
      >>=-eq-some (parse_bindings (wire_version == 1) bindings) _ parsed in
    rw (sym (some-injective _ _ whole))
      (refl, refl, parse_bindings_allowed (wire_version == 1) bindings binds found)
parse_pdu_supported community wire_version request_type fields r e = cc

version_flag : (w : ℕ) → (w + 1 == 2) ≡ (w == 1)
version_flag w = ground arith

known_versions : (v w : ℕ) → v ≡ w + 1 → ltb 1 w ≡ false → (v ≡ 1) ⊎ (v ≡ 2)
known_versions v w e h = ground arith

parse_message-IsSupported :
    (packet : Container) (r : Response) → parse_message packet ≡ some r → IsSupported r
unfolding parse_message
parse_message-IsSupported
      (complex_type type (
        cons
          (integer_type version_type version)
          (cons (octet_type community) (cons (complex_type request_type fields) nil))))
      r e =
    let (tagged, rest) = require-some (same_type version_type integer) _ e in
    let (small, known) = unless-some (ltb 1 version) _ rest in
    let (supported, parsed) =
      require-some (is_supported_request request_type (version == 1)) _ known in
    let (v, t, allowed) =
      parse_pdu_supported community.value version request_type fields r parsed in
    let flag : (r.version == 2) ≡ (version == 1) =
      ap (λ (n : ℕ). n == 2) v ∙ version_flag version in
    record {
      known_version = known_versions r.version version v small;
      known_request =
          ap (λ (type : AsnType). is_supported_request type (r.version == 2)) t
          ∙ ap (is_supported_request request_type) flag
          ∙ supported;
      allowed = subst (λ b. AreAllowed b r.var_binds) (sym flag) allowed;
    }
parse_message-IsSupported packet r e = cc

-- Whatever bytes arrive: a message that is accepted has version 1 or 2, a PDU type of that version,
-- and in every binding a value type of that version.
pub parse_from-IsSupported : (buf : List ℕ) (r : Response) → parse_from buf ≡ some r → IsSupported r
unfolding parse_from
parse_from-IsSupported buf r e =
    let (framed, rest) =
      unless-some (ltb (length buf) 2 || not (byte_at buf 0 == wire structure)) _ e in
    let (packet, decoded, parsed) = >>=-eq-some (from_buffer structure buf) _ rest in
    parse_message-IsSupported packet r parsed
