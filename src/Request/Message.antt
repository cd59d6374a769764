-- ===== src/Request/Message.antt =====
-- The packet of `SNMPGet::build` in src/SNMPGet.cpp as a message, and what an agent reads of it.
use arduino_snmp_manager.Ber.Complex.{Container, Values, add_value_to_list, cons, nil, null_type}
use arduino_snmp_manager.Ber.Complex.Encode.{AreStored, IsStored}
use arduino_snmp_manager.Ber.Octet.{octet_of_text}
use arduino_snmp_manager.Ber.Oid.{oid_of_text}
use arduino_snmp_manager.Ber.Tag.{get_request_pdu}
use arduino_snmp_manager.Client.Types.{version_number}
use arduino_snmp_manager.Common.{
  >>=-eq-some, List, Option, Option-cases, [], ap, arith, inl, inr, length, refl, some, subst, sym,
  ℕ, ◌>>=◌, ◌∙◌, ◌∷◌, ◌≡◌, ◌≤◌,
}
use arduino_snmp_manager.Config.{max_oid_length}
use arduino_snmp_manager.Registration.{Callback}
use arduino_snmp_manager.Request.{GetRequest, add_bindings, build, name_of}
use arduino_snmp_manager.Response.{VarBind}
use arduino_snmp_manager.Response.RoundTrip.{binding_tree, binding_trees, message}
use mathlib.Core.Option.{some-injective}

-- One name asked for, with NULL as its value.
abbrev asked : List ℕ → VarBind
asked name = record { oid_text = oid_of_text name; value = null_type }

abbrev pub asked_all : List ℕ → List Callback → Option (List VarBind)
asked_all [] callbacks = some []
asked_all (i ∷ rest) callbacks = do
  name ← name_of i callbacks
  binds ← asked_all rest callbacks
  some (asked name ∷ binds)

-- Lists of objects, one behind the other.
append_values : Values → Values → Values
append_values nil ws = ws
append_values (cons v vs) ws = cons v (append_values vs ws)

append_values-nil : (vs : Values) → append_values vs nil ≡ vs
unfolding append_values
append_values-nil nil = refl
append_values-nil (cons v vs) = ap (cons v) (append_values-nil vs)

append_values-add_value_to_list :
    (vs ws : Values) (v : Container)
    → append_values (add_value_to_list vs v) ws ≡ append_values vs (cons v ws)
unfolding append_values add_value_to_list
append_values-add_value_to_list nil ws v = refl
append_values-add_value_to_list (cons w vs) ws v =
    ap (cons w) (append_values-add_value_to_list vs ws v)

add_bindings-asked_all :
    (ids : List ℕ) (callbacks : List Callback) (vs : Values)
    → add_bindings ids callbacks vs
      ≡ (asked_all ids callbacks >>= λ binds. some (append_values vs (binding_trees binds)))
unfolding add_bindings add_value_to_list
add_bindings-asked_all [] callbacks vs = ap some (sym (append_values-nil vs))
add_bindings-asked_all (i ∷ rest) callbacks vs = elim (Option-cases (name_of i callbacks)) [
  | inl e ↦ rw e refl
  | inr (name, e) ↦ rw e (
      add_bindings-asked_all rest callbacks (add_value_to_list vs (binding_tree (asked name)))
      ∙ elim (Option-cases (asked_all rest callbacks)) [
        | inl f ↦ rw f refl
        | inr (binds, f) ↦ rw f (
            ap some (
              append_values-add_value_to_list vs (binding_trees binds) (binding_tree (asked name))))
      ])
]

-- The packet that is built piece by piece is the GET message with the request's version, community and
-- ID, no error, and one NULL binding for each callback, in their order.
pub build-message :
    (request : GetRequest) (callbacks : List Callback)
    → build request callbacks ≡ (
        request.community >>= λ text. asked_all request.callbacks callbacks >>= λ binds. some (
          message
            (version_number request.version)
            (octet_of_text text)
            get_request_pdu
            request.request_id
            0
            0
            binds))
unfolding build add_value_to_list append_values
build-message request callbacks = elim (Option-cases request.community) [
  | inl e ↦ simp e
  | inr (text, e) ↦
      simp (e, add_bindings-asked_all request.callbacks callbacks nil)
        (elim (Option-cases (asked_all request.callbacks callbacks)) [
          | inl f ↦ rw f refl
          | inr (binds, f) ↦ rw f refl
        ])
]

pub asked_all-AreStored :
    (ids : List ℕ) (callbacks : List Callback) (binds : List VarBind)
    → asked_all ids callbacks ≡ some binds
    → AreStored (binding_trees binds)
unfolding IsStored oid_of_text
asked_all-AreStored [] callbacks binds e =
    subst (λ (l : List VarBind). AreStored (binding_trees l)) (some-injective _ _ e) tt
asked_all-AreStored (i ∷ rest) callbacks binds e =
    let (name, named, more) = >>=-eq-some (name_of i callbacks) _ e in
    let (others, found, whole) = >>=-eq-some (asked_all rest callbacks) _ more in
    subst (λ (l : List VarBind). AreStored (binding_trees l)) (some-injective _ _ whole)
      ((fits name, (tt, tt)), asked_all-AreStored rest callbacks others found)
  where
    fits : (name : List ℕ) → length (oid_of_text name) ≤ max_oid_length
    fits name = ground arith
