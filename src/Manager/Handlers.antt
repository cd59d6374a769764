-- ===== src/Manager/Handlers.antt =====
-- The registrations of src/Arduino_SNMP_Manager.cpp: `addHandler`, the handlers for each type, and
-- `findCallback`. Allocation is taken to succeed; `none` is a null pointer.
use arduino_snmp_manager.Ber.Address.{IpAddress}
use arduino_snmp_manager.Ber.Tag.{AsnType, opaque, same_type, string}
use arduino_snmp_manager.Common.{
  Bool, List, Option, [], ap, arith, false, get_elem?, if◌then◌else◌, length, none, not, refl, some,
  true, ℕ, ◌&&◌, ◌++◌, ◌==◌, ◌∷◌, ◌≡◌,
}
use arduino_snmp_manager.Manager.{Manager, is_named}
use arduino_snmp_manager.Registration.{
  Callback, Destination, Heap, bytes_to, counter32_to, counter64_to, float_to, gauge32_to,
  integer_to, is_listed, oid_to, text_to, timestamp_to,
}
use arduino_snmp_manager.Tracking.{fresh}

-- The walk of `addHandler` to the registration or to the end of the list.
unfoldable pub append_new : ℕ → List ℕ → List ℕ
append_new i [] = i ∷ []
append_new i (j ∷ rest) = let later = append_new i rest in if j == i then j ∷ rest else j ∷ later

-- `addHandler`.
unfoldable pub add_handler : Option ℕ → Manager → Manager × Bool
unfolding append_new
add_handler none manager = (manager, false)
add_handler (some i) manager =
    (record manager { registered = append_new i manager.registered }, true)

-- What `new` and the assignments make of the callback's class.
abbrev pub new_callback : Destination → IpAddress → List ℕ → Callback
new_callback destination ip name = record {
  name = some name;
  ip = ip;
  destination = destination;
  updates = 0;
  tracker = fresh;
}

-- A new callback with its name, peer and destination, adopted by the manager: the common part of the
-- handlers.
unfoldable pub register :
    Destination → IpAddress → List ℕ → Manager → Heap → Manager × Heap × Option ℕ
unfolding add_handler
register destination ip name manager heap =
    let i = length heap.callbacks in
    (
      (add_handler (some i) manager).0,
      record heap { callbacks = heap.callbacks ++ (new_callback destination ip name ∷ []) },
      some i,
    )

-- A handler for a pointer to a variable.
unfoldable pub add_variable_handler :
    (ℕ → Destination)
    → IpAddress
    → Option (List ℕ)
    → Option ℕ
    → Manager
    → Heap
    → Manager × Heap × Option ℕ
unfolding register
add_variable_handler to ip none value manager heap = (manager, heap, none)
add_variable_handler to ip (some name) none manager heap = (manager, heap, none)
add_variable_handler to ip (some name) (some at) manager heap =
    register (to at) ip name manager heap

-- `addStringHandler` and `addOIDHandler` with the capacity of the buffer.
abbrev pub add_string_handler :
    IpAddress → Option (List ℕ) → Option ℕ → ℕ → Manager → Heap → Manager × Heap × Option ℕ
add_string_handler ip name value capacity manager heap =
    add_variable_handler (λ at. text_to string (some at) capacity) ip name value manager heap

abbrev pub add_oid_handler :
    IpAddress → Option (List ℕ) → Option ℕ → ℕ → Manager → Heap → Manager × Heap × Option ℕ
add_oid_handler ip name value capacity manager heap =
    add_variable_handler (λ at. oid_to (some at) capacity) ip name value manager heap

-- The handlers for words.
abbrev Adds : Type 0
Adds = IpAddress → Option (List ℕ) → Option ℕ → Manager → Heap → Manager × Heap × Option ℕ

abbrev pub add_integer_handler : Adds
add_integer_handler = add_variable_handler integer_to

abbrev pub add_float_handler : Adds
add_float_handler = add_variable_handler float_to

abbrev pub add_timestamp_handler : Adds
add_timestamp_handler = add_variable_handler timestamp_to

abbrev pub add_counter64_handler : Adds
add_counter64_handler = add_variable_handler counter64_to

abbrev pub add_counter32_handler : Adds
add_counter32_handler = add_variable_handler counter32_to

abbrev pub add_gauge_handler : Adds
add_gauge_handler = add_variable_handler gauge32_to

-- `addBinaryHandler`, with a second pointer for the length.
unfoldable pub add_binary_handler :
    AsnType
    → IpAddress
    → Option (List ℕ)
    → Option ℕ
    → ℕ
    → Option ℕ
    → Manager
    → Heap
    → Manager × Heap × Option ℕ
unfolding add_variable_handler
add_binary_handler type ip name value capacity none manager heap = (manager, heap, none)
add_binary_handler type ip name value capacity (some length_at) manager heap =
    if not (same_type type string) && not (same_type type opaque)
    then (manager, heap, none)
    else add_variable_handler (λ at. bytes_to type at capacity length_at) ip name value manager heap

-- `addOctetHandler` and `addOpaqueHandler`.
abbrev pub add_octet_handler :
    IpAddress
    → Option (List ℕ)
    → Option ℕ
    → ℕ
    → Option ℕ
    → Manager
    → Heap
    → Manager × Heap × Option ℕ
add_octet_handler = add_binary_handler string

abbrev pub add_opaque_handler :
    IpAddress
    → Option (List ℕ)
    → Option ℕ
    → ℕ
    → Option ℕ
    → Manager
    → Heap
    → Manager × Heap × Option ℕ
add_opaque_handler = add_binary_handler opaque

-- `findCallback`: the first registration of the name for the peer. A callback without a name, which no
-- handler adds, is not found.
unfoldable pub find_callback : IpAddress → List ℕ → List ℕ → List Callback → Option ℕ
find_callback ip name [] callbacks = none
find_callback ip name (i ∷ rest) callbacks =
    let later = find_callback ip name rest callbacks in
    if elim (get_elem? callbacks i) [ none ↦ false | some callback ↦ is_named ip name callback ]
    then some i
    else later

append_new-fresh :
    (i : ℕ) (registered : List ℕ)
    → is_listed i registered ≡ false
    → append_new i registered ≡ registered ++ (i ∷ [])
unfolding append_new
append_new-fresh i [] h = refl
append_new-fresh i (j ∷ rest) h =
    let differs : (j == i) ≡ false = ground arith in
    rw differs (ap (λ (t : List ℕ). j ∷ t) (append_new-fresh i rest (ground arith)))
