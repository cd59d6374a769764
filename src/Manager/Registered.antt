-- ===== src/Manager/Registered.antt =====
-- The registrations of src/Arduino_SNMP_Manager.cpp while a manager is used: what `findCallback` gives
-- after a handler is added, and what holds of the list after any sequence of calls.
use arduino_snmp_manager.Ber.Address.{IpAddress, same_ip}
use arduino_snmp_manager.Common.{
  ==_iff, ==_refl, Bool, Bool-cases, List, Option, [], ap, arith, false, get_elem?-append_new,
  get_elem?-append_old, if◌then◌else◌, inl, inr, length, length-append, none, refl, same_bytes,
  some, sym, true, ℕ, ◌&&◌, ◌++◌, ◌<◌, ◌==◌, ◌||◌, ◌∙◌, ◌∷◌, ◌≡◌,
}
use arduino_snmp_manager.Manager.{Manager, is_named}
use arduino_snmp_manager.Manager.Handlers.{
  add_handler, append_new, find_callback, new_callback, register,
}
use arduino_snmp_manager.Registration.{Callback, Destination, Heap, is_listed}

abbrev IsOnce : List ℕ → Type 0
IsOnce [] = Unit
IsOnce (i ∷ rest) = (is_listed i rest ≡ false) × IsOnce rest

-- Every registration exists and is in the list once.
pub record IsManager (registered : List ℕ) (callbacks : List Callback) : Type 0 where
  pub once : IsOnce registered
  pub known : (i : ℕ) → is_listed i registered ≡ true → i < length callbacks

is_listed_self : (i : ℕ) (rest : List ℕ) → is_listed i (i ∷ rest) ≡ true
is_listed_self i rest = ground (arith, ==_refl i)

is_listed_later :
    (i j : ℕ) (rest : List ℕ) → is_listed i rest ≡ true → is_listed i (j ∷ rest) ≡ true
is_listed_later i j rest h = ground arith

append_new-fresh :
    (i : ℕ) (registered : List ℕ)
    → ((j : ℕ) → is_listed j registered ≡ true → j < i)
    → append_new i registered ≡ registered ++ (i ∷ [])
unfolding append_new
append_new-fresh i [] h = refl
append_new-fresh i (j ∷ rest) h =
    let below : j < i = h j (is_listed_self j rest) in
    let differs : (j == i) ≡ false = ground arith in
    rw differs (
      ap (λ (t : List ℕ). j ∷ t)
        (append_new-fresh i rest (λ k e. h k (is_listed_later k j rest e))))

is_listed-append_new :
    (i k : ℕ) (registered : List ℕ)
    → is_listed k (append_new i registered) ≡ (is_listed k registered || (i == k))
unfolding append_new
is_listed-append_new i k [] = ground arith
is_listed-append_new i k (j ∷ rest) = ground (arith, is_listed-append_new i k rest)

append_new-IsOnce :
    (i : ℕ) (registered : List ℕ) → IsOnce registered → IsOnce (append_new i registered)
unfolding append_new
append_new-IsOnce i [] h = (refl, tt)
append_new-IsOnce i (j ∷ rest) h = elim (Bool-cases (j == i)) [
  | inl same ↦ rw same h
  | inr other ↦
      rw other
        ((is_listed-append_new i j rest ∙ ground (arith, h.0, other), append_new-IsOnce i rest h.1))
]

-- What `findCallback` answers with one registration more.
abbrev pub or_new : Option ℕ → Bool → ℕ → Option ℕ
or_new none named i = if named then some i else none
or_new (some j) named i = some j

or_new-if :
    (b : Bool) (i k : ℕ) (found : Option ℕ) (named : Bool)
    → (if b then some i else or_new found named k) ≡ or_new (if b then some i else found) named k
or_new-if true i k found named = refl
or_new-if false i k found named = refl

find_callback-append :
    (ip : IpAddress) (name : List ℕ) (registered : List ℕ) (callbacks : List Callback)
    (callback : Callback)
    → ((i : ℕ) → is_listed i registered ≡ true → i < length callbacks)
    → find_callback ip name (registered ++ (length callbacks ∷ [])) (callbacks ++ (callback ∷ []))
      ≡ or_new
          (find_callback ip name registered callbacks)
          (is_named ip name callback)
          (length callbacks)
unfolding find_callback
find_callback-append ip name [] callbacks callback h =
    rw (get_elem?-append_new callbacks callback) refl
find_callback-append ip name (i ∷ rest) callbacks callback h =
    let there = get_elem?-append_old callbacks i callback (h i (is_listed_self i rest)) in
    let later =
      find_callback-append ip name rest callbacks callback
        (λ j e. h j (is_listed_later j i rest e)) in
    rw (there, later) (or_new-if _ i (length callbacks) _ (is_named ip name callback))

listed_below :
    (destination : Destination) (ip : IpAddress) (name : List ℕ) (manager : Manager) (heap : Heap)
    → IsManager manager.registered heap.callbacks
    → let (manager', heap', i) = register destination ip name manager heap in
      (j : ℕ) → is_listed j manager'.registered ≡ true → j < length heap'.callbacks
unfolding register
listed_below destination ip name manager heap v j h =
    let at = length heap.callbacks in
    let longer = length-append heap.callbacks (new_callback destination ip name ∷ []) in
    elim (Bool-cases (is_listed j manager.registered)) [
      | inl old ↦ omega (arith, longer, v.known j old)
      | inr other ↦
          let new : (at == j) ≡ true =
            ground (arith, sym (is_listed-append_new at j manager.registered) ∙ h, other) in
          omega (arith, longer, (==_iff at j).0 new)
    ]

-- A handler that is added: it is found by its name and peer unless an earlier registration has both,
-- what is found for any other name or peer stays, and the list stays well-formed.
pub register_lem :
    (destination : Destination) (ip ip' : IpAddress) (name name' : List ℕ) (manager : Manager)
    (heap : Heap)
    → IsManager manager.registered heap.callbacks
    → let (manager', heap', i) = register destination ip name manager heap in
      (find_callback ip' name' manager'.registered heap'.callbacks
        ≡ or_new
            (find_callback ip' name' manager.registered heap.callbacks)
            (same_ip ip ip' && same_bytes name name')
            (length heap.callbacks))
      × IsManager manager'.registered heap'.callbacks
unfolding register
register_lem destination ip ip' name name' manager heap v =
    let grown = append_new-fresh (length heap.callbacks) manager.registered v.known in
    (
      rw grown (find_callback-append ip' name' manager.registered heap.callbacks _ v.known),
      record {
        once = append_new-IsOnce (length heap.callbacks) manager.registered v.once;
        known = listed_below destination ip name manager heap v;
      },
    )

-- Adopting a callback that exists.
pub add_handler-IsManager :
    (i : ℕ) (manager : Manager) (heap : Heap)
    → i < length heap.callbacks
    → IsManager manager.registered heap.callbacks
    → IsManager (add_handler (some i) manager).0.registered heap.callbacks
unfolding add_handler
add_handler-IsManager i manager heap h v = record {
  once = append_new-IsOnce i manager.registered v.once;
  known = λ j k. elim (Bool-cases (is_listed j manager.registered)) [
    | inl old ↦ v.known j old
    | inr other ↦
        let new : (i == j) ≡ true =
          ground (arith, sym (is_listed-append_new i j manager.registered) ∙ k, other) in
        omega (arith, h, (==_iff i j).0 new)
  ];
}
