-- ===== src/Manager/Errors.antt =====
-- What `SNMPManager::parsePacket` of src/Arduino_SNMP_Manager.cpp does with the replies that it does
-- not accept.
use arduino_snmp_manager.Ber.Address.{IpAddress}
use arduino_snmp_manager.Ber.Tag.{get_response_pdu, same_type}
use arduino_snmp_manager.Client.Receive.{answers}
use arduino_snmp_manager.Common.{
  ==_iff, Bool, Bool-cases, List, Option-cases, [], ap, arith, false, get_elem?, if◌then◌else◌, inl,
  inr, none, not, refl, set, some, subst, suc, sym, true, zero, ℕ, ◌&&◌, ◌==◌, ◌∙◌, ◌∷◌, ◌≡◌,
}
use arduino_snmp_manager.Manager.{Manager, consume_all, deliver_all, is_expected, parse_packet}
use arduino_snmp_manager.Manager.Routing.{test_of}
use arduino_snmp_manager.Registration.{Callback, Heap, is_listed, store_callback}
use arduino_snmp_manager.Response.{Response, parse_from}
use arduino_snmp_manager.Tracking.{Key, consume, matches}
use arduino_snmp_manager.Tracking.Laws.{matches-consume}
use arduino_snmp_manager.Tracking.Slots.{same_key_refl}

-- The reply's bindings are looked at.
abbrev pub is_accepted : Manager → Response → Bool
is_accepted manager r =
    same_type r.request_type get_response_pdu && is_expected manager r && (r.error_status == 0)

-- What a list of registrations expects for a key.
abbrev pub expects_at : Key → List Callback → ℕ → Bool
expects_at key callbacks i =
    test_of (λ callback. matches key callback.tracker) (get_elem? callbacks i)

after_consume :
    (key : Key) (callback : Callback) → matches key (consume key callback.tracker).0 ≡ false
after_consume key callback =
    matches-consume key key callback.tracker ∙ ground (arith, same_key_refl key)

-- Writing a registration that does not expect the reply adds no expectation.
expects-set :
    (key : Key) (callbacks : List Callback) (i j : ℕ) (callback : Callback)
    → matches key callback.tracker ≡ false
    → expects_at key callbacks j ≡ false
    → expects_at key (set callbacks i callback) j ≡ false
expects-set key [] i j callback quiet h = h
expects-set key (c ∷ rest) zero zero callback quiet h = quiet
expects-set key (c ∷ rest) zero (suc j) callback quiet h = h
expects-set key (c ∷ rest) (suc i) zero callback quiet h = h
expects-set key (c ∷ rest) (suc i) (suc j) callback quiet h =
    expects-set key rest i j callback quiet h

expects-set_same :
    (key : Key) (callbacks : List Callback) (i : ℕ) (callback : Callback)
    → matches key callback.tracker ≡ false
    → expects_at key (set callbacks i callback) i ≡ false
expects-set_same key [] i callback quiet = refl
expects-set_same key (c ∷ rest) zero callback quiet = quiet
expects-set_same key (c ∷ rest) (suc i) callback quiet = expects-set_same key rest i callback quiet

-- One registration is told of the error.
unfoldable told : Key → ℕ → Heap → Heap
told key i heap = elim (get_elem? heap.callbacks i) [
  | none ↦ heap
  | some callback ↦
      store_callback i (record callback { tracker = (consume key callback.tracker).0 }) heap
]

told-none :
    (key : Key) (i : ℕ) (heap : Heap) → get_elem? heap.callbacks i ≡ none → told key i heap ≡ heap
unfolding told
told-none key i heap e = rw (e, told) refl

told-some :
    (key : Key) (i : ℕ) (heap : Heap) (callback : Callback)
    → get_elem? heap.callbacks i ≡ some callback
    → told key i heap
      ≡ store_callback i (record callback { tracker = (consume key callback.tracker).0 }) heap
unfolding told
told-some key i heap callback e = rw (e, told) refl

told-cells : (key : Key) (i : ℕ) (heap : Heap) → (told key i heap).cells ≡ heap.cells
told-cells key i heap = elim (Option-cases (get_elem? heap.callbacks i)) [
  | inl e ↦ rw (told-none key i heap e) refl
  | inr (callback, e) ↦ rw (told-some key i heap callback e) refl
]

told-expects :
    (key : Key) (i j : ℕ) (heap : Heap)
    → expects_at key heap.callbacks j ≡ false
    → expects_at key (told key i heap).callbacks j ≡ false
told-expects key i j heap h = elim (Option-cases (get_elem? heap.callbacks i)) [
  | inl e ↦
      subst (λ (x : Heap). expects_at key x.callbacks j ≡ false) (sym (told-none key i heap e)) h
  | inr (callback, e) ↦
      subst (λ (x : Heap). expects_at key x.callbacks j ≡ false)
        (sym (told-some key i heap callback e))
        (expects-set key heap.callbacks i j _ (after_consume key callback) h)
]

told_self : (key : Key) (i : ℕ) (heap : Heap) → expects_at key (told key i heap).callbacks i ≡ false
told_self key i heap = elim (Option-cases (get_elem? heap.callbacks i)) [
  | inl e ↦
      subst (λ (x : Heap). expects_at key x.callbacks i ≡ false) (sym (told-none key i heap e))
        (ap (test_of (λ callback. matches key callback.tracker)) e)
  | inr (callback, e) ↦
      subst (λ (x : Heap). expects_at key x.callbacks i ≡ false)
        (sym (told-some key i heap callback e))
        (expects-set_same key heap.callbacks i _ (after_consume key callback))
]

consume_all-cells :
    (key : Key) (registered : List ℕ) (heap : Heap)
    → (consume_all key registered heap).cells ≡ heap.cells
unfolding consume_all told
consume_all-cells key [] heap = refl
consume_all-cells key (i ∷ rest) heap =
    consume_all-cells key rest (told key i heap) ∙ told-cells key i heap

consume_all-expects :
    (key : Key) (registered : List ℕ) (j : ℕ) (heap : Heap)
    → expects_at key heap.callbacks j ≡ false
    → expects_at key (consume_all key registered heap).callbacks j ≡ false
unfolding consume_all told
consume_all-expects key [] j heap h = h
consume_all-expects key (i ∷ rest) j heap h =
    consume_all-expects key rest j (told key i heap) (told-expects key i j heap h)

consume_all-is_listed :
    (key : Key) (registered : List ℕ) (j : ℕ) (heap : Heap)
    → is_listed j registered ≡ true
    → expects_at key (consume_all key registered heap).callbacks j ≡ false
unfolding consume_all told
consume_all-is_listed key [] j heap h = cc
consume_all-is_listed key (i ∷ rest) j heap h = elim (Bool-cases (i == j)) [
  | inl same ↦
      consume_all-expects key rest j (told key i heap)
        (rw (sym ((==_iff i j).0 same)) (told_self key i heap))
  | inr other ↦ consume_all-is_listed key rest j (told key i heap) (rw other at h)
]

-- The tests of the source, for the three conditions.
abbrev by_tests : (answers expected good : Bool) → Heap → Heap × Bool → Heap × Bool → Heap × Bool
by_tests answers expected good heap error accepted =
    if not answers
    then (heap, true)
    else if not expected
    then (heap, false)
    else if not good
    then error
    else accepted

by_tests-cells :
    (answers expected good : Bool) (heap : Heap) (error accepted : Heap × Bool)
    → error.0.cells ≡ heap.cells
    → (answers && expected && good) ≡ false
    → (by_tests answers expected good heap error accepted).0.cells ≡ heap.cells
by_tests-cells false expected good heap error accepted same h = refl
by_tests-cells true false good heap error accepted same h = refl
by_tests-cells true true false heap error accepted same h = same
by_tests-cells true true true heap error accepted same h = cc

by_tests-error :
    (answers expected good : Bool) (heap : Heap) (error accepted : Heap × Bool)
    → (answers && expected && good) ≡ false
    → (answers && expected) ≡ true
    → by_tests answers expected good heap error accepted ≡ error
by_tests-error false expected good heap error accepted h k = cc
by_tests-error true false good heap error accepted h k = cc
by_tests-error true true false heap error accepted h k = refl
by_tests-error true true true heap error accepted h k = cc

parse_packet-parsed :
    (manager : Manager) (peer : IpAddress) (packet : List ℕ) (heap : Heap) (r : Response)
    → parse_from packet ≡ some r
    → let key : Key = record { id = r.request_id; udp = manager.udp; peer = peer } in
      parse_packet manager peer packet heap
      ≡ by_tests
          (same_type r.request_type get_response_pdu)
          (is_expected manager r)
          (r.error_status == 0)
          heap
          (consume_all key manager.registered heap, false)
          (deliver_all key manager.registered r.var_binds heap)
unfolding parse_packet
parse_packet-parsed manager peer packet heap r e = rw (e, parse_packet) refl

-- A reply that the loop over the bindings does not see: one of another kind, version or community, or
-- one with an error status. It writes no variable of the application, and where it is an error
-- reply for this manager no registration expects a reply to that request afterwards.
pub parse_packet_refused :
    (manager : Manager) (peer : IpAddress) (packet : List ℕ) (heap : Heap) (r : Response)
    → parse_from packet ≡ some r
    → is_accepted manager r ≡ false
    → ((parse_packet manager peer packet heap).0.cells ≡ heap.cells)
      × (same_type r.request_type get_response_pdu && is_expected manager r ≡ true
          → (j : ℕ) → is_listed j manager.registered ≡ true
          → expects_at
              (record { id = r.request_id; udp = manager.udp; peer = peer })
              (parse_packet manager peer packet heap).0.callbacks
              j
            ≡ false)
parse_packet_refused manager peer packet heap r e refused =
    let key : Key = record { id = r.request_id; udp = manager.udp; peer = peer } in
    let accepted = deliver_all key manager.registered r.var_binds heap in
    let error : Heap × Bool = (consume_all key manager.registered heap, false) in
    let parsed = parse_packet-parsed manager peer packet heap r e in
    let answers = same_type r.request_type get_response_pdu in
    let expected = is_expected manager r in
    let good = r.error_status == 0 in
    (
      ap (λ (x : Heap × Bool). x.0.cells) parsed
          ∙ by_tests-cells answers expected good heap error accepted
              (consume_all-cells key manager.registered heap) refused,
      λ mine j listed.
          subst (λ (x : Heap × Bool). expects_at key x.0.callbacks j ≡ false)
            (sym (parsed ∙ by_tests-error answers expected good heap error accepted refused mine))
            (consume_all-is_listed key manager.registered j heap listed),
    )
