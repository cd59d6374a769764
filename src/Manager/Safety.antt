-- ===== src/Manager/Safety.antt =====
-- `SNMPManager::parsePacket` of src/Arduino_SNMP_Manager.cpp writes within the buffers of the application.
use arduino_snmp_manager.Ber.Address.{IpAddress}
use arduino_snmp_manager.Ber.Complex.{Container, type_of}
use arduino_snmp_manager.Ber.Tag.{get_response_pdu, same_type}
use arduino_snmp_manager.Common.{
  Bool, Bool-cases, List, Option-cases, [], ap, false, get_elem?, get_elem?-set, get_elem?-set_same,
  if◌then◌else◌, inl, inr, not, refl, some, subst, sym, true, ℕ, ◌%◌, ◌+◌, ◌==◌, ◌^◌, ◌∙◌, ◌∷◌, ◌≡◌,
}
use arduino_snmp_manager.Manager.{
  Manager, consume_all, consumed, deliver, deliver_all, deliver_to, is_exception, is_expected,
  parse_packet, route, update,
}
use arduino_snmp_manager.Manager.Memory.{HasRoom, IsRoomy, shapes, write-shapes}
use arduino_snmp_manager.Registration.{
  Callback, Cell, Destination, Heap, callback_type, store_callback, write,
}
use arduino_snmp_manager.Response.{VarBind, parse_from}
use arduino_snmp_manager.Tracking.{Key, consume, has_tracked_requests}

room-set :
    (heap : Heap) (i : ℕ) (old callback : Callback)
    → IsRoomy heap
    → get_elem? heap.callbacks i ≡ some old
    → callback.destination ≡ old.destination
    → IsRoomy (store_callback i callback heap)
room-set heap i old callback v found same = record {
  room = λ j other e. elim (get_elem?-set heap.callbacks i j callback other e) [
    | inl (p, q) ↦
        subst (λ (d : Destination). HasRoom d (shapes heap.cells))
          (sym (ap (λ (c : Callback). c.destination) q ∙ same)) (v.room i old found)
    | inr (p, q) ↦ v.room j other q
  ];
}

cells-set :
    (heap : Heap) (cells : List Cell)
    → IsRoomy heap
    → shapes cells ≡ shapes heap.cells
    → IsRoomy (record heap { cells = cells })
cells-set heap cells v same = record {
  room = λ j other e. subst (HasRoom other.destination) (sym same) (v.room j other e);
}

-- What a step of the delivery keeps: all kinds and sizes, and with them the room.
pub record Keeps (heap heap' : Heap) : Type 0 where
  pub sizes : shapes heap'.cells ≡ shapes heap.cells
  pub roomy : IsRoomy heap'

update-Keeps :
    (i : ℕ) (old callback : Callback) (value : Container) (heap : Heap)
    → IsRoomy heap
    → get_elem? heap.callbacks i ≡ some old
    → callback.destination ≡ old.destination
    → Keeps
        (store_callback i callback heap)
        (update i callback value (store_callback i callback heap))
unfolding update
update-Keeps i old callback value heap v found same =
    let again = record callback { updates = (callback.updates + 1) % 2 ^ 32 } in
    let here = room-set heap i old callback v found same in
    elim (Option-cases (write callback.destination value heap.cells)) [
      | inl e ↦ rw (e, update) (record { sizes = refl; roomy = here })
      | inr (cells, e) ↦
          let sizes =
            write-shapes callback.destination value heap.cells cells
              (subst (λ (d : Destination). HasRoom d (shapes heap.cells)) (sym same)
                (v.room i old found))
              e in
          rw (e, update)
            (record {
              sizes = sizes;
              roomy =
                  cells-set (store_callback i again (store_callback i callback heap)) cells
                    (room-set (store_callback i callback heap) i callback again here
                      (get_elem?-set_same heap.callbacks i callback old found) refl)
                    sizes;
            })
    ]

Keeps-trans : (a b c : Heap) → Keeps a b → Keeps b c → Keeps a c
Keeps-trans a b c first second = record { sizes = second.sizes ∙ first.sizes; roomy = second.roomy }

consumed-destination :
    (key : Key) (callback : Callback) → (consumed key callback).destination ≡ callback.destination
consumed-destination key callback = elim (Bool-cases (has_tracked_requests callback.tracker)) [
  | inl e ↦ rw e refl
  | inr e ↦ rw e refl
]

if-Keeps :
    (heap : Heap) (b : Bool) (first second : Heap × Bool)
    → Keeps heap first.0
    → Keeps heap second.0
    → Keeps heap (if b then first else second).0
if-Keeps heap true first second h k = h
if-Keeps heap false first second h k = k

deliver_to-Keeps :
    (key : Key) (i : ℕ) (callback : Callback) (value : Container) (heap : Heap)
    → IsRoomy heap
    → get_elem? heap.callbacks i ≡ some callback
    → Keeps heap (deliver_to key i callback value heap).0
unfolding deliver_to
deliver_to-Keeps key i callback value heap v found =
    let same = consumed-destination key callback in
    let stored : Keeps heap (store_callback i (consumed key callback) heap) = record {
      sizes = refl;
      roomy = room-set heap i callback (consumed key callback) v found same;
    } in
    if-Keeps heap (is_exception (type_of value)) _ _ stored (
      if-Keeps heap (not (same_type (callback_type callback.destination) (type_of value))) _ _
        stored
        (Keeps-trans heap _ _ stored
          (update-Keeps i callback (consumed key callback) value heap v found same)))

deliver-Keeps :
    (key : Key) (registered : List ℕ) (b : VarBind) (heap : Heap)
    → IsRoomy heap
    → Keeps heap (deliver key registered b heap).0
unfolding deliver
deliver-Keeps key registered b heap v =
    elim (Option-cases (route key b.oid_text registered heap.callbacks)) [
      | inl e ↦ rw (e, deliver) (record { sizes = refl; roomy = v })
      | inr (i, e) ↦ elim (Option-cases (get_elem? heap.callbacks i)) [
        | inl f ↦ rw (e, f, deliver) (record { sizes = refl; roomy = v })
        | inr (callback, f) ↦ rw (e, f, deliver) (deliver_to-Keeps key i callback b.value heap v f)
      ]
    ]

deliver_all-Keeps :
    (key : Key) (registered : List ℕ) (binds : List VarBind) (heap : Heap)
    → IsRoomy heap
    → Keeps heap (deliver_all key registered binds heap).0
unfolding deliver_all
deliver_all-Keeps key registered [] heap v = record { sizes = refl; roomy = v }
deliver_all-Keeps key registered (b ∷ binds) heap v =
    let first = deliver-Keeps key registered b heap v in
    if-Keeps heap (deliver key registered b heap).1 _ _
      (Keeps-trans heap _ _ first
        (deliver_all-Keeps key registered binds (deliver key registered b heap).0 first.roomy))
      first

consume_all-Keeps :
    (key : Key) (registered : List ℕ) (heap : Heap)
    → IsRoomy heap
    → Keeps heap (consume_all key registered heap)
unfolding consume_all
consume_all-Keeps key [] heap v = record { sizes = refl; roomy = v }
consume_all-Keeps key (i ∷ rest) heap v = elim (Option-cases (get_elem? heap.callbacks i)) [
  | inl e ↦ rw (e, consume_all) (consume_all-Keeps key rest heap v)
  | inr (callback, e) ↦
      let callback' = record callback { tracker = (consume key callback.tracker).0 } in
      let heap' = store_callback i callback' heap in
      let kept = consume_all-Keeps key rest heap' (room-set heap i callback callback' v e refl) in
      rw (e, consume_all) (record { sizes = kept.sizes; roomy = kept.roomy })
]

-- Whatever bytes arrive, and whatever the outcome: every variable of the application keeps its kind
-- and every buffer its size, where each buffer has the capacity that its registration states; and
-- each still has.
pub parse_packet-Keeps :
    (manager : Manager) (peer : IpAddress) (packet : List ℕ) (heap : Heap)
    → IsRoomy heap
    → Keeps heap (parse_packet manager peer packet heap).0
unfolding parse_packet
parse_packet-Keeps manager peer packet heap v =
    let same : Keeps heap heap = record { sizes = refl; roomy = v } in
    elim (Option-cases (parse_from packet)) [
      | inl e ↦ rw (e, parse_packet) same
      | inr (r, e) ↦
          let key : Key = record { id = r.request_id; udp = manager.udp; peer = peer } in
          rw (e, parse_packet)
            (if-Keeps heap (not (same_type r.request_type get_response_pdu)) _ _ same (
              if-Keeps heap (not (is_expected manager r)) _ _ same (
                if-Keeps heap (not (r.error_status == 0)) _ _
                  (consume_all-Keeps key manager.registered heap v)
                  (deliver_all-Keeps key manager.registered r.var_binds heap v))))
    ]
