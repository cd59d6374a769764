-- ===== src/Manager/Counts.antt =====
-- How many callbacks there are: `SNMPManager` of src/Arduino_SNMP_Manager.cpp and `SNMPGet` of
-- src/SNMPGet.cpp write to callbacks in place.
use arduino_snmp_manager.Ber.Address.{IpAddress}
use arduino_snmp_manager.Ber.Complex.{Container, serialise, type_of}
use arduino_snmp_manager.Ber.Header.{buffer}
use arduino_snmp_manager.Ber.Tag.{get_response_pdu, same_type}
use arduino_snmp_manager.Common.{
  Bool, List, Option, Option-cases, [], false, get_elem?, if◌then◌else◌, inl, inr, leb, length,
  length-set, ltb, not, refl, true, ℕ, ◌==◌, ◌>>=◌, ◌^◌, ◌||◌, ◌∙◌, ◌∷◌, ◌≡◌,
}
use arduino_snmp_manager.Config.{snmp_packet_length}
use arduino_snmp_manager.Manager.{
  Manager, consume_all, consumed, deliver, deliver_all, deliver_to, is_exception, is_expected,
  parse_packet, receive_packet, route, update,
}
use arduino_snmp_manager.Registration.{Callback, Heap, callback_type, store_callback, write}
use arduino_snmp_manager.Request.{
  GetRequest, all_can_track, build, cancel_pending_requests, send_to, track_all,
}
use arduino_snmp_manager.Response.{VarBind, parse_from}
use arduino_snmp_manager.Tracking.{Key}

-- How many.
abbrev pub count : Heap → ℕ
count heap = length heap.callbacks

if-count :
    (b : Bool) (first second : Heap × Bool) (n : ℕ)
    → count first.0 ≡ n
    → count second.0 ≡ n
    → count (if b then first else second).0 ≡ n
if-count true first second n h k = h
if-count false first second n h k = k

count-update :
    (i : ℕ) (callback : Callback) (value : Container) (heap : Heap)
    → count (update i callback value heap) ≡ count heap
unfolding update
count-update i callback value heap =
    elim (Option-cases (write callback.destination value heap.cells)) [
      | inl e ↦ rw (e, update) refl
      | inr (cells, e) ↦ rw (e, update) (length-set heap.callbacks i _)
    ]

count-deliver_to :
    (key : Key) (i : ℕ) (callback : Callback) (value : Container) (heap : Heap)
    → count (deliver_to key i callback value heap).0 ≡ count heap
unfolding deliver_to
count-deliver_to key i callback value heap =
    let stored = length-set heap.callbacks i (consumed key callback) in
    if-count (is_exception (type_of value)) _ _ (count heap) stored (
      if-count (not (same_type (callback_type callback.destination) (type_of value))) _ _
        (count heap) stored
        (count-update i (consumed key callback) value
            (store_callback i (consumed key callback) heap)
          ∙ stored))

count-deliver :
    (key : Key) (registered : List ℕ) (b : VarBind) (heap : Heap)
    → count (deliver key registered b heap).0 ≡ count heap
unfolding deliver
count-deliver key registered b heap =
    elim (Option-cases (route key b.oid_text registered heap.callbacks)) [
      | inl e ↦ rw (e, deliver) refl
      | inr (i, e) ↦ elim (Option-cases (get_elem? heap.callbacks i)) [
        | inl f ↦ rw (e, f, deliver) refl
        | inr (callback, f) ↦ rw (e, f, deliver) (count-deliver_to key i callback b.value heap)
      ]
    ]

count-deliver_all :
    (key : Key) (registered : List ℕ) (binds : List VarBind) (heap : Heap)
    → count (deliver_all key registered binds heap).0 ≡ count heap
unfolding deliver_all
count-deliver_all key registered [] heap = refl
count-deliver_all key registered (b ∷ binds) heap =
    let first = count-deliver key registered b heap in
    if-count (deliver key registered b heap).1 _ _ (count heap)
      (count-deliver_all key registered binds (deliver key registered b heap).0 ∙ first) first

count-consume_all :
    (key : Key) (registered : List ℕ) (heap : Heap)
    → count (consume_all key registered heap) ≡ count heap
unfolding consume_all
count-consume_all key [] heap = refl
count-consume_all key (i ∷ rest) heap = elim (Option-cases (get_elem? heap.callbacks i)) [
  | inl e ↦ rw (e, consume_all) (count-consume_all key rest heap)
  | inr (callback, e) ↦
      rw (e, consume_all)
        (count-consume_all key rest (store_callback i _ heap) ∙ length-set heap.callbacks i _)
]

count-parse_packet :
    (manager : Manager) (peer : IpAddress) (packet : List ℕ) (heap : Heap)
    → count (parse_packet manager peer packet heap).0 ≡ count heap
unfolding parse_packet
count-parse_packet manager peer packet heap = elim (Option-cases (parse_from packet)) [
  | inl e ↦ rw (e, parse_packet) refl
  | inr (r, e) ↦
      let key : Key = record { id = r.request_id; udp = manager.udp; peer = peer } in
      rw (e, parse_packet)
        (if-count (not (same_type r.request_type get_response_pdu)) _ _ (count heap) refl (
          if-count (not (is_expected manager r)) _ _ (count heap) refl (
            if-count (not (r.error_status == 0)) _ _ (count heap)
              (count-consume_all key manager.registered heap)
              (count-deliver_all key manager.registered r.var_binds heap))))
]

pub count-receive_packet :
    (manager : Manager) (peer : IpAddress) (announced : ℕ) (packet : List ℕ) (heap : Heap)
    → count (receive_packet manager peer announced packet heap).0 ≡ count heap
unfolding receive_packet
count-receive_packet manager peer announced packet heap =
    if-count (announced == 0) _ _ (count heap) refl (
      if-count (leb (2 ^ 31) announced || ltb snmp_packet_length announced) _ _ (count heap) refl (
        if-count (not (length packet == announced)) _ _ (count heap) refl
          (count-parse_packet manager peer packet heap)))

count-track_all :
    (key : Key) (ids : List ℕ) (heap : Heap) → count (track_all key ids heap) ≡ count heap
unfolding track_all
count-track_all key [] heap = refl
count-track_all key (i ∷ rest) heap = elim (Option-cases (get_elem? heap.callbacks i)) [
  | inl e ↦ rw (e, track_all) (count-track_all key rest heap)
  | inr (callback, e) ↦
      rw (e, track_all)
        (count-track_all key rest (store_callback i _ heap) ∙ length-set heap.callbacks i _)
]

pub count-cancel :
    (ids : List ℕ) (heap : Heap) → count (cancel_pending_requests ids heap) ≡ count heap
unfolding cancel_pending_requests
count-cancel [] heap = refl
count-cancel (i ∷ rest) heap = elim (Option-cases (get_elem? heap.callbacks i)) [
  | inl e ↦ rw (e, cancel_pending_requests) (count-cancel rest heap)
  | inr (callback, e) ↦
      rw (e, cancel_pending_requests)
        (count-cancel rest (store_callback i _ heap) ∙ length-set heap.callbacks i _)
]

if-sent :
    (b : Bool) (first second : Heap × Option (List ℕ)) (n : ℕ)
    → count first.0 ≡ n
    → count second.0 ≡ n
    → count (if b then first else second).0 ≡ n
if-sent true first second n h k = h
if-sent false first second n h k = k

pub count-send_to :
    (transmits : IpAddress → ℕ → List ℕ → Bool) (ip : IpAddress) (request : GetRequest)
    (heap : Heap)
    → count (send_to transmits ip request heap).0 ≡ count heap
unfolding send_to
count-send_to transmits ip request heap = elim (Option-cases request.udp) [
  | inl e ↦ rw (e, send_to) refl
  | inr (udp, e) ↦
      let key : Key = record { id = request.request_id; udp = udp; peer = ip } in
      rw (e, send_to)
        (if-sent (not (all_can_track key request.callbacks heap.callbacks)) _ _ (count heap) refl
          (elim (Option-cases (
            build request heap.callbacks >>= λ packet.
            serialise packet buffer snmp_packet_length)) [
              | inl none_built ↦ rw none_built refl
              | inr (built, some_built) ↦ rw some_built (
                  if-sent (not (transmits ip request.port built.1)) _ _ (count heap) refl
                    (count-track_all key request.callbacks heap))
            ]))
]
