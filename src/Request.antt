-- ===== src/Request.antt =====
-- `SNMPGet` of src/SNMPGet.h and src/SNMPGet.cpp: the older interface's request, which shares its
-- callbacks with a manager.
pub mod Message
pub mod Sending
pub mod Tracked
use arduino_snmp_manager.Ber.Address.{IpAddress}
use arduino_snmp_manager.Ber.Complex.{
  Container, Values, add_value_to_list, complex_type, integer_type, nil, null_type, octet_type,
  oid_type, serialise,
}
use arduino_snmp_manager.Ber.Header.{buffer}
use arduino_snmp_manager.Ber.Octet.{octet_of_text}
use arduino_snmp_manager.Ber.Oid.{oid_of_text}
use arduino_snmp_manager.Ber.Tag.{get_request_pdu, integer, structure}
use arduino_snmp_manager.Client.Types.{SnmpVersion, version_number}
use arduino_snmp_manager.Common.{
  Bool, List, Option, [], false, get_elem?, if◌then◌else◌, none, not, some, true, ℕ, ◌&&◌, ◌++◌,
  ◌>>=◌, ◌∷◌,
}
use arduino_snmp_manager.Config.{snmp_packet_length}
use arduino_snmp_manager.Registration.{Callback, Heap, store_callback}
use arduino_snmp_manager.Tracking.{Key, can_track, clear_pending_requests, track}

-- `SNMPGet`: `none` is a null pointer; the request ID is a 32-bit pattern; the callbacks are listed in
-- order.
pub record GetRequest : Type 0 where
  pub community : Option (List ℕ)
  pub version : SnmpVersion
  pub port : ℕ
  pub request_id : ℕ
  pub udp : Option ℕ
  pub callbacks : List ℕ

-- `setRequestID`, `setPort` and `setUDP`.
abbrev pub set_request_id : ℕ → GetRequest → GetRequest
set_request_id id request = record request { request_id = id }

abbrev pub set_port : ℕ → GetRequest → GetRequest
set_port port request = record request { port = port }

abbrev pub set_udp : Option ℕ → GetRequest → GetRequest
set_udp udp request = record request { udp = udp }

-- `addOIDPointer`: behind the others; a null pointer is refused.
unfoldable pub add_oid_pointer : Option ℕ → GetRequest → GetRequest × Bool
add_oid_pointer none request = (request, false)
add_oid_pointer (some i) request =
    (record request { callbacks = request.callbacks ++ (i ∷ []) }, true)

-- `clearOIDList`.
abbrev pub clear_oid_list : GetRequest → GetRequest
clear_oid_list request = record request { callbacks = [] }

-- The text of a callback's OID. The handlers of the manager always set one; `build` has no answer
-- here for a callback without.
abbrev pub name_of : ℕ → List Callback → Option (List ℕ)
name_of i callbacks = get_elem? callbacks i >>= λ callback. callback.name

-- The loop of `build` over the callbacks, on the list that `bindings` holds so far.
unfoldable pub add_bindings : List ℕ → List Callback → Values → Option Values
unfolding add_value_to_list oid_of_text
add_bindings [] callbacks bindings = some bindings
add_bindings (i ∷ rest) callbacks bindings = do
  name ← name_of i callbacks
  add_bindings rest callbacks (
      add_value_to_list bindings (
        complex_type structure
          (add_value_to_list (add_value_to_list nil (oid_type (oid_of_text name))) null_type)))

-- `SNMPGet::build`: the packet, if there is a community.
unfoldable pub build : GetRequest → List Callback → Option Container
unfolding add_bindings
build request callbacks = do
  text ← request.community
  bindings ← add_bindings request.callbacks callbacks nil
  let root =
      add_value_to_list
        (add_value_to_list nil (integer_type integer (version_number request.version)))
        (octet_type (octet_of_text text))
  let pdu =
      add_value_to_list
        (add_value_to_list (add_value_to_list nil (integer_type integer request.request_id))
          (integer_type integer 0))
        (integer_type integer 0)
  some (
      complex_type structure (
        add_value_to_list root
          (complex_type get_request_pdu (add_value_to_list pdu (complex_type structure bindings)))))

-- The first loop of `sendTo`: every callback can track the request.
unfoldable pub all_can_track : Key → List ℕ → List Callback → Bool
all_can_track key [] callbacks = true
all_can_track key (i ∷ rest) callbacks =
    elim (get_elem? callbacks i) [ none ↦ true | some callback ↦ can_track key callback.tracker ]
    && all_can_track key rest callbacks

-- The last loop of `sendTo`.
unfoldable pub track_all : Key → List ℕ → Heap → Heap
track_all key [] heap = heap
track_all key (i ∷ rest) heap = track_all key rest (elim (get_elem? heap.callbacks i) [
  | none ↦ heap
  | some callback ↦ store_callback i (record callback { tracker = track key callback.tracker }) heap
])

-- `SNMPGet::sendTo`: the callbacks afterwards, and the datagram where true is returned. `transmits`
-- says whether the transport takes a datagram for an address and a port.
unfoldable pub send_to :
    (IpAddress → ℕ → List ℕ → Bool) → IpAddress → GetRequest → Heap → Heap × Option (List ℕ)
unfolding all_can_track build track_all
send_to transmits ip request heap = elim request.udp [
  | none ↦ (heap, none)
  | some udp ↦
      (let key : Key = record { id = request.request_id; udp = udp; peer = ip } in
        if not (all_can_track key request.callbacks heap.callbacks)
        then (heap, none)
        else (elim (build request heap.callbacks >>= λ packet.
            serialise packet buffer snmp_packet_length) [
              | none ↦ (heap, none)
              | some (size, datagram) ↦
                  if not (transmits ip request.port datagram)
                  then (heap, none)
                  else (track_all key request.callbacks heap, some datagram)
            ]))
]

-- `cancelPendingRequests`.
unfoldable pub cancel_pending_requests : List ℕ → Heap → Heap
cancel_pending_requests [] heap = heap
cancel_pending_requests (i ∷ rest) heap =
    cancel_pending_requests rest (elim (get_elem? heap.callbacks i) [
      | none ↦ heap
      | some callback ↦
          store_callback i (record callback { tracker = clear_pending_requests callback.tracker })
            heap
    ])
