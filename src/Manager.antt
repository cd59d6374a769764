-- ===== src/Manager.antt =====
-- `SNMPManager` of src/Arduino_SNMP_Manager.cpp: which callback a binding of a reply belongs to, and
-- what it writes. Reads of the clock, `Serial` output and failed allocation are left out.
pub mod Memory
pub mod Safety
pub mod Errors
pub mod Routing
pub mod Hex
pub mod Handlers
pub mod Registered
pub mod Counts
pub mod Steps
use arduino_snmp_manager.Ber.Address.{IpAddress, same_ip}
use arduino_snmp_manager.Ber.Complex.{Container, type_of}
use arduino_snmp_manager.Ber.Complex.RoundTrip.{received}
use arduino_snmp_manager.Ber.Oid.{oid_text}
use arduino_snmp_manager.Ber.Tag.{
  AsnType, endofmibview, get_response_pdu, nosuchinstance, nosuchobject, same_type,
}
use arduino_snmp_manager.Common.{
  Bool, List, Option, [], false, get_elem?, if◌then◌else◌, leb, length, ltb, none, not, same_bytes,
  set, some, true, ℕ, ◌%◌, ◌&&◌, ◌+◌, ◌==◌, ◌^◌, ◌||◌, ◌∷◌,
}
use arduino_snmp_manager.Config.{snmp_packet_length}
use arduino_snmp_manager.Registration.{Callback, Heap, callback_type, store_callback, write}
use arduino_snmp_manager.Response.{Response, VarBind, parse_from}
use arduino_snmp_manager.Tracking.{Key, consume, has_tracked_requests, matches}

-- `SNMPManager`: the community, the transport (its address), and the registered callbacks in order.
pub record Manager : Type 0 where
  pub community : List ℕ
  pub udp : ℕ
  pub registered : List ℕ

-- A registration for a name and a peer: `candidate->ip == responseIP`, and the same OID text.
abbrev pub is_named : IpAddress → List ℕ → Callback → Bool
is_named peer name callback =
    same_ip callback.ip peer
    && elim callback.name [ none ↦ false | some text ↦ same_bytes text name ]

-- The three variables of the loop over the registrations.
pub record Choice : Type 0 where
  pub callback : Option ℕ
  pub untracked : Option ℕ
  pub has_tracked : Bool

abbrev pub no_choice : Choice
no_choice = record { callback = none; untracked = none; has_tracked = false }

-- The first one stays.
abbrev pub or_else : Option ℕ → ℕ → Option ℕ
or_else none i = some i
or_else (some j) i = some j

-- One round: `key` is the reply's request ID, transport and peer.
unfoldable pub consider : Key → List ℕ → ℕ → Option Callback → Choice → Choice
consider key name i none choice = choice
consider key name i (some callback) choice =
    if not (is_named key.peer name callback)
    then choice
    else if not (has_tracked_requests callback.tracker)
    then record choice { untracked = or_else choice.untracked i }
    else record choice {
      has_tracked = true;
      callback =
          if matches key callback.tracker then or_else choice.callback i else choice.callback;
    }

unfoldable pub choose : Key → List ℕ → List Callback → List ℕ → Choice → Choice
unfolding consider
choose key name callbacks [] choice = choice
choose key name callbacks (i ∷ rest) choice =
    choose key name callbacks rest (consider key name i (get_elem? callbacks i) choice)

-- `if (!callback && !hasTracked) callback = untracked`.
abbrev pub chosen : Choice → Option ℕ
chosen choice = elim choice.callback [
  | some i ↦ some i
  | none ↦ if choice.has_tracked then none else choice.untracked
]

-- The callback that gets a binding.
unfoldable pub route : Key → List ℕ → List ℕ → List Callback → Option ℕ
unfolding choose
route key name registered callbacks = chosen (choose key name callbacks registered no_choice)

abbrev pub is_exception : AsnType → Bool
is_exception nosuchobject = true
is_exception nosuchinstance = true
is_exception endofmibview = true
is_exception type = false

-- The write, and the count of updates where something was written.
unfoldable pub update : ℕ → Callback → Container → Heap → Heap
unfolding write
update i callback value heap = elim (write callback.destination value heap.cells) [
  | none ↦ heap
  | some cells ↦ record {
    callbacks =
        set heap.callbacks i (record callback { updates = (callback.updates + 1) % 2 ^ 32 });
    cells = cells;
  }
]

-- `if (callback->hasTrackedRequests()) callback->consume(…)`.
abbrev pub consumed : Key → Callback → Callback
consumed key callback =
    if has_tracked_requests callback.tracker
    then record callback { tracker = (consume key callback.tracker).0 }
    else callback

-- A binding for a chosen callback; false where its type is not the registered one.
unfoldable pub deliver_to : Key → ℕ → Callback → Container → Heap → Heap × Bool
unfolding update
deliver_to key i callback value heap =
    let callback' = consumed key callback in
    let heap' = store_callback i callback' heap in
    if is_exception (type_of value)
    then (heap', true)
    else if not (same_type (callback_type callback.destination) (type_of value))
    then (heap', false)
    else (update i callback' value heap', true)

unfoldable pub deliver : Key → List ℕ → VarBind → Heap → Heap × Bool
unfolding route deliver_to
deliver key registered b heap = elim (route key b.oid_text registered heap.callbacks) [
  | none ↦ (heap, true)
  | some i ↦ elim (get_elem? heap.callbacks i) [
    | none ↦ (heap, true)
    | some callback ↦ deliver_to key i callback b.value heap
  ]
]

-- The `while` over the bindings.
unfoldable pub deliver_all : Key → List ℕ → List VarBind → Heap → Heap × Bool
unfolding deliver
deliver_all key registered [] heap = (heap, true)
deliver_all key registered (b ∷ binds) heap =
    let (heap', going) = deliver key registered b heap in
    let rest = deliver_all key registered binds heap' in if going then rest else (heap', false)

-- An error of the whole PDU ends the requests of every registration.
unfoldable pub consume_all : Key → List ℕ → Heap → Heap
consume_all key [] heap = heap
consume_all key (i ∷ rest) heap = consume_all key rest (elim (get_elem? heap.callbacks i) [
  | none ↦ heap
  | some callback ↦
      store_callback i (record callback { tracker = (consume key callback.tracker).0 }) heap
])

-- The reply is for this manager.
abbrev pub is_expected : Manager → Response → Bool
is_expected manager r =
    ((r.version == 1) || (r.version == 2)) && same_bytes manager.community r.community

-- `SNMPManager::parsePacket`, for the bytes in the packet buffer and the peer that sent them.
unfoldable pub parse_packet : Manager → IpAddress → List ℕ → Heap → Heap × Bool
unfolding deliver_all consume_all
parse_packet manager peer packet heap = elim (parse_from packet) [
  | none ↦ (heap, false)
  | some r ↦
      (let key : Key = record { id = r.request_id; udp = manager.udp; peer = peer } in
        if not (same_type r.request_type get_response_pdu)
        then (heap, true)
        else if not (is_expected manager r)
        then (heap, false)
        else if not (r.error_status == 0)
        then (consume_all key manager.registered heap, false)
        else deliver_all key manager.registered r.var_binds heap)
]

-- `SNMPManager::receivePacket`: the announced length as a 32-bit pattern, and the bytes that the
-- transport delivers. A datagram that is not read in full is dropped.
unfoldable pub receive_packet : Manager → IpAddress → ℕ → List ℕ → Heap → Heap × Bool
unfolding parse_packet
receive_packet manager peer announced received heap =
    if announced == 0
    then (heap, false)
    else if leb (2 ^ 31) announced || ltb snmp_packet_length announced
    then (heap, false)
    else if not (length received == announced)
    then (heap, false)
    else parse_packet manager peer received heap
