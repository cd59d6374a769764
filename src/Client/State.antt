-- ===== src/Client/State.antt =====
-- The client's state, and the operations of src/SNMPClient.cpp that admit, send and finish work. An
-- operation is named by its place in `operations`; the application's code enters as an argument.
pub mod Invariant
pub mod Admission
pub mod Starting
pub mod Sending
use arduino_snmp_manager.Ber.Address.{IpAddress}
use arduino_snmp_manager.Ber.Tag.{get_bulk_request_pdu, same_type, set_request_pdu}
use arduino_snmp_manager.Client.Notify.{Listener, Notification}
use arduino_snmp_manager.Client.Operation.{admitted, finished}
use arduino_snmp_manager.Client.Packet.{append_batch, append_binding, assemble, reserve_of}
use arduino_snmp_manager.Client.Types.{
  Operation, SnmpResult, Status, busy, cancelled, capacity_exceeded, invalid_configuration, is_ok,
  not_started, op_pending, success, transport_error, version_number,
}
use arduino_snmp_manager.Common.{
  Bool, List, Option, [], drop, false, get_elem?, if◌then◌else◌, leb, length, ltb, none, not,
  replicate, set, some, true, ℕ, ◌&&◌, ◌++◌, ◌+◌, ◌-◌, ◌==◌, ◌>>=◌, ◌^◌, ◌||◌, ◌∷◌,
}
use arduino_snmp_manager.Config.{snmp_max_pending_requests, snmp_packet_length}

-- `SNMPClient`, the operations that it schedules, and the datagrams that it has sent.
pub record Client : Type 0 where
  pub begun : Bool
  pub slots : List (Option ℕ)
  pub next_id : ℕ
  pub operations : List Operation
  pub outbox : List (IpAddress × ℕ × List ℕ)

-- The application's handler of notifications: it may act on the client, and it accepts or rejects.
abbrev pub NotificationHandler : Type 0
NotificationHandler = Notification → Client → Client × Bool

-- What the client calls: the transport, which may fail to send a datagram at a time, or an
-- acknowledgement; the application's completion handler, streaming callback and handler of
-- notifications, which may act on the client, the last with the community that `notifications` set.
pub record Environment : Type 0 where
  pub transmits : ℕ → IpAddress → ℕ → List ℕ → Bool
  pub on_complete : ℕ → Client → Client
  pub on_value : ℕ → SnmpResult → Client → Client × Bool
  pub acknowledges : IpAddress → ℕ → List ℕ → Bool
  pub listener : Listener NotificationHandler

-- A new client: `SNMPOperation *pending_[SNMP_MAX_PENDING_REQUESTS]`, all null.
abbrev pub new_client : List Operation → Client
new_client operations = record {
  begun = false;
  slots = replicate snmp_max_pending_requests none;
  next_id = 0;
  operations = operations;
  outbox = [];
}

abbrev pub store : ℕ → Operation → Client → Client
store i op c = record c { operations = set c.operations i op }

abbrev pub holds_op : ℕ → Option ℕ → Bool
holds_op i none = false
holds_op i (some j) = j == i

-- `remove`: clear every slot that holds the operation.
unfoldable pub remove : ℕ → List (Option ℕ) → List (Option ℕ)
remove i [] = []
remove i (slot ∷ rest) = (if holds_op i slot then none else slot) ∷ remove i rest

-- `SNMPOperation::finish`: settle the cells, release the slot, then tell the application.
unfoldable pub finish : Environment → ℕ → Status → Client → Client
unfolding finished remove
finish env i status c = elim (get_elem? c.operations i) [
  | none ↦ c
  | some op ↦
      env.on_complete i (record c {
        slots = remove i c.slots;
        operations = set c.operations i (finished status op);
      })
]

-- `SNMPOperation::cancel`.
unfoldable pub cancel : Environment → ℕ → Client → Client
unfolding finish
cancel env i c = elim (get_elem? c.operations i) [
  | none ↦ c
  | some op ↦ if op_pending op then finish env i cancelled c else c
]

-- `SNMPClient::begin`, by whether the socket opens.
unfoldable pub begin : Bool → Client → Client × Status
begin opens c =
    if c.begun
    then (c, success)
    else (record c { begun = opens }, if opens then success else transport_error)

-- The configuration that `schedule` refuses.
unfoldable pub misconfigured : Operation → Bool
misconfigured op =
    (not op.walking && (length op.results == 0))
    || (op.walking && (length op.root == 0))
    || (op.device.port == 0)
    || (op.device.timeout_ms == 0)
    || ltb (2 ^ 31 - 1) op.device.timeout_ms

-- The first free slot takes the operation.
unfoldable pub reserve : ℕ → List (Option ℕ) → Option (List (Option ℕ))
reserve i [] = none
reserve i (none ∷ rest) = some (some i ∷ rest)
reserve i (some j ∷ rest) = reserve i rest >>= λ rest'. some (some j ∷ rest')

-- `SNMPClient::schedule`.
unfoldable pub schedule : ℕ → Operation → Client → Client × Status
schedule i op c =
    if op_pending op
    then (c, busy)
    else if not c.begun
    then (c, not_started)
    else if not (is_ok op.device.status)
    then (c, op.device.status)
    else if misconfigured op
    then (c, invalid_configuration)
    else (elim (reserve i c.slots) [
      | none ↦ (c, capacity_exceeded)
      | some slots ↦
          (record c { slots = slots; operations = set c.operations i (admitted op) }, success)
    ])

-- The bindings of the next request: how many, and their bytes.
unfoldable pub bindings_of : Operation → Option (ℕ × List ℕ)
unfolding append_batch append_binding
bindings_of op =
    let room = snmp_packet_length - reserve_of op.device.community in
    if op.walking
    then (append_binding room op.cursor none [] >>= λ buf. some (1, buf))
    else some (
        append_batch room (same_type op.mode set_request_pdu) op.batch_limit
          (drop op.offset op.results) 0 [])

-- What stops a request before an ID is given: nothing fits, or a write would be split.
abbrev pub unsendable : Operation → ℕ → Bool
unsendable op batch =
    (same_type op.mode set_request_pdu && not (batch == length op.results)) || (batch == 0)

abbrev pub repetitions_of : Operation → ℕ
repetitions_of op = if op.walking && same_type op.mode get_bulk_request_pdu then 4 else 0

-- The end of `send`, for an operation with its ID and batch: build, transmit, and mark it sent.
unfoldable pub transmit : Environment → ℕ → Operation → List ℕ → ℕ → Client → Client
unfolding finish assemble
transmit env i op bindings now c =
    elim (assemble op.mode op.id (repetitions_of op) (version_number op.device.version)
      op.device.community bindings) [
        | none ↦ finish env i capacity_exceeded (store i op c)
        | some datagram ↦
            if not (env.transmits now op.device.address op.device.port datagram)
            then finish env i transport_error (store i op c)
            else record (store i (record op { sent = true; sent_at = now }) c) {
              outbox = c.outbox ++ ((op.device.address, op.device.port, datagram) ∷ []);
            }
      ]

-- `SNMPClient::send`. A retry keeps its ID; a new request takes the next one, below 2 ^ 31.
unfoldable pub send : Environment → ℕ → Operation → ℕ → Client → Client
unfolding bindings_of transmit
send env i op now c =
    let op0 = record op { batch = 0 } in
    if leb snmp_packet_length (reserve_of op.device.community)
    then finish env i capacity_exceeded (store i op0 c)
    else (elim (bindings_of op) [
      | none ↦ finish env i capacity_exceeded (store i op0 c)
      | some (batch, bindings) ↦
          (let op1 = record op { batch = batch } in
            if unsendable op batch
            then finish env i capacity_exceeded (store i op1 c)
            else if op.sent
            then transmit env i op1 bindings now c
            else if c.next_id == 2 ^ 31 - 1
            then finish env i capacity_exceeded (store i op1 c)
            else transmit env i (record op1 { id = c.next_id + 1 }) bindings now
                (record c { next_id = c.next_id + 1 }))
    ])
