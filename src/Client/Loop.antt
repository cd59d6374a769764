-- ===== src/Client/Loop.antt =====
-- `SNMPClient::loop` of src/SNMPClient.cpp: consume a reply, then advance or time out each slot.
pub mod Invariant
use arduino_snmp_manager.Common.{
  ℕ, zero, suc, ◌+◌, ◌-◌, ◌/◌, ◌%◌, ◌^◌, not, ◌&&◌, Option, none, some, get_elem?, ltb, leb, ◌==◌,
  if◌then◌else◌,
}
use arduino_snmp_manager.Config.{snmp_max_pending_requests}
use arduino_snmp_manager.Ber.Tag.{
  get_request_pdu, get_next_request_pdu, set_request_pdu, get_bulk_request_pdu, same_type,
}
use arduino_snmp_manager.Client.Types.{timeout, Operation}
use arduino_snmp_manager.Client.State.{Client, Environment, store, finish, send}
use arduino_snmp_manager.Client.Receive.{Incoming, rewind, receive}

-- `uint32_t(now - then)`
abbrev pub elapsed : ℕ → ℕ → ℕ
elapsed now then' = (now + 2 ^ 32 - then') % 2 ^ 32

abbrev pub walk_deadline : ℕ
walk_deadline = 60000

-- The reply to a sent request is overdue: retry, fall back, shrink the batch or give up.
unfoldable pub overdue : Environment → ℕ → Operation → ℕ → Client → Client
unfolding send finish
overdue env i op now c =
    if not (same_type op.mode set_request_pdu) && ltb op.attempts op.device.retries
    then (let op' = record op { attempts = op.attempts + 1 } in send env i op' now (store i op' c))
    else if op.walking && same_type op.mode get_bulk_request_pdu
    then store i (rewind (record op { mode = get_next_request_pdu })) c
    else if same_type op.mode get_request_pdu && ltb 1 op.batch
    then store i (rewind (record op { batch_limit = op.batch / 2 })) c
    else finish env i timeout c

-- One slot's turn.
unfoldable pub advance : Environment → ℕ → ℕ → Operation → Client → Client
unfolding overdue
advance env now i op c =
    if op.walking && not (op.id == 0) && leb walk_deadline (elapsed now op.started_at)
    then finish env i timeout c
    else if not op.sent
    then (let op' = if op.id == 0 then record op { started_at = now } else op in
        send env i op' now (store i op' c))
    else if leb op.device.timeout_ms (elapsed now op.sent_at)
    then overdue env i op now c
    else c

-- The operation in a slot gets its turn; an empty slot is passed over.
unfoldable pub turn : Environment → ℕ → ℕ → Client → Client
unfolding advance
turn env now at c = elim (get_elem? c.slots at) [
  | none ↦ c
  | some none ↦ c
  | some (some i) ↦ elim (get_elem? c.operations i) [ none ↦ c | some op ↦ advance env now i op c ]
]

-- The `for` over the slots reads each slot when its turn comes.
unfoldable pub advance_slots : Environment → ℕ → ℕ → ℕ → Client → Client
unfolding turn
advance_slots env now zero at c = c
advance_slots env now (suc left) at c = advance_slots env now left (at + 1) (turn env now at c)

unfoldable pub receive_arrived : Environment → Option Incoming → Client → Client
unfolding receive
receive_arrived env none c = c
receive_arrived env (some datagram) c = receive env datagram c

-- `SNMPClient::loop(now)`, with the datagram that has arrived, if one has.
unfoldable pub loop : Environment → Option Incoming → ℕ → Client → Client
unfolding advance_slots receive_arrived
loop env arrived now c =
    if not c.begun
    then c
    else advance_slots env now snmp_max_pending_requests 0 (receive_arrived env arrived c)
