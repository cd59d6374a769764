-- ===== src/Client/Loop/Invariant.antt =====
-- `SNMPClient::loop` of src/SNMPClient.cpp and the turns of its slots keep the slots and the operations
-- in agreement.
use arduino_snmp_manager.Common.{
  Option, Bool, true, false, if◌then◌else◌, ℕ, zero, suc, ◌+◌, ◌/◌, ◌≤◌, ◌<◌, ◌≡◌, refl, inl, inr,
  not, ◌&&◌, none, some, arith, get_elem?, get_elem?-set_same, leb, ltb, ◌==◌, Bool-cases,
  Option-cases,
}
use arduino_snmp_manager.Config.{snmp_max_pending_requests}
use arduino_snmp_manager.Ber.Tag.{
  set_request_pdu, get_next_request_pdu, get_bulk_request_pdu, get_request_pdu, same_type,
}
use arduino_snmp_manager.Client.Types.{Operation, op_pending, timeout}
use arduino_snmp_manager.Client.State.{Client, Environment, store, send}
use arduino_snmp_manager.Client.State.Invariant.{
  IsClient, Respects, store-IsClient, finish-IsClient, if-IsClient,
}
use arduino_snmp_manager.Client.State.Sending.{send-IsClient}
use arduino_snmp_manager.Client.Receive.{Incoming, rewind, receive}
use arduino_snmp_manager.Client.Receive.Invariant.{receive-IsClient}
use arduino_snmp_manager.Client.Loop.{
  loop, receive_arrived, overdue, advance, turn, advance_slots, elapsed, walk_deadline,
}

abbrev dated : ℕ → Operation → Operation
dated now op = if op.id == 0 then record op { started_at = now } else op

dated_lem :
    (now : ℕ) (op : Operation)
    → (op_pending (dated now op) ≡ op_pending op)
      × ((dated now op).id ≡ op.id)
      × ((dated now op).sent ≡ op.sent)
dated_lem now op = elim (Bool-cases (op.id == 0)) [
  | inl z ↦ rw z (refl, refl, refl)
  | inr z ↦ rw z (refl, refl, refl)
]

module _ (env : Environment) (good : Respects env) where
  sent_again-IsClient :
      (i : ℕ) (op op' : Operation) (now : ℕ) (c : Client)
      → IsClient c
      → get_elem? c.operations i ≡ some op
      → op_pending op' ≡ op_pending op
      → op'.id ≡ op.id
      → (op_pending op' ≡ true → op'.sent ≡ true → 0 < op'.batch)
      → IsClient (send env i op' now (store i op' c))
  sent_again-IsClient i op op' now c v found same kept ready =
      send-IsClient env i op' op' now (store i op' c) good
        (store-IsClient i op op' c v found same
          (known op'.id op.id c.next_id kept (v.ids i op found)) ready)
        (get_elem?-set_same c.operations i op' op found) refl
        (known op'.id op.id c.next_id kept (v.ids i op found))
    where
      known : (a b n : ℕ) → a ≡ b → b ≤ n → a ≤ n
      known a b n e h = omega arith

  overdue-IsClient :
      (i : ℕ) (op : Operation) (now : ℕ) (c : Client)
      → IsClient c
      → get_elem? c.operations i ≡ some op
      → IsClient (overdue env i op now c)
  unfolding overdue
  overdue-IsClient i op now c v found =
      if-IsClient (not (same_type op.mode set_request_pdu) && ltb op.attempts op.device.retries) _ _
        (λ retry.
          sent_again-IsClient i op (record op { attempts = op.attempts + 1 }) now c v found refl
            refl (v.batched i op found))
        (λ r.
          if-IsClient (op.walking && same_type op.mode get_bulk_request_pdu) _ _
            (λ fallback. stored (rewind (record op { mode = get_next_request_pdu })) refl refl refl)
            (λ r.
              if-IsClient (same_type op.mode get_request_pdu && ltb 1 op.batch) _ _
                (λ shrink.
                  stored (rewind (record op { batch_limit = op.batch / 2 })) refl refl refl)
                (λ r. finish-IsClient env i timeout c good v refl)))
    where
      stored :
          (op' : Operation)
          → op_pending op' ≡ op_pending op
          → op'.id ≡ op.id
          → op'.sent ≡ false
          → IsClient (store i op' c)
      stored op' same kept unsent =
          store-IsClient i op op' c v found same (omega (arith, kept, v.ids i op found)) (λ p s. cc)

  advance-IsClient :
      (now i : ℕ) (op : Operation) (c : Client)
      → IsClient c
      → get_elem? c.operations i ≡ some op
      → IsClient (advance env now i op c)
  unfolding advance
  advance-IsClient now i op c v found =
      let waiting =
        if-IsClient (leb op.device.timeout_ms (elapsed now op.sent_at)) _ _
          (λ late. overdue-IsClient i op now c v found) (λ early. v) in
      if-IsClient (op.walking && not (op.id == 0) && leb walk_deadline (elapsed now op.started_at))
        _ _ (λ deadline. finish-IsClient env i timeout c good v refl)
        (λ r.
          if-IsClient (not op.sent) _ _
            (λ unsent.
              sent_again-IsClient i op (dated now op) now c v found (dated_lem now op).0
                (dated_lem now op).1
                (λ p s. never op.sent (dated now op).sent (dated_lem now op).2 unsent s))
            (λ r. waiting))
    where
      never : {A : Type 0} → (a b : Bool) → b ≡ a → not a ≡ true → b ≡ true → A
      never a b e u s = absurd (ground (arith, e, u, s))

  turn-IsClient : (now at : ℕ) (c : Client) → IsClient c → IsClient (turn env now at c)
  unfolding turn
  turn-IsClient now at c v = elim (Option-cases (get_elem? c.slots at)) [
    | inl e ↦ rw (e, turn) v
    | inr (none, e) ↦ rw (e, turn) v
    | inr (some i, e) ↦ elim (Option-cases (get_elem? c.operations i)) [
      | inl f ↦ rw (e, f, turn) v
      | inr (op, f) ↦ rw (e, f, turn) (advance-IsClient now i op c v f)
    ]
  ]

  -- A pass over the slots, with its retries, fallbacks and timeouts, keeps the slots and the operations
  -- in agreement and the IDs at most the counter, where the application's handlers keep them so.
  pub advance_slots-IsClient :
      (now left at : ℕ) (c : Client) → IsClient c → IsClient (advance_slots env now left at c)
  unfolding advance_slots
  advance_slots-IsClient now zero at c v = v
  advance_slots-IsClient now (suc left) at c v =
      advance_slots-IsClient now left (at + 1) (turn env now at c) (turn-IsClient now at c v)

-- One call of `loop`, with or without an arrived datagram and whatever it holds, keeps the slots and
-- the operations in agreement, where the application's handlers keep them so: the array keeps its
-- size, an operation is in one slot exactly while it is pending, a pending operation that was sent
-- asked for something, and no ID exceeds the counter, which fits an `int32_t`.
pub loop-IsClient :
    (env : Environment) (arrived : Option Incoming) (now : ℕ) (c : Client)
    → Respects env
    → IsClient c
    → IsClient (loop env arrived now c)
unfolding loop receive_arrived
loop-IsClient env none now c good v =
    if-IsClient (not c.begun) _ _ (λ idle. v)
      (λ begun. advance_slots-IsClient env good now snmp_max_pending_requests 0 c v)
loop-IsClient env (some datagram) now c good v =
    if-IsClient (not c.begun) _ _ (λ idle. v)
      (λ begun.
        advance_slots-IsClient env good now snmp_max_pending_requests 0 (receive env datagram c)
          (receive-IsClient env datagram c good v))
