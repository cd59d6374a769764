-- ===== src/Client/State/Sending.antt =====
-- `SNMPClient::send` of src/SNMPClient.cpp keeps the slots and the operations in agreement.
use arduino_snmp_manager.Common.{
  ℕ, ◌+◌, ◌-◌, ◌^◌, ◌≤◌, ◌<◌, ◌≡◌, refl, inl, inr, true, false, some, List, arith, get_elem?, leb,
  ◌==◌, Bool-cases, Option-cases,
}
use arduino_snmp_manager.Config.{snmp_packet_length}
use arduino_snmp_manager.Ber.Address.{IpAddress}
use arduino_snmp_manager.Client.Types.{
  capacity_exceeded, transport_error, Operation, op_pending, version_number,
}
use arduino_snmp_manager.Client.Packet.{assemble, reserve_of}
use arduino_snmp_manager.Client.State.{
  Client, Environment, bindings_of, unsendable, repetitions_of, transmit, send,
}
use arduino_snmp_manager.Client.State.Invariant.{
  IsClient, Respects, store-IsClient, stopped-IsClient,
}

outbox-IsClient :
    (c : Client) (sent : List (IpAddress × ℕ × List ℕ))
    → IsClient c
    → IsClient (record c { outbox = sent })
outbox-IsClient c sent v = record {
  sized = v.sized;
  once = v.once;
  agree = v.agree;
  there = v.there;
  ids = v.ids;
  batched = v.batched;
  counter = v.counter;
}

-- The counter takes its next value, which still fits an `int32_t`.
numbered-IsClient :
    (c : Client)
    → IsClient c
    → (c.next_id == 2 ^ 31 - 1) ≡ false
    → IsClient (record c { next_id = c.next_id + 1 })
numbered-IsClient c v below = record {
  sized = v.sized;
  once = v.once;
  agree = v.agree;
  there = v.there;
  ids = λ i op e. omega (arith, v.ids i op e);
  batched = v.batched;
  counter = fits c.next_id v.counter below;
}
  where
    fits : (n : ℕ) → n ≤ 2 ^ 31 - 1 → (n == 2 ^ 31 - 1) ≡ false → n + 1 ≤ 2 ^ 31 - 1
    fits n h e = ground arith

sendable : (op : Operation) (batch : ℕ) → unsendable op batch ≡ false → 0 < batch
sendable op batch h = ground arith

transmit-IsClient :
    (env : Environment) (i : ℕ) (op op' : Operation) (bindings : List ℕ) (now : ℕ) (c : Client)
    → Respects env
    → IsClient c
    → get_elem? c.operations i ≡ some op
    → op_pending op' ≡ op_pending op
    → op'.id ≤ c.next_id
    → 0 < op'.batch
    → IsClient (transmit env i op' bindings now c)
unfolding transmit
transmit-IsClient env i op op' bindings now c good v found same known asked =
    let built =
      assemble op'.mode op'.id (repetitions_of op') (version_number op'.device.version)
        op'.device.community bindings in
    elim (Option-cases built) [
      | inl e ↦
          rw (e, transmit)
            (stopped-IsClient env i capacity_exceeded op op' c good v found known refl)
      | inr (datagram, e) ↦
          rw (e, transmit)
            (elim (Bool-cases (env.transmits now op'.device.address op'.device.port datagram)) [
              | inl t ↦
                  rw t (
                    outbox-IsClient _ _ (store-IsClient i op _ c v found same known (λ p s. asked)))
              | inr t ↦
                  rw t (stopped-IsClient env i transport_error op op' c good v found known refl)
            ])
    ]

-- Sending an operation of the client, whatever stops it, keeps the slots and the operations in
-- agreement and the IDs at most the counter, where the completion handler keeps them so.
pub send-IsClient :
    (env : Environment) (i : ℕ) (op op' : Operation) (now : ℕ) (c : Client)
    → Respects env
    → IsClient c
    → get_elem? c.operations i ≡ some op
    → op_pending op' ≡ op_pending op
    → op'.id ≤ c.next_id
    → IsClient (send env i op' now c)
unfolding send
send-IsClient env i op op' now c good v found same known =
    elim (Bool-cases (leb snmp_packet_length (reserve_of op'.device.community))) [
      | inl long ↦ rw long (stopped-IsClient env i capacity_exceeded op _ c good v found known refl)
      | inr short ↦ rw short (elim (Option-cases (bindings_of op')) [
        | inl e ↦ rw e (stopped-IsClient env i capacity_exceeded op _ c good v found known refl)
        | inr ((batch, bindings), e) ↦ rw e (elim (Bool-cases (unsendable op' batch)) [
          | inl u ↦ rw u (stopped-IsClient env i capacity_exceeded op _ c good v found known refl)
          | inr u ↦ rw u (elim (Bool-cases op'.sent) [
            | inl s ↦ rw s (
                transmit-IsClient env i op (record op' { batch = batch; sent = true }) bindings now
                  c good v found same known (sendable op' batch u))
            | inr s ↦ rw s (elim (Bool-cases (c.next_id == 2 ^ 31 - 1)) [
              | inl z ↦
                  rw z (stopped-IsClient env i capacity_exceeded op _ c good v found known refl)
              | inr z ↦ rw z (
                  transmit-IsClient env i op
                    (record op' { batch = batch; id = c.next_id + 1; sent = false }) bindings now _
                    good (numbered-IsClient c v z) found same (next c.next_id)
                    (sendable op' batch u))
            ])
          ])
        ])
      ])
    ]
  where
    next : (n : ℕ) → n + 1 ≤ n + 1
    next n = omega arith
