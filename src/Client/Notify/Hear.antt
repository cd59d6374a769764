-- ===== src/Client/Notify/Hear.antt =====
-- The branch of `SNMPClient::receive` of src/SNMPClient.cpp for what is no reply: `notify`, with a handler
-- that may act on the client, and the acknowledgement that it sends.
use arduino_snmp_manager.Ber.Address.{IpAddress}
use arduino_snmp_manager.Client.Notify.{notify}
use arduino_snmp_manager.Client.State.{Client, Environment}
use arduino_snmp_manager.Client.State.Invariant.{IsClient, Respects, if-IsClient}
use arduino_snmp_manager.Common.{
  List, Option-cases, [], if◌then◌else◌, inl, inr, none, not, some, true, ℕ, ◌++◌, ◌∷◌,
}

-- The handler may act on the client before it answers; what `notify` sends where it accepts is what
-- `notify` sends with a handler that accepts.
unfoldable pub hear : Environment → IpAddress → ℕ → List ℕ → Client → Client
unfolding notify
hear env peer port packet c = elim env.listener.handler [
  | none ↦ c
  | some handler ↦
      let (heard, acknowledged) = notify env.listener.community (λ event. true) peer port packet in
      elim heard [
        | none ↦ c
        | some event ↦
            (let (c', accepted) = handler event c in
              if not accepted then c' else (elim acknowledged [
                | none ↦ c'
                | some datagram ↦
                    if not (env.acknowledges peer port datagram)
                    then c'
                    else record c' { outbox = c'.outbox ++ ((peer, port, datagram) ∷ []) }
              ]))
      ]
]

pub hear-IsClient :
    (env : Environment) (peer : IpAddress) (port : ℕ) (packet : List ℕ) (c : Client)
    → Respects env
    → IsClient c
    → IsClient (hear env peer port packet c)
unfolding hear
hear-IsClient env peer port packet c good v = elim (Option-cases env.listener.handler) [
  | inl e ↦ rw (e, hear) v
  | inr (handler, e) ↦
      let heard = notify env.listener.community (λ event. true) peer port packet in
      elim (Option-cases heard.0) [
        | inl f ↦ rw (e, f, hear) v
        | inr (event, f) ↦
            let kept = good.notice_kept handler event c e v in
            rw (e, f, hear)
              (if-IsClient (not (handler event c).1) _ _ (λ rejected. kept)
                (λ accepted. elim (Option-cases heard.1) [
                  | inl g ↦ rw g kept
                  | inr (datagram, g) ↦ rw g (
                      if-IsClient (not (env.acknowledges peer port datagram)) _ _ (λ failed. kept)
                        (λ sent. record {
                          sized = kept.sized;
                          once = kept.once;
                          agree = kept.agree;
                          there = kept.there;
                          ids = kept.ids;
                          batched = kept.batched;
                          counter = kept.counter;
                        }))
                ]))
      ]
]
