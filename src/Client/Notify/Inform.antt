-- ===== src/Client/Notify/Inform.antt =====
-- What src/SNMPClient.cpp does with an INFORM request that another manager or an agent sends.
use arduino_snmp_manager.Ber.Address.{IpAddress}
use arduino_snmp_manager.Ber.Complex.{depth_limit, serialise}
use arduino_snmp_manager.Ber.Complex.Encode.{encoding}
use arduino_snmp_manager.Ber.Complex.RoundTrip.{
  IsSendable, from_buffer-encoding, received, received_all,
}
use arduino_snmp_manager.Ber.Header.{buffer}
use arduino_snmp_manager.Ber.Octet.{OctetType}
use arduino_snmp_manager.Ber.Tag.{get_response_pdu, inform_request_pdu, structure}
use arduino_snmp_manager.Client.Notify.{
  Notification, are_bindings, event_fields, event_uptime, notify, notify_packet,
}
use arduino_snmp_manager.Client.Types.{version2c}
use arduino_snmp_manager.Common.{
  Bool, List, [], false, if◌then◌else◌, none, not, refl, same_bytes_refl, some, true, ℕ, ◌++◌,
  ◌>>=◌, ◌||◌, ◌∷◌, ◌≡◌,
}
use arduino_snmp_manager.Config.{snmp_packet_length}
use arduino_snmp_manager.Response.{VarBind}
use arduino_snmp_manager.Response.Laws.{AreAllowed}
use arduino_snmp_manager.Response.RoundTrip.{
  binding_trees, message, received_text, type_of-received,
}

are_bindings-binding_trees :
    (version2 : Bool) (binds : List VarBind)
    → AreAllowed version2 binds
    → are_bindings version2 (received_all (binding_trees binds)) ≡ true
unfolding received
are_bindings-binding_trees version2 [] h = refl
are_bindings-binding_trees version2 (b ∷ binds) h =
    rw (type_of-received b.value, h.0, are_bindings-binding_trees version2 binds h.1) refl

or_false : (b : Bool) → (b || false) ≡ b
or_false true = refl
or_false false = refl

-- An INFORM request with its tree, its bindings as they are received, and the uptime in its first
-- binding: the handler gets the ID and the bindings, and where it accepts, the acknowledgement is
-- the same tree with the type of a response.
pub notify-inform :
    (community : OctetType) (id uptime port : ℕ) (peer : IpAddress) (binds : List VarBind)
    (bytes rest : List ℕ) (handler : Notification → Bool)
    → AreAllowed true binds
    → IsSendable (message 1 community inform_request_pdu id 0 0 binds) depth_limit
    → encoding (message 1 community inform_request_pdu id 0 0 binds) ≡ some bytes
    → event_uptime (received_all (binding_trees binds)) ≡ some uptime
    → let event : Notification = record {
      peer = peer;
      port = port;
      version = version2c;
      inform = true;
      request_id = id;
      enterprise = none;
      agent_address = none;
      generic_trap = 0;
      specific_trap = 0;
      uptime = uptime;
      bindings = received_all (binding_trees binds);
    } in
      notify (received_text community) handler peer port (bytes ++ rest) ≡ (
        some event,
        if not (handler event)
            then none
            else (serialise
                  (received (message 1 community get_response_pdu id 0 0 binds))
                  buffer
                  snmp_packet_length
                >>= λ w. some w.1),
      )
unfolding notify notify_packet event_fields received
notify-inform community id uptime port peer binds bytes rest handler allowed sendable e event =
    rw
      (
        from_buffer-encoding structure _ bytes rest sendable e,
        same_bytes_refl (received_text community),
        are_bindings-binding_trees true binds allowed,
        event,
        notify,
      )
      (rw (or_false (not (handler _))) refl)
