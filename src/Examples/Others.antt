-- ===== src/Examples/Others.antt =====
-- The theorems on notifications, discarded datagrams, ranges and texts at concrete inputs.
use arduino_snmp_manager.Examples.{peer, oid_13, ab, read_13, id_13, id_13-IsValid, dotted_13}
use arduino_snmp_manager.Ber.Complex.{
  complex_type, cons, depth_limit, integer_type, nil, oid_type, serialise,
}
use arduino_snmp_manager.Ber.Complex.Encode.{contents, encoding}
use arduino_snmp_manager.Ber.Complex.RoundTrip.{AreSendable, IsSendable, received, received_all}
use arduino_snmp_manager.Ber.Header.{buffer}
use arduino_snmp_manager.Ber.Integer.{integer_contents}
use arduino_snmp_manager.Ber.Octet.{octet_contents}
use arduino_snmp_manager.Ber.Oid.{base128, decimal, oid_contents}
use arduino_snmp_manager.Ber.Oid.RoundTrip.{IsValid, ObjectId, dotted}
use arduino_snmp_manager.Ber.Tag.{
  get_response_pdu, inform_request_pdu, integer, string, structure, timestamp,
}
use arduino_snmp_manager.Client.Address.{parse_address}
use arduino_snmp_manager.Client.Notify.{
  Notification, event_uptime, notify, nth_value, read_binding, result_of, snmp_trap_oid, sys_uptime,
}
use arduino_snmp_manager.Client.Notify.Inform.{notify-inform}
use arduino_snmp_manager.Client.Query.{add_range, add_range_all_or_nothing}
use arduino_snmp_manager.Client.Types.{Operation, SnmpResult, SnmpValue, is_ok, version2c}
use arduino_snmp_manager.Client.Value.{copy_value, integer32, set_bytes}
use arduino_snmp_manager.Common.{
  List, [], arith, false, length, none, refl, some, true, ℕ, ◌*◌, ◌++◌, ◌<◌, ◌>>=◌, ◌^◌, ◌∷◌, ◌≡◌,
}
use arduino_snmp_manager.Config.{snmp_packet_length}
use arduino_snmp_manager.Mib.{format_address, storage_bytes}
use arduino_snmp_manager.Mib.Addresses.{format_address-parse_address, storage_bytes_exact}
use arduino_snmp_manager.Response.{VarBind}
use arduino_snmp_manager.Response.RoundTrip.{binding_trees, message, received_text}
use arduino_snmp_manager.Udp.{Discarded, discard_datagram, discard_datagram_ends}

-- An INFORM request: the uptime, and the name of the event.
abbrev uptime_id : ObjectId
uptime_id = record { root = 1; second = 3; others = 6 ∷ 1 ∷ 2 ∷ 1 ∷ 1 ∷ 3 ∷ 0 ∷ [] }

abbrev trap_id : ObjectId
trap_id = record { root = 1; second = 3; others = 6 ∷ 1 ∷ 6 ∷ 3 ∷ 1 ∷ 1 ∷ 4 ∷ 1 ∷ 0 ∷ [] }

uptime_id-IsValid : IsValid uptime_id
unfolding decimal base128
uptime_id-IsValid = record {
  root_small = omega arith;
  second_small = λ h. omega arith;
  second_word = omega arith;
  words = (
    omega arith,
    (omega arith, (omega arith, (omega arith, (omega arith, (omega arith, (omega arith, tt)))))),
  );
  few = omega arith;
  fits = omega arith;
  packed = omega arith;
}

trap_id-IsValid : IsValid trap_id
unfolding decimal base128
trap_id-IsValid = record {
  root_small = omega arith;
  second_small = λ h. omega arith;
  second_word = omega arith;
  words = (
    omega arith,
    (
      omega arith,
      (
        omega arith,
        (
          omega arith,
          (omega arith, (omega arith, (omega arith, (omega arith, (omega arith, tt))))),
        ),
      ),
    ),
  );
  few = omega arith;
  fits = omega arith;
  packed = omega arith;
}

dotted_uptime : sys_uptime ≡ dotted uptime_id
unfolding decimal
dotted_uptime = refl

dotted_trap : snmp_trap_oid ≡ dotted trap_id
unfolding decimal
dotted_trap = refl

abbrev event_binds : List VarBind
event_binds =
    record { oid_text = sys_uptime; value = integer_type timestamp 99 }
    ∷ record { oid_text = snmp_trap_oid; value = oid_type oid_13 }
    ∷ []

abbrev inform_bytes : List ℕ
inform_bytes =
    0x30 ∷ 52 ∷ 2 ∷ 1 ∷ 1 ∷ 4 ∷ 2 ∷ b'a' ∷ b'b' ∷ 0xa6 ∷ 43 ∷ 2 ∷ 1 ∷ 7 ∷ 2 ∷ 1 ∷ 0 ∷ 2 ∷ 1 ∷ 0
    ∷ 0x30 ∷ 32 ∷ 0x30 ∷ 13 ∷ 6 ∷ 8 ∷ 43 ∷ 6 ∷ 1 ∷ 2 ∷ 1 ∷ 1 ∷ 3 ∷ 0 ∷ 0x43 ∷ 1 ∷ 99 ∷ 0x30 ∷ 15 ∷ 6
    ∷ 10 ∷ 43 ∷ 6 ∷ 1 ∷ 6 ∷ 3 ∷ 1 ∷ 1 ∷ 4 ∷ 1 ∷ 0 ∷ 6 ∷ 1 ∷ 43 ∷ []

inform-encoding : encoding (message 1 ab inform_request_pdu 7 0 0 event_binds) ≡ some inform_bytes
unfolding encoding contents integer_contents octet_contents oid_contents
inform-encoding = refl

inform-IsSendable : IsSendable (message 1 ab inform_request_pdu 7 0 0 event_binds) depth_limit
unfolding IsSendable
inform-IsSendable = (refl, ((refl, omega arith), ((refl, omega arith), ((refl, inform_pdu), tt))))
  where
    inform_pdu :
        AreSendable
          (cons (integer_type integer 7) (
            cons (integer_type integer 0) (
              cons
                (integer_type integer 0)
                (cons (complex_type structure (binding_trees event_binds)) nil))))
          30
    inform_pdu = (
      (refl, omega arith),
      (
        (refl, omega arith),
        (
          (refl, omega arith),
          (
            (
              refl,
              (
                (refl, ((uptime_id, uptime_id-IsValid, dotted_uptime), ((refl, omega arith), tt))),
                (
                  (
                    refl,
                    (
                      (trap_id, trap_id-IsValid, dotted_trap),
                      ((id_13, id_13-IsValid, dotted_13), tt),
                    ),
                  ),
                  tt,
                ),
              ),
            ),
            tt,
          ),
        ),
      ),
    )

event_99 : event_uptime (received_all (binding_trees event_binds)) ≡ some 99
unfolding event_uptime read_binding nth_value result_of copy_value set_bytes received
event_99 = refl

abbrev event_of_13 : Notification
event_of_13 = record {
  peer = peer;
  port = 5000;
  version = version2c;
  inform = true;
  request_id = 7;
  enterprise = none;
  agent_address = none;
  generic_trap = 0;
  specific_trap = 0;
  uptime = 99;
  bindings = received_all (binding_trees event_binds);
}

notify-inform_example :
    notify (received_text ab) (λ notification. notification.inform) peer 5000 (inform_bytes ++ [])
    ≡ (
      some event_of_13,
      serialise
            (received (message 1 ab get_response_pdu 7 0 0 event_binds))
            buffer
            snmp_packet_length
          >>= λ w. some w.1,
    )
notify-inform_example =
    notify-inform ab 7 99 5000 peer event_binds inform_bytes []
      (λ notification. notification.inform) (refl, (refl, tt)) inform-IsSendable inform-encoding
      event_99

-- Reads that deliver what is asked for.
discard_datagram_ends_example :
    Discarded
      (λ n chunk. some chunk)
      1500
      0
      3000
      (discard_datagram (λ n chunk. some chunk) 3000 1500)
discard_datagram_ends_example =
    discard_datagram_ends (λ n chunk. some chunk) 3000 1500 (omega arith)

abbrev wide_read : Operation
wide_read = record read_13 { capacity = 3 }

add_range_all_or_nothing_example :
    let (op', status) = add_range oid_13 1 2 integer wide_read in
    (is_ok status ≡ false → op' ≡ wide_read)
    × (is_ok status ≡ true
        → (more : List SnmpResult) × (op'
            ≡ record wide_read { results = wide_read.results ++ more })
          × (length more ≡ 2))
add_range_all_or_nothing_example = add_range_all_or_nothing oid_13 1 2 integer wide_read

abbrev address_value : SnmpValue
address_value = record { type = string; number = 0; bytes = 10 ∷ 0 ∷ 0 ∷ 1 ∷ [] }

abbrev address_shown : List ℕ
address_shown = b'1' ∷ b'0' ∷ b'.' ∷ b'0' ∷ b'.' ∷ b'0' ∷ b'.' ∷ b'1' ∷ []

shown : format_address (integer32 1) address_value 16 ≡ some address_shown
unfolding format_address decimal
shown = refl

format_address-parse_address_example : parse_address address_shown ≡ some peer
format_address-parse_address_example =
    format_address-parse_address (integer32 1) address_value 10 0 0 1 16 address_shown refl refl
      (omega arith, omega arith, omega arith, omega arith) shown

stored : storage_bytes (integer32 4096) (integer32 3000000) ≡ some 12288000000
unfolding storage_bytes
stored = refl

storage_bytes_exact_example : (12288000000 ≡ 4096 * 3000000) × (12288000000 < 2 ^ 62)
storage_bytes_exact_example =
    storage_bytes_exact (integer32 4096) (integer32 3000000) 12288000000 stored
