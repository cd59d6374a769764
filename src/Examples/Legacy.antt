-- ===== src/Examples/Legacy.antt =====
-- The theorems on the registrations, the manager and its requests at concrete inputs.
use arduino_snmp_manager.Examples.{peer, oid_13, ab, answered, answered_bytes, replied-IsSendable}
use arduino_snmp_manager.Ber.Address.{null_serialise, same_ip}
use arduino_snmp_manager.Ber.Complex.{add_value_to_list, serialise}
use arduino_snmp_manager.Ber.Complex.Encode.{contents, encoding}
use arduino_snmp_manager.Ber.Integer.{integer_contents, integer_serialise}
use arduino_snmp_manager.Ber.Octet.{octet_contents, octet_of_text, octet_serialise}
use arduino_snmp_manager.Ber.Oid.{oid_contents, oid_of_text, oid_serialise}
use arduino_snmp_manager.Ber.Tag.{get_request_pdu, get_response_pdu, same_type}
use arduino_snmp_manager.Client.Types.{version2c}
use arduino_snmp_manager.Common.{
  List, Option, [], arith, false, get_elem?, if◌then◌else◌, le→not_ltb, ltb, lt→ltb, none, refl,
  same_bytes, some, subst, suc, sym, true, zero, ℕ, ◌%◌, ◌&&◌, ◌++◌, ◌/◌, ◌>>=◌, ◌∷◌, ◌≡◌,
}
use arduino_snmp_manager.Manager.{Manager, parse_packet, route}
use arduino_snmp_manager.Manager.Errors.{expects_at, parse_packet_refused}
use arduino_snmp_manager.Manager.Handlers.{find_callback, new_callback, register}
use arduino_snmp_manager.Manager.Hex.{
  PrintsHex, parse_hex, parse_hex-print_packet, print_packet, upper_digit,
}
use arduino_snmp_manager.Manager.Memory.{HasRoom, IsRoomy, shapes}
use arduino_snmp_manager.Manager.Registered.{IsManager, or_new, register_lem}
use arduino_snmp_manager.Manager.Routing.{route-route_by_tests, route_by_tests}
use arduino_snmp_manager.Manager.Safety.{Keeps, parse_packet-Keeps}
use arduino_snmp_manager.Manager.Steps.{done, further, reaches-IsManager, registers}
use arduino_snmp_manager.Registration.{
  Callback, Heap, array, gauge32_to, integer_to, is_listed, word,
}
use arduino_snmp_manager.Request.{
  GetRequest, add_bindings, all_can_track, build, send_to, track_all,
}
use arduino_snmp_manager.Request.Message.{asked_all, build-message}
use arduino_snmp_manager.Request.Sending.{send_to_refused}
use arduino_snmp_manager.Request.Tracked.{Expects, send_to-Expects}
use arduino_snmp_manager.Response.{parse_from}
use arduino_snmp_manager.Response.RoundTrip.{
  message, parse_from-message, received_binds, received_text,
}
use arduino_snmp_manager.Tracking.{Key, can_track, fresh, track}
use mathlib.Core.Option.{some-injective}

-- One registration for 1.3 at the peer, with a word as its destination, and a buffer.
abbrev watched : Callback
watched = new_callback (integer_to 0) peer oid_13

abbrev heap_13 : Heap
heap_13 = record { callbacks = watched ∷ []; cells = word 0 ∷ array (0 ∷ 0 ∷ 0 ∷ 0 ∷ []) ∷ [] }

abbrev watcher : Manager
watcher = record { community = ab.value; udp = 1; registered = 0 ∷ [] }

only_watched :
    (i : ℕ) (callback : Callback) → get_elem? (watched ∷ []) i ≡ some callback → callback ≡ watched
only_watched zero callback e = sym (some-injective _ _ e)
only_watched (suc i) callback e = cc

heap_13-IsRoomy : IsRoomy heap_13
heap_13-IsRoomy = record {
  room = λ i callback e.
      subst (λ (c : Callback). HasRoom c.destination (shapes heap_13.cells))
        (sym (only_watched i callback e)) tt;
}

parse_packet-Keeps_example :
    Keeps heap_13 (parse_packet watcher peer (answered_bytes ++ (0 ∷ [])) heap_13).0
parse_packet-Keeps_example =
    parse_packet-Keeps watcher peer (answered_bytes ++ (0 ∷ [])) heap_13 heap_13-IsRoomy

-- Two registrations for one name, the second of which waits for the reply with ID 7.
abbrev key_7 : Key
key_7 = record { id = 7; udp = 1; peer = peer }

abbrev tracked_13 : Callback
tracked_13 = record watched { tracker = track key_7 fresh }

route-route_by_tests_example :
    route key_7 oid_13 (0 ∷ 1 ∷ []) (watched ∷ tracked_13 ∷ [])
    ≡ route_by_tests key_7 oid_13 (0 ∷ 1 ∷ []) (watched ∷ tracked_13 ∷ [])
route-route_by_tests_example =
    route-route_by_tests key_7 oid_13 (0 ∷ 1 ∷ []) (watched ∷ tracked_13 ∷ [])

-- A reply of an agent that failed, with status 5.
abbrev failed_bytes : List ℕ
failed_bytes =
    0x30 ∷ 28 ∷ 2 ∷ 1 ∷ 1 ∷ 4 ∷ 2 ∷ b'a' ∷ b'b' ∷ 0xa2 ∷ 19 ∷ 2 ∷ 1 ∷ 7 ∷ 2 ∷ 1 ∷ 5 ∷ 2 ∷ 1 ∷ 1
    ∷ 0x30 ∷ 8 ∷ 0x30 ∷ 6 ∷ 6 ∷ 1 ∷ 43 ∷ 2 ∷ 1 ∷ 5 ∷ []

failed-encoding : encoding (message 1 ab get_response_pdu 7 5 1 answered) ≡ some failed_bytes
unfolding encoding contents integer_contents octet_contents oid_contents
failed-encoding = refl

failed_parsed :
    parse_from (failed_bytes ++ [])
    ≡ some (record {
      community = received_text ab;
      version = 2;
      request_type = get_response_pdu;
      request_id = 7;
      error_status = 5;
      error_index = 1;
      var_binds = received_binds answered;
    })
failed_parsed =
    parse_from-message 1 ab get_response_pdu 7 5 1 answered failed_bytes [] (omega arith) refl
      (refl, tt) (replied-IsSendable 5 1 (omega arith) (omega arith)) failed-encoding

parse_packet_refused_example :
    ((parse_packet watcher peer (failed_bytes ++ []) heap_13).0.cells ≡ heap_13.cells)
    × (same_type get_response_pdu get_response_pdu && true ≡ true
        → (j : ℕ) → is_listed j watcher.registered ≡ true
        → expects_at key_7 (parse_packet watcher peer (failed_bytes ++ []) heap_13).0.callbacks j
          ≡ false)
parse_packet_refused_example =
    parse_packet_refused watcher peer (failed_bytes ++ []) heap_13 _ failed_parsed refl

watcher-IsManager : IsManager watcher.registered heap_13.callbacks
watcher-IsManager = record { once = (refl, tt); known = λ i h. ground (arith, h) }

register_lem_example :
    let (manager, heap, i) = register (gauge32_to 0) peer oid_13 watcher heap_13 in
    (find_callback peer oid_13 manager.registered heap.callbacks
      ≡ or_new
          (find_callback peer oid_13 watcher.registered heap_13.callbacks)
          (same_ip peer peer && same_bytes oid_13 oid_13)
          1)
    × IsManager manager.registered heap.callbacks
register_lem_example =
    register_lem (gauge32_to 0) peer peer oid_13 oid_13 watcher heap_13 watcher-IsManager

abbrev registered_heap : Manager × Heap
registered_heap = (
  (register (gauge32_to 0) peer oid_13 watcher heap_13).0,
  (register (gauge32_to 0) peer oid_13 watcher heap_13).1,
)

reaches-IsManager_example : IsManager registered_heap.0.registered registered_heap.1.callbacks
reaches-IsManager_example =
    reaches-IsManager (watcher, heap_13) registered_heap
      (further (watcher, heap_13) registered_heap registered_heap
        (registers (gauge32_to 0) peer oid_13 watcher heap_13) (done registered_heap))
      watcher-IsManager

-- Hexadecimal output as `Serial.print` is documented.
abbrev print_hex : ℕ → List ℕ
print_hex b =
    if ltb b 16 then upper_digit b ∷ [] else upper_digit (b / 16) ∷ upper_digit (b % 16) ∷ []

print_hex-PrintsHex : PrintsHex print_hex
print_hex-PrintsHex = record {
  one = λ b h. rw (lt→ltb b 16 h) refl;
  two = λ b h k. rw (le→not_ltb b 16 h) refl;
}

parse_hex-print_packet_example :
    parse_hex 0 (print_packet print_hex (0x30 ∷ 5 ∷ 0xa2 ∷ [])) ≡ some (0x30 ∷ 5 ∷ 0xa2 ∷ [])
parse_hex-print_packet_example =
    parse_hex-print_packet print_hex 0 (0x30 ∷ 5 ∷ 0xa2 ∷ []) print_hex-PrintsHex
      (omega arith, (omega arith, (omega arith, tt))) (omega arith)

-- A request for the registration.
abbrev get_13 : GetRequest
get_13 = record {
  community = some ab.value;
  version = version2c;
  port = 161;
  request_id = 7;
  udp = some 1;
  callbacks = 0 ∷ [];
}

build-message_example : build get_13 heap_13.callbacks ≡ (
    asked_all get_13.callbacks heap_13.callbacks >>= λ binds.
    some (message 1 (octet_of_text ab.value) get_request_pdu 7 0 0 binds))
build-message_example = build-message get_13 heap_13.callbacks

abbrev sent_13 : Heap × Option (List ℕ)
sent_13 = send_to (λ ip port datagram. true) peer get_13 heap_13

abbrev get_13_bytes : List ℕ
get_13_bytes =
    0x30 ∷ 27 ∷ 2 ∷ 1 ∷ 1 ∷ 4 ∷ 2 ∷ b'a' ∷ b'b' ∷ 0xa0 ∷ 18 ∷ 2 ∷ 1 ∷ 7 ∷ 2 ∷ 1 ∷ 0 ∷ 2 ∷ 1 ∷ 0
    ∷ 0x30 ∷ 7 ∷ 0x30 ∷ 5 ∷ 6 ∷ 1 ∷ 43 ∷ 5 ∷ 0 ∷ []

sent_bytes : sent_13 ≡ (sent_13.0, some get_13_bytes)
unfolding send_to all_can_track can_track fresh build add_bindings add_value_to_list oid_of_text
    octet_of_text serialise integer_serialise octet_serialise oid_serialise null_serialise
    integer_contents octet_contents oid_contents track_all
sent_bytes = refl

send_to-Expects_example : Expects key_7 sent_13.0 0
send_to-Expects_example =
    send_to-Expects (λ ip port datagram. true) peer get_13 heap_13 sent_13.0 get_13_bytes 1 0 refl
      sent_bytes refl

dropped : (send_to (λ ip port datagram. false) peer get_13 heap_13).1 ≡ none
unfolding send_to all_can_track can_track fresh build add_bindings add_value_to_list oid_of_text
    octet_of_text serialise integer_serialise octet_serialise oid_serialise null_serialise
    integer_contents octet_contents oid_contents track_all
dropped = refl

send_to_refused_example : (send_to (λ ip port datagram. false) peer get_13 heap_13).0 ≡ heap_13
send_to_refused_example = send_to_refused (λ ip port datagram. false) peer get_13 heap_13 dropped
