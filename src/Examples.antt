-- ===== src/Examples.antt =====
-- The theorems at concrete inputs, and runs of the code.
mod Legacy
mod Others
mod Tables
use arduino_snmp_manager.Ber.Address.{IpAddress}
use arduino_snmp_manager.Ber.Complex.{
  Values, complex_type, cons, counter64_type, depth_limit, from_buffer, integer_type, nil,
  null_type, octet_type, serialise,
}
use arduino_snmp_manager.Ber.Complex.Encode.{
  IsStored, contents, encoding, encodings, serialise-encoding,
}
use arduino_snmp_manager.Ber.Complex.RoundTrip.{
  AreSendable, IsSendable, from_buffer-encoding, received,
}
use arduino_snmp_manager.Ber.Counter64.{
  counter64_contents, counter64_from_buffer, counter64_from_buffer-tlv,
}
use arduino_snmp_manager.Ber.Header.{buffer, put, read_ber_header, read_ber_header_bounds, tlv}
use arduino_snmp_manager.Ber.Integer.{
  integer_contents, integer_from_buffer, integer_from_buffer-tlv,
}
use arduino_snmp_manager.Ber.Octet.{OctetType, octet_contents}
use arduino_snmp_manager.Ber.Oid.{base128, decimal, oid_contents, oid_from_buffer, oid_text}
use arduino_snmp_manager.Ber.Oid.RoundTrip.{
  IsValid, ObjectId, dotted, encoded, oid_contents-dotted, oid_from_buffer-tlv,
}
use arduino_snmp_manager.Ber.Tag.{
  counter64, get_request_pdu, get_response_pdu, integer, nulltype, oid, structure, wire,
}
use arduino_snmp_manager.Client.Loop.{loop}
use arduino_snmp_manager.Client.Loop.Invariant.{loop-IsClient}
use arduino_snmp_manager.Client.Operation.{admitted}
use arduino_snmp_manager.Client.Packet.{assemble}
use arduino_snmp_manager.Client.Packet.Message.{assemble-encoding}
use arduino_snmp_manager.Client.Receive.{Incoming, handle_reply, is_whole, receive}
use arduino_snmp_manager.Client.Receive.Context.{Agrees, Waits, receive_expected}
use arduino_snmp_manager.Client.Receive.Invariant.{receive-IsClient}
use arduino_snmp_manager.Client.State.{
  Client, Environment, NotificationHandler, misconfigured, new_client, reserve, schedule,
}
use arduino_snmp_manager.Client.State.Admission.{schedule-IsClient, schedule_refused}
use arduino_snmp_manager.Client.State.Invariant.{IsClient, Respects, times}
use arduino_snmp_manager.Client.State.Starting.{Startable, Started, schedule-Started}
use arduino_snmp_manager.Client.Types.{
  Device, Operation, empty_value, is_ok, not_started, pending, success, version2c,
}
use arduino_snmp_manager.Common.{
  List, Option, [], ap, arith, false, get_elem?, if◌then◌else◌, none, not, refl, some, subst, suc,
  sym, true, zero, ℕ, ◌&&◌, ◌++◌, ◌+◌, ◌<◌, ◌==◌, ◌>>=◌, ◌^◌, ◌||◌, ◌∷◌, ◌≡◌, ◌≢◌, ◌≤◌, ◌⊎◌,
}
use arduino_snmp_manager.Response.{Response, VarBind, parse_from}
use arduino_snmp_manager.Response.Laws.{IsSupported, parse_from-IsSupported}
use arduino_snmp_manager.Response.RoundTrip.{
  binding_trees, message, parse_from-message, received_binds, received_text,
}
use arduino_snmp_manager.Tracking.{Key, can_track, consume, fresh, matches, same_key, track}
use arduino_snmp_manager.Tracking.Invariant.{
  IsTracker, fresh-IsTracker, step, step-IsTracker, tracks,
}
use arduino_snmp_manager.Tracking.Laws.{in_use, in_use-track, matches-consume, matches-track}
use mathlib.Core.Option.{some-injective}

-- A sequence of an INTEGER, an octet string and a nested sequence with an object identifier.
abbrev oid_13 : List ℕ
oid_13 = b'.' ∷ b'1' ∷ b'.' ∷ b'3' ∷ []

abbrev sample : Values
sample = cons (integer_type integer 300) (
    cons (octet_type (record { value = 7 ∷ 0 ∷ []; decoded = true; valid = true }))
      (cons (complex_type structure (cons (counter64_type 1) (cons null_type nil))) nil))

abbrev sample_bytes : List ℕ
sample_bytes = 0x30 ∷ 15 ∷ 2 ∷ 2 ∷ 1 ∷ 44 ∷ 4 ∷ 2 ∷ 7 ∷ 0 ∷ 0x30 ∷ 5 ∷ 0x46 ∷ 1 ∷ 1 ∷ 5 ∷ 0 ∷ []

sample-encoding : encoding (complex_type structure sample) ≡ some sample_bytes
unfolding encoding contents integer_contents octet_contents counter64_contents
sample-encoding = refl

sample-IsSendable : IsSendable (complex_type structure sample) depth_limit
unfolding IsSendable
sample-IsSendable =
    (refl, ((refl, omega arith), ((refl, omega arith), ((refl, (omega arith, (tt, tt))), tt))))

from_buffer-encoding_example :
    from_buffer structure (sample_bytes ++ (9 ∷ []))
    ≡ some (received (complex_type structure sample))
from_buffer-encoding_example =
    from_buffer-encoding structure sample sample_bytes (9 ∷ []) sample-IsSendable sample-encoding

sample-IsStored : IsStored (complex_type structure sample)
unfolding IsStored
sample-IsStored = (tt, (omega arith, ((tt, (tt, tt)), tt)))

serialise-encoding_example :
    serialise (complex_type structure sample) buffer 100
    ≡ (encoding (complex_type structure sample) >>= put buffer 100)
serialise-encoding_example =
    serialise-encoding (complex_type structure sample) buffer 100 sample-IsStored

-- An octet string from text, in a message: version 2c, community "ab", one name asked for.
abbrev asked : List VarBind
asked = record { oid_text = oid_13; value = null_type } ∷ []

abbrev asked_bytes : List ℕ
asked_bytes = 0x30 ∷ 5 ∷ 6 ∷ 1 ∷ 43 ∷ 5 ∷ 0 ∷ []

asked-encodings : encodings (binding_trees asked) ≡ some asked_bytes
unfolding encodings oid_contents
asked-encodings = refl

abbrev ab : OctetType
ab = record { value = b'a' ∷ b'b' ∷ []; decoded = true; valid = true }

assemble-encoding_example :
    (assemble get_request_pdu 7 0 1 ab.value asked_bytes
      ≡ encoding (message 1 ab get_request_pdu 7 0 0 asked))
    × (assemble get_request_pdu 7 0 1 ab.value asked_bytes ≢ none)
assemble-encoding_example =
    assemble-encoding get_request_pdu 7 0 1 ab.value asked_bytes asked (omega arith) asked-encodings
      (omega arith)

-- The object identifier 1.3, and a reply with one INTEGER.
abbrev id_13 : ObjectId
id_13 = record { root = 1; second = 3; others = [] }

id_13-IsValid : IsValid id_13
unfolding decimal base128
id_13-IsValid = record {
  root_small = omega arith;
  second_small = λ h. omega arith;
  second_word = omega arith;
  words = tt;
  few = omega arith;
  fits = omega arith;
  packed = omega arith;
}

dotted_13 : oid_13 ≡ dotted id_13
unfolding decimal
dotted_13 = refl

abbrev answered : List VarBind
answered = record { oid_text = oid_13; value = integer_type integer 5 } ∷ []

abbrev answered_bytes : List ℕ
answered_bytes =
    0x30 ∷ 28 ∷ 2 ∷ 1 ∷ 1 ∷ 4 ∷ 2 ∷ b'a' ∷ b'b' ∷ 0xa2 ∷ 19 ∷ 2 ∷ 1 ∷ 7 ∷ 2 ∷ 1 ∷ 0 ∷ 2 ∷ 1 ∷ 0
    ∷ 0x30 ∷ 8 ∷ 0x30 ∷ 6 ∷ 6 ∷ 1 ∷ 43 ∷ 2 ∷ 1 ∷ 5 ∷ []

answered-encoding : encoding (message 1 ab get_response_pdu 7 0 0 answered) ≡ some answered_bytes
unfolding encoding contents integer_contents octet_contents oid_contents
answered-encoding = refl

-- The reply can be sent with any error status and index.
replied-IsSendable :
    (status index : ℕ)
    → status < 2 ^ 32
    → index < 2 ^ 32
    → IsSendable (message 1 ab get_response_pdu 7 status index answered) depth_limit
unfolding IsSendable
replied-IsSendable status index h k =
    (refl, ((refl, omega arith), ((refl, omega arith), ((refl, answered_pdu), tt))))
  where
    answered_pdu :
        AreSendable
          (cons (integer_type integer 7) (
            cons (integer_type integer status) (
              cons
                (integer_type integer index)
                (cons (complex_type structure (binding_trees answered)) nil))))
          30
    answered_pdu = (
      (refl, omega arith),
      (
        (refl, h),
        (
          (refl, k),
          (
            (refl, ((refl, ((id_13, id_13-IsValid, dotted_13), ((refl, omega arith), tt))), tt)),
            tt,
          ),
        ),
      ),
    )

answered-IsSendable : IsSendable (message 1 ab get_response_pdu 7 0 0 answered) depth_limit
answered-IsSendable = replied-IsSendable 0 0 (omega arith) (omega arith)

answered_parsed :
    parse_from (answered_bytes ++ (0 ∷ []))
    ≡ some (record {
      community = received_text ab;
      version = 2;
      request_type = get_response_pdu;
      request_id = 7;
      error_status = 0;
      error_index = 0;
      var_binds = received_binds answered;
    })
answered_parsed =
    parse_from-message 1 ab get_response_pdu 7 0 0 answered answered_bytes (0 ∷ []) (omega arith)
      refl (refl, tt) answered-IsSendable answered-encoding

parse_from-message_example :
    parse_from (answered_bytes ++ (0 ∷ []))
    ≡ some (record {
      community = received_text ab;
      version = 2;
      request_type = get_response_pdu;
      request_id = 7;
      error_status = 0;
      error_index = 0;
      var_binds = received_binds answered;
    })
parse_from-message_example =
    parse_from-message 1 ab get_response_pdu 7 0 0 answered answered_bytes (0 ∷ []) (omega arith)
      refl (refl, tt) answered-IsSendable answered-encoding

oid_from_buffer-tlv_example :
    oid_from_buffer (tlv (wire oid) (encoded id_13) ++ (1 ∷ [])) ≡ some (dotted id_13)
oid_from_buffer-tlv_example = oid_from_buffer-tlv id_13 (1 ∷ []) id_13-IsValid

oid_contents-dotted_example : oid_contents (dotted id_13) ≡ some (encoded id_13)
oid_contents-dotted_example = oid_contents-dotted id_13 id_13-IsValid

parse_from-IsSupported_example : IsSupported (record {
  community = received_text ab;
  version = 2;
  request_type = get_response_pdu;
  request_id = 7;
  error_status = 0;
  error_index = 0;
  var_binds = received_binds answered;
})
parse_from-IsSupported_example =
    parse_from-IsSupported (answered_bytes ++ (0 ∷ [])) _ answered_parsed

contents_13 : oid_contents oid_13 ≡ some (43 ∷ [])
unfolding oid_contents
contents_13 = refl

integer_from_buffer-tlv_example :
    integer_from_buffer integer (tlv (wire integer) (integer_contents integer 4294967295) ++ [])
    ≡ some 4294967295
integer_from_buffer-tlv_example = integer_from_buffer-tlv integer 4294967295 [] (omega arith)

counter64_from_buffer-tlv_example :
    counter64_from_buffer (tlv (wire counter64) (counter64_contents 18446744073709551615) ++ [])
    ≡ some 18446744073709551615
counter64_from_buffer-tlv_example = counter64_from_buffer-tlv 18446744073709551615 [] (omega arith)

long_header : read_ber_header (0x04 ∷ 0x82 ∷ 0 ∷ 1 ∷ 7 ∷ []) ≡ some (4, 1)
unfolding read_ber_header
long_header = refl

read_ber_header_bounds_example : (2 ≤ 4) × (4 + 1 ≤ 5) × (1 ≤ 65535)
read_ber_header_bounds_example =
    read_ber_header_bounds (0x04 ∷ 0x82 ∷ 0 ∷ 1 ∷ 7 ∷ []) 4 1 long_header

-- Two requests of one callback.
abbrev peer : IpAddress
peer = record { a = 10; b = 0; c = 0; d = 1 }

abbrev first_key : Key
first_key = record { id = 1; udp = 1; peer = peer }

abbrev second_key : Key
second_key = record { id = 2; udp = 1; peer = peer }

fresh-can_track : (k : Key) → can_track k fresh ≡ true
unfolding can_track fresh
fresh-can_track k = refl

matches-track_example :
    matches second_key (track first_key fresh)
    ≡ (same_key first_key second_key || matches second_key fresh)
matches-track_example = matches-track first_key second_key fresh (fresh-can_track first_key)

in_use-track_example :
    in_use (track first_key fresh).pending
    ≡ (if matches first_key fresh then 0 else 1) + in_use fresh.pending
in_use-track_example = in_use-track first_key fresh (fresh-can_track first_key)

matches-consume_example :
    matches second_key (consume first_key (track first_key fresh)).0
    ≡ (matches second_key (track first_key fresh) && not (same_key first_key second_key))
matches-consume_example = matches-consume first_key second_key (track first_key fresh)

step-IsTracker_example : IsTracker (step fresh (tracks first_key))
step-IsTracker_example = step-IsTracker fresh (tracks first_key) fresh-IsTracker

-- A client with one read of 1.3.
abbrev router : Device
router = record {
  address = peer;
  port = 161;
  community = b'a' ∷ b'b' ∷ [];
  version = version2c;
  status = success;
  timeout_ms = 1000;
  retries = 1;
}

abbrev read_13 : Operation
read_13 = record {
  device = router;
  results =
      record { oid = oid_13; value = empty_value; status = not_started; expected = nulltype } ∷ [];
  capacity = 1;
  mode = get_request_pdu;
  walking = false;
  root = [];
  cursor = [];
  streaming = false;
  status = not_started;
  completed = false;
  offset = 0;
  batch = 0;
  batch_limit = 0;
  id = 0;
  agent_error = 0;
  agent_error_index = 0;
  sent_at = 0;
  attempts = 0;
  sent = false;
  started_at = 0;
}

abbrev started_client : Client
started_client = record (new_client (read_13 ∷ [])) { begun = true }

only_read :
    (i : ℕ) (op : Operation) → get_elem? (read_13 ∷ []) i ≡ some op → (i ≡ 0) × (op ≡ read_13)
only_read zero op e = (refl, sym (some-injective _ _ e))
only_read (suc i) op e = cc

unsent : (i : ℕ) (op : Operation) → get_elem? (read_13 ∷ []) i ≡ some op → op.sent ≡ true → ⊥
unsent i op e s = cc (ap (λ (x : Operation). x.sent) (only_read i op e).1)

started_client-IsClient : IsClient started_client
started_client-IsClient = record {
  sized = refl;
  once = λ i. omega arith;
  agree = λ i op e. rw (only_read i op e).1 refl;
  there = λ i h. cc;
  ids = λ i op e. rw (only_read i op e).1 (omega arith);
  batched = λ i op e p s. absurd (unsent i op e s);
  counter = omega arith;
}

schedule-IsClient_example : IsClient (schedule 0 read_13 started_client).0
schedule-IsClient_example = schedule-IsClient 0 read_13 started_client started_client-IsClient refl

not_begun : is_ok (schedule 0 read_13 (new_client (read_13 ∷ []))).1 ≡ false
unfolding schedule
not_begun = refl

schedule_refused_example :
    (schedule 0 read_13 (new_client (read_13 ∷ []))).0 ≡ new_client (read_13 ∷ [])
schedule_refused_example = schedule_refused 0 read_13 (new_client (read_13 ∷ [])) not_begun

accepted_13 : is_ok (schedule 0 read_13 started_client).1 ≡ true
unfolding schedule misconfigured reserve
accepted_13 = refl

schedule-Started_example :
    (is_ok (schedule 0 read_13 started_client).1 ≡ true
      → Startable read_13 started_client
        × Started 0 read_13 started_client (schedule 0 read_13 started_client).0)
    × (Startable read_13 started_client → is_ok (schedule 0 read_13 started_client).1 ≡ true)
schedule-Started_example = schedule-Started 0 read_13 started_client

-- Handlers that do nothing, and a transport that never fails.
abbrev quiet : Environment
quiet = record {
  transmits = λ now ip port datagram. true;
  on_complete = λ i c. c;
  on_value = λ i result c. (c, true);
  acknowledges = λ ip port datagram. true;
  listener = record { community = b'a' ∷ []; handler = some (λ event c. (c, true)) };
}

quiet-Respects : Respects quiet
quiet-Respects = record {
  complete_kept = λ i c v. v;
  value_kept = λ i result c v. v;
  notice_kept = λ handler event c e v.
      subst (λ (h : NotificationHandler). IsClient (h event c).0) (some-injective _ _ e) v;
}

-- The client with its read scheduled.
abbrev scheduled_client : Client
scheduled_client = (schedule 0 read_13 started_client).0

scheduled-IsClient : IsClient scheduled_client
scheduled-IsClient = schedule-IsClient 0 read_13 started_client started_client-IsClient refl

scheduled_read : get_elem? scheduled_client.operations 0 ≡ some (admitted read_13)
unfolding schedule misconfigured reserve admitted
scheduled_read = refl

-- A client whose read with ID 7 is sent, and the reply to it.
abbrev waiting_read : Operation
waiting_read = record read_13 {
  device = record router { community = ab.value };
  status = pending;
  sent = true;
  id = 7;
  batch = 1;
}

abbrev waiting_client : Client
waiting_client = record started_client {
  slots = some 0 ∷ none ∷ none ∷ none ∷ [];
  next_id = 7;
  operations = waiting_read ∷ [];
}

only_waiting :
    (i : ℕ) (op : Operation)
    → get_elem? (waiting_read ∷ []) i ≡ some op
    → (i ≡ 0) × (op ≡ waiting_read)
only_waiting zero op e = (refl, sym (some-injective _ _ e))
only_waiting (suc i) op e = cc

waiting_slot : (i : ℕ) → ((0 == i) || (false || (false || (false || false)))) ≡ true → i < 1
waiting_slot i h = ground arith

waiting_once : (i : ℕ) → times i waiting_client.slots ≤ 1
waiting_once i = ground arith

waiting_client-IsClient : IsClient waiting_client
waiting_client-IsClient = record {
  sized = refl;
  once = waiting_once;
  agree = λ i op e. rw ((only_waiting i op e).0, (only_waiting i op e).1) refl;
  there = waiting_slot;
  ids = λ i op e. rw (only_waiting i op e).1 (omega arith);
  batched = λ i op e p s. rw (only_waiting i op e).1 (omega arith);
  counter = omega arith;
}

abbrev reply : Incoming
reply = record { peer = peer; port = 161; size = 30; bytes = answered_bytes }

abbrev answered_response : Response
answered_response = record {
  community = received_text ab;
  version = 2;
  request_type = get_response_pdu;
  request_id = 7;
  error_status = 0;
  error_index = 0;
  var_binds = received_binds answered;
}

reply_parsed : parse_from reply.bytes ≡ some answered_response
reply_parsed =
    parse_from-message 1 ab get_response_pdu 7 0 0 answered answered_bytes [] (omega arith) refl
      (refl, tt) answered-IsSendable answered-encoding

whole_reply : is_whole reply ≡ true
unfolding is_whole read_ber_header
whole_reply = refl

receive_expected_example :
    (((i : ℕ) (op : Operation)
        → Waits i op waiting_client.slots waiting_client.operations
        → Agrees op reply answered_response
        → ⊥)
      × (receive quiet reply waiting_client ≡ waiting_client))
    ⊎ ((i : ℕ) × (op : Operation) × Waits i op waiting_client.slots waiting_client.operations
        × Agrees op reply answered_response
        × (receive quiet reply waiting_client
            ≡ handle_reply quiet answered_response i op waiting_client))
receive_expected_example =
    receive_expected quiet reply answered_response waiting_client whole_reply reply_parsed refl

receive-IsClient_example : IsClient (receive quiet reply waiting_client)
receive-IsClient_example =
    receive-IsClient quiet reply waiting_client quiet-Respects waiting_client-IsClient

loop-IsClient_example : IsClient (loop quiet (some reply) 9 waiting_client)
loop-IsClient_example =
    loop-IsClient quiet (some reply) 9 waiting_client quiet-Respects waiting_client-IsClient
