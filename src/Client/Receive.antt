-- ===== src/Client/Receive.antt =====
-- `SNMPClient::receive` of src/SNMPClient.cpp: which operation a reply belongs to, and what it does
-- to that operation; what is no reply goes to `hear` of Client.Notify.Hear.
pub mod Context
pub mod Verdicts
pub mod Invariant
use arduino_snmp_manager.Ber.Address.{IpAddress, same_ip}
use arduino_snmp_manager.Ber.Complex.{type_of}
use arduino_snmp_manager.Ber.Header.{read_ber_header}
use arduino_snmp_manager.Ber.Oid.{dot, oid_text}
use arduino_snmp_manager.Ber.Tag.{
  endofmibview, get_bulk_request_pdu, get_next_request_pdu, get_request_pdu, get_response_pdu,
  nulltype, oid, same_type, set_request_pdu,
}
use arduino_snmp_manager.Client.Notify.Hear.{hear}
use arduino_snmp_manager.Client.Operation.{is_version1}
use arduino_snmp_manager.Client.State.{Client, Environment, finish, store}
use arduino_snmp_manager.Client.Types.{
  Operation, SnmpResult, Status, capacity_exceeded, is_ok, missing, op_pending, partial,
  protocol_error, success, type_mismatch, version_number,
}
use arduino_snmp_manager.Client.Value.{copy_value}
use arduino_snmp_manager.Client.Wire.{above, compare_oid}
use arduino_snmp_manager.Common.{
  Bool, List, Option, [], drop, false, get_elem?, if◌then◌else◌, leb, length, ltb, none, not,
  same_bytes, some, suc, true, zero, ℕ, ◌&&◌, ◌++◌, ◌+◌, ◌/◌, ◌==◌, ◌^◌, ◌||◌, ◌∷◌,
}
use arduino_snmp_manager.Config.{snmp_packet_length}
use arduino_snmp_manager.Manager.Counts.{count}
use arduino_snmp_manager.Response.{Response, VarBind, parse_from}

-- An incoming datagram: the size that `parsePacket` announces, and what `read` returns of it.
pub record Incoming : Type 0 where
  pub peer : IpAddress
  pub port : ℕ
  pub size : ℕ
  pub bytes : List ℕ

-- The reply context of an operation: ID, peer, port, version and community.
unfoldable pub answers : Incoming → Response → Operation → Bool
answers datagram r op =
    op.sent
    && (op.id == r.request_id)
    && same_ip datagram.peer op.device.address
    && (datagram.port == op.device.port)
    && (r.version == version_number op.device.version + 1)
    && same_bytes r.community op.device.community

-- The `for` over the slots: the first operation that the reply answers.
unfoldable pub find_answered :
    Incoming → Response → List (Option ℕ) → List Operation → Option (ℕ × Operation)
unfolding answers
find_answered datagram r [] ops = none
find_answered datagram r (none ∷ rest) ops = find_answered datagram r rest ops
find_answered datagram r (some i ∷ rest) ops =
    let later = find_answered datagram r rest ops in
    elim (get_elem? ops i) [
      | none ↦ later
      | some op ↦ if answers datagram r op then some (i, op) else later
    ]

-- What a reply does to its operation: it stays pending, or it finishes with a status.
pub data Verdict : Type 0 where
  continue : Operation → Verdict
  finish_with : Operation → Status → Verdict

-- `sent_ = false; attempts_ = 0`
abbrev pub rewind : Operation → Operation
rewind op = record op { sent = false; attempts = 0 }

abbrev set_status : ℕ → Status → List SnmpResult → List SnmpResult
set_status i status [] = []
set_status zero status (result ∷ rest) = record result { status = status } ∷ rest
set_status (suc i) status (result ∷ rest) = result ∷ set_status i status rest

-- A version 1 agent that lacks an object of a batch, or of a single read.
unfoldable pub missing_object : Operation → Verdict
missing_object op =
    let op' = record op {
      results = set_status op.offset missing op.results;
      offset = op.offset + 1;
    } in
    if ltb 1 op.batch
    then continue (rewind (record op { batch_limit = 1 }))
    else if op.offset + 1 == length op.results
    then finish_with op' (if length op.results == 1 then missing else partial)
    else continue (rewind op')

-- The agent's error, in the order of the tests; `none` where the reply is to be read.
unfoldable pub agent_error_verdict : Operation → Response → Option Verdict
unfolding missing_object
agent_error_verdict op r =
    let first_version = is_version1 op.device.version in
    if ltb 18 r.error_status || leb (2 ^ 31) r.error_index
    then some (finish_with op protocol_error)
    else if not op.walking
        && same_type op.mode get_request_pdu
        && (r.error_status == 2)
        && first_version
    then some (missing_object op)
    else if (r.error_status == 1) && ltb 1 op.batch && not (same_type op.mode set_request_pdu)
    then some (continue (rewind (record op { batch_limit = op.batch / 2 })))
    else if op.walking && (r.error_status == 2) && first_version
    then some (finish_with op success)
    else if op.walking && (r.error_status == 1) && same_type op.mode get_bulk_request_pdu
    then some (continue (rewind (record op { mode = get_next_request_pdu })))
    else if r.error_status == 0
    then none
    else some (finish_with op (if r.error_status == 1 then capacity_exceeded else protocol_error))

-- The first loop over the batch: the same names in the same order.
unfoldable pub names_agree : ℕ → List SnmpResult → List VarBind → Bool
names_agree zero results [] = true
names_agree zero results (b ∷ binds) = false
names_agree (suc n) results [] = false
names_agree (suc n) [] (b ∷ binds) = false
names_agree (suc n) (result ∷ results) (b ∷ binds) =
    same_bytes b.oid_text result.oid && names_agree n results binds

-- What one binding makes of its cell.
unfoldable pub filled : SnmpResult → VarBind → SnmpResult
filled result b =
    let (status, value) = copy_value b.value in
    record result {
      value = value;
      status =
          if is_ok status
            && not (same_type result.expected nulltype)
            && not (same_type result.expected value.type)
          then type_mismatch
          else status;
    }

-- The second loop: commit the batch.
unfoldable pub fill : ℕ → List SnmpResult → List VarBind → List SnmpResult
unfolding filled
fill zero results binds = results
fill (suc n) (result ∷ results) (b ∷ binds) = filled result b ∷ fill n results binds
fill (suc n) results binds = results

abbrev fill_from : ℕ → ℕ → List SnmpResult → List VarBind → List SnmpResult
fill_from zero n results binds = fill n results binds
fill_from (suc offset) n [] binds = []
fill_from (suc offset) n (result ∷ results) binds = result ∷ fill_from offset n results binds

-- The status of a finished query: the last cell that failed decides, a single one by its own status.
unfoldable pub overall : ℕ → List SnmpResult → Status → Status
overall count [] status = status
overall count (result ∷ rest) status =
    overall count rest
      (if is_ok result.status then status else if count == 1 then result.status else partial)

-- A reply to a read or a write.
unfoldable pub query_verdict : Operation → List VarBind → Verdict
unfolding names_agree fill overall
query_verdict op binds =
    let results = fill_from op.offset op.batch op.results binds in
    let op' = rewind (record op { results = results; offset = op.offset + op.batch }) in
    if not (names_agree op.batch (drop op.offset op.results) binds)
    then finish_with op protocol_error
    else if op.offset + op.batch == length op.results
    then finish_with op' (overall (length results) results success)
    else continue op'

-- `strncmp(name, root, rootLength) || name[rootLength] != '.'` fails: a name strictly below the root.
unfoldable pub below_root : List ℕ → List ℕ → Bool
below_root [] [] = false
below_root [] (c ∷ name) = c == dot
below_root (r ∷ root) [] = false
below_root (r ∷ root) (c ∷ name) = (r == c) && below_root root name

-- What one binding of a walk asks for.
pub data Step : Type 0 where
  stop : Status → Step
  take_value : SnmpResult → Step

unfoldable pub walk_step : Operation → VarBind → Step
unfolding below_root
walk_step op b =
    let (status, value) = copy_value b.value in
    if same_type (type_of b.value) endofmibview
    then stop success
    else (elim (compare_oid b.oid_text op.cursor) [
      | above ↦
          if not (below_root op.root b.oid_text)
          then stop success
          else take_value
              (record { oid = b.oid_text; value = value; status = status; expected = nulltype })
      | other ↦ stop protocol_error
    ])

-- The loop over the bindings of a walk that keeps its results.
unfoldable pub walk_verdict : Bool → Operation → List VarBind → Verdict
unfolding walk_step
walk_verdict seen op [] =
    if seen
    then continue (rewind op)
    else if same_type op.mode get_bulk_request_pdu
    then continue (rewind (record op { mode = get_next_request_pdu }))
    else finish_with op protocol_error
walk_verdict seen op (b ∷ binds) = elim (walk_step op b) [
  | stop status ↦ finish_with op status
  | take_value result ↦
      if length op.results == op.capacity
      then finish_with op capacity_exceeded
      else walk_verdict true
          (record op { results = op.results ++ (result ∷ []); cursor = b.oid_text }) binds
]

abbrev settle_verdict : Environment → ℕ → Verdict → Client → Client
settle_verdict env i (continue op) c = store i op c
settle_verdict env i (finish_with op status) c = finish env i status (store i op c)

-- The loop over the bindings of a walk that hands its results to the application. The callback may
-- act on the client; the loop goes on only with the same request of the same pending operation.
unfoldable pub stream_walk : Environment → ℕ → Bool → List VarBind → Operation → Client → Client
unfolding walk_step walk_verdict finish
stream_walk env i seen [] op c = settle_verdict env i (walk_verdict seen op []) c
stream_walk env i seen (b ∷ binds) op c = elim (walk_step op b) [
  | stop status ↦ finish env i status c
  | take_value result ↦
      (let (c', accepted) = env.on_value i result c in
        if not accepted
        then finish env i capacity_exceeded c'
        else (elim (get_elem? c'.operations i) [
          | none ↦ c'
          | some op' ↦
              if not (op_pending op') || not (op'.id == op.id)
              then c'
              else (let op'' = record op' { cursor = b.oid_text } in
                  stream_walk env i true binds op'' (store i op'' c'))
        ]))
]

-- What a reply does once its operation is found.
unfoldable pub handle_reply : Environment → Response → ℕ → Operation → Client → Client
unfolding agent_error_verdict query_verdict stream_walk
handle_reply env r i op c =
    let op' = record op { agent_error = r.error_status; agent_error_index = r.error_index } in
    elim (agent_error_verdict op' r) [
      | some verdict ↦ settle_verdict env i verdict c
      | none ↦
          if not op.walking
          then settle_verdict env i (query_verdict op' r.var_binds) c
          else if op.streaming
          then stream_walk env i false r.var_binds op' (store i op' c)
          else settle_verdict env i (walk_verdict false op' r.var_binds) c
    ]

-- The datagram is whole: it was read in full, and its outer framing covers it.
unfoldable pub is_whole : Incoming → Bool
is_whole datagram =
    not (ltb snmp_packet_length datagram.size)
    && (length datagram.bytes == datagram.size)
    && (elim (read_ber_header datagram.bytes) [
      | none ↦ false
      | some (header, len) ↦ header + len == datagram.size
    ])

-- `SNMPClient::receive`: a whole datagram that is no reply may be a notification.
unfoldable pub receive : Environment → Incoming → Client → Client
unfolding is_whole find_answered handle_reply hear
receive env datagram c = if not (is_whole datagram) then c else (elim (parse_from datagram.bytes) [
  | none ↦ hear env datagram.peer datagram.port datagram.bytes c
  | some r ↦
      if not (same_type r.request_type get_response_pdu)
      then hear env datagram.peer datagram.port datagram.bytes c
      else (elim (find_answered datagram r c.slots c.operations) [
        | none ↦ c
        | some (i, op) ↦ handle_reply env r i op c
      ])
])
