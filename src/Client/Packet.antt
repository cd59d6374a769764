-- ===== src/Client/Packet.antt =====
-- The datagram that `SNMPClient::send` builds in the shared buffer, without an outgoing tree.
pub mod Steps
pub mod Message
use arduino_snmp_manager.Common.{
  ℕ, ◌+◌, ◌*◌, Bool, Option, none, some, List, [], ◌∷◌, ◌++◌, length, leb, if◌then◌else◌, ◌>>=◌,
}
use arduino_snmp_manager.Config.{snmp_packet_length}
use arduino_snmp_manager.Ber.Tag.{AsnType, integer, string, oid, structure}
use arduino_snmp_manager.Ber.Oid.{oid_of_text}
use arduino_snmp_manager.Ber.Complex.{Container, integer_type, oid_type, null_type}
use arduino_snmp_manager.Client.Types.{SnmpValue, SnmpResult}
use arduino_snmp_manager.Client.Wire.{wrap, append, append_value}

-- What the envelope around the bindings may take.
abbrev pub reserve_of : List ℕ → ℕ
reserve_of community = length community + 40

-- One binding behind the bytes built so far: name, value or NULL, and the STRUCTURE around both.
unfoldable pub append_binding : ℕ → List ℕ → Option SnmpValue → List ℕ → Option (List ℕ)
unfolding append append_value wrap
append_binding capacity name value buf =
    append capacity (oid_type (oid_of_text name)) buf >>= λ named.
    (elim value [ none ↦ append capacity null_type named | some v ↦ append_value capacity v named ])
    >>= λ valued. wrap capacity (length buf) structure valued

-- The loop over the cells from `offset_` on: as many as fit, at most `limit`. The number of bindings
-- taken, and the bytes.
unfoldable pub append_batch : ℕ → Bool → ℕ → List SnmpResult → ℕ → List ℕ → ℕ × List ℕ
unfolding append_binding
append_batch capacity setting limit [] batch buf = (batch, buf)
append_batch capacity setting limit (result ∷ rest) batch buf =
    let value = if setting then some result.value else none in
    let next = λ (buf' : List ℕ).
      (let more = append_batch capacity setting limit rest (batch + 1) buf' in
        if leb capacity (length buf' + (batch + 2) * 16) then (batch + 1, buf') else more) in
    if leb limit batch then (batch, buf) else (elim (append_binding capacity result.oid value buf) [
      | none ↦ (batch, buf)
      | some buf' ↦ next buf'
    ])

-- `append` into the local array `prefix`, whose result the source drops.
pub append_kept : Container → List ℕ → List ℕ
unfolding append
append_kept value buf = elim (append 96 value buf) [ none ↦ buf | some buf' ↦ buf' ]

-- Request ID, error status or non-repeaters, and error index or repetitions.
unfoldable pub pdu_prefix : ℕ → ℕ → List ℕ
unfolding append_kept
pdu_prefix id repetitions =
    append_kept (integer_type integer repetitions)
      (append_kept (integer_type integer 0) (append_kept (integer_type integer id) []))

pub wrap_kept : ℕ → List ℕ → List ℕ
unfolding wrap
wrap_kept start buf = elim (wrap 96 start string buf) [ none ↦ buf | some buf' ↦ buf' ]

-- Version and community.
unfoldable pub message_prefix : ℕ → List ℕ → List ℕ
unfolding append_kept wrap_kept
message_prefix version community =
    let head = append_kept (integer_type integer version) [] in
    wrap_kept (length head) (head ++ community)

-- The steps of `send` from the finished binding list to the datagram.
unfoldable pub assemble : AsnType → ℕ → ℕ → ℕ → List ℕ → List ℕ → Option (List ℕ)
unfolding wrap pdu_prefix message_prefix
assemble mode id repetitions version community bindings =
    wrap snmp_packet_length 0 structure bindings >>= λ binding_list.
    wrap snmp_packet_length 0 mode (pdu_prefix id repetitions ++ binding_list) >>= λ pdu.
    wrap snmp_packet_length 0 structure (message_prefix version community ++ pdu)
