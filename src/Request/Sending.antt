-- ===== src/Request/Sending.antt =====
-- What `SNMPGet::sendTo` in src/SNMPGet.cpp leaves of the callbacks, and the datagram that it sends.
use arduino_snmp_manager.Ber.Address.{IpAddress}
use arduino_snmp_manager.Ber.Complex.{Container, serialise, stored}
use arduino_snmp_manager.Ber.Complex.Encode.{AreStored, IsStored, encoding, serialise-encoding}
use arduino_snmp_manager.Ber.Header.{buffer}
use arduino_snmp_manager.Ber.Octet.{octet_of_text}
use arduino_snmp_manager.Ber.Tag.{get_request_pdu}
use arduino_snmp_manager.Client.Types.{version_number}
use arduino_snmp_manager.Common.{
  >>=-eq-some, Bool, Bool-cases, List, Option, Option-cases, ap, arith, inl, inr, length, ltb, none,
  not_ltb→le, refl, some, subst, sym, true, unless-some, ℕ, ◌>>=◌, ◌∙◌, ◌≡◌, ◌≤◌,
}
use arduino_snmp_manager.Config.{snmp_octetstring_max_length, snmp_packet_length}
use arduino_snmp_manager.Registration.{Heap}
use arduino_snmp_manager.Request.{GetRequest, all_can_track, build, send_to, track_all}
use arduino_snmp_manager.Request.Message.{asked_all, asked_all-AreStored, build-message}
use arduino_snmp_manager.Response.{VarBind}
use arduino_snmp_manager.Response.RoundTrip.{binding_trees, message}
use arduino_snmp_manager.Tracking.{Key}
use mathlib.Core.Option.{some-injective}

-- The steps of a send that returned true.
pub record Sent (transmits : IpAddress → ℕ → List ℕ → Bool) (ip : IpAddress) (request : GetRequest)
    (heap heap' : Heap) (datagram : List ℕ) : Type 0 where
  pub udp : ℕ
  pub has_udp : request.udp ≡ some udp
  pub community : List ℕ
  pub has_community : request.community ≡ some community
  pub binds : List VarBind
  pub has_binds : asked_all request.callbacks heap.callbacks ≡ some binds
  pub ready :
      all_can_track
        (record { id = request.request_id; udp = udp; peer = ip })
        request.callbacks
        heap.callbacks
      ≡ true
  pub framed :
      encoding (
        message
          (version_number request.version)
          (octet_of_text community)
          get_request_pdu
          request.request_id
          0
          0
          binds)
      ≡ some datagram
  pub fits : length datagram ≤ snmp_packet_length
  pub taken : transmits ip request.port datagram ≡ true
  pub tracked :
      heap'
      ≡ track_all (record { id = request.request_id; udp = udp; peer = ip }) request.callbacks heap

serialise-eq-some :
    (v : Container) (capacity n : ℕ) (datagram : List ℕ)
    → IsStored v
    → serialise v buffer capacity ≡ some (n, datagram)
    → (encoding v ≡ some datagram) × (length datagram ≤ capacity)
serialise-eq-some v capacity n datagram stored e =
    let (bytes, found, put_it) =
      >>=-eq-some (encoding v) _ (sym (serialise-encoding v buffer capacity stored) ∙ e) in
    let (short, same) = unless-some (ltb capacity (length bytes)) _ put_it in
    let kept : bytes ≡ datagram = ap (λ (w : ℕ × List ℕ). w.1) (some-injective _ _ same) in
    (found ∙ ap some kept, subst (λ (l : List ℕ). length l ≤ capacity) kept (not_ltb→le _ _ short))

octet_of_text-fits :
    (text : List ℕ) → length (octet_of_text text).value ≤ snmp_octetstring_max_length
unfolding octet_of_text
octet_of_text-fits text = ground arith

message-IsStored :
    (request : GetRequest) (text : List ℕ) (binds : List VarBind)
    → AreStored (binding_trees binds)
    → IsStored (
        message
          (version_number request.version)
          (octet_of_text text)
          get_request_pdu
          request.request_id
          0
          0
          binds)
unfolding IsStored
message-IsStored request text binds stored =
    (tt, (octet_of_text-fits text, ((tt, (tt, (tt, (stored, tt)))), tt)))

-- A send succeeds only on a transport that takes the datagram, with a community and a callback slot
-- for each name; the datagram is the encoding of the GET message for the names, in one packet, and
-- then exactly the request's callbacks track it.
pub send_to-Sent :
    (transmits : IpAddress → ℕ → List ℕ → Bool) (ip : IpAddress) (request : GetRequest)
    (heap heap' : Heap) (datagram : List ℕ)
    → send_to transmits ip request heap ≡ (heap', some datagram)
    → Sent transmits ip request heap heap' datagram
unfolding send_to
send_to-Sent transmits ip request heap heap' datagram e = elim (Option-cases request.udp) [
  | inl no_udp ↦ cc (rw (no_udp, send_to) at e)
  | inr (udp, has_udp) ↦
      let key : Key = record { id = request.request_id; udp = udp; peer = ip } in
      elim (Bool-cases (all_can_track key request.callbacks heap.callbacks)) [
        | inr full ↦ cc (rw (has_udp, full, send_to) at e)
        | inl ready ↦
            elim (Option-cases (
              build request heap.callbacks >>= λ packet.
              serialise packet buffer snmp_packet_length)) [
                | inl failed ↦ cc (rw (has_udp, ready, failed, send_to) at e)
                | inr ((n, bytes), built) ↦ elim (Bool-cases (transmits ip request.port bytes)) [
                  | inr dropped ↦ cc (rw (has_udp, ready, built, dropped, send_to) at e)
                  | inl taken ↦
                      from_build udp has_udp ready n bytes built taken
                        (rw (has_udp, ready, built, taken, send_to) at e)
                ]
              ]
      ]
]
  where
    from_build :
        (udp : ℕ)
        → request.udp ≡ some udp
        → all_can_track
            (record { id = request.request_id; udp = udp; peer = ip })
            request.callbacks
            heap.callbacks
          ≡ true
        → (n : ℕ) (bytes : List ℕ)
        → (build request heap.callbacks >>= λ packet. serialise packet buffer snmp_packet_length)
          ≡ some (n, bytes)
        → transmits ip request.port bytes ≡ true
        → ◌≡◌ {A = Heap × Option (List ℕ)}
            (
              track_all
                  (record { id = request.request_id; udp = udp; peer = ip })
                  request.callbacks
                  heap,
              some bytes,
            )
            (heap', some datagram)
        → Sent transmits ip request heap heap' datagram
    from_build udp has_udp ready n bytes built taken done =
        let same : bytes ≡ datagram =
          some-injective _ _ (ap (λ (w : Heap × Option (List ℕ)). w.1) done) in
        let (packet, made, sent) = >>=-eq-some (build request heap.callbacks) _ built in
        let (text, has_text, rest) =
          >>=-eq-some request.community _ (sym (build-message request heap.callbacks) ∙ made) in
        let (binds, has_binds, whole) =
          >>=-eq-some (asked_all request.callbacks heap.callbacks) _ rest in
        let tree =
          message (version_number request.version) (octet_of_text text) get_request_pdu
            request.request_id 0 0 binds in
        let stored = asked_all-AreStored request.callbacks heap.callbacks binds has_binds in
        let (framed, fits) =
          serialise-eq-some tree snmp_packet_length n bytes
            (message-IsStored request text binds stored)
            (subst (λ (v : Container). serialise v buffer snmp_packet_length ≡ some (n, bytes))
              (sym (some-injective _ _ whole)) sent) in
        record {
          udp = udp;
          has_udp = has_udp;
          community = text;
          has_community = has_text;
          binds = binds;
          has_binds = has_binds;
          ready = ready;
          framed = framed ∙ ap some same;
          fits = subst (λ (l : List ℕ). length l ≤ snmp_packet_length) same fits;
          taken = subst (λ (l : List ℕ). transmits ip request.port l ≡ true) same taken;
          tracked = sym (ap (λ (w : Heap × Option (List ℕ)). w.0) done);
        }

-- A send that returns false leaves every callback as it was: a retry is not blocked by it.
pub send_to_refused :
    (transmits : IpAddress → ℕ → List ℕ → Bool) (ip : IpAddress) (request : GetRequest)
    (heap : Heap)
    → (send_to transmits ip request heap).1 ≡ none
    → (send_to transmits ip request heap).0 ≡ heap
unfolding send_to
send_to_refused transmits ip request heap e = elim (Option-cases request.udp) [
  | inl no_udp ↦ rw (no_udp, send_to) refl
  | inr (udp, has_udp) ↦
      let key : Key = record { id = request.request_id; udp = udp; peer = ip } in
      elim (Bool-cases (all_can_track key request.callbacks heap.callbacks)) [
        | inr full ↦ rw (has_udp, full, send_to) refl
        | inl ready ↦
            elim (Option-cases (
              build request heap.callbacks >>= λ packet.
              serialise packet buffer snmp_packet_length)) [
                | inl failed ↦ rw (has_udp, ready, failed, send_to) refl
                | inr ((n, bytes), built) ↦ elim (Bool-cases (transmits ip request.port bytes)) [
                  | inr dropped ↦ rw (has_udp, ready, built, dropped, send_to) refl
                  | inl taken ↦ cc (rw (has_udp, ready, built, taken, send_to) at e)
                ]
              ]
      ]
]
