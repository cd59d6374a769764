-- ===== src/Request/Tracked.antt =====
-- After a send of `SNMPGet::sendTo` in src/SNMPGet.cpp every callback of the request expects the reply.
use arduino_snmp_manager.Ber.Address.{IpAddress}
use arduino_snmp_manager.Common.{
  ==_iff, Bool, Bool-cases, List, Option-cases, [], ap, arith, get_elem?, get_elem?-set, inl, inr,
  none, not, refl, some, subst, sym, true, ℕ, ◌&&◌, ◌==◌, ◌||◌, ◌∙◌, ◌∷◌, ◌≡◌, ◌≢◌, ◌⊎◌,
}
use arduino_snmp_manager.Registration.{Callback, Heap, is_listed, store_callback}
use arduino_snmp_manager.Request.{GetRequest, all_can_track, send_to, track_all}
use arduino_snmp_manager.Request.Sending.{send_to-Sent}
use arduino_snmp_manager.Tracking.{
  Key, PendingRequest, Tracker, any, can_track, holds, matches, same_key, track,
}
use arduino_snmp_manager.Tracking.Laws.{matches-track}
use mathlib.Core.Option.{some-injective}

-- The callback at an address can track the request, or expects its reply, if there is one.
abbrev CanTrack : Key → Heap → ℕ → Type 0
CanTrack key heap i =
    (callback : Callback)
    → get_elem? heap.callbacks i ≡ some callback
    → can_track key callback.tracker ≡ true

abbrev pub Expects : Key → Heap → ℕ → Type 0
Expects key heap i =
    (callback : Callback)
    → get_elem? heap.callbacks i ≡ some callback
    → matches key callback.tracker ≡ true

can_track-matches : (key : Key) (t : Tracker) → matches key t ≡ true → can_track key t ≡ true
unfolding matches can_track
can_track-matches key t h = go t.pending h
  where
    one :
        (entry : PendingRequest) (b b' : Bool)
        → (holds key entry || b) ≡ true
        → (b ≡ true → b' ≡ true)
        → ((not entry.active || same_key entry.key key) || b') ≡ true
    one entry b b' h k = ground (arith, k)

    go :
        (entries : List PendingRequest)
        → any (holds key) entries ≡ true
        → any (λ entry. not entry.active || same_key entry.key key) entries ≡ true
    go [] h = cc
    go (entry ∷ rest) h = one entry (any (holds key) rest) _ h (go rest)

same_key_refl : (key : Key) → same_key key key ≡ true
unfolding same_key
same_key_refl key = ground arith

matches-track_self :
    (key : Key) (t : Tracker) → can_track key t ≡ true → matches key (track key t) ≡ true
matches-track_self key t h = matches-track key key t h ∙ rw same_key_refl refl

can_track-track :
    (key : Key) (t : Tracker) → can_track key t ≡ true → can_track key (track key t) ≡ true
can_track-track key t h = can_track-matches key (track key t) (matches-track_self key t h)

-- One round of the loop.
abbrev track_one : Key → ℕ → Heap → Heap
track_one key i heap = elim (get_elem? heap.callbacks i) [
  | none ↦ heap
  | some callback ↦ store_callback i (record callback { tracker = track key callback.tracker }) heap
]

track_one-none :
    (key : Key) (i : ℕ) (heap : Heap)
    → get_elem? heap.callbacks i ≡ none
    → track_one key i heap ≡ heap
track_one-none key i heap e = rw (e, track_one) refl

track_one-some :
    (key : Key) (i : ℕ) (heap : Heap) (old : Callback)
    → get_elem? heap.callbacks i ≡ some old
    → track_one key i heap ≡ store_callback i (record old { tracker = track key old.tracker }) heap
track_one-some key i heap old e = rw (e, track_one) refl

-- What the round leaves at an address: the tracked callback at its own, the old one elsewhere.
track_one-cases :
    (key : Key) (i j : ℕ) (heap : Heap) (callback : Callback)
    → get_elem? (track_one key i heap).callbacks j ≡ some callback
    → ((old : Callback) × (get_elem? heap.callbacks i ≡ some old)
        × (j ≡ i)
        × (callback.tracker ≡ track key old.tracker))
      ⊎ ((get_elem? heap.callbacks j ≡ some callback)
          × (j ≢ i ⊎ (get_elem? heap.callbacks i ≡ none)))
track_one-cases key i j heap callback e = elim (Option-cases (get_elem? heap.callbacks i)) [
  | inl f ↦ inr (
    subst (λ (h : Heap). get_elem? h.callbacks j ≡ some callback) (track_one-none key i heap f) e,
    inr f,
  )
  | inr (old, f) ↦
      elim (get_elem?-set heap.callbacks i j (record old { tracker = track key old.tracker })
        callback
        (subst (λ (h : Heap). get_elem? h.callbacks j ≡ some callback)
          (track_one-some key i heap old f) e)) [
            | inl (p, q) ↦ inl (old, f, p, ap (λ (c : Callback). c.tracker) q)
            | inr (p, q) ↦ inr (q, inl p)
          ]
]

CanTrack-track_one :
    (key : Key) (i j : ℕ) (heap : Heap)
    → CanTrack key heap i
    → CanTrack key heap j
    → CanTrack key (track_one key i heap) j
CanTrack-track_one key i j heap h k callback e = elim (track_one-cases key i j heap callback e) [
  | inl (old, f, p, q) ↦ rw q (can_track-track key old.tracker (h old f))
  | inr (f, _) ↦ k callback f
]

Expects-track_one :
    (key : Key) (i j : ℕ) (heap : Heap)
    → CanTrack key heap i
    → Expects key heap j
    → Expects key (track_one key i heap) j
Expects-track_one key i j heap h k callback e = elim (track_one-cases key i j heap callback e) [
  | inl (old, f, p, q) ↦ rw q (matches-track_self key old.tracker (h old f))
  | inr (f, _) ↦ k callback f
]

Expects-track_one_self :
    (key : Key) (i : ℕ) (heap : Heap) → CanTrack key heap i → Expects key (track_one key i heap) i
Expects-track_one_self key i heap h callback e = elim (track_one-cases key i i heap callback e) [
  | inl (old, f, p, q) ↦ rw q (matches-track_self key old.tracker (h old f))
  | inr (f, inl p) ↦ absurd (p refl)
  | inr (f, inr p) ↦ cc
]

abbrev AllCanTrack : Key → Heap → List ℕ → Type 0
AllCanTrack key heap [] = Unit
AllCanTrack key heap (i ∷ rest) = CanTrack key heap i × AllCanTrack key heap rest

AllCanTrack-track_one :
    (key : Key) (i : ℕ) (heap : Heap) (rest : List ℕ)
    → CanTrack key heap i
    → AllCanTrack key heap rest
    → AllCanTrack key (track_one key i heap) rest
AllCanTrack-track_one key i heap [] h k = tt
AllCanTrack-track_one key i heap (j ∷ rest) h k =
    (CanTrack-track_one key i j heap h k.0, AllCanTrack-track_one key i heap rest h k.1)

all_can_track-AllCanTrack :
    (key : Key) (ids : List ℕ) (heap : Heap)
    → all_can_track key ids heap.callbacks ≡ true
    → AllCanTrack key heap ids
unfolding all_can_track
all_can_track-AllCanTrack key [] heap h = tt
all_can_track-AllCanTrack key (i ∷ rest) heap h = elim (Option-cases (get_elem? heap.callbacks i)) [
  | inl e ↦ ((λ callback f. cc), all_can_track-AllCanTrack key rest heap (rw e at h))
  | inr (old, e) ↦
      let (first, others) = both (can_track key old.tracker) _ (rw e at h) in
      (
        (λ callback f.
            subst (λ (c : Callback). can_track key c.tracker ≡ true)
              (some-injective _ _ (sym e ∙ f)) first),
        all_can_track-AllCanTrack key rest heap others,
      )
]
  where
    both : (a b : Bool) → (a && b) ≡ true → (a ≡ true) × (b ≡ true)
    both a b h = ground arith

Expects-track_all :
    (key : Key) (ids : List ℕ) (heap : Heap) (j : ℕ)
    → AllCanTrack key heap ids
    → Expects key heap j
    → Expects key (track_all key ids heap) j
unfolding track_all
Expects-track_all key [] heap j h k = k
Expects-track_all key (i ∷ rest) heap j h k =
    Expects-track_all key rest (track_one key i heap) j
      (AllCanTrack-track_one key i heap rest h.0 h.1) (Expects-track_one key i j heap h.0 k)

track_all-Expects :
    (key : Key) (ids : List ℕ) (heap : Heap) (j : ℕ)
    → AllCanTrack key heap ids
    → is_listed j ids ≡ true
    → Expects key (track_all key ids heap) j
unfolding track_all
track_all-Expects key [] heap j h k = cc
track_all-Expects key (i ∷ rest) heap j h k =
    let ready = AllCanTrack-track_one key i heap rest h.0 h.1 in
    elim (Bool-cases (i == j)) [
      | inl same ↦
          Expects-track_all key rest (track_one key i heap) j ready
            (rw (sym ((==_iff i j).0 same)) (Expects-track_one_self key i heap h.0))
      | inr other ↦ track_all-Expects key rest (track_one key i heap) j ready (rw other at k)
    ]

-- After a successful send every callback of the request expects the reply to it: its ID, from that
-- peer, on that transport.
pub send_to-Expects :
    (transmits : IpAddress → ℕ → List ℕ → Bool) (ip : IpAddress) (request : GetRequest)
    (heap heap' : Heap) (datagram : List ℕ) (udp i : ℕ)
    → request.udp ≡ some udp
    → send_to transmits ip request heap ≡ (heap', some datagram)
    → is_listed i request.callbacks ≡ true
    → Expects (record { id = request.request_id; udp = udp; peer = ip }) heap' i
send_to-Expects transmits ip request heap heap' datagram udp i has_udp e listed =
    let sent = send_to-Sent transmits ip request heap heap' datagram e in
    let same : sent.udp ≡ udp = some-injective _ _ (sym sent.has_udp ∙ has_udp) in
    subst (λ (u : ℕ). Expects (record { id = request.request_id; udp = u; peer = ip }) heap' i) same
      (subst
        (λ (h : Heap). Expects (record { id = request.request_id; udp = sent.udp; peer = ip }) h i)
        (sym sent.tracked)
        (track_all-Expects _ request.callbacks heap i
          (all_can_track-AllCanTrack _ request.callbacks heap sent.ready) listed))
