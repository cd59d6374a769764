-- ===== src/Tracking/Laws.antt =====
-- What the tracking slots promise: a tracked request is matched until it is consumed, and requests
-- do not disturb one another.
use arduino_snmp_manager.Tracking.Slots.{
  same_key_sound, index_of, is_free, occupied, any-set-held, any-set-free, held_alike, held_covers,
  can_track-any, Outcome, retried, started, refused, outcome,
}
use arduino_snmp_manager.Common.{
  ℕ, zero, suc, ◌+◌, ◌≡◌, refl, sym, ap, ◌∙◌, inl, inr, true, false, not, ◌&&◌, ◌||◌, some, List,
  [], ◌∷◌, arith, set, if◌then◌else◌, Bool-cases,
}
use arduino_snmp_manager.Tracking.{
  Key, PendingRequest, Tracker, same_key, holds, any, can_track, matches, track, freed, consume,
}

-- A request that a slot can take is matched afterwards, and every other request is matched exactly
-- when it was before: no outstanding request is evicted.
pub matches-track :
    (k k' : Key) (t : Tracker)
    → can_track k t ≡ true
    → matches k' (track k t) ≡ (same_key k k' || matches k' t)
unfolding can_track track matches
matches-track k k' t h = by_outcome (outcome k t)
  where
    by_outcome : Outcome k t → matches k' (track k t) ≡ (same_key k k' || matches k' t)
    by_outcome (retried j held e found) =
        rw (found, track) (any-set-held k k' t.pending j e ∙ held_covers k k' t.pending held)
    by_outcome (started j other free e found) = rw (found, track) (any-set-free k k' t.pending j e)
    by_outcome (refused other full found) = cc (can_track-any k t.pending, other, full, h)

-- A request that no slot can take is left out, and nothing changes.
pub track_refused : (k : Key) (t : Tracker) → can_track k t ≡ false → track k t ≡ t
unfolding can_track track
track_refused k t h = by_outcome (outcome k t)
  where
    by_outcome : Outcome k t → track k t ≡ t
    by_outcome (retried j held e found) = cc (can_track-any k t.pending, held, h)
    by_outcome (started j other free e found) = cc (can_track-any k t.pending, other, free, h)
    by_outcome (refused other full found) = rw (found, track) refl

same_holds :
    (k k' : Key) (entry : PendingRequest)
    → same_key k k' ≡ true
    → same_key entry.key k' ≡ same_key entry.key k
same_holds k k' entry e = ap (λ (a : Key). same_key entry.key a) (sym (same_key_sound k k' e))

-- `consume` frees this request's slot and no other.
any-freed :
    (k k' : Key) (entries : List PendingRequest)
    → any (holds k') (freed k entries) ≡ (any (holds k') entries && not (same_key k k'))
any-freed k k' [] = refl
any-freed k k' (entry ∷ rest) = elim (Bool-cases (holds k entry)) [
  | inl e ↦ ground (arith, any-freed k k' rest, held_alike k k' entry e)
  | inr e ↦ ground (arith, any-freed k k' rest, same_holds k k' entry)
]

-- Consuming a reply releases its own request and no other: afterwards a request is matched exactly
-- when it was before and is not the consumed one.
pub matches-consume :
    (k k' : Key) (t : Tracker) → matches k' (consume k t).0 ≡ (matches k' t && not (same_key k k'))
unfolding matches consume
matches-consume k k' t = any-freed k k' t.pending

-- The slots in use.
unfoldable pub in_use : List PendingRequest → ℕ
in_use [] = 0
in_use (entry ∷ rest) = (if entry.active then 1 else 0) + in_use rest

in_use-set-held :
    (k : Key) (entries : List PendingRequest) (j : ℕ)
    → index_of (holds k) entries ≡ some j
    → in_use (set entries j (occupied k)) ≡ in_use entries
unfolding in_use index_of
in_use-set-held k [] j e = cc
in_use-set-held k (entry ∷ rest) zero e = ground arith
in_use-set-held k (entry ∷ rest) (suc j) e = ground (arith, in_use-set-held k rest j)

in_use-set-free :
    (k : Key) (entries : List PendingRequest) (j : ℕ)
    → index_of is_free entries ≡ some j
    → in_use (set entries j (occupied k)) ≡ suc (in_use entries)
unfolding in_use index_of
in_use-set-free k [] j e = cc
in_use-set-free k (entry ∷ rest) zero e = ground arith
in_use-set-free k (entry ∷ rest) (suc j) e = ground (arith, in_use-set-free k rest j)

-- Where a slot can take the request: a retry of an outstanding request takes no further slot, and a
-- new request takes one.
pub in_use-track :
    (k : Key) (t : Tracker)
    → can_track k t ≡ true
    → in_use (track k t).pending ≡ (if matches k t then 0 else 1) + in_use t.pending
unfolding can_track track matches
in_use-track k t h = by_outcome (outcome k t)
  where
    by_outcome :
        Outcome k t → in_use (track k t).pending ≡ (if matches k t then 0 else 1) + in_use t.pending
    by_outcome (retried j held e found) =
        rw (found, track, held) (omega (arith, in_use-set-held k t.pending j e))
    by_outcome (started j other free e found) =
        rw (found, track, other) (omega (arith, in_use-set-free k t.pending j e))
    by_outcome (refused other full found) = cc (can_track-any k t.pending, other, full, h)
