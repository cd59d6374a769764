-- ===== src/Tracking/Slots.antt =====
-- Which slot `track` takes, and what writing it does to the matches.
use arduino_snmp_manager.Common.{
  ℕ, zero, suc, ◌+◌, ◌≡◌, refl, ap, ◌∙◌, ◌⊎◌, inl, inr, Bool, true, false, not, ◌||◌, Option, none,
  some, List, [], ◌∷◌, arith, set, if◌then◌else◌, Bool-cases,
}
use arduino_snmp_manager.Tracking.{Key, PendingRequest, Tracker, same_key, holds, any, find_slot}
use arduino_snmp_manager.Ber.Address.{same_ip_refl, same_ip_sound}

pub same_key_refl : (k : Key) → same_key k k ≡ true
unfolding same_key
same_key_refl k = ground (arith, same_ip_refl k.peer)

pub same_key_sound : (a b : Key) → same_key a b ≡ true → a ≡ b
unfolding same_key
same_key_sound a b h = ground (arith, same_ip_sound a.peer b.peer)

-- The first slot that holds a request, and the first inactive one.
unfoldable pub index_of : (PendingRequest → Bool) → List PendingRequest → Option ℕ
index_of p [] = none
index_of p (entry ∷ rest) =
    let later = index_of p rest in
    if p entry then some 0 else (elim later [ none ↦ none | some j ↦ some (suc j) ])

abbrev pub is_free : PendingRequest → Bool
is_free entry = not entry.active

abbrev or_else : Option ℕ → Option ℕ → Option ℕ
or_else (some j) other = some j
or_else none other = other

abbrev shifted : ℕ → Option ℕ → Option ℕ
shifted i none = none
shifted i (some j) = some (i + j)

find_slot-index_of :
    (k : Key) (entries : List PendingRequest) (i : ℕ) (slot : Option ℕ)
    → find_slot k entries i slot
      ≡ or_else
          (shifted i (index_of (holds k) entries))
          (or_else slot (shifted i (index_of is_free entries)))
unfolding find_slot index_of
find_slot-index_of k [] i none = refl
find_slot-index_of k [] i (some s) = refl
find_slot-index_of k (entry ∷ rest) i none =
    ground
      (arith, find_slot-index_of k rest (i + 1) none, find_slot-index_of k rest (i + 1) (some i))
find_slot-index_of k (entry ∷ rest) i (some s) =
    ground (arith, find_slot-index_of k rest (i + 1) (some s))

abbrev pub occupied : Key → PendingRequest
occupied k = record { active = true; key = k }

pub held_alike :
    (k k' : Key) (entry : PendingRequest)
    → holds k entry ≡ true
    → (entry.active ≡ true) × (same_key entry.key k' ≡ same_key k k')
held_alike k k' entry h =
    (ground arith, ap (λ (a : Key). same_key a k') (same_key_sound entry.key k (ground arith)))

-- Writing the request over the slot that holds it changes no match.
pub any-set-held :
    (k k' : Key) (entries : List PendingRequest) (j : ℕ)
    → index_of (holds k) entries ≡ some j
    → any (holds k') (set entries j (occupied k)) ≡ any (holds k') entries
unfolding index_of
any-set-held k k' [] j e = cc
any-set-held k k' (entry ∷ rest) zero e = ground (arith, held_alike k k' entry)
any-set-held k k' (entry ∷ rest) (suc j) e = ground (arith, any-set-held k k' rest j)

-- Writing it over a free slot adds this request's match and no other.
pub any-set-free :
    (k k' : Key) (entries : List PendingRequest) (j : ℕ)
    → index_of is_free entries ≡ some j
    → any (holds k') (set entries j (occupied k)) ≡ (same_key k k' || any (holds k') entries)
unfolding index_of
any-set-free k k' [] j e = cc
any-set-free k k' (entry ∷ rest) zero e = ground arith
any-set-free k k' (entry ∷ rest) (suc j) e = ground (arith, any-set-free k k' rest j)

index_of-any :
    (p : PendingRequest → Bool) (entries : List PendingRequest)
    → ((index_of p entries ≡ none) × (any p entries ≡ false))
      ⊎ ((j : ℕ) × (index_of p entries ≡ some j) × (any p entries ≡ true))
unfolding index_of
index_of-any p [] = inl (refl, refl)
index_of-any p (entry ∷ rest) = elim (Bool-cases (p entry)) [
  | inl e ↦ inr (0, rw e refl, rw e refl)
  | inr e ↦ elim (index_of-any p rest) [
    | inl (a, b) ↦ inl (rw (e, a) refl, rw (e, b) refl)
    | inr (j, a, b) ↦ inr (suc j, rw (e, a) refl, rw (e, b) refl)
  ]
]

pub can_track-any :
    (k : Key) (entries : List PendingRequest)
    → any (λ entry. not entry.active || same_key entry.key k) entries
      ≡ (any (holds k) entries || any is_free entries)
can_track-any k [] = refl
can_track-any k (entry ∷ rest) = ground (arith, can_track-any k rest)

pub held_covers :
    (k k' : Key) (entries : List PendingRequest)
    → any (holds k) entries ≡ true
    → any (holds k') entries ≡ (same_key k k' || any (holds k') entries)
held_covers k k' entries held = elim (Bool-cases (same_key k k')) [
  | inl e ↦ rw e (rw (same_key_sound k k' e) at held)
  | inr e ↦ rw e refl
]

-- `track` in terms of the two indices.
pub data Outcome (k : Key) (t : Tracker) : Type 0 where
  retried :
      (j : ℕ)
      → any (holds k) t.pending ≡ true
      → index_of (holds k) t.pending ≡ some j
      → find_slot k t.pending 0 none ≡ some j
      → Outcome k t
  started :
      (j : ℕ)
      → any (holds k) t.pending ≡ false
      → any is_free t.pending ≡ true
      → index_of is_free t.pending ≡ some j
      → find_slot k t.pending 0 none ≡ some j
      → Outcome k t
  refused :
      any (holds k) t.pending ≡ false
      → any is_free t.pending ≡ false
      → find_slot k t.pending 0 none ≡ none
      → Outcome k t

pub outcome : (k : Key) (t : Tracker) → Outcome k t
outcome k t = elim (index_of-any (holds k) t.pending) [
  | inr (j, e, held) ↦
      retried j held e (find_slot-index_of k t.pending 0 none ∙ rw e (ground arith))
  | inl (e, free_of) ↦ elim (index_of-any is_free t.pending) [
    | inr (j, e', free) ↦
        started j free_of free e'
          (find_slot-index_of k t.pending 0 none ∙ rw (e, e') (ground arith))
    | inl (e', full) ↦
        refused free_of full (find_slot-index_of k t.pending 0 none ∙ rw (e, e') refl)
  ]
]
