-- ===== src/Tracking.antt =====
-- Request tracking of src/ValueCallbacks.h and src/ValueCallbacks.cpp: each registered callback
-- keeps a few slots for the requests whose reply it still expects.
pub mod Slots
pub mod Laws
pub mod Invariant
use arduino_snmp_manager.Common.{
  ℕ, ◌+◌, Bool, true, false, not, ◌&&◌, ◌||◌, Option, none, some, List, [], ◌∷◌, set, replicate,
  ◌==◌, if◌then◌else◌,
}
use arduino_snmp_manager.Config.{snmp_max_pending_requests}
use arduino_snmp_manager.Ber.Address.{IpAddress, same_ip}

-- What a reply is matched by: request ID, transport (its address) and peer.
pub record Key : Type 0 where
  pub id : ℕ
  pub udp : ℕ
  pub peer : IpAddress

-- `PendingRequest`.
pub record PendingRequest : Type 0 where
  pub active : Bool
  pub key : Key

-- The tracking members of `ValueCallback`.
pub record Tracker : Type 0 where
  pub request_tracked : Bool
  pub request_pending : Bool
  pub last : Option Key
  pub tracking_enabled : Bool
  pub pending : List PendingRequest

unfoldable pub same_key : Key → Key → Bool
same_key a b = (a.id == b.id) && (a.udp == b.udp) && same_ip a.peer b.peer

-- `entry.active && entry.id == id && entry.udp == udp && entry.peer == peer`
abbrev pub holds : Key → PendingRequest → Bool
holds k entry = entry.active && same_key entry.key k

abbrev pub any {ℓ} : {A : Type ℓ} → (A → Bool) → List A → Bool
any p [] = false
any p (x ∷ xs) = p x || any p xs

pub no_key : Key
no_key = record { id = 0; udp = 0; peer = record { a = 0; b = 0; c = 0; d = 0 } }

-- A new callback: `PendingRequest pending[SNMP_MAX_PENDING_REQUESTS]`, all inactive.
unfoldable pub fresh : Tracker
unfolding no_key
fresh = record {
  request_tracked = false;
  request_pending = false;
  last = none;
  tracking_enabled = false;
  pending = replicate snmp_max_pending_requests (record { active = false; key = no_key });
}

-- `hasTrackedRequests`.
unfoldable pub has_tracked_requests : Tracker → Bool
has_tracked_requests t = t.tracking_enabled

-- `canTrack`: a free slot, or the same request already in one.
unfoldable pub can_track : Key → Tracker → Bool
can_track k t = any (λ entry. not entry.active || same_key entry.key k) t.pending

-- `matches`.
unfoldable pub matches : Key → Tracker → Bool
matches k t = any (holds k) t.pending

-- The loop of `track`: the slot that holds the request, else the first inactive one; `slot` is the
-- candidate so far.
pub find_slot : Key → List PendingRequest → ℕ → Option ℕ → Option ℕ
find_slot k [] i slot = slot
find_slot k (entry ∷ rest) i slot =
    let candidate =
      if not entry.active then (elim slot [ none ↦ some i | some j ↦ some j ]) else slot in
    let later = find_slot k rest (i + 1) candidate in if holds k entry then some i else later

-- `track`.
unfoldable pub track : Key → Tracker → Tracker
unfolding find_slot
track k t = elim (find_slot k t.pending 0 none) [
  | none ↦ t
  | some slot ↦ record {
    request_tracked = true;
    request_pending = true;
    last = some k;
    tracking_enabled = true;
    pending = set t.pending slot (record { active = true; key = k });
  }
]

-- The loop of `consume` frees every slot that holds the request.
abbrev pub freed : Key → List PendingRequest → List PendingRequest
freed k [] = []
freed k (entry ∷ rest) =
    (if holds k entry then record { active = false; key = entry.key } else entry) ∷ freed k rest

-- `consume`: the new state, and whether a slot held the request.
unfoldable pub consume : Key → Tracker → Tracker × Bool
consume k t = (
  record t {
    request_pending = any (λ entry. entry.active) (freed k t.pending);
    pending = freed k t.pending;
  },
  any (holds k) t.pending,
)

abbrev pub all_inactive : List PendingRequest → List PendingRequest
all_inactive [] = []
all_inactive (entry ∷ rest) = record { active = false; key = entry.key } ∷ all_inactive rest

-- `clearPendingRequests`: tracking stays enabled.
unfoldable pub clear_pending_requests : Tracker → Tracker
clear_pending_requests t = record t { request_pending = false; pending = all_inactive t.pending }
