-- ===== src/Tracking/Invariant.antt =====
-- What holds of a tracker after every operation.
use arduino_snmp_manager.Tracking.Slots.{
  index_of, is_free, occupied, Outcome, retried, started, refused, outcome,
}
use arduino_snmp_manager.Common.{
  ℕ, zero, suc, ◌≡◌, refl, sym, ap, ◌∙◌, Bool, true, false, some, List, [], ◌∷◌, arith, length, set,
}
use arduino_snmp_manager.Config.{snmp_max_pending_requests}
use arduino_snmp_manager.Tracking.{
  Key, PendingRequest, Tracker, holds, any, fresh, has_tracked_requests, matches, track, freed,
  consume, all_inactive, clear_pending_requests,
}

-- What holds of every tracker: the array keeps its size, `requestPending` says whether a slot is in
-- use, and slots are in use only where tracking is enabled.
abbrev any_active : List PendingRequest → Bool
any_active entries = any (λ entry. entry.active) entries

pub record IsTracker (t : Tracker) : Type 0 where
  pub sized : length t.pending ≡ snmp_max_pending_requests
  pub flagged : t.request_pending ≡ any_active t.pending
  pub enabled : t.tracking_enabled ≡ false → any_active t.pending ≡ false

pub fresh-IsTracker : IsTracker fresh
unfolding fresh
fresh-IsTracker = record { sized = refl; flagged = refl; enabled = λ _. refl }

length-set :
    (entries : List PendingRequest) (j : ℕ) (entry : PendingRequest)
    → length (set entries j entry) ≡ length entries
length-set [] j entry = refl
length-set (x ∷ rest) zero entry = refl
length-set (x ∷ rest) (suc j) entry = ap suc (length-set rest j entry)

any_active-set :
    (p : PendingRequest → Bool) (entries : List PendingRequest) (j : ℕ) (k : Key)
    → index_of p entries ≡ some j
    → any_active (set entries j (occupied k)) ≡ true
unfolding index_of
any_active-set p [] j k e = cc
any_active-set p (entry ∷ rest) zero k e = refl
any_active-set p (entry ∷ rest) (suc j) k e = ground (arith, any_active-set p rest j k)

length-freed : (k : Key) (entries : List PendingRequest) → length (freed k entries) ≡ length entries
length-freed k [] = refl
length-freed k (entry ∷ rest) = ap suc (length-freed k rest)

any_active-freed :
    (k : Key) (entries : List PendingRequest)
    → any_active entries ≡ false
    → any_active (freed k entries) ≡ false
any_active-freed k [] h = refl
any_active-freed k (entry ∷ rest) h = ground (arith, any_active-freed k rest)

all_inactive_lem :
    (entries : List PendingRequest)
    → (length (all_inactive entries) ≡ length entries)
      × (any_active (all_inactive entries) ≡ false)
      × ((k : Key) → any (holds k) (all_inactive entries) ≡ false)
all_inactive_lem [] = (refl, refl, λ k. refl)
all_inactive_lem (entry ∷ rest) =
    let (sized, quiet, gone) = all_inactive_lem rest in (ap suc sized, quiet, gone)

pub data Call : Type 0 where
  tracks consumes : Key → Call
  clears : Call

pub step : Tracker → Call → Tracker
step t (tracks k) = track k t
step t (consumes k) = (consume k t).0
step t clears = clear_pending_requests t

-- Tracking, consuming and clearing each keep the table at its fixed size, the pending flag equal to
-- there being an active slot, and no slot active while tracking was never enabled.
pub step-IsTracker : (t : Tracker) (c : Call) → IsTracker t → IsTracker (step t c)
unfolding step consume clear_pending_requests track
step-IsTracker t (tracks k) v = by_outcome (outcome k t)
  where
    by_outcome : Outcome k t → IsTracker (track k t)
    by_outcome (retried j held e found) =
        rw (found, track)
          (record {
            sized = length-set t.pending j (occupied k) ∙ v.sized;
            flagged = sym (any_active-set (holds k) t.pending j k e);
            enabled = λ h. cc;
          })
    by_outcome (started j other free e found) =
        rw (found, track)
          (record {
            sized = length-set t.pending j (occupied k) ∙ v.sized;
            flagged = sym (any_active-set is_free t.pending j k e);
            enabled = λ h. cc;
          })
    by_outcome (refused other full found) = rw (found, track) v
step-IsTracker t (consumes k) v = record {
  sized = length-freed k t.pending ∙ v.sized;
  flagged = refl;
  enabled = λ h. any_active-freed k t.pending (v.enabled h);
}
step-IsTracker t clears v =
    let (sized, quiet, gone) = all_inactive_lem t.pending in
    record { sized = sized ∙ v.sized; flagged = sym quiet; enabled = λ h. quiet }

-- After a cancellation no reply matches, and tracking stays as it was.
pub matches-clear :
    (k : Key) (t : Tracker)
    → (matches k (clear_pending_requests t) ≡ false)
      × (has_tracked_requests (clear_pending_requests t) ≡ has_tracked_requests t)
unfolding matches clear_pending_requests has_tracked_requests
matches-clear k t = ((all_inactive_lem t.pending).2 k, refl)
