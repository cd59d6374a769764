-- ===== src/Manager/Routing.antt =====
-- Which registration gets a binding of a reply in `SNMPManager::parsePacket` of
-- src/Arduino_SNMP_Manager.cpp, told without the loop's variables.

use arduino_snmp_manager.Common.{
  Bool, List, Option, [], ap, arith, false, get_elem?, if◌then◌else◌, none, not, refl, some, true,
  ℕ, ◌&&◌, ◌||◌, ◌∙◌, ◌∷◌, ◌≡◌,
}
use arduino_snmp_manager.Manager.{
  Choice, choose, consider, deliver, is_named, no_choice, or_else, route,
}
use arduino_snmp_manager.Registration.{Callback, Heap}
use arduino_snmp_manager.Response.{VarBind}
use arduino_snmp_manager.Tracking.{Key, has_tracked_requests, matches}

-- The first of the registered addresses that meets a test, and whether there is one.
abbrev pub first_of : (ℕ → Bool) → List ℕ → Option ℕ
first_of p [] = none
first_of p (i ∷ rest) = if p i then some i else first_of p rest

abbrev pub some_of : (ℕ → Bool) → List ℕ → Bool
some_of p [] = false
some_of p (i ∷ rest) = p i || some_of p rest

-- The registrations for a name and a peer that have no tracked request yet, those that have had one,
-- and of these the ones that expect the reply.
abbrev pub test_of : (Callback → Bool) → Option Callback → Bool
test_of p none = false
test_of p (some callback) = p callback

abbrev pub holds_at : (Callback → Bool) → List Callback → ℕ → Bool
holds_at p callbacks i = test_of p (get_elem? callbacks i)

abbrev pub is_loose : Key → List ℕ → Callback → Bool
is_loose key name callback =
    is_named key.peer name callback && not (has_tracked_requests callback.tracker)

abbrev pub is_tracked : Key → List ℕ → Callback → Bool
is_tracked key name callback =
    is_named key.peer name callback && has_tracked_requests callback.tracker

abbrev pub is_owner : Key → List ℕ → Callback → Bool
is_owner key name callback = is_tracked key name callback && matches key callback.tracker

-- The registration by these three tests: the first that expects the reply; where none does, the first
-- without tracked requests, unless one for that name has had some.
unfoldable pub route_by_tests : Key → List ℕ → List ℕ → List Callback → Option ℕ
route_by_tests key name registered callbacks =
    elim (first_of (holds_at (is_owner key name) callbacks) registered) [
      | some i ↦ some i
      | none ↦
          if some_of (holds_at (is_tracked key name) callbacks) registered
          then none
          else first_of (holds_at (is_loose key name) callbacks) registered
    ]

-- What the loop leaves of the two candidates.
abbrev joined : Option ℕ → Option ℕ → Option ℕ
joined none second = second
joined (some i) second = some i

joined-none : (old : Option ℕ) → old ≡ joined old none
joined-none none = refl
joined-none (some i) = refl

joined-if :
    (old now rest : Option ℕ) (b : Bool) (i : ℕ)
    → now ≡ joined old (if b then some i else none)
    → joined now rest ≡ joined old (if b then some i else rest)
joined-if none now rest true i e = ap (λ (o : Option ℕ). joined o rest) e
joined-if none now rest false i e = ap (λ (o : Option ℕ). joined o rest) e
joined-if (some j) now rest b i e = ap (λ (o : Option ℕ). joined o rest) e

-- One round of the loop.
consider_lem :
    (key : Key) (name : List ℕ) (i : ℕ) (found : Option Callback) (choice : Choice)
    → let now = consider key name i found choice in
      (now.callback
        ≡ joined choice.callback (if test_of (is_owner key name) found then some i else none))
      × (now.untracked
          ≡ joined choice.untracked (if test_of (is_loose key name) found then some i else none))
      × (now.has_tracked ≡ (choice.has_tracked || test_of (is_tracked key name) found))
unfolding consider
consider_lem key name i none choice =
    (joined-none choice.callback, joined-none choice.untracked, ground arith)
consider_lem key name i (some callback) choice =
    by_tests (is_named key.peer name callback) (has_tracked_requests callback.tracker)
      (matches key callback.tracker) choice
  where
    by_tests :
        (named tracked expects : Bool) (choice : Choice)
        → let now =
            if not named
            then choice
            else if not tracked
            then record choice { untracked = or_else choice.untracked i }
            else record choice {
              has_tracked = true;
              callback = if expects then or_else choice.callback i else choice.callback;
            } in
          (now.callback
            ≡ joined choice.callback (if (named && tracked) && expects then some i else none))
          × (now.untracked
              ≡ joined choice.untracked (if named && not tracked then some i else none))
          × (now.has_tracked ≡ (choice.has_tracked || (named && tracked)))
    by_tests named tracked expects choice = ground arith

choose_lem :
    (key : Key) (name : List ℕ) (callbacks : List Callback) (registered : List ℕ) (choice : Choice)
    → let done = choose key name callbacks registered choice in
      (done.callback
        ≡ joined choice.callback (first_of (holds_at (is_owner key name) callbacks) registered))
      × (done.untracked
          ≡ joined choice.untracked (first_of (holds_at (is_loose key name) callbacks) registered))
      × (done.has_tracked
          ≡ (choice.has_tracked || some_of (holds_at (is_tracked key name) callbacks) registered))
unfolding choose
choose_lem key name callbacks [] choice =
    (joined-none choice.callback, joined-none choice.untracked, ground arith)
choose_lem key name callbacks (i ∷ rest) choice =
    let found = get_elem? callbacks i in
    let now = consider key name i found choice in
    let (a, b, c) = consider_lem key name i found choice in
    let (x, y, z) = choose_lem key name callbacks rest now in
    (
      x ∙ joined-if choice.callback now.callback _ _ i a,
      y ∙ joined-if choice.untracked now.untracked _ _ i b,
      z ∙ ground (arith, c),
    )

-- The loop of the source picks the registration that the three tests pick.
pub route-route_by_tests :
    (key : Key) (name : List ℕ) (registered : List ℕ) (callbacks : List Callback)
    → route key name registered callbacks ≡ route_by_tests key name registered callbacks
unfolding route route_by_tests
route-route_by_tests key name registered callbacks =
    let (x, y, z) = choose_lem key name callbacks registered no_choice in ground (arith, x, y, z)

-- A late reply: where a registration for the name has had tracked requests and none expects this reply,
-- the binding changes nothing, also no registration without tracked requests.
pub deliver_late :
    (key : Key) (registered : List ℕ) (b : VarBind) (heap : Heap)
    → some_of (holds_at (is_tracked key b.oid_text) heap.callbacks) registered ≡ true
    → first_of (holds_at (is_owner key b.oid_text) heap.callbacks) registered ≡ none
    → deliver key registered b heap ≡ (heap, true)
unfolding deliver route_by_tests
deliver_late key registered b heap tracked nobody =
    let nowhere : route key b.oid_text registered heap.callbacks ≡ none =
      route-route_by_tests key b.oid_text registered heap.callbacks
      ∙ rw (nobody, tracked, route_by_tests) refl in
    rw (nowhere, deliver) refl
