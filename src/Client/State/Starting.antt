-- ===== src/Client/State/Starting.antt =====
-- `schedule` of src/SNMPClient.cpp: exactly when a start is accepted, and what it changes.
use arduino_snmp_manager.Ber.Tag.{
  get_bulk_request_pdu, get_next_request_pdu, same_type, set_request_pdu,
}
use arduino_snmp_manager.Client.Operation.{admitted, is_version1, restarted}
use arduino_snmp_manager.Client.State.{Client, misconfigured, reserve, schedule}
use arduino_snmp_manager.Client.State.Admission.{Accepted, reserve-none_iff, schedule-Accepted}
use arduino_snmp_manager.Client.Types.{
  Operation, SnmpResult, empty_value, is_ok, op_pending, pending,
}
use arduino_snmp_manager.Common.{
  >>=-eq-some, Bool, List, Option, Option-cases, [], ap, arith, false, get_elem?, if◌then◌else◌,
  inl, inr, length, ltb, none, not, refl, set, some, suc, sym, true, zero, ℕ, ◌&&◌, ◌-◌, ◌<◌, ◌==◌,
  ◌^◌, ◌||◌, ◌∙◌, ◌∷◌, ◌≡◌, ◌≢◌,
}
use mathlib.Core.Option.{some-injective}

module _ {ℓ} {A : Type ℓ} where
  -- The first slot that is free.
  abbrev pub FirstFree : ℕ → List (Option A) → Type ℓ
  FirstFree at slots =
      (get_elem? slots at ≡ some none) × ((j : ℕ) → j < at → get_elem? slots j ≢ some none)

reserve-FirstFree :
    (i : ℕ) (slots slots' : List (Option ℕ))
    → reserve i slots ≡ some slots'
    → (at : ℕ) × FirstFree at slots × (slots' ≡ set slots at (some i))
unfolding reserve
reserve-FirstFree i [] slots' e = cc
reserve-FirstFree i (none ∷ rest) slots' e =
    (0, (refl, λ j h. absurd (omega (arith, h))), sym (some-injective _ _ e))
reserve-FirstFree i (some k ∷ rest) slots' e =
    let (rest', found, whole) = >>=-eq-some (reserve i rest) _ e in
    let (at, (free, first), same) = reserve-FirstFree i rest rest' found in
    (suc at, (free, earlier at first), sym (some-injective _ _ whole) ∙ ap (λ x. some k ∷ x) same)
  where
    earlier :
        (at : ℕ)
        → ((j : ℕ) → j < at → get_elem? rest j ≢ some none)
        → (j : ℕ) → j < suc at
        → get_elem? (some k ∷ rest) j ≢ some none
    earlier at first zero h p = cc
    earlier at first (suc j) h p = first j (omega (arith, h)) p

-- What a start needs: an idle operation that asks for something, of a device with no error, a port
-- and a timeout of an `int32_t`, on a client that has begun and has a free slot.
pub record Startable (op : Operation) (c : Client) : Type 0 where
  pub idle : op_pending op ≡ false
  pub begun : c.begun ≡ true
  pub device_ok : is_ok op.device.status ≡ true
  pub asks : 0 < (if op.walking then length op.root else length op.results)
  pub port : 0 < op.device.port
  pub timeout : (0 < op.device.timeout_ms) × (op.device.timeout_ms < 2 ^ 31)
  pub free : (at : ℕ) × (get_elem? c.slots at ≡ some none)

-- What a start leaves: the first free slot holds the operation, which is pending with nothing sent;
-- the cells of a read or a write all wait, those of a write with their values, and a walk has none
-- and begins at its root; the rest of the client is as it was.
pub record Started (i : ℕ) (op : Operation) (c c' : Client) : Type 0 where
  pub at : ℕ
  pub new : Operation
  pub found : FirstFree at c.slots
  pub slots : c'.slots ≡ set c.slots at (some i)
  pub operations : c'.operations ≡ set c.operations i new
  pub device : new.device ≡ op.device
  pub status : new.status ≡ pending
  pub unsent : (new.sent ≡ false) × (new.id ≡ 0) × (new.attempts ≡ 0)
  pub fresh : (new.offset ≡ 0) × (new.completed ≡ false) × (new.started_at ≡ 0)
  pub no_error : (new.agent_error ≡ 0) × (new.agent_error_index ≡ 0)
  pub whole_batch : new.batch_limit ≡ length new.results
  pub from_root : op.walking ≡ true → new.cursor ≡ op.root
  pub walk_mode :
      op.walking ≡ true
      → new.mode
        ≡ (if is_version1 op.device.version then get_next_request_pdu else get_bulk_request_pdu)
  pub same_mode : op.walking ≡ false → new.mode ≡ op.mode
  pub no_cells : op.walking ≡ true → new.results ≡ []
  pub cells :
      op.walking ≡ false
      → (length new.results ≡ length op.results)
        × ((j : ℕ) (old : SnmpResult)
            → get_elem? op.results j ≡ some old
            → get_elem? new.results j
              ≡ some (record old {
                status = pending;
                value = if same_type op.mode set_request_pdu then old.value else empty_value;
              }))
  pub others : (c'.begun ≡ c.begun) × (c'.next_id ≡ c.next_id) × (c'.outbox ≡ c.outbox)

length-restarted :
    (setting : Bool) (results : List SnmpResult)
    → length (restarted setting results) ≡ length results
length-restarted setting [] = refl
length-restarted setting (result ∷ rest) = ap suc (length-restarted setting rest)

get_elem?-restarted :
    (setting : Bool) (results : List SnmpResult) (j : ℕ) (old : SnmpResult)
    → get_elem? results j ≡ some old
    → get_elem? (restarted setting results) j
      ≡ some (record old { status = pending; value = if setting then old.value else empty_value })
get_elem?-restarted setting [] j old e = cc
get_elem?-restarted setting (result ∷ rest) zero old e = rw (some-injective _ _ e) refl
get_elem?-restarted setting (result ∷ rest) (suc j) old e = get_elem?-restarted setting rest j old e

Accepted-Started :
    (i : ℕ) (op : Operation) (c : Client) → Accepted i op c → Started i op c (schedule i op c).0
unfolding admitted
Accepted-Started i op c a =
    let (at, free, same) = reserve-FirstFree i c.slots a.slots a.reserved in
    record {
      at = at;
      new = admitted op;
      found = free;
      slots = ap (λ (x : Client). x.slots) a.state ∙ same;
      operations = ap (λ (x : Client). x.operations) a.state;
      device = refl;
      status = refl;
      unsent = (refl, refl, refl);
      fresh = (refl, refl, refl);
      no_error = (refl, refl);
      whole_batch = sym (length-restarted _ _);
      from_root = λ w. rw w refl;
      walk_mode = λ w. rw w refl;
      same_mode = λ w. rw w refl;
      no_cells = λ w. rw w refl;
      cells = λ w. rw w (
        length-restarted (same_type op.mode set_request_pdu) op.results,
        get_elem?-restarted (same_type op.mode set_request_pdu) op.results,
      );
      others = (
        ap (λ (x : Client). x.begun) a.state,
        ap (λ (x : Client). x.next_id) a.state,
        ap (λ (x : Client). x.outbox) a.state,
      );
    }

configured_lem :
    (walking : Bool) (results root port timeout : ℕ)
    → (((not walking && (results == 0))
          || (walking && (root == 0))
          || (port == 0)
          || (timeout == 0)
          || ltb (2 ^ 31 - 1) timeout)
        ≡ false)
    → (0 < (if walking then root else results)) × (0 < port) × (0 < timeout) × (timeout < 2 ^ 31)
configured_lem walking results root port timeout h =
    (ground arith, ground arith, ground arith, ground arith)

misconfigured_not :
    (walking : Bool) (results root port timeout : ℕ)
    → 0 < (if walking then root else results)
    → 0 < port
    → 0 < timeout
    → timeout < 2 ^ 31
    → ((not walking && (results == 0))
        || (walking && (root == 0))
        || (port == 0)
        || (timeout == 0)
        || ltb (2 ^ 31 - 1) timeout)
      ≡ false
misconfigured_not walking results root port timeout a p t u = ground arith

Accepted-Startable : (i : ℕ) (op : Operation) (c : Client) → Accepted i op c → Startable op c
unfolding misconfigured
Accepted-Startable i op c a =
    let (asks, port, some_time, fits) =
      configured_lem op.walking (length op.results) (length op.root) op.device.port
        op.device.timeout_ms a.configured in
    let (at, free, same) = reserve-FirstFree i c.slots a.slots a.reserved in
    record {
      idle = a.idle;
      begun = a.begun;
      device_ok = a.device_ok;
      asks = asks;
      port = port;
      timeout = (some_time, fits);
      free = (at, free.0);
    }

schedule-Startable :
    (i : ℕ) (op : Operation) (c : Client) → Startable op c → is_ok (schedule i op c).1 ≡ true
unfolding schedule misconfigured
schedule-Startable i op c s =
    let configured =
      misconfigured_not op.walking (length op.results) (length op.root) op.device.port
        op.device.timeout_ms s.asks s.port s.timeout.0 s.timeout.1 in
    elim (Option-cases (reserve i c.slots)) [
      | inl full ↦ absurd (reserve-none_iff i c.slots full s.free.0 s.free.1)
      | inr (slots, e) ↦ rw (s.idle, s.begun, s.device_ok, configured, e) refl
    ]

-- A start is accepted exactly where the operation is idle, asks for something, and has a device with
-- no error, a port and a timeout of an `int32_t`, and the client has begun and has a free slot. Then
-- the first free slot holds the operation, which is pending with nothing sent and nothing counted; its
-- cells all wait, those of a write with their values; a walk begins at its root with no cells and in
-- the mode of its version; and the rest of the client is as it was.
pub schedule-Started :
    (i : ℕ) (op : Operation) (c : Client)
    → (is_ok (schedule i op c).1 ≡ true → Startable op c × Started i op c (schedule i op c).0)
      × (Startable op c → is_ok (schedule i op c).1 ≡ true)
schedule-Started i op c = (
  λ accepted.
      let a = schedule-Accepted i op c accepted in
      (Accepted-Startable i op c a, Accepted-Started i op c a),
  schedule-Startable i op c,
)
