-- ===== src/Client/Receive/Context.antt =====
-- Which operation a reply belongs to in `SNMPClient::receive` of src/SNMPClient.cpp: the context that it
-- has to agree with.
use arduino_snmp_manager.Ber.Address.{same_ip_refl, same_ip_sound}
use arduino_snmp_manager.Ber.Tag.{get_response_pdu}
use arduino_snmp_manager.Client.Receive.{
  Incoming, answers, find_answered, handle_reply, is_whole, receive,
}
use arduino_snmp_manager.Client.State.{Client, Environment}
use arduino_snmp_manager.Client.State.Invariant.{occupied}
use arduino_snmp_manager.Client.Types.{Operation, version_number}
use arduino_snmp_manager.Common.{
  ==_iff, ==_refl, Bool, Bool-cases, List, Option, Option-cases, [], ap, arith, false, get_elem?,
  inl, inr, none, refl, same_bytes_refl, same_bytes_sound, some, sym, true, ℕ, ◌+◌, ◌==◌, ◌||◌, ◌∙◌,
  ◌∷◌, ◌≡◌, ◌⊎◌,
}
use arduino_snmp_manager.Response.{Response, parse_from}
use mathlib.Core.Option.{some-injective}

-- The context that a reply needs: it answers a request that was sent, with its ID, from the device's
-- address and port, in its version and with its community.
pub record Agrees (op : Operation) (datagram : Incoming) (r : Response) : Type 0 where
  pub sent : op.sent ≡ true
  pub id : op.id ≡ r.request_id
  pub peer : datagram.peer ≡ op.device.address
  pub port : datagram.port ≡ op.device.port
  pub version : r.version ≡ version_number op.device.version + 1
  pub community : r.community ≡ op.device.community

answers-Agrees :
    (datagram : Incoming) (r : Response) (op : Operation)
    → answers datagram r op ≡ true
    → Agrees op datagram r
unfolding answers
answers-Agrees datagram r op h = record {
  sent = ground arith;
  id = ground arith;
  peer = same_ip_sound datagram.peer op.device.address (ground arith);
  port = ground arith;
  version = ground arith;
  community = same_bytes_sound r.community op.device.community (ground arith);
}

Agrees-answers :
    (datagram : Incoming) (r : Response) (op : Operation)
    → Agrees op datagram r
    → answers datagram r op ≡ true
unfolding answers
Agrees-answers datagram r op e =
    rw
      (
        e.sent,
        e.id,
        ==_refl,
        e.peer,
        same_ip_refl op.device.address,
        e.port,
        ==_refl,
        e.version,
        ==_refl,
        e.community,
        same_bytes_refl op.device.community,
      )
      refl

-- The client has an operation in a slot.
abbrev pub Waits : ℕ → Operation → List (Option ℕ) → List Operation → Type 0
Waits i op slots ops = (get_elem? ops i ≡ some op) × (occupied i slots ≡ true)

pub find_answered-found :
    (datagram : Incoming) (r : Response) (slots : List (Option ℕ)) (ops : List Operation) (i : ℕ)
    (op : Operation)
    → find_answered datagram r slots ops ≡ some (i, op)
    → (get_elem? ops i ≡ some op) × (occupied i slots ≡ true) × Agrees op datagram r
unfolding find_answered
find_answered-found datagram r [] ops i op e = cc
find_answered-found datagram r (none ∷ rest) ops i op e =
    find_answered-found datagram r rest ops i op e
find_answered-found datagram r (some j ∷ rest) ops i op e = elim (Option-cases (get_elem? ops j)) [
  | inl f ↦ later (find_answered-found datagram r rest ops i op (rw (f, find_answered) at e))
  | inr (op', f) ↦ elim (Bool-cases (answers datagram r op')) [
    | inr a ↦ later (find_answered-found datagram r rest ops i op (rw (f, a, find_answered) at e))
    | inl a ↦
        let same = some-injective _ _ (rw (f, a, find_answered) at e) in
        let index : j ≡ i = ap (λ (w : ℕ × Operation). w.0) same in
        let held : op' ≡ op = ap (λ (w : ℕ × Operation). w.1) same in
        rw (sym index, sym held) (f, first j (occupied i rest), answers-Agrees datagram r op' a)
  ]
]
  where
    first : (k : ℕ) (b : Bool) → ((k == k) || b) ≡ true
    first k b = rw ==_refl refl

    wider : (b b' : Bool) → b' ≡ true → (b || b') ≡ true
    wider b b' h = ground arith

    later :
        (get_elem? ops i ≡ some op) × (occupied i rest ≡ true) × Agrees op datagram r
        → (get_elem? ops i ≡ some op) × (occupied i (some j ∷ rest) ≡ true) × Agrees op datagram r
    later (a, o, s) = (a, wider (j == i) (occupied i rest) o, s)

find_answered-none :
    (datagram : Incoming) (r : Response) (slots : List (Option ℕ)) (ops : List Operation)
    → find_answered datagram r slots ops ≡ none
    → (i : ℕ) (op : Operation) → Waits i op slots ops
    → Agrees op datagram r
    → ⊥
unfolding find_answered
find_answered-none datagram r [] ops e i op w x = cc
find_answered-none datagram r (none ∷ rest) ops e i op w x =
    find_answered-none datagram r rest ops e i op w x
find_answered-none datagram r (some j ∷ rest) ops e i op w x =
    elim (Option-cases (get_elem? ops j)) [
      | inl f ↦ elim (Bool-cases (j == i)) [
        | inl q ↦ cc (f, ap (get_elem? ops) ((==_iff j i).0 q), w.0)
        | inr q ↦
            find_answered-none datagram r rest ops (rw (f, find_answered) at e) i op
              (w.0, elsewhere q) x
      ]
      | inr (op', f) ↦ elim (Bool-cases (answers datagram r op')) [
        | inl a ↦ cc (rw (f, a, find_answered) at e)
        | inr a ↦ elim (Bool-cases (j == i)) [
          | inl q ↦
              let same : op' ≡ op =
                some-injective _ _ (sym f ∙ ap (get_elem? ops) ((==_iff j i).0 q) ∙ w.0) in
              cc (a, ap (answers datagram r) same, Agrees-answers datagram r op x)
          | inr q ↦
              find_answered-none datagram r rest ops (rw (f, a, find_answered) at e) i op
                (w.0, elsewhere q) x
        ]
      ]
    ]
  where
    elsewhere : (j == i) ≡ false → occupied i rest ≡ true
    elsewhere q = sym (rw q refl) ∙ w.1

-- A whole datagram that is a reply reaches an operation only if that operation waits in a slot and the
-- reply agrees with it in its ID, its peer and port, its version and its community; where no operation
-- does, the client stays exactly as it was, and where one does, such an operation handles the reply.
pub receive_expected :
    (env : Environment) (datagram : Incoming) (r : Response) (c : Client)
    → is_whole datagram ≡ true
    → parse_from datagram.bytes ≡ some r
    → r.request_type ≡ get_response_pdu
    → (((i : ℕ) (op : Operation) → Waits i op c.slots c.operations → Agrees op datagram r → ⊥)
        × (receive env datagram c ≡ c))
      ⊎ ((i : ℕ) × (op : Operation) × Waits i op c.slots c.operations
          × Agrees op datagram r
          × (receive env datagram c ≡ handle_reply env r i op c))
unfolding receive
receive_expected env datagram r c whole parsed reply =
    elim (Option-cases (find_answered datagram r c.slots c.operations)) [
      | inl e ↦ inl (
        find_answered-none datagram r c.slots c.operations e,
        rw (whole, parsed, reply, e, receive) refl,
      )
      | inr ((i, op), e) ↦
          let (found, held, x) = find_answered-found datagram r c.slots c.operations i op e in
          inr (i, op, (found, held), x, rw (whole, parsed, reply, e, receive) refl)
    ]
