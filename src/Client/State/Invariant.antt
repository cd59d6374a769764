-- ===== src/Client/State/Invariant.antt =====
-- What holds of a client between calls: the slots and the operations agree.
use arduino_snmp_manager.Client.Notify.{Notification}
use arduino_snmp_manager.Client.Operation.{finished}
use arduino_snmp_manager.Client.State.{
  Client, Environment, NotificationHandler, finish, holds_op, remove, store,
}
use arduino_snmp_manager.Client.Types.{Operation, SnmpResult, Status, is_pending, op_pending}
use arduino_snmp_manager.Common.{
  ==_refl, Bool, List, Option, Option-cases, [], ap, arith, false, get_elem?, get_elem?-set,
  get_elem?-set_same, if◌then◌else◌, inl, inr, length, length-set, none, not, refl, set, set-set,
  some, suc, sym, true, ℕ, ◌&&◌, ◌+◌, ◌-◌, ◌<◌, ◌==◌, ◌^◌, ◌||◌, ◌∙◌, ◌∷◌, ◌≡◌, ◌≢◌, ◌≤◌,
}
use arduino_snmp_manager.Config.{snmp_max_pending_requests}

abbrev pub occupied : ℕ → List (Option ℕ) → Bool
occupied i [] = false
occupied i (slot ∷ rest) = holds_op i slot || occupied i rest

-- How many slots hold an operation.
abbrev pub times : ℕ → List (Option ℕ) → ℕ
times i [] = 0
times i (slot ∷ rest) = (if holds_op i slot then 1 else 0) + times i rest

-- The array keeps its size; an operation is in at most one slot, in one exactly while it is pending,
-- and slots hold existing operations; a pending operation that was sent asked for something; request IDs come from the counter, which fits an `int32_t`.
pub record IsClient (c : Client) : Type 0 where
  pub sized : length c.slots ≡ snmp_max_pending_requests
  pub once : (i : ℕ) → times i c.slots ≤ 1
  pub agree :
      (i : ℕ) (op : Operation)
      → get_elem? c.operations i ≡ some op
      → op_pending op ≡ occupied i c.slots
  pub there : (i : ℕ) → occupied i c.slots ≡ true → i < length c.operations
  pub ids : (i : ℕ) (op : Operation) → get_elem? c.operations i ≡ some op → op.id ≤ c.next_id
  pub batched :
      (i : ℕ) (op : Operation)
      → get_elem? c.operations i ≡ some op
      → op_pending op ≡ true
      → op.sent ≡ true
      → 0 < op.batch
  pub counter : c.next_id ≤ 2 ^ 31 - 1

-- The application's handlers leave the client in such a state.
pub record Respects (env : Environment) : Type 0 where
  pub complete_kept : (i : ℕ) (c : Client) → IsClient c → IsClient (env.on_complete i c)
  pub value_kept :
      (i : ℕ) (result : SnmpResult) (c : Client) → IsClient c → IsClient (env.on_value i result c).0
  pub notice_kept :
      (handler : NotificationHandler) (event : Notification) (c : Client)
      → env.listener.handler ≡ some handler
      → IsClient c
      → IsClient (handler event c).0

-- By the branches of a test.
pub if-IsClient :
    (b : Bool) (c c' : Client)
    → (b ≡ true → IsClient c)
    → (b ≡ false → IsClient c')
    → IsClient (if b then c else c')
if-IsClient true c c' first second = first refl
if-IsClient false c c' first second = second refl

length-remove : (i : ℕ) (slots : List (Option ℕ)) → length (remove i slots) ≡ length slots
unfolding remove
length-remove i [] = refl
length-remove i (slot ∷ rest) = ap suc (length-remove i rest)

times-remove : (i j : ℕ) (slots : List (Option ℕ)) → times j (remove i slots) ≤ times j slots
unfolding remove
times-remove i j [] = omega arith
times-remove i j (none ∷ rest) = ground (arith, times-remove i j rest)
times-remove i j (some k ∷ rest) = ground (arith, times-remove i j rest)

pub occupied-remove :
    (i j : ℕ) (slots : List (Option ℕ))
    → occupied j (remove i slots) ≡ (occupied j slots && not (j == i))
unfolding remove
occupied-remove i j [] = refl
occupied-remove i j (none ∷ rest) = ground (arith, occupied-remove i j rest)
occupied-remove i j (some k ∷ rest) = ground (arith, occupied-remove i j rest)

-- Writing back an operation that is as pending as before.
pub store-IsClient :
    (i : ℕ) (op op' : Operation) (c : Client)
    → IsClient c
    → get_elem? c.operations i ≡ some op
    → op_pending op' ≡ op_pending op
    → op'.id ≤ c.next_id
    → (op_pending op' ≡ true → op'.sent ≡ true → 0 < op'.batch)
    → IsClient (store i op' c)
store-IsClient i op op' c v found same known ready = record {
  batched = λ j o e. elim (get_elem?-set c.operations i j op' o e) [
    | inl (p, q) ↦ rw q ready
    | inr (p, q) ↦ v.batched j o q
  ];
  sized = v.sized;
  once = v.once;
  agree = λ j o e. elim (get_elem?-set c.operations i j op' o e) [
    | inl (p, q) ↦ rw (p, q) (same ∙ v.agree i op found)
    | inr (p, q) ↦ v.agree j o q
  ];
  there = λ j h. omega (arith, v.there j h, length-set c.operations i op');
  ids = λ j o e. elim (get_elem?-set c.operations i j op' o e) [
    | inl (p, q) ↦ rw q known
    | inr (p, q) ↦ v.ids j o q
  ];
  counter = v.counter;
}

settled_pending :
    (status : Status) (op : Operation) → op_pending (finished status op) ≡ is_pending status
unfolding finished
settled_pending status op = refl

finished_id : (status : Status) (op : Operation) → (finished status op).id ≡ op.id
unfolding finished
finished_id status op = refl

-- Releasing the slot with the final status, for the operation as its last step left it.
released-IsClient :
    (i : ℕ) (status : Status) (op : Operation) (c : Client)
    → IsClient c
    → op.id ≤ c.next_id
    → is_pending status ≡ false
    → IsClient (record c {
      slots = remove i c.slots;
      operations = set c.operations i (finished status op);
    })
released-IsClient i status op c v known final = record {
  batched = λ j o e p. elim (get_elem?-set c.operations i j (finished status op) o e) [
    | inl (q, r) ↦
        absurd (settled_not (finished status op) o r p (settled_pending status op ∙ final))
    | inr (q, r) ↦ v.batched j o r p
  ];
  sized = length-remove i c.slots ∙ v.sized;
  once = λ j. omega (arith, times-remove i j c.slots, v.once j);
  agree = λ j o e. elim (get_elem?-set c.operations i j (finished status op) o e) [
    | inl (p, q) ↦
        rw (p, q)
          (settled_pending status op
            ∙ final
            ∙ sym (occupied-remove i i c.slots ∙ rw ==_refl (ground arith)))
    | inr (p, q) ↦
        v.agree j o q ∙ sym (occupied-remove i j c.slots ∙ other i j (occupied j c.slots) p)
  ];
  there = λ j h. omega (
    arith,
    v.there j (ground (arith, occupied-remove i j c.slots)),
    length-set c.operations i (finished status op),
  );
  ids = λ j o e. elim (get_elem?-set c.operations i j (finished status op) o e) [
    | inl (p, q) ↦ rw q (rw finished_id known)
    | inr (p, q) ↦ v.ids j o q
  ];
  counter = v.counter;
}
  where
    settled_not : (op' o : Operation) → o ≡ op' → op_pending o ≡ true → op_pending op' ≡ false → ⊥
    settled_not op' o r p e = cc

    other : (i j : ℕ) (b : Bool) → j ≢ i → (b && not (j == i)) ≡ b
    other i j b p = ground arith

-- Finishing an operation with a final status keeps the slots and the operations in agreement, where
-- the completion handler keeps them so.
pub finish-IsClient :
    (env : Environment) (i : ℕ) (status : Status) (c : Client)
    → Respects env
    → IsClient c
    → is_pending status ≡ false
    → IsClient (finish env i status c)
unfolding finish
finish-IsClient env i status c good v final = elim (Option-cases (get_elem? c.operations i)) [
  | inl e ↦ rw (e, finish) v
  | inr (op, e) ↦
      rw (e, finish)
        (good.complete_kept i _ (released-IsClient i status op c v (v.ids i op e) final))
]

-- The same for an operation that is written back with other fields before it finishes.
pub stopped-IsClient :
    (env : Environment) (i : ℕ) (status : Status) (op op' : Operation) (c : Client)
    → Respects env
    → IsClient c
    → get_elem? c.operations i ≡ some op
    → op'.id ≤ c.next_id
    → is_pending status ≡ false
    → IsClient (finish env i status (store i op' c))
unfolding finish
stopped-IsClient env i status op op' c good v found known final =
    rw
      (
        get_elem?-set_same c.operations i op' op found,
        set-set c.operations i op' (finished status op'),
        finish,
      )
      (good.complete_kept i _ (released-IsClient i status op' c v known final))
