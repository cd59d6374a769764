-- ===== src/Client/State/Admission.antt =====
-- Admission: what `schedule` and `begin` do on every branch.
use arduino_snmp_manager.Common.{
  ℕ, zero, suc, ◌+◌, ◌≤◌, ◌≡◌, refl, sym, ap, ◌∙◌, subst, ◌≢◌, inl, inr, Bool, true, false, ◌||◌,
  Option, none, some, List, [], ◌∷◌, arith, length, set, get_elem?, length-set, get_elem?-set,
  get_elem?-lt, ◌==◌, if◌then◌else◌, ==_iff, Bool-cases, Option-cases, >>=-eq-some,
}
use mathlib.Core.Option.{some-injective}
use arduino_snmp_manager.Client.Types.{is_ok, Operation, op_pending}
use arduino_snmp_manager.Client.Operation.{admitted}
use arduino_snmp_manager.Client.State.{Client, misconfigured, reserve, schedule}
use arduino_snmp_manager.Client.State.Invariant.{occupied, times, IsClient}

-- A start that is refused, for any reason, leaves the client, with all results, exactly as it was.
pub schedule_refused :
    (i : ℕ) (op : Operation) (c : Client)
    → is_ok (schedule i op c).1 ≡ false
    → (schedule i op c).0 ≡ c
unfolding schedule
schedule_refused i op c h = ground arith

times-reserve :
    (i j : ℕ) (slots slots' : List (Option ℕ))
    → reserve i slots ≡ some slots'
    → (times j slots' ≡ (if i == j then 1 else 0) + times j slots)
      × (occupied j slots' ≡ ((i == j) || occupied j slots))
      × (length slots' ≡ length slots)
unfolding reserve
times-reserve i j [] slots' e = cc
times-reserve i j (none ∷ rest) slots' e = rw (sym (some-injective _ _ e)) (ground arith)
times-reserve i j (some k ∷ rest) slots' e =
    let (rest', found, whole) = >>=-eq-some (reserve i rest) _ e in
    let (t, o, l) = times-reserve i j rest rest' found in
    rw (sym (some-injective _ _ whole)) (ground (arith, t), ground (arith, o), ap suc l)

-- The scan finds a slot exactly when one is free.
pub reserve-none_iff :
    (i : ℕ) (slots : List (Option ℕ))
    → (reserve i slots ≡ none)
    → (j : ℕ) → get_elem? slots j ≢ some none
unfolding reserve
reserve-none_iff i [] e j p = cc
reserve-none_iff i (none ∷ rest) e j p = cc
reserve-none_iff i (some k ∷ rest) e zero p = cc
reserve-none_iff i (some k ∷ rest) e (suc j) p = elim (Option-cases (reserve i rest)) [
  | inl q ↦ reserve-none_iff i rest q j p
  | inr (rest', q) ↦ cc (rw q at e)
]

times-occupied : (i : ℕ) (slots : List (Option ℕ)) → occupied i slots ≡ false → times i slots ≡ 0
times-occupied i [] h = refl
times-occupied i (none ∷ rest) h = ground (arith, times-occupied i rest)
times-occupied i (some k ∷ rest) h = ground (arith, times-occupied i rest)

admitted_unsent : (op o : Operation) → o ≡ admitted op → o.sent ≡ true → ⊥
unfolding admitted
admitted_unsent op o e s = cc (ap (λ (x : Operation). x.sent) e)

admitted_pending : (op : Operation) → (op_pending (admitted op) ≡ true) × ((admitted op).id ≡ 0)
unfolding admitted
admitted_pending op = (refl, refl)

-- What an accepted start was given, and what it left.
pub record Accepted (i : ℕ) (op : Operation) (c : Client) : Type 0 where
  pub slots : List (Option ℕ)
  pub idle : op_pending op ≡ false
  pub begun : c.begun ≡ true
  pub device_ok : is_ok op.device.status ≡ true
  pub configured : misconfigured op ≡ false
  pub reserved : reserve i c.slots ≡ some slots
  pub state :
      (schedule i op c).0
      ≡ record c { slots = slots; operations = set c.operations i (admitted op) }

-- A start succeeds only for an idle, well configured operation of a started client with a free slot,
-- and then the client differs in that slot and in the restarted operation.
pub schedule-Accepted :
    (i : ℕ) (op : Operation) (c : Client) → is_ok (schedule i op c).1 ≡ true → Accepted i op c
unfolding schedule
schedule-Accepted i op c h = elim (Bool-cases (op_pending op)) [
  | inl p ↦ cc (rw p at h)
  | inr p ↦ elim (Bool-cases c.begun) [
    | inr b ↦ cc (rw (p, b) at h)
    | inl b ↦ elim (Bool-cases (is_ok op.device.status)) [
      | inr d ↦ cc (d, (rw (p, b, d) at h))
      | inl d ↦ elim (Bool-cases (misconfigured op)) [
        | inl m ↦ cc (rw (p, b, d, m) at h)
        | inr m ↦ elim (Option-cases (reserve i c.slots)) [
          | inl e ↦ cc (rw (p, b, d, m, e) at h)
          | inr (slots, e) ↦ record {
            slots = slots;
            idle = p;
            begun = b;
            device_ok = d;
            configured = m;
            reserved = e;
            state = ground (arith, p, b, d, m, e);
          }
        ]
      ]
    ]
  ]
]

once_taken : (i j n m : ℕ) → m ≡ (if i == j then 1 else 0) + n → n ≤ 1 → (i ≡ j → n ≡ 0) → m ≤ 1
once_taken i j n m e h z = ground (arith, z)

module _ (i : ℕ) (op : Operation) (c : Client) (v : IsClient c)
    (found : get_elem? c.operations i ≡ some op) where
  taken-IsClient :
      (slots : List (Option ℕ))
      → op_pending op ≡ false
      → reserve i c.slots ≡ some slots
      → IsClient (record c { slots = slots; operations = set c.operations i (admitted op) })
  taken-IsClient slots idle e =
      let law = λ (j : ℕ). times-reserve i j c.slots slots e in
      let free : times i c.slots ≡ 0 = times-occupied i c.slots (sym (v.agree i op found) ∙ idle) in
      record {
        sized = (law 0).2 ∙ v.sized;
        once = λ j.
            once_taken i j (times j c.slots) (times j slots) (law j).0 (v.once j)
              (λ p. rw (sym p) free);
        agree = λ j o q. elim (get_elem?-set c.operations i j (admitted op) o q) [
          | inl (p, r) ↦
              rw r ((admitted_pending op).0 ∙ sym ((law j).1 ∙ held i j (occupied j c.slots) p))
          | inr (p, r) ↦ v.agree j o r ∙ sym ((law j).1 ∙ other i j (occupied j c.slots) p)
        ];
        there = λ j h. elim (Bool-cases (i == j)) [
          | inl p ↦
              rw (sym ((==_iff i j).0 p), length-set c.operations i (admitted op))
                (get_elem?-lt c.operations i op found)
          | inr p ↦
              rw (length-set c.operations i (admitted op))
                (v.there j (sym (missed i j (occupied j c.slots) p) ∙ sym (law j).1 ∙ h))
        ];
        ids = λ j o q. elim (get_elem?-set c.operations i j (admitted op) o q) [
          | inl (p, r) ↦ omega (arith, ap (λ (x : Operation). x.id) r, (admitted_pending op).1)
          | inr (p, r) ↦ v.ids j o r
        ];
        batched = λ j o q p s. elim (get_elem?-set c.operations i j (admitted op) o q) [
          | inl (e, r) ↦ absurd (admitted_unsent op o r s)
          | inr (e, r) ↦ v.batched j o r p s
        ];
        counter = v.counter;
      }
    where
      held : (i j : ℕ) (b : Bool) → j ≡ i → ((i == j) || b) ≡ true
      held i j b p = ground arith

      other : (i j : ℕ) (b : Bool) → j ≢ i → ((i == j) || b) ≡ b
      other i j b p = ground arith

      missed : (i j : ℕ) (b : Bool) → (i == j) ≡ false → ((i == j) || b) ≡ b
      missed i j b p = rw p refl

  -- Scheduling an operation of the client, accepted or refused, keeps the slots and the operations in
  -- agreement: the array keeps its size, and an operation is in one slot exactly while it is pending.
  pub schedule-IsClient : IsClient (schedule i op c).0
  schedule-IsClient = elim (Bool-cases (is_ok (schedule i op c).1)) [
    | inr refused ↦ subst IsClient (sym (schedule_refused i op c refused)) v
    | inl accepted ↦
        let a = schedule-Accepted i op c accepted in
        subst IsClient (sym a.state) (taken-IsClient a.slots a.idle a.reserved)
  ]
