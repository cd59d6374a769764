-- ===== src/Client/Receive/Invariant.antt =====
-- `SNMPClient::receive` of src/SNMPClient.cpp keeps the slots and the operations in agreement.
use arduino_snmp_manager.Ber.Complex.{type_of}
use arduino_snmp_manager.Ber.Tag.{endofmibview, get_bulk_request_pdu, get_response_pdu, same_type}
use arduino_snmp_manager.Client.Notify.Hear.{hear-IsClient}
use arduino_snmp_manager.Client.Receive.{
  Incoming, Step, Verdict, agent_error_verdict, below_root, continue, find_answered, finish_with,
  handle_reply, settle_verdict, is_whole, query_verdict, receive, stop, stream_walk, take_value,
  walk_step, walk_verdict,
}
use arduino_snmp_manager.Client.Receive.Context.{find_answered-found}
use arduino_snmp_manager.Client.Receive.Verdicts.{
  AreKept, IsKept, agent_error_verdict-AreKept, query_verdict-IsKept,
}
use arduino_snmp_manager.Client.State.{Client, Environment, store}
use arduino_snmp_manager.Client.State.Invariant.{
  IsClient, Respects, finish-IsClient, if-IsClient, stopped-IsClient, store-IsClient,
}
use arduino_snmp_manager.Client.Types.{
  Operation, SnmpResult, Status, capacity_exceeded, is_pending, op_pending,
}
use arduino_snmp_manager.Client.Wire.{Order, above, below, compare_oid, equal}
use arduino_snmp_manager.Common.{
  Bool, Bool-cases, List, Option-cases, [], arith, false, get_elem?, get_elem?-set_same,
  if◌then◌else◌, inl, inr, length, not, refl, some, subst, true, ℕ, ◌++◌, ◌==◌, ◌||◌, ◌∙◌, ◌∷◌, ◌≡◌,
  ◌⊎◌,
}
use arduino_snmp_manager.Response.{Response, VarBind, parse_from}

Order-cases : (o : Order) → (o ≡ below) ⊎ (o ≡ equal) ⊎ (o ≡ above)
Order-cases below = inl refl
Order-cases equal = inr (inl refl)
Order-cases above = inr (inr refl)

-- A binding that stops a walk gives it a final status.
abbrev IsFinal : Step → Type 0
IsFinal (stop status) = is_pending status ≡ false
IsFinal (take_value result) = Unit

if-IsFinal :
    (b : Bool) (first second : Step)
    → IsFinal first
    → IsFinal second
    → IsFinal (if b then first else second)
if-IsFinal true first second h k = h
if-IsFinal false first second h k = k

walk_step-IsFinal : (op : Operation) (b : VarBind) → IsFinal (walk_step op b)
unfolding walk_step
walk_step-IsFinal op b =
    if-IsFinal (same_type (type_of b.value) endofmibview) _ _ refl
      (elim (Order-cases (compare_oid b.oid_text op.cursor)) [
        | inl e ↦ rw e refl
        | inr (inl e) ↦ rw e refl
        | inr (inr e) ↦ rw e (if-IsFinal (not (below_root op.root b.oid_text)) _ _ refl tt)
      ])

Step-cases :
    (s : Step)
    → ((status : Status) × (s ≡ stop status)) ⊎ ((result : SnmpResult) × (s ≡ take_value result))
Step-cases (stop status) = inl (status, refl)
Step-cases (take_value result) = inr (result, refl)

walk_verdict-IsKept :
    (seen : Bool) (op : Operation) (binds : List VarBind) → IsKept op (walk_verdict seen op binds)
unfolding walk_verdict
walk_verdict-IsKept true op [] = (refl, refl, refl)
walk_verdict-IsKept false op [] = elim (Bool-cases (same_type op.mode get_bulk_request_pdu)) [
  | inl e ↦ rw e (refl, refl, refl)
  | inr e ↦ rw e (refl, refl)
]
walk_verdict-IsKept seen op (b ∷ binds) = elim (Step-cases (walk_step op b)) [
  | inl (status, e) ↦ rw (e, walk_verdict) (refl, subst IsFinal e (walk_step-IsFinal op b))
  | inr (result, e) ↦
      rw (e, walk_verdict)
        (elim (Bool-cases (length op.results == op.capacity)) [
          | inl full ↦ rw full (refl, refl)
          | inr room ↦ rw room (
              walk_verdict-IsKept true
                (record op { results = op.results ++ (result ∷ []); cursor = b.oid_text }) binds)
        ])
]

module _ (env : Environment) (good : Respects env) where
  settle_verdict-IsClient :
      (i : ℕ) (op op' : Operation) (verdict : Verdict) (c : Client)
      → IsClient c
      → get_elem? c.operations i ≡ some op
      → op_pending op' ≡ op_pending op
      → op'.id ≡ op.id
      → IsKept op' verdict
      → IsClient (settle_verdict env i verdict c)
  settle_verdict-IsClient i op op' (continue op'') c v found same kept (p, q, r) =
      store-IsClient i op op'' c v found (p ∙ same) (omega (arith, q, kept, v.ids i op found))
        (λ x y. cc)
  settle_verdict-IsClient i op op' (finish_with op'' status) c v found same kept (q, final) =
      stopped-IsClient env i status op op'' c good v found
        (omega (arith, q, kept, v.ids i op found)) final

  stream_walk-IsClient :
      (i : ℕ) (seen : Bool) (binds : List VarBind) (op : Operation) (c : Client)
      → IsClient c
      → get_elem? c.operations i ≡ some op
      → IsClient (stream_walk env i seen binds op c)
  unfolding stream_walk
  stream_walk-IsClient i seen [] op c v found =
      settle_verdict-IsClient i op op (walk_verdict seen op []) c v found refl refl
        (walk_verdict-IsKept seen op [])
  stream_walk-IsClient i seen (b ∷ binds) op c v found = elim (Step-cases (walk_step op b)) [
    | inl (status, e) ↦
        rw (e, stream_walk)
          (finish-IsClient env i status c good v (subst IsFinal e (walk_step-IsFinal op b)))
    | inr (result, e) ↦
        rw (e, stream_walk)
          (let after = env.on_value i result c in
            let kept = good.value_kept i result c v in
            if-IsClient (not after.1) _ _
              (λ refused. finish-IsClient env i capacity_exceeded after.0 good kept refl)
              (λ accepted. elim (Option-cases (get_elem? after.0.operations i)) [
                | inl f ↦ rw f kept
                | inr (op', f) ↦ rw f (
                    let op'' = record op' { cursor = b.oid_text } in
                    if-IsClient (not (op_pending op') || not (op'.id == op.id)) _ _ (λ gone. kept)
                      (λ same.
                        stream_walk-IsClient i true binds op'' (store i op'' after.0)
                          (store-IsClient i op' op'' after.0 kept f refl (kept.ids i op' f)
                            (kept.batched i op' f))
                          (get_elem?-set_same after.0.operations i op'' op' f)))
              ]))
  ]

  handle_reply-IsClient :
      (r : Response) (i : ℕ) (op : Operation) (c : Client)
      → IsClient c
      → get_elem? c.operations i ≡ some op
      → op_pending op ≡ true
      → op.sent ≡ true
      → IsClient (handle_reply env r i op c)
  unfolding handle_reply
  handle_reply-IsClient r i op c v found waiting sent =
      let op' = record op { agent_error = r.error_status; agent_error_index = r.error_index } in
      elim (Option-cases (agent_error_verdict op' r)) [
        | inr (verdict, e) ↦
            rw (e, handle_reply)
              (settle_verdict-IsClient i op op' verdict c v found refl refl
                (subst (AreKept op') e (agent_error_verdict-AreKept op' r)))
        | inl e ↦
            rw (e, handle_reply)
              (if-IsClient (not op.walking) _ _
                (λ read.
                  settle_verdict-IsClient i op op' (query_verdict op' r.var_binds) c v found refl
                    refl (query_verdict-IsKept op' r.var_binds (v.batched i op found waiting sent)))
                (λ walk.
                  if-IsClient op.streaming _ _
                    (λ stream.
                      stream_walk-IsClient i false r.var_binds op' (store i op' c)
                        (store-IsClient i op op' c v found refl (v.ids i op found)
                          (v.batched i op found))
                        (get_elem?-set_same c.operations i op' op found))
                    (λ keep.
                      settle_verdict-IsClient i op op' (walk_verdict false op' r.var_binds) c v
                        found refl refl (walk_verdict-IsKept false op' r.var_binds))))
      ]

-- A datagram, whatever its bytes, keeps the slots and the operations in agreement, where the
-- application's handlers keep them so.
pub receive-IsClient :
    (env : Environment) (datagram : Incoming) (c : Client)
    → Respects env
    → IsClient c
    → IsClient (receive env datagram c)
unfolding receive
receive-IsClient env datagram c good v = elim (Bool-cases (is_whole datagram)) [
  | inr e ↦ rw (e, receive) v
  | inl e ↦ elim (Option-cases (parse_from datagram.bytes)) [
    | inl f ↦
        rw (e, f, receive) (hear-IsClient env datagram.peer datagram.port datagram.bytes c good v)
    | inr (r, f) ↦
        rw (e, f, receive)
          (if-IsClient (not (same_type r.request_type get_response_pdu)) _ _
            (λ other. hear-IsClient env datagram.peer datagram.port datagram.bytes c good v)
            (λ reply. elim (Option-cases (find_answered datagram r c.slots c.operations)) [
              | inl g ↦ rw g v
              | inr ((i, op), g) ↦ rw g (
                  let (found, held, matched) =
                    find_answered-found datagram r c.slots c.operations i op g in
                  handle_reply-IsClient env good r i op c v found (v.agree i op found ∙ held)
                    matched.sent)
            ]))
  ]
]
