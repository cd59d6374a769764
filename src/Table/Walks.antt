-- ===== src/Table/Walks.antt =====
-- A table of src/SNMPTable.h and its client: the walks that the table starts, and a cancelled one.
use arduino_snmp_manager.Ber.Tag.{nulltype}
use arduino_snmp_manager.Client.Operation.{add, first_oid, overwrite_first, set_root}
use arduino_snmp_manager.Client.State.{Client, Environment, finish, store}
use arduino_snmp_manager.Client.State.Admission.{schedule-IsClient}
use arduino_snmp_manager.Client.State.Invariant.{
  IsClient, Respects, finish-IsClient, store-IsClient,
}
use arduino_snmp_manager.Client.Types.{
  Operation, Status, busy, cancelled, capacity_exceeded, code, invalid_configuration, is_ok,
  is_pending, op_pending,
}
use arduino_snmp_manager.Common.{
  Bool, List, Option-cases, [], ap, arith, false, get_elem?, get_elem?-set_same, if◌then◌else◌, inl,
  inr, length, ltb, none, not, refl, sym, true, ℕ, ◌+◌, ◌==◌, ◌||◌, ◌∙◌, ◌≡◌,
}
use arduino_snmp_manager.Table.{
  TableRead, advance_table, cancel_table, concluded, continue_with, fallback_at, launch,
  next_column, oid_at, start, table_pending, wants_fallback,
}

abbrev kept_by : Bool → Operation × Status → Operation × Status → Operation
kept_by b x y = (if b then x else y).0

-- `setRoot` leaves what the scheduler looks at.
set_root_kept :
    (root : List ℕ) (op : Operation)
    → let op' = (set_root root op).0 in
      (op'.status ≡ op.status) × (op'.id ≡ op.id) × (op'.sent ≡ op.sent) × (op'.batch ≡ op.batch)
unfolding set_root
set_root_kept root op =
    by_tests (op_pending op) (is_ok (add root nulltype none (record op { results = [] })).1)
  where
    by_tests :
        (b b' : Bool)
        → let (new, status) = add root nulltype none (record op { results = [] }) in
          let accepted : Operation × Status = (
            record op {
              root = first_oid new.results;
              results = overwrite_first new.results op.results;
            },
            status,
          ) in
          let op' = kept_by b (op, busy) (if b' then accepted else (op, status)) in
          (op'.status ≡ op.status)
          × (op'.id ≡ op.id)
          × (op'.sent ≡ op.sent)
          × (op'.batch ≡ op.batch)
    by_tests true b' = (refl, refl, refl, refl)
    by_tests false true = (refl, refl, refl, refl)
    by_tests false false = (refl, refl, refl, refl)

launch-IsClient : (root : List ℕ) (i : ℕ) (c : Client) → IsClient c → IsClient (launch root i c).0
unfolding launch
launch-IsClient root i c v = elim (Option-cases (get_elem? c.operations i)) [
  | inl e ↦ rw (e, launch) v
  | inr (op, e) ↦
      let op' = (set_root root op).0 in
      let (same, id, sent, batch) = set_root_kept root op in
      let stored : IsClient (store i op' c) =
        store-IsClient i op op' c v e (ap is_pending same) (omega (arith, id, v.ids i op e)) (λ p s.
          omega (arith, batch, v.batched i op e (sym (ap is_pending same) ∙ p) (sym sent ∙ s))) in
      rw (e, launch)
        (schedule-IsClient i op' (store i op' c) stored
          (get_elem?-set_same c.operations i op' op e))
]

continue_with-IsClient :
    (root : List ℕ) (t : TableRead) (c : Client) → IsClient c → IsClient (continue_with root t c).1
unfolding continue_with
continue_with-IsClient root t c v = launch-IsClient root t.walk c v

if-snd :
    (b : Bool) (x y : TableRead × Client)
    → IsClient x.1
    → IsClient y.1
    → IsClient (if b then x else y).1
if-snd true x y h k = h
if-snd false x y h k = k

advance_table-IsClient :
    (status : Status) (t : TableRead) (c : Client)
    → IsClient c
    → IsClient (advance_table status t c).1
unfolding advance_table next_column
advance_table-IsClient status t c v =
    let next : TableRead = record t {
      using_fallback = false;
      column_errors = t.column_errors || not (is_ok status);
      current = t.current + 1;
    } in
    if-snd ((code status == code cancelled) || (code status == code capacity_exceeded))
      (concluded status t, c) _ v
      (if-snd (wants_fallback status t)
        (continue_with (fallback_at t.current t.columns) (record t { using_fallback = true }) c) _
        (continue_with-IsClient (fallback_at t.current t.columns)
          (record t { using_fallback = true }) c v)
        (if-snd (ltb (t.current + 1) (length t.columns))
          (continue_with (oid_at (t.current + 1) t.columns) next c) _
          (continue_with-IsClient (oid_at (t.current + 1) t.columns) next c v) v))

start-IsClient : (t : TableRead) (c : Client) → IsClient c → IsClient (start t c).1
unfolding start
start-IsClient t c v =
    let launched = launch (oid_at 0 t.columns) t.walk c in
    let kept = launch-IsClient (oid_at 0 t.columns) t.walk c v in
    if-client (table_pending t) (t, c, busy) _ v
      (if-client (length t.columns == 0) (t, c, invalid_configuration) _ v
        (if-client (not (is_ok launched.1)) (t, launched.0, launched.1) _ kept kept))
  where
    if-client :
        (b : Bool) (x y : TableRead × Client × Status)
        → IsClient x.1
        → IsClient y.1
        → IsClient (if b then x else y).1
    if-client true x y h k = h
    if-client false x y h k = k

cancel_table-IsClient :
    (env : Environment) (t : TableRead) (c : Client)
    → Respects env
    → IsClient c
    → IsClient (cancel_table env t c).1
unfolding cancel_table
cancel_table-IsClient env t c good v =
    if-snd (not (table_pending t)) (t, c) _ v
      (elim (Option-cases (get_elem? c.operations t.walk)) [
        | inl e ↦ rw e v
        | inr (op, e) ↦ rw e (
            if-snd (not (op_pending op)) (t, c) _ v
              (advance_table-IsClient cancelled t
                (finish (record env { on_complete = λ j c'. c' }) t.walk cancelled c)
                (finish-IsClient (record env { on_complete = λ j c'. c' }) t.walk cancelled c
                  (record {
                    complete_kept = λ j c' w. w;
                    value_kept = good.value_kept;
                    notice_kept = good.notice_kept;
                  })
                  v refl)))
      ])

-- A table that is started, one whose walk ends with any status (its completion handler may schedule a
-- fallback or the next column), and one that is cancelled, all keep the client's slots and operations
-- in agreement, where the application's handlers keep them so.
pub table_calls-IsClient :
    (env : Environment) (status : Status) (t : TableRead) (c : Client)
    → Respects env
    → IsClient c
    → IsClient (start t c).1
      × IsClient (advance_table status t c).1
      × IsClient (cancel_table env t c).1
table_calls-IsClient env status t c good v = (
  start-IsClient t c v,
  advance_table-IsClient status t c v,
  cancel_table-IsClient env t c good v,
)
