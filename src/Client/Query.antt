-- ===== src/Client/Query.antt =====
-- `SNMPQuery` of src/SNMPClient.h: a range of instances of one column.
use arduino_snmp_manager.Ber.Oid.{decimal, dot}
use arduino_snmp_manager.Ber.Tag.{AsnType}
use arduino_snmp_manager.Client.Operation.{add, canonical, check_write, has_oid}
use arduino_snmp_manager.Client.Types.{
  Operation, SnmpResult, Status, busy, capacity_exceeded, invalid_oid, is_ok, op_pending, success,
}
use arduino_snmp_manager.Common.{
  Bool, List, Option, Option-cases, [], ap, append-nil, append_assoc, arith, false, if◌then◌else◌,
  inl, inr, leb, length, length-append, ltb, none, refl, some, suc, sym, take, take-append, true,
  zero, ℕ, ◌++◌, ◌+◌, ◌-◌, ◌==◌, ◌^◌, ◌||◌, ◌∙◌, ◌∷◌, ◌≡◌,
}
use arduino_snmp_manager.Config.{max_oid_length}
use arduino_snmp_manager.Manager.Counts.{count}

-- `snprintf(name, sizeof(name), "%s.%lu", …)`: the text, where it fits.
unfoldable pub instance_name : List ℕ → ℕ → Option (List ℕ)
unfolding decimal
instance_name column n =
    let text = column ++ dot ∷ decimal n in
    if leb max_oid_length (length text) then none else some text

-- The loop of `addRange`: the operation after the additions, and the status at the end.
unfoldable pub add_each : List ℕ → ℕ → ℕ → AsnType → Operation → Operation × Status
unfolding instance_name add
add_each column first zero expected op = (op, success)
add_each column first (suc left) expected op = elim (instance_name column first) [
  | none ↦ (op, invalid_oid)
  | some name ↦
      (let added = add name expected none op in
        let rest = add_each column (first + 1) left expected added.0 in
        if is_ok added.1 then rest else added)
]

-- `addRange`; `first` is a 32-bit word. A failure cuts the results back.
unfoldable pub add_range : List ℕ → ℕ → ℕ → AsnType → Operation → Operation × Status
unfolding add_each
add_range column first count expected op =
    if op_pending op
    then (op, busy)
    else if ltb (op.capacity - length op.results) count || ltb (2 ^ 32 - 1 - first) (count - 1)
    then (op, capacity_exceeded)
    else (let (op', status) = add_each column first count expected op in
        if is_ok status
        then (op', status)
        else (record op' { results = take (length op.results) op'.results }, status))

-- What a chain of additions leaves: the operation with more results, of the asked number on success.
record Extends (op op' : Operation) (status : Status) (count : ℕ) : Type 0 where
  more : List SnmpResult
  same : op' ≡ record op { results = op.results ++ more }
  full : is_ok status ≡ true → length more ≡ count

if-Extends :
    (op : Operation) (b : Bool) (x y : Operation × Status) (count : ℕ)
    → (b ≡ true → Extends op x.0 x.1 count)
    → (b ≡ false → Extends op y.0 y.1 count)
    → Extends op (if b then x else y).0 (if b then x else y).1 count
if-Extends op true x y count h k = h refl
if-Extends op false x y count h k = k refl

kept-Extends :
    (op : Operation) (status : Status) (count : ℕ)
    → is_ok status ≡ false
    → Extends op op status count
kept-Extends op status count e = record {
  more = [];
  same = ap (λ (r : List SnmpResult). record op { results = r }) (sym (append-nil op.results));
  full = λ k. ground (arith, e, k);
}

add-Extends :
    (text : List ℕ) (expected : AsnType) (op : Operation)
    → let (op', status) = add text expected none op in Extends op op' status 1
unfolding add check_write
add-Extends text expected op =
    if-Extends op (op_pending op) _ _ 1 (λ h. kept-Extends op busy 1 refl)
      (λ idle.
        if-Extends op (length op.results == op.capacity) _ _ 1
          (λ h. kept-Extends op capacity_exceeded 1 refl)
          (λ room. elim (Option-cases (canonical text)) [
            | inl e ↦ rw e (kept-Extends op invalid_oid 1 refl)
            | inr (name, e) ↦ rw e (
                if-Extends op (has_oid name op.results) _ _ 1
                  (λ h. kept-Extends op invalid_oid 1 refl)
                  (λ new. record { more = _ ∷ []; same = refl; full = λ k. refl }))
          ]))

Extends-trans :
    (a b c : Operation) (first status : Status) (n m total : ℕ)
    → total ≡ n + m
    → Extends a b first n
    → is_ok first ≡ true
    → Extends b c status m
    → Extends a c status total
Extends-trans a b c first status n m total sum x ok y = record {
  more = x.more ++ y.more;
  same =
      y.same
      ∙ ap (λ (o : Operation). record o { results = o.results ++ y.more }) x.same
      ∙ ap (λ (r : List SnmpResult). record a { results = r })
          (append_assoc a.results x.more y.more);
  full = λ k. omega (arith, sum, x.full ok, y.full k, length-append x.more y.more);
}

add_each-Extends :
    (column : List ℕ) (first count : ℕ) (expected : AsnType) (op : Operation)
    → let (op', status) = add_each column first count expected op in Extends op op' status count
unfolding add_each
add_each-Extends column first zero expected op = record {
  more = [];
  same = ap (λ (r : List SnmpResult). record op { results = r }) (sym (append-nil op.results));
  full = λ k. refl;
}
add_each-Extends column first (suc left) expected op =
    elim (Option-cases (instance_name column first)) [
      | inl e ↦ rw (e, add_each) (kept-Extends op invalid_oid (suc left) refl)
      | inr (name, e) ↦
          rw (e, add_each)
            (if-Extends op (is_ok (add name expected none op).1) _ _ (suc left)
              (λ ok.
                Extends-trans op (add name expected none op).0 _ (add name expected none op).1 _ 1
                  left (suc left) (omega arith) (add-Extends name expected op) ok
                  (add_each-Extends column (first + 1) left expected (add name expected none op).0))
              (λ refused.
                let x = add-Extends name expected op in
                record { more = x.more; same = x.same; full = λ k. ground (arith, refused, k) }))
    ]

-- Adding a range is all or nothing: where it fails the operation is as before, and where it succeeds
-- there are as many more results as were asked for, behind the old ones, and nothing else changes.
pub add_range_all_or_nothing :
    (column : List ℕ) (first count : ℕ) (expected : AsnType) (op : Operation)
    → let (op', status) = add_range column first count expected op in
      (is_ok status ≡ false → op' ≡ op)
      × (is_ok status ≡ true
          → (more : List SnmpResult) × (op' ≡ record op { results = op.results ++ more })
            × (length more ≡ count))
unfolding add_range
add_range_all_or_nothing column first count expected op =
    by_tests (op_pending op)
      (ltb (op.capacity - length op.results) count || ltb (2 ^ 32 - 1 - first) (count - 1))
      (is_ok (add_each column first count expected op).1) refl
  where
    by_tests :
        (b b' ok : Bool)
        → is_ok (add_each column first count expected op).1 ≡ ok
        → let (new, final) = add_each column first count expected op in
          let done : Operation × Status =
            if b
            then (op, busy)
            else if b'
            then (op, capacity_exceeded)
            else if ok
            then (new, final)
            else (record new { results = take (length op.results) new.results }, final) in
          (is_ok done.1 ≡ false → done.0 ≡ op)
          × (is_ok done.1 ≡ true
              → (more : List SnmpResult) × (done.0 ≡ record op { results = op.results ++ more })
                × (length more ≡ count))
    by_tests true b' ok e = (λ h. refl, λ h. cc)
    by_tests false true ok e = (λ h. refl, λ h. cc)
    by_tests false false true e =
        let x = add_each-Extends column first count expected op in
        (λ h. absurd (ground (arith, e, h)), λ h. (x.more, x.same, x.full e))
    by_tests false false false e =
        let x = add_each-Extends column first count expected op in
        (
          λ h.
              ap (λ (o : Operation). record o { results = take (length op.results) o.results })
                x.same
              ∙ ap (λ (r : List SnmpResult). record op { results = r })
                  (take-append op.results x.more),
          λ h. absurd (ground (arith, e, h)),
        )
