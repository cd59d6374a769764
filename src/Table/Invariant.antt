-- ===== src/Table/Invariant.antt =====
-- What holds of a table of src/SNMPTable.h through all its operations.
use arduino_snmp_manager.Ber.Tag.{AsnType}
use arduino_snmp_manager.Client.Operation.{canonical}
use arduino_snmp_manager.Client.State.{Client, Environment, finish}
use arduino_snmp_manager.Client.Types.{
  SnmpResult, Status, busy, cancelled, capacity_exceeded, code, invalid_configuration, is_ok,
  is_pending, op_pending, partial, pending, success,
}
use arduino_snmp_manager.Common.{
  All-get_elem?, All-set, Bool, List, Option, Option-cases, [], arith, false, get_elem?,
  if◌then◌else◌, inl, inr, length, length-append, length-set, ltb, ltb→lt, not, refl, set, some,
  subst, suc, sym, true, zero, ℕ, ◌+◌, ◌<◌, ◌==◌, ◌>>=◌, ◌||◌, ◌∙◌, ◌∷◌, ◌≡◌,
}
use arduino_snmp_manager.Table.{
  Column, TableRead, add_column, advance_table, alternative, cancel_table, columns_ok, concluded,
  consume_result, continue_with, expected_of, fallback_at, fill_at, fill_row, filled_cell, find_row,
  has_column, index_of_result, launch, next_column, oid_at, start, table_pending, wants_fallback,
}
use arduino_snmp_manager.Table.Cells.{index-fill_row, length-fill_row}
use arduino_snmp_manager.Table.Join.{
  Consumed, IsTable, Once, consume_result-Consumed, fills, indices-set, refuses,
}
use arduino_snmp_manager.Table.Rows.{fill_at-some, find_row-Found}

fill_at-IsTable :
    (result : SnmpResult) (t : TableRead) (index : List ℕ) (i : ℕ)
    → IsTable t
    → find_row index t.rows ≡ some i
    → IsTable (fill_at result i t)
fill_at-IsTable result t index i v found =
    let f = find_row-Found index t.rows i found in
    let row' = fill_row (filled_cell t.using_fallback (expected_of t) result) t.current f.row in
    let size =
      All-get_elem? (λ row. length row.cells ≡ t.max_columns) t.rows i f.row v.wide f.there in
    let filled : IsTable (record t { rows = set t.rows i row' }) = record {
      wide =
          All-set (λ row. length row.cells ≡ t.max_columns) t.rows i row' v.wide
            (length-fill_row _ t.current f.row ∙ size);
      few = omega (arith, v.few, length-set t.rows i row');
      once =
          subst (Once t.index_capacity)
            (sym (indices-set t.rows i f.row row' f.there (index-fill_row _ t.current f.row)))
            v.once;
      bounded = v.bounded;
      in_range = v.in_range;
    } in
    subst IsTable (sym (fill_at-some result t i f.row f.there)) filled

pub consume_result-IsTable :
    (result : SnmpResult) (t : TableRead) → IsTable t → IsTable (consume_result result t).0
consume_result-IsTable result t v =
    by_outcome (consume_result-Consumed result t v.wide v.few v.once)
  where
    by_outcome : Consumed result t → IsTable (consume_result result t).0
    by_outcome (refuses e) = rw e v
    by_outcome (fills rows i e found wide same few once) = rw e (
        fill_at-IsTable result (record t { rows = rows }) (index_of_result t result) i
          (record {
            wide = wide;
            few = few;
            once = once;
            bounded = v.bounded;
            in_range = v.in_range;
          })
          found)

-- The fields that `advance` sets.
pub turned :
    (t t' : TableRead)
    → IsTable t
    → t'.rows ≡ t.rows
    → t' ≡ record t {
      current = t'.current;
      status = t'.status;
      completed = t'.completed;
      column_errors = t'.column_errors;
      using_fallback = t'.using_fallback;
    }
    → (table_pending t' ≡ true → t'.current < length t.columns)
    → IsTable t'
turned t t' v same e inside =
    subst IsTable (sym e)
      (record { wide = v.wide; few = v.few; once = v.once; bounded = v.bounded; in_range = inside })

if-IsTable :
    (b : Bool) (t t' : TableRead)
    → (b ≡ true → IsTable t)
    → (b ≡ false → IsTable t')
    → IsTable (if b then t else t')
if-IsTable true t t' h k = h refl
if-IsTable false t t' h k = k refl

if-fst {ℓ} :
    {B : Type ℓ} (b : Bool) (x y : TableRead × B)
    → (b ≡ true → IsTable x.0)
    → (b ≡ false → IsTable y.0)
    → IsTable (if b then x else y).0
if-fst true x y h k = h refl
if-fst false x y h k = k refl

continue_with-IsTable :
    (root : List ℕ) (t : TableRead) (c : Client)
    → IsTable t
    → t.current < length t.columns
    → IsTable (continue_with root t c).0
unfolding continue_with
continue_with-IsTable root t c v inside =
    let status = (launch root t.walk c).1 in
    if-IsTable (is_ok status) t (concluded status t) (λ h. v)
      (λ h. turned t (concluded status t) v refl refl (λ p. inside))

fallback_inside :
    (i : ℕ) (columns : List Column)
    → (length (fallback_at i columns) == 0) ≡ false
    → i < length columns
fallback_inside i [] h = ground arith
fallback_inside zero (column ∷ rest) h = omega arith
fallback_inside (suc i) (column ∷ rest) h = omega (arith, fallback_inside i rest h)

next_column-IsTable :
    (status : Status) (t : TableRead) (c : Client) → IsTable t → IsTable (next_column status t c).0
unfolding next_column
next_column-IsTable status t c v =
    let errors = t.column_errors || not (is_ok status) in
    let t' : TableRead = record t {
      using_fallback = false;
      column_errors = errors;
      current = t.current + 1;
    } in
    let final = if errors || not (columns_ok (length t.columns) t.rows) then partial else success in
    if-fst (ltb t'.current (length t.columns)) _ _
      (λ more.
        let inside = ltb→lt t'.current (length t.columns) more in
        continue_with-IsTable (oid_at t'.current t.columns) t' c
          (turned t t' v refl refl (λ p. inside)) inside)
      (λ last. turned t (concluded final t') v refl refl (λ p.
        let over : is_pending final ≡ false =
          ends (errors || not (columns_ok (length t.columns) t.rows)) in
        ground (arith, p, over)))
  where
    ends : (b : Bool) → is_pending (if b then partial else success) ≡ false
    ends true = refl
    ends false = refl

pub advance_table-IsTable :
    (status : Status) (t : TableRead) (c : Client)
    → IsTable t
    → IsTable (advance_table status t c).0
unfolding advance_table
advance_table-IsTable status t c v =
    if-fst ((code status == code cancelled) || (code status == code capacity_exceeded)) _ _
      (λ stops. turned t (concluded status t) v refl refl (λ p. ground (arith, p, stops)))
      (λ goes.
        if-fst (wants_fallback status t) _ _
          (λ wanted.
            let inside = fallback_inside t.current t.columns (ground (arith, wanted)) in
            let t' : TableRead = record t { using_fallback = true } in
            continue_with-IsTable (fallback_at t.current t.columns) t' c
              (turned t t' v refl refl (λ p. inside)) inside)
          (λ done. next_column-IsTable status t c v))

pub add_column-IsTable :
    (text : Option (List ℕ)) (expected : AsnType) (fallback : Option (List ℕ))
    (fallback_expected : AsnType) (t : TableRead)
    → IsTable t
    → IsTable (add_column text expected fallback fallback_expected t).0
unfolding add_column
add_column-IsTable text expected fallback fallback_expected t v =
    if-fst (table_pending t) _ _ (λ h. v)
      (λ idle.
        if-fst (length t.columns == t.max_columns) _ _ (λ h. v)
          (λ room. elim (Option-cases (text >>= canonical)) [
            | inl e ↦ rw e v
            | inr (name, e) ↦ rw e (
                if-fst (has_column name t.columns) _ _ (λ h. v)
                  (λ new. elim (Option-cases (alternative fallback)) [
                    | inl f ↦ rw f v
                    | inr (other, f) ↦
                        let column : Column = record {
                          oid = name;
                          fallback = other;
                          expected = expected;
                          fallback_expected = fallback_expected;
                        } in
                        rw f (record {
                          wide = v.wide;
                          few = v.few;
                          once = v.once;
                          bounded =
                              ground (arith, v.bounded, length-append t.columns (column ∷ []));
                          in_range = λ p. ground (arith, p, idle);
                        })
                  ]))
          ]))

if-start :
    (b : Bool) (x y : TableRead × Client × Status)
    → (b ≡ true → IsTable x.0)
    → (b ≡ false → IsTable y.0)
    → IsTable (if b then x else y).0
if-start true x y h k = h refl
if-start false x y h k = k refl

pub start-IsTable : (t : TableRead) (c : Client) → IsTable t → IsTable (start t c).0
unfolding start
start-IsTable t c v =
    let went = launch (oid_at 0 t.columns) t.walk c in
    let began : TableRead = record t {
      rows = [];
      current = 0;
      completed = false;
      status = pending;
      column_errors = false;
      using_fallback = false;
    } in
    if-start (table_pending t) (t, c, busy) _ (λ h. v)
      (λ idle.
        if-start (length t.columns == 0) (t, c, invalid_configuration) _ (λ h. v)
          (λ some_columns.
            if-start (not (is_ok went.1)) (t, went.0, went.1) (began, went.0, success) (λ h. v)
              (λ h. record {
                wide = tt;
                few = omega arith;
                once = tt;
                bounded = v.bounded;
                in_range = λ p. ground (arith, some_columns);
              })))

pub cancel_table-IsTable :
    (env : Environment) (t : TableRead) (c : Client) → IsTable t → IsTable (cancel_table env t c).0
unfolding cancel_table
cancel_table-IsTable env t c v =
    if-fst (not (table_pending t)) _ _ (λ h. v)
      (λ h. elim (Option-cases (get_elem? c.operations t.walk)) [
        | inl e ↦ rw e v
        | inr (op, e) ↦ rw e (
            if-fst (not (op_pending op)) _ _ (λ idle. v)
              (λ busy_walk.
                advance_table-IsTable cancelled t
                  (finish (record env { on_complete = λ j c'. c' }) t.walk cancelled c) v))
      ])
