-- ===== src/Table/Progress.antt =====
-- How a table of src/SNMPTable.h comes to its end.
use arduino_snmp_manager.Client.State.{Client}
use arduino_snmp_manager.Client.Types.{
  Status, cancelled, capacity_exceeded, code, is_ok, partial, success,
}
use arduino_snmp_manager.Common.{
  ==_iff, Bool, Bool-cases, List, [], arith, false, get_elem?, if◌then◌else◌, inl, inr, length, ltb,
  not, refl, some, subst, suc, true, zero, ℕ, ◌*◌, ◌+◌, ◌-◌, ◌<◌, ◌==◌, ◌||◌, ◌∷◌, ◌≡◌, ◌≤◌, ◌⊎◌,
}
use arduino_snmp_manager.Table.{
  TableRead, TableRow, advance_table, cell_of, column_ok, columns_ok, concluded, continue_with,
  fallback_at, launch, next_column, oid_at, table_pending, wants_fallback,
}
use mathlib.Core.Option.{some-injective}

-- The walks that a running table may still take, the one that is running included: two for each column
-- that is left, less one where the fallback of the current column is running.
unfoldable pub walks_left : TableRead → ℕ
walks_left t = 2 * (length t.columns - (t.current + 1)) + (if t.using_fallback then 1 else 2)

-- A step of `advance`: the table ends, or fewer walks are left.
abbrev pub Progresses : TableRead → TableRead → Type 0
Progresses t t' = (t'.completed ≡ true) ⊎ (walks_left t' < walks_left t)

if-Progresses :
    (b : Bool) (t : TableRead) (x y : TableRead × Client)
    → (b ≡ true → Progresses t x.0)
    → (b ≡ false → Progresses t y.0)
    → Progresses t (if b then x else y).0
if-Progresses true t x y h k = h refl
if-Progresses false t x y h k = k refl

continue_with-Progresses :
    (root : List ℕ) (t t' : TableRead) (c : Client)
    → walks_left t' < walks_left t
    → Progresses t (continue_with root t' c).0
unfolding continue_with
continue_with-Progresses root t t' c fewer = by_status (is_ok (launch root t'.walk c).1)
  where
    by_status : (b : Bool) → Progresses t (if b then t' else concluded (launch root t'.walk c).1 t')
    by_status true = inr fewer
    by_status false = inl refl

advance_table-Progresses :
    (status : Status) (t : TableRead) (c : Client) → Progresses t (advance_table status t c).0
unfolding advance_table next_column walks_left
advance_table-Progresses status t c =
    let errors = t.column_errors || not (is_ok status) in
    let t' : TableRead = record t {
      using_fallback = false;
      column_errors = errors;
      current = t.current + 1;
    } in
    if-Progresses ((code status == code cancelled) || (code status == code capacity_exceeded)) t _ _
      (λ stops. inl refl)
      (λ goes.
        if-Progresses (wants_fallback status t) t _ _
          (λ wanted.
            continue_with-Progresses (fallback_at t.current t.columns) t
              (record t { using_fallback = true }) c (ground (arith, wanted)))
          (λ done.
            if-Progresses (ltb t'.current (length t.columns)) t _ _
              (λ more.
                continue_with-Progresses (oid_at t'.current t.columns) t t' c
                  (ground (arith, more)))
              (λ last. inl refl)))

-- The walks of a table, one after the other: how each ended, and the client at that time. The table
-- stops at the first step that ends it.
unfoldable pub advance_all : List (Status × Client) → TableRead → TableRead
unfolding advance_table
advance_all [] t = t
advance_all ((status, c) ∷ rest) t =
    let later = advance_all rest (advance_table status t c).0 in
    if (advance_table status t c).0.completed then (advance_table status t c).0 else later

walks_left_positive : (t : TableRead) → 0 < walks_left t
unfolding walks_left
walks_left_positive t = by_fallback t.using_fallback
  where
    by_fallback : (b : Bool) → 0 < 2 * (length t.columns - (t.current + 1)) + (if b then 1 else 2)
    by_fallback true = omega arith
    by_fallback false = omega arith

pub advance_all-completed :
    (walks : List (Status × Client)) (t : TableRead)
    → walks_left t ≤ length walks
    → (advance_all walks t).completed ≡ true
unfolding advance_all
advance_all-completed [] t enough = absurd (omega (arith, walks_left_positive t))
advance_all-completed ((status, c) ∷ rest) t enough =
    let t' = (advance_table status t c).0 in
    elim (Bool-cases t'.completed) [
      | inl ends ↦ rw ends ends
      | inr on ↦ elim (advance_table-Progresses status t c) [
        | inl ends ↦ absurd (ground (arith, on, ends))
        | inr fewer ↦ rw on (advance_all-completed rest t' (omega (arith, fewer, enough)))
      ]
    ]

column_ok-cell :
    (column row : ℕ) (rows : List TableRow) (r : TableRow)
    → column_ok column rows ≡ true
    → get_elem? rows row ≡ some r
    → is_ok (cell_of column r).status ≡ true
column_ok-cell column row [] r h e = cc
column_ok-cell column zero (first ∷ rest) r h e =
    subst (λ (x : TableRow). is_ok (cell_of column x).status ≡ true) (some-injective first r e)
      (ground arith)
column_ok-cell column (suc row) (first ∷ rest) r h e =
    column_ok-cell column row rest r (ground arith) e

columns_ok-column :
    (n column : ℕ) (rows : List TableRow)
    → columns_ok n rows ≡ true
    → column < n
    → column_ok column rows ≡ true
columns_ok-column zero column rows h inside = absurd (omega arith)
columns_ok-column (suc n) column rows h inside = elim (Bool-cases (n == column)) [
  | inl same ↦ subst (λ (k : ℕ). column_ok k rows ≡ true) ((==_iff n column).0 same) (ground arith)
  | inr other ↦ columns_ok-column n column rows (ground arith) (ground arith)
]

-- A walk goes on or is refused; either way the table has no success.
continue_with-running :
    (root : List ℕ) (t : TableRead) (c : Client)
    → table_pending t ≡ true
    → is_ok (continue_with root t c).0.status ≡ false
unfolding continue_with
continue_with-running root t c running = by_status (launch root t.walk c).1
  where
    by_status : (s : Status) → is_ok (if is_ok s then t else concluded s t).status ≡ false
    by_status s = elim (Bool-cases (is_ok s)) [ inl e ↦ rw e (ground arith) | inr e ↦ rw e e ]

if-success :
    (b : Bool) (x y : TableRead × Client) (p : Bool)
    → (b ≡ true → is_ok x.0.status ≡ true → p ≡ true)
    → (b ≡ false → is_ok y.0.status ≡ true → p ≡ true)
    → is_ok (if b then x else y).0.status ≡ true
    → p ≡ true
if-success true x y p h k = h refl
if-success false x y p h k = k refl

advance_table-columns_ok :
    (status : Status) (t : TableRead) (c : Client)
    → table_pending t ≡ true
    → is_ok (advance_table status t c).0.status ≡ true
    → columns_ok (length t.columns) t.rows ≡ true
unfolding advance_table next_column
advance_table-columns_ok status t c running =
    let errors = t.column_errors || not (is_ok status) in
    let t' : TableRead = record t {
      using_fallback = false;
      column_errors = errors;
      current = t.current + 1;
    } in
    let all_ok = columns_ok (length t.columns) t.rows in
    if-success ((code status == code cancelled) || (code status == code capacity_exceeded)) _ _
      all_ok (λ stops fine. absurd (ground (arith, stops, fine)))
      (λ goes.
        if-success (wants_fallback status t) _ _ all_ok
          (λ wanted fine.
            let still =
              continue_with-running (fallback_at t.current t.columns)
                (record t { using_fallback = true }) c running in
            absurd (ground (arith, still, fine)))
          (λ done.
            if-success (ltb t'.current (length t.columns)) _ _ all_ok
              (λ more fine.
                let still = continue_with-running (oid_at t'.current t.columns) t' c running in
                absurd (ground (arith, still, fine)))
              (λ last fine. ends errors all_ok fine)))
  where
    ends :
        (errors all_ok : Bool)
        → is_ok (if errors || not all_ok then partial else success) ≡ true
        → all_ok ≡ true
    ends true all_ok h = ground (arith, h)
    ends false true h = refl
    ends false false h = ground (arith, h)

-- A running table that ends with Success has a value in every cell of its columns.
pub advance_table_success :
    (status : Status) (t : TableRead) (c : Client) (row column : ℕ) (r : TableRow)
    → table_pending t ≡ true
    → is_ok (advance_table status t c).0.status ≡ true
    → get_elem? t.rows row ≡ some r
    → column < length t.columns
    → is_ok (cell_of column r).status ≡ true
advance_table_success status t c row column r running fine found inside =
    column_ok-cell column row t.rows r
      (columns_ok-column (length t.columns) column t.rows
        (advance_table-columns_ok status t c running fine) inside)
      found
