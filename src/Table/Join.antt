-- ===== src/Table/Join.antt =====
-- `consume` of src/SNMPTable.h as an update of the map that the rows stand for.
use arduino_snmp_manager.Client.Types.{SnmpResult}
use arduino_snmp_manager.Common.{
  All, All-append, Bool, Bool-cases, List, Option-cases, [], ap, arith, false, get_elem?,
  if◌then◌else◌, inl, inr, leb, length, length-append, none, refl, same_bytes, same_bytes_sym, set,
  some, subst, suc, sym, true, zero, ℕ, ◌&&◌, ◌++◌, ◌<◌, ◌==◌, ◌||◌, ◌∙◌, ◌∷◌, ◌≡◌, ◌≤◌,
}
use arduino_snmp_manager.Table.{
  TableRead, TableRow, consume_result, empty_cell, expected_of, fill_at, filled_cell, find_row,
  index_of_result, new_row, table_pending,
}
use arduino_snmp_manager.Table.Cells.{length-replicate}
use arduino_snmp_manager.Table.Rows.{
  find_row-append, find_row-none, look, look-fill_at, look-new_row,
}
use mathlib.Core.Option.{some-injective}

-- The indices of the rows: shorter than their capacity and different.
abbrev pub indices : List TableRow → List (List ℕ)
indices [] = []
indices (row ∷ rest) = row.index ∷ indices rest

abbrev pub has_index : List ℕ → List (List ℕ) → Bool
has_index index [] = false
has_index index (other ∷ rest) = same_bytes other index || has_index index rest

abbrev pub Once : ℕ → List (List ℕ) → Type 0
Once capacity [] = Unit
Once capacity (index ∷ rest) =
    (length index < capacity) × (has_index index rest ≡ false) × Once capacity rest

indices-append :
    (rows : List TableRow) (row : TableRow)
    → indices (rows ++ (row ∷ [])) ≡ indices rows ++ (row.index ∷ [])
indices-append [] row = refl
indices-append (first ∷ rest) row =
    ap (λ (t : List (List ℕ)). first.index ∷ t) (indices-append rest row)

pub indices-set :
    (rows : List TableRow) (i : ℕ) (row row' : TableRow)
    → get_elem? rows i ≡ some row
    → row'.index ≡ row.index
    → indices (set rows i row') ≡ indices rows
indices-set [] i row row' e same = refl
indices-set (first ∷ rest) zero row row' e same =
    ap (λ (t : List ℕ). t ∷ indices rest)
      (same ∙ ap (λ (r : TableRow). r.index) (sym (some-injective first row e)))
indices-set (first ∷ rest) (suc i) row row' e same =
    ap (λ (t : List (List ℕ)). first.index ∷ t) (indices-set rest i row row' e same)

find_row-has_index :
    (index : List ℕ) (rows : List TableRow)
    → find_row index rows ≡ none
    → has_index index (indices rows) ≡ false
find_row-has_index index [] e = refl
find_row-has_index index (row ∷ rest) e =
    let (other, later) = find_row-none index row rest e in
    rw other (find_row-has_index index rest later)

has_index-append :
    (index other : List ℕ) (rest : List (List ℕ))
    → has_index index (rest ++ (other ∷ [])) ≡ (has_index index rest || same_bytes other index)
has_index-append index other [] = ground arith
has_index-append index other (first ∷ rest) = ground (arith, has_index-append index other rest)

Once-append :
    (capacity : ℕ) (index : List ℕ) (rest : List (List ℕ))
    → length index < capacity
    → has_index index rest ≡ false
    → Once capacity rest
    → Once capacity (rest ++ (index ∷ []))
Once-append capacity index [] short h v = (short, refl, tt)
Once-append capacity index (first ∷ rest) short h v =
    let others : (same_bytes first index ≡ false) × (has_index index rest ≡ false) =
      (ground arith, ground arith) in
    (
      v.0,
      has_index-append first index rest ∙ ground (arith, v.1, same_bytes_sym index first, others.0),
      Once-append capacity index rest short others.1 v.2,
    )

-- The outcomes of `consume`: it refuses, or the row stands in `rows` at `i`, where a new row may have
-- been added that the map does not show.
pub data Consumed (result : SnmpResult) (t : TableRead) : Type 0 where
  refuses : consume_result result t ≡ (t, false) → Consumed result t
  fills :
      (rows : List TableRow) (i : ℕ)
      → consume_result result t ≡ (fill_at result i (record t { rows = rows }), true)
      → find_row (index_of_result t result) rows ≡ some i
      → All (λ row. length row.cells ≡ t.max_columns) rows
      → ((index : List ℕ) (column : ℕ) → look index column rows ≡ look index column t.rows)
      → (length rows ≤ t.max_rows)
      → Once t.index_capacity (indices rows)
      → Consumed result t

pub consume_result-Consumed :
    (result : SnmpResult) (t : TableRead)
    → All (λ row. length row.cells ≡ t.max_columns) t.rows
    → length t.rows ≤ t.max_rows
    → Once t.index_capacity (indices t.rows)
    → Consumed result t
unfolding consume_result
consume_result-Consumed result t wide few once =
    let index = index_of_result t result in
    elim (Bool-cases (leb t.index_capacity (length index))) [
      | inl long ↦ refuses (rw (long, consume_result) refl)
      | inr short ↦ elim (Option-cases (find_row index t.rows)) [
        | inr (i, e) ↦
            fills t.rows i (rw (short, e, consume_result) refl) e wide (λ index' column. refl) few
              once
        | inl e ↦ elim (Bool-cases (length t.rows == t.max_rows)) [
          | inl full ↦ refuses (rw (short, e, full, consume_result) refl)
          | inr room ↦
              fills (t.rows ++ (new_row t.max_columns index ∷ [])) (length t.rows)
                (rw (short, e, room, consume_result) refl)
                (find_row-append index t.rows (new_row t.max_columns index) e refl)
                (All-append (λ row. length row.cells ≡ t.max_columns) t.rows _ wide
                  (length-replicate t.max_columns empty_cell, tt))
                (λ index' column. look-new_row index t index' column e)
                (ground (arith, few, length-append t.rows (new_row t.max_columns index ∷ [])))
                (subst (Once t.index_capacity)
                  (sym (indices-append t.rows (new_row t.max_columns index)))
                  (Once-append t.index_capacity index (indices t.rows) (ground arith)
                    (find_row-has_index index t.rows e) once))
        ]
      ]
    ]

-- What holds of a table between calls: every row has all its cells, the rows and the columns fit,
-- the indices fit and differ, and a running table has a current column.
pub record IsTable (t : TableRead) : Type 0 where
  pub wide : All (λ row. length row.cells ≡ t.max_columns) t.rows
  pub few : length t.rows ≤ t.max_rows
  pub once : Once t.index_capacity (indices t.rows)
  pub bounded : length t.columns ≤ t.max_columns
  pub in_range : table_pending t ≡ true → t.current < length t.columns

-- A result that a running table takes sets one cell of the map from indices and columns to cells, the
-- one of its index in the current column, as the rule for fallbacks and types says; one that it does
-- not take changes nothing.
pub consume_result_lem :
    (result : SnmpResult) (t : TableRead) (index : List ℕ) (column : ℕ)
    → IsTable t
    → table_pending t ≡ true
    → let (t', taken) = consume_result result t in
      (taken ≡ false → t' ≡ t)
      × (taken ≡ true
          → look index column t'.rows ≡ (
              if same_bytes (index_of_result t result) index && (t.current == column)
              then filled_cell t.using_fallback (expected_of t) result (look index column t.rows)
              else look index column t.rows))
consume_result_lem result t index column v running =
    let inside : t.current < t.max_columns = omega (arith, v.in_range running, v.bounded) in
    by_outcome inside (consume_result-Consumed result t v.wide v.few v.once)
  where
    by_outcome :
        t.current < t.max_columns
        → Consumed result t
        → let (t', taken) = consume_result result t in
          (taken ≡ false → t' ≡ t)
          × (taken ≡ true
              → look index column t'.rows ≡ (
                  if same_bytes (index_of_result t result) index && (t.current == column)
                  then filled_cell t.using_fallback
                      (expected_of t)
                      result
                      (look index column t.rows)
                  else look index column t.rows))
    by_outcome inside (refuses e) = rw e (λ h. refl, λ h. cc)
    by_outcome inside (fills rows i e found wide same few once) = rw e (
      λ h. cc,
      λ h.
          look-fill_at result (record t { rows = rows }) (index_of_result t result) i index column
            found wide inside
          ∙ rw (same index column) refl,
    )
