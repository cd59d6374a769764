-- ===== src/Table/Rows.antt =====
-- The rows of src/SNMPTable.h as a map from indices and columns to cells, and what writing a row does
-- to it.
use arduino_snmp_manager.Client.Types.{SnmpResult}
use arduino_snmp_manager.Common.{
  >>=-eq-some, All, All-get_elem?, Bool, Bool-cases, List, Option, Option-cases, [], ap, arith,
  false, get_elem?, if◌then◌else◌, inl, inr, length, none, refl, same_bytes, same_bytes_refl,
  same_bytes_sound, same_bytes_sym, set, some, subst, suc, sym, true, ℕ, ◌&&◌, ◌++◌, ◌<◌, ◌==◌, ◌∙◌,
  ◌∷◌, ◌≡◌,
}
use arduino_snmp_manager.Table.{
  SnmpCell, TableRead, TableRow, cell_of, empty_cell, expected_of, fill_at, fill_row, filled_cell,
  find_row, new_row,
}
use arduino_snmp_manager.Table.Cells.{cell_in, cell_in-replicate, cell_of-fill_row, index-fill_row}
use mathlib.Core.Option.{some-injective}

-- The map that a table stands for: a cell that was never filled_cell is empty.
abbrev pub look : List ℕ → ℕ → List TableRow → SnmpCell
look index column [] = empty_cell
look index column (row ∷ rest) =
    if same_bytes row.index index then cell_of column row else look index column rest

same_bytes_differs :
    (a index index' : List ℕ)
    → same_bytes a index ≡ false
    → same_bytes a index' ≡ true
    → same_bytes index index' ≡ false
same_bytes_differs a index index' h k =
    let e = same_bytes_sound a index' k in
    subst (λ (x : List ℕ). same_bytes index x ≡ false) e (same_bytes_sym index a ∙ h)

if-exchange :
    (b c : Bool) (x y z : SnmpCell)
    → (b ≡ true → c ≡ false)
    → (if b then x else if c then y else z) ≡ (if c then y else if b then x else z)
if-exchange true true x y z h = let e = h refl in cc
if-exchange true false x y z h = refl
if-exchange false c x y z h = refl

if-twice :
    (b : Bool) (x y z : SnmpCell) → (if b then x else z) ≡ (if b then x else if b then y else z)
if-twice true x y z = refl
if-twice false x y z = refl

-- What finding a row and writing it back does to the map.
pub record Found (index : List ℕ) (rows : List TableRow) (i : ℕ) : Type 0 where
  pub row : TableRow
  pub there : get_elem? rows i ≡ some row
  pub named : row.index ≡ index
  pub seen : (column : ℕ) → look index column rows ≡ cell_of column row
  pub written :
      (row' : TableRow) (index' : List ℕ) (column : ℕ)
      → row'.index ≡ index
      → look index' column (set rows i row')
        ≡ (if same_bytes index index' then cell_of column row' else look index' column rows)

Found-first :
    (index : List ℕ) (row : TableRow) (rest : List TableRow)
    → same_bytes row.index index ≡ true
    → Found index (row ∷ rest) 0
Found-first index row rest same =
    let named = same_bytes_sound row.index index same in
    record {
      row = row;
      there = refl;
      named = named;
      seen = λ column. rw same refl;
      written = λ row' index' column named'.
          rw (named', named)
            (if-twice (same_bytes index index') (cell_of column row') (cell_of column row)
              (look index' column rest));
    }

Found-later :
    (index : List ℕ) (row : TableRow) (rest : List TableRow) (i : ℕ)
    → same_bytes row.index index ≡ false
    → Found index rest i
    → Found index (row ∷ rest) (suc i)
Found-later index row rest i other f = record {
  row = f.row;
  there = f.there;
  named = f.named;
  seen = λ column. rw other (f.seen column);
  written = λ row' index' column named'. rw (f.written row' index' column named') (
      if-exchange (same_bytes row.index index') (same_bytes index index') (cell_of column row)
        (cell_of column row') (look index' column rest)
        (same_bytes_differs row.index index index' other));
}

pub find_row-Found :
    (index : List ℕ) (rows : List TableRow) (i : ℕ)
    → find_row index rows ≡ some i
    → Found index rows i
unfolding find_row
find_row-Found index [] i e = cc
find_row-Found index (row ∷ rest) i e = elim (Bool-cases (same_bytes row.index index)) [
  | inl same ↦
      subst (Found index (row ∷ rest)) (some-injective 0 i (rw same at e))
        (Found-first index row rest same)
  | inr other ↦
      let (j, found, plus) =
        >>=-eq-some (find_row index rest) (λ j. some (suc j)) (rw other at e) in
      subst (Found index (row ∷ rest)) (some-injective (suc j) i plus)
        (Found-later index row rest j other (find_row-Found index rest j found))
]

pub find_row-none :
    (index : List ℕ) (row : TableRow) (rest : List TableRow)
    → find_row index (row ∷ rest) ≡ none
    → (same_bytes row.index index ≡ false) × (find_row index rest ≡ none)
unfolding find_row
find_row-none index row rest e = elim (Bool-cases (same_bytes row.index index)) [
  | inl same ↦ let contra : ◌≡◌ {A = Option ℕ} (some 0) none = rw same at e in cc
  | inr other ↦ elim (Option-cases (find_row index rest)) [
    | inl absent ↦ (other, absent)
    | inr (i, found) ↦
        let contra : ◌≡◌ {A = Option ℕ} (some (suc i)) none = rw (other, found) at e in cc
  ]
]

look-append :
    (index : List ℕ) (rows : List TableRow) (row : TableRow) (index' : List ℕ) (column : ℕ)
    → find_row index rows ≡ none
    → row.index ≡ index
    → look index' column (rows ++ (row ∷ []))
      ≡ (if same_bytes index index' then cell_of column row else look index' column rows)
unfolding find_row
look-append index [] row index' column e named = rw named refl
look-append index (first ∷ rest) row index' column e named =
    let absent = find_row-none index first rest e in
    rw (look-append index rest row index' column absent.1 named) (
      if-exchange (same_bytes first.index index') (same_bytes index index') (cell_of column first)
        (cell_of column row) (look index' column rest)
        (same_bytes_differs first.index index index' absent.0))

look-absent :
    (index : List ℕ) (rows : List TableRow) (column : ℕ)
    → find_row index rows ≡ none
    → look index column rows ≡ empty_cell
unfolding find_row
look-absent index [] column e = refl
look-absent index (first ∷ rest) column e =
    let absent = find_row-none index first rest e in
    rw absent.0 (look-absent index rest column absent.1)

match_index :
    (b c : Bool) (change : SnmpCell → SnmpCell) (x y : SnmpCell)
    → (b ≡ true → y ≡ x)
    → (if b then if c then change x else x else y) ≡ (if b && c then change y else y)
match_index true true change x y h = ap change (sym (h refl))
match_index true false change x y h = sym (h refl)
match_index false c change x y h = refl

pub fill_at-some :
    (result : SnmpResult) (t : TableRead) (i : ℕ) (row : TableRow)
    → get_elem? t.rows i ≡ some row
    → fill_at result i t ≡ record t {
      rows =
          set t.rows i
            (fill_row (filled_cell t.using_fallback (expected_of t) result) t.current row);
    }
unfolding fill_at
fill_at-some result t i row e = rw (e, fill_at) refl

-- Filling a row that stands in the table.
pub look-fill_at :
    (result : SnmpResult) (t : TableRead) (index : List ℕ) (i : ℕ) (index' : List ℕ) (column : ℕ)
    → find_row index t.rows ≡ some i
    → All (λ row. length row.cells ≡ t.max_columns) t.rows
    → t.current < t.max_columns
    → look index' column (fill_at result i t).rows ≡ (
        if same_bytes index index' && (t.current == column)
        then filled_cell t.using_fallback (expected_of t) result (look index' column t.rows)
        else look index' column t.rows)
unfolding fill_at
look-fill_at result t index i index' column found wide h =
    let f = find_row-Found index t.rows i found in
    let change = filled_cell t.using_fallback (expected_of t) result in
    let size : length f.row.cells ≡ t.max_columns =
      All-get_elem? (λ row. length row.cells ≡ t.max_columns) t.rows i f.row wide f.there in
    let inside : t.current < length f.row.cells = omega (arith, size) in
    let named = index-fill_row change t.current f.row ∙ f.named in
    ap (λ (t' : TableRead). look index' column t'.rows) (fill_at-some result t i f.row f.there)
    ∙ f.written (fill_row change t.current f.row) index' column named
    ∙ rw (cell_of-fill_row change t.current column f.row inside) (
        match_index (same_bytes index index') (t.current == column) change (cell_of column f.row)
          (look index' column t.rows)
          (λ same.
            subst (λ (k : List ℕ). look k column t.rows ≡ cell_of column f.row)
              (same_bytes_sound index index' same) (f.seen column)))

pub look-new_row :
    (index : List ℕ) (t : TableRead) (index' : List ℕ) (column : ℕ)
    → find_row index t.rows ≡ none
    → look index' column (t.rows ++ (new_row t.max_columns index ∷ [])) ≡ look index' column t.rows
unfolding cell_in
look-new_row index t index' column absent =
    look-append index t.rows (new_row t.max_columns index) index' column absent refl
    ∙ rw (cell_in-replicate t.max_columns column) (
        blank (same_bytes index index') (look index' column t.rows) (λ same.
          subst (λ (k : List ℕ). look k column t.rows ≡ empty_cell)
            (same_bytes_sound index index' same) (look-absent index t.rows column absent)))
  where
    blank :
        (b : Bool) (x : SnmpCell) → (b ≡ true → x ≡ empty_cell) → (if b then empty_cell else x) ≡ x
    blank true x h = sym (h refl)
    blank false x h = refl

pub find_row-append :
    (index : List ℕ) (rows : List TableRow) (row : TableRow)
    → find_row index rows ≡ none
    → row.index ≡ index
    → find_row index (rows ++ (row ∷ [])) ≡ some (length rows)
unfolding find_row
find_row-append index [] row absent named = rw (named, same_bytes_refl index) refl
find_row-append index (first ∷ rest) row absent named =
    let (other, later) = find_row-none index first rest absent in
    rw (other, find_row-append index rest row later named) refl
