-- ===== src/Table/Cells.antt =====
-- The cells of one row of src/SNMPTable.h.
use arduino_snmp_manager.Common.{
  ==_iff, Bool, List, Option-cases, [], ap, arith, false, get_elem?, if◌then◌else◌, inl, inr,
  length, length-set, none, refl, replicate, set, some, subst, suc, sym, true, zero, ℕ, ◌<◌, ◌==◌,
  ◌∙◌, ◌∷◌, ◌≡◌,
}
use arduino_snmp_manager.Table.{SnmpCell, TableRow, cell_of, empty_cell, fill_row}

-- One row: the cell of the current column, and the others.
unfoldable pub cell_in : List SnmpCell → ℕ → SnmpCell
cell_in cells column = elim (get_elem? cells column) [ none ↦ empty_cell | some cell ↦ cell ]

cell_in-set :
    (cells : List SnmpCell) (current column : ℕ) (cell : SnmpCell)
    → current < length cells
    → cell_in (set cells current cell) column
      ≡ (if current == column then cell else cell_in cells column)
unfolding cell_in
cell_in-set [] current column cell h = absurd (omega arith)
cell_in-set (c ∷ rest) zero zero cell h = refl
cell_in-set (c ∷ rest) zero (suc column) cell h = ground arith
cell_in-set (c ∷ rest) (suc current) zero cell h = ground arith
cell_in-set (c ∷ rest) (suc current) (suc column) cell h =
    cell_in-set rest current column cell (omega arith) ∙ ground arith

there :
    (cells : List SnmpCell) (i : ℕ)
    → i < length cells
    → (c : SnmpCell) × (get_elem? cells i ≡ some c)
there [] i h = absurd (omega arith)
there (c ∷ rest) zero h = (c, refl)
there (c ∷ rest) (suc i) h = there rest i (omega arith)

if-change :
    (b : Bool) (change : SnmpCell → SnmpCell) (cell x : SnmpCell)
    → (b ≡ true → x ≡ cell)
    → (if b then change cell else x) ≡ (if b then change x else x)
if-change true change cell x h = ap change (sym (h refl))
if-change false change cell x h = refl

filled_row :
    (change : SnmpCell → SnmpCell) (current : ℕ) (row : TableRow) (cell : SnmpCell)
    → get_elem? row.cells current ≡ some cell
    → fill_row change current row ≡ record row { cells = set row.cells current (change cell) }
filled_row change current row cell e = rw (e, fill_row) refl

pub cell_of-fill_row :
    (change : SnmpCell → SnmpCell) (current column : ℕ) (row : TableRow)
    → current < length row.cells
    → cell_of column (fill_row change current row)
      ≡ (if current == column then change (cell_of column row) else cell_of column row)
unfolding cell_in
cell_of-fill_row change current column row h =
    let (cell, e) = there row.cells current h in
    let here : (current == column) ≡ true → cell_in row.cells column ≡ cell = λ same.
      subst (λ (k : ℕ). cell_in row.cells k ≡ cell) ((==_iff current column).0 same)
        (rw (e, cell_in) refl) in
    ap (cell_of column) (filled_row change current row cell e)
    ∙ cell_in-set row.cells current column (change cell) h
    ∙ if-change (current == column) change cell (cell_in row.cells column) here

unfilled_row :
    (change : SnmpCell → SnmpCell) (current : ℕ) (row : TableRow)
    → get_elem? row.cells current ≡ none
    → fill_row change current row ≡ row
unfilled_row change current row e = rw (e, fill_row) refl

pub index-fill_row :
    (change : SnmpCell → SnmpCell) (current : ℕ) (row : TableRow)
    → (fill_row change current row).index ≡ row.index
index-fill_row change current row = elim (Option-cases (get_elem? row.cells current)) [
  | inl e ↦ ap (λ (r : TableRow). r.index) (unfilled_row change current row e)
  | inr (cell, e) ↦ ap (λ (r : TableRow). r.index) (filled_row change current row cell e)
]

pub length-fill_row :
    (change : SnmpCell → SnmpCell) (current : ℕ) (row : TableRow)
    → length (fill_row change current row).cells ≡ length row.cells
length-fill_row change current row = elim (Option-cases (get_elem? row.cells current)) [
  | inl e ↦ ap (λ (r : TableRow). length r.cells) (unfilled_row change current row e)
  | inr (cell, e) ↦
      ap (λ (r : TableRow). length r.cells) (filled_row change current row cell e)
      ∙ length-set row.cells current (change cell)
]

pub cell_in-replicate : (n column : ℕ) → cell_in (replicate n empty_cell) column ≡ empty_cell
unfolding cell_in
cell_in-replicate zero column = refl
cell_in-replicate (suc n) zero = refl
cell_in-replicate (suc n) (suc column) = cell_in-replicate n column

pub length-replicate : (n : ℕ) (cell : SnmpCell) → length (replicate n cell) ≡ n
length-replicate zero cell = refl
length-replicate (suc n) cell = ap suc (length-replicate n cell)
