-- ===== src/Table.antt =====
-- `SNMPTableRead` of src/SNMPTable.h: selected columns, read by one walk after the other, joined by the
-- complete index. The walk is an operation of the client.
pub mod Cells
pub mod Rows
pub mod Join
pub mod Invariant
pub mod Steps
pub mod Progress
pub mod Walks
use arduino_snmp_manager.Ber.Tag.{AsnType, counter32, counter64, nulltype, same_type, string}
use arduino_snmp_manager.Client.Operation.{canonical, set_root}
use arduino_snmp_manager.Client.State.{Client, Environment, finish, schedule, store}
use arduino_snmp_manager.Client.Types.{
  SnmpResult, SnmpValue, Status, busy, cancelled, capacity_exceeded, code, empty_value,
  invalid_configuration, invalid_oid, is_ok, is_pending, missing, not_started, op_pending, partial,
  pending, success, type_mismatch,
}
use arduino_snmp_manager.Common.{
  Bool, List, Option, [], drop, false, get_elem?, if◌then◌else◌, leb, length, ltb, none, not,
  replicate, same_bytes, set, some, suc, true, zero, ℕ, ◌&&◌, ◌++◌, ◌+◌, ◌==◌, ◌>>=◌, ◌||◌, ◌∷◌,
}

-- `SNMPCell`.
pub record SnmpCell : Type 0 where
  pub value : SnmpValue
  pub status : Status

abbrev pub empty_cell : SnmpCell
empty_cell = record { value = empty_value; status = missing }

-- `SNMPTableRow`.
pub record TableRow : Type 0 where
  pub index : List ℕ
  pub cells : List SnmpCell

-- What `addColumn` stores; an empty fallback is none.
pub record Column : Type 0 where
  pub oid : List ℕ
  pub fallback : List ℕ
  pub expected : AsnType
  pub fallback_expected : AsnType

-- The table with its template parameters: `rows` are the first `count_` rows, `columns` the first
-- `columns_` columns, `walk` is the place of `walk_` among the client's operations.
pub record TableRead : Type 0 where
  pub max_rows : ℕ
  pub max_columns : ℕ
  pub index_capacity : ℕ
  pub walk : ℕ
  pub rows : List TableRow
  pub columns : List Column
  pub current : ℕ
  pub status : Status
  pub completed : Bool
  pub column_errors : Bool
  pub using_fallback : Bool

abbrev pub table_pending : TableRead → Bool
table_pending t = is_pending t.status

abbrev pub has_column : List ℕ → List Column → Bool
has_column name [] = false
has_column name (column ∷ rest) = same_bytes column.oid name || has_column name rest

-- The alternative of a column: empty where none is asked for, `none` where it is not an OID.
abbrev pub alternative : Option (List ℕ) → Option (List ℕ)
alternative none = some []
alternative (some text) = canonical text

-- `addColumn`; `none` is a null pointer.
unfoldable pub add_column :
    Option (List ℕ) → AsnType → Option (List ℕ) → AsnType → TableRead → TableRead × Status
unfolding canonical
add_column text expected fallback fallback_expected t =
    if table_pending t
    then (t, busy)
    else if length t.columns == t.max_columns
    then (t, capacity_exceeded)
    else (elim (text >>= canonical) [
      | none ↦ (t, invalid_oid)
      | some name ↦
          if has_column name t.columns then (t, invalid_oid) else (elim (alternative fallback) [
            | none ↦ (t, invalid_oid)
            | some other ↦
                let column : Column = record {
                  oid = name;
                  fallback = other;
                  expected = expected;
                  fallback_expected = fallback_expected;
                } in
                (record t { columns = t.columns ++ (column ∷ []) }, success)
          ])
    ])

-- `walk_.configure(root)`, whose status is not looked at, and `walk_.start()`.
unfoldable pub launch : List ℕ → ℕ → Client → Client × Status
unfolding set_root schedule
launch root i c = elim (get_elem? c.operations i) [
  | none ↦ (c, not_started)
  | some op ↦ let op' = (set_root root op).0 in schedule i op' (store i op' c)
]

abbrev pub oid_at : ℕ → List Column → List ℕ
oid_at i columns = elim (get_elem? columns i) [ none ↦ [] | some column ↦ column.oid ]

abbrev pub fallback_at : ℕ → List Column → List ℕ
fallback_at i columns = elim (get_elem? columns i) [ none ↦ [] | some column ↦ column.fallback ]

-- `start`: the table, the client and the status.
unfoldable pub start : TableRead → Client → TableRead × Client × Status
unfolding launch
start t c =
    if table_pending t
    then (t, c, busy)
    else if length t.columns == 0
    then (t, c, invalid_configuration)
    else (let (c', status) = launch (oid_at 0 t.columns) t.walk c in
        if not (is_ok status) then (t, c', status) else (
          record t {
            rows = [];
            current = 0;
            completed = false;
            status = pending;
            column_errors = false;
            using_fallback = false;
          },
          c',
          success,
        ))

-- `takeCompleted`.
abbrev pub take_completed : TableRead → TableRead × Bool
take_completed t = (record t { completed = false }, t.completed)

-- The column whose walk is running, and the type that its cells are to have.
abbrev pub walked : TableRead → List ℕ
walked t = if t.using_fallback then fallback_at t.current t.columns else oid_at t.current t.columns

abbrev pub expected_of : TableRead → AsnType
expected_of t = elim (get_elem? t.columns t.current) [
  | none ↦ nulltype
  | some column ↦ if t.using_fallback then column.fallback_expected else column.expected
]

-- `value.oid + strlen(column) + 1`: the results of a walk are below its root.
abbrev pub index_of_result : TableRead → SnmpResult → List ℕ
index_of_result t result = drop (length (walked t) + 1) result.oid

-- What `consume` makes of the cell.
unfoldable pub filled_cell : Bool → AsnType → SnmpResult → SnmpCell → SnmpCell
filled_cell fallback expected result cell = if fallback && is_ok cell.status then cell else record {
  value = result.value;
  status =
      if is_ok result.status
        && not (same_type expected nulltype)
        && not (same_type expected result.value.type)
      then type_mismatch
      else result.status;
}

-- The loop over the rows: the first with the index.
unfoldable pub find_row : List ℕ → List TableRow → Option ℕ
find_row index [] = none
find_row index (row ∷ rest) =
    let later = find_row index rest >>= λ i. some (suc i) in
    if same_bytes row.index index then some 0 else later

-- `SNMPTableRow()` with its index.
abbrev pub new_row : ℕ → List ℕ → TableRow
new_row columns index = record { index = index; cells = replicate columns empty_cell }

-- The cell of the current column in a row.
abbrev pub fill_row : (SnmpCell → SnmpCell) → ℕ → TableRow → TableRow
fill_row change column row = elim (get_elem? row.cells column) [
  | none ↦ row
  | some cell ↦ record row { cells = set row.cells column (change cell) }
]

unfoldable pub fill_at : SnmpResult → ℕ → TableRead → TableRead
unfolding filled_cell
fill_at result i t = elim (get_elem? t.rows i) [
  | none ↦ t
  | some row ↦ record t {
    rows =
        set t.rows i (fill_row (filled_cell t.using_fallback (expected_of t) result) t.current row);
  }
]

-- `consume`; false stops the walk with CapacityExceeded.
unfoldable pub consume_result : SnmpResult → TableRead → TableRead × Bool
unfolding find_row fill_at
consume_result result t =
    let index = index_of_result t result in
    if leb t.index_capacity (length index) then (t, false) else (elim (find_row index t.rows) [
      | some i ↦ (fill_at result i t, true)
      | none ↦ if length t.rows == t.max_rows then (t, false) else (
        fill_at result (length t.rows)
            (record t { rows = t.rows ++ (new_row t.max_columns index ∷ []) }),
        true,
      )
    ])

-- A cell that is not there counts as one without a value.
abbrev pub cell_of : ℕ → TableRow → SnmpCell
cell_of column row = elim (get_elem? row.cells column) [ none ↦ empty_cell | some cell ↦ cell ]

-- The loops of `advance` over the cells: one column, and the first `n` columns.
abbrev pub column_ok : ℕ → List TableRow → Bool
column_ok column [] = true
column_ok column (row ∷ rest) = is_ok (cell_of column row).status && column_ok column rest

abbrev pub columns_ok : ℕ → List TableRow → Bool
columns_ok zero rows = true
columns_ok (suc n) rows = column_ok n rows && columns_ok n rows

abbrev pub concluded : Status → TableRead → TableRead
concluded status t = record t { status = status; completed = true }

-- The next walk, which ends the table where it is refused.
unfoldable pub continue_with : List ℕ → TableRead → Client → TableRead × Client
unfolding launch
continue_with root t c =
    let (c', status) = launch root t.walk c in (if is_ok status then t else concluded status t, c')

-- `advance` once the column has no fallback to try.
unfoldable pub next_column : Status → TableRead → Client → TableRead × Client
unfolding continue_with
next_column status t c =
    let t' = record t {
      using_fallback = false;
      column_errors = t.column_errors || not (is_ok status);
      current = t.current + 1;
    } in
    if ltb t'.current (length t.columns)
    then continue_with (oid_at t'.current t.columns) t' c
    else (
      concluded
          (if t'.column_errors || not (columns_ok (length t.columns) t.rows)
            then partial
            else success)
          t',
      c,
    )

-- Whether the current column has an untried fallback and a gap for it.
abbrev pub wants_fallback : Status → TableRead → Bool
wants_fallback status t =
    not t.using_fallback
    && not (length (fallback_at t.current t.columns) == 0)
    && ((length t.rows == 0) || not (is_ok status) || not (column_ok t.current t.rows))

-- `advance`, for the final status of the walk.
unfoldable pub advance_table : Status → TableRead → Client → TableRead × Client
unfolding continue_with next_column
advance_table status t c =
    if (code status == code cancelled) || (code status == code capacity_exceeded)
    then (concluded status t, c)
    else if wants_fallback status t
    then continue_with (fallback_at t.current t.columns) (record t { using_fallback = true }) c
    else next_column status t c

-- `cancel`: the walk's completion handler is `advance`.
unfoldable pub cancel_table : Environment → TableRead → Client → TableRead × Client
unfolding advance_table finish
cancel_table env t c =
    if not (table_pending t) then (t, c) else (elim (get_elem? c.operations t.walk) [
      | none ↦ (t, c)
      | some op ↦
          if not (op_pending op)
          then (t, c)
          else advance_table cancelled t
              (finish (record env { on_complete = λ i c'. c' }) t.walk cancelled c)
    ])

-- The OIDs of src/SNMPTable.h for interfaces, as their last arcs differ.
abbrev if_entry : List ℕ → List ℕ
if_entry arcs =
    b'.' ∷ b'1' ∷ b'.' ∷ b'3' ∷ b'.' ∷ b'6' ∷ b'.' ∷ b'1' ∷ b'.' ∷ b'2' ∷ b'.' ∷ b'1' ∷ b'.' ∷ arcs

-- `.1.3.6.1.2.1.2.2.1`, and `.1.3.6.1.2.1.31.1.1.1`, before the column's arc.
abbrev if_column : List ℕ → List ℕ
if_column arc = if_entry (b'2' ∷ b'.' ∷ b'2' ∷ b'.' ∷ b'1' ∷ b'.' ∷ arc)

abbrev if_x_column : List ℕ → List ℕ
if_x_column arc = if_entry (b'3' ∷ b'1' ∷ b'.' ∷ b'1' ∷ b'.' ∷ b'1' ∷ b'.' ∷ b'1' ∷ b'.' ∷ arc)

-- `SNMPInterfaceRead`: the three columns that the constructor adds to a new table of three columns.
unfoldable pub interface_columns : Bool → TableRead → TableRead
unfolding add_column
interface_columns high_capacity t =
    let counter = if high_capacity then counter64 else counter32 in
    let bytes_in = if_column (b'1' ∷ b'0' ∷ []) in
    let bytes_out = if_column (b'1' ∷ b'6' ∷ []) in
    let with_name = (add_column (some (if_column (b'2' ∷ []))) string none nulltype t).0 in
    let with_in =
      (add_column (some (if high_capacity then if_x_column (b'6' ∷ []) else bytes_in)) counter
        (if high_capacity then some bytes_in else none) counter32 with_name).0 in
    (add_column (some (if high_capacity then if_x_column (b'1' ∷ b'0' ∷ []) else bytes_out)) counter
      (if high_capacity then some bytes_out else none) counter32 with_in).0
