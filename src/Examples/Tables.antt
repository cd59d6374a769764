-- ===== src/Examples/Tables.antt =====
-- The theorems on tables at concrete inputs.
use arduino_snmp_manager.Examples.{
  started_client-IsClient, quiet, quiet-Respects, read_13, started_client,
}
use arduino_snmp_manager.Ber.Tag.{counter64, integer, nulltype}
use arduino_snmp_manager.Client.State.{Client}
use arduino_snmp_manager.Client.State.Invariant.{IsClient}
use arduino_snmp_manager.Client.Types.{
  Operation, SnmpResult, Status, is_ok, not_started, pending, success, timeout,
}
use arduino_snmp_manager.Client.Value.{integer32}
use arduino_snmp_manager.Common.{List, [], arith, false, refl, true, ℕ, ◌++◌, ◌∷◌, ◌≡◌}
use arduino_snmp_manager.Table.{
  TableRead, TableRow, advance_table, cancel_table, cell_of, consume_result, filled_cell,
  next_column, start,
}
use arduino_snmp_manager.Table.Join.{IsTable, consume_result_lem}
use arduino_snmp_manager.Table.Progress.{advance_table_success}
use arduino_snmp_manager.Table.Rows.{look}
use arduino_snmp_manager.Table.Steps.{one_more, TableReaches-IsTable, takes_result, unchanged}
use arduino_snmp_manager.Table.Walks.{table_calls-IsClient}

-- A walk, on a client that has begun, and a table of two columns, the second with a fallback.
abbrev walk_1 : Operation
walk_1 = record read_13 { walking = true; streaming = true; results = [] }

abbrev walking_client : Client
walking_client = record started_client { operations = walk_1 ∷ [] }

abbrev oid_131 : List ℕ
oid_131 = b'.' ∷ b'1' ∷ b'.' ∷ b'3' ∷ b'.' ∷ b'1' ∷ []

abbrev oid_132 : List ℕ
oid_132 = b'.' ∷ b'1' ∷ b'.' ∷ b'3' ∷ b'.' ∷ b'2' ∷ []

abbrev table_0 : TableRead
table_0 = record {
  max_rows = 4;
  max_columns = 2;
  index_capacity = 16;
  walk = 0;
  rows = [];
  columns =
      record { oid = oid_131; fallback = []; expected = integer; fallback_expected = nulltype }
      ∷ record {
        oid = oid_132;
        fallback = oid_131;
        expected = counter64;
        fallback_expected = nulltype;
      }
      ∷ [];
  current = 0;
  status = not_started;
  completed = false;
  column_errors = false;
  using_fallback = false;
}

abbrev table_1 : TableRead
table_1 = record table_0 { status = pending }

table_1-IsTable : IsTable table_1
table_1-IsTable = record {
  wide = tt;
  few = omega arith;
  once = tt;
  bounded = omega arith;
  in_range = λ p. omega arith;
}

-- A value at the index 7 of the first column.
abbrev value_7 : SnmpResult
value_7 = record {
  oid = oid_131 ++ (b'.' ∷ b'7' ∷ []);
  value = integer32 5;
  status = success;
  expected = nulltype;
}

consume_result_lem_example :
    let (t', taken) = consume_result value_7 table_1 in
    (taken ≡ false → t' ≡ table_1)
    × (taken ≡ true
        → look (b'7' ∷ []) 0 t'.rows
          ≡ filled_cell false integer value_7 (look (b'7' ∷ []) 0 table_1.rows))
consume_result_lem_example = consume_result_lem value_7 table_1 (b'7' ∷ []) 0 table_1-IsTable refl

TableReaches-IsTable_example : IsTable (consume_result value_7 table_1).0
TableReaches-IsTable_example =
    TableReaches-IsTable table_1 (consume_result value_7 table_1).0
      (one_more table_1 (consume_result value_7 table_1).0 unchanged (takes_result value_7))
      table_1-IsTable

-- Four walks that time out.
abbrev four_walks : List (Status × Client)
four_walks =
    (timeout, walking_client)
    ∷ (timeout, walking_client)
    ∷ (timeout, walking_client)
    ∷ (timeout, walking_client)
    ∷ []

-- The last walk of a table with one row, of one column.
abbrev row_7 : TableRow
row_7 = record { index = b'7' ∷ []; cells = record { value = integer32 5; status = success } ∷ [] }

abbrev table_2 : TableRead
table_2 = record table_1 {
  max_columns = 1;
  rows = row_7 ∷ [];
  columns =
      record { oid = oid_131; fallback = []; expected = integer; fallback_expected = nulltype }
      ∷ [];
}

ends_well : is_ok (advance_table success table_2 walking_client).0.status ≡ true
unfolding advance_table next_column
ends_well = refl

advance_table_success_example : is_ok (cell_of 0 row_7).status ≡ true
advance_table_success_example =
    advance_table_success success table_2 walking_client 0 0 row_7 refl ends_well refl (omega arith)

table_calls-IsClient_example :
    IsClient (start (record table_1 { walk = 0 }) started_client).1
    × IsClient (advance_table success (record table_1 { walk = 0 }) started_client).1
    × IsClient (cancel_table quiet (record table_1 { walk = 0 }) started_client).1
table_calls-IsClient_example =
    table_calls-IsClient quiet success (record table_1 { walk = 0 }) started_client quiet-Respects
      started_client-IsClient
