-- ===== src/Table/Steps.antt =====
-- A table of src/SNMPTable.h in use.
use arduino_snmp_manager.Ber.Tag.{AsnType}
use arduino_snmp_manager.Client.State.{Client, Environment}
use arduino_snmp_manager.Client.Types.{SnmpResult, Status}
use arduino_snmp_manager.Common.{List, Option, refl, ℕ}
use arduino_snmp_manager.Table.{
  TableRead, add_column, advance_table, cancel_table, consume_result, start, take_completed,
}
use arduino_snmp_manager.Table.Invariant.{
  add_column-IsTable, advance_table-IsTable, cancel_table-IsTable, consume_result-IsTable,
  start-IsTable, turned,
}
use arduino_snmp_manager.Table.Join.{IsTable}
use arduino_snmp_manager.Tracking.Invariant.{step}

-- One call on a table, whatever the client and the application do between the calls.
pub data TableStep (t : TableRead) : TableRead → Type 0 where
  adds :
      (text : Option (List ℕ)) (expected : AsnType) (fallback : Option (List ℕ))
      (fallback_expected : AsnType)
      → TableStep t (add_column text expected fallback fallback_expected t).0
  starts : (c : Client) → TableStep t (start t c).0
  takes_result : (result : SnmpResult) → TableStep t (consume_result result t).0
  advances : (status : Status) (c : Client) → TableStep t (advance_table status t c).0
  cancels_table : (env : Environment) (c : Client) → TableStep t (cancel_table env t c).0
  takes_completed : TableStep t (take_completed t).0

pub data TableReaches (t : TableRead) : TableRead → Type 0 where
  unchanged : TableReaches t t
  one_more : (u v : TableRead) → TableReaches t u → TableStep u v → TableReaches t v

TableStep-IsTable : (t t' : TableRead) → TableStep t t' → IsTable t → IsTable t'
TableStep-IsTable t _ (adds text expected fallback other) v =
    add_column-IsTable text expected fallback other t v
TableStep-IsTable t _ (starts c) v = start-IsTable t c v
TableStep-IsTable t _ (takes_result result) v = consume_result-IsTable result t v
TableStep-IsTable t _ (advances status c) v = advance_table-IsTable status t c v
TableStep-IsTable t _ (cancels_table env c) v = cancel_table-IsTable env t c v
TableStep-IsTable t _ takes_completed v = turned t (take_completed t).0 v refl refl v.in_range

-- A table that is well-formed stays so through every sequence of calls: its rows and columns fit its
-- capacities, the rows have all their cells and different indices that fit, and while it runs its
-- current column exists.
pub TableReaches-IsTable : (t t' : TableRead) → TableReaches t t' → IsTable t → IsTable t'
TableReaches-IsTable t _ unchanged v = v
TableReaches-IsTable t _ (one_more u t' before step) v =
    TableStep-IsTable u t' step (TableReaches-IsTable t u before v)
