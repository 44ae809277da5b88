-- ===== src/SqlHandler.antt =====
-- `handle_sql_message` of src/sqlhandler.c: a client's query on the plans of its connection. SPI and
-- the catalogs enter as what they answer.
pub mod State
pub mod Execute
pub mod Prepare
pub mod Results
pub mod Heap
pub mod Sound
pub mod Validity
pub mod Whole
pub mod Deinit
pub mod Leaked
pub mod Unregistered
use plcontainer.Common.{
  ℕ, zero, suc, Bool, true, false, not, Option, none, some, List, [], ◌∷◌, length, ◌==◌,
  if◌then◌else◌,
}
use plcontainer.Message.Datatype
use plcontainer.Message.Datatype.{Cstring, Datatype, PlcType, plc_type, datatype}
use plcontainer.Message.Value.{Value, Raw, null, datum}
use plcontainer.Message.Struct.{
  Argument, Sql, statement, prepare, unprepare, pexecute, Message, raw, result, QueryResult,
}
use plcontainer.PplanSlots.{
  PplanSlots, slot_at, max_pplan, search_pplan, insert_pplan, delete_pplan,
}
use plcontainer.SqlHandler.Results.{
  Tuptable, create_sql_result, create_prepare_result, create_unprepare_result,
}
use plcontainer.SqlHandler.Heap.{PlcPlan, Cell, filled, unfilled, find_cell, remove_cell}
use plcontainer.SqlHandler.State.{
  Executed, Spi, SubEvent, SqlState, Handled, rows_returned, rows_counted, not_handled, begun,
  released, rolled_back, answered, raised, invalid,
}
use plcontainer.SqlHandler.Execute.{
  Values, is_composite, cons_value, bind_value, first_oid, other_oids, bind_raw, bind_values,
  executed, run_plan, execute_cell, is_found, handle_pexecute, values, no_values,
}
use plcontainer.SqlHandler.Prepare.{
  prepare_oid, cons_oid, prepare_oids, datatypes, with_cell, inserted, prepared, prepare_with,
  minus_one, free_cell, free_deleted, free_plc_plan, unprepared,
}

-- The switch on the type of the message, inside `PG_TRY`.
unfoldable pub handle_body : Spi → Sql → SqlState → Handled × SqlState
unfolding executed handle_pexecute prepare_with prepare_oids unprepared free_plc_plan
handle_body spi (statement limit stmt) st = (executed spi (spi.execute stmt limit), st)
handle_body spi (pexecute args limit pplan) st = handle_pexecute spi args limit pplan st
handle_body spi (prepare args stmt) st = prepare_with spi stmt st (prepare_oids spi args)
handle_body spi (unprepare pplan) st = unprepared (free_plc_plan spi pplan st)
handle_body spi (Sql.unhandled sqltype) st = (raised, st)

abbrev pub event : SubEvent → SqlState → SqlState
event e st = record st { events = e ∷ st.events }

-- The end of `PG_TRY` and `PG_CATCH`.
unfoldable pub finish : Handled × SqlState → Handled × SqlState
finish (answered m, st) = (answered m, event released st)
finish (raised, st) = (raised, event rolled_back st)
finish (invalid, st) = (invalid, st)

unfoldable pub handle_sql_message : Spi → Sql → SqlState → Handled × SqlState
unfolding handle_body finish
handle_sql_message spi msg st = finish (handle_body spi msg (event begun st))

-- The result of freeing one plan, with the rest of the loop.
abbrev pub and_then : (SqlState → Option SqlState) → Option ℕ × SqlState → Option SqlState
and_then rest (none, st) = none
and_then rest (some retval, st) = rest st

-- The loop of `deinit_pplan_slots` from slot `i` on, with `n` to go; `none` as for `free_plc_plan`.
unfoldable pub deinit_from : Spi → ℕ → ℕ → SqlState → Option SqlState
unfolding free_plc_plan
deinit_from spi zero i st = some st
deinit_from spi (suc n) i st =
    and_then (deinit_from spi n (suc i)) (free_plc_plan spi (slot_at st.slots.pplans i).pplan st)

unfoldable pub deinit_pplan_slots : Spi → SqlState → Option SqlState
unfolding deinit_from
deinit_pplan_slots spi st = deinit_from spi max_pplan 0 st
