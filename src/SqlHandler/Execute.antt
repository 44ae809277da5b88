-- ===== src/SqlHandler/Execute.antt =====
-- The executions of `handle_sql_message` in src/sqlhandler.c: SQL_TYPE_PEXECUTE, and the results of
-- both kinds of execution.
use plcontainer.Common.{
  ℕ, Bool, true, false, Option, none, some, List, [], ◌∷◌, length, ◌==◌, if◌then◌else◌,
}
use plcontainer.Message.Datatype.{Datatype}
use plcontainer.Message.Value.{Value, Raw, null, datum}
use plcontainer.Message.Struct.{Argument, result}
use plcontainer.PplanSlots.{search_pplan}
use plcontainer.SqlHandler.Results.{create_sql_result}
use plcontainer.SqlHandler.Heap.{PlcPlan, Cell, filled, unfilled, find_cell}
use plcontainer.SqlHandler.State.{
  Executed, Spi, SqlState, Handled, rows_returned, rows_counted, not_handled, answered, raised,
  invalid,
}

-- The loop over `values` of PEXECUTE, at entry `i`.
pub data Values : Type 0 where
  values : List (Option ℕ) → Values
  no_values : Handled → Values

abbrev pub is_composite : Datatype → Bool
is_composite Datatype.array = true
is_composite Datatype.udt = true
is_composite Datatype.int1 = false
is_composite Datatype.int2 = false
is_composite Datatype.int4 = false
is_composite Datatype.int8 = false
is_composite Datatype.float4 = false
is_composite Datatype.float8 = false
is_composite Datatype.text = false
is_composite Datatype.bytea = false
is_composite Datatype.invalid = false
is_composite Datatype.unset = false
is_composite (Datatype.unknown n) = false

abbrev pub cons_value : Option ℕ → Values → Values
cons_value v (values vs) = values (v ∷ vs)
cons_value v (no_values h) = no_values h

-- A value that is not NULL, with the oid of its parameter; the rest of the loop comes after it.
unfoldable pub bind_value : Spi → Option ℕ → Value → Values → Values
bind_value spi none v rest = no_values invalid
bind_value spi (some oid) v rest =
    if is_composite (spi.datatype_from_oid oid)
    then no_values raised
    else elim (spi.in_func oid v) [ none ↦ no_values raised | some d ↦ cons_value (some d) rest ]

abbrev pub first_oid : List ℕ → Option ℕ
first_oid [] = none
first_oid (oid ∷ oids) = some oid

abbrev pub other_oids : List ℕ → List ℕ
other_oids [] = []
other_oids (oid ∷ oids) = oids

unfoldable pub bind_raw : Spi → Option ℕ → Raw → Values → Values
unfolding bind_value
bind_raw spi oid null rest = cons_value none rest
bind_raw spi oid (datum v) rest = bind_value spi oid v rest

unfoldable pub bind_values : Spi → List Argument → List ℕ → Values
unfolding bind_raw
bind_values spi [] oids = values []
bind_values spi (a ∷ args) oids =
    bind_raw spi (first_oid oids) a.value (bind_values spi args (other_oids oids))

-- `switch (retval)`
unfoldable pub executed : Spi → Executed → Handled
unfolding create_sql_result
executed spi rows_returned = elim (create_sql_result true spi.processed spi.tuptable) [
  | none ↦ raised
  | some r ↦ answered (result r)
]
executed spi rows_counted = elim (create_sql_result false spi.processed spi.tuptable) [
  | none ↦ raised
  | some r ↦ answered (result r)
]
executed spi not_handled = raised

unfoldable pub run_plan : Spi → PlcPlan → ℕ → Values → Handled
unfolding executed
run_plan spi p limit (values vs) = executed spi (spi.execute_plan p.plan vs limit)
run_plan spi p limit (no_values h) = h

unfoldable pub execute_cell : Spi → List Argument → ℕ → Option Cell → Handled
unfolding run_plan bind_values
execute_cell spi args limit none = invalid
execute_cell spi args limit (some unfilled) = invalid
execute_cell spi args limit (some (filled p)) =
    if p.nargs == length args
    then run_plan spi p limit (bind_values spi args p.arg_oids)
    else raised

abbrev pub is_found : Option ℕ → Bool
is_found none = false
is_found (some i) = true

-- SQL_TYPE_PEXECUTE
unfoldable pub handle_pexecute : Spi → List Argument → ℕ → ℕ → SqlState → Handled × SqlState
unfolding execute_cell find_cell
handle_pexecute spi args limit pplan st =
    if is_found (search_pplan pplan st.slots)
    then (execute_cell spi args limit (find_cell pplan st.heap), st)
    else (raised, st)
