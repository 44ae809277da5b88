-- ===== src/SqlHandler/Prepare.antt =====
-- SQL_TYPE_PREPARE of `handle_sql_message` in src/sqlhandler.c, and `free_plc_plan`.
use plcontainer.Common.{ℕ, Option, none, some, List, [], ◌∷◌, length, ◌==◌, if◌then◌else◌}
use plcontainer.Message.Datatype.{Cstring, Datatype, PlcType, plc_type}
use plcontainer.Message.Struct.{Argument}
use plcontainer.PplanSlots.{PplanSlots, insert_pplan, delete_pplan}
use plcontainer.SqlHandler.Results.{create_prepare_result, create_unprepare_result}
use plcontainer.SqlHandler.Heap.{Cell, filled, unfilled, find_cell, remove_cell}
use plcontainer.SqlHandler.State.{Spi, SqlState, Handled, answered, raised, invalid}

-- The oid of one parameter of PREPARE.
unfoldable pub prepare_oid : Spi → PlcType → Option ℕ
prepare_oid spi (plc_type Datatype.text name subs) = spi.parse_type_string name
prepare_oid spi (plc_type Datatype.int4 name subs) = spi.parse_oid name
prepare_oid spi (plc_type Datatype.int1 name subs) = none
prepare_oid spi (plc_type Datatype.int2 name subs) = none
prepare_oid spi (plc_type Datatype.int8 name subs) = none
prepare_oid spi (plc_type Datatype.float4 name subs) = none
prepare_oid spi (plc_type Datatype.float8 name subs) = none
prepare_oid spi (plc_type Datatype.array name subs) = none
prepare_oid spi (plc_type Datatype.udt name subs) = none
prepare_oid spi (plc_type Datatype.bytea name subs) = none
prepare_oid spi (plc_type Datatype.invalid name subs) = none
prepare_oid spi (plc_type Datatype.unset name subs) = none
prepare_oid spi (plc_type (Datatype.unknown n) name subs) = none

abbrev pub cons_oid : Option ℕ → Option (List ℕ) → Option (List ℕ)
cons_oid none oids = none
cons_oid (some oid) none = none
cons_oid (some oid) (some oids) = some (oid ∷ oids)

-- The loop over the parameters of PREPARE.
unfoldable pub prepare_oids : Spi → List Argument → Option (List ℕ)
unfolding prepare_oid
prepare_oids spi [] = some []
prepare_oids spi (a ∷ args) = cons_oid (prepare_oid spi a.type) (prepare_oids spi args)

abbrev pub datatypes : Spi → List ℕ → List Datatype
datatypes spi [] = []
datatypes spi (oid ∷ oids) = spi.datatype_from_oid oid ∷ datatypes spi oids

abbrev pub with_cell : Spi → Cell → SqlState → SqlState
with_cell spi cell st = record st { heap = (spi.address, cell) ∷ st.heap }

-- The result of `insert_pplan`.
unfoldable pub inserted : Spi → List ℕ → ℕ → SqlState → Option ℕ × PplanSlots → Handled × SqlState
unfolding create_prepare_result
inserted spi oids plan st (none, slots) = (raised, st)
inserted spi oids plan st (some slot, slots) = (
  answered (create_prepare_result spi.address plan (datatypes spi oids)),
  record st { slots = slots },
)

unfoldable pub prepared : Spi → List ℕ → ℕ → SqlState → Handled × SqlState
unfolding inserted insert_pplan create_prepare_result
prepared spi oids tmpplan st =
    if tmpplan == 0
    then (
      answered (create_prepare_result spi.address 0 (datatypes spi oids)),
      with_cell spi (filled (record { arg_oids = oids; plan = 0; nargs = length oids })) st,
    )
    else (let plan = spi.saveplan tmpplan in
        let st : SqlState =
          with_cell spi (filled (record { arg_oids = oids; plan = plan; nargs = length oids }))
            st in
        inserted spi oids plan st (insert_pplan spi.address st.slots))

unfoldable pub prepare_with : Spi → Cstring → SqlState → Option (List ℕ) → Handled × SqlState
unfolding prepared
prepare_with spi stmt st none = (raised, with_cell spi unfilled st)
prepare_with spi stmt st (some oids) = prepared spi oids (spi.prepare stmt oids) st

-- The int -1 as a bit pattern.
abbrev pub minus_one : ℕ
minus_one = 4294967295

-- `free_plc_plan` once the slot is known, with the block and without.
unfoldable pub free_cell : Spi → ℕ → ℕ → SqlState → Option Cell → Option ℕ × SqlState
unfolding remove_cell
free_cell spi slot pplan st none = (none, st)
free_cell spi slot pplan st (some unfilled) = (none, st)
free_cell spi slot pplan st (some (filled p)) = (
  some (if p.plan == 0 then slot else spi.freeplan p.plan),
  record st { heap = remove_cell pplan st.heap },
)

unfoldable pub free_deleted : Spi → ℕ → SqlState → Option ℕ × PplanSlots → Option ℕ × SqlState
unfolding free_cell find_cell
free_deleted spi pplan st (none, slots) = (some minus_one, st)
free_deleted spi pplan st (some slot, slots) =
    free_cell spi slot pplan (record st { slots = slots }) (find_cell pplan st.heap)

-- `none` is the use of a block that is freed or not filled.
unfoldable pub free_plc_plan : Spi → ℕ → SqlState → Option ℕ × SqlState
unfolding free_deleted
free_plc_plan spi pplan st = free_deleted spi pplan st (delete_pplan pplan st.slots)

unfoldable pub unprepared : Option ℕ × SqlState → Handled × SqlState
unfolding create_unprepare_result
unprepared (none, st) = (invalid, st)
unprepared (some retval, st) = (answered (create_unprepare_result retval), st)
