-- ===== src/SqlHandler/Results.antt =====
-- The answers that src/sqlhandler.c builds: `create_sql_result`, `create_prepare_result` and
-- `create_unprepare_result`.
use plcontainer.Common.{
  ℕ, zero, suc, Bool, true, false, Option, none, some, List, [], ◌∷◌, ◌++◌, length, ◌==◌,
  if◌then◌else◌,
}
use plcontainer.Message.Datatype.{Datatype, to_code}
use plcontainer.Message.Value.{Value, Raw, null, datum, Raws, nil, cons}
use plcontainer.Message.Struct.{Column, QueryResult, Message, raw}
use plcontainer.Channel.Word.{le_bytes}

-- `SPI_tuptable`: the columns with their type information and names, and for each cell NULL or what
-- the `outfunc` of its column makes of it.
pub record Tuptable : Type 0 where
  pub columns : List Column
  pub cell : ℕ → ℕ → Option Value

abbrev pub cell_raw : Option Value → Raw
cell_raw none = null
cell_raw (some v) = datum v

-- Row `i` from column `j` on.
unfoldable pub row_cells : Tuptable → ℕ → ℕ → List Column → Raws
row_cells t i j [] = nil
row_cells t i j (c ∷ columns) = cons (cell_raw (t.cell i j)) (row_cells t i (suc j) columns)

-- `n` rows from row `i` on.
unfoldable pub rows_cells : Tuptable → ℕ → ℕ → List Raws
unfolding row_cells
rows_cells t i zero = []
rows_cells t i (suc n) = row_cells t i 0 t.columns ∷ rows_cells t (suc i) n

-- `none` is the error that no table was returned.
unfoldable pub create_sql_result : Bool → ℕ → Option Tuptable → Option QueryResult
unfolding rows_cells
create_sql_result false processed table =
    some (record { rows = processed; columns = []; cells = []; exception = none })
create_sql_result true processed none = none
create_sql_result true processed (some t) = some (record {
  rows = processed;
  columns = t.columns;
  cells = rows_cells t 0 processed;
  exception = none;
})

abbrev pub datatype_bytes : List Datatype → List ℕ
datatype_bytes [] = []
datatype_bytes (d ∷ ds) = le_bytes 4 (to_code d) ++ datatype_bytes ds

-- The state of the plan, its address and the number and the types of its parameters.
unfoldable pub create_prepare_result : ℕ → ℕ → List Datatype → Message
create_prepare_result pplan plan types = raw (
    le_bytes 4 (if plan == 0 then 0 else 1)
    ++ (le_bytes 8 pplan ++ (le_bytes 4 (length types) ++ datatype_bytes types)))

unfoldable pub create_unprepare_result : ℕ → Message
create_unprepare_result retval = raw (le_bytes 4 retval)
