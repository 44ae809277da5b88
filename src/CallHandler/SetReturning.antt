-- ===== src/CallHandler/SetReturning.antt =====
-- `plcontainer_function_handler` of src/plcontainer.c for a function that returns a set: each call
-- yields a row, from the result that the first one keeps in `user_fctx`.
use plcontainer.Common.{
  ℕ, zero, suc, ◌+◌, ◌<◌, ◌≡◌, ◌≢◌, refl, ap, ◌∙◌, Bool, true, false, Option, none, some, List, [],
  ◌∷◌, ltb, leb, lt→ltb, le→ltb_false, ◌==◌, if◌then◌else◌, arith,
}

-- The first column of a row: NULL, a datum, or a value that the input function refuses.
pub data Cell : Type 0 where
  null : Cell
  datum : ℕ → Cell
  refused : Cell

-- `plcProcResult` with its message.
pub record ProcResult : Type 0 where
  pub cols : ℕ
  pub rows : ℕ
  pub cell : ℕ → Cell
  pub resrow : ℕ

-- What one call does: a row, with what is kept for the next call; the end of the set; an error,
-- after which nothing is kept; or a crash, where a row of no columns is read through NULL.
pub data Yield : Type 0 where
  next : Option ℕ → ProcResult → Yield
  finished : Yield
  error : Yield
  crash : Yield

abbrev pub yield_cell : Cell → ProcResult → Yield
yield_cell null p = next none p
yield_cell (datum d) p = next (some d) p
yield_cell refused p = error

-- `plcontainer_process_result` and `presult->resrow += 1`.
unfoldable pub process_row : ProcResult → Yield
process_row p =
    let p' : ProcResult = record p { resrow = suc p.resrow } in
    if ltb 1 p.cols
    then error
    else if p.rows == 0
    then next none p'
    else if leb p.rows p.resrow
    then error
    else if p.cols == 0
    then crash
    else yield_cell (p.cell p.resrow) p'

unfoldable pub yield_row : ProcResult → Yield
unfolding process_row
yield_row p = if ltb p.resrow p.rows then process_row p else finished

-- The check of the result set that the caller passes, and of what is kept.
unfoldable pub set_up : Bool → Option ProcResult → Yield
unfolding yield_row
set_up allowed none = error
set_up allowed (some p) = if allowed then yield_row p else error

abbrev pub next_call : Option ProcResult → Yield
unfolding yield_row
next_call none = error
next_call (some p) = yield_row p

-- One call: `first` is SRF_IS_FIRSTCALL, `allowed` that the caller takes a value per call, `result`
-- what `plcontainer_get_result` gives, or an error, and `kept` the `user_fctx`.
unfoldable pub plcontainer_function_handler :
    Bool → Bool → Option ProcResult → Option ProcResult → Yield
unfolding set_up next_call yield_row
plcontainer_function_handler true allowed result kept = set_up allowed result
plcontainer_function_handler false allowed result kept = next_call kept

-- The rows that the caller gets, if it calls until the set ends; `exhausted` when the fuel is used.
pub data Rows : Type 0 where
  rows : List (Option ℕ) → Rows
  failed : Rows
  crashed : Rows
  exhausted : Rows

abbrev pub cons_row : Option ℕ → Rows → Rows
cons_row d (rows ds) = rows (d ∷ ds)
cons_row d failed = failed
cons_row d crashed = crashed
cons_row d exhausted = exhausted

abbrev pub then_rows : (ProcResult → Rows) → Yield → Rows
then_rows rest (next d p) = cons_row d (rest p)
then_rows rest finished = rows []
then_rows rest error = failed
then_rows rest crash = crashed

unfoldable pub later_calls : ℕ → ProcResult → Rows
unfolding plcontainer_function_handler
later_calls zero p = exhausted
later_calls (suc fuel) p =
    then_rows (later_calls fuel) (plcontainer_function_handler false true none (some p))

unfoldable pub all_calls : ℕ → Option ProcResult → Rows
unfolding plcontainer_function_handler later_calls
all_calls fuel result =
    then_rows (later_calls fuel) (plcontainer_function_handler true true result none)

abbrev pub value : Cell → Option ℕ
value null = none
value (datum d) = some d
value refused = none

-- The values of `n` rows from row `k` on.
abbrev pub values_from : (ℕ → Cell) → ℕ → ℕ → List (Option ℕ)
values_from cell k zero = []
values_from cell k (suc n) = value (cell k) ∷ values_from cell (suc k) n

module _ (p : ProcResult) (one_column : 0 < p.rows → p.cols ≡ 1)
    (readable : (i : ℕ) → i < p.rows → p.cell i ≢ refused) where
  abbrev at_row : ℕ → ProcResult
  at_row k = record p { resrow = k }

  yield_cell_lem : (c : Cell) (q : ProcResult) → c ≢ refused → yield_cell c q ≡ next (value c) q
  yield_cell_lem null q h = refl
  yield_cell_lem (datum d) q h = refl
  yield_cell_lem refused q h = absurd (h refl)

  yield_row_lem :
      (k : ℕ) → k < p.rows → yield_row (at_row k) ≡ next (value (p.cell k)) (at_row (suc k))
  unfolding yield_row
  yield_row_lem k h =
      let in_rows : ltb k p.rows ≡ true = lt→ltb k p.rows h in
      let one : p.cols ≡ 1 = one_column (omega arith) in
      let narrow : ltb 1 p.cols ≡ false = le→ltb_false 1 p.cols (omega (arith, one)) in
      let not_none : (p.cols == 0) ≡ false = ground (arith, one) in
      let some_rows : (p.rows == 0) ≡ false = ground arith in
      let below : leb p.rows k ≡ false = ground arith in
      rw (in_rows, narrow, some_rows, below, not_none)
        (yield_cell_lem (p.cell k) (at_row (suc k)) (readable k h))

  yield_row_end : (k : ℕ) → k ≡ p.rows → yield_row (at_row k) ≡ finished
  unfolding yield_row
  yield_row_end k e = rw (le→ltb_false k p.rows (omega arith)) refl

  later_calls_lem :
      (n k fuel : ℕ)
      → k + n ≡ p.rows
      → n < fuel
      → later_calls fuel (at_row k) ≡ rows (values_from p.cell k n)
  unfolding later_calls
  later_calls_lem n k zero e enough = absurd (omega arith)
  later_calls_lem zero k (suc fuel) e enough =
      ap (then_rows (later_calls fuel)) (yield_row_end k (omega arith))
  later_calls_lem (suc n) k (suc fuel) e enough =
      ap (then_rows (later_calls fuel)) (yield_row_lem k (omega arith))
      ∙ ap (cons_row (value (p.cell k)))
          (later_calls_lem n (suc k) fuel (omega arith) (omega arith))

-- A result of one column, if it has any row, whose values the input function takes: the caller gets the value of
-- each row, in order and once, then the end of the set, after as many calls as there are rows and one
-- more.
pub all_calls-values_from :
    (p : ProcResult)
    → (0 < p.rows → p.cols ≡ 1)
    → ((i : ℕ) → i < p.rows → p.cell i ≢ refused)
    → p.resrow ≡ 0
    → all_calls p.rows (some p) ≡ rows (values_from p.cell 0 p.rows)
unfolding all_calls
all_calls-values_from p narrow readable first =
    ap (λ k. later_calls (suc p.rows) (record p { resrow = k })) first
    ∙ later_calls_lem p narrow readable p.rows 0 (suc p.rows) (omega arith) (omega arith)
