-- ===== src/SqlHandler/Heap.antt =====
-- The blocks of `plcPlan` of src/sqlhandler.h, by address.
use plcontainer.Common.{
  ℕ, ◌≡◌, ◌≢◌, refl, Option, none, some, List, [], ◌∷◌, ◌==◌, ==_iff, if◌then◌else◌, arith,
}

pub record PlcPlan : Type 0 where
  pub arg_oids : List ℕ
  pub plan : ℕ
  pub nargs : ℕ

-- A block whose fields are not all set was left by an error.
pub data Cell : Type 0 where
  unfilled : Cell
  filled : PlcPlan → Cell

unfoldable pub find_cell : ℕ → List (ℕ × Cell) → Option Cell
find_cell a [] = none
find_cell a ((b, c) ∷ heap) = let rest = find_cell a heap in if b == a then some c else rest

unfoldable pub remove_cell : ℕ → List (ℕ × Cell) → List (ℕ × Cell)
remove_cell a [] = []
remove_cell a ((b, c) ∷ heap) =
    let rest = remove_cell a heap in if b == a then rest else (b, c) ∷ rest

pub find_cell-remove_cell :
    (a b : ℕ) (heap : List (ℕ × Cell)) → a ≢ b → find_cell a (remove_cell b heap) ≡ find_cell a heap
unfolding find_cell remove_cell
find_cell-remove_cell a b [] h = refl
find_cell-remove_cell a b ((k, c) ∷ heap) h = ground (arith, find_cell-remove_cell a b heap h)

pub find_cell-remove_cell_self :
    (a : ℕ) (heap : List (ℕ × Cell)) → find_cell a (remove_cell a heap) ≡ none
unfolding find_cell remove_cell
find_cell-remove_cell_self a [] = refl
find_cell-remove_cell_self a ((k, c) ∷ heap) = ground (arith, find_cell-remove_cell_self a heap)

pub find_cell_first :
    (a : ℕ) (c : Cell) (heap : List (ℕ × Cell)) → find_cell a ((a, c) ∷ heap) ≡ some c
unfolding find_cell
find_cell_first a c heap = rw ((==_iff a a).1 refl) refl
