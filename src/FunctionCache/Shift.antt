-- ===== src/FunctionCache/Shift.antt =====
-- What the loop of `function_cache_up` in src/function_cache.c does to the array.
use plcontainer.Common.{
  ℕ, zero, suc, ◌≤◌, ◌<◌, Option, List, [], ◌∷◌, ◌++◌, length, set, length-set, take, drop, ◌≡◌,
  refl, ap, ◌∙◌, arith,
}
use plcontainer.FunctionCache.{ProcInfo, slot, shift_right, function_cache_up}

one_step :
    (i : ℕ) (x : Option ProcInfo) (xs : List (Option ProcInfo))
    → i < length xs
    → take i (x ∷ set xs i (slot (x ∷ xs) i)) ++ drop i (set xs i (slot (x ∷ xs) i))
      ≡ take (suc i) (x ∷ xs) ++ drop (suc i) xs
one_step i x [] h = absurd (omega arith)
one_step zero x (y ∷ ys) h = refl
one_step (suc i) x (y ∷ ys) h = ap (λ l. x ∷ l) (one_step i y ys (omega arith))

pub shift_right-take :
    (i : ℕ) (x : Option ProcInfo) (xs : List (Option ProcInfo))
    → i ≤ length xs
    → shift_right i (x ∷ xs) ≡ x ∷ (take i (x ∷ xs) ++ drop i xs)
unfolding shift_right
shift_right-take zero x xs h = refl
shift_right-take (suc i) x xs h =
    shift_right-take i x (set xs i (slot (x ∷ xs) i))
      (omega (arith, length-set xs i (slot (x ∷ xs) i)))
    ∙ ap (λ l. x ∷ l) (one_step i x xs (omega arith))

-- The item moves to the front and the others keep their order.
pub function_cache_up-take :
    (i : ℕ) (x : Option ProcInfo) (xs : List (Option ProcInfo))
    → i ≤ length xs
    → function_cache_up i (x ∷ xs) ≡ slot (x ∷ xs) i ∷ (take i (x ∷ xs) ++ drop i xs)
unfolding function_cache_up
function_cache_up-take zero x xs h = refl
function_cache_up-take (suc i) x xs h =
    ap (λ a. set a 0 (slot (x ∷ xs) (suc i))) (shift_right-take (suc i) x xs h)
