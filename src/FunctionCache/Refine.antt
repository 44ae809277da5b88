-- ===== src/FunctionCache/Refine.antt =====
-- The cache of src/function_cache.c as a list of at most five procedures, most recent first.
use plcontainer.Common.{
  ℕ, zero, suc, ◌≤◌, ◌<◌, true, Option, none, some, List, [], ◌∷◌, ◌++◌, length, get_elem?, set,
  take, drop, ◌==◌, ◌≡◌, refl, sym, ap, ap₂, ◌∙◌, inl, inr, arith, Bool-cases, append-nil,
  length-take,
}
use plcontainer.FunctionCache.{
  ProcInfo, FunctionCache, slot, shift_right, function_cache_up, find, ready_slots, get_at,
  function_cache_get, free_proc_info, put_after_get, function_cache_put,
}
use plcontainer.FunctionCache.Shift.{shift_right-take, function_cache_up-take}
use plcontainer.FunctionCache.Search.{
  padded, lookup, without, used, displaced, length-padded, take-padded, padded-take, slot-padded,
  Found, Missing, search_lem,
}

pub record Represents (c : FunctionCache) (l : List ProcInfo) : Type 0 where
  pub holds : ready_slots c ≡ padded 5 l
  pub fits : length l ≤ 5

moved_up :
    (a : List (Option ProcInfo)) (i : ℕ)
    → i < length a
    → function_cache_up i a ≡ slot a i ∷ (take i a ++ drop (suc i) a)
moved_up [] i h = absurd (omega arith)
moved_up (x ∷ xs) i h = function_cache_up-take i x xs (omega arith)

shifted :
    (a : List (Option ProcInfo)) (f : Option ProcInfo)
    → length a ≡ 5
    → set (shift_right 4 a) 0 f ≡ f ∷ take 4 a
shifted [] f h = absurd (omega arith)
shifted (x ∷ xs) f h =
    ap (λ a. set a 0 f) (shift_right-take 4 x xs (omega arith))
    ∙ ap (λ a. f ∷ (take 4 (x ∷ xs) ++ a)) (nothing_left xs 4 (omega arith))
    ∙ ap (λ a. f ∷ a) (append-nil (take 4 (x ∷ xs)))
  where
    nothing_left : (ys : List (Option ProcInfo)) (n : ℕ) → length ys ≡ n → drop n ys ≡ []
    nothing_left [] zero e = refl
    nothing_left [] (suc n) e = absurd (omega arith)
    nothing_left (y ∷ ys) zero e = absurd (omega arith)
    nothing_left (y ∷ ys) (suc n) e = nothing_left ys n (omega arith)

length-without :
    (func_oid : ℕ) (l : List ProcInfo) (p : ProcInfo)
    → lookup func_oid l ≡ some p
    → suc (length (without func_oid l)) ≡ length l
unfolding lookup without
length-without func_oid [] p e = absurd (cc)
length-without func_oid (q ∷ l) p e = elim (Bool-cases (q.func_oid == func_oid)) [
  | inl f ↦ rw f refl
  | inr f ↦ rw f (ap suc (length-without func_oid l p (rw f at e)))
]

holding : FunctionCache → List ProcInfo → FunctionCache
holding c l = record c { slots = padded 5 l; initialized = true }

holding-Represents :
    (c : FunctionCache) (l : List ProcInfo) → length l ≤ 5 → Represents (holding c l) l
unfolding holding
holding-Represents c l h = record { holds = refl; fits = h }

put_new :
    (func : ProcInfo) (o : Option ProcInfo) (c : FunctionCache) (l : List ProcInfo)
    → record (free_proc_info o (holding c l)) {
      slots = set (shift_right 4 (free_proc_info o (holding c l)).slots) 0 (some func);
    }
      ≡ holding (free_proc_info o c) (func ∷ l)
unfolding holding padded
put_new func none c l =
    ap (λ a. record c { slots = a; initialized = true })
      (shifted (padded 5 l) (some func) (length-padded 5 l)
        ∙ ap (λ a. some func ∷ a) (take-padded 4 l))
put_new func (some p) c l =
    ap (λ a. record c { slots = a; initialized = true; freed = p ∷ c.freed })
      (shifted (padded 5 l) (some func) (length-padded 5 l)
        ∙ ap (λ a. some func ∷ a) (take-padded 4 l))

module _ (func_oid : ℕ) (c : FunctionCache) (l : List ProcInfo) (r : Represents c l) where
  gets :
      (found : Option ℕ)
      → find func_oid (padded 5 l) ≡ found
      → function_cache_get func_oid c ≡ get_at c (padded 5 l) found
  unfolding function_cache_get
  gets found e =
      ap (λ a. get_at c a (find func_oid a)) r.holds ∙ ap (λ o. get_at c (padded 5 l) o) e

  get_without : Missing func_oid 5 l → function_cache_get func_oid c ≡ (none, holding c l)
  unfolding get_at holding
  get_without m = gets none m.0

  get_with :
      (p : ProcInfo)
      → Found func_oid 4 l p
      → function_cache_get func_oid c ≡ (some p, holding c (p ∷ without func_oid l))
  unfolding get_at holding padded
  get_with p f =
      let up =
        moved_up (padded 5 l) f.index (omega (arith, f.inside, length-padded 5 l))
        ∙ ap (λ x. x ∷ (take f.index (padded 5 l) ++ drop (suc f.index) (padded 5 l))) f.is_there
        ∙ ap (λ a. some p ∷ a) f.others in
      gets (some f.index) f.finds
      ∙ ap₂ (λ x a. (x, record c { slots = a; initialized = true })) f.is_there up

  put_without :
      (func : ProcInfo)
      → func.func_oid ≡ func_oid
      → Missing func_oid 5 l
      → function_cache_put func c ≡ holding (free_proc_info (get_elem? l 4) c) (func ∷ l)
  unfolding function_cache_put put_after_get holding padded
  put_without func e m =
      ap (λ o. put_after_get func (function_cache_get o c)) e
      ∙ ap (put_after_get func) (get_without m)
      ∙ ap
          (λ o. record (free_proc_info o (holding c l)) {
            slots = set (shift_right 4 (free_proc_info o (holding c l)).slots) 0 (some func);
          })
          (slot-padded 5 4 l (omega arith))
      ∙ put_new func (get_elem? l 4) c l

  put_with :
      (func p : ProcInfo)
      → func.func_oid ≡ func_oid
      → Found func_oid 4 l p
      → function_cache_put func c ≡ holding (free_proc_info (some p) c) (func ∷ without func_oid l)
  unfolding function_cache_put put_after_get holding padded
  put_with func p e f =
      ap (λ o. put_after_get func (function_cache_get o c)) e
      ∙ ap (put_after_get func) (get_with p f)

-- On a cache that represents a list of at most five procedures, most recently used first,
-- `function_cache_get` returns the first procedure with the oid, if there is one, frees nothing,
-- and leaves a cache that represents the list with that procedure moved to its front.
pub function_cache_get-Represents :
    (func_oid : ℕ) (c : FunctionCache) (l : List ProcInfo)
    → Represents c l
    → ((function_cache_get func_oid c).0 ≡ lookup func_oid l)
      × Represents (function_cache_get func_oid c).1 (used func_oid l)
      × ((function_cache_get func_oid c).1.freed ≡ c.freed)
unfolding holding
function_cache_get-Represents func_oid c l r = elim (search_lem func_oid 4 l r.fits) [
  | inl m ↦ rw (get_without func_oid c l r m, m.1, used) (refl, holding-Represents c l r.fits, refl)
  | inr (p, f) ↦
      rw (get_with func_oid c l r p f, f.is_first, used)
        (
          refl,
          holding-Represents c (p ∷ without func_oid l)
              (omega (arith, length-without func_oid l p f.is_first, r.fits)),
          refl,
        )
]

-- On a cache that represents a list of at most five procedures, most recently used first,
-- `function_cache_put` puts the procedure in front; it takes the place of the first
-- one with its oid or, where there is none, of the fifth, and exactly the procedure that it
-- takes the place of is freed.
pub function_cache_put-Represents :
    (func : ProcInfo) (c : FunctionCache) (l : List ProcInfo)
    → Represents c l
    → Represents (function_cache_put func c) (take 5 (func ∷ without func.func_oid l))
      × ((function_cache_put func c).freed ≡ (free_proc_info (displaced func.func_oid l) c).freed)
unfolding holding padded
function_cache_put-Represents func c l r = elim (search_lem func.func_oid 4 l r.fits) [
  | inl m ↦
      rw (put_without func.func_oid c l r func refl m, m.1, displaced, m.2)
        (
          record {
            holds = ap (λ a. some func ∷ a) (sym (padded-take 4 l));
            fits = omega (arith, length-take 5 (func ∷ l));
          },
          refl,
        )
  | inr (p, f) ↦
      let w = without func.func_oid l in
      rw (put_with func.func_oid c l r func p refl f, f.is_first, displaced)
        (
          record {
            holds = ap (λ a. some func ∷ a) (sym (padded-take 4 w));
            fits = omega (arith, length-take 5 (func ∷ w));
          },
          refl,
        )
]
