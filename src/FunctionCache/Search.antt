-- ===== src/FunctionCache/Search.antt =====
-- The search of src/function_cache.c on the array, and on the list that the array holds.
use plcontainer.Common.{
  ℕ, zero, suc, ◌≤◌, ◌<◌, true, false, Option, none, some, List, [], ◌∷◌, ◌++◌, length, get_elem?,
  take, drop, ◌==◌, if◌then◌else◌, ◌≡◌, refl, ap, ◌⊎◌, inl, inr, arith, Bool-cases,
}
use plcontainer.FunctionCache.{ProcInfo, slot, find}

-- The array that holds a list, with NULL behind it.
unfoldable pub padded : ℕ → List ProcInfo → List (Option ProcInfo)
padded zero l = []
padded (suc n) [] = none ∷ padded n []
padded (suc n) (p ∷ l) = some p ∷ padded n l

unfoldable pub lookup : ℕ → List ProcInfo → Option ProcInfo
lookup func_oid [] = none
lookup func_oid (p ∷ l) =
    let later = lookup func_oid l in if p.func_oid == func_oid then some p else later

unfoldable pub without : ℕ → List ProcInfo → List ProcInfo
without func_oid [] = []
without func_oid (p ∷ l) =
    let later = without func_oid l in if p.func_oid == func_oid then l else p ∷ later

abbrev pub used : ℕ → List ProcInfo → List ProcInfo
used func_oid l = elim (lookup func_oid l) [ none ↦ l | some p ↦ p ∷ without func_oid l ]

-- What a new procedure of that oid takes the place of.
abbrev pub displaced : ℕ → List ProcInfo → Option ProcInfo
displaced func_oid l = elim (lookup func_oid l) [ none ↦ get_elem? l 4 | some p ↦ some p ]

pub length-padded : (n : ℕ) (l : List ProcInfo) → length (padded n l) ≡ n
unfolding padded
length-padded zero l = refl
length-padded (suc n) [] = ap suc (length-padded n [])
length-padded (suc n) (p ∷ l) = ap suc (length-padded n l)

pub take-padded : (n : ℕ) (l : List ProcInfo) → take n (padded (suc n) l) ≡ padded n l
unfolding padded
take-padded zero l = refl
take-padded (suc n) [] = ap (λ a. none ∷ a) (take-padded n [])
take-padded (suc n) (p ∷ l) = ap (λ a. some p ∷ a) (take-padded n l)

pub padded-take : (n : ℕ) (l : List ProcInfo) → padded n (take n l) ≡ padded n l
unfolding padded
padded-take zero l = refl
padded-take (suc n) [] = refl
padded-take (suc n) (p ∷ l) = ap (λ a. some p ∷ a) (padded-take n l)

pub slot-padded : (n i : ℕ) (l : List ProcInfo) → i < n → slot (padded n l) i ≡ get_elem? l i
unfolding padded
slot-padded zero i l h = absurd (omega arith)
slot-padded (suc n) zero [] h = refl
slot-padded (suc n) zero (p ∷ l) h = refl
slot-padded (suc n) (suc i) [] h = slot-padded n i [] (omega arith)
slot-padded (suc n) (suc i) (p ∷ l) h = slot-padded n i l (omega arith)

-- The search of the array finds what the search of the list does.
pub record Found (func_oid n : ℕ) (l : List ProcInfo) (p : ProcInfo) : Type 0 where
  pub index : ℕ
  pub finds : find func_oid (padded (suc n) l) ≡ some index
  pub inside : index ≤ n
  pub is_there : slot (padded (suc n) l) index ≡ some p
  pub is_first : lookup func_oid l ≡ some p
  pub others :
      take index (padded (suc n) l) ++ drop (suc index) (padded (suc n) l)
      ≡ padded n (without func_oid l)

abbrev pub Missing : ℕ → ℕ → List ProcInfo → Type 0
Missing func_oid n l =
    (find func_oid (padded n l) ≡ none) × (lookup func_oid l ≡ none) × (without func_oid l ≡ l)

pub no_items : (func_oid n : ℕ) → find func_oid (padded n []) ≡ none
unfolding find padded
no_items func_oid zero = refl
no_items func_oid (suc n) = rw (no_items func_oid n) refl

module _ (func_oid n : ℕ) (p : ProcInfo) (l : List ProcInfo) where
  here : (p.func_oid == func_oid) ≡ true → Found func_oid n (p ∷ l) p
  unfolding find padded lookup without
  here e = record {
    index = 0;
    finds = rw e refl;
    inside = omega arith;
    is_there = refl;
    is_first = rw e refl;
    others = rw e refl;
  }

module _ (func_oid n : ℕ) (p q : ProcInfo) (l : List ProcInfo)
    (e : (p.func_oid == func_oid) ≡ false) where
  later : Found func_oid n l q → Found func_oid (suc n) (p ∷ l) q
  unfolding find padded lookup without
  later f = record {
    index = suc f.index;
    finds = rw (e, f.finds) refl;
    inside = omega (arith, f.inside);
    is_there = f.is_there;
    is_first = rw e f.is_first;
    others = rw e (ap (λ a. some p ∷ a) f.others);
  }

pub nowhere :
    (func_oid n : ℕ) (p : ProcInfo) (l : List ProcInfo)
    → (p.func_oid == func_oid) ≡ false
    → Missing func_oid n l
    → Missing func_oid (suc n) (p ∷ l)
unfolding find padded lookup without
nowhere func_oid n p l e m = (rw (e, m.0) refl, rw e m.1, rw e (ap (λ a. p ∷ a) m.2))

pub empty_search : (func_oid : ℕ) (l : List ProcInfo) → length l ≤ 0 → Missing func_oid 0 l
unfolding lookup without
empty_search func_oid [] h = (no_items func_oid 0, refl, refl)
empty_search func_oid (p ∷ l) h = absurd (omega arith)

pub search_lem :
    (func_oid n : ℕ) (l : List ProcInfo)
    → length l ≤ suc n
    → Missing func_oid (suc n) l ⊎ ((p : ProcInfo) × Found func_oid n l p)
unfolding lookup without
search_lem func_oid n [] h = inl (no_items func_oid (suc n), refl, refl)
search_lem func_oid zero (p ∷ l) h = elim (Bool-cases (p.func_oid == func_oid)) [
  | inl e ↦ inr (p, here func_oid 0 p l e)
  | inr e ↦ inl (nowhere func_oid 0 p l e (empty_search func_oid l (omega arith)))
]
search_lem func_oid (suc n) (p ∷ l) h = elim (Bool-cases (p.func_oid == func_oid)) [
  | inl e ↦ inr (p, here func_oid (suc n) p l e)
  | inr e ↦ elim (search_lem func_oid n l (omega arith)) [
    | inl m ↦ inl (nowhere func_oid (suc n) p l e m)
    | inr (q, f) ↦ inr (q, later func_oid n p q l e f)
  ]
]
