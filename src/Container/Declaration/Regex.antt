-- ===== src/Container/Declaration/Regex.antt =====
-- The expression "^[a-zA-Z0-9][a-zA-Z0-9_.-]*$", which `check_runtime_id` of src/containers.c
-- is to test.
use plcontainer.Common.{
  ℕ, suc, ◌≤◌, ◌≡◌, refl, ◌↔◌, ◌⊎◌, inl, inr, true, List, [], ◌∷◌, ◌++◌, All, Bool-cases, arith,
}
use plcontainer.Container.Declaration.{check_from, check_runtime_id}

pub data Regex : Type 0 where
  class : List (ℕ × ℕ) → Regex
  seq : Regex → Regex → Regex
  star : Regex → Regex

-- The character lies in one of the ranges.
abbrev pub InClass : ℕ → List (ℕ × ℕ) → Type 0
InClass c [] = ⊥
InClass c ((lo, hi) ∷ ranges) = ((lo ≤ c) × (c ≤ hi)) ⊎ InClass c ranges

-- The whole text matches the expression.
pub data Matches : Regex → List ℕ → Type 0 where
  one : {ranges : List (ℕ × ℕ)} (c : ℕ) → InClass c ranges → Matches (class ranges) (c ∷ [])
  both :
      {r q : Regex} (s t : List ℕ) {u : List ℕ}
      → Matches r s
      → Matches q t
      → u ≡ s ++ t
      → Matches (seq r q) u
  stop : {r : Regex} → Matches (star r) []
  more :
      {r : Regex} (s t : List ℕ) {u : List ℕ}
      → Matches r s
      → Matches (star r) t
      → u ≡ s ++ t
      → Matches (star r) u

abbrev pub alphanumeric : List (ℕ × ℕ)
alphanumeric = (b'a', b'z') ∷ (b'A', b'Z') ∷ (b'0', b'9') ∷ []

abbrev pub id_char : List (ℕ × ℕ)
id_char =
    (b'a', b'z') ∷ (b'A', b'Z') ∷ (b'0', b'9') ∷ (b'_', b'_') ∷ (b'.', b'.') ∷ (b'-', b'-') ∷ []

abbrev pub runtime_id_regex : Regex
runtime_id_regex = seq (class alphanumeric) (star (class id_char))

-- A starred class holds of each character.
star-All :
    {ranges : List (ℕ × ℕ)} {u : List ℕ}
    → Matches (star (class ranges)) u
    → All (λ c. InClass c ranges) u
star-All stop = tt
star-All (more _ t (one c h) ms e) = rw e (h, star-All ms)

All-star :
    {ranges : List (ℕ × ℕ)} (u : List ℕ)
    → All (λ c. InClass c ranges) u
    → Matches (star (class ranges)) u
All-star [] h = stop
All-star (c ∷ u) (h, hs) = more (c ∷ []) u (one c h) (All-star u hs) refl

check_from-rest :
    (i d : ℕ) (id : List ℕ)
    → check_from (suc i) (d ∷ id) ≡ true
    → check_from (suc (suc i)) id ≡ true
unfolding check_from
check_from-rest i d id h = elim (Bool-cases (check_from (suc (suc i)) id)) [
  | inl e ↦ e
  | inr e ↦ ground arith
]

check_from-InClass :
    (i d : ℕ) (id : List ℕ) → check_from (suc i) (d ∷ id) ≡ true → InClass d id_char
unfolding check_from
check_from-InClass i d id h = ground arith

check_from-All :
    (i : ℕ) (id : List ℕ) → check_from (suc i) id ≡ true → All (λ c. InClass c id_char) id
check_from-All i [] h = tt
check_from-All i (d ∷ id) h =
    (check_from-InClass i d id h, check_from-All (suc i) id (check_from-rest i d id h))

All-check_from :
    (i : ℕ) (id : List ℕ) → All (λ c. InClass c id_char) id → check_from (suc i) id ≡ true
unfolding check_from
All-check_from i [] h = ground arith
All-check_from i (d ∷ id) (h, hs) = ground (arith, All-check_from (suc i) id hs)

check_runtime_id-first :
    (d : ℕ) (id : List ℕ)
    → check_runtime_id (d ∷ id) ≡ true
    → (check_from 1 id ≡ true) × InClass d alphanumeric
unfolding check_runtime_id
check_runtime_id-first d id h = elim (Bool-cases (check_from 1 id)) [
  | inl e ↦ (e, ground arith)
  | inr e ↦ ground arith
]

first-check_runtime_id :
    (d : ℕ) (id : List ℕ)
    → InClass d alphanumeric
    → check_from 1 id ≡ true
    → check_runtime_id (d ∷ id) ≡ true
unfolding check_runtime_id
first-check_runtime_id d id h e = ground arith

check_runtime_id→Matches : (id : List ℕ) → check_runtime_id id ≡ true → Matches runtime_id_regex id
unfolding check_runtime_id
check_runtime_id→Matches [] h = ground arith
check_runtime_id→Matches (d ∷ id) h =
    let (e, first) = check_runtime_id-first d id h in
    both (d ∷ []) id (one d first) (All-star id (check_from-All 0 id e)) refl

Matches→check_runtime_id : (id : List ℕ) → Matches runtime_id_regex id → check_runtime_id id ≡ true
Matches→check_runtime_id id (both _ t (one c h) rest e) =
    rw e (first-check_runtime_id c t h (All-check_from 0 t (star-All rest)))

-- `check_runtime_id` accepts exactly the texts that match "^[a-zA-Z0-9][a-zA-Z0-9_.-]*$".
pub check_runtime_id-Matches :
    (id : List ℕ) → (check_runtime_id id ≡ true) ↔ Matches runtime_id_regex id
check_runtime_id-Matches id = (check_runtime_id→Matches id, Matches→check_runtime_id id)

-- Each character of such a text is one that an id may hold.
pub Matches-All : (id : List ℕ) → Matches runtime_id_regex id → All (λ c. InClass c id_char) id
Matches-All id (both _ t (one c h) rest e) = rw e (ground arith, star-All rest)
