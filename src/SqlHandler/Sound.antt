-- ===== src/SqlHandler/Sound.antt =====
-- That no message makes `handle_sql_message` of src/sqlhandler.c use a block that is freed.
use plcontainer.Common.{
  ℕ, zero, suc, ◌≡◌, ◌≢◌, refl, sym, ap, subst, ◌∙◌, ◌⊎◌, inl, inr, false, none, some, List, [],
  ◌∷◌, length, get_elem?, set, ◌==◌, arith,
}
use plcontainer.PplanSlots.{init_from, init_pplan_slots, PplanSlot}
use plcontainer.SqlHandler.Heap.{PlcPlan, Cell, filled, find_cell}

-- The block at an address is filled, and has as many parameters as it says.
abbrev pub IsLive : List (ℕ × Cell) → ℕ → Type 0
IsLive heap a = (p : PlcPlan) × (find_cell a heap ≡ some (filled p)) × (length p.arg_oids ≡ p.nargs)

-- Each plan in a slot is live, and is in no other slot.
pub record IsSound (heap : List (ℕ × Cell)) (pplans : List PplanSlot) : Type 0 where
  pub live :
      (i : ℕ) (s : PplanSlot) → get_elem? pplans i ≡ some s → s.pplan ≢ 0 → IsLive heap s.pplan
  pub unique :
      (i j : ℕ) (s t : PplanSlot)
      → get_elem? pplans i ≡ some s
      → get_elem? pplans j ≡ some t
      → s.pplan ≢ 0
      → s.pplan ≡ t.pplan
      → i ≡ j

get_elem?-set_cases :
    (xs : List PplanSlot) (k j : ℕ) (v s : PplanSlot)
    → get_elem? (set xs k v) j ≡ some s
    → ((j ≡ k) × (s ≡ v)) ⊎ ((j ≢ k) × (get_elem? xs j ≡ some s))
get_elem?-set_cases [] k j v s h = absurd (cc)
get_elem?-set_cases (x ∷ xs) zero zero v s h = inl (refl, cc)
get_elem?-set_cases (x ∷ xs) zero (suc j) v s h = inr (λ e. omega arith, h)
get_elem?-set_cases (x ∷ xs) (suc k) zero v s h = inr (λ e. omega arith, h)
get_elem?-set_cases (x ∷ xs) (suc k) (suc j) v s h = elim (get_elem?-set_cases xs k j v s h) [
  | inl (e, f) ↦ inl (ap suc e, f)
  | inr (e, f) ↦ inr (λ g. e (omega arith), f)
]

-- Slot `k` is written, and the heap may change, if the plans of the other slots stay live.
pub IsSound-set :
    (heap heap' : List (ℕ × Cell)) (pplans : List PplanSlot) (k : ℕ) (v : PplanSlot)
    → IsSound heap pplans
    → (v.pplan ≢ 0 → IsLive heap' v.pplan)
    → ((j : ℕ) (s : PplanSlot)
        → j ≢ k
        → get_elem? pplans j ≡ some s
        → s.pplan ≢ 0
        → IsLive heap' s.pplan × (s.pplan ≢ v.pplan))
    → IsSound heap' (set pplans k v)
IsSound-set heap heap' pplans k v sound new others = record {
  live = λ i s at nz. elim (get_elem?-set_cases pplans k i v s at) [
    | inl (e, f) ↦
        subst (λ (w : PplanSlot). IsLive heap' w.pplan) (sym f)
          (new (subst (λ (w : PplanSlot). w.pplan ≢ 0) f nz))
    | inr (e, f) ↦ (others i s e f nz).0
  ];
  unique = λ i j s t at at' nz same. elim (get_elem?-set_cases pplans k i v s at) [
    | inl (e, f) ↦ elim (get_elem?-set_cases pplans k j v t at') [
      | inl (e', f') ↦ e ∙ sym e'
      | inr (e', f') ↦ absurd (
          (others j t e' f' (subst (λ (n : ℕ). n ≢ 0) same nz)).1
            (sym same ∙ ap (λ (w : PplanSlot). w.pplan) f))
    ]
    | inr (e, f) ↦ elim (get_elem?-set_cases pplans k j v t at') [
      | inl (e', f') ↦ absurd ((others i s e f nz).1 (same ∙ ap (λ (w : PplanSlot). w.pplan) f'))
      | inr (e', f') ↦ sound.unique i j s t f f' nz same
    ]
  ];
}

-- A new block does not disturb the plans that are live.
pub IsLive-cons :
    (heap : List (ℕ × Cell)) (a b : ℕ) (c : Cell)
    → find_cell a heap ≡ none
    → IsLive heap b
    → IsLive ((a, c) ∷ heap) b × (b ≢ a)
unfolding find_cell
IsLive-cons heap a b c fresh (p, found, fits) =
    let differs : b ≢ a = λ e. cc in
    ((p, rw (let n : (a == b) ≡ false = ground arith in n) found, fits), differs)

pub IsSound-cons :
    (heap : List (ℕ × Cell)) (pplans : List PplanSlot) (a : ℕ) (c : Cell)
    → find_cell a heap ≡ none
    → IsSound heap pplans
    → IsSound ((a, c) ∷ heap) pplans
IsSound-cons heap pplans a c fresh sound = record {
  live = λ i s at nz. (IsLive-cons heap a s.pplan c fresh (sound.live i s at nz)).0;
  unique = sound.unique;
}

init_from-empty : (n i j : ℕ) (s : PplanSlot) → get_elem? (init_from i n) j ≡ some s → s.pplan ≡ 0
unfolding init_from
init_from-empty zero i j s h = cc
init_from-empty (suc zero) i zero s h =
    let same : record { pplan = 0; next = none } ≡ s = cc in
    ap (λ (t : PplanSlot). t.pplan) (sym same)
init_from-empty (suc zero) i (suc j) s h = cc
init_from-empty (suc (suc n)) i zero s h =
    let same : record { pplan = 0; next = some (suc i) } ≡ s = cc in
    ap (λ (t : PplanSlot). t.pplan) (sym same)
init_from-empty (suc (suc n)) i (suc j) s h = init_from-empty (suc n) (suc i) j s h

-- A fresh connection has no plan.
pub init_pplan_slots-IsSound : (heap : List (ℕ × Cell)) → IsSound heap init_pplan_slots.pplans
unfolding init_pplan_slots
init_pplan_slots-IsSound heap = record {
  live = λ i s at nz. absurd (nz (init_from-empty 32 0 i s at));
  unique = λ i j s t at at' nz same. absurd (nz (init_from-empty 32 0 i s at));
}
