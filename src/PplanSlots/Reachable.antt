-- ===== src/PplanSlots/Reachable.antt =====
-- The slots of src/sqlhandler.c from `init_pplan_slots` on.
use plcontainer.Common.{
  ℕ, zero, suc, ◌<◌, Option, none, some, List, [], ◌∷◌, ◌++◌, length, get_elem?, All, ◌≡◌, ◌≢◌,
  refl, sym, ap, subst, arith, append_assoc, Option-cases, inl, inr, length-append,
}
use plcontainer.PplanSlots.{
  PplanSlot, PplanSlots, max_pplan, init_from, init_pplan_slots, search_pplan, insert_pplan,
  delete_at, delete_pplan,
}
use plcontainer.PplanSlots.FreeList.{Chain, Distinct, unused, IsFreeList}
use plcontainer.PplanSlots.Laws.{
  insert_pplan-full, insert_pplan-IsFreeList, delete_pplan-IsFreeList,
}

-- The indices from `i`, `n` of them.
pub range : ℕ → ℕ → List ℕ
range i zero = []
range i (suc n) = i ∷ range (suc i) n

above : (i j n : ℕ) → i < j → All (λ k. k ≢ i) (range j n)
unfolding range
above i j zero h = tt
above i j (suc n) h = ((λ e. omega arith), above i (suc j) n (omega arith))

range-Distinct : (i n : ℕ) → Distinct (range i n)
unfolding range
range-Distinct i zero = tt
range-Distinct i (suc n) = (above i (suc i) n (omega arith), range-Distinct (suc i) n)

abbrev first_of : ℕ → ℕ → Option ℕ
first_of i zero = none
first_of i (suc n) = some i

get-append :
    (xs ys : List PplanSlot) (y : PplanSlot) → get_elem? (xs ++ (y ∷ ys)) (length xs) ≡ some y
get-append [] ys y = refl
get-append (x ∷ xs) ys y = get-append xs ys y

init_links :
    (before : List PplanSlot) (i n : ℕ)
    → length before ≡ i
    → Chain (before ++ init_from i n) (first_of i n) (range i n)
unfolding init_from range
init_links before i zero e = tt
init_links before i (suc zero) e = (
  refl,
  none,
  subst (λ k. get_elem? (before ++ init_from i 1) k ≡ some (record { pplan = 0; next = none })) e
      (get-append before [] (record { pplan = 0; next = none })),
  tt,
)
init_links before i (suc (suc n)) e =
    let s : PplanSlot = record { pplan = 0; next = some (suc i) } in
    let rest = init_from (suc i) (suc n) in
    (
      refl,
      some (suc i),
      subst (λ k. get_elem? (before ++ (s ∷ rest)) k ≡ some s) e (get-append before rest s),
      subst (λ l. Chain l (some (suc i)) (range (suc i) (suc n)))
          (append_assoc before (s ∷ []) rest)
          (init_links (before ++ (s ∷ [])) (suc i) (suc n)
            (omega (arith, length-append before (s ∷ []), e))),
    )

init_counts :
    (i n : ℕ)
    → (length (init_from i n) ≡ n)
      × (unused (init_from i n) ≡ length (range i n))
      × (length (range i n) ≡ n)
unfolding init_from range unused
init_counts i zero = (refl, refl, refl)
init_counts i (suc zero) = (refl, refl, refl)
init_counts i (suc (suc n)) =
    let (l, u, r) = init_counts (suc i) (suc n) in (ap suc l, ap suc u, ap suc r)

init_pplan_slots-IsFreeList : IsFreeList init_pplan_slots (range 0 max_pplan)
unfolding init_pplan_slots
init_pplan_slots-IsFreeList = record {
  all_slots = (init_counts 0 32).0;
  chain = init_links [] 0 32 refl;
  distinct = range-Distinct 0 32;
  complete = (init_counts 0 32).1;
}

-- What a session does with the slots.
pub data PlanStep : Type 0 where
  insert delete : ℕ → PlanStep

pub plan_step : PlanStep → PplanSlots → PplanSlots
unfolding insert_pplan delete_pplan
plan_step (insert pplan) c = (insert_pplan pplan c).1
plan_step (delete pplan) c = (delete_pplan pplan c).1

pub plan_steps : List PlanStep → PplanSlots → PplanSlots
unfolding plan_step
plan_steps [] c = c
plan_steps (s ∷ steps) c = plan_steps steps (plan_step s c)

abbrev Listed : PplanSlots → Type 0
Listed c = (free : List ℕ) × IsFreeList c free

insert-Listed : (pplan : ℕ) (c : PplanSlots) → Listed c → Listed (insert_pplan pplan c).1
unfolding insert_pplan
insert-Listed zero c l = l
insert-Listed (suc p) c ([], f) = (
  [],
  subst (λ r. IsFreeList r.1 []) (sym (insert_pplan-full (suc p) (λ e. omega arith) c f).0) f,
)
insert-Listed (suc p) c (i ∷ free, f) = (
  free,
  (insert_pplan-IsFreeList (suc p) (λ e. omega arith) c i free f (suc i) (λ e. omega arith)).1,
)

delete-Listed : (pplan : ℕ) (c : PplanSlots) → Listed c → Listed (delete_pplan pplan c).1
unfolding delete_pplan search_pplan delete_at
delete-Listed zero c l = l
delete-Listed (suc p) c (free, f) = elim (Option-cases (search_pplan (suc p) c)) [
  | inl n ↦ (free, subst (λ o. IsFreeList (delete_at c o).1 free) (sym n) f)
  | inr (i, s) ↦ (i ∷ free, (delete_pplan-IsFreeList (suc p) (λ e. omega arith) c i free f s).1)
]

steps-Listed : (steps : List PlanStep) (c : PplanSlots) → Listed c → Listed (plan_steps steps c)
unfolding plan_steps plan_step
steps-Listed [] c l = l
steps-Listed (insert pplan ∷ steps) c l =
    steps-Listed steps (insert_pplan pplan c).1 (insert-Listed pplan c l)
steps-Listed (delete pplan ∷ steps) c l =
    steps-Listed steps (delete_pplan pplan c).1 (delete-Listed pplan c l)

-- After `init_pplan_slots` and any number of inserts and deletes, in any order and of any plans,
-- there are 32 slots, and the links from the head go through each slot without a plan, and
-- through it once, and end.
pub plan_steps-IsFreeList :
    (steps : List PlanStep) → (free : List ℕ) × IsFreeList (plan_steps steps init_pplan_slots) free
plan_steps-IsFreeList steps =
    steps-Listed steps init_pplan_slots (range 0 max_pplan, init_pplan_slots-IsFreeList)
