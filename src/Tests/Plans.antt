-- ===== src/Tests/Plans.antt =====
-- Examples for the plan slots of src/sqlhandler.c.
use plcontainer.Common.{ℕ, suc, none, some, List, [], ◌∷◌, ◌≡◌, ◌≢◌, refl, replicate, arith}
use plcontainer.PplanSlots.{PplanSlots, init_pplan_slots, search_pplan, insert_pplan, delete_pplan}
use plcontainer.PplanSlots.FreeList.{IsFreeList, unused}
use plcontainer.PplanSlots.Laws.{delete_pplan-insert_pplan}
use plcontainer.PplanSlots.Reachable.{insert, delete, plan_steps, plan_steps-IsFreeList}

-- Slot 0 holds 77, the slots 1 and 2 are free, and the others hold 5.
abbrev three_slots : PplanSlots
three_slots = record {
  pplans =
      record { pplan = 77; next = none }
      ∷ record { pplan = 0; next = some 2 }
      ∷ record { pplan = 0; next = none }
      ∷ replicate 29 (record { pplan = 5; next = none });
  head_free_pplan_slot = some 1;
}

three_slots-IsFreeList : IsFreeList three_slots (1 ∷ 2 ∷ [])
unfolding unused
three_slots-IsFreeList = record {
  all_slots = refl;
  chain = (refl, some 2, refl, (refl, none, refl, tt));
  distinct = (((λ e. omega arith), tt), (tt, tt));
  complete = refl;
}

not_zero : (n : ℕ) → suc n ≢ 0
not_zero n e = omega arith

search_9 : search_pplan 9 three_slots ≡ none
unfolding search_pplan
search_9 = refl

delete_pplan-insert_pplan_example :
    (search_pplan 9 (insert_pplan 9 three_slots).1 ≡ some 1)
    × (delete_pplan 9 (insert_pplan 9 three_slots).1 ≡ (some 1, three_slots))
delete_pplan-insert_pplan_example =
    delete_pplan-insert_pplan 9 (not_zero 8) three_slots 1 (2 ∷ []) three_slots-IsFreeList search_9

plan_steps-IsFreeList_example :
    (free : List ℕ) × IsFreeList
      (plan_steps (insert 3 ∷ insert 4 ∷ delete 3 ∷ []) init_pplan_slots)
      free
plan_steps-IsFreeList_example = plan_steps-IsFreeList (insert 3 ∷ insert 4 ∷ delete 3 ∷ [])
