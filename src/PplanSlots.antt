-- ===== src/PplanSlots.antt =====
-- The slots in which src/sqlhandler.c keeps the prepared plans of a connection, and the list of the
-- free ones that runs through them.
pub mod FreeList
pub mod Laws
pub mod Reachable
use plcontainer.Common.{
  ℕ, zero, suc, ◌+◌, Bool, true, false, Option, none, some, List, [], ◌∷◌, length, get_elem?, set,
  ◌==◌, if◌then◌else◌,
}

-- MAX_PPLAN
abbrev pub max_pplan : ℕ
max_pplan = 32

-- `struct pplan_slots`; a plan is 0 in a free slot, and `none` is the index -1.
pub record PplanSlot : Type 0 where
  pub pplan : ℕ
  pub next : Option ℕ

-- Of a `plcConn`, `pplans` and `head_free_pplan_slot`.
pub record PplanSlots : Type 0 where
  pub pplans : List PplanSlot
  pub head_free_pplan_slot : Option ℕ

-- The loop of `init_pplan_slots` from index `i`, with `n` entries to go, and the last entry.
unfoldable pub init_from : ℕ → ℕ → List PplanSlot
init_from i zero = []
init_from i (suc zero) = record { pplan = 0; next = none } ∷ []
init_from i (suc (suc n)) = record { pplan = 0; next = some (suc i) } ∷ init_from (suc i) (suc n)

unfoldable pub init_pplan_slots : PplanSlots
unfolding init_from
init_pplan_slots = record { pplans = init_from 0 max_pplan; head_free_pplan_slot = some 0 }

-- `pplans[i]`
abbrev pub slot_at : List PplanSlot → ℕ → PplanSlot
slot_at pplans i = elim (get_elem? pplans i) [
  | none ↦ record { pplan = 0; next = none }
  | some s ↦ s
]

-- The loop of `search_pplan`.
unfoldable pub search_slots : ℕ → List PplanSlot → Option ℕ
search_slots pplan [] = none
search_slots pplan (s ∷ pplans) =
    let later = search_slots pplan pplans in
    if s.pplan == pplan then some 0 else elim later [ none ↦ none | some i ↦ some (suc i) ]

unfoldable pub search_pplan : ℕ → PplanSlots → Option ℕ
unfolding search_slots
search_pplan pplan c = if pplan == 0 then none else search_slots pplan c.pplans

unfoldable pub insert_at : ℕ → PplanSlots → Option ℕ → Option ℕ × PplanSlots
insert_at pplan c none = (none, c)
insert_at pplan c (some slot) =
    let next = (slot_at c.pplans slot).next in
    (
      some slot,
      record {
        pplans = set c.pplans slot (record { pplan = pplan; next = next });
        head_free_pplan_slot = next;
      },
    )

unfoldable pub insert_pplan : ℕ → PplanSlots → Option ℕ × PplanSlots
unfolding insert_at
insert_pplan pplan c = if pplan == 0 then (none, c) else insert_at pplan c c.head_free_pplan_slot

unfoldable pub delete_at : PplanSlots → Option ℕ → Option ℕ × PplanSlots
delete_at c none = (none, c)
delete_at c (some slot) = (
  some slot,
  record {
    pplans = set c.pplans slot (record { pplan = 0; next = c.head_free_pplan_slot });
    head_free_pplan_slot = some slot;
  },
)

unfoldable pub delete_pplan : ℕ → PplanSlots → Option ℕ × PplanSlots
unfolding search_pplan delete_at
delete_pplan pplan c = delete_at c (search_pplan pplan c)
