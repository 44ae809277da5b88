-- ===== src/PplanSlots/Laws.antt =====
-- That inserting and deleting plans in src/sqlhandler.c keeps the list of the free slots.
use plcontainer.Common.{
  ℕ, zero, suc, false, Option, none, some, List, [], ◌∷◌, get_elem?, set, length-set, ◌==◌, ◌≡◌,
  ◌≢◌, refl, sym, ap, ap₂, ◌∙◌, arith, ==_iff, Bool-cases, Option-cases, inl, inr,
}
use plcontainer.PplanSlots.{
  PplanSlot, PplanSlots, slot_at, search_slots, search_pplan, insert_at, insert_pplan, delete_at,
  delete_pplan,
}
use plcontainer.PplanSlots.FreeList.{
  Chain, unused, IsFreeList, get-set, get-set_other, set-set_same, Chain-set, Chain-outside,
  unused-take, unused-give,
}

not_zero : (pplan : ℕ) → pplan ≢ 0 → (pplan == 0) ≡ false
not_zero pplan h = ground arith

pub search_slots-some :
    (pplan : ℕ) (pplans : List PplanSlot) (i : ℕ)
    → search_slots pplan pplans ≡ some i
    → (s : PplanSlot) × (get_elem? pplans i ≡ some s) × (s.pplan ≡ pplan)
unfolding search_slots
search_slots-some pplan [] i e = absurd (cc)
search_slots-some pplan (s ∷ pplans) i e = elim (Bool-cases (s.pplan == pplan)) [
  | inl f ↦
      let same : 0 ≡ i = (let g : some 0 ≡ some i = rw f at e in cc) in
      (s, ap (get_elem? (s ∷ pplans)) (sym same), (==_iff s.pplan pplan).0 f)
  | inr f ↦ elim (Option-cases (search_slots pplan pplans)) [
    | inl n ↦ absurd (let g : none ≡ some i = rw (f, n) at e in cc)
    | inr (j, n) ↦
        let g : some (suc j) ≡ some i = rw (f, n) at e in
        let same : suc j ≡ i = cc in
        let (t, there, p) = search_slots-some pplan pplans j n in
        (t, ap (get_elem? (s ∷ pplans)) (sym same) ∙ there, p)
  ]
]

search_slots-set :
    (pplan : ℕ) (pplans : List PplanSlot) (i : ℕ) (s t : PplanSlot)
    → search_slots pplan pplans ≡ none
    → get_elem? pplans i ≡ some s
    → t.pplan ≡ pplan
    → search_slots pplan (set pplans i t) ≡ some i
unfolding search_slots
search_slots-set pplan [] i s t n e p = absurd (cc)
search_slots-set pplan (x ∷ pplans) zero s t n e p = rw ((==_iff t.pplan pplan).1 p) refl
search_slots-set pplan (x ∷ pplans) (suc i) s t n e p = elim (Bool-cases (x.pplan == pplan)) [
  | inl f ↦ absurd (let g : some 0 ≡ none = rw f at n in cc)
  | inr f ↦ elim (Option-cases (search_slots pplan pplans)) [
    | inr (j, m) ↦ absurd (let g : some (suc j) ≡ none = rw (f, m) at n in cc)
    | inl m ↦ rw (f, search_slots-set pplan pplans i s t m e p) refl
  ]
]

slot_at-some :
    (pplans : List PplanSlot) (i : ℕ) (s : PplanSlot)
    → get_elem? pplans i ≡ some s
    → slot_at pplans i ≡ s
slot_at-some pplans i s e = rw (e, slot_at) refl

free_head :
    (pplans : List PplanSlot) (head : Option ℕ) (i : ℕ) (free : List ℕ)
    → Chain pplans head (i ∷ free)
    → (head ≡ some i)
      × (next : Option ℕ) × (get_elem? pplans i ≡ some (record { pplan = 0; next = next }))
      × Chain pplans next free
free_head pplans none i free c = absurd c
free_head pplans (some head) i free c =
    let (same, next, there, rest) = c in (ap some same, next, there, rest)

free_end : (pplans : List PplanSlot) (head : Option ℕ) → Chain pplans head [] → head ≡ none
free_end pplans none c = refl
free_end pplans (some head) c = absurd c

abbrev taken : PplanSlots → ℕ → ℕ → Option ℕ → PplanSlots
taken c pplan i next = record {
  pplans = set c.pplans i (record { pplan = pplan; next = next });
  head_free_pplan_slot = next;
}

module _ (pplan : ℕ) (given : pplan ≢ 0) (c : PplanSlots) where
  insert_runs :
      (head : Option ℕ)
      → c.head_free_pplan_slot ≡ head
      → insert_pplan pplan c ≡ insert_at pplan c head
  unfolding insert_pplan
  insert_runs head e = rw (not_zero pplan given) (ap (insert_at pplan c) e)

  insert_takes :
      (i : ℕ) (next : Option ℕ)
      → c.head_free_pplan_slot ≡ some i
      → get_elem? c.pplans i ≡ some (record { pplan = 0; next = next })
      → insert_pplan pplan c ≡ (some i, taken c pplan i next)
  unfolding insert_at
  insert_takes i next e there =
      insert_runs (some i) e
      ∙ ap (λ (s : PplanSlot). (some i, taken c pplan i s.next))
          (slot_at-some c.pplans i (record { pplan = 0; next = next }) there)

  -- Where no slot is free, each of the slots holds a plan, and `insert_pplan` returns -1 and
  -- changes nothing.
  pub insert_pplan-full :
      IsFreeList c [] → (insert_pplan pplan c ≡ (none, c)) × (unused c.pplans ≡ 0)
  unfolding insert_at
  insert_pplan-full f =
      (insert_runs none (free_end c.pplans c.head_free_pplan_slot f.chain), f.complete)

  -- Where `i` is the first free slot, `insert_pplan` of a plan that is not 0 returns `i`, puts the
  -- plan there, leaves any other slot `j` as it was, and the other free slots are the list of what is left.
  pub insert_pplan-IsFreeList :
      (i : ℕ) (free : List ℕ)
      → IsFreeList c (i ∷ free)
      → (j : ℕ) → j ≢ i
      → ((insert_pplan pplan c).0 ≡ some i)
        × IsFreeList (insert_pplan pplan c).1 free
        × ((slot_at (insert_pplan pplan c).1.pplans i).pplan ≡ pplan)
        × (get_elem? (insert_pplan pplan c).1.pplans j ≡ get_elem? c.pplans j)
  insert_pplan-IsFreeList i free f j other =
      let (head, next, there, rest) = free_head c.pplans c.head_free_pplan_slot i free f.chain in
      let s : PplanSlot = record { pplan = pplan; next = next } in
      rw (insert_takes i next head there) (
        refl,
        record {
          all_slots = length-set c.pplans i s ∙ f.all_slots;
          chain = Chain-set c.pplans i s next free f.distinct.0 rest;
          distinct = f.distinct.1;
          complete = omega (
            arith,
            unused-take c.pplans i (record { pplan = 0; next = next }) s there refl given,
            f.complete,
          );
        },
        ap (λ (x : PplanSlot). x.pplan)
            (slot_at-some (set c.pplans i s) i s
              (get-set c.pplans i s (record { pplan = 0; next = next }) there)),
        get-set_other c.pplans i j s other,
      )

  -- `delete_pplan` of a plan that is not 0 and that the search finds at `i` returns `i`, and then
  -- `i` is the first of the free slots, in front of those that were free before.
  pub delete_pplan-IsFreeList :
      (i : ℕ) (free : List ℕ)
      → IsFreeList c free
      → search_pplan pplan c ≡ some i
      → ((delete_pplan pplan c).0 ≡ some i) × IsFreeList (delete_pplan pplan c).1 (i ∷ free)
  unfolding delete_pplan delete_at search_pplan
  delete_pplan-IsFreeList i free f found =
      let found_slot : search_slots pplan c.pplans ≡ some i = rw (not_zero pplan given) at found in
      let (s, there, same) = search_slots-some pplan c.pplans i found_slot in
      let holds : s.pplan ≢ 0 = λ e. given (sym same ∙ e) in
      let t : PplanSlot = record { pplan = 0; next = c.head_free_pplan_slot } in
      let outside = Chain-outside c.pplans i s c.head_free_pplan_slot free there holds f.chain in
      rw (not_zero pplan given, found_slot)
        (
          refl,
          record {
            all_slots = length-set c.pplans i t ∙ f.all_slots;
            chain = (
              refl,
              c.head_free_pplan_slot,
              get-set c.pplans i t s there,
              Chain-set c.pplans i t c.head_free_pplan_slot free outside f.chain,
            );
            distinct = (outside, f.distinct);
            complete = omega (arith, unused-give c.pplans i s t there holds refl, f.complete);
          },
        )

  -- Where a slot is free and the plan is not 0 and not in a slot, the search finds the plan after
  -- `insert_pplan` where it was put, and `delete_pplan` then restores the slots and their list
  -- exactly.
  pub delete_pplan-insert_pplan :
      (i : ℕ) (free : List ℕ)
      → IsFreeList c (i ∷ free)
      → search_pplan pplan c ≡ none
      → (search_pplan pplan (insert_pplan pplan c).1 ≡ some i)
        × (delete_pplan pplan (insert_pplan pplan c).1 ≡ (some i, c))
  unfolding delete_pplan delete_at search_pplan
  delete_pplan-insert_pplan i free f missing =
      let (head, next, there, rest) = free_head c.pplans c.head_free_pplan_slot i free f.chain in
      let s : PplanSlot = record { pplan = pplan; next = next } in
      let w : PplanSlot = record { pplan = 0; next = next } in
      let found =
        search_slots-set pplan c.pplans i w s (rw (not_zero pplan given) at missing) there refl in
      rw (insert_takes i next head there, not_zero pplan given, found)
        (
          refl,
          ap₂ (λ a h. (some i, record { pplans = a; head_free_pplan_slot = h }))
              (set-set_same c.pplans i s w there) (sym head),
        )
