-- ===== src/SqlHandler/Deinit.antt =====
-- That `deinit_pplan_slots` of src/sqlhandler.c frees each plan of a connection.
use plcontainer.Common.{
  ℕ, zero, suc, ◌+◌, ◌<◌, ◌≡◌, ◌≢◌, refl, sym, ap, subst, ◌∙◌, ◌⊎◌, inl, inr, false, Option, none,
  some, List, [], ◌∷◌, get_elem?, set, ◌==◌, ==_iff, ltb, ltb→lt, ltb_false→le, Bool-cases,
  Option-cases, arith,
}
use plcontainer.PplanSlots.{
  PplanSlot, PplanSlots, slot_at, search_slots, search_pplan, delete_pplan,
}
use plcontainer.SqlHandler.State.{Spi, SqlState}
use plcontainer.SqlHandler.Prepare.{free_plc_plan, unprepared, minus_one}
use plcontainer.SqlHandler.{and_then, deinit_from, deinit_pplan_slots}
use plcontainer.SqlHandler.Sound.{IsSound}
use plcontainer.SqlHandler.Validity.{search_pplan-IsLive}
use plcontainer.SqlHandler.Whole.{free_plc_plan-IsSound}

-- Slot `i` holds no plan.
abbrev pub IsEmpty : List PplanSlot → ℕ → Type 0
IsEmpty pplans i = (slot_at pplans i).pplan ≡ 0

slot_at-set :
    (pplans : List PplanSlot) (i k : ℕ) (next : Option ℕ)
    → (k ≡ i) ⊎ IsEmpty pplans k
    → IsEmpty (set pplans i (record { pplan = 0; next = next })) k
slot_at-set [] i k next h = refl
slot_at-set (s ∷ pplans) zero zero next h = refl
slot_at-set (s ∷ pplans) zero (suc k) next (inl e) = absurd (omega arith)
slot_at-set (s ∷ pplans) zero (suc k) next (inr h) = h
slot_at-set (s ∷ pplans) (suc i) zero next (inl e) = absurd (omega arith)
slot_at-set (s ∷ pplans) (suc i) zero next (inr h) = h
slot_at-set (s ∷ pplans) (suc i) (suc k) next (inl e) =
    slot_at-set pplans i k next (inl (omega arith))
slot_at-set (s ∷ pplans) (suc i) (suc k) next (inr h) = slot_at-set pplans i k next (inr h)

searched_nonzero : (pplan : ℕ) (c : PplanSlots) (j : ℕ) → search_pplan pplan c ≡ some j → pplan ≢ 0
unfolding search_pplan
searched_nonzero pplan c j e zero_plan =
    cc (let bad : ◌≡◌ {A = Option ℕ} none (some j) = rw ((==_iff pplan 0).1 zero_plan) at e in bad)

-- What the loop keeps.
record Frees (spi : Spi) (i : ℕ) (st : SqlState) (r : Option ℕ × SqlState) : Type 0 where
  valid : (retval : ℕ) × (r.0 ≡ some retval)
  sound : IsSound r.1.heap r.1.slots.pplans
  empty : IsEmpty r.1.slots.pplans i
  kept : (k : ℕ) → IsEmpty st.slots.pplans k → IsEmpty r.1.slots.pplans k

search_slots-none :
    (pplan : ℕ) (pplans : List PplanSlot) (i : ℕ) (s : PplanSlot)
    → search_slots pplan pplans ≡ none
    → get_elem? pplans i ≡ some s
    → s.pplan ≢ pplan
unfolding search_slots
search_slots-none pplan [] i s h at e = cc
search_slots-none pplan (x ∷ pplans) i s h at e = elim (Bool-cases (x.pplan == pplan)) [
  | inl f ↦ cc (let bad : ◌≡◌ {A = Option ℕ} (some 0) none = rw f at h in bad)
  | inr f ↦ elim (Option-cases (search_slots pplan pplans)) [
    | inr (j, g) ↦ cc (let bad : ◌≡◌ {A = Option ℕ} (some (suc j)) none = rw (f, g) at h in bad)
    | inl g ↦ later i (search_slots-none pplan pplans) f g at e
  ]
]
  where
    later :
        (i : ℕ)
        → ((i : ℕ) (s : PplanSlot)
            → search_slots pplan pplans ≡ none
            → get_elem? pplans i ≡ some s
            → s.pplan ≢ pplan)
        → (x.pplan == pplan) ≡ false
        → search_slots pplan pplans ≡ none
        → get_elem? (x ∷ pplans) i ≡ some s
        → s.pplan ≢ pplan
    later zero rec f g at e =
        let same : x ≡ s = cc in
        cc ((==_iff x.pplan pplan).1 (ap (λ (w : PplanSlot). w.pplan) same ∙ e))
    later (suc i) rec f g at e = rec i s g at e

slot_at-eq :
    (pplans : List PplanSlot) (i : ℕ) (s : PplanSlot)
    → get_elem? pplans i ≡ some s
    → slot_at pplans i ≡ s
slot_at-eq pplans i s e = rw (e, slot_at) refl

module _ (spi : Spi) (i : ℕ) (st : SqlState) (s : PplanSlot)
    (sound : IsSound st.heap st.slots.pplans) (there : get_elem? st.slots.pplans i ≡ some s) where
  free_none : search_pplan s.pplan st.slots ≡ none → Frees spi i st (free_plc_plan spi s.pplan st)
  unfolding free_plc_plan delete_pplan
  free_none e = rw e (record {
    valid = (minus_one, refl);
    sound = sound;
    empty = ap (λ (w : PplanSlot). w.pplan) (slot_at-eq st.slots.pplans i s there) ∙ absent e;
    kept = λ k h. h;
  })
    where
      absent : search_pplan s.pplan st.slots ≡ none → s.pplan ≡ 0
      absent e = elim (Bool-cases (s.pplan == 0)) [
        | inl f ↦ (==_iff s.pplan 0).0 f
        | inr f ↦ absurd (search_slots-none s.pplan st.slots.pplans i s (rw f at e) there refl)
      ]

  free_some :
      (j : ℕ)
      → search_pplan s.pplan st.slots ≡ some j
      → Frees spi i st (free_plc_plan spi s.pplan st)
  unfolding free_plc_plan delete_pplan unprepared
  free_some j e =
      let (t, there_j, same, (p, found, fits)) =
        search_pplan-IsLive st.heap st.slots s.pplan j sound e in
      let nz = searched_nonzero s.pplan st.slots j e in
      let j_i = sound.unique j i t s there_j there (subst (λ (n : ℕ). n ≢ 0) (sym same) nz) same in
      let kept = (free_plc_plan-IsSound spi st sound s.pplan).1 in
      rw (e, found)
        (record {
          valid = (_, refl);
          sound = rw (e, found) at kept;
          empty = slot_at-set st.slots.pplans j i st.slots.head_free_pplan_slot (inl (sym j_i));
          kept = λ k h. slot_at-set st.slots.pplans j k st.slots.head_free_pplan_slot (inr h);
        })

  free_one : Frees spi i st (free_plc_plan spi s.pplan st)
  free_one = elim (Option-cases (search_pplan s.pplan st.slots)) [
    | inl e ↦ free_none e
    | inr (j, e) ↦ free_some j e
  ]

-- A slot out of range is read as an empty one.
free_slot :
    (spi : Spi) (i : ℕ) (st : SqlState)
    → IsSound st.heap st.slots.pplans
    → Frees spi i st (free_plc_plan spi (slot_at st.slots.pplans i).pplan st)
unfolding free_plc_plan delete_pplan search_pplan
free_slot spi i st sound = elim (Option-cases (get_elem? st.slots.pplans i)) [
  | inl e ↦
      rw (e, slot_at)
        (record {
          valid = (minus_one, refl);
          sound = sound;
          empty = rw (e, slot_at) refl;
          kept = λ k h. h;
        })
  | inr (s, e) ↦
      subst (λ (t : PplanSlot). Frees spi i st (free_plc_plan spi t.pplan st))
        (sym (slot_at-eq st.slots.pplans i s e)) (free_one spi i st s sound e)
]

deinit_from-frees :
    (spi : Spi) (n i : ℕ) (st : SqlState)
    → IsSound st.heap st.slots.pplans
    → ((k : ℕ) → k < i → IsEmpty st.slots.pplans k)
    → (st' : SqlState) × (deinit_from spi n i st ≡ some st')
      × ((k : ℕ) → k < i + n → IsEmpty st'.slots.pplans k)
unfolding deinit_from
deinit_from-frees spi zero i st sound done = (st, refl, λ k h. done k (omega arith))
deinit_from-frees spi (suc n) i st sound done =
    go (free_plc_plan spi (slot_at st.slots.pplans i).pplan st) (free_slot spi i st sound)
      (deinit_from-frees spi n (suc i))
  where
    go :
        (r : Option ℕ × SqlState)
        → Frees spi i st r
        → ((st : SqlState)
            → IsSound st.heap st.slots.pplans
            → ((k : ℕ) → k < suc i → IsEmpty st.slots.pplans k)
            → (st' : SqlState) × (deinit_from spi n (suc i) st ≡ some st')
              × ((k : ℕ) → k < suc i + n → IsEmpty st'.slots.pplans k))
        → (st' : SqlState) × (and_then (deinit_from spi n (suc i)) r ≡ some st')
          × ((k : ℕ) → k < i + suc n → IsEmpty st'.slots.pplans k)
    go (none, t) f rec = cc (f.valid.1)
    go (some retval, t) f rec =
        let (st', ends, empty) = rec t f.sound (λ k h. elim (Bool-cases (ltb k i)) [
          | inl e ↦ f.kept k (done k (ltb→lt k i e))
          | inr e ↦
              subst (λ j. IsEmpty t.slots.pplans j)
                (let same : i ≡ k = omega (arith, ltb_false→le k i e) in same) f.empty
        ]) in
        (st', ends, λ k h. empty k (omega arith))

-- When each plan in a slot is live and in no other slot, `deinit_pplan_slots` uses no
-- block that is freed, and no slot holds a plan afterwards.
pub deinit_pplan_slots-IsEmpty :
    (spi : Spi) (st : SqlState)
    → IsSound st.heap st.slots.pplans
    → (st' : SqlState) × (deinit_pplan_slots spi st ≡ some st')
      × ((k : ℕ) → k < 32 → IsEmpty st'.slots.pplans k)
unfolding deinit_pplan_slots
deinit_pplan_slots-IsEmpty spi st sound =
    let (st', ends, empty) = deinit_from-frees spi 32 0 st sound (λ k h. absurd (omega arith)) in
    (st', ends, λ k h. empty k (omega arith))
