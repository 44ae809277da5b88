-- ===== src/PplanSlots/FreeList.antt =====
-- The list of the free slots of src/sqlhandler.c.
use plcontainer.Common.{
  ℕ, zero, suc, true, false, Option, none, some, List, [], ◌∷◌, length, get_elem?, set, All, ◌==◌,
  if◌then◌else◌, ◌≡◌, ◌≢◌, refl, sym, ap, ◌∙◌, arith, ==_iff,
}
use plcontainer.PplanSlots.{PplanSlot, PplanSlots, max_pplan}

-- `free` are the indices that are reached from `head` by `next`, each of a free slot.
abbrev pub Chain : List PplanSlot → Option ℕ → List ℕ → Type 0
Chain pplans none [] = Unit {0}
Chain pplans none (i ∷ free) = ⊥
Chain pplans (some head) [] = ⊥
Chain pplans (some head) (i ∷ free) =
    (head ≡ i)
    × (next : Option ℕ) × (get_elem? pplans i ≡ some (record { pplan = 0; next = next }))
    × Chain pplans next free

abbrev pub Distinct : List ℕ → Type 0
Distinct [] = Unit {0}
Distinct (i ∷ is) = All (λ j. j ≢ i) is × Distinct is

-- How many slots hold no plan.
unfoldable pub unused : List PplanSlot → ℕ
unused [] = 0
unused (s ∷ pplans) = let rest = unused pplans in if s.pplan == 0 then suc rest else rest

-- The list holds each free slot, and holds it once.
pub record IsFreeList (c : PplanSlots) (free : List ℕ) : Type 0 where
  pub all_slots : length c.pplans ≡ max_pplan
  pub chain : Chain c.pplans c.head_free_pplan_slot free
  pub distinct : Distinct free
  pub complete : unused c.pplans ≡ length free

module _ {A : Type 0} where
  pub get-set :
      (xs : List A) (i : ℕ) (v w : A) → get_elem? xs i ≡ some w → get_elem? (set xs i v) i ≡ some v
  get-set [] i v w e = absurd (cc)
  get-set (x ∷ xs) zero v w e = refl
  get-set (x ∷ xs) (suc i) v w e = get-set xs i v w e

  pub get-set_other :
      (xs : List A) (i j : ℕ) (v : A) → j ≢ i → get_elem? (set xs i v) j ≡ get_elem? xs j
  get-set_other [] i j v n = refl
  get-set_other (x ∷ xs) zero zero v n = absurd (n refl)
  get-set_other (x ∷ xs) zero (suc j) v n = refl
  get-set_other (x ∷ xs) (suc i) zero v n = refl
  get-set_other (x ∷ xs) (suc i) (suc j) v n = get-set_other xs i j v (λ e. n (ap suc e))

  pub set-set_same :
      (xs : List A) (i : ℕ) (v w : A) → get_elem? xs i ≡ some w → set (set xs i v) i w ≡ xs
  set-set_same [] i v w e = refl
  set-set_same (x ∷ xs) zero v w e = let same : x ≡ w = cc in ap (λ y. y ∷ xs) (sym same)
  set-set_same (x ∷ xs) (suc i) v w e = ap (λ ys. x ∷ ys) (set-set_same xs i v w e)

-- A slot outside of the list can change.
pub Chain-set :
    (pplans : List PplanSlot) (i : ℕ) (s : PplanSlot) (head : Option ℕ) (free : List ℕ)
    → All (λ j. j ≢ i) free
    → Chain pplans head free
    → Chain (set pplans i s) head free
Chain-set pplans i s none [] n c = tt
Chain-set pplans i s none (j ∷ free) n c = absurd c
Chain-set pplans i s (some head) [] n c = absurd c
Chain-set pplans i s (some head) (j ∷ free) n c =
    let (same, next, there, rest) = c in
    (same, next, get-set_other pplans i j s n.0 ∙ there, Chain-set pplans i s next free n.1 rest)

-- A slot that holds a plan is not in the list.
pub Chain-outside :
    (pplans : List PplanSlot) (i : ℕ) (s : PplanSlot) (head : Option ℕ) (free : List ℕ)
    → get_elem? pplans i ≡ some s
    → s.pplan ≢ 0
    → Chain pplans head free
    → All (λ j. j ≢ i) free
Chain-outside pplans i s none [] e n c = tt
Chain-outside pplans i s none (j ∷ free) e n c = absurd c
Chain-outside pplans i s (some head) [] e n c = absurd c
Chain-outside pplans i s (some head) (j ∷ free) e n c =
    let (same, next, there, rest) = c in
    (
      (λ p.
          let both : some (record { pplan = 0; next = next }) ≡ some s =
            sym there ∙ ap (get_elem? pplans) p ∙ e in
          let equal : record { pplan = 0; next = next } ≡ s = cc in
          n (sym (ap (λ (t : PplanSlot). t.pplan) equal))),
      Chain-outside pplans i s next free e n rest,
    )

pub unused-take :
    (pplans : List PplanSlot) (i : ℕ) (s t : PplanSlot)
    → get_elem? pplans i ≡ some s
    → s.pplan ≡ 0
    → t.pplan ≢ 0
    → suc (unused (set pplans i t)) ≡ unused pplans
unfolding unused
unused-take [] i s t e p n = absurd (cc)
unused-take (x ∷ pplans) zero s t e p n =
    let same : x ≡ s = cc in
    let empty : (x.pplan == 0) ≡ true = rw same ((==_iff s.pplan 0).1 p) in
    let full : (t.pplan == 0) ≡ false = ground arith in rw (empty, full) refl
unused-take (x ∷ pplans) (suc i) s t e p n =
    let rest = unused-take pplans i s t e p n in ground (arith, rest)

pub unused-give :
    (pplans : List PplanSlot) (i : ℕ) (s t : PplanSlot)
    → get_elem? pplans i ≡ some s
    → s.pplan ≢ 0
    → t.pplan ≡ 0
    → unused (set pplans i t) ≡ suc (unused pplans)
unfolding unused
unused-give [] i s t e p n = absurd (cc)
unused-give (x ∷ pplans) zero s t e p n =
    let same : x ≡ s = cc in
    let full : (x.pplan == 0) ≡ false =
      rw same (let f : (s.pplan == 0) ≡ false = ground arith in f) in
    let empty : (t.pplan == 0) ≡ true = (==_iff t.pplan 0).1 n in rw (empty, full) refl
unused-give (x ∷ pplans) (suc i) s t e p n =
    let rest = unused-give pplans i s t e p n in ground (arith, rest)
