-- ===== src/Container/Slots/Laws.antt =====
-- Which slot the accessors of src/containers.c find.
use plcontainer.Common.{
  ℕ, zero, suc, ◌≡◌, ◌≢◌, refl, ap, ◌∙◌, inl, inr, true, false, Option, none, some, List, [], ◌∷◌,
  get_elem?, set, ◌==◌, ==_iff, Bool-cases, Option-cases, if◌then◌else◌,
}
use plcontainer.Container.Backend.{same_text}
use plcontainer.Container.Slots.{
  Container, ContainerState, conn_of, with_conn, set_container_conn, get_container_conn,
  init_containers, has_id, find_free, find_id,
}

pub same_text_self : (s : List ℕ) → same_text s s ≡ true
unfolding same_text
same_text_self [] = refl
same_text_self (c ∷ s) = rw ((==_iff c c).1 refl) (same_text_self s)

pub same_text→eq : (s t : List ℕ) → same_text s t ≡ true → s ≡ t
unfolding same_text
same_text→eq [] [] h = refl
same_text→eq [] (d ∷ t) h = cc
same_text→eq (c ∷ s) [] h = cc
same_text→eq (c ∷ s) (d ∷ t) h = elim (Bool-cases (c == d)) [
  | inl e ↦ cc ((==_iff c d).0 e, same_text→eq s t (rw e at h))
  | inr e ↦ cc (let bad : false ≡ true = rw e at h in bad)
]

pub same_text-ne : (s t : List ℕ) → s ≢ t → same_text s t ≡ false
same_text-ne s t h = elim (Bool-cases (same_text s t)) [
  | inl e ↦ absurd (h (same_text→eq s t e))
  | inr e ↦ e
]

-- The free slot that is found holds a container without an id.
pub find_free_lem :
    (containers : List Container) (i : ℕ)
    → find_free containers ≡ some i
    → (c : Container) × (get_elem? containers i ≡ some c) × (c.runtimeid ≡ none)
unfolding find_free
find_free_lem [] i h = cc
find_free_lem (c ∷ containers) i h = elim (Option-cases c.runtimeid) [
  | inl e ↦
      let first : some 0 ≡ some i = rw e at h in
      (c, ap (get_elem? (c ∷ containers)) (let p : i ≡ 0 = cc in p), e)
  | inr (id, e) ↦ elim (Option-cases (find_free containers)) [
    | inl f ↦ cc (let bad : none ≡ some i = rw (e, f) at h in bad)
    | inr (j, f) ↦
        let later : some (suc j) ≡ some i = rw (e, f) at h in
        let (d, at_j, free) = find_free_lem containers j f in
        (d, ap (get_elem? (c ∷ containers)) (let p : i ≡ suc j = cc in p) ∙ at_j, free)
  ]
]

module _ (runtime_id : List ℕ) where
  pub find_id-set_self :
      (containers : List Container) (i : ℕ) (old new : Container)
      → get_elem? containers i ≡ some old
      → new.runtimeid ≡ some runtime_id
      → find_id runtime_id containers ≡ none
      → find_id runtime_id (set containers i new) ≡ some new
  unfolding find_id
  find_id-set_self [] i old new h e f = cc
  find_id-set_self (c ∷ containers) zero old new h e f = rw (e, same_text_self runtime_id) refl
  find_id-set_self (c ∷ containers) (suc i) old new h e f =
      elim (Bool-cases (has_id runtime_id c.runtimeid)) [
        | inl g ↦ cc (let bad : some c ≡ none = rw g at f in bad)
        | inr g ↦ rw g (find_id-set_self containers i old new h e (rw g at f))
      ]

  pub find_id-set_other :
      (containers : List Container) (i : ℕ) (old new : Container)
      → get_elem? containers i ≡ some old
      → has_id runtime_id old.runtimeid ≡ false
      → has_id runtime_id new.runtimeid ≡ false
      → find_id runtime_id (set containers i new) ≡ find_id runtime_id containers
  unfolding find_id
  find_id-set_other [] i old new h e f = refl
  find_id-set_other (c ∷ containers) zero old new h e f =
      let same : c ≡ old = cc in rw (same, e, f) refl
  find_id-set_other (c ∷ containers) (suc i) old new h e f =
      elim (Bool-cases (has_id runtime_id c.runtimeid)) [
        | inl g ↦ rw g refl
        | inr g ↦ rw g (find_id-set_other containers i old new h e f)
      ]

pub get_container_conn-ready :
    (runtime_id : List ℕ) (s : ContainerState)
    → s.containers_init ≡ true
    → (get_container_conn runtime_id s).0 ≡ conn_of (find_id runtime_id s.containers)
unfolding get_container_conn
get_container_conn-ready runtime_id s inited =
    ap (λ b. conn_of (find_id runtime_id (if b then s else init_containers s).containers)) inited

pub set_container_conn-containers :
    (conn slot : ℕ) (s : ContainerState) (c : Container)
    → get_elem? s.containers slot ≡ some c
    → (set_container_conn conn slot s).containers ≡ set s.containers slot (with_conn conn c)
unfolding set_container_conn
set_container_conn-containers conn slot s c h =
    let result : Option Container → List Container =
      λ o. elim o [ none ↦ s.containers | some d ↦ set s.containers slot (with_conn conn d) ] in
    ap result h
