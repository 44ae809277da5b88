-- ===== src/Container/Delete/Laws.antt =====
-- What `delete_containers` of src/containers.c leaves.
use plcontainer.Common.{
  ℕ, zero, suc, ◌≡◌, refl, ap, subst, sym, ◌∙◌, inl, inr, ◌↔◌, true, false, Option, none, some,
  List, [], ◌∷◌, ◌++◌, EachFrom, Bool-cases, if◌then◌else◌,
}
use plcontainer.Container.Backend.{Code, failed, done, alive, delete_backend_if_exited}
use plcontainer.Container.Slots.{RuntimeConnection, Container, ContainerState, get_container_conn}
use plcontainer.Container.Delete.{
  SlotReplies, is_done, is_failed, exit_loop, force_loop, delete_backend, conn_list, slot_result,
  delete_slots, delete_all, delete_containers, push_all,
}

-- The connections of the slots, in order.
abbrev pub connections : List Container → List ℕ
connections [] = []
connections (c ∷ containers) = conn_list c.conn ++ connections containers

-- The containers of the slots that have both a backend and a connection, in order.
abbrev pub registered : Option ℕ → Option RuntimeConnection → List RuntimeConnection
registered none connection = []
registered (some backend) none = []
registered (some backend) (some connection) = connection ∷ []

delete_slots-disconnected :
    (replies : ℕ → SlotReplies) (i : ℕ) (containers : List Container)
    → (delete_slots replies i containers).disconnected ≡ connections containers
unfolding delete_slots
delete_slots-disconnected replies i [] = refl
delete_slots-disconnected replies i (c ∷ containers) =
    ap (λ l. conn_list c.conn ++ l) (delete_slots-disconnected replies (suc i) containers)

-- No connection is left.
connections-cleared :
    (replies : ℕ → SlotReplies) (i : ℕ) (containers : List Container)
    → connections (delete_slots replies i containers).slots ≡ []
unfolding delete_slots
connections-cleared replies i [] = refl
connections-cleared replies i (c ∷ containers) = connections-cleared replies (suc i) containers

delete_all-ready :
    (replies : ℕ → SlotReplies) (s : ContainerState)
    → s.containers_init ≡ true
    → delete_all replies s ≡ delete_slots replies 0 s.containers
unfolding delete_all
delete_all-ready replies s inited =
    ap
      (λ b.
        if b
        then delete_slots replies 0 s.containers
        else record { disconnected = []; results = []; slots = s.containers })
      inited

done_not_failed : (c : Code) → is_done c ≡ true → ¬ (is_failed c ≡ true)
done_not_failed failed e h = cc
done_not_failed done e h = cc
done_not_failed alive e h = cc

module _ (r : SlotReplies) where
  -- The backend is not known to be deleted after round `k` of questions.
  abbrev pub Remains : ℕ → Type 0
  Remains k = is_done (delete_backend_if_exited (r.rounds k)).code ≡ false

  abbrev pub ForceFails : ℕ → Type 0
  ForceFails k = is_failed (r.forced k) ≡ true

  exit_loop-Remains : (n k : ℕ) → (is_done (exit_loop r.rounds n k) ≡ false) ↔ EachFrom Remains n k
  unfolding exit_loop
  exit_loop-Remains zero k = (λ h. h, λ h. h)
  exit_loop-Remains (suc n) k =
      let (back, forth) = exit_loop-Remains n (suc k) in
      elim (Bool-cases (is_done (delete_backend_if_exited (r.rounds k)).code)) [
        | inl e ↦ rw e (λ h. cc, λ h. cc (h.0))
        | inr e ↦ rw e (λ h. (refl, back h), λ h. forth h.1)
      ]

  force_loop-ForceFails :
      (n k : ℕ) → (is_failed (force_loop r.forced n k) ≡ true) ↔ EachFrom ForceFails n k
  unfolding force_loop
  force_loop-ForceFails zero k = (λ h. h, λ h. h)
  force_loop-ForceFails (suc n) k =
      let (back, forth) = force_loop-ForceFails n (suc k) in
      elim (Bool-cases (is_failed (r.forced k))) [
        | inl e ↦ rw e (λ h. (refl, back h), λ h. forth h.1)
        | inr e ↦ rw e (λ h. cc, λ h. cc (h.0))
      ]

  -- The deletion for a slot fails exactly when the container remained after each of
  -- the six rounds of questions and each of the four forced deletions failed.
  pub delete_backend-is_failed :
      (is_failed (delete_backend r) ≡ true) ↔ (EachFrom Remains 5 0 × EachFrom ForceFails 3 0)
  unfolding delete_backend
  delete_backend-is_failed =
      let (exit_back, exit_forth) = exit_loop-Remains 5 0 in
      let (force_back, force_forth) = force_loop-ForceFails 3 0 in
      elim (Bool-cases (is_done (exit_loop r.rounds 5 0))) [
        | inl e ↦ rw e (λ h. absurd (done_not_failed _ e h), λ h. cc (exit_forth h.0))
        | inr e ↦ rw e (λ h. (exit_back e, force_back h), λ h. force_forth h.1)
      ]

-- The results of the deletions of the slots from slot `i` on: one for each slot with a backend and a
-- connection, in order, and it is a failure exactly when all that was tried for the slot failed.
pub data Results (replies : ℕ → SlotReplies)
    : ℕ → List Container → List (RuntimeConnection × Code) → Type 0 where
  no_more : {i : ℕ} → Results replies i [] []
  unregistered :
      {i : ℕ} {c : Container} {containers : List Container}
      {results : List (RuntimeConnection × Code)}
      → registered c.backend c.connection ≡ []
      → Results replies (suc i) containers results
      → Results replies i (c ∷ containers) results
  tried :
      {i : ℕ} {c : Container} {containers : List Container}
      {results : List (RuntimeConnection × Code)} {connection : RuntimeConnection} {code : Code}
      → registered c.backend c.connection ≡ connection ∷ []
      → ((is_failed code ≡ true)
          ↔ (EachFrom (Remains (replies i)) 5 0 × EachFrom (ForceFails (replies i)) 3 0))
      → Results replies (suc i) containers results
      → Results replies i (c ∷ containers) ((connection, code) ∷ results)

slot_result-Results :
    (replies : ℕ → SlotReplies) (i : ℕ) (c : Container) (containers : List Container)
    (results : List (RuntimeConnection × Code))
    → Results replies (suc i) containers results
    → (backend : Option ℕ) (connection : Option RuntimeConnection)
    → registered c.backend c.connection ≡ registered backend connection
    → Results replies i (c ∷ containers) (slot_result (replies i) backend connection ++ results)
unfolding slot_result
slot_result-Results replies i c containers results rest none connection e = unregistered e rest
slot_result-Results replies i c containers results rest (some backend) none e = unregistered e rest
slot_result-Results replies i c containers results rest (some backend) (some connection) e =
    tried e (delete_backend-is_failed (replies i)) rest

delete_slots-Results :
    (replies : ℕ → SlotReplies) (i : ℕ) (containers : List Container)
    → Results replies i containers (delete_slots replies i containers).results
unfolding delete_slots slot_result
delete_slots-Results replies i [] = no_more
delete_slots-Results replies i (c ∷ containers) =
    slot_result-Results replies i c containers (delete_slots replies (suc i) containers).results
      (delete_slots-Results replies (suc i) containers) c.backend c.connection refl

-- `delete_containers` on an initialized session disconnects each connection of a slot once, in the
-- order of the slots. For each slot that has a backend and a connection it tries to delete the
-- container, and this fails exactly when the container remained after each of the six rounds of
-- questions and each of the four forced deletions failed. No slot holds a connection after it.
pub delete_containers_lem :
    (replies : ℕ → SlotReplies) (s : ContainerState)
    → s.containers_init ≡ true
    → ((delete_containers replies s).disconnected
        ≡ push_all (connections s.containers) s.disconnected)
      × Results replies 0 s.containers (delete_all replies s).results
      × (connections (delete_containers replies s).containers ≡ [])
unfolding delete_containers delete_all
delete_containers_lem replies s inited =
    let ready = delete_all-ready replies s inited in
    (
      ap (λ d. push_all d.disconnected s.disconnected) ready
          ∙ ap (λ l. push_all l s.disconnected) (delete_slots-disconnected replies 0 s.containers),
      subst (λ d. Results replies 0 s.containers d.results) (sym ready)
          (delete_slots-Results replies 0 s.containers),
      ap (λ d. connections d.slots) ready ∙ connections-cleared replies 0 s.containers,
    )

-- After it no runtime has a connection.
pub get_container_conn-deleted :
    (replies : ℕ → SlotReplies) (runtime_id : List ℕ) (s : ContainerState)
    → (get_container_conn runtime_id (delete_containers replies s)).0 ≡ none
unfolding delete_containers get_container_conn
get_container_conn-deleted replies runtime_id s = refl
