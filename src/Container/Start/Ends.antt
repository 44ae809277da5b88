-- ===== src/Container/Start/Ends.antt =====
-- That `start_backend` of src/containers.c ends.
use plcontainer.Common.{
  ℕ, zero, suc, ◌+◌, ◌<◌, leb, ltb, ltb→lt, ltb_false→le, ◌≡◌, ◌≢◌, refl, sym, subst, inl, inr, ◌⊎◌,
  true, false, Option, none, some, List, Bool-cases, arith,
}
use plcontainer.Container.Slots.{RuntimeConnection, ContainerState, find_container_slot}
use plcontainer.Container.Start.{
  Attempt, no_connection, no_ping, no_pong, ponged, raises, never_answers, World, Waiting, stopped,
  create_loop, start_loop, Started, waits, out_of_fuel, after_connecting, connect_backend,
  start_created, container_connect_timeout_ms, start_in_slot, start_backend,
}
use plcontainer.Container.Start.Backoff.{
  ends_loop, before, last, conns_in, end_of, connect_loop-end_of, connect_loop-timeout,
}
use plcontainer.Container.Start.Whole.{NoPong, NoPong-add}

NoPong-suc :
    (attempt : ℕ → Attempt) (n : ℕ)
    → NoPong attempt n
    → ends_loop (attempt n) ≡ false
    → NoPong attempt (suc n)
NoPong-suc attempt n h e i l = elim (Bool-cases (ltb i n)) [
  | inl f ↦ h i (ltb→lt i n f)
  | inr f ↦
      subst (λ j. ends_loop (attempt j) ≡ false)
        (let same : n ≡ i = omega (arith, ltb_false→le i n f) in same) e
]

-- The first attempt among `n` after which the loop goes no further, if there is one.
first_end :
    (attempt : ℕ → Attempt) (n : ℕ)
    → NoPong attempt n ⊎ ((m : ℕ) × (m < n) × NoPong attempt m × (ends_loop (attempt m) ≡ true))
first_end attempt zero = inl (λ i h. absurd (omega arith))
first_end attempt (suc n) = elim (first_end attempt n) [
  | inr (m, below, fails, ends) ↦ inr (m, omega arith, fails, ends)
  | inl fails ↦ elim (Bool-cases (ends_loop (attempt n))) [
    | inr e ↦ inl (NoPong-suc attempt n fails e)
    | inl ends ↦ inr (n, omega arith, fails, ends)
  ]
]

-- The function has an end, within the fuel.
abbrev Ends : Started → Type 0
Ends r = (r ≢ out_of_fuel) × (r ≢ waits)

stopped-Ends :
    (connection : RuntimeConnection) (slot : ℕ) (s : ContainerState) (w : Waiting)
    → Ends (after_connecting connection slot s (stopped w)).0
unfolding after_connecting
stopped-Ends connection slot s w = elim (Bool-cases (leb container_connect_timeout_ms w.sleepms)) [
  | inl e ↦ rw e (λ h. cc, λ h. cc)
  | inr e ↦ rw e (λ h. cc, λ h. cc)
]

end_of-Ends :
    (connection : RuntimeConnection) (slot : ℕ) (s : ContainerState) (a : Attempt) (w : Waiting)
    → ends_loop a ≡ true
    → a ≢ never_answers
    → Ends (after_connecting connection slot s (end_of a w)).0
unfolding after_connecting
end_of-Ends connection slot s no_connection w e h = cc
end_of-Ends connection slot s (no_ping c) w e h = cc
end_of-Ends connection slot s (no_pong c) w e h = cc
end_of-Ends connection slot s (ponged c) w e h = stopped-Ends connection slot s w
end_of-Ends connection slot s raises w e h = (λ f. cc, λ f. cc)
end_of-Ends connection slot s never_answers w e h = absurd (h refl)

-- Among the attempts that the timeout allows, none waits for a pong without end.
abbrev pub Answers : (ℕ → Attempt) → Type 0
Answers attempt = (k : ℕ) → k < 53 → attempt k ≢ never_answers

module _ (world : World) (answers : Answers world.attempt) where
  connect_backend_terminates :
      (connection : RuntimeConnection) (slot : ℕ) (s : ContainerState)
      → Ends (connect_backend world connection slot s).0
  unfolding connect_backend
  connect_backend_terminates connection slot s = elim (first_end world.attempt 53) [
    | inl fails ↦
        subst (λ t. Ends (after_connecting connection slot s t).0)
          (sym (
            connect_loop-timeout world.attempt 53 54 0 none s.disconnected
              (NoPong-add world.attempt 53 fails) refl (omega arith)))
          (stopped-Ends connection slot s
            (before 53 (last world.attempt none 53 0) (conns_in world.attempt 53 0 s.disconnected)))
    | inr (n, below, fails, ends) ↦
        let e : n ≡ 0 + n = omega arith in
        let (w, runs) =
          connect_loop-end_of world.attempt n 54 0 none s.disconnected
            (NoPong-add world.attempt n fails)
            (subst (λ j. ends_loop (world.attempt j) ≡ true) e ends) (omega arith) (omega arith) in
        subst (λ t. Ends (after_connecting connection slot s t).0) (sym runs)
          (end_of-Ends connection slot s (world.attempt (0 + n)) w
            (subst (λ j. ends_loop (world.attempt j) ≡ true) e ends)
            (answers (0 + n) (omega arith)))
  ]

  start_created_terminates :
      (runtime_id : List ℕ) (slot : ℕ) (o : Option RuntimeConnection) (s : ContainerState)
      → Ends (start_created world runtime_id slot o s).0
  unfolding start_created
  start_created_terminates runtime_id slot none s = (λ h. cc, λ h. cc)
  start_created_terminates runtime_id slot (some connection) s =
      elim (Bool-cases (start_loop world.start 2 0)) [
        | inr f ↦ rw f (λ h. cc, λ h. cc)
        | inl f ↦ elim (Bool-cases world.fork) [
          | inr g ↦ rw (f, g) (λ h. cc, λ h. cc)
          | inl g ↦ rw (f, g) (connect_backend_terminates connection slot _)
        ]
      ]

  start_in_slot_terminates :
      (runtime_id : List ℕ) (s : ContainerState) (slot : Option ℕ)
      → Ends (start_in_slot world runtime_id s slot).0
  unfolding start_in_slot
  start_in_slot_terminates runtime_id s none = (λ h. cc, λ h. cc)
  start_in_slot_terminates runtime_id s (some slot) =
      start_created_terminates runtime_id slot (create_loop world.create 2 0) s

  -- Provided that no attempt waits for its pong without end, `start_backend` ends, whatever else the
  -- replies are, errors included: the loop of connection attempts stays within 54 rounds.
  pub start_backend_terminates :
      (runtime_id : List ℕ) (s : ContainerState)
      → ((start_backend world runtime_id s).0 ≢ out_of_fuel)
        × ((start_backend world runtime_id s).0 ≢ waits)
  unfolding start_backend
  start_backend_terminates runtime_id s =
      start_in_slot_terminates runtime_id s (find_container_slot s)
