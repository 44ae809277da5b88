-- ===== src/Container/Cleanup/Laws.antt =====
-- When the cleanup process of src/containers.c gives up, and that it does.
use plcontainer.Common.{
  ℕ, zero, suc, ◌+◌, ◌*◌, ◌≤◌, ◌<◌, ◌≡◌, ◌≢◌, ◌⊎◌, subst, refl, inl, inr, Bool, true, false,
  EachFrom, leb, Bool-cases, arith,
}
use plcontainer.Container.Backend.{Code, failed, done, alive, delete_backend_if_exited}
use plcontainer.Container.Cleanup.{
  Round, Step, go_on, gone, kill_step, then_delete, round_step, deleted, gave_up, cleanup_loop,
}

module _ (rounds : ℕ → Round) where
  -- In round `k` the QE is gone, the kill does not succeed, and the backend answers the questions
  -- about the container with an error.
  abbrev pub Hopeless : ℕ → Type 0
  Hopeless k =
      ((rounds k).qe_is_alive ≡ false)
      × ((rounds k).kill ≢ done)
      × ((delete_backend_if_exited (rounds k).replies).code ≡ failed)

  -- Each of the `m` rounds before round `k` is hopeless.
  abbrev pub HopelessBefore : ℕ → ℕ → Type 0
  HopelessBefore zero k = Unit {0}
  HopelessBefore (suc m) zero = ⊥
  HopelessBefore (suc m) (suc k) = Hopeless k × HopelessBefore m k

  HopelessBefore-le : (n m k : ℕ) → n ≤ m → HopelessBefore m k → HopelessBefore n k
  HopelessBefore-le zero m k h b = tt
  HopelessBefore-le (suc n) zero k h b = absurd (omega arith)
  HopelessBefore-le (suc n) (suc m) zero h b = b
  HopelessBefore-le (suc n) (suc m) (suc k) h (b, bs) =
      (b, HopelessBefore-le n m k (omega arith) bs)

  -- `wait_times` counts at most two failures for each of the last hopeless rounds, and one before.
  abbrev Counted : ℕ → ℕ → Type 0
  Counted k w = (m : ℕ) × (w ≤ 2 * m + 1) × HopelessBefore m k

  step_count :
      (b : Bool) (kill code : Code) (k w w' : ℕ)
      → (rounds k).qe_is_alive ≡ b
      → (rounds k).kill ≡ kill
      → (delete_backend_if_exited (rounds k).replies).code ≡ code
      → then_delete code (kill_step b kill w) ≡ go_on w'
      → Counted k w
      → Counted (suc k) w'
  unfolding kill_step then_delete
  step_count true kill failed k w w' q t a step (m, bound, before) =
      let e : 1 ≡ w' = cc in (0, omega arith, tt)
  step_count true kill done k w w' q t a step (m, bound, before) = cc
  step_count true kill alive k w w' q t a step (m, bound, before) =
      let e : 0 ≡ w' = cc in (0, omega arith, tt)
  step_count false done code k w w' q t a step (m, bound, before) = cc
  step_count false failed failed k w w' q t a step (m, bound, before) =
      let e : suc (suc w) ≡ w' = cc in (suc m, omega arith, ((q, λ d. cc, a), before))
  step_count false failed done k w w' q t a step (m, bound, before) = cc
  step_count false failed alive k w w' q t a step (m, bound, before) =
      let e : 0 ≡ w' = cc in (0, omega arith, tt)
  step_count false alive failed k w w' q t a step (m, bound, before) =
      let e : suc w ≡ w' = cc in (suc m, omega arith, ((q, λ d. cc, a), before))
  step_count false alive done k w w' q t a step (m, bound, before) = cc
  step_count false alive alive k w w' q t a step (m, bound, before) =
      let e : 0 ≡ w' = cc in (0, omega arith, tt)

  round_count : (k w w' : ℕ) → round_step (rounds k) w ≡ go_on w' → Counted k w → Counted (suc k) w'
  unfolding round_step
  round_count k w w' step counted =
      step_count (rounds k).qe_is_alive (rounds k).kill
        (delete_backend_if_exited (rounds k).replies).code k w w' refl refl refl step counted

  thirty_before : (k w : ℕ) → leb 60 w ≡ true → Counted k w → HopelessBefore 30 k
  thirty_before k w late (m, bound, before) = HopelessBefore-le 30 m k (ground arith) before

  Step-cases : (s : Step) → (s ≡ gone) ⊎ ((w : ℕ) × (s ≡ go_on w))
  Step-cases gone = inl refl
  Step-cases (go_on w) = inr (w, refl)

  gives_up_after :
      (n k w end : ℕ)
      → cleanup_loop rounds n k w ≡ gave_up end
      → Counted k w
      → HopelessBefore 30 (suc end)
  unfolding cleanup_loop
  gives_up_after zero k w end ends counted = cc
  gives_up_after (suc n) k w end ends counted = elim (Step-cases (round_step (rounds k) w)) [
    | inl e ↦ cc (let bad : deleted k ≡ gave_up end = rw e at ends in bad)
    | inr (w', e) ↦ elim (Bool-cases (leb 60 w')) [
      | inl late ↦
          let same : gave_up k ≡ gave_up end = rw (e, late) at ends in
          let k_end : k ≡ end = cc in
          subst (λ j. HopelessBefore 30 (suc j)) k_end
            (thirty_before (suc k) w' late (round_count k w w' e counted))
      | inr early ↦
          gives_up_after n (suc k) w' end (rw (e, early) at ends) (round_count k w w' e counted)
    ]
  ]

  -- If the cleanup process gives up in a round, then in that round and in the 29 before it the QE was
  -- gone, the kill did not succeed and the questions about the container failed.
  pub cleanup_loop-gave_up :
      (n end : ℕ) → cleanup_loop rounds n 0 0 ≡ gave_up end → HopelessBefore 30 (suc end)
  cleanup_loop-gave_up n end ends = gives_up_after n 0 0 end ends (0, omega arith, tt)

  -- The QE is gone, and every call of the backend fails.
  abbrev pub Failing : ℕ → Type 0
  Failing k =
      ((rounds k).qe_is_alive ≡ false)
      × ((rounds k).kill ≡ failed)
      × ((delete_backend_if_exited (rounds k).replies).code ≡ failed)

  round_step-Failing : (k w : ℕ) → Failing k → round_step (rounds k) w ≡ go_on (suc (suc w))
  unfolding round_step kill_step then_delete
  round_step-Failing k w (q, t, a) = rw (q, t, a) refl

  cleanup_loop-Failing :
      (n k w : ℕ)
      → EachFrom Failing n k
      → 60 ≤ 2 * n + 2 + w
      → w < 60
      → (end : ℕ) × (end ≤ k + n) × (cleanup_loop rounds (suc n) k w ≡ gave_up end)
  unfolding cleanup_loop
  cleanup_loop-Failing zero k w fails enough below =
      let late : leb 60 (suc (suc w)) ≡ true = ground arith in
      (k, omega arith, rw (round_step-Failing k w fails, late) refl)
  cleanup_loop-Failing (suc n) k w (now, fails) enough below =
      elim (Bool-cases (leb 60 (suc (suc w)))) [
        | inl late ↦ (k, omega arith, rw (round_step-Failing k w now, late) refl)
        | inr early ↦
            let (end, bound, ends) =
              cleanup_loop-Failing n (suc k) (suc (suc w)) fails (omega arith) (ground arith) in
            (end, omega arith, rw (round_step-Failing k w now, early) ends)
      ]

  -- Once the QE is gone and every call of the backend fails, the cleanup process ends within 30
  -- rounds, whatever came before.
  pub cleanup_loop_ends :
      (k w : ℕ)
      → w < 60
      → EachFrom Failing 29 k
      → (end : ℕ) × (end ≤ k + 29) × (cleanup_loop rounds 30 k w ≡ gave_up end)
  cleanup_loop_ends k w below fails = cleanup_loop-Failing 29 k w fails (omega arith) below
