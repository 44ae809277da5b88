-- ===== src/Container/Start/Backoff.antt =====
-- How often `start_backend` of src/containers.c tries to connect, and how long it waits.
use plcontainer.Common.{
  ℕ, zero, suc, ◌+◌, ◌-◌, ◌*◌, ◌<◌, ◌≡◌, refl, ap, subst, sym, ◌∙◌, Bool, true, false, Option, none,
  some, List, ◌∷◌, ◌==◌, lt→ltb, if◌then◌else◌, arith,
}
use plcontainer.Container.Start.{
  Attempt, no_connection, no_ping, no_pong, ponged, raises, never_answers, Waiting, wait,
  Connecting, stopped, attempt_raised, stuck, exhausted, connect_loop,
}

-- The delay before attempt `k + 1`, and all delays before attempt `k`.
abbrev pub delay_us : ℕ → ℕ
delay_us k = if k == 0 then 25000 else if k == 1 then 50000 else if k == 2 then 100000 else 200000

abbrev pub waited_ms : ℕ → ℕ
waited_ms k = if k == 0 then 0 else if k == 1 then 25 else if k == 2 then 75 else 200 * k - 425

-- Whether the loop goes no further after an attempt.
abbrev pub ends_loop : Attempt → Bool
ends_loop no_connection = false
ends_loop (no_ping conn) = false
ends_loop (no_pong conn) = false
ends_loop (ponged conn) = true
ends_loop raises = true
ends_loop never_answers = true

abbrev pub conn_in : Attempt → Option ℕ
conn_in no_connection = none
conn_in (no_ping conn) = some conn
conn_in (no_pong conn) = some conn
conn_in (ponged conn) = some conn
conn_in raises = none
conn_in never_answers = none

abbrev pub push : Option ℕ → List ℕ → List ℕ
push none l = l
push (some conn) l = conn ∷ l

-- How the loop ends at such an attempt.
abbrev pub end_of : Attempt → Waiting → Connecting
end_of no_connection w = exhausted
end_of (no_ping conn) w = exhausted
end_of (no_pong conn) w = exhausted
end_of (ponged conn) w = stopped w
end_of raises w = attempt_raised w
end_of never_answers w = stuck w

-- The connections of `n` attempts from `k` on, pushed on a list.
abbrev pub conns_in : (ℕ → Attempt) → ℕ → ℕ → List ℕ → List ℕ
conns_in attempt zero k l = l
conns_in attempt (suc n) k l = conns_in attempt n (suc k) (push (conn_in (attempt k)) l)

-- The variable `conn` after them.
abbrev pub last : (ℕ → Attempt) → Option ℕ → ℕ → ℕ → Option ℕ
last attempt conn zero k = conn
last attempt conn (suc n) k = last attempt (conn_in (attempt k)) n (suc k)

-- Before attempt `k`.
abbrev pub before : ℕ → Option ℕ → List ℕ → Waiting
before k conn l = record {
  conn = conn;
  sleepus = delay_us k;
  sleepms = waited_ms k;
  disconnected = l;
}

waited-lt : (k : ℕ) → k < 53 → waited_ms k < 10000
waited-lt k h = ground arith

wait-before :
    (k : ℕ) (conn conn' : Option ℕ) (l l' : List ℕ)
    → k < 53
    → wait conn' l' (before k conn l) ≡ before (suc k) conn' l'
unfolding wait
wait-before k conn conn' l l' h = ground arith

module _ (attempt : ℕ → Attempt) where
  -- One attempt that fails.
  loop_step :
      (a : Attempt) (fuel k : ℕ) (conn : Option ℕ) (l : List ℕ)
      → attempt k ≡ a
      → ends_loop a ≡ false
      → k < 53
      → connect_loop attempt (suc fuel) k (before k conn l)
        ≡ connect_loop attempt fuel (suc k) (before (suc k) (conn_in a) (push (conn_in a) l))
  unfolding connect_loop
  loop_step no_connection fuel k conn l e f h =
      rw (lt→ltb (waited_ms k) 10000 (waited-lt k h), e)
        (ap (connect_loop attempt fuel (suc k)) (wait-before k conn none l l h))
  loop_step (no_ping c) fuel k conn l e f h =
      rw (lt→ltb (waited_ms k) 10000 (waited-lt k h), e)
        (ap (connect_loop attempt fuel (suc k)) (wait-before k conn (some c) l (c ∷ l) h))
  loop_step (no_pong c) fuel k conn l e f h =
      rw (lt→ltb (waited_ms k) 10000 (waited-lt k h), e)
        (ap (connect_loop attempt fuel (suc k)) (wait-before k conn (some c) l (c ∷ l) h))
  loop_step (ponged c) fuel k conn l e f h = cc
  loop_step raises fuel k conn l e f h = cc
  loop_step never_answers fuel k conn l e f h = cc

  fails_next :
      (n k : ℕ)
      → ((i : ℕ) → i < suc n → ends_loop (attempt (k + i)) ≡ false)
      → (i : ℕ) → i < n
      → ends_loop (attempt (suc k + i)) ≡ false
  fails_next n k fails i h =
      subst (λ j. ends_loop (attempt j) ≡ false) (let e : k + suc i ≡ suc k + i = omega arith in e)
        (fails (suc i) (omega arith))

  fails_now :
      (n k : ℕ)
      → ((i : ℕ) → i < suc n → ends_loop (attempt (k + i)) ≡ false)
      → ends_loop (attempt k) ≡ false
  fails_now n k fails =
      subst (λ j. ends_loop (attempt j) ≡ false) (let e : k + 0 ≡ k = omega arith in e)
        (fails 0 (omega arith))

  stopped_ponged :
      (a : Attempt) (fuel k c : ℕ) (conn : Option ℕ) (l : List ℕ)
      → attempt k ≡ ponged c
      → k < 53
      → connect_loop attempt (suc fuel) k (before k conn l) ≡ stopped (before k (some c) l)
  unfolding connect_loop
  stopped_ponged a fuel k c conn l e h = rw (lt→ltb (waited_ms k) 10000 (waited-lt k h), e) refl

  -- The first pong ends the loop.
  pub connect_loop-ponged :
      (n fuel k c : ℕ) (conn : Option ℕ) (l : List ℕ)
      → ((i : ℕ) → i < n → ends_loop (attempt (k + i)) ≡ false)
      → attempt (k + n) ≡ ponged c
      → k + n < 53
      → n < fuel
      → connect_loop attempt fuel k (before k conn l)
        ≡ stopped (before (k + n) (some c) (conns_in attempt n k l))
  connect_loop-ponged zero zero k c conn l fails pongs within enough = absurd (omega arith)
  connect_loop-ponged (suc n) zero k c conn l fails pongs within enough = absurd (omega arith)
  connect_loop-ponged zero (suc fuel) k c conn l fails pongs within enough =
      let e : k + 0 ≡ k = omega arith in
      stopped_ponged (attempt k) fuel k c conn l (subst (λ j. attempt j ≡ ponged c) e pongs)
        (omega arith)
      ∙ ap (λ j. stopped (before j (some c) l)) (sym e)
  connect_loop-ponged (suc n) (suc fuel) k c conn l fails pongs within enough =
      let e : k + suc n ≡ suc k + n = omega arith in
      loop_step (attempt k) fuel k conn l refl (fails_now n k fails) (omega arith)
      ∙ connect_loop-ponged n fuel (suc k) c (conn_in (attempt k)) (push (conn_in (attempt k)) l)
          (fails_next n k fails) (subst (λ j. attempt j ≡ ponged c) e pongs) (omega arith)
          (omega arith)
      ∙ ap (λ j. stopped (before j (some c) (conns_in attempt (suc n) k l))) (sym e)

  ends_now :
      (a : Attempt) (fuel k : ℕ) (conn : Option ℕ) (l : List ℕ)
      → attempt k ≡ a
      → ends_loop a ≡ true
      → k < 53
      → (w : Waiting) × (connect_loop attempt (suc fuel) k (before k conn l) ≡ end_of a w)
  unfolding connect_loop
  ends_now no_connection fuel k conn l e f h = cc
  ends_now (no_ping c) fuel k conn l e f h = cc
  ends_now (no_pong c) fuel k conn l e f h = cc
  ends_now (ponged c) fuel k conn l e f h =
      (before k (some c) l, rw (lt→ltb (waited_ms k) 10000 (waited-lt k h), e) refl)
  ends_now raises fuel k conn l e f h =
      (before k conn l, rw (lt→ltb (waited_ms k) 10000 (waited-lt k h), e) refl)
  ends_now never_answers fuel k conn l e f h =
      (before k conn l, rw (lt→ltb (waited_ms k) 10000 (waited-lt k h), e) refl)

  -- The first attempt after which the loop goes no further.
  pub connect_loop-end_of :
      (n fuel k : ℕ) (conn : Option ℕ) (l : List ℕ)
      → ((i : ℕ) → i < n → ends_loop (attempt (k + i)) ≡ false)
      → ends_loop (attempt (k + n)) ≡ true
      → k + n < 53
      → n < fuel
      → (w : Waiting) × (connect_loop attempt fuel k (before k conn l) ≡ end_of (attempt (k + n)) w)
  connect_loop-end_of zero zero k conn l fails ends within enough = absurd (omega arith)
  connect_loop-end_of (suc n) zero k conn l fails ends within enough = absurd (omega arith)
  connect_loop-end_of zero (suc fuel) k conn l fails ends within enough =
      let e : k ≡ k + 0 = omega arith in
      ends_now (attempt (k + 0)) fuel k conn l (ap attempt e) ends (omega arith)
  connect_loop-end_of (suc n) (suc fuel) k conn l fails ends within enough =
      let e : k + suc n ≡ suc k + n = omega arith in
      let (w, runs) =
        connect_loop-end_of n fuel (suc k) (conn_in (attempt k)) (push (conn_in (attempt k)) l)
          (fails_next n k fails) (subst (λ j. ends_loop (attempt j) ≡ true) e ends) (omega arith)
          (omega arith) in
      (
        w,
        loop_step (attempt k) fuel k conn l refl (fails_now n k fails) (omega arith)
            ∙ runs
            ∙ ap (λ j. end_of (attempt j) w) (sym e),
      )

  stopped_timeout :
      (fuel : ℕ) (conn : Option ℕ) (l : List ℕ)
      → connect_loop attempt (suc fuel) 53 (before 53 conn l) ≡ stopped (before 53 conn l)
  unfolding connect_loop
  stopped_timeout fuel conn l = refl

  -- After 53 attempts without a pong the loop gives up.
  pub connect_loop-timeout :
      (n fuel k : ℕ) (conn : Option ℕ) (l : List ℕ)
      → ((i : ℕ) → i < n → ends_loop (attempt (k + i)) ≡ false)
      → k + n ≡ 53
      → n < fuel
      → connect_loop attempt fuel k (before k conn l)
        ≡ stopped (before 53 (last attempt conn n k) (conns_in attempt n k l))
  connect_loop-timeout zero zero k conn l fails within enough = absurd (omega arith)
  connect_loop-timeout (suc n) zero k conn l fails within enough = absurd (omega arith)
  connect_loop-timeout zero (suc fuel) k conn l fails within enough =
      let e : k ≡ 53 = omega arith in rw e (stopped_timeout fuel conn l)
  connect_loop-timeout (suc n) (suc fuel) k conn l fails within enough =
      loop_step (attempt k) fuel k conn l refl (fails_now n k fails) (omega arith)
      ∙ connect_loop-timeout n fuel (suc k) (conn_in (attempt k)) (push (conn_in (attempt k)) l)
          (fails_next n k fails) (omega arith) (omega arith)
