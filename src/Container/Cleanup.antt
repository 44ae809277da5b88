-- ===== src/Container/Cleanup.antt =====
-- The loop of the process that `cleanup` of src/containers.c forks: it waits for the end of the
-- container, or of the backend process (QE) that started it.
pub mod Laws
use plcontainer.Common.{ℕ, zero, suc, ◌+◌, Bool, true, false, leb, if◌then◌else◌}
use plcontainer.Container.Backend.{
  Code, failed, done, alive, Replies, Exited, delete_backend_if_exited,
}

-- CLEANUP_CONTAINER_CONNECT_RETRY_TIMES
abbrev pub retry_times : ℕ
retry_times = 60

-- One round: whether the parent is still the QE, the reply to `plc_backend_kill`, which is asked for
-- only if it is not, and those to `delete_backend_if_exited`.
pub record Round : Type 0 where
  pub qe_is_alive : Bool
  pub kill : Code
  pub replies : Replies

-- After a step: the loop goes on with `wait_times`, or is left because the container is gone.
pub data Step : Type 0 where
  go_on : ℕ → Step
  gone : Step

-- The first half of the body.
unfoldable pub kill_step : Bool → Code → ℕ → Step
kill_step true kill wait_times = go_on 0
kill_step false done wait_times = gone
kill_step false failed wait_times = go_on (suc wait_times)
kill_step false alive wait_times = go_on wait_times

unfoldable pub delete_step : Code → ℕ → Step
delete_step alive wait_times = go_on 0
delete_step done wait_times = gone
delete_step failed wait_times = go_on (suc wait_times)

-- The second half, with what `delete_backend_if_exited` gives.
unfoldable pub then_delete : Code → Step → Step
unfolding delete_step
then_delete code gone = gone
then_delete code (go_on wait_times) = delete_step code wait_times

-- The body of the loop up to the test of `wait_times`.
unfoldable pub round_step : Round → ℕ → Step
unfolding kill_step then_delete delete_backend_if_exited
round_step r wait_times =
    then_delete (delete_backend_if_exited r.replies).code
      (kill_step r.qe_is_alive r.kill wait_times)

-- How the loop ends, with the round; `waiting` if it has not after the rounds that are given.
pub data Cleaned : Type 0 where
  deleted : ℕ → Cleaned
  gave_up : ℕ → Cleaned
  waiting : ℕ → Cleaned

abbrev pub loop_step : (ℕ → Cleaned) → ℕ → Step → Cleaned
loop_step rest k gone = deleted k
loop_step rest k (go_on wait_times) =
    if leb retry_times wait_times then gave_up k else rest wait_times

-- The loop for `n` rounds from round `k` on.
unfoldable pub cleanup_loop : (ℕ → Round) → ℕ → ℕ → ℕ → Cleaned
unfolding round_step
cleanup_loop rounds zero k wait_times = waiting wait_times
cleanup_loop rounds (suc n) k wait_times =
    loop_step (cleanup_loop rounds n (suc k)) k (round_step (rounds k) wait_times)
