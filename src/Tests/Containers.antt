-- ===== src/Tests/Containers.antt =====
-- Examples for src/containers.c.
use Prim.Native.Char.{code}
use Prim.Native.String.{String}
use plcontainer.Common.{
  ℕ, zero, suc, ◌≤◌, ◌≡◌, ◌≢◌, refl, ◌↔◌, ◌++◌, true, false, none, some, List, [], ◌∷◌, EachFrom,
  arith,
}
use plcontainer.Container.Declaration.{
  check_runtime_id, parse_container_meta, runtime_id, refused, illegal_character,
}
use plcontainer.Container.Declaration.Sound.{Declares}
use plcontainer.Container.Declaration.Equivalence.{parse_container_meta-Declares}
use plcontainer.Container.Backend.{
  failed, done, no_element, inspect_failed, element, exited_text, delete_backend_if_exited,
}
use plcontainer.Container.Slots.{
  RuntimeConnection, ContainerState, find_container_slot, find_id, get_container_conn, empty_slots,
}
use plcontainer.Container.Start.{
  waits, World, no_connection, no_pong, ponged, start_backend, started, timeout, out_of_fuel,
}
use plcontainer.Container.Start.Backoff.{conns_in}
use plcontainer.Container.Start.Whole.{
  NoPong, start_backend-started, start_backend_disconnects_twice,
}
use plcontainer.Container.Start.Ends.{Answers, start_backend_terminates}
use plcontainer.Container.Delete.{SlotReplies, delete_all, delete_containers}
use plcontainer.Container.Delete.Laws.{connections, Results, delete_containers_lem}
use plcontainer.Container.Cleanup.{Round, cleanup_loop, gave_up}
use plcontainer.Container.Cleanup.Laws.{
  HopelessBefore, Failing, cleanup_loop-gave_up, cleanup_loop_ends,
}

abbrev codes : String → List ℕ
codes String.[] = []
codes (String.◌∷◌ c s) = code c ∷ codes s

check_first_mark : check_runtime_id (codes "_plc") ≡ false
unfolding check_runtime_id
check_first_mark = refl

-- Blanks before the newline are dropped.
abbrev python_source : List ℕ
python_source = 10 ∷ codes "# container : plc_python \t" ++ 10 ∷ codes "return 1"

parse_container_meta-Declares_example :
    (parse_container_meta python_source ≡ runtime_id (codes "plc_python"))
    ↔ Declares python_source (codes "plc_python")
parse_container_meta-Declares_example =
    parse_container_meta-Declares python_source (codes "plc_python")

parse_python : parse_container_meta python_source ≡ runtime_id (codes "plc_python")
unfolding parse_container_meta
parse_python = refl

parse_illegal :
    parse_container_meta (codes "#container: a b" ++ 10 ∷ []) ≡ refused illegal_character
unfolding parse_container_meta
parse_illegal = refl

abbrev fresh : ContainerState
fresh = record {
  containers_init = true;
  containers = empty_slots;
  disconnected = [];
  unlinked = [];
}

abbrev docker : RuntimeConnection
docker = record { identity = codes "f00d"; uds_address = some (codes "/tmp/plc") }

-- The second attempt to connect gets no pong, the third gets one.
abbrev slow_world : World
slow_world = record {
  backend = 7;
  create = λ k. some docker;
  start = λ k. true;
  fork = true;
  attempt = λ k. elim k [ zero ↦ no_connection | suc zero ↦ no_pong 41 | suc (suc i) ↦ ponged 42 ];
}

slow_attempts : NoPong slow_world.attempt 2
slow_attempts zero h = refl
slow_attempts (suc zero) h = refl
slow_attempts (suc (suc i)) h = absurd (omega arith)

other_id : codes "r" ≢ codes "plc"
other_id e = cc

no_slot_yet : find_id (codes "plc") fresh.containers ≡ none
unfolding find_id
no_slot_yet = refl

first_slot : find_container_slot fresh ≡ some 0
unfolding find_container_slot
first_slot = refl

start_backend-started_example :
    ((start_backend slow_world (codes "plc") fresh).0 ≡ started (some 42))
    × ((get_container_conn (codes "plc") (start_backend slow_world (codes "plc") fresh).1).0
        ≡ some 42)
    × ((get_container_conn (codes "r") (start_backend slow_world (codes "plc") fresh).1).0
        ≡ (get_container_conn (codes "r") fresh).0)
    × ((start_backend slow_world (codes "plc") fresh).1.disconnected ≡ 41 ∷ [])
start_backend-started_example =
    start_backend-started slow_world (codes "plc") (codes "r") fresh 0 0 0 2 42 docker refl
      first_slot no_slot_yet other_id (λ k h. absurd (omega arith)) refl (omega arith) refl
      (omega arith) refl slow_attempts refl (omega arith)

-- No attempt gets a pong.
abbrev silent_world : World
silent_world = record slow_world { attempt = λ k. no_pong k }

silent : NoPong silent_world.attempt 53
silent i h = refl

start_backend_disconnects_twice_example :
    ((start_backend silent_world (codes "plc") fresh).0 ≡ timeout)
    × ((start_backend silent_world (codes "plc") fresh).1.disconnected
        ≡ 52 ∷ 52 ∷ conns_in silent_world.attempt 52 0 [])
start_backend_disconnects_twice_example =
    start_backend_disconnects_twice silent_world (codes "plc") fresh 0 0 0 52 docker first_slot
      (λ k h. absurd (omega arith)) refl (omega arith) refl (omega arith) refl silent refl

silent_answers : Answers silent_world.attempt
silent_answers k h e = cc

start_backend_terminates_example :
    ((start_backend silent_world (codes "plc") fresh).0 ≢ out_of_fuel)
    × ((start_backend silent_world (codes "plc") fresh).0 ≢ waits)
start_backend_terminates_example =
    start_backend_terminates silent_world silent_answers (codes "plc") fresh

abbrev exited_replies : SlotReplies
exited_replies = record {
  rounds = λ k. record { status = element exited_text; oom = no_element; deletion = done };
  forced = λ k. failed;
}

abbrev one_container : ContainerState
one_container = record fresh {
  containers =
      record {
        runtimeid = some (codes "plc");
        backend = some 7;
        connection = some docker;
        conn = some 42;
      }
      ∷ [];
}

delete_containers_lem_example :
    ((delete_containers (λ i. exited_replies) one_container).disconnected ≡ 42 ∷ [])
    × Results
        (λ i. exited_replies)
        0
        one_container.containers
        (delete_all (λ i. exited_replies) one_container).results
    × (connections (delete_containers (λ i. exited_replies) one_container).containers ≡ [])
delete_containers_lem_example = delete_containers_lem (λ i. exited_replies) one_container refl

-- The QE is gone, and every call fails.
abbrev dead_round : Round
dead_round = record {
  qe_is_alive = false;
  kill = failed;
  replies = record { status = inspect_failed; oom = no_element; deletion = failed };
}

dead_gives_up : cleanup_loop (λ k. dead_round) 40 0 0 ≡ gave_up 29
unfolding cleanup_loop
dead_gives_up = refl

cleanup_loop-gave_up_example : HopelessBefore (λ k. dead_round) 30 30
cleanup_loop-gave_up_example = cleanup_loop-gave_up (λ k. dead_round) 40 29 dead_gives_up

each_round : (n k : ℕ) → EachFrom (Failing (λ k. dead_round)) n k
unfolding delete_backend_if_exited
each_round zero k = (refl, refl, refl)
each_round (suc n) k = ((refl, refl, refl), each_round n (suc k))

cleanup_loop_ends_example :
    (end : ℕ) × (end ≤ 34) × (cleanup_loop (λ k. dead_round) 30 5 3 ≡ gave_up end)
cleanup_loop_ends_example = cleanup_loop_ends (λ k. dead_round) 5 3 (omega arith) (each_round 29 5)
