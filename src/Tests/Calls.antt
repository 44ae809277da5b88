-- ===== src/Tests/Calls.antt =====
-- Examples for the calls of src/plcontainer.c.
use Prim.Native.Char.{code}
use Prim.Native.String.{String}
use plcontainer.Common.{
  ℕ, zero, suc, ◌<◌, ◌≤◌, ◌≢◌, ◌≡◌, refl, ◌++◌, true, false, none, some, List, [], ◌∷◌, length,
}
use plcontainer.Subtransaction.{Backend, plcontainer_abort_open_subtransactions}
use plcontainer.Subtransaction.Laws.{IsBalanced}
use plcontainer.Container.Declaration.{parse_container_meta}
use plcontainer.Container.Backend.{done, failed, element, exited_text, no_element}
use plcontainer.Container.Slots.{RuntimeConnection, get_container_conn}
use plcontainer.Container.Start.{no_connection}
use plcontainer.CallHandler.State.{
  HandlerState, Setup, RuntimeConf, Received, returned, raised, unfinished,
}
use plcontainer.CallHandler.{
  Call, call, Answers, no_more, result, log, subtransaction, plcontainer_call_handler,
}
use plcontainer.CallHandler.Restores.{plcontainer_call_handler_restores}
use plcontainer.CallHandler.Reach.{Reaches, receiving}
use plcontainer.CallHandler.Deletes.{breaks, plcontainer_call_handler_deletes}
use plcontainer.CallHandler.SetReturning.{
  ProcResult, datum, null, refused, rows, all_calls, all_calls-values_from,
}
use plcontainer.CallHandler.Nested.{broken_after, plcontainer_call_handler_keeps}

abbrev codes : String → List ℕ
codes String.[] = []
codes (String.◌∷◌ c s) = code c ∷ codes s

abbrev backend : Backend
backend = record { begins = λ n. some (suc n); ends = λ n rollback. true }

abbrev docker : RuntimeConnection
docker = record { identity = codes "f00d"; uds_address = none }

-- The runtime "plc" has a connection, and no subtransaction is open.
abbrev idle : HandlerState
idle = record {
  containers = record {
    containers_init = true;
    containers =
        record {
          runtimeid = some (codes "plc");
          backend = some 7;
          connection = some docker;
          conn = some 42;
        }
        ∷ [];
    disconnected = [];
    unlinked = [];
  };
  delete_backends_when_error = false;
  session = record { explicit_subtransactions = []; context = 1; owner = 1; nesting = 1 };
  curr_procedure = none;
}

abbrev setup : Setup
setup = record {
  trigger = false;
  spi_connects = true;
  procedure = some 3;
  source = codes "#container: plc" ++ 10 ∷ codes "return 1";
  configuration = λ id. some (record { use_user_control = false; privileged = false });
  world = record {
    backend = 7;
    create = λ k. none;
    start = λ k. false;
    fork = false;
    attempt = λ k. no_connection;
  };
  deletions = λ i. record {
    rounds = λ k. record { status = element exited_text; oom = no_element; deletion = done };
    forced = λ k. failed;
  };
  sends = true;
  interrupted = false;
}

abbrev open_conf : RuntimeConf
open_conf = record { use_user_control = false; privileged = false }

setup-Reaches : Reaches setup idle 3 (codes "plc") open_conf 42
unfolding parse_container_meta get_container_conn
setup-Reaches = record {
  no_trigger = refl;
  connects = refl;
  has_procedure = refl;
  names_runtime = refl;
  configured = refl;
  permits = refl;
  connected = refl;
  sent = refl;
}

-- A subtransaction is opened, and the connection is lost.
abbrev lost : Answers
lost = log 15 (subtransaction b'n' b'n' true no_more)

lost-breaks : breaks lost ≡ true
unfolding breaks
lost-breaks = refl

lost_ends : (plcontainer_call_handler backend (call setup lost) idle).0 ≢ unfinished
lost_ends e =
    let (raises, empty, none_left) =
      plcontainer_call_handler_deletes backend setup lost idle 3 (codes "plc") open_conf 42
        (codes "plc") setup-Reaches lost-breaks in
    cc

plcontainer_call_handler_restores_example :
    IsBalanced 1 (plcontainer_call_handler backend (call setup lost) idle).1.session
    × (length
          (plcontainer_call_handler backend
            (call setup lost)
            idle).1.session.explicit_subtransactions
        ≤ 0)
    × ((plcontainer_call_handler backend (call setup lost) idle).1.curr_procedure ≡ none)
    × ((plcontainer_call_handler backend (call setup lost) idle).1.delete_backends_when_error
        ≡ false)
plcontainer_call_handler_restores_example =
    plcontainer_call_handler_restores backend 1 (call setup lost) idle (λ n. refl)
      (record { balance = refl }) refl lost_ends

abbrev one_row : Received
one_row = record { cols = 1; rows = 1; reads = true }

abbrev inner : Call
inner = call setup (result one_row)

inner_returns :
    (plcontainer_call_handler backend inner
      (receiving 3 (get_container_conn (codes "plc") idle.containers).1 idle)).0
    ≡ returned one_row
unfolding plcontainer_call_handler parse_container_meta get_container_conn
    plcontainer_abort_open_subtransactions
inner_returns = refl

plcontainer_call_handler_keeps_example :
    ((plcontainer_call_handler backend (call setup (broken_after inner)) idle).0 ≡ raised)
    × ((plcontainer_call_handler backend (call setup (broken_after inner)) idle).1.containers
        ≡ (plcontainer_call_handler backend inner
            (receiving 3 (get_container_conn (codes "plc") idle.containers).1 idle)).1.containers)
plcontainer_call_handler_keeps_example =
    plcontainer_call_handler_keeps backend setup inner idle 3 (codes "plc") open_conf 42 one_row
      setup-Reaches refl inner_returns

abbrev two_rows : ProcResult
two_rows = record {
  cols = 1;
  rows = 2;
  cell = λ i. elim i [ zero ↦ datum 8 | suc k ↦ null ];
  resrow = 0;
}

two_readable : (i : ℕ) → i < 2 → two_rows.cell i ≢ refused
two_readable zero h e = cc
two_readable (suc i) h e = cc

all_calls-values_from_example : all_calls 2 (some two_rows) ≡ rows (some 8 ∷ none ∷ [])
all_calls-values_from_example = all_calls-values_from two_rows (λ h. refl) two_readable refl
