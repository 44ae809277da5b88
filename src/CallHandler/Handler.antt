-- ===== src/CallHandler/Handler.antt =====
-- The steps of a call of src/plcontainer.c, each with what follows it as an argument.
use plcontainer.Common.{
  ℕ, Bool, true, false, not, ◌||◌, Option, none, some, List, length, ltb, leb, ◌==◌, if◌then◌else◌,
}
use plcontainer.Outcome.{Outcome, done, blocked, undefined, exhausted}
use plcontainer.Subtransaction.{Backend, Session, act, plcontainer_abort_open_subtransactions}
use plcontainer.Container.Declaration.{Meta, runtime_id, refused, parse_container_meta}
use plcontainer.Container.Slots.{ContainerState, get_container_conn}
use plcontainer.Container.Start.{
  Started, started, no_slot, create_error, start_error, no_cleanup, timeout, attempt_error, waits,
  out_of_fuel, start_backend,
}
use plcontainer.Container.Delete.{delete_containers}
use plcontainer.CallHandler.State.{
  HandlerState, RuntimeConf, Setup, Received, no_result, Ended, returned, raised, unfinished,
}

-- What is left of a call.
abbrev pub Rest : Type 0
Rest = HandlerState → Ended × HandlerState

abbrev pub with_flag : Bool → HandlerState → HandlerState
with_flag flag h = record h { delete_backends_when_error = flag }

abbrev pub with_containers : ContainerState → HandlerState → HandlerState
with_containers containers h = record h { containers = containers }

-- One call after another: an error ends the sequence.
unfoldable pub sequence : Rest → Ended × HandlerState → Ended × HandlerState
sequence rest (returned result, h) = rest h
sequence rest (raised, h) = (raised, h)
sequence rest (unfinished, h) = (unfinished, h)

-- MT_SQL: the functions that the query calls, then the query itself.
unfoldable pub after_nested : Bool → Rest → Ended × HandlerState → Ended × HandlerState
unfolding sequence
after_nested succeeds rest r = sequence (λ h. if succeeds then rest h else (raised, h)) r

-- ERROR of elog.h
abbrev pub error_level : ℕ
error_level = 20

-- MT_LOG, `plcontainer_process_log`: `ereport` from ERROR on does not return.
unfoldable pub after_log : ℕ → Rest → Rest
after_log level rest h = if leb error_level level then (raised, h) else rest h

-- MT_QUOTE
unfoldable pub after_quote : Bool → Rest → Rest
after_quote sends rest h = if sends then rest h else (raised, h)

-- MT_SUBTRANSACTION
unfoldable pub after_subtransaction : Backend → ℕ → ℕ → Bool → Rest → Rest
after_subtransaction b action type sends rest h =
    let h : HandlerState = record h { session = (act b action type h.session).1 } in
    if sends then rest h else (raised, h)

-- MT_EXCEPTION
unfoldable pub after_exception : Rest
after_exception h = (raised, with_flag false h)

-- `plcontainer_abort_open_subtransactions`, which may raise an error of its own.
abbrev pub aborted : HandlerState → Outcome Session (Unit {0}) → Ended × HandlerState
aborted h (done _ s) = (returned no_result, record h { session = s })
aborted h (Outcome.raised s) = (raised, record h { session = s })
aborted h blocked = (raised, h)
aborted h undefined = (raised, h)
aborted h exhausted = (raised, h)

unfoldable pub abort_open : Backend → ℕ → Rest
abort_open b level h = aborted h (plcontainer_abort_open_subtransactions b level h.session)

-- MT_RESULT ends the loop.
unfoldable pub after_result : Received → Rest
after_result result h = (returned result, h)

-- `plcontainer_process_result` for row 0; a row of no columns is read through NULL.
unfoldable pub process_result : Received → Ended
process_result result =
    if ltb 1 result.cols
    then raised
    else if result.rows == 0
    then returned result
    else if result.cols == 0
    then unfinished
    else if result.reads
    then returned result
    else raised

-- The message loop, once the connection is there.
unfoldable pub request : Setup → Rest → Rest
request setup answers h =
    let h : HandlerState = with_flag true h in if setup.sends then answers h else (raised, h)

-- The result of `start_backend`.
unfoldable pub started_with : Setup → Rest → Started × ContainerState → Rest
unfolding request
started_with setup answers (started (some conn), cs) h =
    request setup answers (with_flag false (with_containers cs h))
started_with setup answers (started none, cs) h = (raised, with_flag true (with_containers cs h))
started_with setup answers (no_slot, cs) h = (raised, with_flag true (with_containers cs h))
started_with setup answers (create_error, cs) h = (raised, with_flag true (with_containers cs h))
started_with setup answers (start_error, cs) h = (raised, with_flag true (with_containers cs h))
started_with setup answers (no_cleanup, cs) h = (raised, with_flag true (with_containers cs h))
started_with setup answers (timeout, cs) h = (raised, with_flag true (with_containers cs h))
started_with setup answers (attempt_error, cs) h = (raised, with_flag true (with_containers cs h))
started_with setup answers (waits, cs) h = (unfinished, with_flag true (with_containers cs h))
started_with setup answers (out_of_fuel, cs) h = (raised, with_flag true (with_containers cs h))

unfoldable pub connect : Setup → Rest → List ℕ → Option ℕ × ContainerState → Rest
unfolding request started_with
connect setup answers id (some conn, cs) h = request setup answers (with_containers cs h)
connect setup answers id (none, cs) h =
    started_with setup answers (start_backend setup.world id cs) h

abbrev pub permitted : RuntimeConf → Bool
permitted conf = not conf.use_user_control || conf.privileged

unfoldable pub with_conf : Setup → Rest → List ℕ → Option RuntimeConf → Rest
unfolding connect
with_conf setup answers id none h = (raised, h)
with_conf setup answers id (some conf) h =
    if permitted conf
    then connect setup answers id (get_container_conn id h.containers) h
    else (raised, h)

unfoldable pub with_meta : Setup → Rest → Meta → Rest
unfolding with_conf
with_meta setup answers (refused complaint) h = (raised, h)
with_meta setup answers (runtime_id id) h = with_conf setup answers id (setup.configuration id) h

-- The end of `PG_TRY` in `plcontainer_get_result`, and `PG_CATCH`.
unfoldable pub result_ends : Backend → ℕ → Ended × HandlerState → Ended × HandlerState
unfolding sequence abort_open
result_ends b level (raised, h) = (raised, (abort_open b level h).1)
result_ends b level (unfinished, h) = (unfinished, h)
result_ends b level (returned result, h) =
    sequence (λ h. (returned result, with_flag false h)) (abort_open b level h)

unfoldable pub plcontainer_get_result : Backend → Setup → Rest → Rest
unfolding result_ends with_meta
plcontainer_get_result b setup answers h =
    result_ends b (length h.session.explicit_subtransactions)
      (with_meta setup answers (parse_container_meta setup.source) h)

-- `PG_CATCH` of `plcontainer_call_handler`.
unfoldable pub caught : Setup → Option ℕ → HandlerState → HandlerState
caught setup saved h =
    let h' : HandlerState =
      if setup.interrupted || h.delete_backends_when_error
      then with_flag false (with_containers (delete_containers setup.deletions h.containers) h)
      else h in
    record h' { curr_procedure = saved }

-- SPI_finish succeeds, since SPI_connect did.
unfoldable pub call_ends : Setup → Option ℕ → Ended × HandlerState → Ended × HandlerState
unfolding caught
call_ends setup saved (raised, h) = (raised, caught setup saved h)
call_ends setup saved (unfinished, h) = (unfinished, h)
call_ends setup saved (returned result, h) = (returned result, record h { curr_procedure = saved })

-- `plcontainer_function_handler` of a function that returns no set.
unfoldable pub function_handler : Ended × HandlerState → Ended × HandlerState
unfolding process_result
function_handler (raised, h) = (raised, h)
function_handler (unfinished, h) = (unfinished, h)
function_handler (returned result, h) = (process_result result, h)

unfoldable pub call_procedure : Backend → Setup → Rest → Option ℕ → Rest
unfolding plcontainer_get_result function_handler
call_procedure b setup answers none h = (raised, h)
call_procedure b setup answers (some proc) h =
    function_handler
      (plcontainer_get_result b setup answers (record h { curr_procedure = some proc }))

unfoldable pub call_with : Backend → Setup → Rest → Rest
unfolding call_ends call_procedure
call_with b setup answers h =
    if setup.trigger
    then (raised, h)
    else if setup.spi_connects
    then call_ends setup h.curr_procedure (call_procedure b setup answers setup.procedure h)
    else (raised, h)
