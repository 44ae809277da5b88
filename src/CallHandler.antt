-- ===== src/CallHandler.antt =====
-- The call of a function: `plcontainer_call_handler` and `plcontainer_get_result` of
-- src/plcontainer.c. A query of the client may call functions in turn, so that a call is a tree.
pub mod State
pub mod Handler
pub mod Balance
pub mod Restores
pub mod Reach
pub mod Deletes
pub mod Nested
pub mod SetReturning
use plcontainer.Common.{ℕ, Bool, List}
use plcontainer.Subtransaction.{Backend}
use plcontainer.CallHandler.State.{
  HandlerState, Setup, Received, no_result, Ended, returned, raised,
}
use plcontainer.CallHandler.Handler.{
  after_nested, after_log, after_quote, after_subtransaction, after_result, after_exception,
  call_with, sequence,
}

-- What the client sends after the call request. `no_more` is a failure of
-- `plcontainer_channel_receive`; `other` a message of a type that is not handled.
mutual
  pub data Call : Type 0 where
    call : Setup → Answers → Call

  -- A result; the calls of functions in a query, and whether the query and the answer to it succeed; the level of a
  -- log message; whether the answer to a quote and to a subtransaction can be sent.
  pub data Answers : Type 0 where
    no_more : Answers
    result : Received → Answers
    exception : Answers
    sql : Calls → Bool → Answers → Answers
    log : ℕ → Answers → Answers
    quote : Bool → Answers → Answers
    subtransaction : ℕ → ℕ → Bool → Answers → Answers
    other : ℕ → Answers

  pub data Calls : Type 0 where
    nil : Calls
    cons : Call → Calls → Calls

-- `plcontainer_call_handler`, the loop over the messages of a client in `plcontainer_get_result`, and
-- the functions that a query calls.
unfoldable mutual
  unfolding after_nested after_log after_quote after_subtransaction after_result after_exception
      call_with sequence

  pub plcontainer_call_handler : Backend → Call → HandlerState → Ended × HandlerState
  plcontainer_call_handler b (call setup answers) h =
      call_with b setup (receive_answers b answers) h

  pub receive_answers : Backend → Answers → HandlerState → Ended × HandlerState
  receive_answers b no_more h = (raised, h)
  receive_answers b (result received) h = after_result received h
  receive_answers b exception h = after_exception h
  receive_answers b (sql calls succeeds answers) h =
      after_nested succeeds (receive_answers b answers) (call_functions b calls h)
  receive_answers b (log level answers) h = after_log level (receive_answers b answers) h
  receive_answers b (quote sends answers) h = after_quote sends (receive_answers b answers) h
  receive_answers b (subtransaction action type sends answers) h =
      after_subtransaction b action type sends (receive_answers b answers) h
  receive_answers b (other msgtype) h = (raised, h)

  pub call_functions : Backend → Calls → HandlerState → Ended × HandlerState
  call_functions b nil h = (returned no_result, h)
  call_functions b (cons c calls) h =
      sequence (call_functions b calls) (plcontainer_call_handler b c h)
