-- ===== src/CallHandler/Nested.antt =====
-- What a function that a query calls does to the flag of src/plcontainer.c by which an error deletes
-- the containers.
use plcontainer.Common.{List, ℕ, ◌≡◌, refl, ap, ◌∙◌, inl, inr, true, false, length, Bool-cases}
use plcontainer.Subtransaction.{Backend}
use plcontainer.Container.Slots.{get_container_conn}
use plcontainer.CallHandler.State.{
  RuntimeConf, HandlerState, Setup, Received, no_result, Ended, returned, raised, unfinished,
}
use plcontainer.CallHandler.Handler.{
  Rest, sequence, after_nested, result_ends, call_ends, function_handler, call_procedure, call_with,
}
use plcontainer.CallHandler.{
  Call, call, Answers, no_more, sql, nil, cons, plcontainer_call_handler, receive_answers,
}
use plcontainer.CallHandler.Restores.{call_ends-restores, call_procedure-Cleared}
use plcontainer.CallHandler.Reach.{Reaches, receiving, call_reaches, result_raised, caught_unset}

returned-unfinished : {r : Ended} {received : Received} → r ≡ returned received → ¬ (r ≡ unfinished)
returned-unfinished e f = cc

-- A call that returns leaves the flag unset, whatever it was.
call_with-Cleared :
    (b : Backend) (setup : Setup) (rest : Rest) (h : HandlerState) (received : Received)
    → (call_with b setup rest h).0 ≡ returned received
    → (call_with b setup rest h).1.delete_backends_when_error ≡ false
unfolding call_with
call_with-Cleared b setup rest h received e = elim (Bool-cases setup.trigger) [
  | inl f ↦ cc (let bad : raised ≡ returned received = rw f at e in bad)
  | inr f ↦ elim (Bool-cases setup.spi_connects) [
    | inr g ↦ cc (let bad : raised ≡ returned received = rw (f, g) at e in bad)
    | inl g ↦
        rw (f, g)
          (call_ends-restores setup h.curr_procedure (call_procedure b setup rest setup.procedure h)
            (call_procedure-Cleared b setup rest setup.procedure h)
            (λ bad.
              returned-unfinished (let x : _ ≡ returned received = rw (f, g) at e in x) bad)).1
  ]
]

call_handler-Cleared :
    (b : Backend) (c : Call) (h : HandlerState) (received : Received)
    → (plcontainer_call_handler b c h).0 ≡ returned received
    → (plcontainer_call_handler b c h).1.delete_backends_when_error ≡ false
unfolding plcontainer_call_handler
call_handler-Cleared b (call setup answers) h received e =
    call_with-Cleared b setup (receive_answers b answers) h received e

-- After a query that calls one function, a failed receive.
abbrev pub broken_after : Call → Answers
broken_after inner = sql (cons inner nil) true no_more

nested_raised :
    (r : Ended × HandlerState) (received : Received)
    → r.0 ≡ returned received
    → after_nested true (λ h. (raised, h)) (sequence (λ h. (returned no_result, h)) r)
      ≡ (raised, r.1)
unfolding after_nested sequence
nested_raised (returned last, t) received e = refl
nested_raised (raised, t) received e = cc
nested_raised (unfinished, t) received e = cc

broken_after-raised :
    (b : Backend) (inner : Call) (h : HandlerState) (received : Received)
    → (plcontainer_call_handler b inner h).0 ≡ returned received
    → receive_answers b (broken_after inner) h ≡ (raised, (plcontainer_call_handler b inner h).1)
unfolding plcontainer_call_handler
broken_after-raised b inner h received e =
    nested_raised (plcontainer_call_handler b inner h) received e

-- A call that has the connection of its runtime, whose first query calls a function that returns, and
-- which then fails to receive a message, raises an error and deletes no container, unless the query is
-- cancelled: the function has unset `DeleteBackendsWhenError`.
pub plcontainer_call_handler_keeps :
    (b : Backend) (setup : Setup) (inner : Call) (h : HandlerState) (proc : ℕ) (id : List ℕ)
    (conf : RuntimeConf) (conn : ℕ) (received : Received) (r : Reaches setup h proc id conf conn)
    → setup.interrupted ≡ false
    → (plcontainer_call_handler b inner (receiving proc (get_container_conn id h.containers).1 h)).0
      ≡ returned received
    → ((plcontainer_call_handler b (call setup (broken_after inner)) h).0 ≡ raised)
      × ((plcontainer_call_handler b (call setup (broken_after inner)) h).1.containers
          ≡ (plcontainer_call_handler b inner
              (receiving proc (get_container_conn id h.containers).1 h)).1.containers)
unfolding plcontainer_call_handler
plcontainer_call_handler_keeps b setup inner h proc id conf conn received r calm returns =
    let st = receiving proc (get_container_conn id h.containers).1 h in
    let after = (plcontainer_call_handler b inner st).1 in
    let level = length h.session.explicit_subtransactions in
    let ends =
      call_reaches b setup (receive_answers b (broken_after inner)) h proc id conf conn r
      ∙ ap (λ t. call_ends setup h.curr_procedure (function_handler (result_ends b level t)))
          (broken_after-raised b inner st received returns) in
    let (raises, kept) =
      caught_unset setup h.curr_procedure after
        (function_handler (result_ends b level (raised, after)))
        (result_raised b level (raised, after) after (refl, refl, refl))
        (call_handler-Cleared b inner st received returns) calm in
    (ap (λ t. t.0) ends ∙ raises, ap (λ t. t.1.containers) ends ∙ kept)
