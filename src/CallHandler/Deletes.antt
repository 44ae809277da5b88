-- ===== src/CallHandler/Deletes.antt =====
-- When an error in src/plcontainer.c deletes the containers.
use plcontainer.Container.Delete.Laws.{
  connections, delete_containers_lem, get_container_conn-deleted,
}
use plcontainer.Common.{
  ℕ, ◌≡◌, refl, ap, ◌∙◌, inl, inr, Bool, true, false, none, List, [], length, leb, Bool-cases,
  if◌then◌else◌,
}
use plcontainer.Subtransaction.{Backend, act}
use plcontainer.Container.Slots.{get_container_conn}
use plcontainer.CallHandler.State.{RuntimeConf, HandlerState, Setup, Ended, raised}
use plcontainer.CallHandler.Handler.{after_subtransaction, result_ends, function_handler}
use plcontainer.CallHandler.{
  call, Answers, no_more, result, exception, sql, log, quote, subtransaction, other, nil, cons,
  plcontainer_call_handler, receive_answers,
}
use plcontainer.CallHandler.Reach.{
  Fails, Reaches, state, call_reaches, result_raised, caught_set, get_container_conn-init,
}

-- The loop over the messages ends by an error other than an exception of the client, and no query
-- before it calls a function.
unfoldable pub breaks : Answers → Bool
breaks no_more = true
breaks (result received) = false
breaks exception = false
breaks (sql nil succeeds answers) = if succeeds then breaks answers else true
breaks (sql (cons c calls) succeeds answers) = false
breaks (log level answers) = if leb 20 level then true else breaks answers
breaks (quote sends answers) = if sends then breaks answers else true
breaks (subtransaction action type sends answers) = if sends then breaks answers else true
breaks (other msgtype) = true

choice-Fails :
    (t : Bool) (h : HandlerState) (r : Ended × HandlerState) (later : Bool)
    → (if t then later else true) ≡ true
    → (later ≡ true → Fails h r)
    → Fails h (if t then r else (raised, h))
choice-Fails true h r later e f = f e
choice-Fails false h r later e f = (refl, refl, refl)

breaks-Fails :
    (b : Backend) (answers : Answers) (h : HandlerState)
    → breaks answers ≡ true
    → Fails h (receive_answers b answers h)
unfolding receive_answers after_subtransaction breaks
breaks-Fails b no_more h e = (refl, refl, refl)
breaks-Fails b (result received) h e = cc
breaks-Fails b exception h e = cc
breaks-Fails b (sql nil succeeds answers) h e =
    choice-Fails succeeds h (receive_answers b answers h) (breaks answers) e
      (breaks-Fails b answers h)
breaks-Fails b (sql (cons c calls) succeeds answers) h e = cc
breaks-Fails b (log level answers) h e = elim (Bool-cases (leb 20 level)) [
  | inl f ↦ rw f (refl, refl, refl)
  | inr f ↦ rw f (breaks-Fails b answers h (rw f at e))
]
breaks-Fails b (quote sends answers) h e =
    choice-Fails sends h (receive_answers b answers h) (breaks answers) e (breaks-Fails b answers h)
breaks-Fails b (subtransaction action type sends answers) h e =
    let h' : HandlerState = record h { session = (act b action type h.session).1 } in
    choice-Fails sends h' (receive_answers b answers h') (breaks answers) e
      (breaks-Fails b answers h')
breaks-Fails b (other msgtype) h e = (refl, refl, refl)

pub plcontainer_call_handler_deletes :
    (b : Backend) (setup : Setup) (answers : Answers) (h : HandlerState) (proc : ℕ) (id : List ℕ)
    (conf : RuntimeConf) (conn : ℕ) (other_id : List ℕ)
    → Reaches setup h proc id conf conn
    → breaks answers ≡ true
    → ((plcontainer_call_handler b (call setup answers) h).0 ≡ raised)
      × (connections (plcontainer_call_handler b (call setup answers) h).1.containers.containers
          ≡ [])
      × ((get_container_conn other_id
            (plcontainer_call_handler b (call setup answers) h).1.containers).0
          ≡ none)
unfolding plcontainer_call_handler
plcontainer_call_handler_deletes b setup answers h proc id conf conn other_id r e =
    let rest = receive_answers b answers in
    let st = state b setup rest h proc id conf conn r in
    let level = length h.session.explicit_subtransactions in
    let ends = call_reaches b setup rest h proc id conf conn r in
    let (raises, deletes) =
      caught_set setup h.curr_procedure st (function_handler (result_ends b level (rest st)))
        (result_raised b level (rest st) st (breaks-Fails b answers st e)) refl in
    let (disconnects, results, empty) =
      delete_containers_lem setup.deletions st.containers
        (get_container_conn-init id h.containers) in
    (
      ap (λ t. t.0) ends ∙ raises,
      ap (λ t. connections t.1.containers.containers) ends
          ∙ ap (λ s. connections s.containers) deletes
          ∙ empty,
      ap (λ t. (get_container_conn other_id t.1.containers).0) ends
          ∙ ap (λ s. (get_container_conn other_id s).0) deletes
          ∙ get_container_conn-deleted setup.deletions other_id st.containers,
    )
