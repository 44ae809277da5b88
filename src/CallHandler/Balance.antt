-- ===== src/CallHandler/Balance.antt =====
-- That a call of src/plcontainer.c closes the explicit subtransactions that it opened.
use plcontainer.Common.{
  ℕ, ◌-◌, ◌≤◌, length-drop, arith, subst, sym, ◌≡◌, ◌≢◌, refl, ap, ◌∙◌, inl, inr, Bool, true, false,
  ◌||◌, Option, none, some, List, length, leb, Bool-cases, if◌then◌else◌,
}
use plcontainer.Subtransaction.{Backend, SubtransactionData, act}
use plcontainer.Subtransaction.Laws.{
  IsBalanced, act-IsBalanced, plcontainer_abort_open_subtransactions-drop,
}
use plcontainer.Container.Declaration.{Meta, runtime_id, refused, parse_container_meta}
use plcontainer.Container.Slots.{ContainerState, get_container_conn}
use plcontainer.Container.Start.{
  Started, started, no_slot, create_error, start_error, no_cleanup, timeout, attempt_error, waits,
  out_of_fuel, start_backend,
}
use plcontainer.CallHandler.State.{
  HandlerState, RuntimeConf, Setup, Received, Ended, returned, raised, unfinished,
}
use plcontainer.CallHandler.Handler.{
  Rest, with_flag, with_containers, sequence, after_log, after_quote, after_subtransaction, aborted,
  abort_open, request, started_with, connect, permitted, with_conf, with_meta, result_ends,
  plcontainer_get_result, caught, call_ends, function_handler, call_procedure, call_with,
}
use plcontainer.CallHandler.{
  Call, call, Answers, no_more, result, exception, sql, log, quote, subtransaction, other, Calls,
  nil, cons, plcontainer_call_handler, receive_answers, call_functions,
}

caught-session :
    (setup : Setup) (saved : Option ℕ) (h : HandlerState)
    → (caught setup saved h).session ≡ h.session
unfolding caught
caught-session setup saved h =
    elim (Bool-cases (setup.interrupted || h.delete_backends_when_error)) [
      | inl e ↦ rw e refl
      | inr e ↦ rw e refl
    ]

-- The subtransactions of the list are as many as the levels of PostgreSQL above `outer`.
abbrev pub Balanced : ℕ → Ended × HandlerState → Type 0
Balanced outer r = IsBalanced outer r.1.session

module _ (b : Backend) (rolls_back : (n : ℕ) → b.ends n true ≡ true) (outer : ℕ) where
  abbrev pub Stays : Rest → Type 0
  Stays rest = (h : HandlerState) → IsBalanced outer h.session → Balanced outer (rest h)

  module _ (rest : Rest) (stays : Stays rest) where
    sequence-Balanced :
        (r : Ended × HandlerState) → Balanced outer r → Balanced outer (sequence rest r)
    unfolding sequence
    sequence-Balanced (returned received, h) k = stays h k
    sequence-Balanced (raised, h) k = k
    sequence-Balanced (unfinished, h) k = k

    choice-Balanced :
        (t : Bool) (h : HandlerState)
        → IsBalanced outer h.session
        → Balanced outer (if t then rest h else (raised, h))
    choice-Balanced true h k = stays h k
    choice-Balanced false h k = k

    after_log-Balanced : (level : ℕ) → Stays (after_log level rest)
    unfolding after_log
    after_log-Balanced level h k = elim (Bool-cases (leb 20 level)) [
      | inl e ↦ rw e k
      | inr e ↦ rw e (stays h k)
    ]

    after_quote-Balanced : (sends : Bool) → Stays (after_quote sends rest)
    unfolding after_quote
    after_quote-Balanced sends h k = choice-Balanced sends h k

    after_subtransaction-Balanced :
        (action type : ℕ) (sends : Bool) → Stays (after_subtransaction b action type sends rest)
    unfolding after_subtransaction
    after_subtransaction-Balanced action type sends h k =
        choice-Balanced sends (record h { session = (act b action type h.session).1 })
          (act-IsBalanced b outer h.session k action type)

    request-Balanced : (setup : Setup) → Stays (request setup rest)
    unfolding request
    request-Balanced setup h k = choice-Balanced setup.sends (with_flag true h) k

    started_with-Balanced :
        (setup : Setup) (r : Started × ContainerState) → Stays (started_with setup rest r)
    unfolding started_with
    started_with-Balanced setup (started (some conn), cs) h k =
        request-Balanced setup (with_flag false (with_containers cs h)) k
    started_with-Balanced setup (started none, cs) h k = k
    started_with-Balanced setup (no_slot, cs) h k = k
    started_with-Balanced setup (create_error, cs) h k = k
    started_with-Balanced setup (start_error, cs) h k = k
    started_with-Balanced setup (no_cleanup, cs) h k = k
    started_with-Balanced setup (timeout, cs) h k = k
    started_with-Balanced setup (attempt_error, cs) h k = k
    started_with-Balanced setup (waits, cs) h k = k
    started_with-Balanced setup (out_of_fuel, cs) h k = k

    connect-Balanced :
        (setup : Setup) (id : List ℕ) (r : Option ℕ × ContainerState)
        → Stays (connect setup rest id r)
    unfolding connect
    connect-Balanced setup id (some conn, cs) h k = request-Balanced setup (with_containers cs h) k
    connect-Balanced setup id (none, cs) h k =
        started_with-Balanced setup (start_backend setup.world id cs) h k

    with_conf-Balanced :
        (setup : Setup) (id : List ℕ) (o : Option RuntimeConf) → Stays (with_conf setup rest id o)
    unfolding with_conf
    with_conf-Balanced setup id none h k = k
    with_conf-Balanced setup id (some conf) h k = elim (Bool-cases (permitted conf)) [
      | inl e ↦ rw e (connect-Balanced setup id (get_container_conn id h.containers) h k)
      | inr e ↦ rw e k
    ]

    with_meta-Balanced : (setup : Setup) (m : Meta) → Stays (with_meta setup rest m)
    unfolding with_meta
    with_meta-Balanced setup (refused complaint) h k = k
    with_meta-Balanced setup (runtime_id id) h k =
        with_conf-Balanced setup id (setup.configuration id) h k

  -- The abort at the end of a call that returns or raises leaves at most the saved level.
  abbrev pub Closed : ℕ → Ended × HandlerState → Type 0
  Closed level r =
      Balanced outer r × (r.0 ≢ unfinished → length r.1.session.explicit_subtransactions ≤ level)

  fewer_open :
      (level : ℕ) (h : HandlerState)
      → IsBalanced outer h.session
      → Balanced outer (abort_open b level h)
        × (length (abort_open b level h).1.session.explicit_subtransactions ≤ level)
  unfolding abort_open
  fewer_open level h k =
      let (t, ends, kept, levels) =
        plcontainer_abort_open_subtransactions-drop b rolls_back level h.session
          (omega (arith, k.balance)) in
      let l : List SubtransactionData = h.session.explicit_subtransactions in
      let left = ap length kept ∙ length-drop (length l - level) l in
      subst
        (λ o.
          Balanced outer (aborted h o)
          × (length (aborted h o).1.session.explicit_subtransactions ≤ level))
        (sym ends)
        (record { balance = omega (arith, k.balance, left, levels) }, omega (arith, left))

  abort_open-Closed :
      (level : ℕ) (h : HandlerState)
      → IsBalanced outer h.session
      → Closed level (abort_open b level h)
  abort_open-Closed level h k = let (same, fewer) = fewer_open level h k in (same, λ ne. fewer)

  close_returned :
      (level : ℕ) (received : Received) (r : Ended × HandlerState)
      → Closed level r
      → Closed level (sequence (λ h. (returned received, with_flag false h)) r)
  unfolding sequence
  close_returned level received (returned last, h) k = (k.0, λ ne. k.1 (λ e. cc))
  close_returned level received (raised, h) k = k
  close_returned level received (unfinished, h) k = k

  result_ends-Closed :
      (level : ℕ) (r : Ended × HandlerState)
      → Balanced outer r
      → Closed level (result_ends b level r)
  unfolding result_ends
  result_ends-Closed level (raised, h) k =
      let (same, fewer) = fewer_open level h k in (same, λ ne. fewer)
  result_ends-Closed level (unfinished, h) k = (k, λ ne. absurd (ne refl))
  result_ends-Closed level (returned received, h) k =
      close_returned level received (abort_open b level h) (abort_open-Closed level h k)

  -- A call leaves no more subtransactions than there were.
  abbrev pub Closes : Rest → Type 0
  Closes rest =
      (h : HandlerState)
      → IsBalanced outer h.session
      → Closed (length h.session.explicit_subtransactions) (rest h)

  module _ (rest : Rest) (stays : Stays rest) (setup : Setup) where
    get_result-Closes : Closes (plcontainer_get_result b setup rest)
    unfolding plcontainer_get_result
    get_result-Closes h k =
        result_ends-Closed (length h.session.explicit_subtransactions)
          (with_meta setup rest (parse_container_meta setup.source) h)
          (with_meta-Balanced rest stays setup (parse_container_meta setup.source) h k)

    function_handler-Closed :
        (level : ℕ) (r : Ended × HandlerState) → Closed level r → Closed level (function_handler r)
    unfolding function_handler
    function_handler-Closed level (raised, h) k = k
    function_handler-Closed level (unfinished, h) k = k
    function_handler-Closed level (returned received, h) k = (k.0, λ ne. k.1 (λ e. cc))

    call_procedure-Closes : (o : Option ℕ) → Closes (call_procedure b setup rest o)
    unfolding call_procedure
    call_procedure-Closes none h k = (k, λ ne. omega arith)
    call_procedure-Closes (some proc) h k =
        let h' : HandlerState = record h { curr_procedure = some proc } in
        function_handler-Closed (length h.session.explicit_subtransactions)
          (plcontainer_get_result b setup rest h') (get_result-Closes h' k)

    call_ends-Closed :
        (level : ℕ) (saved : Option ℕ) (r : Ended × HandlerState)
        → Closed level r
        → Closed level (call_ends setup saved r)
    unfolding call_ends
    call_ends-Closed level saved (unfinished, h) k = (k.0, λ ne. absurd (ne refl))
    call_ends-Closed level saved (raised, h) (k, n) =
        let (same, fewer) =
          subst (λ s. IsBalanced outer s × (length s.explicit_subtransactions ≤ level))
            (sym (caught-session setup saved h)) (k, n (λ e. cc)) in
        (same, λ ne. fewer)
    call_ends-Closed level saved (returned received, h) k = k

    call_with-Closes : Closes (call_with b setup rest)
    unfolding call_with
    call_with-Closes h k = elim (Bool-cases setup.trigger) [
      | inl e ↦ rw e (k, λ ne. omega arith)
      | inr e ↦ elim (Bool-cases setup.spi_connects) [
        | inr f ↦ rw (e, f) (k, λ ne. omega arith)
        | inl f ↦
            rw (e, f)
              (call_ends-Closed (length h.session.explicit_subtransactions) h.curr_procedure
                (call_procedure b setup rest setup.procedure h)
                (call_procedure-Closes setup.procedure h k))
      ]
    ]

  mutual
    unfolding plcontainer_call_handler

    pub call_handler-Closes : (c : Call) → Closes (plcontainer_call_handler b c)
    call_handler-Closes (call setup answers) h k =
        call_with-Closes (receive_answers b answers) (receive_answers-Stays answers) setup h k

    pub receive_answers-Stays : (answers : Answers) → Stays (receive_answers b answers)
    receive_answers-Stays no_more h k = k
    receive_answers-Stays (result received) h k = k
    receive_answers-Stays exception h k = k
    receive_answers-Stays (sql calls succeeds answers) h k =
        sequence-Balanced (λ h. if succeeds then receive_answers b answers h else (raised, h))
          (λ h' k'.
            choice-Balanced (receive_answers b answers) (receive_answers-Stays answers) succeeds h'
              k')
          (call_functions b calls h) (call_functions-Stays calls h k)
    receive_answers-Stays (log level answers) h k =
        after_log-Balanced (receive_answers b answers) (receive_answers-Stays answers) level h k
    receive_answers-Stays (quote sends answers) h k =
        after_quote-Balanced (receive_answers b answers) (receive_answers-Stays answers) sends h k
    receive_answers-Stays (subtransaction action type sends answers) h k =
        after_subtransaction-Balanced (receive_answers b answers) (receive_answers-Stays answers)
          action type sends h k
    receive_answers-Stays (other msgtype) h k = k

    pub call_functions-Stays : (calls : Calls) → Stays (call_functions b calls)
    call_functions-Stays nil h k = k
    call_functions-Stays (cons c calls) h k =
        sequence-Balanced (call_functions b calls) (call_functions-Stays calls)
          (plcontainer_call_handler b c h) (call_handler-Closes c h k).0
