-- ===== src/CallHandler/Restores.antt =====
-- What a call of src/plcontainer.c leaves as it was, whatever the client sends and the functions that
-- it calls do.
use plcontainer.Common.{
  ℕ, ◌≤◌, ◌≡◌, ◌≢◌, refl, inl, inr, Bool, true, false, ◌||◌, Option, none, some, length, Bool-cases,
}
use plcontainer.Subtransaction.{Backend}
use plcontainer.Subtransaction.Laws.{IsBalanced}
use plcontainer.Container.Declaration.{parse_container_meta}
use plcontainer.CallHandler.State.{
  HandlerState, Setup, Received, Ended, returned, raised, unfinished,
}
use plcontainer.CallHandler.Handler.{
  Rest, with_flag, sequence, abort_open, process_result, with_meta, result_ends,
  plcontainer_get_result, caught, call_ends, function_handler, call_procedure, call_with,
}
use plcontainer.CallHandler.{Call, call, plcontainer_call_handler, receive_answers}
use plcontainer.CallHandler.Balance.{call_handler-Closes}

false_or : (x y : Bool) → (x || y) ≡ false → y ≡ false
false_or true y e = cc
false_or false y e = e

caught-flag :
    (setup : Setup) (saved : Option ℕ) (h : HandlerState)
    → (caught setup saved h).delete_backends_when_error ≡ false
unfolding caught
caught-flag setup saved h = elim (Bool-cases (setup.interrupted || h.delete_backends_when_error)) [
  | inl e ↦ rw e refl
  | inr e ↦ rw e (false_or setup.interrupted h.delete_backends_when_error e)
]

caught-procedure :
    (setup : Setup) (saved : Option ℕ) (h : HandlerState)
    → (caught setup saved h).curr_procedure ≡ saved
unfolding caught
caught-procedure setup saved h = refl

-- A call that returns leaves `DeleteBackendsWhenError` unset.
abbrev pub Cleared : Ended × HandlerState → Type 0
Cleared (returned received, h) = h.delete_backends_when_error ≡ false
Cleared (raised, h) = Unit {0}
Cleared (unfinished, h) = Unit {0}

Cleared-unset :
    (e : Ended) (h : HandlerState) → h.delete_backends_when_error ≡ false → Cleared (e, h)
Cleared-unset (returned received) h f = f
Cleared-unset raised h f = tt
Cleared-unset unfinished h f = tt

unset_returned :
    (received : Received) (r : Ended × HandlerState)
    → Cleared (sequence (λ h. (returned received, with_flag false h)) r)
unfolding sequence
unset_returned received (returned last, h) = refl
unset_returned received (raised, h) = tt
unset_returned received (unfinished, h) = tt

result_ends-Cleared :
    (b : Backend) (level : ℕ) (r : Ended × HandlerState) → Cleared (result_ends b level r)
unfolding result_ends
result_ends-Cleared b level (raised, h) = tt
result_ends-Cleared b level (unfinished, h) = tt
result_ends-Cleared b level (returned received, h) = unset_returned received (abort_open b level h)

function_handler-Cleared : (r : Ended × HandlerState) → Cleared r → Cleared (function_handler r)
unfolding function_handler
function_handler-Cleared (raised, h) c = tt
function_handler-Cleared (unfinished, h) c = tt
function_handler-Cleared (returned received, h) c = Cleared-unset (process_result received) h c

pub call_procedure-Cleared :
    (b : Backend) (setup : Setup) (rest : Rest) (o : Option ℕ) (h : HandlerState)
    → Cleared (call_procedure b setup rest o h)
unfolding call_procedure plcontainer_get_result
call_procedure-Cleared b setup rest none h = tt
call_procedure-Cleared b setup rest (some proc) h =
    function_handler-Cleared
      (plcontainer_get_result b setup rest (record h { curr_procedure = some proc }))
      (result_ends-Cleared b (length h.session.explicit_subtransactions) (
        with_meta setup rest (parse_container_meta setup.source)
          (record h { curr_procedure = some proc })))

pub call_ends-restores :
    (setup : Setup) (saved : Option ℕ) (r : Ended × HandlerState)
    → Cleared r
    → (call_ends setup saved r).0 ≢ unfinished
    → ((call_ends setup saved r).1.curr_procedure ≡ saved)
      × ((call_ends setup saved r).1.delete_backends_when_error ≡ false)
unfolding call_ends
call_ends-restores setup saved (unfinished, h) c ne = absurd (ne refl)
call_ends-restores setup saved (raised, h) c ne =
    (caught-procedure setup saved h, caught-flag setup saved h)
call_ends-restores setup saved (returned received, h) c ne = (refl, c)

call_with-restores :
    (b : Backend) (setup : Setup) (rest : Rest) (h : HandlerState)
    → h.delete_backends_when_error ≡ false
    → (call_with b setup rest h).0 ≢ unfinished
    → ((call_with b setup rest h).1.curr_procedure ≡ h.curr_procedure)
      × ((call_with b setup rest h).1.delete_backends_when_error ≡ false)
unfolding call_with
call_with-restores b setup rest h f ne = elim (Bool-cases setup.trigger) [
  | inl e ↦ rw e (refl, f)
  | inr e ↦ elim (Bool-cases setup.spi_connects) [
    | inr g ↦ rw (e, g) (refl, f)
    | inl g ↦
        rw (e, g)
          (call_ends-restores setup h.curr_procedure (call_procedure b setup rest setup.procedure h)
            (call_procedure-Cleared b setup rest setup.procedure h) (rw (e, g) at ne))
  ]
]

handler_restores :
    (b : Backend) (c : Call) (h : HandlerState)
    → h.delete_backends_when_error ≡ false
    → (plcontainer_call_handler b c h).0 ≢ unfinished
    → ((plcontainer_call_handler b c h).1.curr_procedure ≡ h.curr_procedure)
      × ((plcontainer_call_handler b c h).1.delete_backends_when_error ≡ false)
unfolding plcontainer_call_handler
handler_restores b (call setup answers) h f ne =
    call_with-restores b setup (receive_answers b answers) h f ne

-- Whatever the client sends, whatever the functions that its queries call do in turn, and whether the
-- call returns or raises an error, provided that it does one of them: when every rollback succeeds, and as many explicit subtransactions
-- are open as PostgreSQL is nested deep above `outer`, the same holds after the call, no more of them
-- are open than before, the current procedure is the one from before, and `DeleteBackendsWhenError`,
-- if it was unset, is unset.
pub plcontainer_call_handler_restores :
    (b : Backend) (outer : ℕ) (c : Call) (h : HandlerState)
    → ((n : ℕ) → b.ends n true ≡ true)
    → IsBalanced outer h.session
    → h.delete_backends_when_error ≡ false
    → (plcontainer_call_handler b c h).0 ≢ unfinished
    → IsBalanced outer (plcontainer_call_handler b c h).1.session
      × (length (plcontainer_call_handler b c h).1.session.explicit_subtransactions
          ≤ length h.session.explicit_subtransactions)
      × ((plcontainer_call_handler b c h).1.curr_procedure ≡ h.curr_procedure)
      × ((plcontainer_call_handler b c h).1.delete_backends_when_error ≡ false)
plcontainer_call_handler_restores b outer c h rolls_back balanced unset ends =
    let (kept, fewer) = call_handler-Closes b rolls_back outer c h balanced in
    let (same, still) = handler_restores b c h unset ends in (kept, fewer ends, same, still)
