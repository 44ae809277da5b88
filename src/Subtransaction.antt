-- ===== src/Subtransaction.antt =====
-- The explicit subtransactions of src/subtransaction_handler.c.
pub mod Laws
use plcontainer.Common.{
  ℕ, zero, suc, ◌+◌, ◌-◌, Bool, true, false, not, Option, none, some, List, [], ◌∷◌, length, ltb,
  ◌==◌, if◌then◌else◌,
}
use plcontainer.Outcome.{Outcome, done, raised, blocked, undefined, exhausted}
use plcontainer.Connectivity.Conn.{Conn, Status, success, failure}
use plcontainer.Message.Struct.{Message}
use plcontainer.Channel.Send.{plcontainer_channel_send}

-- `PLySubtransactionData`
pub record SubtransactionData : Type 0 where
  pub oldcontext : ℕ
  pub oldowner : ℕ

-- The list, CurrentMemoryContext and CurrentResourceOwner, and the nesting level of PostgreSQL,
-- which `BeginInternalSubTransaction` adds to and the end of a subtransaction takes from.
pub record Session : Type 0 where
  pub explicit_subtransactions : List SubtransactionData
  pub context : ℕ
  pub owner : ℕ
  pub nesting : ℕ

-- PostgreSQL, at a nesting level: the resource owner of a subtransaction that begins, or none for
-- an error, and whether an end by rollback (`true`) or release succeeds.
pub record Backend : Type 0 where
  pub begins : ℕ → Option ℕ
  pub ends : ℕ → Bool → Bool

-- `enum SUBTRANSACTION_RETURN_TYPE`
pub data SubtransactionReturn : Type 0 where
  no_subtransaction_error create_subtransaction_error release_subtransaction_error :
      SubtransactionReturn
  success_return : SubtransactionReturn

abbrev pub return_code : SubtransactionReturn → ℕ
return_code no_subtransaction_error = 0
return_code create_subtransaction_error = 1
return_code release_subtransaction_error = 2
return_code success_return = 3

-- After an error the transaction is where it was. The previous context is switched back to.
unfoldable pub entered : Session → Option ℕ → SubtransactionReturn × Session
entered s none = (create_subtransaction_error, s)
entered s (some owner) = (
  success_return,
  record s {
    explicit_subtransactions =
        record { oldcontext = s.context; oldowner = s.owner } ∷ s.explicit_subtransactions;
    owner = owner;
    nesting = suc s.nesting;
  },
)

unfoldable pub plcontainer_subtransaction_enter : Backend → Session → SubtransactionReturn × Session
unfolding entered
plcontainer_subtransaction_enter b s = entered s (b.begins s.nesting)

-- What follows the end of the innermost subtransaction.
abbrev pub left : SubtransactionData → List SubtransactionData → Session → Session
left d rest s = record {
  explicit_subtransactions = rest;
  context = d.oldcontext;
  owner = d.oldowner;
  nesting = s.nesting - 1;
}

unfoldable pub exited :
    Backend → ℕ → Session → List SubtransactionData → SubtransactionReturn × Session
exited b type s [] = (no_subtransaction_error, s)
exited b type s (d ∷ rest) =
    if b.ends s.nesting (not (type == b'e'))
    then (success_return, left d rest s)
    else (release_subtransaction_error, s)

unfoldable pub plcontainer_subtransaction_exit :
    Backend → ℕ → Session → SubtransactionReturn × Session
unfolding exited
plcontainer_subtransaction_exit b type s = exited b type s s.explicit_subtransactions

-- `res` is 0 for any other action.
unfoldable pub act : Backend → ℕ → ℕ → Session → SubtransactionReturn × Session
unfolding plcontainer_subtransaction_enter plcontainer_subtransaction_exit
act b action type s =
    if action == b'n'
    then plcontainer_subtransaction_enter b s
    else if action == b'x'
    then plcontainer_subtransaction_exit b type s
    else (no_subtransaction_error, s)

abbrev pub replied : Session → Outcome Conn Status → Outcome (Session × Conn) (Unit {0})
replied s (done success c) = done tt (s, c)
replied s (done failure c) = raised (s, c)
replied s (raised c) = raised (s, c)
replied s blocked = blocked
replied s undefined = undefined
replied s exhausted = exhausted

unfoldable pub plcontainer_process_subtransaction :
    Backend → List ℕ → ℕ → ℕ → Session × Conn → Outcome (Session × Conn) (Unit {0})
unfolding act
plcontainer_process_subtransaction b version action type (s, c) = replied (act b action type s).1 (
    plcontainer_channel_send version (Message.subtran_result (return_code (act b action type s).0))
      c)

-- The loop of `plcontainer_abort_open_subtransactions` over the list; an error of the rollback
-- passes through it.
unfoldable pub abort_loop :
    Backend → ℕ → List SubtransactionData → Session → Outcome Session (Unit {0})
abort_loop b save_subxact_level [] s = done tt s
abort_loop b save_subxact_level (d ∷ rest) s =
    let go_on = abort_loop b save_subxact_level rest (left d rest s) in
    if ltb save_subxact_level (length (d ∷ rest))
    then (if b.ends s.nesting true then go_on else raised s)
    else done tt s

unfoldable pub plcontainer_abort_open_subtransactions :
    Backend → ℕ → Session → Outcome Session (Unit {0})
unfolding abort_loop
plcontainer_abort_open_subtransactions b save_subxact_level s =
    abort_loop b save_subxact_level s.explicit_subtransactions s
