-- ===== src/Subtransaction/Laws.antt =====
-- That the subtransactions of src/subtransaction_handler.c are entered and left in pairs.
use plcontainer.Common.{
  ℕ, suc, ◌+◌, ◌-◌, ◌≤◌, ◌^◌, ◌<◌, true, not, Option, none, some, List, [], ◌∷◌, drop, drop-nil,
  length, ltb, ◌==◌, false, ◌≡◌, ◌≢◌, refl, sym, ap, ◌∙◌, arith, Bool-cases, inl, inr, ltb_false→le,
  ltb→lt,
}
use plcontainer.Outcome.{done}
use plcontainer.Connectivity.Conn.{Conn}
use plcontainer.Message.Struct.{Message}
use plcontainer.Subtransaction.{
  SubtransactionData, Session, Backend, SubtransactionReturn, success_return, return_code, entered,
  plcontainer_subtransaction_enter, left, exited, plcontainer_subtransaction_exit, act, abort_loop,
  plcontainer_abort_open_subtransactions,
}

-- Where PostgreSQL begins a subtransaction and then ends it, by rollback or release as the type
-- says, a message to enter and one to exit leave the session exactly as it was: the list, the
-- memory context, the resource owner and the nesting level; and the second one has the code SUCCESS.
pub exit-enter :
    (b : Backend) (s : Session) (enter_type exit_type owner : ℕ)
    → b.begins s.nesting ≡ some owner
    → b.ends (suc s.nesting) (not (exit_type == b'e')) ≡ true
    → act b b'x' exit_type (act b b'n' enter_type s).1 ≡ (success_return, s)
unfolding act plcontainer_subtransaction_enter plcontainer_subtransaction_exit entered exited
exit-enter b s enter_type exit_type owner begun ended =
    rw (begun, ended)
      (ap (λ n. (success_return, record s { nesting = n }))
        (let e : suc s.nesting - 1 ≡ s.nesting = omega arith in e))

-- The subtransactions of the list are as many as the levels of PostgreSQL above `outer`.
pub record IsBalanced (outer : ℕ) (s : Session) : Type 0 where
  pub balance : s.nesting ≡ outer + length s.explicit_subtransactions

module _ (b : Backend) (outer : ℕ) (s : Session) (h : IsBalanced outer s) where
  entered-IsBalanced : (o : Option ℕ) → IsBalanced outer (entered s o).1
  unfolding entered
  entered-IsBalanced none = h
  entered-IsBalanced (some owner) = record { balance = omega (arith, h.balance) }

  exited-IsBalanced :
      (type : ℕ) (l : List SubtransactionData)
      → s.explicit_subtransactions ≡ l
      → IsBalanced outer (exited b type s l).1
  unfolding exited
  exited-IsBalanced type [] e = h
  exited-IsBalanced type (d ∷ rest) e = elim (Bool-cases (b.ends s.nesting (not (type == b'e')))) [
    | inl f ↦ rw f (record { balance = omega (arith, h.balance, ap length e) })
    | inr f ↦ rw f h
  ]

  -- Whatever the action and the type of a message, and whether PostgreSQL begins or ends the
  -- subtransaction or reports an error, the list of the subtransactions stays as long as their
  -- nesting is deep.
  pub act-IsBalanced : (action type : ℕ) → IsBalanced outer (act b action type s).1
  unfolding act plcontainer_subtransaction_enter plcontainer_subtransaction_exit
  act-IsBalanced action type = elim (Bool-cases (action == b'n')) [
    | inl e ↦ rw e (entered-IsBalanced (b.begins s.nesting))
    | inr e ↦ elim (Bool-cases (action == b'x')) [
      | inl f ↦ rw (e, f) (exited-IsBalanced type s.explicit_subtransactions refl)
      | inr f ↦ rw (e, f) h
    ]
  ]

-- What a subtransaction message does, with the code that answers it and the session after it: `n`
-- opens one, `x` closes the one that was opened last, by release where the type is `e` and by
-- rollback otherwise, and any other action does nothing. An error leaves the session as it was.
pub data Handles (b : Backend) (action type : ℕ) (s : Session) : ℕ → Session → Type 0 where
  opened :
      {owner : ℕ}
      → action ≡ b'n'
      → b.begins s.nesting ≡ some owner
      → Handles b action type s 3 (record s {
        explicit_subtransactions =
            record { oldcontext = s.context; oldowner = s.owner } ∷ s.explicit_subtransactions;
        owner = owner;
        nesting = suc s.nesting;
      })
  not_opened : action ≡ b'n' → b.begins s.nesting ≡ none → Handles b action type s 1 s
  closed :
      {d : SubtransactionData} {rest : List SubtransactionData}
      → action ≡ b'x'
      → s.explicit_subtransactions ≡ d ∷ rest
      → b.ends s.nesting (not (type == b'e')) ≡ true
      → Handles b action type s 3 (record {
        explicit_subtransactions = rest;
        context = d.oldcontext;
        owner = d.oldowner;
        nesting = s.nesting - 1;
      })
  not_closed :
      {d : SubtransactionData} {rest : List SubtransactionData}
      → action ≡ b'x'
      → s.explicit_subtransactions ≡ d ∷ rest
      → b.ends s.nesting (not (type == b'e')) ≡ false
      → Handles b action type s 2 s
  none_open : action ≡ b'x' → s.explicit_subtransactions ≡ [] → Handles b action type s 0 s
  ignored : action ≢ b'n' → action ≢ b'x' → Handles b action type s 0 s

-- The code is one that the message can carry.
abbrev Answered : Backend → ℕ → ℕ → Session → SubtransactionReturn × Session → Type 0
Answered b action type s r =
    Handles b action type s (return_code r.0) r.1 × (return_code r.0 < 256 ^ 2)

module _ (b : Backend) (rolls_back : (n : ℕ) → b.ends n true ≡ true) (level : ℕ) where
  aborts :
      (l : List SubtransactionData) (s : Session)
      → s.explicit_subtransactions ≡ l
      → length l ≤ s.nesting
      → (t : Session) × (abort_loop b level l s ≡ done tt t)
        × (t.explicit_subtransactions ≡ drop (length l - level) l)
        × (t.nesting + (length l - level) ≡ s.nesting)
  unfolding abort_loop
  aborts [] s e deep = (s, refl, e ∙ sym (drop-nil (0 - level)), omega arith)
  aborts (d ∷ rest) s e deep = elim (Bool-cases (ltb level (length (d ∷ rest)))) [
    | inl f ↦
        let (t, runs, kept, levels) = aborts rest (left d rest s) refl (omega arith) in
        (
          t,
          rw (f, rolls_back s.nesting) runs,
          kept
              ∙ ap (λ n. drop n (d ∷ rest))
                  (let g : suc (length rest - level) ≡ suc (length rest) - level =
                      omega (arith, ltb→lt level (length (d ∷ rest)) f) in
                    g),
          omega (arith, ltb→lt level (length (d ∷ rest)) f, levels),
        )
    | inr f ↦ (
      s,
      rw f refl,
      e
          ∙ ap (λ n. drop n (d ∷ rest))
              (let g : 0 ≡ suc (length rest) - level =
                  omega (arith, ltb_false→le level (length (d ∷ rest)) f) in
                g),
      omega (arith, ltb_false→le level (length (d ∷ rest)) f),
    )
  ]

  -- Where every rollback succeeds and the list is no longer than the nesting is deep,
  -- `plcontainer_abort_open_subtransactions` ends; it leaves the oldest entries of the list, as many
  -- as the saved level or all if they are fewer, and takes a nesting level for each entry that it removes.
  pub plcontainer_abort_open_subtransactions-drop :
      (s : Session)
      → length s.explicit_subtransactions ≤ s.nesting
      → (t : Session) × (plcontainer_abort_open_subtransactions b level s ≡ done tt t)
        × (t.explicit_subtransactions
            ≡ drop (length s.explicit_subtransactions - level) s.explicit_subtransactions)
        × (t.nesting + (length s.explicit_subtransactions - level) ≡ s.nesting)
  unfolding plcontainer_abort_open_subtransactions
  plcontainer_abort_open_subtransactions-drop s deep = aborts s.explicit_subtransactions s refl deep
