-- ===== src/Tests/Subtransactions.antt =====
-- Examples for the subtransactions of src/subtransaction_handler.c.
use plcontainer.Common.{ℕ, true, some, [], ◌∷◌, ◌≡◌, refl}
use plcontainer.Connectivity.Conn.{Conn}
use plcontainer.Subtransaction.{Session, Backend, success_return, act}
use plcontainer.Subtransaction.Laws.{exit-enter}

-- No call of it fails; the owner of a level is the level.
abbrev willing : Backend
willing = record { begins = λ n. some n; ends = λ n rollback. true }

abbrev two_open : Session
two_open = record {
  explicit_subtransactions =
      record { oldcontext = 1; oldowner = 4 } ∷ record { oldcontext = 1; oldowner = 3 } ∷ [];
  context = 1;
  owner = 5;
  nesting = 5;
}

exit-enter_example :
    act willing b'x' b'e' (act willing b'n' b'e' two_open).1 ≡ (success_return, two_open)
exit-enter_example = exit-enter willing two_open b'e' b'e' 5 refl refl

always : (n : ℕ) → willing.ends n true ≡ true
always n = refl
