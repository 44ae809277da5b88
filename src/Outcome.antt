-- ===== src/Outcome.antt =====
-- How a call ends that works on a state and may log at level ERROR.

-- `raised` is `plc_elog(ERROR, ...)`, which does not return: the backend jumps out, the client
-- exits. `blocked` is a wait for a peer that sends nothing more. `undefined` is the use of an
-- indeterminate value, `exhausted` a loop of the model whose fuel ran out.
pub data Outcome (S A : Type 0) : Type 0 where
  done : A → S → Outcome S A
  raised : S → Outcome S A
  blocked : Outcome S A
  undefined : Outcome S A
  exhausted : Outcome S A

-- An action that may change the state.
abbrev pub Action : Type 0 → Type 0 → Type 0
Action S A = S → Outcome S A

module _ {S A B : Type 0} where
  abbrev pub continue : (A → Action S B) → Outcome S A → Outcome S B
  continue f (done a s) = f a s
  continue f (raised s) = raised s
  continue f blocked = blocked
  continue f undefined = undefined
  continue f exhausted = exhausted

  infixl 5 ◌>>=◌ ◌>>◌
  abbrev pub ◌>>=◌ : Action S A → (A → Action S B) → Action S B
  ◌>>=◌ m f s = continue f (m s)

  abbrev pub ◌>>◌ : Action S A → Action S B → Action S B
  m >> n = m >>= λ _. n

module _ {S A : Type 0} where
  abbrev pub pure : A → Action S A
  pure a s = done a s
