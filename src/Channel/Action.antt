-- ===== src/Channel/Action.antt =====
-- How src/common/comm_channel.c puts calls together: `res |= f(conn)`, loops with `&& res == 0`,
-- and variables that a failed read leaves indeterminate.
pub mod Sends
pub mod Receives
use plcontainer.Common.{ℕ, zero, suc, Bool, true, false, Option, none, some}
use plcontainer.Outcome.{Outcome, undefined, raised, Action, pure, ◌>>=◌}
use plcontainer.Connectivity.Conn.{Conn, Status, success, failure}

-- A write, which returns a code.
abbrev pub Write : Type 0
Write = Action Conn Status

-- A read: `none` is the code -1, with the caller's variable not written.
abbrev pub Read : Type 0 → Type 0
Read A = Action Conn (Option A)

abbrev pub worse : Status → Status → Status
worse success t = t
worse failure t = failure

-- `res |= m; res |= n;`
infixl 20 ◌|=◌
unfoldable pub ◌|=◌ : Write → Write → Write
m |= n = do s ← m; t ← n; pure (worse s t)

-- `n` only while `res == 0`.
infixl 20 ◌&&=◌
unfoldable pub ◌&&=◌ : Write → Write → Write
m &&= n = do s ← m; elim s [ success ↦ n | failure ↦ pure failure ]

abbrev pub both : {A B : Type 0} → Option (A → B) → Option A → Option B
both (some f) (some a) = some (f a)
both (some f) none = none
both none a = none

module _ {A B : Type 0} where
  -- `res |= m; res |= n;` for reads: the result is there if neither failed.
  infixl 20 ◌⊛◌
  unfoldable pub ◌⊛◌ : Read (A → B) → Read A → Read B
  m ⊛ n = do f ← m; a ← n; pure (both f a)

  unfoldable pub map_read : (A → B) → Read A → Read B
  map_read f m = do a ← m; pure (both (some f) a)

  -- `n` only while `res == 0`.
  infixl 20 ◌&&⊛◌
  unfoldable pub ◌&&⊛◌ : Read (A → B) → Read A → Read B
  m &&⊛ n = do f ← m; elim f [ some g ↦ map_read g n | none ↦ pure none ]

  -- A read that fails ends the function with -1.
  unfoldable pub or_return : Read A → (A → Read B) → Read B
  or_return m k = do a ← m; elim a [ some x ↦ k x | none ↦ pure none ]

  -- The variable is used whether or not the read failed.
  unfoldable pub use_after : Read A → (A → Read B) → Read B
  use_after m k = do a ← m; elim a [ some x ↦ k x | none ↦ λ c. undefined ]

abbrev pub give : {A : Type 0} → A → Read A
give a = pure (some a)

abbrev pub fail : {A : Type 0} → Read A
fail = pure none

-- `plc_elog(ERROR, ...)`
abbrev pub raise : {A : Type 0} → Action Conn A
raise c = raised c

abbrev pub misuse : {A : Type 0} → Action Conn A
misuse c = undefined

-- `for (i = 0; i < n && res == 0; i++)` over a read that is the same each time.
module _ {A L : Type 0} (nil : L) (cons : A → L → L) where
  unfoldable pub repeat : ℕ → Read A → Read L
  repeat zero m = give nil
  repeat (suc n) m = map_read cons m &&⊛ repeat n m
