-- ===== src/CallHandler/State.antt =====
-- What src/plcontainer.c works on, and what a call depends on besides the client.
use plcontainer.Common.{ℕ, Bool, true, Option, List}
use plcontainer.Subtransaction.{Session}
use plcontainer.Container.Slots.{ContainerState}
use plcontainer.Container.Start.{World}
use plcontainer.Container.Delete.{SlotReplies}

-- The containers, `DeleteBackendsWhenError`, the explicit subtransactions and `PLy_curr_procedure`.
pub record HandlerState : Type 0 where
  pub containers : ContainerState
  pub delete_backends_when_error : Bool
  pub session : Session
  pub curr_procedure : Option ℕ

-- Of a `runtimeConfEntry`, `useUserControl` and whether plc_check_user_privilege takes its roles.
pub record RuntimeConf : Type 0 where
  pub use_user_control : Bool
  pub privileged : Bool

-- Whether the call is by a trigger; whether SPI connects; the procedure, `none` if
-- plcontainer_procedure_get raises an error; its source; the configuration of a runtime; what
-- starting and deleting containers meets; whether the call request is sent; whether the query is
-- cancelled when an error is caught.
pub record Setup : Type 0 where
  pub trigger : Bool
  pub spi_connects : Bool
  pub procedure : Option ℕ
  pub source : List ℕ
  pub configuration : List ℕ → Option RuntimeConf
  pub world : World
  pub deletions : ℕ → SlotReplies
  pub sends : Bool
  pub interrupted : Bool

-- The result of a call, with its columns, its rows and whether the input function of the return type
-- takes the value of row 0.
pub record Received : Type 0 where
  pub cols : ℕ
  pub rows : ℕ
  pub reads : Bool

abbrev pub no_result : Received
no_result = record { cols = 0; rows = 0; reads = true }

-- A call returns, or raises an error, or neither: it waits without an end, or the backend crashes.
pub data Ended : Type 0 where
  returned : Received → Ended
  raised : Ended
  unfinished : Ended
