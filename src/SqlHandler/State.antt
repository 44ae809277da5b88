-- ===== src/SqlHandler/State.antt =====
-- What src/sqlhandler.c works on, and what SPI and the catalogs answer to it.
use plcontainer.Common.{ℕ, Option, List}
use plcontainer.Message.Datatype.{Cstring, Datatype}
use plcontainer.Message.Value.{Value}
use plcontainer.Message.Struct.{Message}
use plcontainer.PplanSlots.{PplanSlots}
use plcontainer.SqlHandler.Results.{Tuptable}
use plcontainer.SqlHandler.Heap.{Cell}

-- What `SPI_execute` and `SPI_execute_plan` return: with rows, with their number, or anything else.
pub data Executed : Type 0 where
  rows_returned : Executed
  rows_counted : Executed
  not_handled : Executed

-- What SPI and the catalogs answer to a message. `none` is an error that is raised; the address of
-- `plan` in the block that PLy_malloc gives is never 0, NULL is the plan 0.
pub record Spi : Type 0 where
  pub address : ℕ
  pub parse_type_string : Cstring → Option ℕ
  pub parse_oid : Cstring → Option ℕ
  pub datatype_from_oid : ℕ → Datatype
  pub in_func : ℕ → Value → Option ℕ
  pub execute : Cstring → ℕ → Executed
  pub execute_plan : ℕ → List (Option ℕ) → ℕ → Executed
  pub tuptable : Option Tuptable
  pub processed : ℕ
  pub prepare : Cstring → List ℕ → ℕ
  pub saveplan : ℕ → ℕ
  pub freeplan : ℕ → ℕ

-- The begin of a subtransaction and its two ends.
pub data SubEvent : Type 0 where
  begun : SubEvent
  released : SubEvent
  rolled_back : SubEvent

-- The plans of the connection, the blocks of `plcPlan` that are not freed, by the address of their
-- `plan`, and the calls on subtransactions, the last one first.
pub record SqlState : Type 0 where
  pub slots : PplanSlots
  pub heap : List (ℕ × Cell)
  pub events : List SubEvent

-- `invalid` is the use of a block that is freed or not filled, or of an entry outside `argOids`.
pub data Handled : Type 0 where
  answered : Message → Handled
  raised : Handled
  invalid : Handled
