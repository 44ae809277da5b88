-- ===== src/Message/Struct.antt =====
-- The messages of src/common/messages/*.h. Numbers are the bit patterns of their C types.
use plcontainer.Common.{ℕ, List, Option}
use plcontainer.Message.Datatype.{Cstring, PlcType}
use plcontainer.Message.Value.{Raw, Raws}

-- `plcArgument`
pub record Argument : Type 0 where
  pub name : Cstring
  pub type : PlcType
  pub value : Raw

-- `plcMsgCallreq`; `nargs` is the length of `args`.
pub record CallReq : Type 0 where
  pub proc_name : Cstring
  pub proc_src : Cstring
  pub serverenc : Cstring
  pub log_level : ℕ
  pub objectid : ℕ
  pub has_changed : ℕ
  pub ret_type : PlcType
  pub retset : ℕ
  pub args : List Argument

-- `plcMsgError`
pub record PlcError : Type 0 where
  pub message : Cstring
  pub stacktrace : Cstring

-- A column's entries in `types` and `names`.
pub record Column : Type 0 where
  pub type : PlcType
  pub name : Cstring

-- `plcMsgResult`; `cols` is the length of `columns`, and `exception` what the callback returns.
pub record QueryResult : Type 0 where
  pub rows : ℕ
  pub columns : List Column
  pub cells : List Raws
  pub exception : Option PlcError

-- `plcMsgSQL` by its `sqltype`.
pub data Sql : Type 0 where
  statement : ℕ → Cstring → Sql
  prepare : List Argument → Cstring → Sql
  unprepare : ℕ → Sql
  pexecute : List Argument → ℕ → ℕ → Sql
  unhandled : ℕ → Sql

-- `plcMessage` by its `msgtype`.
pub data Message : Type 0 where
  ping : Message
  callreq : CallReq → Message
  result : QueryResult → Message
  exception : PlcError → Message
  log : ℕ → Cstring → Message
  quote quote_result : ℕ → Cstring → Message
  sql : Sql → Message
  raw : List ℕ → Message
  subtransaction : ℕ → ℕ → Message
  subtran_result : ℕ → Message
  unhandled : ℕ → Message
