-- ===== src/Channel/Send/Encoding.antt =====
-- The wire format of the messages of src/common/comm_channel.c, and which messages it can carry.
pub mod Nesting
pub mod Parts
pub mod Split
pub mod Whole
use plcontainer.Common.{
  ℕ, suc, zero, ◌^◌, ◌<◌, ◌≤◌, Option, none, some, List, [], ◌∷◌, ◌++◌, length, ◌≡◌, All,
}
use plcontainer.Message.Datatype.{Cstring, PlcType}
use plcontainer.Message.Value.{Raw, Raws}
use plcontainer.Message.Struct.{
  Argument, CallReq, PlcError, Column, QueryResult, Sql, Message, statement, prepare, unprepare,
  pexecute,
}
use plcontainer.Channel.Word.{le_bytes}
use plcontainer.Channel.Primitive.Encoding.{encode_cstring, IsCstring}
use plcontainer.Channel.TypeInfo.Encoding.{encode_type, depth, IsType}
use plcontainer.Channel.Object.Encoding.{encode_raw, IsRawOf}
use plcontainer.Channel.Argument.Encoding.{encode_arguments, AreArguments}

unfoldable pub encode_call : CallReq → List ℕ
encode_call call =
    (((((((((le_bytes 1 b'C' ++ encode_cstring call.proc_name) ++ encode_cstring call.proc_src)
                  ++ encode_cstring call.serverenc)
                ++ le_bytes 4 call.log_level)
              ++ le_bytes 4 call.objectid)
            ++ le_bytes 4 call.has_changed)
          ++ encode_type call.ret_type)
        ++ le_bytes 4 call.retset)
      ++ le_bytes 4 (length call.args))
    ++ encode_arguments call.args

unfoldable pub encode_exception : PlcError → List ℕ
encode_exception err =
    (le_bytes 1 b'E' ++ encode_cstring err.message) ++ encode_cstring err.stacktrace

unfoldable pub encode_columns : List Column → List ℕ
encode_columns [] = []
encode_columns (c ∷ cs) = (encode_type c.type ++ encode_cstring c.name) ++ encode_columns cs

unfoldable pub encode_row : List Column → Raws → List ℕ
encode_row (c ∷ cs) (Raws.cons r rs) = encode_raw c.type r ++ encode_row cs rs
encode_row cs rs = []

unfoldable pub encode_rows : List Column → List Raws → List ℕ
unfolding encode_row
encode_rows cs [] = []
encode_rows cs (r ∷ rs) = encode_row cs r ++ encode_rows cs rs

unfoldable pub encode_pending : Option PlcError → List ℕ
unfolding encode_exception
encode_pending none = le_bytes 1 b'N'
encode_pending (some err) = encode_exception err

unfoldable pub encode_result : QueryResult → List ℕ
unfolding encode_columns encode_rows encode_pending
encode_result ret =
    ((((le_bytes 1 b'R' ++ le_bytes 4 ret.rows) ++ le_bytes 4 (length ret.columns))
        ++ encode_columns ret.columns)
      ++ encode_rows ret.columns ret.cells)
    ++ encode_pending ret.exception

unfoldable pub encode_sql : Sql → List ℕ
encode_sql (statement limit stmt) =
    ((le_bytes 1 b'S' ++ le_bytes 4 1) ++ le_bytes 8 limit) ++ encode_cstring stmt
encode_sql (prepare args stmt) =
    (((le_bytes 1 b'S' ++ le_bytes 4 5) ++ le_bytes 4 (length args)) ++ encode_arguments args)
    ++ encode_cstring stmt
encode_sql (unprepare pplan) = (le_bytes 1 b'S' ++ le_bytes 4 7) ++ le_bytes 8 pplan
encode_sql (pexecute args limit pplan) =
    ((((le_bytes 1 b'S' ++ le_bytes 4 6) ++ le_bytes 4 (length args)) ++ encode_arguments args)
      ++ le_bytes 8 limit)
    ++ le_bytes 8 pplan
encode_sql (Sql.unhandled sqltype) = []

unfoldable pub encode_chars : List ℕ → List ℕ
encode_chars [] = []
encode_chars (b ∷ bs) = le_bytes 1 b ++ encode_chars bs

unfoldable pub encode_message : List ℕ → Message → List ℕ
unfolding encode_call encode_result encode_exception encode_sql encode_chars
encode_message version Message.ping = le_bytes 1 b'P' ++ encode_cstring (some version)
encode_message version (Message.callreq call) = encode_call call
encode_message version (Message.result ret) = encode_result ret
encode_message version (Message.exception err) = encode_exception err
encode_message version (Message.log level message) =
    (le_bytes 1 b'L' ++ le_bytes 4 level) ++ encode_cstring message
encode_message version (Message.quote quote_type msg) =
    (le_bytes 1 b'Q' ++ le_bytes 4 quote_type) ++ encode_cstring msg
encode_message version (Message.quote_result quote_type result) =
    (le_bytes 1 b'O' ++ le_bytes 4 quote_type) ++ encode_cstring result
encode_message version (Message.sql msg) = encode_sql msg
encode_message version (Message.raw bytes) =
    (le_bytes 1 b'W' ++ le_bytes 4 (length bytes)) ++ encode_chars bytes
encode_message version (Message.subtransaction action type) =
    (le_bytes 1 b'N' ++ le_bytes 1 action) ++ le_bytes 1 type
encode_message version (Message.subtran_result result) = le_bytes 1 b'Z' ++ le_bytes 2 result
encode_message version (Message.unhandled msgtype) = []

abbrev pub IsError : PlcError → Type 0
IsError err = IsCstring err.message × IsCstring err.stacktrace

abbrev pub IsPending : Option PlcError → Type 0
IsPending none = Unit {0}
IsPending (some err) = IsError err

abbrev pub AreColumns : ℕ → List Column → Type 0
AreColumns fuel [] = Unit {0}
AreColumns fuel (c ∷ cs) =
    (IsType c.type × (depth c.type ≤ fuel) × IsCstring c.name) × AreColumns fuel cs

abbrev pub IsRow : List Column → Raws → Type 0
IsRow [] Raws.nil = Unit {0}
IsRow (c ∷ cs) (Raws.cons r rs) = IsRawOf c.type r × IsRow cs rs
IsRow cs rs = ⊥

-- One row for each that is counted; none is held where there is no column.
abbrev pub AreRows : List Column → ℕ → List Raws → Type 0
AreRows [] n rows = rows ≡ []
AreRows (c ∷ cs) n rows = (length rows ≡ n) × All (IsRow (c ∷ cs)) rows

abbrev pub IsResult : ℕ → QueryResult → Type 0
IsResult fuel ret =
    (ret.rows < 256 ^ 4)
    × (length ret.columns < 256 ^ 4)
    × AreColumns fuel ret.columns
    × AreRows ret.columns ret.rows ret.cells
    × IsPending ret.exception

abbrev pub IsCall : ℕ → CallReq → Type 0
IsCall fuel call =
    (IsCstring call.proc_name × IsCstring call.proc_src × IsCstring call.serverenc)
    × ((call.log_level < 256 ^ 4)
        × (call.objectid < 256 ^ 4)
        × (call.has_changed < 256 ^ 4)
        × (call.retset < 256 ^ 4))
    × (IsType call.ret_type × (depth call.ret_type ≤ fuel))
    × (length call.args < 2 ^ 31)
    × AreArguments fuel call.args

abbrev pub IsSql : ℕ → Sql → Type 0
IsSql fuel (statement limit stmt) = (limit < 256 ^ 8) × IsCstring stmt
IsSql fuel (prepare args stmt) = (length args < 2 ^ 31) × AreArguments fuel args × IsCstring stmt
IsSql fuel (unprepare pplan) = pplan < 256 ^ 8
IsSql fuel (pexecute args limit pplan) =
    (length args < 2 ^ 31) × AreArguments fuel args × (limit < 256 ^ 8) × (pplan < 256 ^ 8)
IsSql fuel (Sql.unhandled sqltype) = ⊥

-- The messages that the protocol can carry, with types nested at most `fuel` deep.
abbrev pub IsMessage : List ℕ → ℕ → Message → Type 0
IsMessage version fuel Message.ping = IsCstring (some version)
IsMessage version fuel (Message.callreq call) = IsCall fuel call
IsMessage version fuel (Message.result ret) = IsResult fuel ret
IsMessage version fuel (Message.exception err) = IsError err
IsMessage version fuel (Message.log level message) = (level < 256 ^ 4) × IsCstring message
IsMessage version fuel (Message.quote quote_type msg) = (quote_type < 256 ^ 4) × IsCstring msg
IsMessage version fuel (Message.quote_result quote_type result) =
    (quote_type < 256 ^ 4) × IsCstring result
IsMessage version fuel (Message.sql msg) = IsSql fuel msg
IsMessage version fuel (Message.raw bytes) = (length bytes < 2 ^ 31) × All (λ b. b < 256) bytes
IsMessage version fuel (Message.subtransaction action type) = (action < 256 ^ 1) × (type < 256 ^ 1)
IsMessage version fuel (Message.subtran_result result) = result < 256 ^ 2
IsMessage version fuel (Message.unhandled msgtype) = ⊥
