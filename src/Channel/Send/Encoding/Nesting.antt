-- ===== src/Channel/Send/Encoding/Nesting.antt =====
-- The types in a message of src/common/comm_channel.c are nested less deep than the message is long.
use plcontainer.Common.{ℕ, ◌≤◌, List, [], ◌∷◌, ◌++◌, length, arith, length-append}
use plcontainer.Message.Struct.{
  CallReq, Column, QueryResult, Sql, statement, prepare, unprepare, pexecute, Message,
}
use plcontainer.Channel.Word.{le_bytes}
use plcontainer.Channel.Primitive.Encoding.{encode_cstring}
use plcontainer.Channel.TypeInfo.Encoding.{encode_type}
use plcontainer.Channel.TypeInfo.Encoding.Depth.{depth-encode_type}
use plcontainer.Channel.Argument.Encoding.{encode_arguments, AreArguments-length}
use plcontainer.Channel.Send.Encoding.{
  encode_call, encode_columns, encode_rows, encode_pending, encode_result, encode_sql,
  encode_message, AreColumns, IsResult, IsCall, IsSql, IsMessage,
}

AreColumns-length :
    (fuel n : ℕ) (cs : List Column)
    → AreColumns fuel cs
    → length (encode_columns cs) ≤ n
    → AreColumns n cs
unfolding encode_columns
AreColumns-length fuel n [] h d = tt
AreColumns-length fuel n (c ∷ cs) h d =
    let own = length-append (encode_type c.type ++ encode_cstring c.name) (encode_columns cs) in
    let both = length-append (encode_type c.type) (encode_cstring c.name) in
    (
      (h.0.0, omega (arith, d, own, both, depth-encode_type c.type h.0.0), h.0.2),
      AreColumns-length fuel n cs h.1 (omega (arith, d, own)),
    )

IsResult-length :
    (fuel n : ℕ) (ret : QueryResult)
    → IsResult fuel ret
    → length (encode_result ret) ≤ n
    → IsResult n ret
unfolding encode_result
IsResult-length fuel n ret h d =
    let start = (le_bytes 1 b'R' ++ le_bytes 4 ret.rows) ++ le_bytes 4 (length ret.columns) in
    let columns = encode_columns ret.columns in
    let rows = encode_rows ret.columns ret.cells in
    (
      h.0,
      h.1,
      AreColumns-length fuel n ret.columns h.2 (
          omega (
            arith,
            d,
            length-append ((start ++ columns) ++ rows) (encode_pending ret.exception),
            length-append (start ++ columns) rows,
            length-append start columns,
          )),
      h.3,
      h.4,
    )

IsCall-length :
    (fuel n : ℕ) (call : CallReq) → IsCall fuel call → length (encode_call call) ≤ n → IsCall n call
unfolding encode_call
IsCall-length fuel n call h d =
    let start =
      (((((le_bytes 1 b'C' ++ encode_cstring call.proc_name) ++ encode_cstring call.proc_src)
            ++ encode_cstring call.serverenc)
          ++ le_bytes 4 call.log_level)
        ++ le_bytes 4 call.objectid)
      ++ le_bytes 4 call.has_changed in
    let type = encode_type call.ret_type in
    let retset = le_bytes 4 call.retset in
    let nargs = le_bytes 4 (length call.args) in
    let last = length-append (((start ++ type) ++ retset) ++ nargs) (encode_arguments call.args) in
    (
      h.0,
      h.1,
      (
        h.2.0,
        omega (
          arith,
          d,
          last,
          length-append ((start ++ type) ++ retset) nargs,
          length-append (start ++ type) retset,
          length-append start type,
          depth-encode_type call.ret_type h.2.0,
        ),
      ),
      h.3,
      AreArguments-length fuel n call.args h.4 (omega (arith, d, last)),
    )

IsSql-length : (fuel n : ℕ) (msg : Sql) → IsSql fuel msg → length (encode_sql msg) ≤ n → IsSql n msg
unfolding encode_sql
IsSql-length fuel n (statement limit stmt) h d = h
IsSql-length fuel n (prepare args stmt) h d =
    let start = (le_bytes 1 b'S' ++ le_bytes 4 5) ++ le_bytes 4 (length args) in
    (
      h.0,
      AreArguments-length fuel n args h.1 (
          omega (
            arith,
            d,
            length-append (start ++ encode_arguments args) (encode_cstring stmt),
            length-append start (encode_arguments args),
          )),
      h.2,
    )
IsSql-length fuel n (unprepare pplan) h d = h
IsSql-length fuel n (pexecute args limit pplan) h d =
    let start = (le_bytes 1 b'S' ++ le_bytes 4 6) ++ le_bytes 4 (length args) in
    (
      h.0,
      AreArguments-length fuel n args h.1 (
          omega (
            arith,
            d,
            length-append ((start ++ encode_arguments args) ++ le_bytes 8 limit) (le_bytes 8 pplan),
            length-append (start ++ encode_arguments args) (le_bytes 8 limit),
            length-append start (encode_arguments args),
          )),
      h.2,
      h.3,
    )
IsSql-length fuel n (Sql.unhandled sqltype) h d = absurd h

pub IsMessage-length :
    (version : List ℕ) (fuel n : ℕ) (m : Message)
    → IsMessage version fuel m
    → length (encode_message version m) ≤ n
    → IsMessage version n m
unfolding encode_message
IsMessage-length version fuel n Message.ping h d = h
IsMessage-length version fuel n (Message.callreq call) h d = IsCall-length fuel n call h d
IsMessage-length version fuel n (Message.result ret) h d = IsResult-length fuel n ret h d
IsMessage-length version fuel n (Message.exception err) h d = h
IsMessage-length version fuel n (Message.log level message) h d = h
IsMessage-length version fuel n (Message.quote quote_type msg) h d = h
IsMessage-length version fuel n (Message.quote_result quote_type result) h d = h
IsMessage-length version fuel n (Message.sql msg) h d = IsSql-length fuel n msg h d
IsMessage-length version fuel n (Message.raw bytes) h d = h
IsMessage-length version fuel n (Message.subtransaction action type) h d = h
IsMessage-length version fuel n (Message.subtran_result result) h d = h
IsMessage-length version fuel n (Message.unhandled msgtype) h d = absurd h
