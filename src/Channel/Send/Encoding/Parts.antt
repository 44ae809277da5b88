-- ===== src/Channel/Send/Encoding/Parts.antt =====
-- That the parts of a message of src/common/comm_channel.c are sent in the wire format.
use plcontainer.Common.{ℕ, zero, suc, Option, none, some, List, [], ◌∷◌, length, arith}
use plcontainer.Connectivity.Conn.{Conn}
use plcontainer.Connectivity.Conn.Write.{IsReady}
use plcontainer.Message.Value.{Raws}
use plcontainer.Message.Struct.{
  CallReq, PlcError, Column, QueryResult, Sql, statement, prepare, unprepare, pexecute,
}
use plcontainer.Channel.Word.{le_bytes}
use plcontainer.Channel.Primitive.{
  message_start, message_end, send_char, send_int32, send_uint32, send_int64,
}
use plcontainer.Channel.Primitive.Encoding.{Sends-cstring}
use plcontainer.Channel.TypeInfo.Encoding.{Sends-type}
use plcontainer.Channel.Object.Encoding.Send.{Sends-raw_object}
use plcontainer.Channel.Argument.Encoding.{Sends-arguments}
use plcontainer.Channel.Action.Sends.{
  Sends, Sends-append, Sends-nothing, Sends-|=, Delivers, Delivers-end, Sends-Delivers,
}
use plcontainer.Channel.Send.{
  send_call, send_exception, send_columns, send_row, send_rows, send_pending_exception, send_result,
  send_sql_statement, send_sql_prepare, send_sql_unprepare, send_sql_pexecute, send_sql, send_chars,
}
use plcontainer.Channel.Send.Encoding.{
  encode_call, encode_exception, encode_columns, encode_row, encode_rows, encode_pending,
  encode_result, encode_sql, encode_chars, IsError, IsPending, AreColumns, IsRow, AreRows, IsResult,
  IsCall, IsSql,
}

module _ (c : Conn) (r : IsReady c) where
  pub Delivers-exception :
      (err : PlcError) → IsError err → Delivers (encode_exception err) (send_exception err) c
  unfolding send_exception encode_exception message_start message_end
  Delivers-exception err h =
      Delivers-end
        (Sends-|= (Sends-|= (Sends-append (le_bytes 1 b'E')) (Sends-cstring err.message h.0))
          (Sends-cstring err.stacktrace h.1))
        c r

pub Sends-columns :
    (fuel : ℕ) (cs : List Column) → AreColumns fuel cs → Sends (encode_columns cs) (send_columns cs)
unfolding send_columns encode_columns
Sends-columns fuel [] h = Sends-nothing
Sends-columns fuel (c ∷ cs) h =
    Sends-|= (Sends-|= (Sends-type c.type h.0.0) (Sends-cstring c.name h.0.2))
      (Sends-columns fuel cs h.1)

pub Sends-row : (cs : List Column) (r : Raws) → IsRow cs r → Sends (encode_row cs r) (send_row cs r)
unfolding send_row encode_row
Sends-row [] Raws.nil h = Sends-nothing
Sends-row (c ∷ cs) (Raws.cons r rs) h =
    Sends-|= (Sends-raw_object c.type r h.0) (Sends-row cs rs h.1)
Sends-row _ _ h = absurd h

pub Sends-rows :
    (cs : List Column) (n : ℕ) (rows : List Raws)
    → AreRows cs n rows
    → Sends (encode_rows cs rows) (send_rows cs n rows)
unfolding send_rows encode_rows
Sends-rows [] n [] h = Sends-nothing
Sends-rows [] n (r ∷ rows) h = absurd (cc)
Sends-rows (c ∷ cs) zero [] h = Sends-nothing
Sends-rows (c ∷ cs) zero (r ∷ rows) h = absurd (omega (arith, h.0))
Sends-rows (c ∷ cs) (suc n) [] h = absurd (omega (arith, h.0))
Sends-rows (c ∷ cs) (suc n) (r ∷ rows) h =
    Sends-|= (Sends-row (c ∷ cs) r h.1.0) (Sends-rows (c ∷ cs) n rows (omega (arith, h.0), h.1.1))

pub Sends-pending :
    (pending : Option PlcError)
    → IsPending pending
    → Sends (encode_pending pending) (send_pending_exception pending)
unfolding send_pending_exception encode_pending send_char
Sends-pending none h = Sends-append (le_bytes 1 b'N')
Sends-pending (some err) h = Sends-Delivers (λ c r. Delivers-exception c r err h)

pub Sends-chars : (bs : List ℕ) → Sends (encode_chars bs) (send_chars bs)
unfolding send_chars encode_chars send_char
Sends-chars [] = Sends-nothing
Sends-chars (b ∷ bs) = Sends-|= (Sends-append (le_bytes 1 b)) (Sends-chars bs)

module _ (fuel : ℕ) (c : Conn) (r : IsReady c) where
  pub Delivers-result :
      (ret : QueryResult) → IsResult fuel ret → Delivers (encode_result ret) (send_result ret) c
  unfolding send_result encode_result message_start message_end send_int32
  Delivers-result ret h =
      Delivers-end
        (Sends-|=
          (Sends-|=
            (Sends-|=
              (Sends-|=
                (Sends-|= (Sends-append (le_bytes 1 b'R')) (Sends-append (le_bytes 4 ret.rows)))
                (Sends-append (le_bytes 4 (length ret.columns))))
              (Sends-columns fuel ret.columns h.2))
            (Sends-rows ret.columns ret.rows ret.cells h.3))
          (Sends-pending ret.exception h.4))
        c r

  pub Delivers-call :
      (call : CallReq) → IsCall fuel call → Delivers (encode_call call) (send_call call) c
  unfolding send_call encode_call message_start message_end send_int32 send_uint32
  Delivers-call call h =
      let strings =
        Sends-|=
          (Sends-|= (Sends-|= (Sends-append (le_bytes 1 b'C')) (Sends-cstring call.proc_name h.0.0))
            (Sends-cstring call.proc_src h.0.1))
          (Sends-cstring call.serverenc h.0.2) in
      let numbers =
        Sends-|=
          (Sends-|= (Sends-|= strings (Sends-append (le_bytes 4 call.log_level)))
            (Sends-append (le_bytes 4 call.objectid)))
          (Sends-append (le_bytes 4 call.has_changed)) in
      Delivers-end
        (Sends-|=
          (Sends-|=
            (Sends-|= (Sends-|= numbers (Sends-type call.ret_type h.2.0))
              (Sends-append (le_bytes 4 call.retset)))
            (Sends-append (le_bytes 4 (length call.args))))
          (Sends-arguments fuel call.args h.4))
        c r

  pub Delivers-sql : (msg : Sql) → IsSql fuel msg → Delivers (encode_sql msg) (send_sql msg) c
  unfolding send_sql send_sql_statement send_sql_prepare send_sql_unprepare send_sql_pexecute
      encode_sql message_start message_end send_int32 send_int64
  Delivers-sql (statement limit stmt) h =
      Delivers-end
        (Sends-|=
          (Sends-|= (Sends-|= (Sends-append (le_bytes 1 b'S')) (Sends-append (le_bytes 4 1)))
            (Sends-append (le_bytes 8 limit)))
          (Sends-cstring stmt h.1))
        c r
  Delivers-sql (prepare args stmt) h =
      Delivers-end
        (Sends-|=
          (Sends-|=
            (Sends-|= (Sends-|= (Sends-append (le_bytes 1 b'S')) (Sends-append (le_bytes 4 5)))
              (Sends-append (le_bytes 4 (length args))))
            (Sends-arguments fuel args h.1))
          (Sends-cstring stmt h.2))
        c r
  Delivers-sql (unprepare pplan) h =
      Delivers-end
        (Sends-|= (Sends-|= (Sends-append (le_bytes 1 b'S')) (Sends-append (le_bytes 4 7)))
          (Sends-append (le_bytes 8 pplan)))
        c r
  Delivers-sql (pexecute args limit pplan) h =
      Delivers-end
        (Sends-|=
          (Sends-|=
            (Sends-|=
              (Sends-|= (Sends-|= (Sends-append (le_bytes 1 b'S')) (Sends-append (le_bytes 4 6)))
                (Sends-append (le_bytes 4 (length args))))
              (Sends-arguments fuel args h.1))
            (Sends-append (le_bytes 8 limit)))
          (Sends-append (le_bytes 8 pplan)))
        c r
  Delivers-sql (Sql.unhandled sqltype) h = absurd h
