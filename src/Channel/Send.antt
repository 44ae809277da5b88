-- ===== src/Channel/Send.antt =====
-- `plcontainer_channel_send` of src/common/comm_channel.c and the messages that it writes.
pub mod Encoding
use plcontainer.Common.{
  ℕ, zero, suc, Option, none, some, List, [], ◌∷◌, length, ◌==◌, if◌then◌else◌,
}
use plcontainer.Outcome.{pure, ◌>>=◌}
use plcontainer.Connectivity.Conn.{Conn, Status, success, failure}
use plcontainer.Message.Datatype.{Cstring, PlcType}
use plcontainer.Message.Value.{Raw, Raws}
use plcontainer.Message.Struct.{
  Argument, CallReq, PlcError, Column, QueryResult, Sql, Message, statement, prepare, unprepare,
  pexecute,
}
use plcontainer.Message.Struct
use plcontainer.Channel.Action.{Write, ◌|=◌, raise, misuse}
use plcontainer.Channel.Primitive.{
  message_start, message_end, send_char, send_int16, send_int32, send_uint32, send_int64,
  send_cstring,
}
use plcontainer.Channel.TypeInfo.{send_type}
use plcontainer.Channel.Object.{send_raw_object}
use plcontainer.Channel.Argument.{send_arguments}

-- `version` is PLCONTAINER_VERSION, which the build generates.
unfoldable pub send_ping : List ℕ → Write
send_ping version = message_start b'P' |= send_cstring (some version) |= message_end

unfoldable pub send_call : CallReq → Write
send_call call =
    message_start b'C'
    |= send_cstring call.proc_name
    |= send_cstring call.proc_src
    |= send_cstring call.serverenc
    |= send_int32 call.log_level
    |= send_uint32 call.objectid
    |= send_int32 call.has_changed
    |= send_type call.ret_type
    |= send_int32 call.retset
    |= send_int32 (length call.args)
    |= send_arguments call.args
    |= message_end

unfoldable pub send_exception : PlcError → Write
send_exception err =
    message_start b'E' |= send_cstring err.message |= send_cstring err.stacktrace |= message_end

unfoldable pub send_columns : List Column → Write
send_columns [] = pure success
send_columns (c ∷ cs) = send_type c.type |= send_cstring c.name |= send_columns cs

-- A row that is shorter than the columns is read past its end.
unfoldable pub send_row : List Column → Raws → Write
send_row [] r = pure success
send_row (c ∷ cs) (Raws.cons r rs) = send_raw_object c.type r |= send_row cs rs
send_row (c ∷ cs) Raws.nil = misuse

-- Rows are counted by `rows`; with no column no row is looked at.
unfoldable pub send_rows : List Column → ℕ → List Raws → Write
unfolding send_row
send_rows [] n rows = pure success
send_rows (c ∷ cs) zero rows = pure success
send_rows (c ∷ cs) (suc n) [] = misuse
send_rows (c ∷ cs) (suc n) (r ∷ rs) = send_row (c ∷ cs) r |= send_rows (c ∷ cs) n rs

unfoldable pub send_pending_exception : Option PlcError → Write
unfolding send_exception
send_pending_exception none = send_char b'N'
send_pending_exception (some err) = send_exception err

unfoldable pub send_result : QueryResult → Write
unfolding send_columns send_rows send_pending_exception
send_result ret =
    message_start b'R'
    |= send_int32 ret.rows
    |= send_int32 (length ret.columns)
    |= send_columns ret.columns
    |= send_rows ret.columns ret.rows ret.cells
    |= send_pending_exception ret.exception
    |= message_end

unfoldable pub send_log : ℕ → Cstring → Write
send_log level message =
    message_start b'L' |= send_int32 level |= send_cstring message |= message_end

unfoldable pub send_quote : ℕ → Cstring → Write
send_quote quote_type msg =
    message_start b'Q' |= send_int32 quote_type |= send_cstring msg |= message_end

unfoldable pub send_quote_result : ℕ → Cstring → Write
send_quote_result quote_type result =
    message_start b'O' |= send_int32 quote_type |= send_cstring result |= message_end

unfoldable pub send_subtransaction_result : ℕ → Write
send_subtransaction_result result = message_start b'Z' |= send_int16 result |= message_end

unfoldable pub send_subtransaction : ℕ → ℕ → Write
send_subtransaction action type =
    message_start b'N' |= send_char action |= send_char type |= message_end

unfoldable pub send_sql_statement : ℕ → Cstring → Write
send_sql_statement limit stmt =
    message_start b'S' |= send_int32 1 |= send_int64 limit |= send_cstring stmt |= message_end

unfoldable pub send_sql_prepare : List Argument → Cstring → Write
send_sql_prepare args stmt =
    message_start b'S'
    |= send_int32 5
    |= send_int32 (length args)
    |= send_arguments args
    |= send_cstring stmt
    |= message_end

unfoldable pub send_sql_unprepare : ℕ → Write
send_sql_unprepare pplan = message_start b'S' |= send_int32 7 |= send_int64 pplan |= message_end

unfoldable pub send_sql_pexecute : List Argument → ℕ → ℕ → Write
send_sql_pexecute args limit pplan =
    message_start b'S'
    |= send_int32 6
    |= send_int32 (length args)
    |= send_arguments args
    |= send_int64 limit
    |= send_int64 pplan
    |= message_end

unfoldable pub send_sql : Sql → Write
unfolding send_sql_statement send_sql_prepare send_sql_unprepare send_sql_pexecute
send_sql (statement limit stmt) = send_sql_statement limit stmt
send_sql (prepare args stmt) = send_sql_prepare args stmt
send_sql (unprepare pplan) = send_sql_unprepare pplan
send_sql (pexecute args limit pplan) = send_sql_pexecute args limit pplan
send_sql (Sql.unhandled sqltype) = raise

unfoldable pub send_chars : List ℕ → Write
send_chars [] = pure success
send_chars (b ∷ bs) = send_char b |= send_chars bs

unfoldable pub send_rawmsg : List ℕ → Write
unfolding send_chars
send_rawmsg bytes =
    message_start b'W' |= send_int32 (length bytes) |= send_chars bytes |= message_end

unfoldable pub plcontainer_channel_send : List ℕ → Message → Write
unfolding send_ping send_call send_result send_exception send_log send_quote send_quote_result
    send_sql send_rawmsg send_subtransaction_result send_subtransaction
plcontainer_channel_send version Message.ping = send_ping version
plcontainer_channel_send version (Message.callreq call) = send_call call
plcontainer_channel_send version (Message.result ret) = send_result ret
plcontainer_channel_send version (Message.exception err) = send_exception err
plcontainer_channel_send version (Message.log level message) = send_log level message
plcontainer_channel_send version (Message.quote quote_type msg) = send_quote quote_type msg
plcontainer_channel_send version (Message.quote_result quote_type result) =
    send_quote_result quote_type result
plcontainer_channel_send version (Message.sql msg) = send_sql msg
plcontainer_channel_send version (Message.raw bytes) = send_rawmsg bytes
plcontainer_channel_send version (Message.subtran_result result) = send_subtransaction_result result
plcontainer_channel_send version (Message.subtransaction action type) =
    send_subtransaction action type
plcontainer_channel_send version (Message.unhandled msgtype) = raise
