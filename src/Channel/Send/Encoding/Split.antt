-- ===== src/Channel/Send/Encoding/Split.antt =====
-- The messages of src/common/comm_channel.c as a type byte and the bytes that follow it.
use plcontainer.Common.{ℕ, ◌<◌, List, [], ◌++◌, some, length, ◌≡◌, refl, arith, append_assoc}
use plcontainer.Message.Struct.{Sql, statement, prepare, unprepare, pexecute, Message}
use plcontainer.Channel.Word.{le_bytes}
use plcontainer.Channel.Primitive.Encoding.{encode_cstring}
use plcontainer.Channel.TypeInfo.Encoding.{encode_type}
use plcontainer.Channel.Argument.Encoding.{encode_arguments}
use plcontainer.Channel.Send.Encoding.{
  encode_call, encode_columns, encode_rows, encode_pending, encode_result, encode_exception,
  encode_sql, encode_chars, encode_message, IsSql, IsMessage,
}

-- The bytes of a query after the message type.
abbrev pub sql_body : Sql → List ℕ
sql_body (statement limit stmt) = le_bytes 4 1 ++ (le_bytes 8 limit ++ encode_cstring stmt)
sql_body (prepare args stmt) =
    le_bytes 4 5 ++ (le_bytes 4 (length args) ++ (encode_arguments args ++ encode_cstring stmt))
sql_body (unprepare pplan) = le_bytes 4 7 ++ le_bytes 8 pplan
sql_body (pexecute args limit pplan) =
    le_bytes 4 6
    ++ (le_bytes 4 (length args)
        ++ ((encode_arguments args ++ le_bytes 8 limit) ++ le_bytes 8 pplan))
sql_body (Sql.unhandled sqltype) = []

encode_sql-split :
    (fuel : ℕ) (msg : Sql) → IsSql fuel msg → encode_sql msg ≡ le_bytes 1 b'S' ++ sql_body msg
unfolding encode_sql
encode_sql-split fuel (statement limit stmt) h = simp append_assoc
encode_sql-split fuel (prepare args stmt) h = simp append_assoc
encode_sql-split fuel (unprepare pplan) h = simp append_assoc
encode_sql-split fuel (pexecute args limit pplan) h = simp append_assoc
encode_sql-split fuel (Sql.unhandled sqltype) h = absurd h

-- The first byte of a message.
abbrev pub code_of : Message → ℕ
code_of Message.ping = b'P'
code_of (Message.callreq call) = b'C'
code_of (Message.result ret) = b'R'
code_of (Message.exception err) = b'E'
code_of (Message.log level message) = b'L'
code_of (Message.quote quote_type msg) = b'Q'
code_of (Message.quote_result quote_type result) = b'O'
code_of (Message.sql msg) = b'S'
code_of (Message.raw bytes) = b'W'
code_of (Message.subtransaction action type) = b'N'
code_of (Message.subtran_result result) = b'Z'
code_of (Message.unhandled msgtype) = 0

pub code_of-byte : (m : Message) → code_of m < 256
code_of-byte Message.ping = omega arith
code_of-byte (Message.callreq call) = omega arith
code_of-byte (Message.result ret) = omega arith
code_of-byte (Message.exception err) = omega arith
code_of-byte (Message.log level message) = omega arith
code_of-byte (Message.quote quote_type msg) = omega arith
code_of-byte (Message.quote_result quote_type result) = omega arith
code_of-byte (Message.sql msg) = omega arith
code_of-byte (Message.raw bytes) = omega arith
code_of-byte (Message.subtransaction action type) = omega arith
code_of-byte (Message.subtran_result result) = omega arith
code_of-byte (Message.unhandled msgtype) = omega arith

-- The bytes of a message after its type.
abbrev pub body : List ℕ → Message → List ℕ
body version Message.ping = encode_cstring (some version)
body version (Message.callreq call) =
    ((((((((encode_cstring call.proc_name ++ encode_cstring call.proc_src)
                  ++ encode_cstring call.serverenc)
                ++ le_bytes 4 call.log_level)
              ++ le_bytes 4 call.objectid)
            ++ le_bytes 4 call.has_changed)
          ++ encode_type call.ret_type)
        ++ le_bytes 4 call.retset)
      ++ le_bytes 4 (length call.args))
    ++ encode_arguments call.args
body version (Message.result ret) =
    (le_bytes 4 ret.rows ++ le_bytes 4 (length ret.columns))
    ++ ((encode_columns ret.columns ++ encode_rows ret.columns ret.cells)
        ++ encode_pending ret.exception)
body version (Message.exception err) = encode_cstring err.message ++ encode_cstring err.stacktrace
body version (Message.log level message) = le_bytes 4 level ++ encode_cstring message
body version (Message.quote quote_type msg) = le_bytes 4 quote_type ++ encode_cstring msg
body version (Message.quote_result quote_type result) =
    le_bytes 4 quote_type ++ encode_cstring result
body version (Message.sql msg) = sql_body msg
body version (Message.raw bytes) = le_bytes 4 (length bytes) ++ encode_chars bytes
body version (Message.subtransaction action type) = le_bytes 1 action ++ le_bytes 1 type
body version (Message.subtran_result result) = le_bytes 2 result
body version (Message.unhandled msgtype) = []

pub encode_message-split :
    (version : List ℕ) (fuel : ℕ) (m : Message)
    → IsMessage version fuel m
    → encode_message version m ≡ le_bytes 1 (code_of m) ++ body version m
unfolding encode_message encode_call encode_result encode_exception
encode_message-split version fuel Message.ping h = refl
encode_message-split version fuel (Message.callreq call) h = simp append_assoc
encode_message-split version fuel (Message.result ret) h = simp append_assoc
encode_message-split version fuel (Message.exception err) h = simp append_assoc
encode_message-split version fuel (Message.log level message) h = simp append_assoc
encode_message-split version fuel (Message.quote quote_type msg) h = simp append_assoc
encode_message-split version fuel (Message.quote_result quote_type result) h = simp append_assoc
encode_message-split version fuel (Message.sql msg) h = encode_sql-split fuel msg h
encode_message-split version fuel (Message.raw bytes) h = simp append_assoc
encode_message-split version fuel (Message.subtransaction action type) h = simp append_assoc
encode_message-split version fuel (Message.subtran_result result) h = refl
encode_message-split version fuel (Message.unhandled msgtype) h = absurd h
