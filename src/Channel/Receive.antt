-- ===== src/Channel/Receive.antt =====
-- `plcontainer_channel_receive` of src/common/comm_channel.c and the messages that it reads.
pub mod Errors
pub mod Parts
pub mod Queries
pub mod Whole
use plcontainer.Common.{
  ℕ, zero, suc, ◌/◌, ◌%◌, ◌^◌, Bool, true, false, ◌&&◌, Option, none, some, List, [], ◌∷◌, length,
  ◌==◌, if◌then◌else◌,
}
use plcontainer.Outcome.{done, Action, pure, ◌>>=◌}
use plcontainer.Connectivity.Buffer.{held}
use plcontainer.Connectivity.Conn.{Conn, Status, available}
use plcontainer.Message.Datatype.{Cstring, PlcType}
use plcontainer.Message.Value.{Raw, Raws}
use plcontainer.Message.Struct.{
  Argument, CallReq, PlcError, Column, QueryResult, Sql, Message, statement, prepare, unprepare,
  pexecute,
}
use plcontainer.Channel.Action.{
  Read, ◌⊛◌, ◌&&⊛◌, map_read, or_return, use_after, give, fail, raise, misuse, repeat,
}
use plcontainer.Channel.Primitive.{
  receive_message_type, receive_char, receive_int16, receive_int32, receive_uint32, receive_int64,
  receive_raw, receive_cstring, is_negative,
}
use plcontainer.Channel.TypeInfo.{receive_whole_type}
use plcontainer.Channel.Object.{receive_raw_object}
use plcontainer.Channel.Argument.{receive_argument, repeat_all}

abbrev pub error_of : Cstring → Cstring → PlcError
error_of message stacktrace = record { message = message; stacktrace = stacktrace }

unfoldable pub receive_exception : Read PlcError
receive_exception = map_read error_of receive_cstring ⊛ receive_cstring

-- `strncmp(version, PLCONTAINER_VERSION, strlen(PLCONTAINER_VERSION)) == 0`
unfoldable pub starts_with : List ℕ → List ℕ → Bool
starts_with [] s = true
starts_with (v ∷ vs) [] = false
starts_with (v ∷ vs) (b ∷ bs) = v == b && starts_with vs bs

-- A version that is NULL is compared all the same.
unfoldable pub check_version : List ℕ → Cstring → Read Message
unfolding starts_with
check_version version none = misuse
check_version version (some s) = if starts_with version s then give Message.ping else raise

unfoldable pub receive_ping : List ℕ → Read Message
unfolding check_version
receive_ping version = or_return receive_cstring (check_version version)

-- A column's type and name are both read before the result is looked at.
abbrev pub column_of : PlcType → Cstring → Column
column_of type name = record { type = type; name = name }

unfoldable pub receive_column : ℕ → Read Column
receive_column fuel = map_read column_of (receive_whole_type fuel) ⊛ receive_cstring

-- The inner loop goes on after a failure.
unfoldable pub receive_row : List Column → Read Raws
receive_row [] = give Raws.nil
receive_row (c ∷ cs) =
    map_read {B = Raws → Raws} Raws.cons (receive_raw_object c.type) ⊛ receive_row cs

abbrev pub Table : Type 0
Table = ℕ × List Column × List Raws

abbrev pub table_of : ℕ → List Column → List Raws → Table
table_of rows columns cells = (rows, columns, cells)

unfoldable pub receive_cells : ℕ → List Column → Read Table
unfolding receive_row
receive_cells rows columns =
    map_read (table_of rows columns) (repeat [] ◌∷◌ rows (receive_row columns))

unfoldable pub receive_table : ℕ → ℕ → ℕ → Read Table
unfolding receive_column receive_cells
receive_table fuel rows cols =
    if cols == 0
    then give (rows, [], [])
    else or_return (repeat [] ◌∷◌ cols (receive_column fuel)) (receive_cells rows)

abbrev pub counts_of : ℕ → ℕ → ℕ × ℕ
counts_of rows cols = (rows, cols)

unfoldable pub receive_body : ℕ → Option (ℕ × ℕ) → Read Table
unfolding receive_table
receive_body fuel none = fail
receive_body fuel (some (rows, cols)) = receive_table fuel rows cols

abbrev pub result_of : Table → QueryResult
result_of (rows, columns, cells) = record {
  rows = rows;
  columns = columns;
  cells = cells;
  exception = none;
}

-- `if (exc == MT_EXCEPTION)`: an exception takes the result's place, and `free_result` goes over
-- the result, also over what a failed read left unset in it.
unfoldable pub receive_result_end : Option Table → Option ℕ → Read Message
receive_result_end table none = misuse
receive_result_end (some table) (some exc) =
    if exc == b'E'
    then map_read Message.exception receive_exception
    else give (Message.result (result_of table))
receive_result_end none (some exc) =
    if exc == b'E' then receive_exception >>= (λ _. misuse) else fail

unfoldable pub receive_result : ℕ → Read Message
unfolding receive_body receive_result_end
receive_result fuel = (map_read counts_of receive_uint32 ⊛ receive_uint32) >>= λ header.
    receive_body fuel header >>= λ table. receive_char >>= receive_result_end table

unfoldable pub receive_log : Read Message
receive_log = map_read {B = Cstring → Message} Message.log receive_int32 ⊛ receive_cstring

unfoldable pub receive_quote : Read Message
receive_quote = map_read {B = Cstring → Message} Message.quote receive_int32 ⊛ receive_cstring

unfoldable pub receive_quote_result : Read Message
receive_quote_result =
    map_read {B = Cstring → Message} Message.quote_result receive_int32 ⊛ receive_cstring

unfoldable pub receive_sql_statement : Read Sql
receive_sql_statement = map_read {B = Cstring → Sql} statement receive_int64 ⊛ receive_cstring

-- The rest of `receive_sql_prepare` once `nargs` was read; a negative one ends the function.
unfoldable pub prepare_of_nargs : ℕ → ℕ → Read Sql
prepare_of_nargs fuel nargs =
    if is_negative nargs
    then fail
    else map_read {B = Cstring → Sql} prepare (repeat_all nargs (receive_argument fuel))
      ⊛ receive_cstring

-- `nargs` is compared whether or not it was received.
unfoldable pub receive_sql_prepare : ℕ → Read Sql
unfolding prepare_of_nargs
receive_sql_prepare fuel = use_after receive_int32 (prepare_of_nargs fuel)

unfoldable pub receive_sql_unprepare : Read Sql
receive_sql_unprepare = map_read unprepare receive_int64

unfoldable pub pexecute_of_nargs : ℕ → ℕ → Read Sql
pexecute_of_nargs fuel nargs =
    if is_negative nargs
    then fail
    else map_read {B = ℕ → ℕ → Sql} pexecute (repeat_all nargs (receive_argument fuel))
      ⊛ receive_int64
      ⊛ receive_int64

unfoldable pub receive_sql_pexecute : ℕ → Read Sql
unfolding pexecute_of_nargs
receive_sql_pexecute fuel = use_after receive_int32 (pexecute_of_nargs fuel)

unfoldable pub receive_sql_by_type : ℕ → ℕ → Read Sql
unfolding receive_sql_statement receive_sql_prepare receive_sql_unprepare receive_sql_pexecute
receive_sql_by_type fuel sql_type =
    if sql_type == 1
    then receive_sql_statement
    else if sql_type == 5
    then receive_sql_prepare fuel
    else if sql_type == 7
    then receive_sql_unprepare
    else if sql_type == 6
    then receive_sql_pexecute fuel
    else raise

unfoldable pub receive_sql : ℕ → Read Message
unfolding receive_sql_by_type
receive_sql fuel = map_read Message.sql (or_return receive_int32 (receive_sql_by_type fuel))

unfoldable pub raw_of_size : ℕ → Read Message
raw_of_size size = if is_negative size then fail else map_read Message.raw (receive_raw size)

-- `size` is compared whether or not it was received.
unfoldable pub receive_rawmsg : Read Message
unfolding raw_of_size
receive_rawmsg = use_after receive_int32 raw_of_size

unfoldable pub receive_subtransaction : Read Message
receive_subtransaction =
    map_read {B = ℕ → Message} Message.subtransaction receive_char ⊛ receive_char

unfoldable pub receive_subtransaction_result : Read Message
receive_subtransaction_result = map_read Message.subtran_result receive_int16

-- The fields before the arguments, and `nargs`.
abbrev pub CallHead : Type 0
CallHead = CallReq × ℕ

abbrev pub call_head : Cstring → Cstring → Cstring → ℕ → ℕ → ℕ → PlcType → ℕ → ℕ → CallHead
call_head name src serverenc log_level objectid has_changed ret_type retset nargs = (
  record {
    proc_name = name;
    proc_src = src;
    serverenc = serverenc;
    log_level = log_level;
    objectid = objectid;
    has_changed = has_changed;
    ret_type = ret_type;
    retset = retset;
    args = [];
  },
  nargs,
)

abbrev pub with_args : CallReq → List Argument → Message
with_args call args = Message.callreq (record call { args = args })

unfoldable pub call_arguments : ℕ → CallHead → Read Message
call_arguments fuel (call, nargs) =
    if is_negative nargs
    then fail
    else map_read (with_args call) (repeat [] ◌∷◌ nargs (receive_argument fuel))

unfoldable pub receive_call_head : ℕ → Read CallHead
receive_call_head fuel =
    map_read call_head receive_cstring
    ⊛ receive_cstring
    ⊛ receive_cstring
    ⊛ receive_int32
    ⊛ receive_uint32
    ⊛ receive_int32
    ⊛ receive_whole_type fuel
    ⊛ receive_int32
    ⊛ receive_int32

unfoldable pub receive_call : ℕ → Read Message
unfolding receive_call_head call_arguments
receive_call fuel = or_return (receive_call_head fuel) (call_arguments fuel)

-- `mask & (1 << bit)`
abbrev pub expects : ℕ → ℕ → Bool
expects mask bit = mask / 2 ^ bit % 2 == 1

abbrev pub if_expected : ℕ → ℕ → Read Message → Read Message
if_expected mask bit m = if expects mask bit then m else raise

-- The `switch`; both of its error exits log at level ERROR.
unfoldable pub receive_by_type : List ℕ → ℕ → ℕ → ℕ → Read Message
unfolding receive_ping receive_call receive_result receive_exception receive_log receive_quote
    receive_quote_result receive_sql receive_rawmsg receive_subtransaction
    receive_subtransaction_result
receive_by_type version mask fuel c_type =
    if c_type == b'P'
    then if_expected mask 3 (receive_ping version)
    else if c_type == b'C'
    then if_expected mask 0 (receive_call fuel)
    else if c_type == b'R'
    then if_expected mask 4 (receive_result fuel)
    else if c_type == b'E'
    then if_expected mask 1 (map_read Message.exception receive_exception)
    else if c_type == b'L'
    then if_expected mask 2 receive_log
    else if c_type == b'Q'
    then if_expected mask 13 receive_quote
    else if c_type == b'O'
    then if_expected mask 14 receive_quote_result
    else if c_type == b'S'
    then if_expected mask 5 (receive_sql fuel)
    else if c_type == b'W'
    then if_expected mask 9 receive_rawmsg
    else if c_type == b'N'
    then if_expected mask 10 receive_subtransaction
    else if c_type == b'Z'
    then if_expected mask 11 receive_subtransaction_result
    else raise

abbrev pub with_timeout : ℕ → Action Conn (Unit {0})
with_timeout seconds c = done tt (record c { rx_timeout_sec = seconds })

-- The wait for a message has the longest timeout, the rest of it TIMEOUT_SEC.
unfoldable pub channel_receive : List ℕ → ℕ → ℕ → Read Message
unfolding receive_by_type
channel_receive version mask fuel = with_timeout 0x7fff_ffff >>= λ _.
    receive_message_type >>= λ c_type. with_timeout 20 >>= λ _. elim c_type [
      | some c ↦ receive_by_type version mask fuel c
      | none ↦ fail
    ]

-- A type that is nested deeper than there are bytes to come cannot be received.
unfoldable pub plcontainer_channel_receive : List ℕ → ℕ → Read Message
unfolding channel_receive
plcontainer_channel_receive version mask c =
    channel_receive version mask (suc (length (available c))) c
