-- ===== src/Channel/Argument.antt =====
-- `send_argument` and `receive_argument` of src/common/comm_channel.c and their loops.
pub mod Encoding
use plcontainer.Common.{ℕ, zero, suc, Option, none, some, List, [], ◌∷◌}
use plcontainer.Outcome.{Action, pure, ◌>>=◌}
use plcontainer.Connectivity.Conn.{Conn, Status, success}
use plcontainer.Message.Datatype.{Cstring, Datatype, PlcType, plc_type, PlcTypes}
use plcontainer.Message.Value.{Raw, null}
use plcontainer.Message.Struct.{Argument}
use plcontainer.Channel.Action.{Write, Read, ◌|=◌, ◌⊛◌, map_read, give}
use plcontainer.Channel.Primitive.{send_cstring, receive_cstring}
use plcontainer.Channel.TypeInfo.{Fetched, whole, part, send_type, receive_type}
use plcontainer.Channel.Object.{send_raw_object, receive_raw_object}

unfoldable pub send_argument : Argument → Write
send_argument arg =
    send_cstring arg.name |= send_type arg.type |= send_raw_object arg.type arg.value

-- `for (i = 0; i < nargs; i++) res |= send_argument(conn, &args[i]);`
unfoldable pub send_arguments : List Argument → Write
unfolding send_argument
send_arguments [] = pure success
send_arguments (a ∷ args) = send_argument a |= send_arguments args

abbrev pub argument_of : Option Cstring → Fetched PlcType → Option Raw → Option Argument
argument_of (some name) (whole type) (some value) =
    some (record { name = name; type = type; value = value })
argument_of (some name) (whole type) none = none
argument_of (some name) (part type) value = none
argument_of none type value = none

abbrev pub fetched : Fetched PlcType → PlcType
fetched (whole t) = t
fetched (part t) = t

-- The value is read by what `receive_type` left, also where a read before it failed.
unfoldable pub receive_argument : ℕ → Read Argument
receive_argument fuel = receive_cstring >>= λ name. receive_type fuel >>= λ type.
    receive_raw_object (fetched type) >>= λ value. pure (argument_of name type value)

-- `for (i = 0; i < n; i++) res |= m;`
module _ {A : Type 0} where
  unfoldable pub repeat_all : ℕ → Read A → Read (List A)
  repeat_all zero m = give []
  repeat_all (suc n) m = map_read ◌∷◌ m ⊛ repeat_all n m

-- `fill_prepare_argument`; `none` is its error for a string that is NULL.
unfoldable pub fill_prepare_argument : Cstring → Datatype → Option Argument
fill_prepare_argument none plc_data = none
fill_prepare_argument (some str) plc_data =
    some (record { name = none; type = plc_type plc_data (some str) PlcTypes.nil; value = null })
