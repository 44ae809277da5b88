-- ===== src/Tests/Messages.antt =====
-- Examples for the messages of src/common/comm_channel.c.
use mathlib.Core.Bool.{xor}
use plcontainer.Common.{
  ◌≤◌, ◌<◌, ◌⊎◌, ℕ, ◌-◌, ◌^◌, none, some, List, [], ◌∷◌, ◌++◌, length, ◌≡◌, refl, sym, ap, ap₂, ◌∙◌,
  arith,
}
use plcontainer.Outcome.{done, raised, undefined}
use plcontainer.Connectivity.Buffer.{plc_buffer_init}
use plcontainer.Connectivity.Buffer.Laws.{plc_buffer_init-IsValid}
use plcontainer.Connectivity.Socket.{chunk, stream}
use plcontainer.Connectivity.Conn.{Conn, outgoing, available, success}
use plcontainer.Connectivity.Conn.Read.{IsLive, Reads}
use plcontainer.Message.Datatype.{
  Datatype, PlcType, plc_type, PlcTypes, int2, to_code, plc_get_type_length,
}
use plcontainer.Message.Value.{Raw, Value, Raws, datum, null, scalar}
use plcontainer.Message.Struct.{Message, Argument}
use plcontainer.Channel.Word.{le_bytes}
use plcontainer.Channel.Action.Sends.{Delivers}
use plcontainer.Channel.Primitive.{receive_bytea, receive_cstring}
use plcontainer.Channel.Primitive.Encoding.{encode_cstring}
use plcontainer.Channel.Argument.{send_arguments, receive_argument, repeat_all}
use plcontainer.Channel.Argument.Encoding.{
  AreArguments, Sends-arguments, encode_arguments, encode_argument,
}
use plcontainer.Channel.TypeInfo.{send_type, receive_whole_type}
use plcontainer.Channel.TypeInfo.Encoding.{
  Sends-type, IsType, depth, depth_all, encode_type, encode_types,
}
use plcontainer.Channel.Object.{send_raw_object, receive_raw_object}
use plcontainer.Channel.Object.Encoding.{
  IsRawOf, dims_size, encode_raw, encode_value, encode_items, encode_dims,
}
use plcontainer.Channel.Object.{times}
use plcontainer.Channel.Object.Encoding.Send.{Sends-raw_object}
use plcontainer.Channel.Send.{plcontainer_channel_send}
use plcontainer.Channel.Send.Encoding.{encode_message, IsMessage}
use plcontainer.Channel.Send.Encoding.Whole.{channel_send-Delivers}
use plcontainer.Channel.Receive.{plcontainer_channel_receive}
use plcontainer.Channel.Receive.Errors.{
  plcontainer_channel_receive-unexpected, receive_bytea-negative,
}
use plcontainer.Channel.RoundTrip.{
  channel_round_trip, raw_object_round_trip, type_round_trip, arguments_round_trip,
}
use plcontainer.Tests.{sender, receiver, sender-IsReady, outgoing-sender}

abbrev version : List ℕ
version = b'2' ∷ []

abbrev warning : Message
warning = Message.log 19 (some (b'h' ∷ b'i' ∷ []))

warning-IsMessage : IsMessage version 0 warning
warning-IsMessage = (omega arith, (omega arith, (omega arith, (omega arith, tt))))

channel_send-Delivers_example :
    Delivers (encode_message version warning) (plcontainer_channel_send version warning) sender
channel_send-Delivers_example =
    channel_send-Delivers version 0 warning warning-IsMessage sender sender-IsReady

sent_warning : Conn
sent_warning =
    (channel_send-Delivers version 0 warning warning-IsMessage sender sender-IsReady).after

-- The bytes of the warning in two segments, and a byte of the next message.
abbrev warning_receiver : Conn
warning_receiver =
    receiver (chunk b'L' (19 ∷ 0 ∷ 0 ∷ 0 ∷ 2 ∷ []) ∷ chunk 0 (0 ∷ 0 ∷ b'h' ∷ b'i' ∷ b'L' ∷ []) ∷ [])

warning_receiver-IsLive : IsLive warning_receiver
warning_receiver-IsLive = record { valid = plc_buffer_init-IsValid; delivers = (tt, (tt, tt)) }

warning_bytes : available warning_receiver ≡ encode_message version warning ++ (b'L' ∷ [])
unfolding plc_buffer_init stream encode_message encode_cstring le_bytes
warning_bytes = refl

warning_on_wire : available warning_receiver ≡ sent_warning.wire ++ (b'L' ∷ [])
unfolding sent_warning
warning_on_wire =
    let d = channel_send-Delivers version 0 warning warning-IsMessage sender sender-IsReady in
    warning_bytes
    ∙ ap (λ l. l ++ (b'L' ∷ []))
        (sym (d.on_wire ∙ ap (λ l. l ++ encode_message version warning) outgoing-sender))

warning_sent : plcontainer_channel_send version warning sender ≡ done success sent_warning
unfolding sent_warning
warning_sent =
    (channel_send-Delivers version 0 warning warning-IsMessage sender sender-IsReady).returns

channel_round_trip_example :
    Reads (some warning) (b'L' ∷ []) (plcontainer_channel_receive version 0x7fff) warning_receiver
channel_round_trip_example =
    channel_round_trip version 0x7fff 0 warning warning-IsMessage refl sender sent_warning
      sender-IsReady outgoing-sender warning_sent warning_receiver (b'L' ∷ [])
      warning_receiver-IsLive warning_on_wire

abbrev after_type : List ℕ
after_type = 19 ∷ 0 ∷ 0 ∷ 0 ∷ 2 ∷ 0 ∷ 0 ∷ 0 ∷ b'h' ∷ b'i' ∷ b'L' ∷ []

type_first : available warning_receiver ≡ le_bytes 1 b'L' ++ after_type
unfolding plc_buffer_init stream le_bytes
type_first = refl

plcontainer_channel_receive-unexpected_example :
    (d : Conn) × (plcontainer_channel_receive version 1 warning_receiver ≡ raised d)
    × (available d ≡ after_type)
plcontainer_channel_receive-unexpected_example =
    plcontainer_channel_receive-unexpected version 1 warning refl warning_receiver after_type
      warning_receiver-IsLive type_first

-- The length -2, and a byte.
abbrev minus_two : Conn
minus_two = receiver (chunk 254 (255 ∷ 255 ∷ 255 ∷ 7 ∷ []) ∷ [])

minus_two_bytes : available minus_two ≡ le_bytes 4 (2 ^ 32 - 2) ++ (7 ∷ [])
unfolding plc_buffer_init stream le_bytes
minus_two_bytes = refl

receive_bytea-negative_example :
    (((2 ^ 32 - 4 ≤ 2 ^ 32 - 2) × (receive_bytea minus_two ≡ undefined))
      ⊎ ((2 ^ 32 - 2 < 2 ^ 32 - 4) × ((d : Conn) × (receive_bytea minus_two ≡ raised d))))
    × ((d : Conn) × (receive_cstring minus_two ≡ done none d) × (available d ≡ 7 ∷ []))
receive_bytea-negative_example =
    receive_bytea-negative (2 ^ 32 - 2) (omega arith) (omega arith) minus_two (7 ∷ [])
      (record { valid = plc_buffer_init-IsValid; delivers = (tt, tt) }) minus_two_bytes

abbrev short_type : PlcType
short_type = plc_type int2 none PlcTypes.nil

abbrev short_list : PlcType
short_list = plc_type Datatype.array none (PlcTypes.cons short_type PlcTypes.nil)

-- `{300, NULL}`
abbrev two_shorts : Raw
two_shorts = datum (Value.array (2 ∷ []) (Raws.cons (datum (scalar 300)) (Raws.cons null Raws.nil)))

two_shorts-IsRawOf : IsRawOf short_list two_shorts
unfolding dims_size times plc_get_type_length xor
two_shorts-IsRawOf =
    (omega arith, (omega arith, tt), refl, (2, refl, omega arith), (omega arith, (tt, tt)))

abbrev object_bytes : List ℕ
object_bytes = b'D' ∷ 1 ∷ 0 ∷ 0 ∷ 0 ∷ 2 ∷ 0 ∷ 0 ∷ 0 ∷ b'D' ∷ 44 ∷ 1 ∷ b'N' ∷ []

object_encoded : encode_raw short_list two_shorts ≡ object_bytes
unfolding encode_raw encode_value encode_items encode_dims le_bytes
object_encoded = refl

sent_object : Conn
sent_object =
    ((Sends-raw_object short_list two_shorts two_shorts-IsRawOf).at sender sender-IsReady).after

object_sent : send_raw_object short_list two_shorts sender ≡ done success sent_object
unfolding sent_object
object_sent =
    ((Sends-raw_object short_list two_shorts two_shorts-IsRawOf).at sender sender-IsReady).returns

abbrev object_receiver : Conn
object_receiver =
    receiver
      (chunk b'D' (1 ∷ 0 ∷ 0 ∷ 0 ∷ 2 ∷ []) ∷ chunk 0 (0 ∷ 0 ∷ b'D' ∷ 44 ∷ 1 ∷ b'N' ∷ 5 ∷ []) ∷ [])

object_bytes_come : available object_receiver ≡ object_bytes ++ (5 ∷ [])
unfolding plc_buffer_init stream
object_bytes_come = refl

object_on_wire : available object_receiver ≡ outgoing sent_object ++ (5 ∷ [])
unfolding sent_object
object_on_wire =
    let w = (Sends-raw_object short_list two_shorts two_shorts-IsRawOf).at sender sender-IsReady in
    object_bytes_come
    ∙ ap (λ l. l ++ (5 ∷ [])) (sym (w.delivers ∙ ap₂ ◌++◌ outgoing-sender object_encoded))

raw_object_round_trip_example :
    Reads (some two_shorts) (5 ∷ []) (receive_raw_object short_list) object_receiver
raw_object_round_trip_example =
    raw_object_round_trip short_list two_shorts two_shorts-IsRawOf sender sent_object sender-IsReady
      outgoing-sender object_sent object_receiver (5 ∷ [])
      (record { valid = plc_buffer_init-IsValid; delivers = (tt, (tt, tt)) }) object_on_wire

-- The type of the list.
short_list-IsType : IsType short_list
short_list-IsType = (tt, tt, omega arith, ((tt, tt, tt, tt), tt))

abbrev type_bytes : List ℕ
type_bytes = 7 ∷ 255 ∷ 255 ∷ 255 ∷ 255 ∷ 1 ∷ 0 ∷ 1 ∷ 255 ∷ 255 ∷ 255 ∷ 255 ∷ []

type_encoded : encode_type short_list ≡ type_bytes
unfolding encode_type encode_types to_code encode_cstring le_bytes
type_encoded = refl

sent_type : Conn
sent_type = ((Sends-type short_list short_list-IsType).at sender sender-IsReady).after

type_sent : send_type short_list sender ≡ done success sent_type
unfolding sent_type
type_sent = ((Sends-type short_list short_list-IsType).at sender sender-IsReady).returns

type_outgoing : outgoing sent_type ≡ type_bytes
unfolding sent_type
type_outgoing =
    let w = (Sends-type short_list short_list-IsType).at sender sender-IsReady in
    w.delivers ∙ ap₂ ◌++◌ outgoing-sender type_encoded

abbrev type_receiver : Conn
type_receiver =
    receiver
      (chunk 7 (255 ∷ 255 ∷ 255 ∷ 255 ∷ []) ∷ chunk 1 (0 ∷ 1 ∷ 255 ∷ 255 ∷ 255 ∷ 255 ∷ 5 ∷ []) ∷ [])

type_bytes_come : available type_receiver ≡ type_bytes ++ (5 ∷ [])
unfolding plc_buffer_init stream
type_bytes_come = refl

type_round_trip_example : Reads (some short_list) (5 ∷ []) (receive_whole_type 12) type_receiver
type_round_trip_example =
    type_round_trip short_list short_list-IsType sender sent_type sender-IsReady outgoing-sender
      type_sent 12 (omega (arith, ap length type_outgoing)) type_receiver (5 ∷ [])
      (record { valid = plc_buffer_init-IsValid; delivers = (tt, (tt, tt)) })
      (type_bytes_come ∙ ap (λ l. l ++ (5 ∷ [])) (sym type_outgoing))

-- `n = 300`
abbrev one_argument : List Argument
one_argument =
    record { name = some (b'n' ∷ []); type = short_type; value = datum (scalar 300) } ∷ []

one_argument-IsArgument : AreArguments 1 one_argument
unfolding depth depth_all
one_argument-IsArgument =
    (((omega arith, (omega arith, tt)), (tt, tt, tt, tt), omega arith, omega arith), tt)

abbrev argument_bytes : List ℕ
argument_bytes = 1 ∷ 0 ∷ 0 ∷ 0 ∷ b'n' ∷ 1 ∷ 255 ∷ 255 ∷ 255 ∷ 255 ∷ b'D' ∷ 44 ∷ 1 ∷ []

argument_encoded : encode_arguments one_argument ≡ argument_bytes
unfolding encode_arguments encode_argument encode_type to_code encode_cstring encode_raw
    encode_value le_bytes
argument_encoded = refl

sent_argument : Conn
sent_argument =
    ((Sends-arguments 1 one_argument one_argument-IsArgument).at sender sender-IsReady).after

argument_sent : send_arguments one_argument sender ≡ done success sent_argument
unfolding sent_argument
argument_sent =
    ((Sends-arguments 1 one_argument one_argument-IsArgument).at sender sender-IsReady).returns

abbrev argument_receiver : Conn
argument_receiver = receiver (
    chunk 1 (0 ∷ 0 ∷ 0 ∷ b'n' ∷ 1 ∷ 255 ∷ 255 ∷ []) ∷ chunk 255 (255 ∷ b'D' ∷ 44 ∷ 1 ∷ 5 ∷ []) ∷ [])

argument_bytes_come : available argument_receiver ≡ argument_bytes ++ (5 ∷ [])
unfolding plc_buffer_init stream
argument_bytes_come = refl

argument_on_wire : available argument_receiver ≡ outgoing sent_argument ++ (5 ∷ [])
unfolding sent_argument
argument_on_wire =
    let w = (Sends-arguments 1 one_argument one_argument-IsArgument).at sender sender-IsReady in
    argument_bytes_come
    ∙ ap (λ l. l ++ (5 ∷ [])) (sym (w.delivers ∙ ap₂ ◌++◌ outgoing-sender argument_encoded))

arguments_round_trip_example :
    Reads (some one_argument) (5 ∷ []) (repeat_all 1 (receive_argument 1)) argument_receiver
arguments_round_trip_example =
    arguments_round_trip 1 one_argument one_argument-IsArgument sender sent_argument sender-IsReady
      outgoing-sender argument_sent argument_receiver (5 ∷ [])
      (record { valid = plc_buffer_init-IsValid; delivers = (tt, (tt, tt)) }) argument_on_wire
