-- ===== src/Channel/Send/Encoding/Whole.antt =====
-- That `plcontainer_channel_send` of src/common/comm_channel.c delivers the message it is given.
use plcontainer.Common.{ℕ, some, List, length}
use plcontainer.Connectivity.Conn.{Conn}
use plcontainer.Connectivity.Conn.Write.{IsReady}
use plcontainer.Message.Struct.{Message}
use plcontainer.Channel.Word.{le_bytes}
use plcontainer.Channel.Primitive.{message_start, message_end, send_char, send_int16, send_int32}
use plcontainer.Channel.Primitive.Encoding.{Sends-cstring}
use plcontainer.Channel.Action.Sends.{Sends-append, Sends-|=, Delivers, Delivers-end}
use plcontainer.Channel.Send.{
  send_ping, send_log, send_quote, send_quote_result, send_rawmsg, send_subtransaction,
  send_subtransaction_result, plcontainer_channel_send,
}
use plcontainer.Channel.Send.Encoding.{encode_message, IsMessage}
use plcontainer.Channel.Send.Encoding.Parts.{
  Delivers-exception, Delivers-result, Delivers-call, Delivers-sql, Sends-chars,
}

-- On a connection where no `send` fails, `plcontainer_channel_send` succeeds for every message
-- that the protocol can carry; afterwards the kernel has got what was buffered before and then
-- the bytes of the message's wire format, and the output buffer is empty.
pub channel_send-Delivers :
    (version : List ℕ) (fuel : ℕ) (m : Message)
    → IsMessage version fuel m
    → (c : Conn) → IsReady c
    → Delivers (encode_message version m) (plcontainer_channel_send version m) c
unfolding plcontainer_channel_send send_ping send_log send_quote send_quote_result send_rawmsg
    send_subtransaction send_subtransaction_result encode_message message_start message_end
    send_char send_int16 send_int32
channel_send-Delivers version fuel Message.ping h c r =
    Delivers-end (Sends-|= (Sends-append (le_bytes 1 b'P')) (Sends-cstring (some version) h)) c r
channel_send-Delivers version fuel (Message.callreq call) h c r = Delivers-call fuel c r call h
channel_send-Delivers version fuel (Message.result ret) h c r = Delivers-result fuel c r ret h
channel_send-Delivers version fuel (Message.exception err) h c r = Delivers-exception c r err h
channel_send-Delivers version fuel (Message.log level message) h c r =
    Delivers-end
      (Sends-|= (Sends-|= (Sends-append (le_bytes 1 b'L')) (Sends-append (le_bytes 4 level)))
        (Sends-cstring message h.1))
      c r
channel_send-Delivers version fuel (Message.quote quote_type msg) h c r =
    Delivers-end
      (Sends-|= (Sends-|= (Sends-append (le_bytes 1 b'Q')) (Sends-append (le_bytes 4 quote_type)))
        (Sends-cstring msg h.1))
      c r
channel_send-Delivers version fuel (Message.quote_result quote_type result) h c r =
    Delivers-end
      (Sends-|= (Sends-|= (Sends-append (le_bytes 1 b'O')) (Sends-append (le_bytes 4 quote_type)))
        (Sends-cstring result h.1))
      c r
channel_send-Delivers version fuel (Message.sql msg) h c r = Delivers-sql fuel c r msg h
channel_send-Delivers version fuel (Message.raw bytes) h c r =
    Delivers-end
      (Sends-|=
        (Sends-|= (Sends-append (le_bytes 1 b'W')) (Sends-append (le_bytes 4 (length bytes))))
        (Sends-chars bytes))
      c r
channel_send-Delivers version fuel (Message.subtransaction action type) h c r =
    Delivers-end
      (Sends-|= (Sends-|= (Sends-append (le_bytes 1 b'N')) (Sends-append (le_bytes 1 action)))
        (Sends-append (le_bytes 1 type)))
      c r
channel_send-Delivers version fuel (Message.subtran_result result) h c r =
    Delivers-end (Sends-|= (Sends-append (le_bytes 1 b'Z')) (Sends-append (le_bytes 2 result))) c r
channel_send-Delivers version fuel (Message.unhandled msgtype) h c r = absurd h
