-- ===== src/Channel/RoundTrip.antt =====
-- `plcontainer_channel_send` and `plcontainer_channel_receive` of src/common/comm_channel.c, each at
-- its end of a connection.
use plcontainer.Common.{
  ℕ, suc, ◌≤◌, true, some, List, [], ◌++◌, length, ◌≡◌, sym, ap, ◌∙◌, arith, length-append,
}
use plcontainer.Outcome.{done}
use plcontainer.Connectivity.Conn.{Conn, success, outgoing, available}
use plcontainer.Connectivity.Conn.Write.{IsReady}
use plcontainer.Connectivity.Conn.Read.{IsLive, Reads}
use plcontainer.Message.Struct.{Message, Argument}
use plcontainer.Message.Datatype.{PlcType}
use plcontainer.Message.Value.{Raw}
use plcontainer.Channel.Action.{Write, Read}
use plcontainer.Channel.Action.Sends.{Sends}
use plcontainer.Channel.Action.Receives.{Receives}
use plcontainer.Channel.TypeInfo.{send_type, receive_whole_type}
use plcontainer.Channel.TypeInfo.Encoding.{encode_type, IsType, Sends-type}
use plcontainer.Channel.TypeInfo.Encoding.Depth.{depth-encode_type}
use plcontainer.Channel.Object.{send_raw_object, receive_raw_object}
use plcontainer.Channel.Object.Encoding.{IsRawOf}
use plcontainer.Channel.Object.Encoding.Send.{Sends-raw_object}
use plcontainer.Channel.Object.Encoding.Receive.{Receives-raw_object}
use plcontainer.Channel.Argument.{send_arguments, receive_argument, repeat_all}
use plcontainer.Channel.Argument.Encoding.{AreArguments, Sends-arguments, Receives-repeat_all}
use plcontainer.Channel.Send.{plcontainer_channel_send}
use plcontainer.Channel.Send.Encoding.{encode_message, IsMessage}
use plcontainer.Channel.Send.Encoding.Nesting.{IsMessage-length}
use plcontainer.Channel.Send.Encoding.Whole.{channel_send-Delivers}
use plcontainer.Channel.Receive.{expects, plcontainer_channel_receive}
use plcontainer.Channel.Receive.Parts.{arrives, Receives-whole_type}
use plcontainer.Channel.Receive.Whole.{mask_bit, channel_receive-Receives}

-- What one end appends the other reads.
appended_is_read :
    {A : Type 0} {bs : List ℕ} {a : A} {m : Write} {k : Read A}
    → Sends bs m
    → Receives bs a k
    → (sender sent : Conn) → IsReady sender
    → outgoing sender ≡ []
    → m sender ≡ done success sent
    → (receiver : Conn) (later : List ℕ) → IsLive receiver
    → available receiver ≡ outgoing sent ++ later
    → Reads (some a) later k receiver
appended_is_read {bs} s r sender sent ready empty e receiver later l a =
    let w = s.at sender ready in
    let same : w.after ≡ sent = cc in
    let bytes : outgoing sent ≡ bs =
      ap outgoing (sym same) ∙ w.delivers ∙ ap (λ l. l ++ bs) empty in
    r.at later receiver l (a ∙ ap (λ l. l ++ later) bytes)

-- A value of its type (an array's dimensions give its number of elements, and no array is in an
-- array) is appended to a connection where no `send` fails and that nothing was appended to. The peer that is sent what was
-- appended, in segments of any size, and any bytes after it, receives the value by the same type
-- and is left with exactly the bytes after it.
pub raw_object_round_trip :
    (t : PlcType) (r : Raw)
    → IsRawOf t r
    → (sender sent : Conn) → IsReady sender
    → outgoing sender ≡ []
    → send_raw_object t r sender ≡ done success sent
    → (receiver : Conn) (later : List ℕ) → IsLive receiver
    → available receiver ≡ outgoing sent ++ later
    → Reads (some r) later (receive_raw_object t) receiver
raw_object_round_trip t r h = appended_is_read (Sends-raw_object t r h) (Receives-raw_object t r h)

-- A type that the protocol can carry is appended to a connection where no `send` fails and that
-- nothing was appended to. The peer that is sent what was appended, in segments of any size, and any
-- bytes after it, receives the type, with fuel for as many levels as bytes were appended, and is
-- left with exactly the bytes after it.
pub type_round_trip :
    (t : PlcType)
    → IsType t
    → (sender sent : Conn) → IsReady sender
    → outgoing sender ≡ []
    → send_type t sender ≡ done success sent
    → (fuel : ℕ) → length (outgoing sent) ≤ fuel
    → (receiver : Conn) (later : List ℕ) → IsLive receiver
    → available receiver ≡ outgoing sent ++ later
    → Reads (some t) later (receive_whole_type fuel) receiver
type_round_trip t h sender sent ready empty e fuel enough =
    let w = (Sends-type t h).at sender ready in
    let same : w.after ≡ sent = cc in
    let bytes : outgoing sent ≡ encode_type t =
      ap outgoing (sym same) ∙ w.delivers ∙ ap (λ l. l ++ encode_type t) empty in
    appended_is_read (Sends-type t h)
      (Receives-whole_type fuel t h (omega (arith, ap length bytes, enough, depth-encode_type t h)))
      sender sent ready empty e

-- Arguments that the protocol can carry, nested at most `fuel` deep, are appended to a connection
-- where no `send` fails and that nothing was appended to. The peer that is sent what was appended, in
-- segments of any size, and any bytes after it, receives the arguments by as many calls of
-- `receive_argument`, and is left with exactly the bytes after them.
pub arguments_round_trip :
    (fuel : ℕ) (args : List Argument)
    → AreArguments fuel args
    → (sender sent : Conn) → IsReady sender
    → outgoing sender ≡ []
    → send_arguments args sender ≡ done success sent
    → (receiver : Conn) (later : List ℕ) → IsLive receiver
    → available receiver ≡ outgoing sent ++ later
    → Reads (some args) later (repeat_all (length args) (receive_argument fuel)) receiver
arguments_round_trip fuel args h =
    appended_is_read (Sends-arguments fuel args h) (Receives-repeat_all fuel args h)

module _ (version : List ℕ) (mask fuel : ℕ) (m : Message) (h : IsMessage version fuel m)
    (e : expects mask (mask_bit m) ≡ true) where
  plcontainer_channel_receive-Receives :
      Receives (encode_message version m) (arrives m) (plcontainer_channel_receive version mask)
  unfolding plcontainer_channel_receive
  plcontainer_channel_receive-Receives = record {
    at = λ rest c l a.
        let n = suc (length (available c)) in
        let enough =
          IsMessage-length version fuel n m h
            (omega (arith, ap length a, length-append (encode_message version m) rest)) in
        let w = (channel_receive-Receives version mask n m enough e).at rest c l a in
        record { after = w.after; returns = w.returns; live = w.live; leaves = w.leaves };
  }

  -- A message that the protocol can carry is sent on a connection where no `send` fails and with
  -- nothing in the kernel or the output buffer yet. Then the peer that is sent what reached the
  -- kernel, in segments of any size, and any bytes after it, and whose mask expects the message,
  -- receives the message (its exception in place of a result that carries one) and is left with
  -- exactly the bytes after it.
  pub channel_round_trip :
      (sender sent : Conn)
      → IsReady sender
      → outgoing sender ≡ []
      → plcontainer_channel_send version m sender ≡ done success sent
      → (receiver : Conn) (later : List ℕ) → IsLive receiver
      → available receiver ≡ sent.wire ++ later
      → Reads (some (arrives m)) later (plcontainer_channel_receive version mask) receiver
  channel_round_trip sender sent r empty s receiver later l a =
      let d = channel_send-Delivers version fuel m h sender r in
      let same : d.after ≡ sent = cc in
      let on_wire : sent.wire ≡ encode_message version m =
        ap (λ (c : Conn). c.wire) (sym same)
        ∙ d.on_wire
        ∙ ap (λ l. l ++ encode_message version m) empty in
      plcontainer_channel_receive-Receives.at later receiver l (a ∙ ap (λ l. l ++ later) on_wire)
