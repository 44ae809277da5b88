-- ===== src/Channel/Receive/Whole.antt =====
-- That `plcontainer_channel_receive` of src/common/comm_channel.c reads the messages of the wire format.
use plcontainer.Common.{
  ℕ, ◌<◌, ◌==◌, true, none, some, List, [], ◌∷◌, ◌++◌, length, ◌≡◌, refl, sym, subst, ap, ◌∙◌,
  arith, append-nil, length-append,
}
use plcontainer.Outcome.{◌>>=◌}
use plcontainer.Connectivity.Conn.Read.{plc_buffer_receive-Filled}
use plcontainer.Message.Datatype.{Cstring}
use plcontainer.Message.Struct.{Message}
use plcontainer.Channel.Word.{le_bytes, length-le_bytes}
use plcontainer.Channel.Action.{Read, fail}
use plcontainer.Channel.Action.Receives.{
  Yields, Receives, Yields-bind, Receives-map_read, Receives-or_return, Receives-⊛, Receives-give,
}
use plcontainer.Channel.Primitive.{receive_message_type, receive_char, receive_int16, receive_int32}
use plcontainer.Channel.Primitive.Encoding.{
  encode_cstring, IsCstring, Receives-cstring, Receives-word,
}
use plcontainer.Channel.Receive.{
  starts_with, check_version, receive_ping, receive_log, receive_quote, receive_quote_result,
  receive_subtransaction, receive_subtransaction_result, expects, if_expected, receive_by_type,
  with_timeout, channel_receive,
}
use plcontainer.Channel.Receive.Parts.{arrives, Receives-exception, Receives-result, Receives-call}
use plcontainer.Channel.Receive.Queries.{Receives-sql, Receives-rawmsg}
use plcontainer.Channel.Send.Encoding.{encode_message, IsMessage}
use plcontainer.Channel.Send.Encoding.Split.{code_of, code_of-byte, body, encode_message-split}

starts_with_self : (v : List ℕ) → starts_with v v ≡ true
unfolding starts_with
starts_with_self [] = refl
starts_with_self (b ∷ bs) = rw (let e : (b == b) ≡ true = ground arith in e) (starts_with_self bs)

Receives-ping :
    (version : List ℕ)
    → IsCstring (some version)
    → Receives (encode_cstring (some version)) Message.ping (receive_ping version)
unfolding receive_ping check_version
Receives-ping version h = simp append-nil at (
    Receives-or_return (Receives-cstring (some version) h) {cs = []} {b = Message.ping}
      (check_version version) (rw (starts_with_self version) (Receives-give Message.ping)))

pub Receives-type : (code : ℕ) → code < 256 → Receives (le_bytes 1 code) code receive_message_type
unfolding receive_message_type
Receives-type code h = record {
  at = λ rest c l e.
      let f = plc_buffer_receive-Filled 1 c l (
        omega (arith, ap length e, length-append (le_bytes 1 code) rest, length-le_bytes 1 code)) in
      let w = (Receives-word 1 code (omega arith)).at rest f.after f.live (f.keeps ∙ e) in
      record {
        after = w.after;
        returns = rw f.returns w.returns;
        live = w.live;
        leaves = w.leaves;
      };
}

Yields-timeout : (seconds : ℕ) → Yields [] tt (with_timeout seconds)
Yields-timeout seconds = record {
  at = λ rest c l e. record {
    after = record c { rx_timeout_sec = seconds };
    returns = refl;
    live = record { valid = l.valid; delivers = l.delivers };
    leaves = e;
  };
}

-- The bit of `mask` that lets a message through.
abbrev pub mask_bit : Message → ℕ
mask_bit Message.ping = 3
mask_bit (Message.callreq call) = 0
mask_bit (Message.result ret) = 4
mask_bit (Message.exception err) = 1
mask_bit (Message.log level message) = 2
mask_bit (Message.quote quote_type msg) = 13
mask_bit (Message.quote_result quote_type result) = 14
mask_bit (Message.sql msg) = 5
mask_bit (Message.raw bytes) = 9
mask_bit (Message.subtransaction action type) = 10
mask_bit (Message.subtran_result result) = 11
mask_bit (Message.unhandled msgtype) = 15

module _ (version : List ℕ) (mask fuel : ℕ) where
  by_type :
      (code : ℕ)
      → code < 256
      → {bs : List ℕ} {m : Message} → Receives bs m (receive_by_type version mask fuel code)
      → Receives (le_bytes 1 code ++ bs) m (channel_receive version mask fuel)
  unfolding channel_receive
  by_type code h r =
      Yields-bind
        (λ _. receive_message_type >>= λ c_type. with_timeout 20 >>= λ _. elim c_type [
          | some c ↦ receive_by_type version mask fuel c
          | none ↦ fail
        ])
        (Yields-timeout 0x7fff_ffff)
        (Yields-bind
          (λ c_type. with_timeout 20 >>= λ _. elim c_type [
            | some c ↦ receive_by_type version mask fuel c
            | none ↦ fail
          ])
          (Receives-type code h)
          (Yields-bind (λ _. receive_by_type version mask fuel code) (Yields-timeout 20) r))

  expected :
      (bit : ℕ) {bs : List ℕ} {m : Message} {k : Read Message}
      → expects mask bit ≡ true
      → Receives bs m k
      → Receives bs m (if_expected mask bit k)
  expected bit e r = rw e r

  Receives-body :
      (m : Message)
      → IsMessage version fuel m
      → expects mask (mask_bit m) ≡ true
      → Receives (body version m) (arrives m) (receive_by_type version mask fuel (code_of m))
  unfolding receive_by_type receive_log receive_quote receive_quote_result receive_subtransaction
      receive_subtransaction_result receive_char receive_int16 receive_int32
  Receives-body Message.ping h e = expected 3 e (Receives-ping version h)
  Receives-body (Message.callreq call) h e = expected 0 e (Receives-call fuel call h)
  Receives-body (Message.result ret) h e = expected 4 e (Receives-result fuel ret h)
  Receives-body (Message.exception err) h e =
      expected 1 e (Receives-map_read (Receives-exception err h) Message.exception)
  Receives-body (Message.log level message) h e = expected 2 e (
      Receives-⊛ (Receives-map_read {B = Cstring → Message} (Receives-word 4 level h.0) Message.log)
        (Receives-cstring message h.1))
  Receives-body (Message.quote quote_type msg) h e = expected 13 e (
      Receives-⊛
        (Receives-map_read {B = Cstring → Message} (Receives-word 4 quote_type h.0) Message.quote)
        (Receives-cstring msg h.1))
  Receives-body (Message.quote_result quote_type result) h e = expected 14 e (
      Receives-⊛
        (Receives-map_read {B = Cstring → Message} (Receives-word 4 quote_type h.0)
          Message.quote_result)
        (Receives-cstring result h.1))
  Receives-body (Message.sql msg) h e = expected 5 e (Receives-sql fuel msg h)
  Receives-body (Message.raw bytes) h e = expected 9 e (Receives-rawmsg bytes h.0 h.1)
  Receives-body (Message.subtransaction action type) h e = expected 10 e (
      Receives-⊛
        (Receives-map_read {B = ℕ → Message} (Receives-word 1 action h.0) Message.subtransaction)
        (Receives-word 1 type h.1))
  Receives-body (Message.subtran_result result) h e =
      expected 11 e (Receives-map_read (Receives-word 2 result h) Message.subtran_result)
  Receives-body (Message.unhandled msgtype) h e = absurd h

  -- On a connection whose peer sends the bytes of a message that the protocol can carry, in
  -- segments of any size, the receiver of a mask that expects the message returns the message
  -- (the exception in place of a result that carries one) and takes its bytes and no more.
  pub channel_receive-Receives :
      (m : Message)
      → IsMessage version fuel m
      → expects mask (mask_bit m) ≡ true
      → Receives (encode_message version m) (arrives m) (channel_receive version mask fuel)
  channel_receive-Receives m h e =
      subst (λ bs. Receives bs (arrives m) (channel_receive version mask fuel))
        (sym (encode_message-split version fuel m h))
        (by_type (code_of m) (code_of-byte m) (Receives-body m h e))
