-- ===== src/Channel/Receive/Queries.antt =====
-- That the queries of src/common/comm_channel.c are read in the wire format.
use plcontainer.Common.{ℕ, ◌^◌, ◌<◌, ◌%◌, List, [], ◌∷◌, ◌++◌, length, ◌≡◌, refl, ap₂, All, arith}
use plcontainer.Message.Datatype.{Cstring}
use plcontainer.Message.Struct.{Sql, Message, statement, prepare, unprepare, pexecute}
use plcontainer.Channel.Word.{le_bytes}
use plcontainer.Channel.Action.Receives.{
  Receives, Receives-read, Receives-map_read, Receives-or_return, Receives-use_after, Receives-⊛,
}
use plcontainer.Channel.Primitive.{receive_int64, receive_raw}
use plcontainer.Channel.Primitive.Encoding.{
  Receives-cstring, Receives-word, Receives-int32, not_negative,
}
use plcontainer.Channel.Argument.Encoding.{Receives-repeat_all}
use plcontainer.Channel.Receive.{
  receive_sql_statement, prepare_of_nargs, receive_sql_prepare, receive_sql_unprepare,
  pexecute_of_nargs, receive_sql_pexecute, receive_sql_by_type, receive_sql, raw_of_size,
  receive_rawmsg,
}
use plcontainer.Channel.Send.Encoding.{IsSql, encode_chars}
use plcontainer.Channel.Send.Encoding.Split.{sql_body}

module _ (fuel : ℕ) where
  received :
      (code : ℕ)
      → code < 2 ^ 31
      → {bs : List ℕ} (msg : Sql) → Receives bs msg (receive_sql_by_type fuel code)
      → Receives (le_bytes 4 code ++ bs) (Message.sql msg) (receive_sql fuel)
  unfolding receive_sql
  received code h msg r =
      Receives-map_read (Receives-or_return (Receives-int32 code h) (receive_sql_by_type fuel) r)
        Message.sql

  pub Receives-sql :
      (msg : Sql) → IsSql fuel msg → Receives (sql_body msg) (Message.sql msg) (receive_sql fuel)
  unfolding receive_sql_by_type receive_sql_statement receive_sql_prepare receive_sql_unprepare
      receive_sql_pexecute prepare_of_nargs pexecute_of_nargs receive_int64
  Receives-sql (statement limit stmt) h = received 1 (omega arith) (statement limit stmt) (
      Receives-⊛ (Receives-map_read {B = Cstring → Sql} (Receives-word 8 limit h.0) statement)
        (Receives-cstring stmt h.1))
  Receives-sql (prepare args stmt) h = received 5 (omega arith) (prepare args stmt) (
      Receives-use_after (Receives-int32 (length args) h.0) (prepare_of_nargs fuel) (
        rw (not_negative (length args) h.0) (
          Receives-⊛
            (Receives-map_read {B = Cstring → Sql} (Receives-repeat_all fuel args h.1) prepare)
            (Receives-cstring stmt h.2))))
  Receives-sql (unprepare pplan) h =
      received 7 (omega arith) (unprepare pplan)
        (Receives-map_read (Receives-word 8 pplan h) unprepare)
  Receives-sql (pexecute args limit pplan) h =
      received 6 (omega arith) (pexecute args limit pplan) (
        Receives-use_after (Receives-int32 (length args) h.0) (pexecute_of_nargs fuel) (
          rw (not_negative (length args) h.0) (
            Receives-⊛
              (Receives-⊛
                (Receives-map_read {B = ℕ → ℕ → Sql} (Receives-repeat_all fuel args h.1) pexecute)
                (Receives-word 8 limit h.2))
              (Receives-word 8 pplan h.3))))
  Receives-sql (Sql.unhandled sqltype) h = absurd h

encode_chars_self : (bs : List ℕ) → All (λ b. b < 256) bs → encode_chars bs ≡ bs
unfolding encode_chars le_bytes
encode_chars_self [] h = refl
encode_chars_self (b ∷ bs) h =
    let e : b % 256 ≡ b = omega (arith, h.0) in ap₂ ◌∷◌ e (encode_chars_self bs h.1)

pub Receives-rawmsg :
    (bs : List ℕ)
    → length bs < 2 ^ 31
    → All (λ b. b < 256) bs
    → Receives (le_bytes 4 (length bs) ++ encode_chars bs) (Message.raw bs) receive_rawmsg
unfolding receive_rawmsg raw_of_size receive_raw
Receives-rawmsg bs h all = rw (encode_chars_self bs all) (
    Receives-use_after (Receives-int32 (length bs) h) raw_of_size
      (rw (not_negative (length bs) h) (Receives-map_read (Receives-read bs) Message.raw)))
