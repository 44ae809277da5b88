-- ===== src/Channel/Receive/Parts.antt =====
-- That the functions of src/common/comm_channel.c behind the message type read the wire format.
use plcontainer.Common.{
  ℕ, ◌≤◌, ◌==◌, false, Option, none, some, List, [], ◌∷◌, ◌++◌, length, ◌≡◌, subst, All, arith,
  append-nil, append_assoc,
}
use plcontainer.Outcome.{pure, ◌>>=◌}
use plcontainer.Connectivity.Conn.{Conn}
use plcontainer.Message.Datatype.{PlcType}
use plcontainer.Message.Value.{Raws}
use plcontainer.Message.Struct.{CallReq, PlcError, Column, QueryResult, Message}
use plcontainer.Channel.Word.{le_bytes}
use plcontainer.Channel.Action.{repeat, map_read}
use plcontainer.Channel.Action.Receives.{
  Receives, Yields-bind, Yields-pure, Receives-give, Receives-map_read, Receives-or_return,
  Receives-⊛, Receives-&&⊛,
}
use plcontainer.Channel.Primitive.{receive_char, receive_int32, receive_uint32}
use plcontainer.Channel.Primitive.Encoding.{
  encode_cstring, Receives-cstring, Receives-word, Receives-int32, not_negative,
}
use plcontainer.Channel.TypeInfo.{receive_whole_type, settled}
use plcontainer.Channel.TypeInfo.Encoding.{encode_type, IsType, depth, Yields-type}
use plcontainer.Channel.Object.Encoding.Receive.{Receives-raw_object}
use plcontainer.Channel.Argument.Encoding.{encode_arguments, Receives-repeat}
use plcontainer.Channel.Receive.{
  error_of, receive_exception, column_of, receive_column, receive_row, Table, table_of,
  receive_cells, receive_table, counts_of, receive_body, result_of, receive_result_end,
  receive_result, call_head, call_arguments, receive_call_head, receive_call, with_args,
}
use plcontainer.Channel.Send.Encoding.{
  encode_columns, encode_row, encode_rows, encode_pending, encode_exception, IsError, IsPending,
  AreColumns, IsRow, AreRows, IsResult, IsCall,
}

pub Receives-exception :
    (err : PlcError)
    → IsError err
    → Receives (encode_cstring err.message ++ encode_cstring err.stacktrace) err receive_exception
unfolding receive_exception
Receives-exception err h =
    Receives-⊛ (Receives-map_read (Receives-cstring err.message h.0) error_of)
      (Receives-cstring err.stacktrace h.1)

pub Receives-whole_type :
    (fuel : ℕ) (t : PlcType)
    → IsType t
    → depth t ≤ fuel
    → Receives (encode_type t) t (receive_whole_type fuel)
unfolding receive_whole_type
Receives-whole_type fuel t h d =
    simp append-nil at (
      Yields-bind (λ f. pure {S = Conn} (settled f)) (Yields-type t h fuel d)
        (Yields-pure (some t)))

Receives-columns :
    (fuel : ℕ) (cs : List Column)
    → AreColumns fuel cs
    → Receives (encode_columns cs) cs (repeat [] ◌∷◌ (length cs) (receive_column fuel))
unfolding repeat encode_columns receive_column
Receives-columns fuel [] h = Receives-give []
Receives-columns fuel (c ∷ cs) h =
    Receives-&&⊛
      (Receives-map_read
        (Receives-⊛ (Receives-map_read (Receives-whole_type fuel c.type h.0.0 h.0.1) column_of)
          (Receives-cstring c.name h.0.2))
        ◌∷◌)
      (Receives-columns fuel cs h.1)

Receives-row :
    (cs : List Column) (r : Raws) → IsRow cs r → Receives (encode_row cs r) r (receive_row cs)
unfolding receive_row encode_row
Receives-row [] Raws.nil h = Receives-give Raws.nil
Receives-row (c ∷ cs) (Raws.cons r rs) h =
    Receives-⊛ (Receives-map_read {B = Raws → Raws} (Receives-raw_object c.type r h.0) Raws.cons)
      (Receives-row cs rs h.1)
Receives-row _ _ h = absurd h

Receives-rows :
    (cs : List Column) (rows : List Raws)
    → All (IsRow cs) rows
    → Receives (encode_rows cs rows) rows (repeat [] ◌∷◌ (length rows) (receive_row cs))
unfolding repeat encode_rows
Receives-rows cs [] h = Receives-give []
Receives-rows cs (r ∷ rows) h =
    Receives-&&⊛ (Receives-map_read (Receives-row cs r h.0) ◌∷◌) (Receives-rows cs rows h.1)

Receives-table :
    (fuel n : ℕ) (cs : List Column) (rows : List Raws)
    → AreColumns fuel cs
    → AreRows cs n rows
    → Receives
        (encode_columns cs ++ encode_rows cs rows)
        (table_of n cs rows)
        (receive_table fuel n (length cs))
unfolding receive_table receive_cells encode_columns encode_rows
Receives-table fuel n [] [] hc hr = Receives-give (table_of n [] [])
Receives-table fuel n [] (r ∷ rows) hc hr = absurd (cc)
Receives-table fuel n (c ∷ cs) rows hc hr =
    rw (let e : (length (c ∷ cs) == 0) ≡ false = ground arith in e) (
      Receives-or_return (Receives-columns fuel (c ∷ cs) hc) (receive_cells n) (
        subst
          (λ k.
            Receives (encode_rows (c ∷ cs) rows) (table_of n (c ∷ cs) rows)
              (map_read (table_of n (c ∷ cs)) (repeat [] ◌∷◌ k (receive_row (c ∷ cs)))))
          hr.0 (Receives-map_read (Receives-rows (c ∷ cs) rows hr.1) (table_of n (c ∷ cs)))))

-- What arrives of a result: an exception in its place where the callback added one.
abbrev pub arrives : Message → Message
arrives (Message.result ret) = elim ret.exception [
  | none ↦ Message.result (record ret { exception = none })
  | some err ↦ Message.exception err
]
arrives m = m

module _ (table : Table) where
  Receives-result_end :
      (pending : Option PlcError)
      → IsPending pending
      → Receives
          (encode_pending pending)
          (elim pending [
            | none ↦ Message.result (result_of table)
            | some err ↦ Message.exception err
          ])
          (receive_char >>= receive_result_end (some table))
  unfolding encode_pending encode_exception receive_char receive_result_end
  Receives-result_end none h = simp append-nil at (
      Yields-bind (receive_result_end (some table)) (Receives-word 1 b'N' (omega arith))
        (Receives-give (Message.result (result_of table))))
  Receives-result_end (some err) h = simp append_assoc (
      Yields-bind (receive_result_end (some table)) (Receives-word 1 b'E' (omega arith))
        (Receives-map_read (Receives-exception err h) Message.exception))

module _ (fuel : ℕ) where
  pub Receives-result :
      (ret : QueryResult)
      → IsResult fuel ret
      → Receives
          ((le_bytes 4 ret.rows ++ le_bytes 4 (length ret.columns))
            ++ ((encode_columns ret.columns ++ encode_rows ret.columns ret.cells)
                ++ encode_pending ret.exception))
          (arrives (Message.result ret))
          (receive_result fuel)
  unfolding receive_result receive_body receive_uint32
  Receives-result ret h =
      Yields-bind
        (λ header. receive_body fuel header >>= λ table. receive_char >>= receive_result_end table)
        (Receives-⊛ (Receives-map_read (Receives-word 4 ret.rows h.0) counts_of)
          (Receives-word 4 (length ret.columns) h.1))
        (Yields-bind (λ table. receive_char >>= receive_result_end table)
          (Receives-table fuel ret.rows ret.columns ret.cells h.2 h.3)
          (Receives-result_end (table_of ret.rows ret.columns ret.cells) ret.exception h.4))

  pub Receives-call :
      (call : CallReq)
      → IsCall fuel call
      → Receives
          (((((((((encode_cstring call.proc_name ++ encode_cstring call.proc_src)
                          ++ encode_cstring call.serverenc)
                        ++ le_bytes 4 call.log_level)
                      ++ le_bytes 4 call.objectid)
                    ++ le_bytes 4 call.has_changed)
                  ++ encode_type call.ret_type)
                ++ le_bytes 4 call.retset)
              ++ le_bytes 4 (length call.args))
            ++ encode_arguments call.args)
          (Message.callreq call)
          (receive_call fuel)
  unfolding receive_call receive_call_head call_arguments receive_int32 receive_uint32
  Receives-call call h =
      let strings =
        Receives-⊛
          (Receives-⊛ (Receives-map_read (Receives-cstring call.proc_name h.0.0) call_head)
            (Receives-cstring call.proc_src h.0.1))
          (Receives-cstring call.serverenc h.0.2) in
      let numbers =
        Receives-⊛
          (Receives-⊛ (Receives-⊛ strings (Receives-word 4 call.log_level h.1.0))
            (Receives-word 4 call.objectid h.1.1))
          (Receives-word 4 call.has_changed h.1.2) in
      let head =
        Receives-⊛
          (Receives-⊛ (Receives-⊛ numbers (Receives-whole_type fuel call.ret_type h.2.0 h.2.1))
            (Receives-word 4 call.retset h.1.3))
          (Receives-int32 (length call.args) h.3) in
      Receives-or_return head (call_arguments fuel) (
        rw (not_negative (length call.args) h.3)
          (Receives-map_read (Receives-repeat fuel call.args h.4) (with_args call)))
