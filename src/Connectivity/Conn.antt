-- ===== src/Connectivity/Conn.antt =====
-- `plcConn` of src/common/comm_connectivity.h and the buffered reads and writes of
-- comm_connectivity.c. The descriptor is replaced by the events that the kernel answers with.
pub mod Write
pub mod Read
pub mod Safety
pub mod Lossless
use plcontainer.Common.{
  ℕ, zero, suc, ◌+◌, ◌-◌, Bool, true, false, ◌||◌, Option, none, some, List, [], ◌++◌, take, drop,
  length, ltb, if◌then◌else◌,
}
use plcontainer.Outcome.{Outcome, done, raised, blocked, exhausted, Action, pure, ◌>>=◌}
use plcontainer.Connectivity.Buffer.{
  Buffer, content, held, plc_buffer_size, plc_buffer_min_free, plc_buffer_init,
  plc_buffer_maybe_reset, plc_buffer_maybe_resize, store, consume,
}
use plcontainer.Connectivity.Socket.{
  RecvEvent, SendEvent, Received, Sent, sent, got, closed, plc_socket_recv, plc_socket_send, stream,
}

-- `wire` is what the kernel has taken for the peer.
pub record Conn : Type 0 where
  pub input : Buffer
  pub output : Buffer
  pub inbound : List RecvEvent
  pub outbound : List SendEvent
  pub wire : List ℕ
  pub rx_timeout_sec : ℕ

-- The return codes 0 and -1.
pub data Status : Type 0 where
  success failure : Status

-- The timeout is indeterminate until a receive of a message sets it; 0 stands for it.
unfoldable pub plc_conn_init : List RecvEvent → List SendEvent → Conn
unfolding plc_buffer_init
plc_conn_init inbound outbound = record {
  input = plc_buffer_init;
  output = plc_buffer_init;
  inbound = inbound;
  outbound = outbound;
  wire = [];
  rx_timeout_sec = 0;
}

abbrev after_send : Conn → ℕ → List SendEvent → Conn
after_send c n rest = record c {
  output = consume c.output n;
  outbound = rest;
  wire = c.wire ++ take n (content c.output);
}

-- `while (buf->pStart < buf->pEnd)`: each round sends a byte at least, so that as many rounds as
-- there are bytes are enough.
unfoldable pub flush_loop : ℕ → Action Conn Status
flush_loop zero c = if ltb c.output.p_start c.output.p_end then exhausted else done success c
flush_loop (suc fuel) c = elim (ltb c.output.p_start c.output.p_end) [
  | true ↦ elim (plc_socket_send (held c.output) c.outbound) [
    | sent n rest ↦ flush_loop fuel (after_send c n rest)
    | Sent.raised rest ↦ raised (record c { outbound = rest })
  ]
  | false ↦ done success c
]

unfoldable pub reset_output : Action Conn Status
unfolding plc_buffer_maybe_reset
reset_output c = done success (record c { output = plc_buffer_maybe_reset c.output })

unfoldable pub plc_buffer_maybe_flush : Bool → Action Conn Status
unfolding flush_loop reset_output
plc_buffer_maybe_flush force c =
    if ltb (c.output.buf_size - c.output.p_end) plc_buffer_min_free
      || ltb plc_buffer_size (c.output.p_end - c.output.p_start)
      || force
    then (flush_loop (held c.output) >>= λ status. elim status [
      | success ↦ reset_output
      | failure ↦ pure failure
    ])
        c
    else done success c

abbrev resize_output : ℕ → Action Conn Status
resize_output n c = done success (record c { output = plc_buffer_maybe_resize c.output n })

abbrev store_output : List ℕ → Action Conn Status
store_output bs c = done success (record c { output = store c.output bs })

-- Only the flush can return -1.
unfoldable pub make_room : ℕ → Action Conn Status
unfolding plc_buffer_maybe_flush
make_room n = do
  _ ← reset_output
  status ← plc_buffer_maybe_flush false
  elim status [ success ↦ resize_output n | failure ↦ pure failure ]

unfoldable pub plc_buffer_append : List ℕ → Action Conn Status
unfolding make_room
plc_buffer_append bs c =
    if ltb (c.output.buf_size - c.output.p_end) (length bs)
    then (make_room (length bs) >>= λ status. elim status [
      | success ↦ store_output bs
      | failure ↦ pure failure
    ])
        c
    else store_output bs c

unfoldable pub plc_buffer_flush : Action Conn Status
unfolding plc_buffer_maybe_flush
plc_buffer_flush = plc_buffer_maybe_flush true

-- `while (nBytesToReceive > 0)`: each round receives a byte at least.
unfoldable pub receive_loop : ℕ → ℕ → Action Conn Status
receive_loop fuel zero c = done success c
receive_loop zero (suc n) c = exhausted
receive_loop (suc fuel) (suc n) c =
    elim (plc_socket_recv c.rx_timeout_sec (c.input.buf_size - c.input.p_end) c.inbound) [
      | got bs rest ↦
          receive_loop fuel (suc n - length bs)
            (record c { input = store c.input bs; inbound = rest })
      | closed rest ↦ done failure (record c { inbound = rest })
      | Received.raised rest ↦ raised (record c { inbound = rest })
      | Received.blocked ↦ blocked
    ]

unfoldable pub resize_input : ℕ → Conn → Conn
unfolding plc_buffer_maybe_reset plc_buffer_maybe_resize
resize_input n c = record c { input = plc_buffer_maybe_resize (plc_buffer_maybe_reset c.input) n }

unfoldable pub plc_buffer_receive : ℕ → Action Conn Status
unfolding receive_loop resize_input
plc_buffer_receive n c =
    if ltb (held c.input) n
    then (let d = resize_input n c in receive_loop (n - held d.input) (n - held d.input) d)
    else done success c

-- `none` is the return code -1: the caller's block is not written.
unfoldable pub plc_buffer_read : ℕ → Action Conn (Option (List ℕ))
unfolding plc_buffer_receive
plc_buffer_read n = do
  status ← plc_buffer_receive n
  λ c. elim status [
    | success ↦
        done (some (take n (drop c.input.p_start c.input.bytes)))
          (record c { input = consume c.input n })
    | failure ↦ done none c
  ]

-- What the peer has received or will receive of the bytes appended so far.
abbrev pub outgoing : Conn → List ℕ
outgoing c = c.wire ++ content c.output

-- What can still be read before the peer shuts down.
abbrev pub available : Conn → List ℕ
available c = content c.input ++ stream c.inbound
