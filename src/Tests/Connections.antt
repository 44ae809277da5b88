-- ===== src/Tests/Connections.antt =====
-- Examples for the buffers and sockets of src/common/comm_connectivity.c.
use plcontainer.Common.{ℕ, ◌≤◌, [], ◌∷◌, ◌++◌, replicate, length-replicate, ◌≡◌, refl, some, arith}
use plcontainer.Connectivity.Buffer.{
  Buffer, IsValid, content, plc_buffer_maybe_reset, plc_buffer_init,
}
use plcontainer.Connectivity.Buffer.Laws.{
  plc_buffer_init-IsValid, NoOverlap, plc_buffer_maybe_reset-NoOverlap,
}
use plcontainer.Connectivity.Socket.{RecvEvent, chunk, again, Received, plc_socket_recv, stream}
use plcontainer.Connectivity.Socket.Laws.{
  interruptions, waits, TakesFrom, plc_socket_recv-interruptions, plc_socket_recv-timeout,
  plc_socket_recv-stream,
}
use plcontainer.Connectivity.Conn.{
  Conn, available, plc_buffer_append, plc_buffer_flush, plc_buffer_receive, plc_buffer_read,
}
use plcontainer.Connectivity.Conn.Write.{
  Wrote, Flushed, plc_buffer_append-Wrote, plc_buffer_flush-Flushed,
}
use plcontainer.Connectivity.Conn.Read.{
  IsLive, Reads, Filled, plc_buffer_read-Reads, plc_buffer_receive-Filled,
}
use plcontainer.Tests.{sender, receiver, sender-IsReady}

plc_buffer_append-Wrote_example : Wrote (7 ∷ 8 ∷ 9 ∷ []) (plc_buffer_append (7 ∷ 8 ∷ 9 ∷ [])) sender
plc_buffer_append-Wrote_example = plc_buffer_append-Wrote (7 ∷ 8 ∷ 9 ∷ []) sender sender-IsReady

-- A sender that has four bytes in its buffer.
appended : Wrote (7 ∷ 8 ∷ 9 ∷ 10 ∷ []) (plc_buffer_append (7 ∷ 8 ∷ 9 ∷ 10 ∷ [])) sender
appended = plc_buffer_append-Wrote (7 ∷ 8 ∷ 9 ∷ 10 ∷ []) sender sender-IsReady

plc_buffer_flush-Flushed_example : Flushed plc_buffer_flush appended.after
plc_buffer_flush-Flushed_example = plc_buffer_flush-Flushed appended.after appended.ready

abbrev two_chunks : Conn
two_chunks = receiver (chunk 1 (2 ∷ []) ∷ chunk 3 [] ∷ [])

two_chunks-IsLive : IsLive two_chunks
two_chunks-IsLive = record { valid = plc_buffer_init-IsValid; delivers = (tt, (tt, tt)) }

three_bytes : available two_chunks ≡ 1 ∷ 2 ∷ 3 ∷ []
unfolding plc_buffer_init stream
three_bytes = refl

plc_buffer_receive-Filled_example : Filled 3 (plc_buffer_receive 3) two_chunks
unfolding plc_buffer_init stream
plc_buffer_receive-Filled_example =
    plc_buffer_receive-Filled 3 two_chunks two_chunks-IsLive (omega arith)

plc_buffer_read-Reads_example : Reads (some (1 ∷ 2 ∷ [])) (3 ∷ []) (plc_buffer_read 2) two_chunks
plc_buffer_read-Reads_example =
    plc_buffer_read-Reads (1 ∷ 2 ∷ []) (3 ∷ []) two_chunks two_chunks-IsLive three_bytes

plc_socket_recv-interruptions_example :
    (plc_socket_recv 20 2 (interruptions 5 ++ (chunk 1 (2 ∷ 3 ∷ []) ∷ []))
      ≡ plc_socket_recv 20 2 (chunk 1 (2 ∷ 3 ∷ []) ∷ []))
    × (plc_socket_recv 20 2 (interruptions 6 ++ []) ≡ Received.raised [])
plc_socket_recv-interruptions_example =
    plc_socket_recv-interruptions 20 2 5 1 (2 ∷ 3 ∷ []) [] (omega arith)

plc_socket_recv-timeout_example :
    (plc_socket_recv 20 2 (waits (100 ∷ 110 ∷ 120 ∷ []) ++ (chunk 1 [] ∷ []))
      ≡ plc_socket_recv 20 2 (chunk 1 [] ∷ []))
    × (plc_socket_recv 20 2 (waits (100 ∷ 110 ∷ 120 ∷ []) ++ (again 121 ∷ [])) ≡ Received.raised [])
plc_socket_recv-timeout_example =
    plc_socket_recv-timeout 20 2 100 (110 ∷ 120 ∷ []) 121 1 [] [] (omega arith, (omega arith, tt))
      (omega arith)

plc_socket_recv-stream_example :
    TakesFrom
      (RecvEvent.interrupted ∷ again 3 ∷ chunk 1 (2 ∷ 3 ∷ []) ∷ [])
      2
      (1 ∷ 2 ∷ [])
      (chunk 3 [] ∷ [])
unfolding plc_socket_recv
plc_socket_recv-stream_example =
    plc_socket_recv-stream 20 2 (omega arith)
      (RecvEvent.interrupted ∷ again 3 ∷ chunk 1 (2 ∷ 3 ∷ []) ∷ []) (1 ∷ 2 ∷ []) (chunk 3 [] ∷ [])
      refl

-- A buffer of which 5000 of 5010 bytes were taken.
abbrev mostly_taken : Buffer
mostly_taken = record { bytes = replicate 8192 0; p_start = 5000; p_end = 5010; buf_size = 8192 }

mostly_taken-IsValid : IsValid mostly_taken
mostly_taken-IsValid = record {
  ordered = omega arith;
  inside = omega arith;
  allocated = length-replicate {A = ℕ} 8192 0;
  at_least = omega arith;
}

plc_buffer_maybe_reset-NoOverlap_example :
    (content (plc_buffer_maybe_reset mostly_taken) ≡ content mostly_taken)
    × ((plc_buffer_maybe_reset mostly_taken).p_start ≤ 4096)
    × NoOverlap mostly_taken (plc_buffer_maybe_reset mostly_taken)
plc_buffer_maybe_reset-NoOverlap_example = plc_buffer_maybe_reset-NoOverlap mostly_taken-IsValid
