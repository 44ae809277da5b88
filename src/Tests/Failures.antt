-- ===== src/Tests/Failures.antt =====
-- Examples for the connections of src/common/comm_connectivity.c where something goes wrong.
use plcontainer.Common.{[], ◌∷◌, ◌++◌}
use plcontainer.Connectivity.Buffer.{plc_buffer_init}
use plcontainer.Connectivity.Buffer.Laws.{plc_buffer_init-IsValid}
use plcontainer.Connectivity.Socket.{RecvEvent, SendEvent, accept, chunk, shutdown}
use plcontainer.Connectivity.Conn.{Conn, outgoing, available, plc_buffer_append, plc_buffer_receive}
use plcontainer.Connectivity.Conn.Safety.{Ends, Reading, plc_buffer_receive-Reading}
use plcontainer.Connectivity.Conn.Lossless.{Writes, Writing, plc_buffer_append-Writes}
use plcontainer.Tests.{receiver}

-- The peer is interrupted, sends two bytes and shuts down.
abbrev cut_short : Conn
cut_short = receiver (RecvEvent.interrupted ∷ chunk 1 (2 ∷ []) ∷ shutdown ∷ [])

plc_buffer_receive-Reading_example :
    Ends (Reading (available cut_short)) (plc_buffer_receive 3 cut_short)
plc_buffer_receive-Reading_example = plc_buffer_receive-Reading 3 cut_short plc_buffer_init-IsValid

-- The kernel takes a byte, interrupts and fails.
abbrev failing : Conn
failing = record {
  input = plc_buffer_init;
  output = plc_buffer_init;
  inbound = [];
  outbound = accept 0 ∷ SendEvent.interrupted ∷ SendEvent.fault ∷ [];
  wire = 9 ∷ [];
  rx_timeout_sec = 20;
}

plc_buffer_append-Writes_example :
    Writes
      (Writing (outgoing failing))
      (Writing (outgoing failing ++ (7 ∷ 8 ∷ [])))
      (plc_buffer_append (7 ∷ 8 ∷ []) failing)
plc_buffer_append-Writes_example =
    plc_buffer_append-Writes (7 ∷ 8 ∷ []) failing plc_buffer_init-IsValid
