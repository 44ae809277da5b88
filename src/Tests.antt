-- ===== src/Tests.antt =====
-- Connections and messages for the examples, and the theorems applied to them.
pub mod Connections
pub mod Messages
pub mod Caches
pub mod Plans
pub mod Subtransactions
pub mod Failures
pub mod Containers
pub mod Queries
pub mod Calls
pub mod Configurations
use plcontainer.Common.{ℕ, List, [], ◌∷◌, ◌≡◌, refl, arith}
use plcontainer.Connectivity.Buffer.{plc_buffer_init}
use plcontainer.Connectivity.Buffer.Laws.{plc_buffer_init-IsValid}
use plcontainer.Connectivity.Socket.{RecvEvent, SendEvent, accept, chunk}
use plcontainer.Connectivity.Conn.{Conn, outgoing}
use plcontainer.Connectivity.Conn.Write.{IsReady}
use plcontainer.Connectivity.Conn.Read.{IsLive}

-- A fresh connection whose kernel takes three bytes first, and one whose peer sends `inbound`.
abbrev pub sender : Conn
sender = record {
  input = plc_buffer_init;
  output = plc_buffer_init;
  inbound = [];
  outbound = accept 2 ∷ [];
  wire = [];
  rx_timeout_sec = 0;
}

abbrev pub receiver : List RecvEvent → Conn
receiver inbound = record {
  input = plc_buffer_init;
  output = plc_buffer_init;
  inbound = inbound;
  outbound = [];
  wire = [];
  rx_timeout_sec = 20;
}

pub sender-IsReady : IsReady sender
sender-IsReady = record { valid = plc_buffer_init-IsValid; accepts = (tt, tt) }

pub outgoing-sender : outgoing sender ≡ []
unfolding plc_buffer_init
outgoing-sender = refl
