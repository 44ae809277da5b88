-- ===== src/Connectivity/Socket.antt =====
-- `plcSocketRecv` and `plcSocketSend` of src/common/comm_connectivity.c. What the kernel answers
-- to `recv` and `send` is a list of events; what is left of it is given back.
pub mod Laws
use Prim.Native.Nat.{min}
use plcontainer.Common.{
  ℕ, suc, ◌+◌, ◌-◌, Option, none, some, List, [], ◌∷◌, ◌++◌, take, drop, length, ltb, if◌then◌else◌,
  Bool, false,
}

-- The answer to one `recv`. `chunk b bs` is a segment of the stream with at least a byte, of
-- which a call takes what its buffer holds. `again t` is EAGAIN or EWOULDBLOCK with
-- `gettimeofday` at `t` seconds, `cancel` a failed call with an interrupt pending that
-- CHECK_FOR_INTERRUPTS serves, `fault` any other error. A peer that has shut down stays so.
pub data RecvEvent : Type 0 where
  chunk : ℕ → List ℕ → RecvEvent
  again : ℕ → RecvEvent
  shutdown interrupted cancel fault : RecvEvent

-- The answer to one `send`: `accept n` takes `n + 1` bytes, or all if they are fewer.
pub data SendEvent : Type 0 where
  accept : ℕ → SendEvent
  interrupted cancel fault : SendEvent

pub data Received : Type 0 where
  got : List ℕ → List RecvEvent → Received
  closed : List RecvEvent → Received
  raised : List RecvEvent → Received
  blocked : Received

abbrev pub leftover : List ℕ → List RecvEvent → List RecvEvent
leftover [] rest = rest
leftover (b ∷ bs) rest = chunk b bs ∷ rest

-- `(end_ts.tv_sec - start_ts.tv_sec) > rx_timeout_sec` at the second EAGAIN and later ones.
abbrev pub timed_out : Option ℕ → ℕ → ℕ → Bool
timed_out none now timeout = false
timed_out (some start) now timeout = ltb timeout (now - start)

abbrev pub started : Option ℕ → ℕ → Option ℕ
started none now = some now
started (some start) now = some start

-- `intr` is `intr_count`, `start` holds `start_ts` once `time_count` is 1.
unfoldable pub recv_loop : ℕ → Option ℕ → ℕ → ℕ → List RecvEvent → Received
recv_loop intr start timeout len [] = blocked
recv_loop intr start timeout len (chunk b bs ∷ rest) =
    got (take len (b ∷ bs)) (leftover (drop len (b ∷ bs)) rest)
recv_loop intr start timeout len (shutdown ∷ rest) = closed (shutdown ∷ rest)
recv_loop intr start timeout len (RecvEvent.interrupted ∷ rest) =
    let retry = recv_loop (suc intr) start timeout len rest in
    if ltb intr 5 then retry else raised rest
recv_loop intr start timeout len (again now ∷ rest) =
    let retry = recv_loop intr (started start now) timeout len rest in
    if timed_out start now timeout then raised rest else retry
recv_loop intr start timeout len (RecvEvent.cancel ∷ rest) = raised rest
recv_loop intr start timeout len (RecvEvent.fault ∷ rest) = raised rest

unfoldable pub plc_socket_recv : ℕ → ℕ → List RecvEvent → Received
unfolding recv_loop
plc_socket_recv timeout len events = recv_loop 0 none timeout len events

pub data Sent : Type 0 where
  sent : ℕ → List SendEvent → Sent
  raised : List SendEvent → Sent

-- Past the listed events the kernel takes all that it is given.
unfoldable pub send_loop : ℕ → ℕ → List SendEvent → Sent
send_loop intr len [] = sent len []
send_loop intr len (accept n ∷ rest) = sent (min (suc n) len) rest
send_loop intr len (SendEvent.interrupted ∷ rest) =
    let retry = send_loop (suc intr) len rest in if ltb intr 5 then retry else raised rest
send_loop intr len (SendEvent.cancel ∷ rest) = raised rest
send_loop intr len (SendEvent.fault ∷ rest) = raised rest

unfoldable pub plc_socket_send : ℕ → List SendEvent → Sent
unfolding send_loop
plc_socket_send len events = send_loop 0 len events

-- The bytes that the peer has sent or will send before it shuts down.
unfoldable pub stream : List RecvEvent → List ℕ
stream [] = []
stream (chunk b bs ∷ rest) = (b ∷ bs) ++ stream rest
stream (shutdown ∷ rest) = []
stream (again now ∷ rest) = stream rest
stream (RecvEvent.interrupted ∷ rest) = stream rest
stream (RecvEvent.cancel ∷ rest) = stream rest
stream (RecvEvent.fault ∷ rest) = stream rest
