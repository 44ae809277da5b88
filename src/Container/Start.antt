-- ===== src/Container/Start.antt =====
-- `start_backend` of src/containers.c.
pub mod Backoff
pub mod Whole
pub mod Ends
use plcontainer.Common.{
  ℕ, zero, suc, ◌+◌, ◌*◌, ◌/◌, ◌%◌, Bool, true, false, Option, none, some, List, [], ◌∷◌, ltb, leb,
  if◌then◌else◌,
}
use plcontainer.Container.Slots.{
  RuntimeConnection, ContainerState, find_container_slot, insert_container_slot, set_container_conn,
}

-- CONTAINER_CONNECT_TIMEOUT_MS
abbrev pub container_connect_timeout_ms : ℕ
container_connect_timeout_ms = 10000

-- What becomes of one attempt: `plcConnect` gives NULL, or the ping cannot be sent, or no pong is
-- received, or one is; or a call of the attempt raises an error; or the pong is awaited without end,
-- since its first byte may take 0x7fffffff seconds.
pub data Attempt : Type 0 where
  no_connection : Attempt
  no_ping : ℕ → Attempt
  no_pong : ℕ → Attempt
  ponged : ℕ → Attempt
  raises : Attempt
  never_answers : Attempt

-- The replies to `start_backend`, of each call of `plc_backend_create` with the information on the
-- container that it fills in, of each call of `plc_backend_start`, of `fork` in `cleanup` and of
-- each attempt to connect.
pub record World : Type 0 where
  pub backend : ℕ
  pub create : ℕ → Option RuntimeConnection
  pub start : ℕ → Bool
  pub fork : Bool
  pub attempt : ℕ → Attempt

-- `while (res = create() < 0) { if (++loop_count >= 3) break; ... }` at the loop's call `k`, with
-- `n` more calls to make.
unfoldable pub create_loop : (ℕ → Option RuntimeConnection) → ℕ → ℕ → Option RuntimeConnection
create_loop create zero k = create k
create_loop create (suc n) k =
    let retry = create_loop create n (suc k) in
    elim (create k) [ none ↦ retry | some connection ↦ some connection ]

unfoldable pub start_loop : (ℕ → Bool) → ℕ → ℕ → Bool
start_loop start zero k = start k
start_loop start (suc n) k =
    let retry = start_loop start n (suc k) in if start k then true else retry

-- Where the loop of connection attempts stands: `conn`, `sleepus`, `sleepms`, both `unsigned int`,
-- and the connections that were disconnected, the last one first.
pub record Waiting : Type 0 where
  pub conn : Option ℕ
  pub sleepus : ℕ
  pub sleepms : ℕ
  pub disconnected : List ℕ

-- The statements at the label `err`.
unfoldable pub wait : Option ℕ → List ℕ → Waiting → Waiting
wait conn disconnected w = record {
  conn = conn;
  sleepus = if leb 200000 w.sleepus then 200000 else (w.sleepus * 2) % 4294967296;
  sleepms = (w.sleepms + w.sleepus / 1000) % 4294967296;
  disconnected = disconnected;
}

-- The result of the loop; `exhausted` only if the fuel runs out.
pub data Connecting : Type 0 where
  stopped : Waiting → Connecting
  attempt_raised : Waiting → Connecting
  stuck : Waiting → Connecting
  exhausted : Connecting

-- The body of the loop, with the rounds that follow it.
abbrev pub round : (Waiting → Connecting) → Attempt → Waiting → Connecting
unfolding wait
round rest no_connection w = rest (wait none w.disconnected w)
round rest (no_ping conn) w = rest (wait (some conn) (conn ∷ w.disconnected) w)
round rest (no_pong conn) w = rest (wait (some conn) (conn ∷ w.disconnected) w)
round rest (ponged conn) w = stopped (record w { conn = some conn })
round rest raises w = attempt_raised w
round rest never_answers w = stuck w

-- The loop from attempt `k` on.
unfoldable pub connect_loop : (ℕ → Attempt) → ℕ → ℕ → Waiting → Connecting
unfolding round wait
connect_loop attempt zero k w = exhausted
connect_loop attempt (suc fuel) k w =
    let body = round (connect_loop attempt fuel (suc k)) (attempt k) w in
    if ltb w.sleepms container_connect_timeout_ms then body else stopped w

-- How the function ends: with the connection, or by FATAL for `no_slot` and ERROR for the others; or
-- it `waits` for a pong without end.
pub data Started : Type 0 where
  started : Option ℕ → Started
  no_slot : Started
  create_error : Started
  start_error : Started
  no_cleanup : Started
  timeout : Started
  attempt_error : Started
  waits : Started
  out_of_fuel : Started

-- `plcDisconnect`, which does nothing for NULL.
abbrev pub disconnect : Option ℕ → ContainerState → ContainerState
disconnect none s = s
disconnect (some conn) s = record s { disconnected = conn ∷ s.disconnected }

abbrev pub cleanup_uds : RuntimeConnection → ContainerState → ContainerState
cleanup_uds connection s = elim connection.uds_address [
  | none ↦ s
  | some address ↦ record s { unlinked = address ∷ s.unlinked }
]

abbrev pub set_conn : Option ℕ → ℕ → ContainerState → ContainerState
unfolding set_container_conn
set_conn none slot s = s
set_conn (some conn) slot s = set_container_conn conn slot s

-- What follows the loop of connection attempts.
unfoldable pub after_connecting :
    RuntimeConnection → ℕ → ContainerState → Connecting → Started × ContainerState
unfolding set_conn set_container_conn
after_connecting connection slot s exhausted = (out_of_fuel, s)
after_connecting connection slot s (attempt_raised w) =
    (attempt_error, record s { disconnected = w.disconnected })
after_connecting connection slot s (stuck w) = (waits, record s { disconnected = w.disconnected })
after_connecting connection slot s (stopped w) =
    let s : ContainerState = record s { disconnected = w.disconnected } in
    if leb container_connect_timeout_ms w.sleepms
    then (timeout, cleanup_uds connection (disconnect w.conn s))
    else (started w.conn, set_conn w.conn slot s)

-- The first delays of 25, 50 and 100 ms and 50 of 200 ms pass the timeout, so 54 rounds are enough.
abbrev pub connect_fuel : ℕ
connect_fuel = 54

unfoldable pub connect_backend :
    World → RuntimeConnection → ℕ → ContainerState → Started × ContainerState
unfolding after_connecting connect_loop
connect_backend world connection slot s = after_connecting connection slot s (
    connect_loop world.attempt connect_fuel 0
      (record { conn = none; sleepus = 25000; sleepms = 0; disconnected = s.disconnected }))

unfoldable pub start_created :
    World → List ℕ → ℕ → Option RuntimeConnection → ContainerState → Started × ContainerState
unfolding connect_backend insert_container_slot start_loop
start_created world runtime_id slot none s = (create_error, s)
start_created world runtime_id slot (some connection) s =
    let s : ContainerState =
      insert_container_slot runtime_id (some world.backend) (some connection) slot s in
    if start_loop world.start 2 0
    then if world.fork then connect_backend world connection slot s else (no_cleanup, s)
    else (start_error, cleanup_uds connection s)

unfoldable pub start_in_slot : World → List ℕ → ContainerState → Option ℕ → Started × ContainerState
unfolding start_created create_loop
start_in_slot world runtime_id s none = (no_slot, s)
start_in_slot world runtime_id s (some slot) =
    start_created world runtime_id slot (create_loop world.create 2 0) s

unfoldable pub start_backend : World → List ℕ → ContainerState → Started × ContainerState
unfolding start_in_slot find_container_slot
start_backend world runtime_id s = start_in_slot world runtime_id s (find_container_slot s)
