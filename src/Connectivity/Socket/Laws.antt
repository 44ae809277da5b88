-- ===== src/Connectivity/Socket/Laws.antt =====
-- How `plcSocketRecv` and `plcSocketSend` of src/common/comm_connectivity.c repeat their calls.
use plcontainer.Common.{
  ℕ, zero, suc, ◌+◌, ◌-◌, ◌≤◌, ◌<◌, Option, none, some, List, [], ◌∷◌, ◌++◌, take, drop, length,
  replicate, ltb, All, ◌≡◌, refl, sym, ap, ◌∙◌, arith, append_assoc, take-append-drop, length-take,
  lt→ltb, le→ltb_false, Bool-cases, inl, inr,
}
use plcontainer.Connectivity.Socket.{
  RecvEvent, chunk, again, shutdown, Received, got, leftover, timed_out, started, recv_loop,
  plc_socket_recv, stream,
}

abbrev pub interruptions : ℕ → List RecvEvent
interruptions n = replicate n RecvEvent.interrupted

module _ (start : Option ℕ) (timeout len : ℕ) where
  retried :
      (intr k b : ℕ) (bs : List ℕ) (rest : List RecvEvent)
      → intr + k ≤ 5
      → recv_loop intr start timeout len (interruptions k ++ (chunk b bs ∷ rest))
        ≡ got (take len (b ∷ bs)) (leftover (drop len (b ∷ bs)) rest)
  unfolding recv_loop
  retried intr zero b bs rest h = refl
  retried intr (suc k) b bs rest h =
      rw (lt→ltb intr 5 (omega arith)) (retried (suc intr) k b bs rest (omega arith))

  gives_up :
      (intr k : ℕ) (rest : List RecvEvent)
      → intr + k ≡ 5
      → recv_loop intr start timeout len (interruptions (suc k) ++ rest) ≡ Received.raised rest
  unfolding recv_loop
  gives_up intr zero rest h = rw (le→ltb_false intr 5 (omega arith)) refl
  gives_up intr (suc k) rest h =
      rw (lt→ltb intr 5 (omega arith)) (gives_up (suc intr) k rest (omega arith))

-- Up to five interruptions of `recv` are not seen in the result when a segment follows them; the
-- sixth in a row raises an error, whatever follows it.
pub plc_socket_recv-interruptions :
    (timeout len k b : ℕ) (bs : List ℕ) (rest : List RecvEvent)
    → k ≤ 5
    → (plc_socket_recv timeout len (interruptions k ++ (chunk b bs ∷ rest))
        ≡ plc_socket_recv timeout len (chunk b bs ∷ rest))
      × (plc_socket_recv timeout len (interruptions 6 ++ rest) ≡ Received.raised rest)
unfolding plc_socket_recv recv_loop
plc_socket_recv-interruptions timeout len k b bs rest h =
    (retried none timeout len 0 k b bs rest (omega arith), gives_up none timeout len 0 5 rest refl)

abbrev pub waits : List ℕ → List RecvEvent
waits [] = []
waits (t ∷ ts) = again t ∷ waits ts

module _ (timeout len start : ℕ) where
  waited :
      (times : List ℕ) (rest : List RecvEvent)
      → All (λ t. t ≤ start + timeout) times
      → recv_loop 0 (some start) timeout len (waits times ++ rest)
        ≡ recv_loop 0 (some start) timeout len rest
  unfolding recv_loop
  waited [] rest h = refl
  waited (t ∷ times) rest h =
      rw (le→ltb_false timeout (t - start) (omega (arith, h.0))) (waited times rest h.1)

  late_wait :
      (late : ℕ) (rest : List RecvEvent)
      → start + timeout < late
      → recv_loop 0 (some start) timeout len (again late ∷ rest) ≡ Received.raised rest
  unfolding recv_loop
  late_wait late rest h = rw (lt→ltb timeout (late - start) (omega arith)) refl

  -- Waits that end at most `timeout` seconds after the first one are not seen in the result when a
  -- segment follows them; a wait that ends later than that raises an error.
  pub plc_socket_recv-timeout :
      (times : List ℕ) (late b : ℕ) (bs : List ℕ) (rest : List RecvEvent)
      → All (λ t. t ≤ start + timeout) times
      → start + timeout < late
      → (plc_socket_recv timeout len (waits (start ∷ times) ++ (chunk b bs ∷ rest))
          ≡ plc_socket_recv timeout len (chunk b bs ∷ rest))
        × (plc_socket_recv timeout len (waits (start ∷ times) ++ (again late ∷ rest))
            ≡ Received.raised rest)
  unfolding plc_socket_recv recv_loop
  plc_socket_recv-timeout times late b bs rest within beyond = (
    waited times (chunk b bs ∷ rest) within,
    waited times (again late ∷ rest) within ∙ late_wait late rest beyond,
  )

-- What a call took is a non-empty start of the stream, and no longer than the buffer.
abbrev pub TakesFrom : List RecvEvent → ℕ → List ℕ → List RecvEvent → Type 0
TakesFrom events len bs rest =
    (stream events ≡ bs ++ stream rest) × (0 < length bs) × (length bs ≤ len)

stream-leftover :
    (xs : List ℕ) (rest : List RecvEvent) → stream (leftover xs rest) ≡ xs ++ stream rest
unfolding stream
stream-leftover [] rest = refl
stream-leftover (x ∷ xs) rest = refl

segment_taken :
    (len b : ℕ) (cs : List ℕ) (events : List RecvEvent)
    → 0 < len
    → TakesFrom (chunk b cs ∷ events) len (take len (b ∷ cs)) (leftover (drop len (b ∷ cs)) events)
unfolding stream
segment_taken zero b cs events h = absurd (omega arith)
segment_taken (suc len) b cs events h = (
  ap (λ l. b ∷ (l ++ stream events)) (sym (take-append-drop len cs))
      ∙ ap (λ l. b ∷ l) (append_assoc (take len cs) (drop len cs) (stream events))
      ∙ ap (λ l. b ∷ (take len cs ++ l)) (sym (stream-leftover (drop len cs) events)),
  omega arith,
  omega (arith, length-take len cs),
)

module _ (timeout len : ℕ) (some_room : 0 < len) where
  takes :
      (intr : ℕ) (start : Option ℕ) (events : List RecvEvent) (bs : List ℕ) (rest : List RecvEvent)
      → recv_loop intr start timeout len events ≡ got bs rest
      → TakesFrom events len bs rest
  unfolding recv_loop stream
  takes intr start [] bs rest e = absurd (cc)
  takes intr start (chunk b cs ∷ events) bs rest e =
      let p : take len (b ∷ cs) ≡ bs = cc in
      let q : leftover (drop len (b ∷ cs)) events ≡ rest = cc in
      rw (sym p, sym q) (segment_taken len b cs events some_room)
  takes intr start (shutdown ∷ events) bs rest e = absurd (cc)
  takes intr start (RecvEvent.interrupted ∷ events) bs rest e = elim (Bool-cases (ltb intr 5)) [
    | inl f ↦ takes (suc intr) start events bs rest (rw f at e)
    | inr f ↦ absurd (cc (rw f at e))
  ]
  takes intr start (again now ∷ events) bs rest e =
      elim (Bool-cases (timed_out start now timeout)) [
        | inl f ↦ absurd (cc (rw f at e))
        | inr f ↦ takes intr (started start now) events bs rest (rw f at e)
      ]
  takes intr start (RecvEvent.cancel ∷ events) bs rest e = absurd (cc)
  takes intr start (RecvEvent.fault ∷ events) bs rest e = absurd (cc)

  -- Whatever interruptions and waits come first, a receive that succeeds takes a non-empty start
  -- of what the peer sends, no more of it than the buffer has room for, and leaves the rest of it.
  pub plc_socket_recv-stream :
      (events : List RecvEvent) (bs : List ℕ) (rest : List RecvEvent)
      → plc_socket_recv timeout len events ≡ got bs rest
      → TakesFrom events len bs rest
  unfolding plc_socket_recv
  plc_socket_recv-stream events bs rest e = takes 0 none events bs rest e
