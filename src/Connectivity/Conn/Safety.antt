-- ===== src/Connectivity/Conn/Safety.antt =====
-- What the buffered calls of src/common/comm_connectivity.c keep whatever the kernel answers.
use plcontainer.Common.{
  ℕ, zero, suc, ◌+◌, ◌-◌, ◌≤◌, Option, none, List, [], ◌∷◌, ◌++◌, length, ltb, ◌≡◌, refl, sym, ap,
  ◌∙◌, subst, arith, Bool-cases, inl, inr, append_assoc,
}
use plcontainer.Outcome.{Outcome, done, raised, blocked, undefined, exhausted}
use plcontainer.Connectivity.Buffer.{IsValid, content, held, store}
use plcontainer.Connectivity.Buffer.Laws.{
  plc_buffer_maybe_reset-Same, plc_buffer_maybe_resize-Same, plc_buffer_maybe_resize-room,
  content-store,
}
use plcontainer.Connectivity.Socket.{
  RecvEvent, chunk, again, shutdown, Received, got, closed, timed_out, started, recv_loop,
  plc_socket_recv, stream,
}
use plcontainer.Connectivity.Conn.Read.{room-store}
use plcontainer.Connectivity.Socket.Laws.{plc_socket_recv-stream}
use plcontainer.Connectivity.Conn.{
  Conn, failure, receive_loop, resize_input, plc_buffer_receive, available,
}

-- The call ends or waits for the peer, and `P` holds of the connection that it leaves.
abbrev pub Ends : {A : Type 0} → (Conn → Type 0) → Outcome Conn A → Type 0
Ends P (done a d) = P d
Ends P (raised d) = P d
Ends P blocked = Unit {0}
Ends P undefined = ⊥
Ends P exhausted = ⊥

-- The input buffer is well formed, and what can be read is `bytes`.
pub record Reading (bytes : List ℕ) (c : Conn) : Type 0 where
  pub valid : IsValid c.input
  pub same : available c ≡ bytes

-- What a call that took no byte left of the events.
abbrev NoneTaken : List RecvEvent → Received → Type 0
NoneTaken events (got bs rest) = Unit {0}
NoneTaken events (closed rest) = stream rest ≡ stream events
NoneTaken events (Received.raised rest) = stream rest ≡ stream events
NoneTaken events Received.blocked = Unit {0}

after_event :
    (events rest : List RecvEvent) (r : Received)
    → stream rest ≡ stream events
    → NoneTaken rest r
    → NoneTaken events r
after_event events rest (got bs left) e h = tt
after_event events rest (closed left) e h = h ∙ e
after_event events rest (Received.raised left) e h = h ∙ e
after_event events rest Received.blocked e h = tt

module _ (timeout len : ℕ) where
  takes_none :
      (intr : ℕ) (start : Option ℕ) (events : List RecvEvent)
      → NoneTaken events (recv_loop intr start timeout len events)
  unfolding recv_loop stream
  takes_none intr start [] = tt
  takes_none intr start (chunk b bs ∷ rest) = tt
  takes_none intr start (shutdown ∷ rest) = refl
  takes_none intr start (RecvEvent.interrupted ∷ rest) = elim (Bool-cases (ltb intr 5)) [
    | inl e ↦ rw e (
        after_event (RecvEvent.interrupted ∷ rest) rest
          (recv_loop (suc intr) start timeout len rest) refl (takes_none (suc intr) start rest))
    | inr e ↦ rw e refl
  ]
  takes_none intr start (again now ∷ rest) = elim (Bool-cases (timed_out start now timeout)) [
    | inl e ↦ rw e refl
    | inr e ↦ rw e (
        after_event (again now ∷ rest) rest (recv_loop intr (started start now) timeout len rest)
          refl (takes_none intr (started start now) rest))
  ]
  takes_none intr start (RecvEvent.cancel ∷ rest) = refl
  takes_none intr start (RecvEvent.fault ∷ rest) = refl

untaken :
    (timeout len : ℕ) (events : List RecvEvent) (r : Received)
    → plc_socket_recv timeout len events ≡ r
    → NoneTaken events r
unfolding plc_socket_recv
untaken timeout len events r e = subst (NoneTaken events) e (takes_none timeout len 0 none events)

module _ (bytes : List ℕ) where
  receive_loop-Reading :
      (fuel n : ℕ) (c : Conn)
      → Reading bytes c
      → n ≤ fuel
      → c.input.p_end + n ≤ c.input.buf_size
      → Ends (Reading bytes) (receive_loop fuel n c)
  unfolding receive_loop
  receive_loop-Reading fuel zero c r enough room = r
  receive_loop-Reading zero (suc n) c r enough room = absurd (omega arith)
  receive_loop-Reading (suc fuel) (suc n) c r enough room =
      answered (plc_socket_recv c.rx_timeout_sec (c.input.buf_size - c.input.p_end) c.inbound) refl
        (λ bs rest.
          receive_loop-Reading fuel (suc n - length bs)
            (record c { input = store c.input bs; inbound = rest }))
    where
      answered :
          (a : Received)
          → plc_socket_recv c.rx_timeout_sec (c.input.buf_size - c.input.p_end) c.inbound ≡ a
          → ((bs : List ℕ) (rest : List RecvEvent)
              → Reading bytes (record c { input = store c.input bs; inbound = rest })
              → suc n - length bs ≤ fuel
              → (store c.input bs).p_end + (suc n - length bs) ≤ (store c.input bs).buf_size
              → Ends (Reading bytes) (
                  receive_loop fuel
                    (suc n - length bs)
                    (record c { input = store c.input bs; inbound = rest })))
          → Ends (Reading bytes) (elim a [
            | got bs rest ↦
                receive_loop fuel
                  (suc n - length bs)
                  (record c { input = store c.input bs; inbound = rest })
            | closed rest ↦ done failure (record c { inbound = rest })
            | Received.raised rest ↦ raised (record c { inbound = rest })
            | Received.blocked ↦ blocked
          ])
      answered (got bs rest) e next =
          let free = c.input.buf_size - c.input.p_end in
          let (split, some_byte, fits) =
            plc_socket_recv-stream c.rx_timeout_sec free (omega arith) c.inbound bs rest e in
          let (v, kept) = content-store r.valid bs (omega (arith, r.valid)) in
          next bs rest
            (record {
              valid = v;
              same =
                  ap (λ x. x ++ stream rest) kept
                  ∙ append_assoc (content c.input) bs (stream rest)
                  ∙ ap (λ x. content c.input ++ x) (sym split)
                  ∙ r.same;
            })
            (omega arith) (room-store c.input bs n room fits)
      answered (closed rest) e next = record {
        valid = r.valid;
        same =
            ap (λ x. content c.input ++ x)
              (untaken c.rx_timeout_sec (c.input.buf_size - c.input.p_end) c.inbound (closed rest)
                e)
            ∙ r.same;
      }
      answered (Received.raised rest) e next = record {
        valid = r.valid;
        same =
            ap (λ x. content c.input ++ x)
              (untaken c.rx_timeout_sec (c.input.buf_size - c.input.p_end) c.inbound
                (Received.raised rest) e)
            ∙ r.same;
      }
      answered Received.blocked e next = tt

-- Whatever `recv` answers, errors, interruptions, waits and a peer that has shut down among them, on
-- a well-formed input buffer `plcBufferReceive` succeeds, returns -1, raises an error or waits for a
-- peer that sends nothing more; it runs out of nothing and writes outside of nothing. Afterwards the
-- buffer is well formed, and no byte of the stream is lost, repeated or out of its order.
pub plc_buffer_receive-Reading :
    (n : ℕ) (c : Conn) → IsValid c.input → Ends (Reading (available c)) (plc_buffer_receive n c)
unfolding plc_buffer_receive resize_input
plc_buffer_receive-Reading n c v = elim (Bool-cases (ltb (held c.input) n)) [
  | inr e ↦ rw e (record { valid = v; same = refl })
  | inl e ↦
      let s = plc_buffer_maybe_reset-Same v in
      let t = plc_buffer_maybe_resize-Same s.valid n in
      let d = resize_input n c in
      let k = n - held d.input in
      rw e (
        receive_loop-Reading (available c) k k d
          (record { valid = t.valid; same = ap (λ x. x ++ stream c.inbound) (t.same ∙ s.same) })
          (omega arith) (omega (arith, plc_buffer_maybe_resize-room s.valid n)))
]
