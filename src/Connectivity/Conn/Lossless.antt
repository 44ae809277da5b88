-- ===== src/Connectivity/Conn/Lossless.antt =====
-- What appending and flushing in src/common/comm_connectivity.c keep whatever the kernel answers.
use plcontainer.Common.{
  ℕ, zero, suc, ◌+◌, ◌-◌, ◌≤◌, ◌<◌, Bool, true, false, ◌||◌, List, [], ◌∷◌, ◌++◌, take, length, ltb,
  ◌≡◌, refl, sym, ap, ◌∙◌, subst, arith, Bool-cases, inl, inr, append_assoc, take-append-drop,
  ltb→lt, ltb_false→le, le→ltb_false,
}
use plcontainer.Outcome.{
  Outcome, done, raised, blocked, undefined, exhausted, Action, pure, continue,
}
use plcontainer.Connectivity.Buffer.{
  Buffer, IsValid, content, held, plc_buffer_size, plc_buffer_min_free, plc_buffer_maybe_reset,
  store, consume,
}
use plcontainer.Connectivity.Buffer.Laws.{
  Same, plc_buffer_maybe_reset-Same, plc_buffer_maybe_resize-Same, plc_buffer_maybe_resize-room,
  content-store, content-consume,
}
use plcontainer.Connectivity.Socket.{SendEvent, accept, Sent, sent, send_loop, plc_socket_send}
use plcontainer.Connectivity.Conn.{
  Conn, Status, success, failure, after_send, flush_loop, reset_output, plc_buffer_maybe_flush,
  make_room, resize_output, store_output, plc_buffer_append, plc_buffer_flush, outgoing,
}

-- The output buffer is well formed, and what the kernel got and the buffer holds is `bytes`.
pub record Writing (bytes : List ℕ) (c : Conn) : Type 0 where
  pub valid : IsValid c.output
  pub same : outgoing c ≡ bytes

-- The call succeeds and `Q` holds of the connection that it leaves, or it raises an error and `P` does.
abbrev pub Writes : (Conn → Type 0) → (Conn → Type 0) → Outcome Conn Status → Type 0
Writes P Q (done success d) = Q d
Writes P Q (done failure d) = ⊥
Writes P Q (raised d) = P d
Writes P Q blocked = ⊥
Writes P Q undefined = ⊥
Writes P Q exhausted = ⊥

abbrev Progress : ℕ → Sent → Type 0
Progress len (sent n rest) = (0 < n) × (n ≤ len)
Progress len (Sent.raised rest) = Unit {0}

progress :
    (intr len : ℕ) (events : List SendEvent) → 0 < len → Progress len (send_loop intr len events)
unfolding send_loop
progress intr len [] h = (h, omega arith)
progress intr len (accept n ∷ rest) h = (omega arith, omega arith)
progress intr len (SendEvent.interrupted ∷ rest) h = elim (Bool-cases (ltb intr 5)) [
  | inl e ↦ rw e (progress (suc intr) len rest h)
  | inr e ↦ rw e tt
]
progress intr len (SendEvent.cancel ∷ rest) h = tt
progress intr len (SendEvent.fault ∷ rest) h = tt

progresses :
    (len : ℕ) (events : List SendEvent) (r : Sent)
    → 0 < len
    → plc_socket_send len events ≡ r
    → Progress len r
unfolding plc_socket_send
progresses len events r h e = subst (Progress len) e (progress 0 len events h)

module _ (bytes : List ℕ) where
  flush_loop-Writes :
      (fuel : ℕ) (c : Conn)
      → Writing bytes c
      → held c.output ≤ fuel
      → Writes (Writing bytes) (Writing bytes) (flush_loop fuel c)
  unfolding flush_loop consume
  flush_loop-Writes zero c w enough =
      rw (le→ltb_false c.output.p_start c.output.p_end (omega arith)) w
  flush_loop-Writes (suc fuel) c w enough =
      round (ltb c.output.p_start c.output.p_end) refl (plc_socket_send (held c.output) c.outbound)
        refl (λ n rest. flush_loop-Writes fuel (after_send c n rest))
    where
      round :
          (more : Bool)
          → ltb c.output.p_start c.output.p_end ≡ more
          → (a : Sent) → plc_socket_send (held c.output) c.outbound ≡ a
          → ((n : ℕ) (rest : List SendEvent)
              → Writing bytes (after_send c n rest)
              → held (after_send c n rest).output ≤ fuel
              → Writes (Writing bytes) (Writing bytes) (flush_loop fuel (after_send c n rest)))
          → Writes (Writing bytes) (Writing bytes) (elim more [
            | true ↦ elim a [
              | sent n rest ↦ flush_loop fuel (after_send c n rest)
              | Sent.raised rest ↦ raised (record c { outbound = rest })
            ]
            | false ↦ done success c
          ])
      round false m a e next = w
      round true m (Sent.raised rest) e next = record { valid = w.valid; same = w.same }
      round true m (sent n rest) e next =
          let some_held : 0 < held c.output =
            omega (arith, ltb→lt c.output.p_start c.output.p_end m) in
          let (some_byte, fits) = progresses (held c.output) c.outbound (sent n rest) some_held e in
          let (v, left) = content-consume w.valid n fits in
          next n rest
            (record {
              valid = v;
              same =
                  append_assoc c.wire (take n (content c.output)) (content (consume c.output n))
                  ∙ ap (λ l. c.wire ++ (take n (content c.output) ++ l)) left
                  ∙ ap (λ l. c.wire ++ l) (take-append-drop n (content c.output))
                  ∙ w.same;
            })
            (omega arith)

chained :
    (P Q R : Conn → Type 0) (o : Outcome Conn Status) (k : Action Conn Status)
    → Writes P Q o
    → ((d : Conn) → Q d → Writes P R (k d))
    → Writes P R (continue (λ status. elim status [ success ↦ k | failure ↦ pure failure ]) o)
chained P Q R (done success d) k w next = next d w
chained P Q R (done failure d) k w next = absurd w
chained P Q R (raised d) k w next = w
chained P Q R blocked k w next = absurd w
chained P Q R undefined k w next = absurd w
chained P Q R exhausted k w next = absurd w

module _ (bytes : List ℕ) where
  replaced :
      {c : Conn} {b : Buffer}
      → Writing bytes c
      → Same c.output b
      → Writing bytes (record c { output = b })
  replaced {c} w s = record { valid = s.valid; same = ap (λ l. c.wire ++ l) s.same ∙ w.same }

  reset :
      (c : Conn)
      → Writing bytes c
      → Writing bytes (record c { output = plc_buffer_maybe_reset c.output })
  reset c w = replaced w (plc_buffer_maybe_reset-Same w.valid)

  maybe_flush-Writes :
      (force : Bool) (c : Conn)
      → Writing bytes c
      → Writes (Writing bytes) (Writing bytes) (plc_buffer_maybe_flush force c)
  unfolding plc_buffer_maybe_flush reset_output
  maybe_flush-Writes force c w =
      elim (Bool-cases (
        ltb (c.output.buf_size - c.output.p_end) plc_buffer_min_free
        || ltb plc_buffer_size (c.output.p_end - c.output.p_start)
        || force)) [
          | inl e ↦ rw e (
              chained (Writing bytes) (Writing bytes) (Writing bytes) (flush_loop (held c.output) c)
                reset_output (flush_loop-Writes bytes (held c.output) c w (omega arith))
                (λ d v. reset d v))
          | inr e ↦ rw e w
        ]

  record Roomy (n : ℕ) (c : Conn) : Type 0 where
    writing : Writing bytes c
    room : c.output.p_end + n ≤ c.output.buf_size

  make_room-Writes :
      (n : ℕ) (c : Conn) → Writing bytes c → Writes (Writing bytes) (Roomy n) (make_room n c)
  unfolding make_room reset_output
  make_room-Writes n c w =
      let d = record c { output = plc_buffer_maybe_reset c.output } in
      chained (Writing bytes) (Writing bytes) (Roomy n) (plc_buffer_maybe_flush false d)
        (resize_output n) (maybe_flush-Writes false d (reset c w))
        (λ e v. record {
          writing = replaced v (plc_buffer_maybe_resize-Same v.valid n);
          room = omega (arith, plc_buffer_maybe_resize-room v.valid n);
        })

  stores :
      (bs : List ℕ) (c : Conn)
      → Roomy (length bs) c
      → Writing (bytes ++ bs) (record c { output = store c.output bs })
  stores bs c r =
      let (v, kept) = content-store r.writing.valid bs r.room in
      record {
        valid = v;
        same =
            ap (λ l. c.wire ++ l) kept
            ∙ sym (append_assoc c.wire (content c.output) bs)
            ∙ ap (λ l. l ++ bs) r.writing.same;
      }

-- Whatever `send` answers, errors and interruptions among them, on a well-formed output buffer
-- `plcBufferAppend` either succeeds, and what the kernel got and the buffer holds is followed by
-- the bytes, or raises an error, and it is what it was: no byte is lost or sent twice. The buffer is
-- well formed in both cases.
pub plc_buffer_append-Writes :
    (bs : List ℕ) (c : Conn)
    → IsValid c.output
    → Writes (Writing (outgoing c)) (Writing (outgoing c ++ bs)) (plc_buffer_append bs c)
unfolding plc_buffer_append
plc_buffer_append-Writes bs c v =
    let w : Writing (outgoing c) c = record { valid = v; same = refl } in
    elim (Bool-cases (ltb (c.output.buf_size - c.output.p_end) (length bs))) [
      | inr e ↦ rw e (
          stores (outgoing c) bs c (record {
            writing = w;
            room =
                omega (arith, v, ltb_false→le (c.output.buf_size - c.output.p_end) (length bs) e);
          }))
      | inl e ↦ rw e (
          chained (Writing (outgoing c)) (Roomy (outgoing c) (length bs))
            (Writing (outgoing c ++ bs)) (make_room (length bs) c) (store_output bs)
            (make_room-Writes (outgoing c) (length bs) c w) (λ d r. stores (outgoing c) bs d r))
    ]

-- Whatever `send` answers, on a well-formed output buffer `plcBufferFlush` succeeds or raises an
-- error, and in both cases what the kernel got and the buffer holds is what it was, and the buffer is
-- well formed.
pub plc_buffer_flush-Writes :
    (c : Conn)
    → IsValid c.output
    → Writes (Writing (outgoing c)) (Writing (outgoing c)) (plc_buffer_flush c)
unfolding plc_buffer_flush
plc_buffer_flush-Writes c v =
    maybe_flush-Writes (outgoing c) true c (record { valid = v; same = refl })
