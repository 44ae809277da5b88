-- ===== src/Connectivity/Conn/Write.antt =====
-- Appending to a connection and flushing it: src/common/comm_connectivity.c.
use plcontainer.Common.{
  ℕ, zero, suc, ◌+◌, ◌-◌, ◌≤◌, ◌<◌, Bool, true, false, ◌||◌, List, [], ◌∷◌, ◌++◌, take, length, ltb,
  ◌≡◌, refl, sym, ap, ◌∙◌, arith, All, le→ltb_false, ltb_false→le, Bool-cases, inl, inr,
  append_assoc, append-nil, take-append-drop,
}
use plcontainer.Outcome.{done, Action}
use plcontainer.Connectivity.Buffer.{
  Buffer, IsValid, content, held, plc_buffer_size, plc_buffer_min_free, plc_buffer_maybe_reset,
  plc_buffer_maybe_resize, store, consume,
}
use plcontainer.Connectivity.Buffer.Laws.{
  Same, held-Same, plc_buffer_maybe_reset-Same, plc_buffer_maybe_resize-Same,
  plc_buffer_maybe_resize-room, content-store, content-consume,
}
use plcontainer.Connectivity.Socket.{SendEvent, accept, sent, plc_socket_send}
use plcontainer.Connectivity.Conn.{
  Conn, Status, success, after_send, flush_loop, reset_output, plc_buffer_maybe_flush, make_room,
  store_output, plc_buffer_append, plc_buffer_flush, outgoing,
}

abbrev Accepts : SendEvent → Type 0
Accepts (accept n) = Unit {0}
Accepts _ = ⊥

-- A connection that can be written to: no `send` fails.
pub record IsReady (c : Conn) : Type 0 where
  pub valid : IsValid c.output
  pub accepts : All Accepts c.outbound

-- The call succeeds, and the peer will have received `bs` besides.
pub record Wrote (bs : List ℕ) (m : Action Conn Status) (c : Conn) : Type 0 where
  pub after : Conn
  pub returns : m c ≡ done success after
  pub ready : IsReady after
  pub delivers : outgoing after ≡ outgoing c ++ bs

accepted :
    (len : ℕ) (events : List SendEvent)
    → All Accepts events
    → 0 < len
    → (n : ℕ) × (rest : List SendEvent) × (plc_socket_send len events ≡ sent n rest)
      × All Accepts rest
      × (0 < n)
      × (n ≤ len)
unfolding plc_socket_send
accepted len [] h p = (len, [], refl, tt, p, omega arith)
accepted len (accept k ∷ rest) h p = (_, rest, refl, h.1, omega arith, omega arith)
accepted len (SendEvent.interrupted ∷ rest) h p = absurd h.0
accepted len (SendEvent.cancel ∷ rest) h p = absurd h.0
accepted len (SendEvent.fault ∷ rest) h p = absurd h.0

-- A flush that succeeds and leaves nothing behind.
pub record Flushed (m : Action Conn Status) (c : Conn) : Type 0 where
  pub after : Conn
  pub returns : m c ≡ done success after
  pub ready : IsReady after
  pub delivers : outgoing after ≡ outgoing c
  pub empty : held after.output ≡ 0

module _ (c : Conn) (r : IsReady c) where
  idle : (m : Action Conn Status) → m c ≡ done success c → held c.output ≡ 0 → Flushed m c
  idle m e h = record { after = c; returns = e; ready = r; delivers = refl; empty = h }

  module _ (n : ℕ) (rest : List SendEvent) (le : n ≤ held c.output) where
    after_send-IsReady : All Accepts rest → IsReady (after_send c n rest)
    after_send-IsReady acc = record { valid = (content-consume r.valid n le).0; accepts = acc }

    outgoing-after_send : outgoing (after_send c n rest) ≡ outgoing c
    outgoing-after_send =
        append_assoc c.wire (take n (content c.output)) (content (consume c.output n))
        ∙ ap (λ l. c.wire ++ l)
            (ap (λ l. take n (content c.output) ++ l) (content-consume r.valid n le).1
              ∙ take-append-drop n (content c.output))

-- A flush from a later state of the same stream is one from here.
Flushed-back :
    {m k : Action Conn Status} {c d : Conn}
    → outgoing d ≡ outgoing c
    → m c ≡ k d
    → Flushed k d
    → Flushed m c
Flushed-back e f w = record {
  after = w.after;
  returns = f ∙ w.returns;
  ready = w.ready;
  delivers = w.delivers ∙ e;
  empty = w.empty;
}

flush_loop-round :
    (fuel n : ℕ) (c : Conn) (rest : List SendEvent)
    → ltb c.output.p_start c.output.p_end ≡ true
    → plc_socket_send (held c.output) c.outbound ≡ sent n rest
    → flush_loop (suc fuel) c ≡ flush_loop fuel (after_send c n rest)
unfolding flush_loop
flush_loop-round fuel n c rest e answer = ground arith

held-consume : (b : Buffer) (n fuel : ℕ) → 0 < n → held b ≤ suc fuel → held (consume b n) ≤ fuel
unfolding consume
held-consume b n fuel p h = omega arith

flush_loop-Flushed :
    (fuel : ℕ) (c : Conn) → IsReady c → held c.output ≤ fuel → Flushed (flush_loop fuel) c
unfolding flush_loop
flush_loop-Flushed zero c r h =
    idle c r (flush_loop zero)
      (rw (le→ltb_false c.output.p_start c.output.p_end (omega (arith, r.valid)))) (omega arith)
flush_loop-Flushed (suc fuel) c r h = elim (Bool-cases (ltb c.output.p_start c.output.p_end)) [
  | inr e ↦ idle c r (flush_loop (suc fuel)) (rw (e, flush_loop)) (ground arith)
  | inl e ↦
      let (n, rest, answer, acc, pos, le) =
        accepted (held c.output) c.outbound r.accepts (ground arith) in
      Flushed-back (outgoing-after_send c r n rest le) (flush_loop-round fuel n c rest e answer) (
        flush_loop-Flushed fuel (after_send c n rest) (after_send-IsReady c r n rest le acc)
          (held-consume c.output n fuel pos h))
]

-- A buffer with the same content in its place.
module _ (c : Conn) (r : IsReady c) (b : Buffer) (s : Same c.output b) where
  replaced-IsReady : IsReady (record c { output = b })
  replaced-IsReady = record { valid = s.valid; accepts = r.accepts }

  outgoing-replaced : outgoing (record c { output = b }) ≡ outgoing c
  outgoing-replaced = ap (λ l. c.wire ++ l) s.same

abbrev reset_to : Conn → Conn
reset_to c = record c { output = plc_buffer_maybe_reset c.output }

abbrev flushes : Bool → Conn → Bool
flushes force c =
    ltb (c.output.buf_size - c.output.p_end) plc_buffer_min_free
    || ltb plc_buffer_size (c.output.p_end - c.output.p_start)
    || force

maybe_flush_runs :
    (force : Bool) (c d : Conn)
    → flushes force c ≡ true
    → flush_loop (held c.output) c ≡ done success d
    → plc_buffer_maybe_flush force c ≡ done success (reset_to d)
unfolding plc_buffer_maybe_flush
maybe_flush_runs force c d e f = rw (e, f)

maybe_flush-Flushed :
    (force : Bool) (c : Conn)
    → IsReady c
    → flushes force c ≡ true
    → Flushed (plc_buffer_maybe_flush force) c
maybe_flush-Flushed force c r e =
    let f = flush_loop-Flushed (held c.output) c r (omega arith) in
    let s = plc_buffer_maybe_reset-Same f.ready.valid in
    record {
      after = reset_to f.after;
      returns = maybe_flush_runs force c f.after e f.returns;
      ready = replaced-IsReady f.after f.ready (plc_buffer_maybe_reset f.after.output) s;
      delivers =
          outgoing-replaced f.after f.ready (plc_buffer_maybe_reset f.after.output) s ∙ f.delivers;
      empty = held-Same f.ready.valid s ∙ f.empty;
    }

-- Where no `send` fails and the output buffer is well formed, `plcBufferFlush` succeeds, hands all
-- that was appended before it to the kernel, in order, and leaves the buffer empty and well
-- formed, however few bytes the kernel takes at a time.
pub plc_buffer_flush-Flushed : (c : Conn) → IsReady c → Flushed plc_buffer_flush c
unfolding plc_buffer_flush
plc_buffer_flush-Flushed c r = maybe_flush-Flushed true c r (ground arith)

maybe_flush-Wrote :
    (force : Bool) (c : Conn) → IsReady c → Wrote [] (plc_buffer_maybe_flush force) c
unfolding plc_buffer_maybe_flush
maybe_flush-Wrote force c r = elim (Bool-cases (flushes force c)) [
  | inl e ↦
      let f = maybe_flush-Flushed force c r e in
      record {
        after = f.after;
        returns = f.returns;
        ready = f.ready;
        delivers = f.delivers ∙ sym (append-nil (outgoing c));
      }
  | inr e ↦ record {
    after = c;
    returns = rw e;
    ready = r;
    delivers = sym (append-nil (outgoing c));
  }
]

store-Wrote :
    (bs : List ℕ) (c : Conn)
    → IsReady c
    → c.output.p_end + length bs ≤ c.output.buf_size
    → Wrote bs (store_output bs) c
store-Wrote bs c r h =
    let (v, e) = content-store r.valid bs h in
    record {
      after = record c { output = store c.output bs };
      returns = refl;
      ready = record { valid = v; accepts = r.accepts };
      delivers = ap (λ l. c.wire ++ l) e ∙ sym (append_assoc c.wire (content c.output) bs);
    }

-- What a call does from a later state of the same stream it does from here.
Wrote-back :
    {m k : Action Conn Status} {c d : Conn} (bs : List ℕ)
    → outgoing d ≡ outgoing c
    → m c ≡ k d
    → Wrote bs k d
    → Wrote bs m c
Wrote-back bs e f w = record {
  after = w.after;
  returns = f ∙ w.returns;
  ready = w.ready;
  delivers = w.delivers ∙ ap (λ l. l ++ bs) e;
}

abbrev resized_to : ℕ → Conn → Conn
resized_to n c = record c { output = plc_buffer_maybe_resize c.output n }

append_after_room :
    (bs : List ℕ) (c d : Conn)
    → ltb (c.output.buf_size - c.output.p_end) (length bs) ≡ true
    → plc_buffer_maybe_flush false (reset_to c) ≡ done success d
    → plc_buffer_append bs c ≡ store_output bs (resized_to (length bs) d)
unfolding plc_buffer_append make_room reset_output
append_after_room bs c d e f = rw (e, f)

-- Where no `send` fails and the output buffer is well formed, `plcBufferAppend` succeeds for any
-- number of bytes for which the sums of the sizes stay below 2^31 (here they are natural numbers),
-- and what the kernel got and the buffer holds is then what it was before,
-- followed by those bytes, also where the buffer was moved, flushed, shrunk or grown; the buffer
-- is well formed again.
pub plc_buffer_append-Wrote :
    (bs : List ℕ) (c : Conn) → IsReady c → Wrote bs (plc_buffer_append bs) c
unfolding plc_buffer_append
plc_buffer_append-Wrote bs c r =
    elim (Bool-cases (ltb (c.output.buf_size - c.output.p_end) (length bs))) [
      | inr e ↦
          Wrote-back {k = store_output bs} {d = c} bs refl (rw e)
            (store-Wrote bs c r (omega (arith, ltb_false→le _ _ e)))
      | inl e ↦
          let s = plc_buffer_maybe_reset-Same r.valid in
          let reset-IsReady = replaced-IsReady c r (plc_buffer_maybe_reset c.output) s in
          let f = maybe_flush-Wrote false (reset_to c) reset-IsReady in
          let t = plc_buffer_maybe_resize-Same f.ready.valid (length bs) in
          let d = resized_to (length bs) f.after in
          Wrote-back {k = store_output bs} {d = d} bs
            (outgoing-replaced f.after f.ready d.output t
              ∙ f.delivers
              ∙ append-nil (outgoing (reset_to c))
              ∙ outgoing-replaced c r (plc_buffer_maybe_reset c.output) s)
            (append_after_room bs c f.after e f.returns)
            (store-Wrote bs d (replaced-IsReady f.after f.ready d.output t)
              (omega (arith, plc_buffer_maybe_resize-room f.ready.valid (length bs))))
    ]
