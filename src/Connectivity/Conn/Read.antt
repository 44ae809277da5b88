-- ===== src/Connectivity/Conn/Read.antt =====
-- Reading from a connection: src/common/comm_connectivity.c.
use plcontainer.Common.{
  ℕ, zero, suc, ◌+◌, ◌-◌, ◌≤◌, ◌<◌, true, some, List, [], ◌∷◌, ◌++◌, take, drop, length, ltb, ◌≡◌,
  refl, sym, ap, ap₂, ◌∙◌, arith, All, Bool-cases, inl, inr, append_assoc, take-append-drop,
  ltb_false→le, take-take, split_prefix, length-take, length-append,
}
use plcontainer.Outcome.{done, Action}
use plcontainer.Connectivity.Buffer.{Buffer, IsValid, content, held, store, consume}
use plcontainer.Connectivity.Buffer.Laws.{
  Same, length-content, plc_buffer_maybe_reset-Same, plc_buffer_maybe_resize-Same,
  plc_buffer_maybe_resize-room, content-store, content-consume,
}
use plcontainer.Connectivity.Socket.{RecvEvent, chunk, got, leftover, plc_socket_recv, stream}
use plcontainer.Connectivity.Conn.{
  Conn, Status, success, receive_loop, resize_input, plc_buffer_receive, plc_buffer_read, available,
}

abbrev Delivers : RecvEvent → Type 0
Delivers (chunk b bs) = Unit {0}
Delivers _ = ⊥

-- A connection whose peer sends segments of its stream, of any size, and nothing goes wrong.
pub record IsLive (c : Conn) : Type 0 where
  pub valid : IsValid c.input
  pub delivers : All Delivers c.inbound

delivered :
    (timeout len : ℕ) (events : List RecvEvent)
    → All Delivers events
    → 0 < len
    → 0 < length (stream events)
    → (bs : List ℕ) × (rest : List RecvEvent) × (plc_socket_recv timeout len events ≡ got bs rest)
      × All Delivers rest
      × (0 < length bs)
      × (length bs ≤ len)
      × (stream events ≡ bs ++ stream rest)
unfolding plc_socket_recv stream
delivered timeout len [] d p q = absurd (omega arith)
delivered timeout zero (chunk b bs ∷ rest) d p q = absurd (omega arith)
delivered timeout (suc len) (chunk b bs ∷ rest) d p q = (
  b ∷ take len bs,
  leftover (drop len bs) rest,
  refl,
  leftover-Delivers (drop len bs) d.1,
  omega arith,
  omega (arith, length-take len bs),
  ap (λ l. b ∷ l)
      (ap (λ l. l ++ stream rest) (sym (take-append-drop len bs))
        ∙ append_assoc (take len bs) (drop len bs) (stream rest)
        ∙ ap (λ l. take len bs ++ l) (stream-leftover (drop len bs) rest)),
)
  where
    leftover-Delivers : (xs : List ℕ) → All Delivers rest → All Delivers (leftover xs rest)
    leftover-Delivers [] h = h
    leftover-Delivers (x ∷ xs) h = (tt, h)

    stream-leftover :
        (xs : List ℕ) (rest : List RecvEvent) → xs ++ stream rest ≡ stream (leftover xs rest)
    stream-leftover [] rest = refl
    stream-leftover (x ∷ xs) rest = refl
delivered timeout len (RecvEvent.shutdown ∷ rest) d p q = absurd d.0
delivered timeout len (RecvEvent.again now ∷ rest) d p q = absurd d.0
delivered timeout len (RecvEvent.interrupted ∷ rest) d p q = absurd d.0
delivered timeout len (RecvEvent.cancel ∷ rest) d p q = absurd d.0
delivered timeout len (RecvEvent.fault ∷ rest) d p q = absurd d.0

-- A receive that succeeds with `n` bytes at hand.
pub record Filled (n : ℕ) (m : Action Conn Status) (c : Conn) : Type 0 where
  pub after : Conn
  pub returns : m c ≡ done success after
  pub live : IsLive after
  pub keeps : available after ≡ available c
  pub enough : n ≤ held after.input

Filled-back :
    {n : ℕ} {m k : Action Conn Status} {c d : Conn}
    → available d ≡ available c
    → m c ≡ k d
    → Filled n k d
    → Filled n m c
Filled-back e f w = record {
  after = w.after;
  returns = f ∙ w.returns;
  live = w.live;
  keeps = w.keeps ∙ e;
  enough = w.enough;
}

abbrev after_recv : Conn → List ℕ → List RecvEvent → Conn
after_recv c bs rest = record c { input = store c.input bs; inbound = rest }

receive_loop-round :
    (fuel n : ℕ) (c : Conn) (bs : List ℕ) (rest : List RecvEvent)
    → plc_socket_recv c.rx_timeout_sec (c.input.buf_size - c.input.p_end) c.inbound ≡ got bs rest
    → receive_loop (suc fuel) (suc n) c
      ≡ receive_loop fuel (suc n - length bs) (after_recv c bs rest)
unfolding receive_loop
receive_loop-round fuel n c bs rest e = rw (e, receive_loop)

held-store :
    (b : Buffer) (bs : List ℕ) → b.p_start ≤ b.p_end → held (store b bs) ≡ held b + length bs
unfolding store
held-store b bs h = omega arith

pub room-store :
    (b : Buffer) (bs : List ℕ) (n : ℕ)
    → b.p_end + suc n ≤ b.buf_size
    → length bs ≤ b.buf_size - b.p_end
    → (store b bs).p_end + (suc n - length bs) ≤ (store b bs).buf_size
unfolding store
room-store b bs n h k = omega arith

receive_loop-Filled :
    (fuel n want : ℕ) (c : Conn)
    → IsLive c
    → n ≤ fuel
    → n ≡ want - held c.input
    → want ≤ length (available c)
    → c.input.p_end + n ≤ c.input.buf_size
    → Filled want (receive_loop fuel n) c
unfolding receive_loop
receive_loop-Filled fuel zero want c l f w a room = record {
  after = c;
  returns = refl;
  live = l;
  keeps = refl;
  enough = omega arith;
}
receive_loop-Filled zero (suc n) want c l f w a room = absurd (omega arith)
receive_loop-Filled (suc fuel) (suc n) want c l f w a room =
    let free = c.input.buf_size - c.input.p_end in
    let (bs, rest, answer, d, some_byte, fits, split) =
      delivered c.rx_timeout_sec free c.inbound l.delivers (omega arith) (
        omega
          (arith, length-append (content c.input) (stream c.inbound), length-content l.valid)) in
    let (v, e) = content-store l.valid bs (omega (arith, l.valid)) in
    let keeps : available (after_recv c bs rest) ≡ available c =
      ap (λ x. x ++ stream rest) e
      ∙ append_assoc (content c.input) bs (stream rest)
      ∙ ap (λ x. content c.input ++ x) (sym split) in
    Filled-back keeps (receive_loop-round fuel n c bs rest answer) (
      receive_loop-Filled fuel (suc n - length bs) want (after_recv c bs rest)
        (record { valid = v; delivers = d }) (omega arith)
        (omega (arith, held-store c.input bs l.valid.ordered)) (omega (arith, ap length keeps))
        (room-store c.input bs n room fits))

resize_input-Same : (n : ℕ) (c : Conn) → IsValid c.input → Same c.input (resize_input n c).input
unfolding resize_input
resize_input-Same n c v =
    let s = plc_buffer_maybe_reset-Same v in
    let t = plc_buffer_maybe_resize-Same s.valid n in
    record { valid = t.valid; same = t.same ∙ s.same }

resize_input-room :
    (n : ℕ) (c : Conn)
    → IsValid c.input
    → (resize_input n c).input.p_end + n ≤ (resize_input n c).input.buf_size
unfolding resize_input
resize_input-room n c v =
    omega (arith, plc_buffer_maybe_resize-room (plc_buffer_maybe_reset-Same v).valid n)

resize_input-inbound : (n : ℕ) (c : Conn) → (resize_input n c).inbound ≡ c.inbound
unfolding resize_input
resize_input-inbound n c = refl

receive_runs :
    (n : ℕ) (c : Conn)
    → ltb (held c.input) n ≡ true
    → plc_buffer_receive n c
      ≡ receive_loop
          (n - held (resize_input n c).input)
          (n - held (resize_input n c).input)
          (resize_input n c)
unfolding plc_buffer_receive
receive_runs n c e = rw e

-- Where the peer sends segments of any size, with no error among them, the input buffer is well
-- formed and at least `n` bytes are buffered or to come, `plcBufferReceive` succeeds with at
-- least `n` bytes in the buffer, and no byte of the stream is lost or repeated.
pub plc_buffer_receive-Filled :
    (n : ℕ) (c : Conn) → IsLive c → n ≤ length (available c) → Filled n (plc_buffer_receive n) c
unfolding plc_buffer_receive
plc_buffer_receive-Filled n c l a = elim (Bool-cases (ltb (held c.input) n)) [
  | inr e ↦ record {
    after = c;
    returns = rw e;
    live = l;
    keeps = refl;
    enough = ltb_false→le (held c.input) n e;
  }
  | inl e ↦
      let d = resize_input n c in
      let s = resize_input-Same n c l.valid in
      let keeps : available d ≡ available c =
        ap₂ (λ x y. x ++ stream y) s.same (resize_input-inbound n c) in
      let k = n - held d.input in
      Filled-back {k = receive_loop k k} keeps (receive_runs n c e) (
        receive_loop-Filled k k n d
          (record { valid = s.valid; delivers = rw (resize_input-inbound n c) l.delivers })
          (omega arith) refl (omega (arith, ap length keeps))
          (omega (arith, resize_input-room n c l.valid)))
]

-- A call returns `a`, and `rest` is what can still be read.
pub record Reads {A : Type 0} (a : A) (rest : List ℕ) (m : Action Conn A) (c : Conn) : Type 0 where
  pub after : Conn
  pub returns : m c ≡ done a after
  pub live : IsLive after
  pub leaves : available after ≡ rest

read_runs :
    (n : ℕ) (c d : Conn)
    → plc_buffer_receive n c ≡ done success d
    → plc_buffer_read n c
      ≡ done
          (some (take n (drop d.input.p_start d.input.bytes)))
          (record d { input = consume d.input n })
unfolding plc_buffer_read
read_runs n c d e = rw e

-- Where the peer sends segments of any size, with no error among them, and the input buffer is
-- well formed, `plcBufferRead` succeeds with the next bytes of the stream and leaves the rest of it.
pub plc_buffer_read-Reads :
    (bs rest : List ℕ) (c : Conn)
    → IsLive c
    → available c ≡ bs ++ rest
    → Reads (some bs) rest (plc_buffer_read (length bs)) c
plc_buffer_read-Reads bs rest c l a =
    let n = length bs in
    let f = plc_buffer_receive-Filled n c l (omega (arith, ap length a, length-append bs rest)) in
    let d = f.after in
    let (taken, left) =
      split_prefix bs (content d.input) (stream d.inbound) rest (f.keeps ∙ a)
        (omega (arith, f.enough, length-content f.live.valid)) in
    let (v, e) = content-consume f.live.valid n f.enough in
    record {
      after = record d { input = consume d.input n };
      returns =
          read_runs n c d f.returns
          ∙ ap (λ x. done (some x) (record d { input = consume d.input n }))
              (sym (take-take n (held d.input) (drop d.input.p_start d.input.bytes) f.enough)
                ∙ taken);
      live = record { valid = v; delivers = f.live.delivers };
      leaves = ap (λ x. x ++ stream d.inbound) e ∙ left;
    }
