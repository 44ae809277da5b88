-- ===== src/Channel/Action/Sends.antt =====
-- Writes that succeed on a connection where no `send` fails, by the bytes that they add.
use plcontainer.Common.{
  ℕ, List, [], ◌++◌, take, drop, ◌≡◌, refl, sym, ap, ◌∙◌, append-nil, append_assoc,
}
use plcontainer.Outcome.{done, pure}
use plcontainer.Connectivity.Buffer.{Buffer, content, held}
use plcontainer.Connectivity.Conn.{Conn, success, outgoing, plc_buffer_append, plc_buffer_flush}
use plcontainer.Connectivity.Conn.Write.{
  IsReady, Wrote, plc_buffer_append-Wrote, plc_buffer_flush-Flushed,
}
use plcontainer.Channel.Action.{Write, ◌|=◌, ◌&&=◌}

pub record Sends (bs : List ℕ) (m : Write) : Type 0 where
  pub at : (c : Conn) → IsReady c → Wrote bs m c

pub Sends-append : (bs : List ℕ) → Sends bs (plc_buffer_append bs)
Sends-append bs = record { at = plc_buffer_append-Wrote bs }

pub Sends-nothing : Sends [] (pure success)
Sends-nothing = record {
  at = λ c r. record {
    after = c;
    returns = refl;
    ready = r;
    delivers = sym (append-nil (outgoing c));
  };
}

pub Sends-flush : Sends [] plc_buffer_flush
Sends-flush = record {
  at = λ c r.
      let f = plc_buffer_flush-Flushed c r in
      record {
        after = f.after;
        returns = f.returns;
        ready = f.ready;
        delivers = f.delivers ∙ sym (append-nil (outgoing c));
      };
}

module _ {bs cs : List ℕ} {m n : Write} (sm : Sends bs m) (sn : Sends cs n) where
  joined :
      (k : Write) (c : Conn) (r : IsReady c)
      → ((d e : Conn) → m c ≡ done success d → n d ≡ done success e → k c ≡ done success e)
      → Wrote (bs ++ cs) k c
  joined k c r h =
      let w = sm.at c r in
      let v = sn.at w.after w.ready in
      record {
        after = v.after;
        returns = h w.after v.after w.returns v.returns;
        ready = v.ready;
        delivers = v.delivers ∙ ap (λ l. l ++ cs) w.delivers ∙ append_assoc (outgoing c) bs cs;
      }

  pub Sends-|= : Sends (bs ++ cs) (m |= n)
  unfolding ◌|=◌
  Sends-|= = record { at = λ c r. joined (m |= n) c r (λ d e p q. rw (p, q)) }

  pub Sends-&&= : Sends (bs ++ cs) (m &&= n)
  unfolding ◌&&=◌
  Sends-&&= = record { at = λ c r. joined (m &&= n) c r (λ d e p q. rw (p, q)) }

pub ruleset sends_rules = (Sends-append, Sends-nothing, Sends-flush, Sends-|=, Sends-&&=)

-- The call succeeds, all that was written before it and `bs` reach the kernel, and nothing is
-- left in the buffer.
pub record Delivers (bs : List ℕ) (m : Write) (c : Conn) : Type 0 where
  pub after : Conn
  pub returns : m c ≡ done success after
  pub ready : IsReady after
  pub on_wire : after.wire ≡ outgoing c ++ bs
  pub emptied : content after.output ≡ []

held_nothing : (b : Buffer) → held b ≡ 0 → content b ≡ []
held_nothing b h = ap (λ n. take n (drop b.p_start b.bytes)) h

pub Delivers-end :
    {bs : List ℕ} {m : Write}
    → Sends bs m
    → (c : Conn) → IsReady c
    → Delivers bs (m |= plc_buffer_flush) c
unfolding ◌|=◌
Delivers-end {bs} {m} s c r =
    let w = s.at c r in
    let f = plc_buffer_flush-Flushed w.after w.ready in
    let nothing = held_nothing f.after.output f.empty in
    record {
      after = f.after;
      returns = rw (w.returns, f.returns);
      ready = f.ready;
      on_wire =
          sym (append-nil f.after.wire)
          ∙ ap (λ l. f.after.wire ++ l) (sym nothing)
          ∙ f.delivers
          ∙ w.delivers;
      emptied = nothing;
    }

pub Sends-Delivers :
    {bs : List ℕ} {m : Write} → ((c : Conn) → IsReady c → Delivers bs m c) → Sends bs m
Sends-Delivers d = record {
  at = λ c r.
      let w = d c r in
      record {
        after = w.after;
        returns = w.returns;
        ready = w.ready;
        delivers = ap (λ l. w.after.wire ++ l) w.emptied ∙ append-nil w.after.wire ∙ w.on_wire;
      };
}
