-- ===== src/Channel/Action/Receives.antt =====
-- Reads that succeed on a connection whose peer sends the bytes that they take.
use plcontainer.Common.{ℕ, some, List, [], ◌++◌, length, ◌≡◌, refl, ◌∙◌, append_assoc}
use plcontainer.Outcome.{done, Action, pure, ◌>>=◌}
use plcontainer.Connectivity.Conn.{Conn, available, plc_buffer_read}
use plcontainer.Connectivity.Conn.Read.{IsLive, Reads, plc_buffer_read-Reads}
use plcontainer.Channel.Action.{Read, give, ◌⊛◌, map_read, ◌&&⊛◌, or_return, use_after}

-- On a stream that begins with `bs` the action takes `bs` and returns `a`.
pub record Yields {A : Type 0} (bs : List ℕ) (a : A) (m : Action Conn A) : Type 0 where
  pub at : (rest : List ℕ) (c : Conn) → IsLive c → available c ≡ bs ++ rest → Reads a rest m c

-- The read does not fail.
abbrev pub Receives : {A : Type 0} → List ℕ → A → Read A → Type 0
Receives bs a m = Yields bs (some a) m

module _ {A B : Type 0} {bs cs : List ℕ} {a : A} {b : B} {m : Action Conn A} where
  pub Yields-bind :
      (k : A → Action Conn B) → Yields bs a m → Yields cs b (k a) → Yields (bs ++ cs) b (m >>= k)
  Yields-bind k rm rk = record {
    at = λ rest c l e.
        let w = rm.at (cs ++ rest) c l (e ∙ append_assoc bs cs rest) in
        let v = rk.at rest w.after w.live w.leaves in
        record {
          after = v.after;
          returns = rw w.returns v.returns;
          live = v.live;
          leaves = v.leaves;
        };
  }

pub Yields-pure : {A : Type 0} (a : A) → Yields [] a (pure a)
Yields-pure a = record {
  at = λ rest c l e. record { after = c; returns = refl; live = l; leaves = e };
}

pub Receives-read : (bs : List ℕ) → Receives bs bs (plc_buffer_read (length bs))
Receives-read bs = record { at = plc_buffer_read-Reads bs }

pub Receives-give : {A : Type 0} (a : A) → Receives [] a (give a)
Receives-give a = record {
  at = λ rest c l e. record { after = c; returns = refl; live = l; leaves = e };
}

module _ {A B : Type 0} {bs : List ℕ} {a : A} {m : Read A} (rm : Receives bs a m) where
  pub Receives-map_read : (f : A → B) → Receives bs (f a) (map_read f m)
  unfolding map_read
  Receives-map_read f = record {
    at = λ rest c l e.
        let w = rm.at rest c l e in
        record { after = w.after; returns = rw w.returns; live = w.live; leaves = w.leaves };
  }

  module _ {cs : List ℕ} {b : B} (k : A → Read B) (rk : Receives cs b (k a)) where
    chained :
        (n : Read B)
        → ((c d e : Conn) → m c ≡ done (some a) d → k a d ≡ done (some b) e → n c ≡ done (some b) e)
        → Receives (bs ++ cs) b n
    chained n h = record {
      at = λ rest c l e.
          let w = rm.at (cs ++ rest) c l (e ∙ append_assoc bs cs rest) in
          let v = rk.at rest w.after w.live w.leaves in
          record {
            after = v.after;
            returns = h c w.after v.after w.returns v.returns;
            live = v.live;
            leaves = v.leaves;
          };
    }

    pub Receives-or_return : Receives (bs ++ cs) b (or_return m k)
    unfolding or_return
    Receives-or_return = chained (or_return m k) (λ c d e p q. rw (p, q))

    pub Receives-use_after : Receives (bs ++ cs) b (use_after m k)
    unfolding use_after
    Receives-use_after = chained (use_after m k) (λ c d e p q. rw (p, q))

module _ {A B : Type 0} {bs cs : List ℕ} {f : A → B} {a : A} {m : Read (A → B)} {n : Read A}
    (rm : Receives bs f m) (rn : Receives cs a n) where
  applied :
      (k : Read B)
      → ((c d e : Conn) → m c ≡ done (some f) d → n d ≡ done (some a) e → k c ≡ done (some (f a)) e)
      → Receives (bs ++ cs) (f a) k
  applied k h = record {
    at = λ rest c l e.
        let w = rm.at (cs ++ rest) c l (e ∙ append_assoc bs cs rest) in
        let v = rn.at rest w.after w.live w.leaves in
        record {
          after = v.after;
          returns = h c w.after v.after w.returns v.returns;
          live = v.live;
          leaves = v.leaves;
        };
  }

  pub Receives-⊛ : Receives (bs ++ cs) (f a) (m ⊛ n)
  unfolding ◌⊛◌
  Receives-⊛ = applied (m ⊛ n) (λ c d e p q. rw (p, q))

  pub Receives-&&⊛ : Receives (bs ++ cs) (f a) (m &&⊛ n)
  unfolding ◌&&⊛◌ map_read
  Receives-&&⊛ = applied (m &&⊛ n) (λ c d e p q. rw (p, q))
