-- ===== src/Connectivity/Buffer/Laws.antt =====
-- What the buffer functions of src/common/comm_connectivity.c keep: the shape and the content.
use plcontainer.Common.{
  ℕ, ◌+◌, ◌-◌, ◌/◌, ◌≤◌, ◌≡◌, refl, sym, ap, ap₂, ◌∙◌, List, ◌++◌, take, drop, length, splice,
  arith, ◌⊎◌, ltb→lt, ==_iff, Bool-cases, inl, inr, ltb, ◌==◌, ◌&&◌, append_assoc, append-nil,
  length-append, length-take, length-drop, length-replicate, take-append, drop-append, drop-take,
  drop-drop,
}
use plcontainer.Connectivity.Buffer.{
  Buffer, IsValid, content, held, block, plc_buffer_size, plc_buffer_init, plc_buffer_maybe_reset,
  reallocate, plc_buffer_maybe_resize, store, consume, shrunk_size, grown_size,
}

pub length-content : {b : Buffer} → IsValid b → length (content b) ≡ held b
length-content {b} v =
    omega (arith, length-take (held b) (drop b.p_start b.bytes), length-drop b.p_start b.bytes)

length-splice :
    (xs ys : List ℕ) (i : ℕ) → i + length ys ≤ length xs → length (splice xs i ys) ≡ length xs
length-splice xs ys i h = omega (
  arith,
  length-append (take i xs) (ys ++ drop (i + length ys) xs),
  length-append ys (drop (i + length ys) xs),
  length-take i xs,
  length-drop (i + length ys) xs,
)

take_exact : (xs ys : List ℕ) (n : ℕ) → n ≡ length xs → take n (xs ++ ys) ≡ xs
take_exact xs ys n e =
    ap (λ k. take k (xs ++ ys)) (let p : n ≡ length xs + 0 = omega arith in p)
    ∙ take-append xs ys 0
    ∙ append-nil xs

-- A block that was filled from its start holds what was copied.
take-splice_zero : (xs ys : List ℕ) (n : ℕ) → n ≡ length ys → take n (splice xs 0 ys) ≡ ys
take-splice_zero xs ys n e = take_exact ys (drop (0 + length ys) xs) n e

pub plc_buffer_init-IsValid : IsValid plc_buffer_init
unfolding plc_buffer_init
plc_buffer_init-IsValid = record {
  ordered = omega arith;
  inside = omega arith;
  allocated = length-replicate {A = ℕ} plc_buffer_size 0;
  at_least = omega arith;
}

-- `c` is a buffer with the content of `b`.
pub record Same (b c : Buffer) : Type 0 where
  pub valid : IsValid c
  pub same : content c ≡ content b

pub held-Same : {b d : Buffer} → IsValid b → Same b d → held d ≡ held b
held-Same v s = sym (length-content s.valid) ∙ ap length s.same ∙ length-content v

-- What a copy to the start of the block of `b` that makes `c` of it has to keep to: nothing is
-- copied, or the bytes that are held end, where they are copied to, no later than they begin where
-- they are copied from.
abbrev pub NoOverlap : Buffer → Buffer → Type 0
NoOverlap b c = (c.bytes ≡ b.bytes) ⊎ (held b ≤ b.p_start)

module _ {b : Buffer} (v : IsValid b) where
  pub reallocate-Same : (n : ℕ) → plc_buffer_size ≤ n → held b ≤ n → Same b (reallocate b n)
  unfolding reallocate
  reallocate-Same n big fits = record {
    valid = record {
      ordered = omega arith;
      inside = fits;
      allocated =
          length-splice (block n) (content b) 0
            (omega (arith, length-content v, length-replicate {A = ℕ} n 0))
          ∙ length-replicate {A = ℕ} n 0;
      at_least = big;
    };
    same = take-splice_zero (block n) (content b) (held b - 0) (omega (arith, length-content v));
  }

  pub Same-self : Same b b
  Same-self = record { valid = v; same = refl }

  moved_down :
      Same b (record b { bytes = splice b.bytes 0 (content b); p_end = held b; p_start = 0 })
  moved_down = record {
    valid = record {
      ordered = omega arith;
      inside = omega (arith, v);
      allocated =
          length-splice b.bytes (content b) 0 (omega (arith, length-content v)) ∙ v.allocated;
      at_least = v.at_least;
    };
    same = take-splice_zero b.bytes (content b) (held b - 0) (omega (arith, length-content v));
  }

  emptied : b.p_start ≡ b.p_end → Same b (record b { p_start = 0; p_end = 0 })
  emptied e = record {
    valid = record {
      ordered = omega arith;
      inside = omega arith;
      allocated = v.allocated;
      at_least = v.at_least;
    };
    same = ap (λ n. take n (drop b.p_start b.bytes)) (let p : 0 ≡ held b = omega arith in p);
  }

  pub plc_buffer_maybe_reset-Same : Same b (plc_buffer_maybe_reset b)
  unfolding plc_buffer_maybe_reset
  plc_buffer_maybe_reset-Same = elim (Bool-cases (b.p_start == b.p_end)) [
    | inl e ↦ rw e (emptied ((==_iff b.p_start b.p_end).0 e))
    | inr e ↦ rw e (elim (Bool-cases (ltb (b.buf_size / 2) b.p_start)) [
      | inl f ↦ rw f moved_down
      | inr f ↦ rw f Same-self
    ])
  ]

  -- `plcBufferMaybeReset` of a well-formed buffer keeps the content; the start is then in the first
  -- half of the block, or at its middle; and if it copies, the block that it copies to ends before
  -- the one that it copies from begins.
  pub plc_buffer_maybe_reset-NoOverlap :
      (content (plc_buffer_maybe_reset b) ≡ content b)
      × ((plc_buffer_maybe_reset b).p_start ≤ b.buf_size / 2)
      × NoOverlap b (plc_buffer_maybe_reset b)
  unfolding plc_buffer_maybe_reset
  plc_buffer_maybe_reset-NoOverlap = (
    plc_buffer_maybe_reset-Same.same,
    ground arith,
    elim (Bool-cases (b.p_start == b.p_end)) [
      | inl e ↦ rw e (inl refl)
      | inr e ↦ rw e (elim (Bool-cases (ltb (b.buf_size / 2) b.p_start)) [
        | inl f ↦ rw f (inr (omega (arith, v, ltb→lt (b.buf_size / 2) b.p_start f)))
        | inr f ↦ rw f (inl refl)
      ])
    ],
  )

  -- `plcBufferMaybeResize` keeps a well-formed buffer well formed, with the same content, whether it
  -- grows, shrinks or stays, for any number of bytes to append.
  pub plc_buffer_maybe_resize-Same : (n : ℕ) → Same b (plc_buffer_maybe_resize b n)
  unfolding plc_buffer_maybe_resize
  plc_buffer_maybe_resize-Same n =
      let size = held b + n + 200 in
      elim (Bool-cases (ltb size (b.buf_size / 5) && ltb plc_buffer_size b.buf_size)) [
        | inl e ↦ rw e (reallocate-Same (shrunk_size size) (omega arith) (omega arith))
        | inr e ↦ rw e (elim (Bool-cases (ltb (b.buf_size - 200) (b.p_end + n))) [
          | inl f ↦ rw f (reallocate-Same (grown_size size) (omega arith) (omega arith))
          | inr f ↦ rw f Same-self
        ])
      ]

  -- After `plcBufferMaybeResize` of a well-formed buffer the bytes to append fit behind its content,
  -- with PLC_BUFFER_MIN_FREE to spare.
  pub plc_buffer_maybe_resize-room :
      (n : ℕ) → let c = plc_buffer_maybe_resize b n in c.p_end + n + 200 ≤ c.buf_size
  unfolding plc_buffer_maybe_resize reallocate
  plc_buffer_maybe_resize-room n = ground arith

  pub content-store :
      (bs : List ℕ)
      → b.p_end + length bs ≤ b.buf_size
      → IsValid (store b bs) × (content (store b bs) ≡ content b ++ bs)
  unfolding store
  content-store bs h = (
    record {
      ordered = omega (arith, v);
      inside = h;
      allocated = length-splice b.bytes bs b.p_end (omega (arith, v)) ∙ v.allocated;
      at_least = v.at_least;
    },
    ap (take (b.p_end + length bs - b.p_start)) (
          drop-append (take b.p_end b.bytes) (bs ++ tail) b.p_start
            (omega (arith, length-take b.p_end b.bytes))
          ∙ ap (λ l. l ++ (bs ++ tail)) (drop-take b.p_start b.p_end b.bytes v.ordered)
          ∙ sym (append_assoc (content b) bs tail))
        ∙ take_exact (content b ++ bs) tail (b.p_end + length bs - b.p_start)
            (omega (arith, length-append (content b) bs, length-content v)),
  )
    where
      tail : List ℕ
      tail = drop (b.p_end + length bs) b.bytes

  pub content-consume :
      (n : ℕ) → n ≤ held b → IsValid (consume b n) × (content (consume b n) ≡ drop n (content b))
  unfolding consume
  content-consume n h = (
    record {
      ordered = omega (arith, v);
      inside = v.inside;
      allocated = v.allocated;
      at_least = v.at_least;
    },
    ap₂ take (let e : b.p_end - (b.p_start + n) ≡ held b - n = omega arith in e)
          (sym (drop-drop n b.p_start b.bytes))
        ∙ sym (drop-take n (held b) (drop b.p_start b.bytes) h),
  )
