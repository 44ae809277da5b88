-- ===== src/Channel/Primitive/Encoding.antt =====
-- The wire format of the primitive values of src/common/comm_channel.c, and that the calls write
-- and read it.
use plcontainer.Common.{
  ◌+◌, ltb, not, ◌&&◌, ℕ, zero, suc, ◌%◌, ◌^◌, ◌<◌, ◌≢◌, false, ◌||◌, none, some, List, [], ◌∷◌,
  ◌++◌, take, take-nil, length, ◌==◌, ◌≡◌, refl, ap, arith, All, append-nil, subst,
}
use plcontainer.Connectivity.Conn.{plc_buffer_read}
use plcontainer.Message.Datatype.{Cstring}
use plcontainer.Channel.Action.{or_return, map_read}
use plcontainer.Channel.Action.Sends.{Sends, Sends-append, Sends-&&=, Sends-|=, Sends-nothing}
use plcontainer.Channel.Action.Receives.{
  Receives, Receives-read, Receives-give, Receives-map_read, Receives-or_return,
}
use plcontainer.Channel.Word.{le_bytes, of_le_bytes, length-le_bytes, of_le_bytes-le_bytes}
use plcontainer.Channel.Primitive.{
  send_int32, send_cstring, send_bytea, minus_one, receive_word, receive_int32, receive_cstring,
  block_of, pmalloc, cstring_into, bytea_into, receive_bytea, until_nul, is_negative,
  cstring_of_length, bytea_of_length,
}

pub Receives-word :
    (width n : ℕ) → n < 256 ^ width → Receives (le_bytes width n) n (receive_word width)
Receives-word width n h =
    subst (λ w. Receives (le_bytes width n) n (map_read of_le_bytes (plc_buffer_read w)))
      (length-le_bytes width n)
      (subst
        (λ m.
          Receives (le_bytes width n) m
            (map_read of_le_bytes (plc_buffer_read (length (le_bytes width n)))))
        (of_le_bytes-le_bytes width n h)
        (Receives-map_read (Receives-read (le_bytes width n)) of_le_bytes))

unfoldable pub encode_cstring : Cstring → List ℕ
encode_cstring none = le_bytes 4 minus_one
encode_cstring (some s) = le_bytes 4 (length s) ++ s

unfoldable pub encode_bytea : List ℕ → List ℕ
encode_bytea s = le_bytes 4 (length s) ++ s

-- A string whose length is an `int` with its NUL, and that holds no other.
abbrev pub IsCstring : Cstring → Type 0
IsCstring none = Unit {0}
IsCstring (some s) = (length s + 1 < 2 ^ 31) × All (λ b. b ≢ 0) s

-- Bytes whose number is an `int` with the four of the length.
abbrev pub IsBytea : List ℕ → Type 0
IsBytea s = length s + 4 < 2 ^ 31

until_nul_self : (s : List ℕ) → All (λ b. b ≢ 0) s → until_nul s ≡ s
unfolding until_nul
until_nul_self [] h = refl
until_nul_self (b ∷ bs) h = ground (arith, until_nul_self bs h.1, h.0)

take_all : (s : List ℕ) (n : ℕ) → n ≡ length s → take n s ≡ s
take_all [] n e = take-nil n
take_all (b ∷ bs) zero e = absurd (omega arith)
take_all (b ∷ bs) (suc n) e = ap (λ l. b ∷ l) (take_all bs n (omega arith))

module _ (n : ℕ) (h : n < 2 ^ 31) where
  fits_word : n < 256 ^ 4
  fits_word = omega arith

  pub not_negative : is_negative n ≡ false
  not_negative = ground arith

  not_minus_one : (n == minus_one) ≡ false
  not_minus_one = ground arith

pmalloc_lem : (n extra : ℕ) → n + extra < 2 ^ 31 → pmalloc n extra ≡ block_of (n + extra)
unfolding pmalloc
pmalloc_lem n extra h =
    let no_overflow : (not (is_negative n) && is_negative (n + extra)) ≡ false = ground arith in
    let e : (n + extra) % 2 ^ 32 ≡ n + extra = omega arith in
    let granted : is_negative (n + extra) ≡ false = ground arith in
    rw (no_overflow, e, granted) refl

pub Receives-int32 : (n : ℕ) → n < 2 ^ 31 → Receives (le_bytes 4 n) n receive_int32
unfolding receive_int32
Receives-int32 n h = Receives-word 4 n (fits_word n h)

sent_count : (n : ℕ) → n < 2 ^ 31 → n % 2 ^ 32 ≡ n
sent_count n h = omega arith

-- The number of characters is sent, and then the characters.
pub Sends-cstring : (s : Cstring) → IsCstring s → Sends (encode_cstring s) (send_cstring s)
unfolding send_cstring encode_cstring send_int32
Sends-cstring none h = Sends-append (le_bytes 4 minus_one)
Sends-cstring (some []) h = Sends-&&= (Sends-append (le_bytes 4 0)) Sends-nothing
Sends-cstring (some (b ∷ bs)) h =
    let n = length (b ∷ bs) in
    rw
      (
        sent_count n (omega (arith, h.0)),
        (let e : (n == 0 || is_negative n) ≡ false =
              rw (not_negative n (omega (arith, h.0))) (ground arith) in
            e),
        take_all (b ∷ bs) n refl,
      )
      (Sends-&&= (Sends-append (le_bytes 4 n)) (Sends-append (b ∷ bs)))

cstring_of_length_lem :
    (s : List ℕ) → IsCstring (some s) → Receives s (some s) (cstring_of_length (length s))
unfolding cstring_of_length cstring_into
cstring_of_length_lem [] h = Receives-give (some [])
cstring_of_length_lem (b ∷ bs) h =
    let n = length (b ∷ bs) in
    rw
      (
        not_minus_one n (omega (arith, h.0)),
        not_negative n (omega (arith, h.0)),
        sent_count (n + 1) h.0,
        not_negative (n + 1) h.0,
        (let e : (n == 0) ≡ false = ground arith in e),
      )
      (subst
        (λ t.
          Receives (b ∷ bs) (some t)
            (map_read (λ block. some (until_nul block)) (plc_buffer_read n)))
        (until_nul_self (b ∷ bs) h.1)
        (Receives-map_read (Receives-read (b ∷ bs)) (λ block. some (until_nul block))))

pub Receives-cstring : (s : Cstring) → IsCstring s → Receives (encode_cstring s) s receive_cstring
unfolding receive_cstring encode_cstring receive_int32
Receives-cstring none h =
    subst (λ bs. Receives bs none (or_return (receive_word 4) cstring_of_length))
      (append-nil (le_bytes 4 minus_one))
      (Receives-or_return (Receives-word 4 minus_one (omega arith)) cstring_of_length
        (unfold cstring_of_length in Receives-give none))
Receives-cstring (some s) h =
    Receives-or_return (Receives-int32 (length s) (omega (arith, h.0))) cstring_of_length
      (cstring_of_length_lem s h)

pub Sends-bytea : (s : List ℕ) → Sends (encode_bytea s) (send_bytea s)
unfolding send_bytea encode_bytea send_int32
Sends-bytea s = Sends-|= (Sends-append (le_bytes 4 (length s))) (Sends-append s)

bytea_of_length_lem : (s : List ℕ) → IsBytea s → Receives s s (bytea_of_length (length s))
unfolding bytea_of_length bytea_into
bytea_of_length_lem [] h = Receives-give []
bytea_of_length_lem (b ∷ bs) h =
    let n = length (b ∷ bs) in
    let room : ltb (n + 4) 4 ≡ false = ground arith in
    let some_bytes : (n == 0 || is_negative n) ≡ false =
      rw (not_negative n (omega arith)) (ground arith) in
    rw (pmalloc_lem n 4 h, room, some_bytes) (Receives-read (b ∷ bs))

pub Receives-bytea : (s : List ℕ) → IsBytea s → Receives (encode_bytea s) s receive_bytea
unfolding receive_bytea encode_bytea
Receives-bytea s h =
    Receives-or_return (Receives-int32 (length s) (omega arith)) bytea_of_length
      (bytea_of_length_lem s h)
