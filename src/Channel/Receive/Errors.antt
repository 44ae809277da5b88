-- ===== src/Channel/Receive/Errors.antt =====
-- What the functions of src/common/comm_channel.c do with bytes that are not of the wire format.
use plcontainer.Common.{
  ℕ, suc, some, ◌+◌, ◌%◌, not, ◌&&◌, ◌⊎◌, inl, inr, Bool-cases, lt→ltb, if◌then◌else◌, ◌-◌, ◌^◌,
  ◌<◌, ◌≤◌, ◌==◌, leb, true, false, none, List, ◌++◌, length, ◌≡◌, refl, ◌∙◌, arith,
}
use plcontainer.Outcome.{done, raised, undefined}
use plcontainer.Connectivity.Conn.{Conn, available}
use plcontainer.Connectivity.Conn.Read.{IsLive}
use plcontainer.Message.Struct.{Message}
use plcontainer.Channel.Word.{le_bytes}
use plcontainer.Channel.Action.{or_return}
use plcontainer.Channel.Primitive.{
  not_granted, block_of, pmalloc, bytea_into, receive_int32, receive_bytea, bytea_of_length,
  receive_cstring, cstring_of_length, minus_one, is_negative,
}
use plcontainer.Channel.Primitive.Encoding.{Receives-word}
use plcontainer.Channel.Receive.{
  expects, receive_by_type, channel_receive, plcontainer_channel_receive,
}
use plcontainer.Channel.Receive.Whole.{Receives-type, mask_bit}
use plcontainer.Channel.Send.Encoding.Split.{code_of, code_of-byte}

module _ (version : List ℕ) (mask fuel code : ℕ) (byte : code < 256) (c : Conn) (rest : List ℕ)
    (l : IsLive c) (e : available c ≡ le_bytes 1 code ++ rest) where
  dispatches :
      (d : Conn) × (channel_receive version mask fuel c ≡ receive_by_type version mask fuel code d)
      × IsLive d
      × (available d ≡ rest)
  unfolding channel_receive
  dispatches =
      let w =
        (Receives-type code byte).at rest (record c { rx_timeout_sec = 0x7fff_ffff })
          (record { valid = l.valid; delivers = l.delivers }) e in
      (
        record w.after { rx_timeout_sec = 20 },
        rw w.returns refl,
        record { valid = w.live.valid; delivers = w.live.delivers },
        w.leaves,
      )

module _ (version : List ℕ) (mask fuel : ℕ) (d : Conn) where
  refuses :
      (m : Message)
      → expects mask (mask_bit m) ≡ false
      → receive_by_type version mask fuel (code_of m) d ≡ raised d
  unfolding receive_by_type
  refuses Message.ping e = rw e refl
  refuses (Message.callreq call) e = rw e refl
  refuses (Message.result ret) e = rw e refl
  refuses (Message.exception err) e = rw e refl
  refuses (Message.log level message) e = rw e refl
  refuses (Message.quote quote_type msg) e = rw e refl
  refuses (Message.quote_result quote_type result) e = rw e refl
  refuses (Message.sql msg) e = rw e refl
  refuses (Message.raw bytes) e = rw e refl
  refuses (Message.subtransaction action type) e = rw e refl
  refuses (Message.subtran_result result) e = rw e refl
  refuses (Message.unhandled msgtype) e = refl

-- A message whose type the mask does not expect raises an error as soon as its first byte has
-- been taken, whatever follows it.
pub plcontainer_channel_receive-unexpected :
    (version : List ℕ) (mask : ℕ) (m : Message)
    → expects mask (mask_bit m) ≡ false
    → (c : Conn) (rest : List ℕ) → IsLive c
    → available c ≡ le_bytes 1 (code_of m) ++ rest
    → (d : Conn) × (plcontainer_channel_receive version mask c ≡ raised d) × (available d ≡ rest)
unfolding plcontainer_channel_receive
plcontainer_channel_receive-unexpected version mask m e c rest l a =
    let n = suc (length (available c)) in
    let (d, runs, live, left) = dispatches version mask n (code_of m) (code_of-byte m) c rest l a in
    (d, runs ∙ refuses version mask n d m e, left)

-- What `pmalloc(len + 4)` makes of a negative length.
pmalloc-negative :
    (n : ℕ)
    → 2 ^ 31 ≤ n
    → n < 2 ^ 32
    → ((2 ^ 32 - 4 ≤ n) × (pmalloc n 4 ≡ block_of ((n + 4) % 2 ^ 32)) × ((n + 4) % 2 ^ 32 < 4))
      ⊎ ((n < 2 ^ 32 - 4) × (pmalloc n 4 ≡ not_granted))
unfolding pmalloc
pmalloc-negative n low high =
    let no_overflow : (not (is_negative n) && is_negative (n + 4)) ≡ false = ground arith in
    elim (Bool-cases (leb (2 ^ 32 - 4) n)) [
      | inl e ↦
          let short : (n + 4) % 2 ^ 32 < 4 = ground arith in
          let granted : is_negative ((n + 4) % 2 ^ 32) ≡ false = ground arith in
          inl (ground arith, rw (no_overflow, granted) refl, short)
      | inr e ↦
          let refused : is_negative ((n + 4) % 2 ^ 32) ≡ true = ground arith in
          inr (ground arith, rw (no_overflow, refused) refl)
    ]

-- The two readers of a length and a block, on every negative length. `receive_bytea` stores the
-- length past the end of a block of fewer than four bytes if it is from -4 to -1, and raises an
-- error if it is below; `receive_cstring` takes -1 for NULL and returns -1 for the others.
pub receive_bytea-negative :
    (n : ℕ)
    → 2 ^ 31 ≤ n
    → n < 2 ^ 32
    → (c : Conn) (rest : List ℕ) → IsLive c
    → available c ≡ le_bytes 4 n ++ rest
    → (((2 ^ 32 - 4 ≤ n) × (receive_bytea c ≡ undefined))
        ⊎ ((n < 2 ^ 32 - 4) × ((d : Conn) × (receive_bytea c ≡ raised d))))
      × ((d : Conn) × (receive_cstring c ≡ done (if n == 2 ^ 32 - 1 then some none else none) d)
          × (available d ≡ rest))
unfolding receive_bytea bytea_of_length bytea_into receive_cstring cstring_of_length or_return
    receive_int32
receive_bytea-negative n low high c rest l a =
    let w = (Receives-word 4 n (omega arith)).at rest c l a in
    let negative : is_negative n ≡ true = ground arith in
    (
      elim (pmalloc-negative n low high) [
        | inl (wide, block, short) ↦
            inl (wide, rw (w.returns, block, lt→ltb ((n + 4) % 2 ^ 32) 4 short) refl)
        | inr (narrow, none_granted) ↦ inr (narrow, (w.after, rw (w.returns, none_granted) refl))
      ],
      elim (Bool-cases (n == minus_one)) [
        | inl e ↦ (w.after, rw (w.returns, e) refl, w.leaves)
        | inr e ↦ (w.after, rw (w.returns, e, negative) refl, w.leaves)
      ],
    )
