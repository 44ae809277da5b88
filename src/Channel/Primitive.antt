-- ===== src/Channel/Primitive.antt =====
-- The primitive reads and writes of src/common/comm_channel.c.
pub mod Encoding
use plcontainer.Common.{
  ℕ, suc, ltb, not, ◌&&◌, ◌+◌, ◌-◌, ◌%◌, ◌^◌, Option, none, some, List, [], ◌∷◌, take, length, leb,
  ◌==◌, if◌then◌else◌, Bool, ◌||◌,
}
use plcontainer.Outcome.{Outcome, Action, pure, ◌>>=◌}
use plcontainer.Connectivity.Conn.{
  Conn, Status, success, failure, plc_buffer_append, plc_buffer_flush, plc_buffer_receive,
  plc_buffer_read,
}
use plcontainer.Message.Datatype.{Cstring}
use plcontainer.Channel.Action.{
  Write, Read, ◌|=◌, ◌&&=◌, map_read, or_return, give, fail, raise, misuse,
}
use plcontainer.Channel.Word.{le_bytes, of_le_bytes}

abbrev pub send_word : ℕ → ℕ → Write
send_word width n = plc_buffer_append (le_bytes width n)

unfoldable pub message_start : ℕ → Write
message_start msg_type = send_word 1 msg_type

unfoldable pub message_end : Write
message_end = plc_buffer_flush

unfoldable pub send_char : ℕ → Write
send_char c = send_word 1 c

unfoldable pub send_int16 : ℕ → Write
send_int16 i = send_word 2 i

unfoldable pub send_int32 : ℕ → Write
send_int32 i = send_word 4 i

unfoldable pub send_uint32 : ℕ → Write
send_uint32 i = send_word 4 i

unfoldable pub send_int64 : ℕ → Write
send_int64 i = send_word 8 i

unfoldable pub send_float4 : ℕ → Write
send_float4 f = send_word 4 f

unfoldable pub send_float8 : ℕ → Write
send_float8 f = send_word 8 f

-- -1 as an `int32`
abbrev pub minus_one : ℕ
minus_one = 2 ^ 32 - 1

abbrev pub is_negative : ℕ → Bool
is_negative i = leb (2 ^ 31) i

-- `int cnt = strlen(s)`; a count that does not fit is negative and sends no characters.
unfoldable pub send_cstring : Cstring → Write
send_cstring none = send_int32 minus_one
send_cstring (some s) =
    let cnt = length s % 2 ^ 32 in
    send_int32 cnt
    &&= (if cnt == 0 || is_negative cnt then pure success else plc_buffer_append (take cnt s))

-- The length is the `int` in front of the bytes.
unfoldable pub send_bytea : List ℕ → Write
send_bytea s = send_int32 (length s) |= plc_buffer_append s

abbrev pub receive_word : ℕ → Read ℕ
receive_word width = map_read of_le_bytes (plc_buffer_read width)

-- `plcBufferReceive(conn, 1)` and then `plcBufferRead(conn, c, 1)`
unfoldable pub receive_message_type : Read ℕ
receive_message_type = do
  status ← plc_buffer_receive 1
  elim status [ success ↦ receive_word 1 | failure ↦ fail ]

unfoldable pub receive_char : Read ℕ
receive_char = receive_word 1

unfoldable pub receive_int16 : Read ℕ
receive_int16 = receive_word 2

unfoldable pub receive_int32 : Read ℕ
receive_int32 = receive_word 4

unfoldable pub receive_uint32 : Read ℕ
receive_uint32 = receive_word 4

unfoldable pub receive_int64 : Read ℕ
receive_int64 = receive_word 8

unfoldable pub receive_float4 : Read ℕ
receive_float4 = receive_word 4

unfoldable pub receive_float8 : Read ℕ
receive_float8 = receive_word 8

unfoldable pub receive_raw : ℕ → Read (List ℕ)
receive_raw len = plc_buffer_read len

-- The characters of a block before its first NUL.
unfoldable pub until_nul : List ℕ → List ℕ
until_nul [] = []
until_nul (b ∷ bs) = let rest = until_nul bs in if b == 0 then [] else b ∷ rest

-- `pmalloc(n + extra)` for an `int` n: the sum overflows, or is negative, which as a `size_t` is more
-- than any allocator grants, or is the size of the block.
pub data Allocated : Type 0 where
  overflow : Allocated
  not_granted : Allocated
  block_of : ℕ → Allocated

unfoldable pub pmalloc : ℕ → ℕ → Allocated
pmalloc n extra =
    let size = (n + extra) % 2 ^ 32 in
    if not (is_negative n) && is_negative (n + extra)
    then overflow
    else if is_negative size
    then not_granted
    else block_of size

-- The characters, into a block with one byte more for the NUL.
unfoldable pub cstring_into : ℕ → Allocated → Read Cstring
cstring_into cnt overflow = misuse
cstring_into cnt not_granted = raise
cstring_into cnt (block_of size) =
    if cnt == 0
    then give (some [])
    else map_read (λ block. some (until_nul block)) (plc_buffer_read cnt)

-- The rest of `receive_cstring` once the length is known.
unfoldable pub cstring_of_length : ℕ → Read Cstring
unfolding pmalloc cstring_into
cstring_of_length cnt =
    if cnt == minus_one
    then give none
    else if is_negative cnt
    then fail
    else cstring_into cnt (pmalloc cnt 1)

unfoldable pub receive_cstring : Read Cstring
unfolding cstring_of_length
receive_cstring = or_return receive_int32 cstring_of_length

-- The length is stored as an `int` at the start of the block, past its end if it is too short, and
-- the bytes of a positive length behind it.
unfoldable pub bytea_into : ℕ → Allocated → Read (List ℕ)
bytea_into len overflow = misuse
bytea_into len not_granted = raise
bytea_into len (block_of size) =
    if ltb size 4
    then misuse
    else if len == 0 || is_negative len
    then give []
    else plc_buffer_read len

unfoldable pub bytea_of_length : ℕ → Read (List ℕ)
unfolding pmalloc bytea_into
bytea_of_length len = bytea_into len (pmalloc len 4)

unfoldable pub receive_bytea : Read (List ℕ)
unfolding bytea_of_length
receive_bytea = or_return receive_int32 bytea_of_length
