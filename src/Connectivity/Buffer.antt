-- ===== src/Connectivity/Buffer.antt =====
-- `plcBuffer` of src/common/comm_connectivity.h and the functions of comm_connectivity.c on one
-- buffer. `int` arithmetic is written on natural numbers.
pub mod Laws
use plcontainer.Common.{
  ℕ, ◌+◌, ◌-◌, ◌*◌, ◌/◌, ◌≤◌, ◌≡◌, List, take, drop, length, replicate, splice, ltb, ◌==◌, ◌&&◌,
  if◌then◌else◌,
}

abbrev pub plc_buffer_size : ℕ
plc_buffer_size = 8192

abbrev pub plc_buffer_min_free : ℕ
plc_buffer_min_free = 200

pub record Buffer : Type 0 where
  pub bytes : List ℕ
  pub p_start : ℕ
  pub p_end : ℕ
  pub buf_size : ℕ

-- The number of bytes held, `pEnd - pStart`.
abbrev pub held : Buffer → ℕ
held b = b.p_end - b.p_start

-- The bytes held, from `data + pStart`.
abbrev pub content : Buffer → List ℕ
content b = take (held b) (drop b.p_start b.bytes)

pub record IsValid (b : Buffer) : Type 0 where
  pub ordered : b.p_start ≤ b.p_end
  pub inside : b.p_end ≤ b.buf_size
  pub allocated : length b.bytes ≡ b.buf_size
  pub at_least : plc_buffer_size ≤ b.buf_size

-- What `PLy_malloc` returns: a block of `n` bytes, whose contents are never read.
abbrev pub block : ℕ → List ℕ
block n = replicate n 0

unfoldable pub plc_buffer_init : Buffer
plc_buffer_init = record {
  bytes = block plc_buffer_size;
  p_start = 0;
  p_end = 0;
  buf_size = plc_buffer_size;
}

unfoldable pub plc_buffer_maybe_reset : Buffer → Buffer
plc_buffer_maybe_reset b =
    if b.p_start == b.p_end
    then record b { p_start = 0; p_end = 0 }
    else if ltb (b.buf_size / 2) b.p_start
    then record b { bytes = splice b.bytes 0 (content b); p_end = held b; p_start = 0 }
    else b

-- The copy into a new block that ends `plcBufferMaybeResize`.
unfoldable pub reallocate : Buffer → ℕ → Buffer
reallocate b new_size = record {
  bytes = splice (block new_size) 0 (content b);
  p_start = 0;
  p_end = held b;
  buf_size = new_size;
}

abbrev pub shrunk_size : ℕ → ℕ
shrunk_size data_size = (data_size * 2 / plc_buffer_size + 1) * plc_buffer_size

abbrev pub grown_size : ℕ → ℕ
grown_size data_size = (data_size / plc_buffer_size + 1) * plc_buffer_size

-- The allocation does not return NULL: `PLy_malloc` raises first.
unfoldable pub plc_buffer_maybe_resize : Buffer → ℕ → Buffer
plc_buffer_maybe_resize b buf_append =
    let data_size = held b + buf_append + plc_buffer_min_free in
    if ltb data_size (b.buf_size / 5) && ltb plc_buffer_size b.buf_size
    then reallocate b (shrunk_size data_size)
    else if ltb (b.buf_size - plc_buffer_min_free) (b.p_end + buf_append)
    then reallocate b (grown_size data_size)
    else b

-- `memcpy(buf->data + buf->pEnd, bytes, n); buf->pEnd += n`
unfoldable pub store : Buffer → List ℕ → Buffer
store b bs = record b { bytes = splice b.bytes b.p_end bs; p_end = b.p_end + length bs }

-- `buf->pStart += n`
unfoldable pub consume : Buffer → ℕ → Buffer
consume b n = record b { p_start = b.p_start + n }
