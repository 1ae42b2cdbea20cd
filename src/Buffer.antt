-- ===== src/Buffer.antt =====
-- src/net/tcp/tcp_buffer.cc: the byte buffer of a connection. An `int` position is a natural
-- number: the buffers stay far below 2^31 bytes. A byte is a number below 256.
pub mod Invariant
pub mod Contents
pub mod Indices
use tiny_rpc.Base.{
  ℕ, ◌+◌, ◌-◌, ◌*◌, ◌/◌, ◌%◌, ◌^◌, min, List, ◌++◌, ◌||◌, ltb, leb, ◌==◌, if◌then◌else◌, length,
  take, drop, replicate, slice,
}

pub record TcpBuffer : Type 0 where
  pub m_read_index : ℕ
  pub m_write_index : ℕ
  pub m_size : ℕ
  pub m_buffer : List ℕ

unfoldable pub new_buffer : ℕ → TcpBuffer
new_buffer size = record {
  m_read_index = 0;
  m_write_index = 0;
  m_size = size;
  m_buffer = replicate size 0;
}

abbrev pub can_read_bytes_num : TcpBuffer → ℕ
can_read_bytes_num b = b.m_write_index - b.m_read_index

abbrev pub can_write_bytes_num : TcpBuffer → ℕ
can_write_bytes_num b = length b.m_buffer - b.m_write_index

-- `memcpy(&dst[at], src, n)`, for the `n` bytes of `src`.
abbrev pub copy_into : List ℕ → ℕ → List ℕ → List ℕ
copy_into dst at src = take at dst ++ (src ++ drop (at + length src) dst)

-- The zeroed vector of `size` bytes whose first bytes are `src`.
abbrev pub fresh_with : ℕ → List ℕ → List ℕ
fresh_with size src = src ++ replicate (size - length src) 0

unfoldable pub resize_buffer : TcpBuffer → ℕ → TcpBuffer
resize_buffer b new_size =
    let count = min new_size (can_read_bytes_num b) in
    record b {
      m_read_index = 0;
      m_write_index = count;
      m_buffer = fresh_with new_size (slice b.m_buffer b.m_read_index count);
    }

-- `static_cast<int>(1.5 * n)`.
abbrev pub grown : ℕ → ℕ
grown n = 3 * n / 2

-- The step of `write_to_buffer` before its `memcpy`.
unfoldable pub make_room : TcpBuffer → ℕ → TcpBuffer
unfolding resize_buffer
make_room b size =
    if ltb (can_write_bytes_num b) size then resize_buffer b (grown (b.m_write_index + size)) else b

unfoldable pub write_to_buffer : TcpBuffer → List ℕ → TcpBuffer
write_to_buffer b bytes =
    let b' = make_room b (length bytes) in
    record b' {
      m_write_index = b'.m_write_index + length bytes;
      m_buffer = copy_into b'.m_buffer b'.m_write_index bytes;
    }

unfoldable pub adjust_buffer : TcpBuffer → TcpBuffer
adjust_buffer b = if ltb b.m_read_index (length b.m_buffer / 3) then b else record b {
  m_read_index = 0;
  m_write_index = can_read_bytes_num b;
  m_buffer =
      fresh_with (length b.m_buffer) (slice b.m_buffer b.m_read_index (can_read_bytes_num b));
}

-- The first component is `re` after the call.
unfoldable pub read_from_buffer : TcpBuffer → List ℕ → ℕ → List ℕ × TcpBuffer
read_from_buffer b re size = if can_read_bytes_num b == 0 then (re, b) else (
  slice b.m_buffer b.m_read_index (min size (can_read_bytes_num b)),
  adjust_buffer (record b { m_read_index = b.m_read_index + min size (can_read_bytes_num b) }),
)

-- `size` is the bit pattern of an `int`. A negative sum turns into a huge `size_t`.
unfoldable pub adjust_read_index : TcpBuffer → ℕ → TcpBuffer
adjust_read_index b size =
    let j = (b.m_read_index + size) % 2 ^ 32 in
    if leb (2 ^ 31) j || leb (length b.m_buffer) j
    then b
    else adjust_buffer (record b { m_read_index = j })

unfoldable pub adjust_write_index : TcpBuffer → ℕ → TcpBuffer
adjust_write_index b size =
    let j = (b.m_write_index + size) % 2 ^ 32 in
    if leb (2 ^ 31) j || leb (length b.m_buffer) j
    then b
    else adjust_buffer (record b { m_write_index = j })
