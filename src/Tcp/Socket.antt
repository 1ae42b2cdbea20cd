-- ===== src/Tcp/Socket.antt =====
-- src/net/tcp/tcp_connection.cc: the loops of `on_read` and `on_write` around the system calls. The
-- results of `read` and `write` are sequences; a loop for which the sequence is too short is `stuck`.
use tiny_rpc.Base.{
  ℕ, ◌*◌, List, [], ◌∷◌, ◌++◌, Bool, true, false, Outcome, ok, stuck, ltb, leb, ◌==◌, if◌then◌else◌,
  length, take, slice,
}
use tiny_rpc.Buffer.{
  TcpBuffer, can_read_bytes_num, can_write_bytes_num, resize_buffer, copy_into, adjust_write_index,
}

-- What `read` returns: bytes (none at the end of the stream), or -1 with EAGAIN or another error.
pub data ReadResult : Type 0 where
  read_bytes : List ℕ → ReadResult
  read_again read_failed : ReadResult

-- What `write` returns: the number of bytes taken, or -1.
pub data WriteResult : Type 0 where
  wrote : ℕ → WriteResult
  write_again write_failed : WriteResult

-- The buffer that `read` fills: twice as large where it has no room left.
unfoldable pub room_to_read : TcpBuffer → TcpBuffer
room_to_read b = if can_write_bytes_num b == 0 then resize_buffer b (2 * length b.m_buffer) else b

-- `read` of `bytes` behind the write index, and `adjust_write_index`.
unfoldable pub take_in : TcpBuffer → List ℕ → TcpBuffer
take_in b bytes =
    adjust_write_index (record b { m_buffer = copy_into b.m_buffer b.m_write_index bytes })
      (length bytes)

-- The loop of `on_read`: `is_close`, and the buffer.
unfoldable pub read_loop : TcpBuffer → List ReadResult → Outcome (Bool × TcpBuffer)
unfolding room_to_read take_in
read_loop b [] = stuck
read_loop b (read_bytes bytes ∷ rs) =
    let b' = room_to_read b in
    let rest = read_loop (take_in b' bytes) rs in
    if length bytes == 0
    then ok (true, b')
    else if ltb (length bytes) (can_write_bytes_num b')
    then ok (false, take_in b' bytes)
    else rest
read_loop b (read_again ∷ rs) = ok (false, room_to_read b)
read_loop b (read_failed ∷ rs) = read_loop (room_to_read b) rs

-- The loop of `on_write`, with the bytes taken so far: `is_write_all`, and the bytes.
unfoldable pub write_loop : TcpBuffer → List ℕ → List WriteResult → Outcome (Bool × List ℕ)
write_loop b out [] = if can_read_bytes_num b == 0 then ok (true, out) else stuck
write_loop b out (wrote n ∷ rs) =
    let out' = out ++ take n (slice b.m_buffer b.m_read_index (can_read_bytes_num b)) in
    let rest = write_loop b out' rs in
    if can_read_bytes_num b == 0
    then ok (true, out)
    else if leb (can_read_bytes_num b) n
    then ok (true, out')
    else rest
write_loop b out (write_again ∷ rs) =
    if can_read_bytes_num b == 0 then ok (true, out) else ok (false, out)
write_loop b out (write_failed ∷ rs) =
    let rest = write_loop b out rs in if can_read_bytes_num b == 0 then ok (true, out) else rest
