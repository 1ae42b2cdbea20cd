-- ===== src/Tcp/Reading.antt =====
-- The loop of `on_read`: which bytes reach the buffer of a connection.
use tiny_rpc.Base.{
  ℕ, zero, suc, ◌+◌, ◌*◌, ◌^◌, ◌<◌, ◌≡◌, refl, ◌∙◌, ap, inl, inr, List, ◌∷◌, ◌++◌, false, arith, ok,
  stuck, ltb, ◌==◌, if◌then◌else◌, length, Bool-cases, lt→ltb, le→ltb_false, ne→==_false, take_all,
  replicate,
}
use tiny_rpc.Buffer.{TcpBuffer, can_read_bytes_num, can_write_bytes_num, adjust_write_index}
use tiny_rpc.Buffer.Invariant.{IsValid, resize_buffer-IsValid, length-kept, length-copy_into}
use tiny_rpc.Buffer.Contents.{contents, contents-resize_buffer}
use tiny_rpc.Buffer.Indices.{
  received, received-IsValid, contents-adjust_write_index, adjust_write_index_moves,
  adjust_write_index_stays,
}
use tiny_rpc.Coder.RoundTrip.{IsReady, adjust_buffer-IsReady}
use tiny_rpc.Tcp.Socket.{
  ReadResult, read_bytes, read_again, read_failed, room_to_read, take_in, read_loop,
}

-- Making room loses no byte.
pub room_to_read_lem :
    {b : TcpBuffer}
    → IsValid b
    → 2 * length b.m_buffer < 2 ^ 31
    → (contents (room_to_read b) ≡ contents b) × IsValid (room_to_read b)
unfolding room_to_read
room_to_read_lem {b} v h = elim (Bool-cases (can_write_bytes_num b == 0)) [
  | inl e ↦
      let n = length-kept v (can_read_bytes_num b) (omega arith) in
      rw e (
        contents-resize_buffer (2 * length b.m_buffer) v
            ∙ take_all (2 * length b.m_buffer) (contents b) (omega (arith, n)),
        resize_buffer-IsValid v (2 * length b.m_buffer) h,
      )
  | inr e ↦ rw e (refl, v)
]

take_in-IsReady :
    {b : TcpBuffer} (bytes : List ℕ)
    → IsValid b
    → length bytes < can_write_bytes_num b
    → IsReady (take_in b bytes)
unfolding take_in
take_in-IsReady {b} bytes v h =
    let e = length-copy_into b.m_buffer b.m_write_index bytes (omega arith) in
    let v' = received-IsValid bytes v (omega arith) in
    let w = b.m_write_index + length bytes in
    let inside : w < length (received b bytes).m_buffer = omega (arith, e) in
    rw (adjust_write_index_moves (received b bytes) (length bytes) v'.small inside) (
      adjust_buffer-IsReady {b = record (received b bytes) { m_write_index = w }}
        (record { valid = omega (arith, e, v.read_le, v'.small); not_full = inside }))

-- A read that returns at least one byte and fewer than there is room for ends the loop of
-- on_read, and appends exactly its bytes to the contents of a valid buffer, which is then ready
-- for decode, if twice the storage stays below 2^31.
pub read_loop_lem :
    {b : TcpBuffer} (bytes : List ℕ) (rs : List ReadResult)
    → IsValid b
    → 2 * length b.m_buffer < 2 ^ 31
    → 0 < length bytes
    → length bytes < can_write_bytes_num (room_to_read b)
    → (b' : TcpBuffer) × (read_loop b (read_bytes bytes ∷ rs) ≡ ok (false, b'))
      × (contents b' ≡ contents b ++ bytes)
      × IsReady b'
unfolding read_loop take_in
read_loop_lem {b} bytes rs v h some_bytes short =
    let r = room_to_read b in
    let (c, v') = room_to_read_lem v h in
    (
      take_in r bytes,
      rw (
        ne→==_false (length bytes) 0 (omega arith),
        lt→ltb (length bytes) (can_write_bytes_num r) short,
      ),
      contents-adjust_write_index bytes v' (omega arith)
          ∙ rw (lt→ltb (length bytes) (can_write_bytes_num r) short) (ap (λ xs. xs ++ bytes) c),
      take_in-IsReady bytes v' short,
    )

room_to_read_stays : (b : TcpBuffer) → 0 < can_write_bytes_num b → room_to_read b ≡ b
unfolding room_to_read
room_to_read_stays b h = rw (ne→==_false (can_write_bytes_num b) 0 (omega arith))

-- A read that fills the storage of a valid buffer to its end loses its bytes: when the next
-- read finds nothing more, the loop of on_read returns with the contents from before, if twice
-- the storage stays below 2^31.
pub read_loop_full :
    {b : TcpBuffer} (bytes : List ℕ) (rs : List ReadResult)
    → IsValid b
    → 2 * length b.m_buffer < 2 ^ 31
    → 0 < length bytes
    → length bytes ≡ can_write_bytes_num (room_to_read b)
    → (b' : TcpBuffer) × (read_loop b (read_bytes bytes ∷ read_again ∷ rs) ≡ ok (false, b'))
      × (contents b' ≡ contents b)
unfolding read_loop take_in
read_loop_full {b} bytes rs v h some_bytes full =
    let r = room_to_read b in
    let (c, v') = room_to_read_lem v h in
    let e = length-copy_into r.m_buffer r.m_write_index bytes (omega arith) in
    let w = received-IsValid bytes v' (omega arith) in
    let stays : adjust_write_index (received r bytes) (length bytes) ≡ received r bytes =
      adjust_write_index_stays (received r bytes) (length bytes) w.small (omega (arith, e))
        (omega (arith, e)) in
    let no_room : ltb (length bytes) (can_write_bytes_num r) ≡ false =
      le→ltb_false (length bytes) (can_write_bytes_num r) (omega arith) in
    let kept : contents (adjust_write_index (received r bytes) (length bytes))
        ≡ (if ltb (length bytes) (can_write_bytes_num r) then contents r ++ bytes else contents r) =
      contents-adjust_write_index bytes v' (omega arith) in
    (
      received r bytes,
      rw (
        ne→==_false (length bytes) 0 (omega arith),
        no_room,
        stays,
        room_to_read_stays (received r bytes) (omega (arith, e)),
      ),
      (rw (stays, no_room) at kept) ∙ c,
    )

-- A read that keeps failing with another error than EAGAIN is repeated for ever: the loop of
-- on_read does not return after any number of failures.
read_loop-stuck : (b : TcpBuffer) (n : ℕ) → read_loop b (replicate n read_failed) ≡ stuck
unfolding read_loop
read_loop-stuck b zero = refl
read_loop-stuck b (suc n) = read_loop-stuck (room_to_read b) n
