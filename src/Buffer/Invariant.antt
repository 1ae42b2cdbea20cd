-- ===== src/Buffer/Invariant.antt =====
-- The index invariant of `TcpBuffer`: every operation keeps it, so every `memcpy` stays in range.
use tiny_rpc.Base.{
  ℕ, ◌+◌, ◌-◌, ◌/◌, ◌^◌, ◌≤◌, ◌<◌, min, ◌≡◌, refl, inl, inr, List, ◌++◌, arith, leb, ◌==◌, ◌||◌,
  ◌*◌, ◌%◌, Bool-cases, length, take, drop, replicate, slice, length-append, length-take,
  length-drop, length-replicate, length-slice,
}
use tiny_rpc.Buffer.{
  TcpBuffer, new_buffer, can_read_bytes_num, can_write_bytes_num, copy_into, fresh_with, grown,
  resize_buffer, make_room, write_to_buffer, adjust_buffer, read_from_buffer, adjust_read_index,
  adjust_write_index,
}

pub record IsValid (b : TcpBuffer) : Type 0 where
  pub read_le : b.m_read_index ≤ b.m_write_index
  pub write_le : b.m_write_index ≤ length b.m_buffer
  pub small : length b.m_buffer < 2 ^ 31

pub length-fresh_with :
    (size : ℕ) (src : List ℕ) → length src ≤ size → length (fresh_with size src) ≡ size
length-fresh_with size src h = omega (
  arith,
  length-append src (replicate (size - length src) 0),
  length-replicate {0} {A = ℕ} (size - length src) 0,
)

pub length-copy_into :
    (dst : List ℕ) (at : ℕ) (src : List ℕ)
    → at + length src ≤ length dst
    → length (copy_into dst at src) ≡ length dst
length-copy_into dst at src h = omega (
  arith,
  length-append (take at dst) (src ++ drop (at + length src) dst),
  length-append src (drop (at + length src) dst),
  length-take at dst,
  length-drop (at + length src) dst,
)

pub new_buffer-IsValid : (size : ℕ) → size < 2 ^ 31 → IsValid (new_buffer size)
unfolding new_buffer
new_buffer-IsValid size h = omega (arith, length-replicate {0} {A = ℕ} size 0)

module _ {b : TcpBuffer} (v : IsValid b) where
  -- The bytes that a resize or a shift keeps, and the storage after it.
  pub length-kept :
      (n : ℕ) → n ≤ can_read_bytes_num b → length (slice b.m_buffer b.m_read_index n) ≡ n
  length-kept n h = length-slice b.m_buffer b.m_read_index n (omega arith)

  pub length-resize_buffer : (n : ℕ) → length (resize_buffer b n).m_buffer ≡ n
  unfolding resize_buffer
  length-resize_buffer n =
      let e = length-kept (min n (can_read_bytes_num b)) (omega arith) in
      length-fresh_with n _ (omega (arith, e))

  pub resize_buffer-IsValid : (n : ℕ) → n < 2 ^ 31 → IsValid (resize_buffer b n)
  unfolding resize_buffer
  resize_buffer-IsValid n h = record {
    read_le = omega arith;
    write_le = omega (arith, length-resize_buffer n);
    small = omega (arith, length-resize_buffer n);
  }

  pub length-adjust_buffer : length (adjust_buffer b).m_buffer ≡ length b.m_buffer
  unfolding adjust_buffer
  length-adjust_buffer =
      let e = length-kept (can_read_bytes_num b) (omega arith) in
      ground (
        arith,
        length-fresh_with (length b.m_buffer)
            (slice b.m_buffer b.m_read_index (can_read_bytes_num b)) (omega (arith, e)),
      )

  pub adjust_buffer-IsValid : IsValid (adjust_buffer b)
  unfolding adjust_buffer
  adjust_buffer-IsValid = ground (arith, length-adjust_buffer)

pub write_index-resize_buffer :
    (b : TcpBuffer) (n : ℕ) → (resize_buffer b n).m_write_index ≡ min n (can_read_bytes_num b)
unfolding resize_buffer
write_index-resize_buffer b n = refl

-- `make_room` leaves space for `size` bytes, and moves no index past what it was.
pub make_room-IsValid :
    {b : TcpBuffer} (size : ℕ)
    → IsValid b
    → 3 * (b.m_write_index + size) / 2 < 2 ^ 31
    → IsValid (make_room b size) × (size ≤ can_write_bytes_num (make_room b size))
unfolding make_room
make_room-IsValid {b} size v h = ground (
  arith,
  resize_buffer-IsValid v (grown (b.m_write_index + size)),
  length-resize_buffer v (grown (b.m_write_index + size)),
  write_index-resize_buffer b (grown (b.m_write_index + size)),
)

-- write_to_buffer keeps a buffer valid: the read index is at most the write index, which is at
-- most the length of the storage, which stays below 2^31, if one and a half times the bytes
-- needed do.
pub write_to_buffer-IsValid :
    {b : TcpBuffer} (bytes : List ℕ)
    → IsValid b
    → 3 * (b.m_write_index + length bytes) / 2 < 2 ^ 31
    → IsValid (write_to_buffer b bytes)
unfolding write_to_buffer
write_to_buffer-IsValid {b} bytes v h =
    let (v', room) = make_room-IsValid (length bytes) v h in
    let b' = make_room b (length bytes) in
    let e = length-copy_into b'.m_buffer b'.m_write_index bytes (omega arith) in
    record { read_le = omega arith; write_le = omega (arith, e); small = omega (arith, e) }

pub read_from_buffer-IsValid :
    {b : TcpBuffer} (re : List ℕ) (size : ℕ) → IsValid b → IsValid (read_from_buffer b re size).1
unfolding read_from_buffer
read_from_buffer-IsValid {b} re size v = elim (Bool-cases (can_read_bytes_num b == 0)) [
  | inl e ↦ rw e v
  | inr e ↦ rw e (adjust_buffer-IsValid (omega arith))
]

-- Skipping bytes that are there keeps the invariant.
pub adjust_read_index-IsValid :
    {b : TcpBuffer} (size : ℕ)
    → IsValid b
    → size ≤ can_read_bytes_num b
    → IsValid (adjust_read_index b size)
unfolding adjust_read_index
adjust_read_index-IsValid {b} size v h =
    let j = (b.m_read_index + size) % 2 ^ 32 in
    elim (Bool-cases (leb (2 ^ 31) j || leb (length b.m_buffer) j)) [
      | inl e ↦ rw e v
      | inr e ↦ rw e (adjust_buffer-IsValid (omega arith))
    ]

pub adjust_write_index-IsValid :
    {b : TcpBuffer} (size : ℕ)
    → IsValid b
    → size ≤ can_write_bytes_num b
    → IsValid (adjust_write_index b size)
unfolding adjust_write_index
adjust_write_index-IsValid {b} size v h =
    let j = (b.m_write_index + size) % 2 ^ 32 in
    elim (Bool-cases (leb (2 ^ 31) j || leb (length b.m_buffer) j)) [
      | inl e ↦ rw e v
      | inr e ↦ rw e (adjust_buffer-IsValid (omega arith))
    ]

pub write_index-adjust_buffer : (b : TcpBuffer) → (adjust_buffer b).m_write_index ≤ b.m_write_index
unfolding adjust_buffer
write_index-adjust_buffer b = ground arith
