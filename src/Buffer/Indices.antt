-- ===== src/Buffer/Indices.antt =====
-- The two functions that move an index of `TcpBuffer` by hand, `adjust_read_index` and
-- `adjust_write_index`.
use tiny_rpc.Base.{
  ℕ, ◌+◌, ◌%◌, ◌^◌, ◌≤◌, ◌<◌, ◌≡◌, refl, ap, ◌∙◌, List, ◌++◌, arith, ltb, lt→ltb, le→ltb_false,
  lt→leb_false, le→leb, if◌then◌else◌, length, take, drop, length-take, drop-append_left,
  length-drop, drop-take,
}
use native.Mathlib.Decide.{dec_lt}
use tiny_rpc.Buffer.{
  TcpBuffer, can_read_bytes_num, can_write_bytes_num, copy_into, adjust_buffer, adjust_read_index,
  adjust_write_index,
}
use tiny_rpc.Buffer.Invariant.{IsValid, length-copy_into}
use tiny_rpc.Buffer.Contents.{
  contents, contents_skip, contents-adjust_buffer, slice-copy_into, take_prefix,
}

-- The two `adjust` functions on an index that stays inside the storage, and on one that does not.
module _ (b : TcpBuffer) (n : ℕ) (small : length b.m_buffer < 2 ^ 31) where
  pub adjust_read_index_moves :
      b.m_read_index + n < length b.m_buffer
      → adjust_read_index b n ≡ adjust_buffer (record b { m_read_index = b.m_read_index + n })
  unfolding adjust_read_index
  adjust_read_index_moves h =
      let e : (b.m_read_index + n) % 2 ^ 32 ≡ b.m_read_index + n = omega arith in
      rw (e, lt→leb_false (2 ^ 31) (b.m_read_index + n) (omega arith), lt→leb_false _ _ h)

  pub adjust_read_index_stays :
      length b.m_buffer ≤ b.m_read_index + n
      → b.m_read_index + n < 2 ^ 31
      → adjust_read_index b n ≡ b
  unfolding adjust_read_index
  adjust_read_index_stays h k =
      let e : (b.m_read_index + n) % 2 ^ 32 ≡ b.m_read_index + n = omega arith in
      rw (e, lt→leb_false (2 ^ 31) (b.m_read_index + n) (omega arith), le→leb _ _ h)

  pub adjust_write_index_moves :
      b.m_write_index + n < length b.m_buffer
      → adjust_write_index b n ≡ adjust_buffer (record b { m_write_index = b.m_write_index + n })
  unfolding adjust_write_index
  adjust_write_index_moves h =
      let e : (b.m_write_index + n) % 2 ^ 32 ≡ b.m_write_index + n = omega arith in
      rw (e, lt→leb_false (2 ^ 31) (b.m_write_index + n) (omega arith), lt→leb_false _ _ h)

  pub adjust_write_index_stays :
      length b.m_buffer ≤ b.m_write_index + n
      → b.m_write_index + n < 2 ^ 31
      → adjust_write_index b n ≡ b
  unfolding adjust_write_index
  adjust_write_index_stays h k =
      let e : (b.m_write_index + n) % 2 ^ 32 ≡ b.m_write_index + n = omega arith in
      rw (e, lt→leb_false (2 ^ 31) (b.m_write_index + n) (omega arith), le→leb _ _ h)

-- adjust_read_index on a valid buffer drops the given number of bytes, at most those it holds,
-- from the contents, except where the new index would reach the end of the storage: then it
-- drops nothing.
pub contents-adjust_read_index :
    {b : TcpBuffer} (size : ℕ)
    → IsValid b
    → size ≤ can_read_bytes_num b
    → contents (adjust_read_index b size) ≡ (
        if ltb (b.m_read_index + size) (length b.m_buffer)
        then drop size (contents b)
        else contents b)
contents-adjust_read_index {b} size v h =
    elim (dec_lt (b.m_read_index + size) (length b.m_buffer)) [
      | yes f ↦
          rw (lt→ltb _ _ f, adjust_read_index_moves b size v.small f)
            (contents-adjust_buffer {b = skipped} (omega arith) ∙ contents_skip b size)
      | no f ↦
          rw
            (
              le→ltb_false (b.m_read_index + size) (length b.m_buffer) (omega arith),
              adjust_read_index_stays b size v.small (omega arith) (omega arith),
            )
            refl
    ]
  where
    skipped : TcpBuffer
    skipped = record b { m_read_index = b.m_read_index + size }

-- What the system call `read` leaves: `bytes` behind the write index, which has not moved.
abbrev pub received : TcpBuffer → List ℕ → TcpBuffer
received b bytes = record b { m_buffer = copy_into b.m_buffer b.m_write_index bytes }

pub received-IsValid :
    {b : TcpBuffer} (bytes : List ℕ)
    → IsValid b
    → length bytes ≤ can_write_bytes_num b
    → IsValid (received b bytes)
received-IsValid {b} bytes v h =
    let e = length-copy_into b.m_buffer b.m_write_index bytes (omega arith) in omega (arith, e)

-- The bytes that a read puts behind the write index of a valid buffer join the contents when
-- adjust_write_index follows, unless they fill the storage to its end: then the contents stay
-- as they were.
pub contents-adjust_write_index :
    {b : TcpBuffer} (bytes : List ℕ)
    → IsValid b
    → length bytes ≤ can_write_bytes_num b
    → contents (adjust_write_index (received b bytes) (length bytes))
      ≡ (if ltb (length bytes) (can_write_bytes_num b) then contents b ++ bytes else contents b)
contents-adjust_write_index {b} bytes v h = elim (dec_lt (length bytes) (can_write_bytes_num b)) [
  | yes f ↦
      rw
        (
          lt→ltb _ _ f,
          adjust_write_index_moves (received b bytes) (length bytes) v'.small (omega (arith, size)),
        )
        (contents-adjust_buffer {b = moved} (omega (arith, size))
          ∙ slice-copy_into b.m_buffer b.m_read_index b.m_write_index bytes v.read_le (omega arith))
  | no f ↦
      rw
        (
          le→ltb_false (length bytes) (can_write_bytes_num b) (omega arith),
          adjust_write_index_stays (received b bytes) (length bytes) v'.small (omega (arith, size))
              (omega (arith, size)),
        )
        (slice-untouched)
]
  where
    v' : IsValid (received b bytes)
    v' = received-IsValid bytes v h

    size : length (copy_into b.m_buffer b.m_write_index bytes) ≡ length b.m_buffer
    size = length-copy_into b.m_buffer b.m_write_index bytes (omega arith)

    moved : TcpBuffer
    moved = record (received b bytes) { m_write_index = b.m_write_index + length bytes }

    slice-untouched : contents (received b bytes) ≡ contents b
    slice-untouched =
        ap (take (can_read_bytes_num b)) (
          drop-append_left b.m_read_index (take b.m_write_index b.m_buffer) _
            (omega (arith, length-take b.m_write_index b.m_buffer)))
        ∙ take_prefix (can_read_bytes_num b) (drop b.m_read_index (take b.m_write_index b.m_buffer))
            _
            (omega (
              arith,
              length-take b.m_write_index b.m_buffer,
              length-drop b.m_read_index (take b.m_write_index b.m_buffer),
            ))
        ∙ drop-take b.m_read_index b.m_write_index b.m_buffer
