-- ===== src/Buffer/Contents.antt =====
-- `TcpBuffer` as a queue of bytes: what each operation does to the bytes between the two indices.
use tiny_rpc.Base.{
  ℕ, ◌+◌, ◌-◌, ◌*◌, ◌/◌, ◌^◌, ◌≤◌, ◌<◌, min, ◌≡◌, refl, sym, ap, ap₂, ◌∙◌, inl, inr, List, [], ◌∷◌,
  ◌++◌, arith, leb, ==_iff, ◌==◌, if◌then◌else◌, Bool-cases, length, take, drop, replicate, slice,
  length-take, take-append_left, take-append_right, drop-append_left, take_all, length-drop,
  drop_all, take-take, drop-take, drop-drop,
}
use tiny_rpc.Buffer.{
  TcpBuffer, can_read_bytes_num, copy_into, grown, resize_buffer, make_room, write_to_buffer,
  adjust_buffer, read_from_buffer,
}
use tiny_rpc.Buffer.Invariant.{IsValid, length-kept, make_room-IsValid}

-- The bytes that are still to be read, oldest first.
abbrev pub contents : TcpBuffer → List ℕ
contents b = slice b.m_buffer b.m_read_index (can_read_bytes_num b)

pub take_prefix : (n : ℕ) (xs ys : List ℕ) → n ≡ length xs → take n (xs ++ ys) ≡ xs
take_prefix n xs ys h = take-append_left n xs ys (omega arith) ∙ take_all n xs (omega arith)

-- `resize_buffer` keeps the first `n` bytes: all of them when `n` is large enough.
pub contents-resize_buffer :
    {b : TcpBuffer} (n : ℕ) → IsValid b → contents (resize_buffer b n) ≡ take n (contents b)
unfolding resize_buffer
contents-resize_buffer {b} n v =
    let count = min n (can_read_bytes_num b) in
    let e = length-kept v count (omega arith) in
    take_prefix (count - 0) (slice b.m_buffer b.m_read_index count) _ (omega (arith, e))
    ∙ sym (take-take n (can_read_bytes_num b) (drop b.m_read_index b.m_buffer))

-- `adjust_buffer` moves the bytes to the front and loses none.
pub contents-adjust_buffer : {b : TcpBuffer} → IsValid b → contents (adjust_buffer b) ≡ contents b
unfolding adjust_buffer
contents-adjust_buffer {b} v =
    let count = can_read_bytes_num b in
    let e = length-kept v count (omega arith) in
    ground (
      arith,
      take_prefix (count - 0) (contents b) (replicate (length b.m_buffer - length (contents b)) 0)
          (omega (arith, e)),
    )

-- A `memcpy` to the write index extends the window by the bytes copied.
pub slice-copy_into :
    (dst : List ℕ) (r at : ℕ) (src : List ℕ)
    → r ≤ at
    → at + length src ≤ length dst
    → slice (copy_into dst at src) r (at + length src - r) ≡ slice dst r (at - r) ++ src
slice-copy_into dst r at src h k =
    ap (take (at + length src - r))
      (drop-append_left r (take at dst) tail (omega (arith, length-take at dst)))
    ∙ take-append_right (at + length src - r) (drop r (take at dst)) tail (omega (arith, front))
    ∙ ap₂ ◌++◌ (drop-take r at dst) (
        take_prefix (at + length src - r - length (drop r (take at dst))) src _
          (omega (arith, front)))
  where
    tail : List ℕ
    tail = src ++ drop (at + length src) dst

    front : length (drop r (take at dst)) ≡ at - r
    front = omega (arith, length-take at dst, length-drop r (take at dst))

contents-make_room :
    {b : TcpBuffer} (size : ℕ) → IsValid b → contents (make_room b size) ≡ contents b
unfolding make_room
contents-make_room {b} size v =
    let n = grown (b.m_write_index + size) in
    ground (
      arith,
      contents-resize_buffer n v,
      take_all n (contents b) (omega (arith, length-kept v (can_read_bytes_num b))),
    )

-- write_to_buffer on a valid buffer appends the bytes to the contents, also where it must make
-- room, if the buffer stays below 2^31 bytes.
pub contents-write_to_buffer :
    {b : TcpBuffer} (bytes : List ℕ)
    → IsValid b
    → 3 * (b.m_write_index + length bytes) / 2 < 2 ^ 31
    → contents (write_to_buffer b bytes) ≡ contents b ++ bytes
unfolding write_to_buffer
contents-write_to_buffer {b} bytes v h =
    let (v', room) = make_room-IsValid (length bytes) v h in
    let b' = make_room b (length bytes) in
    slice-copy_into b'.m_buffer b'.m_read_index b'.m_write_index bytes (omega arith) (omega arith)
    ∙ ap (λ xs. xs ++ bytes) (contents-make_room (length bytes) v)

-- The window after the read index moves right by `n`.
pub contents_skip :
    (b : TcpBuffer) (n : ℕ)
    → slice b.m_buffer (b.m_read_index + n) (b.m_write_index - (b.m_read_index + n))
      ≡ drop n (contents b)
contents_skip b n =
    let e : b.m_write_index - (b.m_read_index + n) ≡ can_read_bytes_num b - n = omega arith in
    rw e (
      sym (
        drop-take n (can_read_bytes_num b) (drop b.m_read_index b.m_buffer)
        ∙ ap (take (can_read_bytes_num b - n)) (drop-drop n b.m_read_index b.m_buffer)))

drop-min : (m : ℕ) (xs : List ℕ) (n : ℕ) → n ≡ length xs → drop (min m n) xs ≡ drop m xs
drop-min m xs n e = elim (Bool-cases (leb m n)) [
  | inl h ↦ ap (λ k. drop k xs) (ground arith)
  | inr h ↦ drop_all (min m n) xs (ground arith) ∙ sym (drop_all m xs (ground arith))
]

drop_none : (m : ℕ) (xs : List ℕ) → length xs ≡ 0 → xs ≡ drop m xs
drop_none m [] e = sym (drop_all m [] (omega arith))
drop_none m (x ∷ xs) e = absurd (omega arith)

-- read_from_buffer on a valid buffer takes the first bytes of the contents, up to the size
-- asked for, and removes them; an empty buffer leaves the caller's vector as it was.
pub read_from_buffer_lem :
    {b : TcpBuffer} (re : List ℕ) (size : ℕ)
    → IsValid b
    → let (out, b') = read_from_buffer b re size in
      (contents b' ≡ drop size (contents b))
      × (out ≡ (if can_read_bytes_num b == 0 then re else take size (contents b)))
unfolding read_from_buffer
read_from_buffer_lem {b} re size v = elim (Bool-cases (can_read_bytes_num b == 0)) [
  | inl e ↦ rw e (empty_drop ((==_iff _ 0).0 e), refl)
  | inr e ↦ rw e (
    contents-adjust_buffer {b = taken} (omega arith)
        ∙ contents_skip b (min size count)
        ∙ drop-min size (contents b) count (omega (arith, whole)),
    sym (take-take size count (drop b.m_read_index b.m_buffer)),
  )
]
  where
    count : ℕ
    count = can_read_bytes_num b

    whole : length (contents b) ≡ count
    whole = length-kept v count (omega arith)

    taken : TcpBuffer
    taken = record b { m_read_index = b.m_read_index + min size count }

    empty_drop : count ≡ 0 → contents b ≡ drop size (contents b)
    empty_drop e =
        let n : length (contents b) ≡ 0 = omega (arith, whole) in drop_none size (contents b) n
