-- ===== src/Coder/RoundTrip.antt =====
-- `decode` after `encode`: the messages come back.
use tiny_rpc.Base.{
  ℕ, zero, suc, ◌+◌, ◌-◌, ◌≤◌, ◌<◌, ◌≡◌, refl, sym, ap, ◌∙◌, ◌≢◌, List, [], ◌∷◌, ◌++◌, map, arith,
  some, none, ok, length, drop, All, length-append, append-nil, append_assoc, lt→ltb,
  take-append-drop, ne→==_false, drop-append_right, drop-drop,
}
use tiny_rpc.Buffer.{TcpBuffer, can_read_bytes_num, adjust_buffer, adjust_read_index}
use tiny_rpc.Buffer.Invariant.{
  IsValid, adjust_buffer-IsValid, length-adjust_buffer, length-kept, write_index-adjust_buffer,
}
use tiny_rpc.Buffer.Contents.{contents}
use tiny_rpc.Buffer.Indices.{contents-adjust_read_index, adjust_read_index_moves}
use tiny_rpc.Coder.Protocol.{ProtobufProtocol, s_start}
use tiny_rpc.Coder.Encode.{with_msg_id, packet_len, packet}
use tiny_rpc.Coder.Decode.{Found, check_start, find_packet, found_len, decode_loop, decode}
use tiny_rpc.Coder.Wire.{byte_at_lem}
use tiny_rpc.Coder.Append.{length-packet, packets, sent}
use tiny_rpc.Coder.Packet.{
  IsSendable, with_msg_id-IsSendable, check_start-found, parse_packet-found,
}

-- A buffer that `on_read` has filled: valid, and not full to the end of its storage.
pub record IsReady (b : TcpBuffer) : Type 0 where
  pub valid : IsValid b
  pub not_full : b.m_write_index < length b.m_buffer

-- The message that `decode` pushes for `m`: what `encode` made of it, with no check sum read.
abbrev pub decoded : ProtobufProtocol → ProtobufProtocol
decoded m = record (sent m) { m_check_sum = 0 }

-- No byte starts a packet.
abbrev pub NoStart : List ℕ → Type 0
NoStart = All (λ x. x ≢ s_start)

pub find_packet-here :
    (tmp : List ℕ) (w n i : ℕ) (p : Found)
    → 0 < n
    → check_start tmp w i ≡ ok (some p)
    → find_packet tmp w n i ≡ ok (some p)
unfolding find_packet
find_packet-here tmp w zero i p h e = absurd (omega arith)
find_packet-here tmp w (suc n) i p h e = rw e

-- Where no start byte is in sight the search ends without a packet.
pub find_packet-none :
    (tmp : List ℕ) (w n i : ℕ) (xs rest : List ℕ)
    → drop i tmp ≡ xs ++ rest
    → length xs ≡ n
    → NoStart xs
    → find_packet tmp w n i ≡ ok none
unfolding find_packet check_start
find_packet-none tmp w zero i xs rest h e c = refl
find_packet-none tmp w (suc n) i [] rest h e c = absurd (omega arith)
find_packet-none tmp w (suc n) i (x ∷ xs) rest h e c =
    rw (byte_at_lem tmp i x h, ne→==_false x s_start c.0)
      (find_packet-none tmp w n (i + 1) xs rest (sym (drop-drop 1 i tmp) ∙ ap (drop 1) h)
        (omega arith) c.1)

-- The array from the read index on is what the buffer holds, and the rest of the storage.
pub window :
    (b : TcpBuffer)
    → drop b.m_read_index b.m_buffer
      ≡ contents b ++ drop (can_read_bytes_num b) (drop b.m_read_index b.m_buffer)
window b = sym (take-append-drop (can_read_bytes_num b) (drop b.m_read_index b.m_buffer))

pub adjust_buffer-IsReady : {b : TcpBuffer} → IsReady b → IsReady (adjust_buffer b)
adjust_buffer-IsReady {b} r = record {
  valid = adjust_buffer-IsValid r.valid;
  not_full = omega (arith, length-adjust_buffer r.valid, write_index-adjust_buffer b);
}

pub drop_front : (xs ys : List ℕ) (n : ℕ) → n ≡ length xs → drop n (xs ++ ys) ≡ ys
drop_front xs ys n e =
    let z : n - length xs ≡ 0 = omega arith in
    drop-append_right n xs ys (omega arith) ∙ ap (λ k. drop k ys) z

-- One round of the loop on a buffer that starts with a packet.
module _ (m : ProtobufProtocol) (tail : List ℕ) (b : TcpBuffer) (r : IsReady b) (s : IsSendable m)
    (h : contents b ≡ packet (with_msg_id m) ++ tail) where
  abbrev skipped : TcpBuffer
  skipped = adjust_read_index b (packet_len (with_msg_id m))

  here : can_read_bytes_num b ≡ packet_len (with_msg_id m) + length tail
  here = omega (
    arith,
    ap length h,
    length-kept r.valid (can_read_bytes_num b) (omega arith),
    length-append (packet (with_msg_id m)) tail,
    length-packet (with_msg_id m),
  )

  skipped-IsReady : IsReady skipped × (contents skipped ≡ tail)
  skipped-IsReady =
      let n = packet_len (with_msg_id m) in
      let inside : b.m_read_index + n < length b.m_buffer = omega (arith, here) in
      let ready : IsReady (record b { m_read_index = b.m_read_index + n }) = record {
        valid = omega (arith, here);
        not_full = r.not_full;
      } in
      (
        rw (adjust_read_index_moves b n r.valid.small inside) (adjust_buffer-IsReady ready),
        contents-adjust_read_index n r.valid (omega (arith, here))
            ∙ rw (lt→ltb (b.m_read_index + n) (length b.m_buffer) inside, h)
                (drop_front (packet (with_msg_id m)) tail n (sym (length-packet (with_msg_id m)))),
      )

  decode_loop-packet :
      (fuel : ℕ) (out : List ProtobufProtocol)
      → decode_loop (suc fuel) out b ≡ decode_loop fuel (out ++ decoded m ∷ []) skipped
  unfolding decode_loop
  decode_loop-packet fuel out =
      let m' = with_msg_id m in
      let n = packet_len m' in
      let after = drop (can_read_bytes_num b) (drop b.m_read_index b.m_buffer) in
      let there : drop b.m_read_index b.m_buffer ≡ packet m' ++ (tail ++ after) =
        window b ∙ ap (λ xs. xs ++ after) h ∙ append_assoc (packet m') tail after in
      let s' = with_msg_id-IsSendable s in
      let start =
        check_start-found m' b.m_buffer b.m_write_index b.m_read_index (tail ++ after) s'
          s.data_small there (omega (arith, here)) (omega arith) in
      let parse =
        parse_packet-found m' b.m_buffer b.m_write_index b.m_read_index (tail ++ after) s'
          s.data_small there (omega (arith, here)) (omega arith) in
      let len : found_len (record {
        start_index = b.m_read_index;
        end_index = b.m_read_index + n - 1;
        pk_len = n;
      })
          ≡ n =
        omega (arith, here) in
      rw (
        find_packet-here b.m_buffer b.m_write_index (can_read_bytes_num b) b.m_read_index _
            (omega (arith, here)) start,
        parse,
        len,
      )

-- `decode` on a buffer that holds the packets of `ms` and then bytes with no start byte among them:
-- it returns, pushes the messages in order, and leaves those bytes in the buffer.
decode_loop-packets :
    (ms : List ProtobufProtocol) (tail : List ℕ) (b : TcpBuffer) (fuel : ℕ)
    (out : List ProtobufProtocol)
    → IsReady b
    → All IsSendable ms
    → NoStart tail
    → contents b ≡ packets ms ++ tail
    → length ms < fuel
    → (b' : TcpBuffer) × (decode_loop fuel out b ≡ ok (out ++ map decoded ms, b'))
      × (contents b' ≡ tail)
      × IsReady b'
decode_loop-packets ms tail b zero out r s c h f = absurd (omega arith)
decode_loop-packets [] tail b (suc fuel) out r s c h f =
    (b, unfold decode_loop in rw (none_found, append-nil out), h, r)
  where
    after : List ℕ
    after = drop (can_read_bytes_num b) (drop b.m_read_index b.m_buffer)

    none_found :
        find_packet b.m_buffer b.m_write_index (can_read_bytes_num b) b.m_read_index ≡ ok none
    none_found =
        find_packet-none b.m_buffer b.m_write_index (can_read_bytes_num b) b.m_read_index tail after
          (window b ∙ ap (λ xs. xs ++ after) h)
          (omega (arith, ap length h, length-kept r.valid (can_read_bytes_num b))) c
decode_loop-packets (m ∷ ms) tail b (suc fuel) out r (s, ss) c h f =
    let h' = h ∙ append_assoc (packet (with_msg_id m)) (packets ms) tail in
    let (r', c') = skipped-IsReady m (packets ms ++ tail) b r s h' in
    let (b', e, t, r'') =
      decode_loop-packets ms tail (skipped m (packets ms ++ tail) b r s h') fuel
        (out ++ decoded m ∷ []) r' ss c c' (omega arith) in
    (
      b',
      decode_loop-packet m (packets ms ++ tail) b r s h' fuel out
          ∙ e
          ∙ ap (λ l. ok (l, b')) (append_assoc out (decoded m ∷ []) (map decoded ms)),
      t,
      r'',
    )

length-packets : (ms : List ProtobufProtocol) → length ms ≤ length (packets ms)
length-packets [] = omega arith
length-packets (m ∷ ms) = omega (
  arith,
  length-packets ms,
  length-append (packet (with_msg_id m)) (packets ms),
  length-packet (with_msg_id m),
)

-- decode on a ready buffer whose contents are the packets of sendable messages, followed by
-- bytes without a start byte, returns: it pushes exactly those messages as encode leaves them
-- (check sum unread), and the bytes that follow stay as the contents of a ready buffer.
pub decode-packets :
    (ms : List ProtobufProtocol) (tail : List ℕ) (b : TcpBuffer) (out : List ProtobufProtocol)
    → IsReady b
    → All IsSendable ms
    → NoStart tail
    → contents b ≡ packets ms ++ tail
    → (b' : TcpBuffer) × (decode out b ≡ ok (out ++ map decoded ms, b'))
      × (contents b' ≡ tail)
      × IsReady b'
unfolding decode
decode-packets ms tail b out r s c h =
    decode_loop-packets ms tail b (can_read_bytes_num b + 1) out r s c h (
      omega (
        arith,
        ap length h,
        length-kept r.valid (can_read_bytes_num b),
        length-append (packets ms) tail,
        length-packets ms,
      ))
