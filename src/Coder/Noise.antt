-- ===== src/Coder/Noise.antt =====
-- `decode` on a packet that stands behind bytes which start none: the read index moves by the
-- length of the packet, counted from the old read index and not from the packet.
use tiny_rpc.Base.{
  ℕ, zero, suc, ◌+◌, ◌-◌, ◌≤◌, ◌<◌, ◌≡◌, ◌≢◌, sym, ap, ap₂, ◌∙◌, List, [], ◌∷◌, ◌++◌, arith, some,
  ok, length, drop, append_assoc, length-append, lt→ltb, ne→==_false, drop-drop, drop-append_left,
}
use tiny_rpc.Buffer.{TcpBuffer, can_read_bytes_num, adjust_read_index}
use tiny_rpc.Buffer.Invariant.{length-kept}
use tiny_rpc.Buffer.Contents.{contents}
use tiny_rpc.Buffer.Indices.{contents-adjust_read_index, adjust_read_index_moves}
use tiny_rpc.Coder.Protocol.{ProtobufProtocol, s_start}
use tiny_rpc.Coder.Encode.{packet_len, packet, with_msg_id}
use tiny_rpc.Coder.Decode.{check_start, find_packet, found_len, decode_loop}
use tiny_rpc.Coder.Wire.{advance, byte_at_lem}
use tiny_rpc.Coder.Append.{length-packet}
use tiny_rpc.Coder.Packet.{
  IsSendable, with_msg_id-IsSendable, check_start-found, parse_packet-found,
}
use tiny_rpc.Coder.RoundTrip.{
  IsReady, NoStart, decoded, find_packet-here, window, adjust_buffer-IsReady,
}

-- One byte that starts no packet.
find_packet-next :
    (tmp : List ℕ) (w n i x : ℕ) (rest : List ℕ)
    → drop i tmp ≡ x ∷ rest
    → x ≢ s_start
    → find_packet tmp w (suc n) i ≡ find_packet tmp w n (i + 1)
unfolding find_packet check_start
find_packet-next tmp w n i x rest h ne = rw (byte_at_lem tmp i x h, ne→==_false x s_start ne)

-- The search passes over bytes that are no start byte.
find_packet-skip :
    (tmp : List ℕ) (w k i : ℕ) (xs rest : List ℕ)
    → drop i tmp ≡ xs ++ rest
    → NoStart xs
    → find_packet tmp w (length xs + k) i ≡ find_packet tmp w k (i + length xs)
find_packet-skip tmp w k i [] rest h c = ap₂ (find_packet tmp w) (omega arith) (omega arith)
find_packet-skip tmp w k i (x ∷ xs) rest h c =
    let e : suc (length xs) + k ≡ suc (length xs + k) = omega arith in
    let j : i + 1 + length xs ≡ i + suc (length xs) = omega arith in
    ap (λ n. find_packet tmp w n i) e
    ∙ find_packet-next tmp w (length xs + k) i x (xs ++ rest) h c.0
    ∙ find_packet-skip tmp w k (i + 1) xs rest (sym (drop-drop 1 i tmp) ∙ ap (drop 1) h) c.1
    ∙ ap (find_packet tmp w k) j

module _ (m : ProtobufProtocol) (noise tail : List ℕ) (b : TcpBuffer) (r : IsReady b)
    (s : IsSendable m) (clean : NoStart noise)
    (h : contents b ≡ noise ++ (packet (with_msg_id m) ++ tail)) where
  here : can_read_bytes_num b ≡ length noise + (packet_len (with_msg_id m) + length tail)
  here = omega (
    arith,
    ap length h,
    length-kept r.valid (can_read_bytes_num b) (omega arith),
    length-append noise (packet (with_msg_id m) ++ tail),
    length-append (packet (with_msg_id m)) tail,
    length-packet (with_msg_id m),
  )

  -- The packet is found and its message is pushed, however much noise stands before it.
  pub decode_loop-noise :
      (fuel : ℕ) (out : List ProtobufProtocol)
      → decode_loop (suc fuel) out b
        ≡ decode_loop fuel
            (out ++ decoded m ∷ [])
            (adjust_read_index b (packet_len (with_msg_id m)))
  unfolding decode_loop
  decode_loop-noise fuel out =
      let m' = with_msg_id m in
      let n = packet_len m' in
      let i = b.m_read_index + length noise in
      let after = drop (can_read_bytes_num b) (drop b.m_read_index b.m_buffer) in
      let all : drop b.m_read_index b.m_buffer ≡ noise ++ (packet m' ++ (tail ++ after)) =
        window b
        ∙ ap (λ xs. xs ++ after) h
        ∙ append_assoc noise (packet m' ++ tail) after
        ∙ ap (◌++◌ noise) (append_assoc (packet m') tail after) in
      let there = advance b.m_buffer b.m_read_index noise all in
      let s' = with_msg_id-IsSendable s in
      let start =
        check_start-found m' b.m_buffer b.m_write_index i (tail ++ after) s' s.data_small there
          (omega (arith, here)) (omega arith) in
      let parse =
        parse_packet-found m' b.m_buffer b.m_write_index i (tail ++ after) s' s.data_small there
          (omega (arith, here)) (omega arith) in
      let len : found_len (record { start_index = i; end_index = i + n - 1; pk_len = n }) ≡ n =
        omega (arith, here) in
      let search : find_packet b.m_buffer b.m_write_index (can_read_bytes_num b) b.m_read_index
          ≡ ok (some (record { start_index = i; end_index = i + n - 1; pk_len = n })) =
        ap (λ k. find_packet b.m_buffer b.m_write_index k b.m_read_index) here
        ∙ find_packet-skip b.m_buffer b.m_write_index (n + length tail) b.m_read_index noise _ all
            clean
        ∙ find_packet-here b.m_buffer b.m_write_index (n + length tail) i _ (omega arith) start in
      rw (search, parse, len)

  -- When the noise is as long as the packet, the packet stays in the buffer and is found again.
  pub packet_stays :
      packet_len (with_msg_id m) ≤ length noise
      → let b' = adjust_read_index b (packet_len (with_msg_id m)) in
        IsReady b'
        × (contents b'
            ≡ drop (packet_len (with_msg_id m)) noise ++ (packet (with_msg_id m) ++ tail))
  packet_stays k =
      let n = packet_len (with_msg_id m) in
      let inside : b.m_read_index + n < length b.m_buffer = omega (arith, here) in
      let ready : IsReady (record b { m_read_index = b.m_read_index + n }) = record {
        valid = omega (arith, here);
        not_full = r.not_full;
      } in
      (
        rw (adjust_read_index_moves b n r.valid.small inside) (adjust_buffer-IsReady ready),
        contents-adjust_read_index n r.valid (omega (arith, here))
            ∙ rw (lt→ltb (b.m_read_index + n) (length b.m_buffer) inside, h)
                (drop-append_left n noise (packet (with_msg_id m) ++ tail) k),
      )

drop-NoStart : (n : ℕ) (xs : List ℕ) → NoStart xs → NoStart (drop n xs)
drop-NoStart zero xs c = c
drop-NoStart (suc n) [] c = tt
drop-NoStart (suc n) (x ∷ xs) c = drop-NoStart n xs c.1

-- A sendable message behind noise without a start byte that is at least as long as its packet
-- is pushed twice by decode: the first round moves the read index through the noise only, and
-- the second finds the same packet.
pub decode_loop-twice :
    (m : ProtobufProtocol) (noise tail : List ℕ) (b : TcpBuffer) (fuel : ℕ)
    (out : List ProtobufProtocol)
    → IsReady b
    → IsSendable m
    → NoStart noise
    → packet_len (with_msg_id m) ≤ length noise
    → contents b ≡ noise ++ (packet (with_msg_id m) ++ tail)
    → (b' : TcpBuffer) × (decode_loop (suc (suc fuel)) out b
        ≡ decode_loop fuel (out ++ decoded m ∷ decoded m ∷ []) b')
decode_loop-twice m noise tail b fuel out r s clean long h =
    let n = packet_len (with_msg_id m) in
    let (r', h') = packet_stays m noise tail b r s clean h long in
    (
      adjust_read_index (adjust_read_index b n) n,
      decode_loop-noise m noise tail b r s clean h (suc fuel) out
          ∙ decode_loop-noise m (drop n noise) tail (adjust_read_index b n) r' s
              (drop-NoStart n noise clean) h' fuel (out ++ decoded m ∷ [])
          ∙ ap (λ l. decode_loop fuel l (adjust_read_index (adjust_read_index b n) n))
              (append_assoc out (decoded m ∷ []) (decoded m ∷ [])),
    )
