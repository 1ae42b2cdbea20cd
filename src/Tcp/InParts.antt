-- ===== src/Tcp/InParts.antt =====
-- The reads of a connection and `decode`, where a packet has not arrived as a whole.
use tiny_rpc.Base.{
  ℕ, zero, suc, ◌+◌, ◌-◌, ◌<◌, ◌*◌, ◌^◌, ◌≡◌, refl, sym, ap, ◌∙◌, List, [], ◌∷◌, ◌++◌, map, All,
  arith, none, ok, false, length, drop, append-nil, lt→ltb, lt→leb_false, le→leb,
}
use tiny_rpc.Buffer.{TcpBuffer, can_read_bytes_num, can_write_bytes_num}
use tiny_rpc.Buffer.Invariant.{length-kept}
use tiny_rpc.Buffer.Contents.{contents}
use tiny_rpc.Coder.Protocol.{ProtobufProtocol, net_bytes, s_start}
use tiny_rpc.Coder.Decode.{check_start, check_end, end_of, find_packet, decode, decode_loop}
use tiny_rpc.Coder.Wire.{advance, byte_at_lem, get_int32_at}
use tiny_rpc.Coder.Append.{packets}
use tiny_rpc.Coder.Packet.{IsSendable}
use tiny_rpc.Tcp.Socket.{ReadResult, read_bytes, read_loop, room_to_read}
use tiny_rpc.Tcp.Reading.{read_loop_lem}
use tiny_rpc.Coder.RoundTrip.{IsReady, NoStart, decoded, window, find_packet-none, decode-packets}

-- The beginning of a packet of `len` bytes: its start byte, its length and a part of what follows.
abbrev pub beginning : ℕ → List ℕ → List ℕ
beginning len body = s_start ∷ (net_bytes len ++ body)

module _ (len : ℕ) (body : List ℕ) (b : TcpBuffer) (r : IsReady b)
    (h : contents b ≡ beginning len body) (incomplete : 5 + length body < len)
    (small : b.m_read_index + len < 2 ^ 31) where
  abbrev behind : List ℕ
  behind = drop (can_read_bytes_num b) (drop b.m_read_index b.m_buffer)

  there : drop b.m_read_index b.m_buffer ≡ s_start ∷ (net_bytes len ++ (body ++ behind))
  there = window b ∙ ap (λ xs. xs ++ behind) h

  size : can_read_bytes_num b ≡ 5 + length body
  size = omega (arith, ap length h, length-kept r.valid (can_read_bytes_num b) (omega arith))

  start_waits : check_start b.m_buffer b.m_write_index b.m_read_index ≡ ok none
  unfolding check_start check_end
  start_waits =
      let i = b.m_read_index in
      let e : end_of i len ≡ i + len - 1 = omega arith in
      rw (
        byte_at_lem b.m_buffer i s_start there,
        lt→ltb (i + 1) b.m_write_index (omega (arith, size)),
        get_int32_at b.m_buffer (i + 1) len (omega arith)
            (advance b.m_buffer i (s_start ∷ []) there),
        e,
        lt→leb_false (2 ^ 31) (i + len - 1) (omega arith),
        le→leb b.m_write_index (i + len - 1) (omega (arith, size)),
      )

  find_waits :
      (n : ℕ)
      → n ≡ 5 + length body
      → NoStart (net_bytes len ++ body)
      → find_packet b.m_buffer b.m_write_index n b.m_read_index ≡ ok none
  unfolding find_packet
  find_waits zero e clean = absurd (omega arith)
  find_waits (suc n) e clean = rw start_waits (
      find_packet-none b.m_buffer b.m_write_index n (b.m_read_index + 1) (net_bytes len ++ body)
        behind (advance b.m_buffer b.m_read_index (s_start ∷ []) there) (omega arith) clean)

  loop_waits :
      (fuel : ℕ) (out : List ProtobufProtocol)
      → 0 < fuel
      → NoStart (net_bytes len ++ body)
      → decode_loop fuel out b ≡ ok (out, b)
  unfolding decode_loop
  loop_waits zero out f clean = absurd (omega arith)
  loop_waits (suc fuel) out f clean = rw (find_waits (can_read_bytes_num b) size clean) refl

  decode_waits :
      (out : List ProtobufProtocol) → NoStart (net_bytes len ++ body) → decode out b ≡ ok (out, b)
  unfolding decode
  decode_waits out clean = loop_waits (can_read_bytes_num b + 1) out (omega arith) clean

-- decode on a ready buffer that holds the beginning of a packet, its start byte, its length and
-- a part of the rest, pushes nothing and leaves the buffer as it is; when a later read brings
-- what completes sendable messages, the loop of on_read and decode return, decode pushes
-- exactly these messages, and nothing is left. Behind its first byte the beginning has no start
-- byte, the read does not fill the buffer, and the sizes stay below the stated bounds.
pub decode_in_parts :
    (ms : List ProtobufProtocol) (len : ℕ) (body bytes : List ℕ) (rs : List ReadResult)
    (b : TcpBuffer)
    → IsReady b
    → contents b ≡ beginning len body
    → 5 + length body < len
    → b.m_read_index + len < 2 ^ 31
    → NoStart (net_bytes len ++ body)
    → All IsSendable ms
    → beginning len body ++ bytes ≡ packets ms
    → 2 * length b.m_buffer < 2 ^ 31
    → 0 < length bytes
    → length bytes < can_write_bytes_num (room_to_read b)
    → (decode [] b ≡ ok ([], b))
      × ((b' b'' : TcpBuffer) × (read_loop b (read_bytes bytes ∷ rs) ≡ ok (false, b'))
          × (decode [] b' ≡ ok (map decoded ms, b''))
          × (contents b'' ≡ []))
decode_in_parts ms len body bytes rs b r h incomplete small clean s whole room some_bytes short =
    let (b', l, k, r') = read_loop_lem bytes rs r.valid room some_bytes short in
    let all : contents b' ≡ packets ms ++ [] =
      k ∙ ap (λ xs. xs ++ bytes) h ∙ whole ∙ sym (append-nil (packets ms)) in
    let (b'', d, e, _) = decode-packets ms [] b' [] r' s tt all in
    (decode_waits len body b r h incomplete small [] clean, (b', b'', l, d, e))
