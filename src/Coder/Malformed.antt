-- ===== src/Coder/Malformed.antt =====
-- `decode` on lengths that no encoder writes: what a hostile peer can make it do.
use tiny_rpc.Base.{
  ℕ, zero, suc, ◌+◌, ◌/◌, ◌^◌, ◌<◌, ◌≡◌, refl, List, ◌++◌, arith, Option, some, none, ok, err,
  stuck, out_of_bounds, length, drop, lt→ltb, le→leb, lt→leb_false, ◌∙◌,
}
use tiny_rpc.Buffer.{TcpBuffer, can_read_bytes_num, adjust_buffer, adjust_read_index}
use tiny_rpc.Buffer.Indices.{adjust_read_index_moves}
use tiny_rpc.Coder.Protocol.{ProtobufProtocol, net_bytes}
use tiny_rpc.Coder.Decode.{
  Found, copy_c_string, find_packet, parse_packet, found_len, push_parsed, decode_loop,
}
use tiny_rpc.Coder.Wire.{get_int32_at}

-- Parsing a packet whose message id is longer than 100 bytes writes outside the array that
-- takes it.
pub msg_id_overflow :
    (tmp rest : List ℕ) (p : Found) (msg_id_len : ℕ)
    → drop (p.start_index + 5) tmp ≡ net_bytes msg_id_len ++ rest
    → p.start_index + 5 < p.end_index
    → 100 < msg_id_len
    → msg_id_len < 2 ^ 32
    → parse_packet tmp p ≡ err out_of_bounds
unfolding parse_packet copy_c_string
msg_id_overflow tmp rest p n h inside long small =
    let e : p.start_index + 1 + 4 ≡ p.start_index + 5 = omega arith in
    rw
      (
        e,
        lt→leb_false p.end_index (p.start_index + 5) inside,
        get_int32_at tmp (p.start_index + 5) n small h,
      )
      (ground arith)

-- A round that moves nothing repeats for ever.
decode_loop-stuck :
    (b : TcpBuffer) (p : Found) (m : Option ProtobufProtocol)
    → find_packet b.m_buffer b.m_write_index (can_read_bytes_num b) b.m_read_index ≡ ok (some p)
    → parse_packet b.m_buffer p ≡ ok m
    → adjust_read_index b (found_len p) ≡ b
    → (fuel : ℕ) (out : List ProtobufProtocol) → decode_loop fuel out b ≡ stuck
unfolding decode_loop
decode_loop-stuck b p m f q a zero out = refl
decode_loop-stuck b p m f q a (suc fuel) out =
    rw (f, q, a) (decode_loop-stuck b p m f q a fuel (push_parsed out m))

-- Where decode finds a packet of length 0, whose end byte is the byte before its start byte,
-- and the read index is in the first third of the storage, it never returns, whatever the fuel.
pub zero_length-stuck :
    (b : TcpBuffer) (p : Found)
    → length b.m_buffer < 2 ^ 31
    → b.m_read_index < length b.m_buffer / 3
    → find_packet b.m_buffer b.m_write_index (can_read_bytes_num b) b.m_read_index ≡ ok (some p)
    → p.start_index ≡ p.end_index + 1
    → p.start_index < 2 ^ 31
    → (fuel : ℕ) (out : List ProtobufProtocol) → decode_loop fuel out b ≡ stuck
zero_length-stuck b p small front f e lt =
    let none_parsed : parse_packet b.m_buffer p ≡ ok none =
      unfold parse_packet in rw (le→leb p.end_index (p.start_index + 1 + 4) (omega arith)) in
    let len : found_len p ≡ 0 = omega arith in
    let z : b.m_read_index + 0 ≡ b.m_read_index = omega arith in
    let same : adjust_read_index b 0 ≡ b =
      adjust_read_index_moves b 0 small (omega arith)
      ∙ unfold adjust_buffer in rw (z, lt→ltb b.m_read_index (length b.m_buffer / 3) front) in
    decode_loop-stuck b p none f none_parsed (rw len same)
