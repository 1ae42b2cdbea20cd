-- ===== src/Coder/Append.antt =====
-- `encode`: the packets of the messages, one behind the other, are appended to the buffer.
use tiny_rpc.Base.{
  ℕ, ◌+◌, ◌*◌, ◌/◌, ◌%◌, ◌^◌, ◌≤◌, ◌<◌, ◌≡◌, refl, sym, ap, ◌∙◌, List, [], ◌∷◌, ◌++◌, map, arith,
  length, length-append, append-nil, append_assoc, ne→==_false,
}
use tiny_rpc.Buffer.{TcpBuffer, grown, make_room, write_to_buffer}
use tiny_rpc.Buffer.Invariant.{IsValid, write_index-resize_buffer, write_to_buffer-IsValid}
use tiny_rpc.Buffer.Contents.{contents, contents-write_to_buffer}
use tiny_rpc.Coder.Protocol.{ProtobufProtocol, net_bytes, s_end}
use tiny_rpc.Coder.Encode.{with_msg_id, packet_len, packet, with_lengths, encode_protobuf, encode}

-- The length field of a packet is its length.
pub length-packet : (m : ProtobufProtocol) → length (packet m) ≡ packet_len m
length-packet m =
    let sum = net_bytes 1 ++ s_end ∷ [] in
    let payload = m.m_pb_data ++ sum in
    let info = m.m_err_info ++ payload in
    let code = net_bytes m.m_err_code ++ (net_bytes (length m.m_err_info) ++ info) in
    omega (
      arith,
      length-append m.m_msg_id (net_bytes (length m.m_method_name) ++ (m.m_method_name ++ code)),
      length-append m.m_method_name code,
      length-append m.m_err_info payload,
      length-append m.m_pb_data sum,
    )

-- The bytes of a sequence of messages on the wire.
abbrev pub packets : List ProtobufProtocol → List ℕ
packets [] = []
packets (m ∷ ms) = packet (with_msg_id m) ++ packets ms

-- What `encode` makes of the messages themselves.
abbrev pub sent : ProtobufProtocol → ProtobufProtocol
sent m = with_lengths (with_msg_id m)

write_index-make_room :
    (b : TcpBuffer) (size : ℕ) → (make_room b size).m_write_index ≤ b.m_write_index
unfolding make_room
write_index-make_room b size =
    ground (arith, write_index-resize_buffer b (grown (b.m_write_index + size)))

pub write_index-write_to_buffer :
    (b : TcpBuffer) (bytes : List ℕ)
    → (write_to_buffer b bytes).m_write_index ≤ b.m_write_index + length bytes
unfolding write_to_buffer
write_index-write_to_buffer b bytes = omega (arith, write_index-make_room b (length bytes))

-- One message: its packet is written, since its length is not 0.
pub encode-cons :
    (m : ProtobufProtocol) (ms : List ProtobufProtocol) (b : TcpBuffer)
    → packet_len (with_msg_id m) < 2 ^ 32
    → encode (m ∷ ms) b ≡ (
        let (ms', b') = encode ms (write_to_buffer b (packet (with_msg_id m))) in
        (sent m ∷ ms', b'))
unfolding encode encode_protobuf
encode-cons m ms b h = rw (ne→==_false (packet_len (with_msg_id m) % 2 ^ 32) 0 (omega arith))

-- encode on a valid buffer appends the packets of the messages, in order, to its contents,
-- leaves the messages with their id and length fields set, and keeps the buffer valid, if the
-- bytes that are there and the packets stay below 2^31 * 2/3.
pub encode_lem :
    (ms : List ProtobufProtocol) {b : TcpBuffer}
    → IsValid b
    → 3 * (b.m_write_index + length (packets ms)) / 2 < 2 ^ 31
    → let (ms', b') = encode ms b in
      (contents b' ≡ contents b ++ packets ms) × (ms' ≡ map sent ms) × IsValid b'
encode_lem [] {b} v h = unfold encode in (sym (append-nil (contents b)), refl, v)
encode_lem (m ∷ ms) {b} v h =
    let p = packet (with_msg_id m) in
    let n = length-append p (packets ms) in
    let e = length-packet (with_msg_id m) in
    let b' = write_to_buffer b p in
    let v' = write_to_buffer-IsValid p v (omega (arith, n)) in
    let (c, s, v'') = encode_lem ms v' (omega (arith, n, write_index-write_to_buffer b p)) in
    rw (encode-cons m ms b (omega (arith, n, e))) (
      c
          ∙ ap (λ xs. xs ++ packets ms) (contents-write_to_buffer p v (omega (arith, n)))
          ∙ append_assoc (contents b) p (packets ms),
      ap (◌∷◌ (sent m)) s,
      v'',
    )
