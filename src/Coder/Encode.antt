-- ===== src/Coder/Encode.antt =====
-- src/net/coder/protobuf_coder.cc, `encode` and `encode_protubuf`.
use tiny_rpc.Base.{ℕ, ◌+◌, ◌%◌, ◌^◌, List, [], ◌∷◌, ◌++◌, true, if◌then◌else◌, ◌==◌, length}
use tiny_rpc.Buffer.{TcpBuffer, write_to_buffer}
use tiny_rpc.Coder.Protocol.{ProtobufProtocol, net_bytes, s_start, s_end}

-- "123456789"
abbrev pub default_msg_id : List ℕ
default_msg_id = b'1' ∷ b'2' ∷ b'3' ∷ b'4' ∷ b'5' ∷ b'6' ∷ b'7' ∷ b'8' ∷ b'9' ∷ []

-- The message id is filled in where it is empty.
abbrev pub with_msg_id : ProtobufProtocol → ProtobufProtocol
with_msg_id m = if length m.m_msg_id == 0 then record m { m_msg_id = default_msg_id } else m

abbrev pub packet_len : ProtobufProtocol → ℕ
packet_len m =
    2 + 24 + length m.m_msg_id + length m.m_method_name + length m.m_err_info + length m.m_pb_data

-- The bytes that the `memcpy` calls write one behind the other, and the length fields that are set.
abbrev pub packet : ProtobufProtocol → List ℕ
packet m =
    s_start
    ∷ (net_bytes (packet_len m)
        ++ (net_bytes (length m.m_msg_id)
            ++ (m.m_msg_id
                ++ (net_bytes (length m.m_method_name)
                    ++ (m.m_method_name
                        ++ (net_bytes m.m_err_code
                            ++ (net_bytes (length m.m_err_info)
                                ++ (m.m_err_info
                                    ++ (m.m_pb_data ++ (net_bytes 1 ++ s_end ∷ []))))))))))

abbrev pub with_lengths : ProtobufProtocol → ProtobufProtocol
with_lengths m = record m {
  m_pk_len = packet_len m % 2 ^ 32;
  m_msg_id_len = length m.m_msg_id % 2 ^ 32;
  m_method_name_len = length m.m_method_name % 2 ^ 32;
  m_err_info_len = length m.m_err_info % 2 ^ 32;
  m_parse_success = true;
}

-- The updated message, and the packet with its length `len`.
unfoldable pub encode_protobuf : ProtobufProtocol → ProtobufProtocol × List ℕ × ℕ
encode_protobuf message =
    let m = with_msg_id message in (with_lengths m, packet m, packet_len m % 2 ^ 32)

-- The messages are shared objects: the call leaves their updated versions and the buffer.
unfoldable pub encode : List ProtobufProtocol → TcpBuffer → List ProtobufProtocol × TcpBuffer
encode [] out_buffer = ([], out_buffer)
encode (message ∷ messages) out_buffer =
    let (m, buf, len) = encode_protobuf message in
    let written = if len == 0 then out_buffer else write_to_buffer out_buffer buf in
    let (ms, b) = encode messages written in (m ∷ ms, b)
