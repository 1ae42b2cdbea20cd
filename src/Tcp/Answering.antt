-- ===== src/Tcp/Answering.antt =====
-- `on_read` and `excute` of a server: from the bytes that arrive to the answers in the out buffer.
use tiny_rpc.Base.{
  ℕ, ◌+◌, ◌*◌, ◌/◌, ◌^◌, ◌<◌, ◌≡◌, refl, ◌∙◌, ap, List, [], ◌∷◌, ◌++◌, map, All, ok, length,
  if◌then◌else◌,
}
use tiny_rpc.Buffer.{can_write_bytes_num}
use tiny_rpc.Buffer.Invariant.{IsValid}
use tiny_rpc.Buffer.Contents.{contents}
use tiny_rpc.Coder.Protocol.{ProtobufProtocol}
use tiny_rpc.Coder.Append.{packets, encode_lem}
use tiny_rpc.Coder.Packet.{IsSendable}
use tiny_rpc.Coder.RoundTrip.{IsReady, NoStart, decoded, decode-packets}
use tiny_rpc.Rpc.Protobuf.{Protobuf}
use tiny_rpc.Rpc.Dispatcher.{Connection, ServiceMap}
use tiny_rpc.Tcp.Connection.{
  TcpConnection, connected, by_server, replies, answer_requests, excute_as, excute, read_connected,
  on_read, is_connected, listen_write,
}
use tiny_rpc.Tcp.Socket.{ReadResult, read_bytes, room_to_read}
use tiny_rpc.Tcp.Reading.{read_loop_lem}

module _ (thread : ℕ) (exec : ℕ → ProtobufProtocol → TcpConnection → TcpConnection)
    (protobuf : Protobuf) (services : ServiceMap protobuf) where
  -- The answers of the dispatcher to the messages that the peer has sent.
  abbrev pub answers : Connection → List ProtobufProtocol → List ProtobufProtocol
  answers addrs ms = replies thread exec protobuf services addrs (map decoded ms)

  answer_requests_lem :
      (c : TcpConnection) (result : List ProtobufProtocol)
      → let rs = replies thread exec protobuf services c.addrs result in
        IsValid c.m_out_buffer
        → 3 * (c.m_out_buffer.m_write_index + length (packets rs)) / 2 < 2 ^ 31
        → let c' = answer_requests thread exec protobuf services c result in
          (contents c'.m_out_buffer ≡ contents c.m_out_buffer ++ packets rs)
          × IsValid c'.m_out_buffer
          × (c'.m_in_buffer ≡ c.m_in_buffer)
  unfolding answer_requests listen_write
  answer_requests_lem c result v h =
      let (p, q, r) = encode_lem (replies thread exec protobuf services c.addrs result) v h in
      (p, r, refl)

  excute_lem :
      (c : TcpConnection) (ms : List ProtobufProtocol) (tail : List ℕ)
      → c.m_connection_type ≡ by_server
      → IsReady c.m_in_buffer
      → IsValid c.m_out_buffer
      → All IsSendable ms
      → NoStart tail
      → contents c.m_in_buffer ≡ packets ms ++ tail
      → 3 * (c.m_out_buffer.m_write_index + length (packets (answers c.addrs ms))) / 2 < 2 ^ 31
      → (c' : TcpConnection) × (excute thread exec protobuf services c ≡ ok c')
        × (contents c'.m_out_buffer ≡ contents c.m_out_buffer ++ packets (answers c.addrs ms))
        × IsValid c'.m_out_buffer
        × (contents c'.m_in_buffer ≡ tail)
        × IsReady c'.m_in_buffer
  unfolding excute excute_as
  excute_lem c ms tail t r v s n e h =
      let (b, d, k, r') = decode-packets ms tail c.m_in_buffer [] r s n e in
      let (p, v', q) = answer_requests_lem (record c { m_in_buffer = b }) (map decoded ms) v h in
      (
        answer_requests thread exec protobuf services (record c { m_in_buffer = b })
            (map decoded ms),
        rw d (
            ap
              (λ type. ok (
                excute_as thread exec protobuf services type (record c { m_in_buffer = b })
                  (map decoded ms)))
              t),
        p,
        v',
        ap contents q ∙ k,
        rw q r',
      )

  -- When one read completes the messages of ms on a connected server connection, on_read
  -- returns, appends the dispatcher's answers to them, in order, to the contents of the out
  -- buffer, and leaves what follows the messages in the in buffer. The messages are sendable,
  -- what follows them holds no start byte, the read does not fill the in buffer, and the sizes
  -- stay below the stated bounds.
  pub on_read-answers :
      (c : TcpConnection) (bytes : List ℕ) (rs : List ReadResult) (ms : List ProtobufProtocol)
      (tail : List ℕ)
      → c.m_state ≡ connected
      → c.m_connection_type ≡ by_server
      → IsValid c.m_in_buffer
      → IsValid c.m_out_buffer
      → 2 * length c.m_in_buffer.m_buffer < 2 ^ 31
      → 0 < length bytes
      → length bytes < can_write_bytes_num (room_to_read c.m_in_buffer)
      → contents c.m_in_buffer ++ bytes ≡ packets ms ++ tail
      → All IsSendable ms
      → NoStart tail
      → 3 * (c.m_out_buffer.m_write_index + length (packets (answers c.addrs ms))) / 2 < 2 ^ 31
      → (c' : TcpConnection) × (on_read thread exec protobuf services c (read_bytes bytes ∷ rs)
          ≡ ok c')
        × (contents c'.m_out_buffer ≡ contents c.m_out_buffer ++ packets (answers c.addrs ms))
        × IsValid c'.m_out_buffer
        × (contents c'.m_in_buffer ≡ tail)
        × IsReady c'.m_in_buffer
  unfolding on_read read_connected
  on_read-answers c bytes rs ms tail st t vi vo small some_bytes short e s n h =
      let rs' = read_bytes bytes ∷ rs in
      let (b, l, k, r) = read_loop_lem bytes rs vi small some_bytes short in
      let (c', x, p, v', k', r') =
        excute_lem (record c { m_in_buffer = b }) ms tail t r vo s n (k ∙ e) h in
      (
        c',
        ap
              (λ st.
                if is_connected st
                then read_connected thread exec protobuf services c rs'
                else ok c)
              st
            ∙ rw (l, x),
        p,
        v',
        k',
        r',
      )
