-- ===== src/Channel/WholeCall.antt =====
-- A call from `CallMethod` to its closure, with both sides of the connection.
use tiny_rpc.Base.{
  ℕ, ◌+◌, ◌*◌, ◌/◌, ◌^◌, ◌≤◌, ◌<◌, ◌≡◌, ◌≢◌, sym, ap, ◌∙◌, List, [], ◌∷◌, ◌++◌, true, Option, some,
  ok, length, lookup,
}
use mathlib.Core.Path.{subst}
use tiny_rpc.Address.{IPv4NetAddr}
use tiny_rpc.Buffer.{can_read_bytes_num, can_write_bytes_num}
use tiny_rpc.Buffer.Contents.{contents}
use tiny_rpc.Coder.Protocol.{ProtobufProtocol}
use tiny_rpc.Coder.Encode.{encode, packet_len, with_msg_id}
use tiny_rpc.Coder.Append.{packets}
use tiny_rpc.Coder.Packet.{IsSendable}
use tiny_rpc.Coder.RoundTrip.{decoded}
use tiny_rpc.Rpc.Protobuf.{Protobuf}
use tiny_rpc.Rpc.Dispatcher.{ServiceMap}
use tiny_rpc.Rpc.Dispatch.{Served}
use tiny_rpc.Tcp.Socket.{ReadResult, read_bytes, room_to_read, WriteResult, wrote}
use tiny_rpc.Tcp.Connection.{TcpConnection, on_read}
use tiny_rpc.Tcp.Client.{runs_done, connects}
use tiny_rpc.Channel.{Call, start_timer, on_connected, response_callback}
use tiny_rpc.Channel.CallMethod.{begun, send_call}
use tiny_rpc.Channel.Response.{IsAnswered}
use tiny_rpc.Channel.Receiving.{on_read_call}
use tiny_rpc.Channel.RemoteCall.{IsIdle, IsWaiting, answer_to, remote_call_completes}
use tiny_rpc.Channel.Sending.{on_write_call}
use tiny_rpc.Channel.Written.{on_write_call-IsSent}
use tiny_rpc.Channel.Begun.{IsFresh, requesting, connected_call, connected_call-Connects, sends}

module _ (protobuf : Protobuf) (thread : ℕ) (strerror : ℕ → List ℕ) (server_thread : ℕ)
    (exec : ℕ → ProtobufProtocol → TcpConnection → TcpConnection)
    (services : ServiceMap protobuf) where
  open protobuf use {Message, serialize_to_string, parse_from_string}

  -- What `remote_call_completes` says of the request `m`.
  abbrev Completes :
      Call Message
      → TcpConnection
      → List ℕ
      → ℕ
      → Message
      → Message
      → List ReadResult
      → List ReadResult
      → ProtobufProtocol
      → Type 0
  Completes call c pb_data closure response rsp rs rs' m =
      let reply = packets (answer_to (decoded m) pb_data ∷ []) in
      IsIdle protobuf (packets (m ∷ [])) c
      → IsSendable m
      → length m.m_msg_id ≢ 0
      → Served protobuf services c.addrs (decoded m) pb_data
      → parse_from_string response pb_data ≡ some rsp
      → packet_len (with_msg_id (answer_to (decoded m) pb_data)) < 2 ^ 31
      → length reply
        < can_write_bytes_num (room_to_read call.channel.m_client.m_connection.m_in_buffer)
      → 3 * (c.m_out_buffer.m_write_index + length reply) / 2 < 2 ^ 31
      → (c' : TcpConnection) × (call' : Call Message) × (on_read server_thread exec protobuf
            services c (read_bytes (packets (m ∷ [])) ∷ rs)
          ≡ ok c')
        × (on_read_call protobuf thread call (read_bytes (contents c'.m_out_buffer) ∷ rs')
            ≡ ok call')
        × IsAnswered protobuf call.runs closure rsp call'

  answered :
      (call : Call Message) (m : ProtobufProtocol) (c : TcpConnection) (pb_data : List ℕ)
      (closure : ℕ) (response rsp : Message) (rs rs' : List ReadResult)
      → call.req_protocol ≡ m
      → IsWaiting protobuf closure response call
      → lookup call.req_protocol.m_msg_id call.channel.m_client.m_connection.m_read_dones
        ≡ some response_callback
      → Completes call c pb_data closure response rsp rs rs' m
  answered call m c pb_data closure response rsp rs rs' e w l =
      subst (Completes call c pb_data closure response rsp rs rs') e
        (λ idle s id served parsed small room bound.
          remote_call_completes protobuf server_thread exec services thread c call pb_data rs rs'
            idle s id served w l parsed small room bound)

  -- A remote call completes, from the last part of CallMethod to its closure. A fresh call
  -- whose request serializes to data is sent where connect succeeds at once: the callback of
  -- connect queues the message, and on_write of the client returns when one write takes all
  -- bytes. These bytes reach an idle connection of a server in one read, the server can serve
  -- the request, and the bytes that it then has to send reach the client in one read: both
  -- reads return, the closure of the call has run once, and its response is what the serialized
  -- result of the method parses to. The request is sendable, its message id is not empty and
  -- not in use, the connection has written nothing before, no read fills its buffer, and the
  -- sizes stay below the stated bounds.
  pub whole_call_completes :
      (now n : ℕ) (name : Option IPv4NetAddr) (request : Message) (req_data pb_data : List ℕ)
      (call : Call Message) (c : TcpConnection) (ws : List WriteResult) (rs rs' : List ReadResult)
      {closure : ℕ} {response rsp : Message}
      → let m = (requesting protobuf thread strerror call req_data).req_protocol in
        let connection = call.channel.m_client.m_connection in
        let reply = packets (answer_to (decoded m) pb_data ∷ []) in
        IsFresh closure response (requesting protobuf thread strerror call req_data)
        → serialize_to_string request ≡ (true, req_data)
        → IsSendable m
        → length m.m_msg_id ≢ 0
        → 3 * (connection.m_out_buffer.m_write_index + length (packets (m ∷ []))) / 2 < 2 ^ 31
        → can_read_bytes_num (encode (m ∷ []) connection.m_out_buffer).1 ≤ n
        → connection.written ≡ []
        → IsIdle protobuf (packets (m ∷ [])) c
        → Served protobuf services c.addrs (decoded m) pb_data
        → packet_len (with_msg_id (answer_to (decoded m) pb_data)) < 2 ^ 31
        → 3 * (c.m_out_buffer.m_write_index + length reply) / 2 < 2 ^ 31
        → length reply < can_write_bytes_num (room_to_read connection.m_in_buffer)
        → parse_from_string response pb_data ≡ some rsp
        → (begun_call : Call Message) × (sent_call : Call Message) × (answered_call : Call Message)
          × (c' : TcpConnection) × (send_call protobuf thread strerror now connects name request
                call
              ≡ begun begun_call runs_done)
          × (on_write_call thread begun_call (wrote n ∷ ws) ≡ ok sent_call)
          × (on_read server_thread exec protobuf services c
                (read_bytes sent_call.channel.m_client.m_connection.written ∷ rs)
              ≡ ok c')
          × (on_read_call protobuf thread sent_call (read_bytes (contents c'.m_out_buffer) ∷ rs')
              ≡ ok answered_call)
          × IsAnswered protobuf [] closure rsp answered_call
  unfolding start_timer
  whole_call_completes now n name request req_data pb_data call c ws rs rs' {closure} {response}
        {rsp} f ser s id out all unwritten idle served small bound room parsed =
      let d = requesting protobuf thread strerror call req_data in
      let m = d.req_protocol in
      let k = connected_call-Connects protobuf thread strerror now name d f in
      let b = connected_call protobuf thread strerror now name d in
      let (sent_call, w, sent) =
        on_write_call-IsSent protobuf thread b n ws k.ready
          (subst (λ o. 3 * (o.m_write_index + length (packets (m ∷ []))) / 2 < 2 ^ 31)
            (sym k.out_buffer) out)
          (subst (λ o. can_read_bytes_num (encode (m ∷ []) o).1 ≤ n) (sym k.out_buffer) all) in
      let taken : sent_call.channel.m_client.m_connection.written ≡ packets (m ∷ []) =
        sent.taken ∙ ap (λ xs. xs ++ packets (m ∷ [])) (k.written ∙ unwritten) in
      let room' : length (packets (answer_to (decoded m) pb_data ∷ []))
          < can_write_bytes_num (room_to_read sent_call.channel.m_client.m_connection.m_in_buffer) =
        subst
          (λ i.
            length (packets (answer_to (decoded m) pb_data ∷ []))
            < can_write_bytes_num (room_to_read i))
          (sym (sent.in_buffer ∙ k.in_buffer)) room in
      let (c', answered_call, x, y, a) =
        answered sent_call m c pb_data closure response rsp rs rs' (sent.request ∙ k.request)
          sent.waiting sent.listens idle s id served parsed small room' bound in
      (
        on_connected thread b,
        sent_call,
        answered_call,
        c',
        sends protobuf thread strerror now name request req_data call ser f.is_init,
        w,
        ap (λ bytes. on_read server_thread exec protobuf services c (read_bytes bytes ∷ rs)) taken
            ∙ x,
        y,
        subst (λ ran. IsAnswered protobuf ran closure rsp answered_call)
            (sent.runs ∙ k.runs ∙ f.not_run) a,
      )
