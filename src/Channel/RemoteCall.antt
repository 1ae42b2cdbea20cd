-- ===== src/Channel/RemoteCall.antt =====
-- A call from end to end: the client's request, the server's answer, and the response.
use tiny_rpc.Base.{
  ℕ, ◌+◌, ◌*◌, ◌/◌, ◌^◌, ◌<◌, ◌≡◌, ◌≢◌, refl, sym, ap, ◌∙◌, List, [], ◌∷◌, ◌++◌, append-nil, map,
  All, false, some, ok, ◌>>=◌, arith, length, lookup, if◌then◌else◌,
}
use tiny_rpc.Buffer.{TcpBuffer, can_write_bytes_num}
use tiny_rpc.Buffer.Invariant.{IsValid}
use tiny_rpc.Buffer.Contents.{contents}
use tiny_rpc.Coder.Protocol.{ProtobufProtocol, new_protocol}
use tiny_rpc.Coder.Append.{packets}
use tiny_rpc.Coder.Encode.{packet_len, with_msg_id}
use tiny_rpc.Coder.Packet.{IsSendable, with_msg_id-IsSendable}
use tiny_rpc.Coder.RoundTrip.{decoded, decode-packets}
use tiny_rpc.Rpc.Protobuf.{Protobuf}
use tiny_rpc.Rpc.Dispatcher.{ServiceMap}
use tiny_rpc.Rpc.Dispatch.{Served, dispatcher-Served}
use tiny_rpc.Tcp.Socket.{ReadResult, read_bytes, room_to_read}
use tiny_rpc.Tcp.Connection.{TcpConnection, connected, by_server, on_read, is_connected, replies}
use tiny_rpc.Tcp.Reading.{read_loop_lem}
use tiny_rpc.Tcp.Answering.{answers, on_read-answers}
use tiny_rpc.Channel.{Call}
use tiny_rpc.Channel.Spent.{IsSpent, with_client-IsSpent}
use tiny_rpc.Channel.Response.{IsAnswered, answer_completes}
use tiny_rpc.Channel.Receiving.{
  on_read_call, read_connected_call, excute_call, run_responses, respond, with_in_buffer,
}

-- The answer to a request that is served.
abbrev pub answer_to : ProtobufProtocol → List ℕ → ProtobufProtocol
answer_to request pb_data = record new_protocol {
  m_msg_id = request.m_msg_id;
  m_method_name = request.m_method_name;
  m_pb_data = pb_data;
}

decoded-fields :
    (m : ProtobufProtocol)
    → ((decoded m).m_pb_data ≡ m.m_pb_data) × ((decoded m).m_err_code ≡ m.m_err_code)
decoded-fields m = (ground arith, ground arith)

decoded-m_msg_id :
    (m : ProtobufProtocol) → length m.m_msg_id ≢ 0 → (decoded m).m_msg_id ≡ m.m_msg_id
decoded-m_msg_id m n = ground (arith, n)

answer_to-IsSendable :
    (m : ProtobufProtocol) (pb_data : List ℕ)
    → IsSendable m
    → packet_len (with_msg_id (answer_to (decoded m) pb_data)) < 2 ^ 31
    → IsSendable (answer_to (decoded m) pb_data)
answer_to-IsSendable m pb_data s small =
    let s' = with_msg_id-IsSendable s in
    record {
      id_clean = s'.id_clean;
      id_short = s'.id_short;
      name_clean = s'.name_clean;
      name_short = s'.name_short;
      info_clean = tt;
      info_short = omega arith;
      code_small = omega arith;
      data_small = small;
    }

module _ (protobuf : Protobuf) where
  open protobuf use {Message, parse_from_string}

  -- One read that completes messages hands them to the callbacks of the call.
  on_read_call-responses :
      (thread : ℕ) (call : Call Message) (bytes : List ℕ) (rs : List ReadResult)
      (ms : List ProtobufProtocol)
      → let connection = call.channel.m_client.m_connection in
        connection.m_state ≡ connected
        → IsValid connection.m_in_buffer
        → contents connection.m_in_buffer ≡ []
        → 2 * length connection.m_in_buffer.m_buffer < 2 ^ 31
        → 0 < length bytes
        → length bytes < can_write_bytes_num (room_to_read connection.m_in_buffer)
        → bytes ≡ packets ms
        → All IsSendable ms
        → (b : TcpBuffer) × (on_read_call protobuf thread call (read_bytes bytes ∷ rs)
            ≡ run_responses protobuf (with_in_buffer call b) (map decoded ms))
  unfolding on_read_call read_connected_call excute_call
  on_read_call-responses thread call bytes rs ms st v e small some_bytes short p s =
      let (b, l, k, r) = read_loop_lem bytes rs v small some_bytes short in
      let whole : contents b ≡ packets ms ++ [] =
        k ∙ ap (λ xs. xs ++ bytes) e ∙ p ∙ sym (append-nil (packets ms)) in
      let (b', d, _, _) = decode-packets ms [] b [] r s tt whole in
      (
        b',
        ap
              (λ state.
                if is_connected state
                then read_connected_call protobuf thread call (read_bytes bytes ∷ rs)
                else ok call)
              st
            ∙ rw (l, d) refl,
      )

  -- A client that waits for the answer to its request, on a connection with nothing unread.
  pub record IsWaiting (closure : ℕ) (response : Message) (call : Call Message) : Type 0 where
    pub spent : IsSpent call
    pub kept : call.is_reset ≡ false
    pub not_cancelled : call.my_controller.m_is_cancled ≡ false
    pub closes : call.channel.m_closure ≡ some closure
    pub fills : call.channel.m_response ≡ some response
    pub state : call.channel.m_client.m_connection.m_state ≡ connected
    pub valid : IsValid call.channel.m_client.m_connection.m_in_buffer
    pub nothing : contents call.channel.m_client.m_connection.m_in_buffer ≡ []
    pub small : 2 * length call.channel.m_client.m_connection.m_in_buffer.m_buffer < 2 ^ 31

  responds :
      (call : Call Message) (m : ProtobufProtocol) (b : TcpBuffer) {closure done : ℕ}
      {response rsp : Message}
      → IsWaiting closure response call
      → length m.m_msg_id ≢ 0
      → lookup m.m_msg_id call.channel.m_client.m_connection.m_read_dones ≡ some done
      → m.m_err_code ≡ 0
      → parse_from_string response m.m_pb_data ≡ some rsp
      → (call' : Call Message) × (run_responses protobuf (with_in_buffer call b) (decoded m ∷ [])
          ≡ ok call')
        × IsAnswered protobuf call.runs closure rsp call'
  unfolding run_responses respond
  responds call m b {done = done} {response = response} w n l z p =
      let waiting = with_in_buffer call b in
      let (same_data, code) = decoded-fields m in
      let s =
        with_client-IsSpent call
          (record call.channel.m_client {
            m_connection = record call.channel.m_client.m_connection { m_in_buffer = b };
          })
          refl w.spent in
      let (call', e, a) =
        answer_completes protobuf waiting (decoded m) s w.kept w.not_cancelled w.closes w.fills
          (ap (parse_from_string response) same_data ∙ p) (code ∙ z) in
      let found =
        ap (λ id. lookup id call.channel.m_client.m_connection.m_read_dones) (decoded-m_msg_id m n)
        ∙ l in
      (
        call',
        ap (λ o. respond protobuf o waiting (decoded m) >>= λ c. ok c) found
            ∙ ap (λ o. o >>= λ c. ok c) e,
        a,
      )

  -- A connected connection of a server, with nothing unread and nothing unsent, and room for `bytes`.
  pub record IsIdle (bytes : List ℕ) (c : TcpConnection) : Type 0 where
    pub state : c.m_state ≡ connected
    pub type : c.m_connection_type ≡ by_server
    pub valid_in : IsValid c.m_in_buffer
    pub valid_out : IsValid c.m_out_buffer
    pub unread : contents c.m_in_buffer ≡ []
    pub unsent : contents c.m_out_buffer ≡ []
    pub small : 2 * length c.m_in_buffer.m_buffer < 2 ^ 31
    pub room : length bytes < can_write_bytes_num (room_to_read c.m_in_buffer)

  module _ (thread : ℕ) (exec : ℕ → ProtobufProtocol → TcpConnection → TcpConnection)
      (services : ServiceMap protobuf) where
    answers-Served :
        (c : TcpConnection) (m : ProtobufProtocol) (pb_data : List ℕ)
        → Served protobuf services c.addrs (decoded m) pb_data
        → answers thread exec protobuf services c.addrs (m ∷ [])
          ≡ answer_to (decoded m) pb_data ∷ []
    unfolding replies
    answers-Served c m pb_data s =
        ap (λ r. r ∷ [])
          (dispatcher-Served protobuf services c.addrs (decoded m) new_protocol pb_data s)

    -- A remote call completes. The bytes of the request of a waiting call reach an idle
    -- connection of a server in one read, the server can serve the request, and the bytes that
    -- it then has to send reach the connection of the client in one read: both reads return,
    -- the closure of the call runs once, and its response is what the serialized result of the
    -- method parses to. The request is sendable with a message id that is not empty and that
    -- the client listens for, neither read fills its buffer, and the sizes stay below the
    -- stated bounds.
    pub remote_call_completes :
        (client_thread : ℕ) (c : TcpConnection) (call : Call Message) (pb_data : List ℕ)
        (rs rs' : List ReadResult) {closure done : ℕ} {response rsp : Message}
        → let m = call.req_protocol in
          let reply = packets (answer_to (decoded m) pb_data ∷ []) in
          let connection = call.channel.m_client.m_connection in
          IsIdle (packets (m ∷ [])) c
          → IsSendable m
          → length m.m_msg_id ≢ 0
          → Served protobuf services c.addrs (decoded m) pb_data
          → IsWaiting closure response call
          → lookup m.m_msg_id connection.m_read_dones ≡ some done
          → parse_from_string response pb_data ≡ some rsp
          → packet_len (with_msg_id (answer_to (decoded m) pb_data)) < 2 ^ 31
          → length reply < can_write_bytes_num (room_to_read connection.m_in_buffer)
          → 3 * (c.m_out_buffer.m_write_index + length reply) / 2 < 2 ^ 31
          → (c' : TcpConnection) × (call' : Call Message) × (on_read thread exec protobuf services c
                (read_bytes (packets (m ∷ [])) ∷ rs)
              ≡ ok c')
            × (on_read_call protobuf client_thread call
                  (read_bytes (contents c'.m_out_buffer) ∷ rs')
                ≡ ok call')
            × IsAnswered protobuf call.runs closure rsp call'
    remote_call_completes client_thread c call pb_data rs rs' i s n served w l p small room bound =
        let m = call.req_protocol in
        let a = answer_to (decoded m) pb_data in
        let connection = call.channel.m_client.m_connection in
        let replied = answers-Served c m pb_data served in
        let a_id : a.m_msg_id ≡ m.m_msg_id = decoded-m_msg_id m n in
        let (c', x, out, _, _, _) =
          on_read-answers thread exec protobuf services c (packets (m ∷ [])) rs (m ∷ []) [] i.state
            i.type i.valid_in i.valid_out i.small (omega arith) i.room
            (ap (λ xs. xs ++ packets (m ∷ [])) i.unread ∙ sym (append-nil (packets (m ∷ []))))
            (s, tt) tt (rw replied bound) in
        let bytes : contents c'.m_out_buffer ≡ packets (a ∷ []) =
          out
          ∙ ap (λ xs. xs ++ packets (answers thread exec protobuf services c.addrs (m ∷ [])))
              i.unsent
          ∙ ap packets replied in
        let (b, y) =
          on_read_call-responses client_thread call (contents c'.m_out_buffer) rs' (a ∷ []) w.state
            w.valid w.nothing w.small (rw bytes (omega arith)) (rw bytes room) bytes
            (answer_to-IsSendable m pb_data s small, tt) in
        let (call', z, answered) =
          responds call a b w (rw a_id n) (ap (λ id. lookup id connection.m_read_dones) a_id ∙ l)
            refl p in
        (c', call', x, y ∙ z, answered)
