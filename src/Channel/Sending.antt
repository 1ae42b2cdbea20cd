-- ===== src/Channel/Sending.antt =====
-- src/net/tcp/tcp_connection.cc, `on_write` of a client, where the callbacks of the messages are the
-- lambda that `write_message` is given by a call. That lambda pushes no message.
use tiny_rpc.Base.{
  ℕ, ◌+◌, ◌*◌, ◌/◌, ◌^◌, ◌≤◌, ◌<◌, ◌≡◌, ap, ◌∙◌, List, [], ◌∷◌, ◌++◌, true, Outcome, ok, ◌>>=◌,
  arith, length, length-append, if◌then◌else◌,
}
use tiny_rpc.Buffer.{TcpBuffer, can_read_bytes_num}
use tiny_rpc.Buffer.Invariant.{IsValid, length-kept}
use tiny_rpc.Buffer.Contents.{contents}
use tiny_rpc.Coder.Protocol.{ProtobufProtocol}
use tiny_rpc.Coder.Encode.{encode, encode_protobuf, packet, with_msg_id}
use tiny_rpc.Coder.Append.{packets, encode_lem, length-packet}
use tiny_rpc.Tcp.Socket.{WriteResult, wrote, write_loop}
use tiny_rpc.Tcp.Connection.{
  TcpConnection, by_client, is_connected, encode_messages, with_messages, stop_writing,
  push_read_message, listen_read,
}
use tiny_rpc.Tcp.Client.{read_message}
use tiny_rpc.Tcp.Writing.{write_loop_lem}
use tiny_rpc.Reactor.FdEvent.{cancel, listen}
use tiny_rpc.Channel.{Call, on_sent}
use tiny_rpc.Channel.Receiving.{with_connection}

-- A connection that has written the buffer `b`, and has no message in its queue.
abbrev pub writes : ℕ → TcpConnection → TcpBuffer → TcpConnection
writes thread c b =
    stop_writing thread true
      (record c { m_out_buffer = b; m_write_dones = []; written = c.written ++ contents b })

module _ {Message : Type 0} (thread : ℕ) where
  -- The last loop of `on_write`.
  unfoldable pub run_sents : List (ProtobufProtocol × ℕ) → Call Message → Call Message
  run_sents [] call = call
  run_sents ((m, done) ∷ dones) call = run_sents dones (on_sent thread call)

  -- The end of `on_write`, with what `write` has taken.
  unfoldable pub finish_write : Call Message → TcpConnection → Call Message
  unfolding run_sents
  finish_write call c =
      let call' = run_sents c.m_write_dones (with_connection call c) in
      with_connection call' (record call'.channel.m_client.m_connection { m_write_dones = [] })

  -- `on_write` behind its guard.
  unfoldable pub write_connected_call : Call Message → List WriteResult → Outcome (Call Message)
  unfolding encode_messages stop_writing finish_write
  write_connected_call call rs =
      let c = encode_messages by_client call.channel.m_client.m_connection in
      do
        (is_write_all, written) ← write_loop c.m_out_buffer c.written rs
        ok (finish_write call (stop_writing thread is_write_all (record c { written = written })))

  unfoldable pub on_write_call : Call Message → List WriteResult → Outcome (Call Message)
  unfolding write_connected_call
  on_write_call call rs =
      if is_connected call.channel.m_client.m_connection.m_state
      then write_connected_call call rs
      else ok call

  -- One message in the queue is written with what the buffer holds.
  pub write_connected_call_lem :
      (call : Call Message) (m : ProtobufProtocol) (done n : ℕ) (rs : List WriteResult)
      → let c = call.channel.m_client.m_connection in
        let b = (encode (m ∷ []) c.m_out_buffer).1 in
        c.m_write_dones ≡ (m, done) ∷ []
        → IsValid c.m_out_buffer
        → 3 * (c.m_out_buffer.m_write_index + length (packets (m ∷ []))) / 2 < 2 ^ 31
        → can_read_bytes_num b ≤ n
        → (write_connected_call call (wrote n ∷ rs)
            ≡ ok (on_sent thread (with_connection call (writes thread c b))))
          × (contents b ≡ contents c.m_out_buffer ++ packets (m ∷ []))
  unfolding write_connected_call encode_messages finish_write run_sents stop_writing on_sent encode
      encode_protobuf read_message listen_read push_read_message cancel listen
  write_connected_call_lem call m done n rs e v small all =
      let c = call.channel.m_client.m_connection in
      let b = (encode (m ∷ []) c.m_out_buffer).1 in
      let (k, _, v') = encode_lem (m ∷ []) v small in
      let some_bytes : 0 < can_read_bytes_num b = omega (
        arith,
        ap length k,
        length-kept v' (can_read_bytes_num b) (omega arith),
        length-append (contents c.m_out_buffer) (packets (m ∷ [])),
        length-append (packet (with_msg_id m)) [],
        length-packet (with_msg_id m),
      ) in
      (
        ap
              (λ dones.
                write_connected_call (with_connection call (record c { m_write_dones = dones }))
                  (wrote n ∷ rs))
              e
            ∙ ap
                (λ o. o >>= λ r. ok (
                  finish_write (with_connection call c) (
                    stop_writing thread r.0 (record c {
                      m_out_buffer = b;
                      m_write_dones =
                          with_messages ((m, done) ∷ []) (encode (m ∷ []) c.m_out_buffer).0;
                      written = r.1;
                    }))))
                (write_loop_lem b [] n rs c.written v' some_bytes tt all),
        k,
      )
