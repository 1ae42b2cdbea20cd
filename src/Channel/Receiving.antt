-- ===== src/Channel/Receiving.antt =====
-- src/net/tcp/tcp_connection.cc, `on_read` and `excute` of a client, where the callbacks of the
-- connection are the responses' lambdas of a call.
use tiny_rpc.Base.{ℕ, List, [], ◌∷◌, Option, none, some, Outcome, ok, ◌>>=◌, if◌then◌else◌, lookup}
use tiny_rpc.Buffer.{TcpBuffer}
use tiny_rpc.Coder.Protocol.{ProtobufProtocol}
use tiny_rpc.Coder.Decode.{decode}
use tiny_rpc.Rpc.Protobuf.{Protobuf}
use tiny_rpc.Tcp.Socket.{ReadResult, read_loop}
use tiny_rpc.Tcp.Connection.{TcpConnection, clear, is_connected}
use tiny_rpc.Channel.{Call, with_client, on_response}

abbrev pub with_connection : {Message : Type 0} → Call Message → TcpConnection → Call Message
with_connection call connection =
    with_client call (record call.channel.m_client { m_connection = connection })

abbrev pub with_in_buffer : {Message : Type 0} → Call Message → TcpBuffer → Call Message
with_in_buffer call b =
    with_connection call (record call.channel.m_client.m_connection { m_in_buffer = b })

module _ (protobuf : Protobuf) where
  open protobuf use {Message}

  -- What the connection has for the id of a message.
  unfoldable pub respond : Option ℕ → Call Message → ProtobufProtocol → Outcome (Call Message)
  respond none call m = ok call
  respond (some done) call m = on_response protobuf call m

  -- The loop of `excute`.
  unfoldable pub run_responses : Call Message → List ProtobufProtocol → Outcome (Call Message)
  unfolding respond
  run_responses call [] = ok call
  run_responses call (m ∷ result) = do
    call' ← respond (lookup m.m_msg_id call.channel.m_client.m_connection.m_read_dones) call m
    run_responses call' result

  unfoldable pub excute_call : Call Message → Outcome (Call Message)
  unfolding run_responses
  excute_call call = do
    (result, b) ← decode [] call.channel.m_client.m_connection.m_in_buffer
    run_responses (with_in_buffer call b) result

  module _ (thread : ℕ) where
    -- `on_read` behind its guard.
    unfoldable pub read_connected_call : Call Message → List ReadResult → Outcome (Call Message)
    unfolding excute_call
    read_connected_call call rs = do
      (is_close, b) ← read_loop call.channel.m_client.m_connection.m_in_buffer rs
      let call' = with_in_buffer call b in
          if is_close
          then ok (with_connection call' (clear thread call'.channel.m_client.m_connection))
          else excute_call call'

    unfoldable pub on_read_call : Call Message → List ReadResult → Outcome (Call Message)
    unfolding read_connected_call
    on_read_call call rs =
        if is_connected call.channel.m_client.m_connection.m_state
        then read_connected_call call rs
        else ok call
