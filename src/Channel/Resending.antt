-- ===== src/Channel/Resending.antt =====
-- The requests of a client, one call after another on one connection.
use tiny_rpc.Base.{ℕ, ◌+◌, ◌*◌, ◌/◌, ◌^◌, ◌≤◌, ◌<◌, ◌≡◌, List, [], ◌∷◌, ◌++◌, ok, length}
use tiny_rpc.Buffer.{can_read_bytes_num}
use tiny_rpc.Buffer.Invariant.{IsValid}
use tiny_rpc.Buffer.Contents.{contents}
use tiny_rpc.Coder.Protocol.{ProtobufProtocol}
use tiny_rpc.Coder.Encode.{encode}
use tiny_rpc.Coder.Append.{packets}
use tiny_rpc.Tcp.Socket.{WriteResult, wrote}
use tiny_rpc.Tcp.Connection.{connected}
use tiny_rpc.Channel.{Call, on_connected}
use tiny_rpc.Channel.Sending.{on_write_call}

module _ {Message : Type 0} where
  -- The connection of a call is there, with no message queued, and takes the request whole in one write
  -- of `n` bytes.
  pub record CanWrite (n : ℕ) (call : Call Message) : Type 0 where
    pub no_error : call.channel.m_client.m_connect_error_code ≡ 0
    pub state : call.channel.m_client.m_connection.m_state ≡ connected
    pub nothing_queued : call.channel.m_client.m_connection.m_write_dones ≡ []
    pub valid_out : IsValid call.channel.m_client.m_connection.m_out_buffer
    pub small :
        3
          * (call.channel.m_client.m_connection.m_out_buffer.m_write_index
              + length (packets (call.req_protocol ∷ [])))
          / 2
        < 2 ^ 31
    pub enough :
        can_read_bytes_num
          (encode (call.req_protocol ∷ []) call.channel.m_client.m_connection.m_out_buffer).1
        ≤ n

  -- The connection of a client after it has sent the requests `ms`, one call for each. The connection
  -- of the first call has an empty out buffer, and that of each later call has what the call before
  -- it has left there. All else is any: responses are read in between, or another timer runs.
  pub data Sends (thread : ℕ) : List ProtobufProtocol → Call Message → Type 0 where
    first :
        (n : ℕ) (rs : List WriteResult) (call call' : Call Message)
        → CanWrite n call
        → contents call.channel.m_client.m_connection.m_out_buffer ≡ []
        → on_write_call thread (on_connected thread call) (wrote n ∷ rs) ≡ ok call'
        → Sends thread (call.req_protocol ∷ []) call'
    later :
        {ms : List ProtobufProtocol} {before : Call Message} (n : ℕ) (rs : List WriteResult)
        (call call' : Call Message)
        → Sends thread ms before
        → CanWrite n call
        → call.channel.m_client.m_connection.m_out_buffer
          ≡ before.channel.m_client.m_connection.m_out_buffer
        → on_write_call thread (on_connected thread call) (wrote n ∷ rs) ≡ ok call'
        → Sends thread (ms ++ call.req_protocol ∷ []) call'
