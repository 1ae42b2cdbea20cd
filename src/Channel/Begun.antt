-- ===== src/Channel/Begun.antt =====
-- A call that `CallMethod` sends where `connect` succeeds at once, up to the callback of `connect`.
use tiny_rpc.Base.{
  ℕ, ◌*◌, ◌^◌, ◌<◌, ◌≡◌, refl, sym, ap, ◌∙◌, List, [], Bool, true, false, not, Option, none, some,
  length, lookup, if◌then◌else◌, codes,
}
use mathlib.Core.Path.{subst}
use tiny_rpc.Address.{IPv4NetAddr}
use tiny_rpc.Buffer.Invariant.{IsValid}
use tiny_rpc.Buffer.Contents.{contents}
use tiny_rpc.Rpc.ErrorCode.{error_rpc_channel_not_init, error_failed_serialize}
use tiny_rpc.Rpc.Protobuf.{Protobuf}
use tiny_rpc.Tcp.Connection.{connected, set_state}
use tiny_rpc.Tcp.Client.{
  TcpClient, runs_done, connects, connect, connect_done, init_local_addr, add_timer_event,
}
use tiny_rpc.Channel.{Call, with_client, start_timer, on_connected, fail}
use tiny_rpc.Channel.CallMethod.{refused, begun, begin_connect, connect_begun, send_call}
use tiny_rpc.Channel.Spent.{with_client-IsSpent}
use tiny_rpc.Channel.Once.{IsNew, start_timer-IsSpent}
use tiny_rpc.Channel.Written.{IsConnected}

-- A call that has not begun, on a client that is not connected yet.
pub record IsFresh {Message : Type 0} (closure : ℕ) (response : Message) (call : Call Message)
    : Type 0 where
  pub new : IsNew call.channel.m_client.m_timer call.timer_event
  pub not_run : call.runs ≡ []
  pub kept : call.is_reset ≡ false
  pub not_cancelled : call.my_controller.m_is_cancled ≡ false
  pub is_init : call.channel.m_is_init ≡ true
  pub closes : call.channel.m_closure ≡ some closure
  pub fills : call.channel.m_response ≡ some response
  pub no_error : call.channel.m_client.m_connect_error_code ≡ 0
  pub nothing_queued : call.channel.m_client.m_connection.m_write_dones ≡ []
  pub valid_in : IsValid call.channel.m_client.m_connection.m_in_buffer
  pub unread : contents call.channel.m_client.m_connection.m_in_buffer ≡ []
  pub small : 2 * length call.channel.m_client.m_connection.m_in_buffer.m_buffer < 2 ^ 31
  pub valid_out : IsValid call.channel.m_client.m_connection.m_out_buffer
  pub unsent : contents call.channel.m_client.m_connection.m_out_buffer ≡ []
  pub unregistered :
      lookup call.req_protocol.m_msg_id call.channel.m_client.m_connection.m_read_dones ≡ none

module _ (protobuf : Protobuf) (thread : ℕ) (strerror : ℕ → List ℕ) where
  open protobuf use {Message, serialize_to_string, parse_from_string}

  -- The request as it is sent.
  abbrev pub requesting : Call Message → List ℕ → Call Message
  requesting call pb_data = record call {
    req_protocol = record call.req_protocol { m_pb_data = pb_data };
  }

  -- The call whose timer is set and whose connection is there.
  abbrev pub connected_call : ℕ → Option IPv4NetAddr → Call Message → Call Message
  connected_call now name call =
      let call' = start_timer now call in
      with_client call' (connect_done name call'.channel.m_client)

  connect_done_lem :
      (name : Option IPv4NetAddr) (c : TcpClient)
      → (local_addr : Option IPv4NetAddr) × (connect_done name c ≡ record c {
        m_connection = set_state c.m_connection connected;
        m_local_addr = local_addr;
      })
  unfolding connect_done init_local_addr
  connect_done_lem none c = (c.m_local_addr, refl)
  connect_done_lem (some addr) c = (some addr, refl)

  -- What `connect` leaves: the request, the out buffer and the closures that have run are those of before.
  pub record Connects (closure : ℕ) (response : Message) (call call' : Call Message) : Type 0 where
    pub ready : IsConnected closure response call'
    pub request : call'.req_protocol ≡ call.req_protocol
    pub out_buffer :
        call'.channel.m_client.m_connection.m_out_buffer
        ≡ call.channel.m_client.m_connection.m_out_buffer
    pub in_buffer :
        call'.channel.m_client.m_connection.m_in_buffer
        ≡ call.channel.m_client.m_connection.m_in_buffer
    pub written :
        call'.channel.m_client.m_connection.written ≡ call.channel.m_client.m_connection.written
    pub runs : call'.runs ≡ call.runs

  pub connected_call-Connects :
      (now : ℕ) (name : Option IPv4NetAddr) (call : Call Message) {closure : ℕ} {response : Message}
      → IsFresh closure response call
      → Connects closure response call (connected_call now name call)
  unfolding set_state start_timer add_timer_event
  connected_call-Connects now name call {closure} {response} f =
      let call' = start_timer now call in
      let client = call'.channel.m_client in
      let (local_addr, e) = connect_done_lem name client in
      let spent = start_timer-IsSpent now call f.new (ap length f.not_run) in
      subst (λ client'. Connects closure response call (with_client call' client')) (sym e)
        (record {
          ready = record {
            spent = with_client-IsSpent call' _ refl spent;
            kept = f.kept;
            not_cancelled = f.not_cancelled;
            closes = f.closes;
            fills = f.fills;
            no_error = f.no_error;
            state = refl;
            nothing_queued = f.nothing_queued;
            valid_in = f.valid_in;
            unread = f.unread;
            small = f.small;
            valid_out = f.valid_out;
            unsent = f.unsent;
            unregistered = f.unregistered;
          };
          request = refl;
          out_buffer = refl;
          in_buffer = refl;
          written = refl;
          runs = refl;
        })

  -- Where `connect` succeeds at once, the callback runs on the call that is connected.
  pub sends :
      (now : ℕ) (name : Option IPv4NetAddr) (request : Message) (pb_data : List ℕ)
      (call : Call Message)
      → serialize_to_string request ≡ (true, pb_data)
      → call.channel.m_is_init ≡ true
      → send_call protobuf thread strerror now connects name request call
        ≡ begun (on_connected thread (connected_call now name (requesting call pb_data))) runs_done
  unfolding send_call begin_connect connect_begun connect
  sends now name request pb_data call e i =
      let sent = λ (d : Call Message).
        (let (call'', step) = begin_connect thread strerror connects name (start_timer now d) in
          begun call'' step) in
      let after = λ (is_init serialized : Bool) (d : Call Message).
        (if not is_init
          then refused (fail call error_rpc_channel_not_init (codes "RpcChannel not init"))
          else if not serialized
          then refused (fail d error_failed_serialize (codes "failed to serizlize"))
          else sent d) in
      ap (λ r. after call.channel.m_is_init r.0 (requesting call r.1)) e
      ∙ ap (λ b. after b true (requesting call pb_data)) i
