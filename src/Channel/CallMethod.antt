-- ===== src/Channel/CallMethod.antt =====
-- src/net/rpc/rpc_channel.cc: `CallMethod` and the callback of its `connect`.
use tiny_rpc.Base.{
  ℕ, List, [], false, not, Option, none, some, Outcome, ok, ◌>>=◌, ◌==◌, if◌then◌else◌, length,
  codes,
}
use tiny_rpc.Address.{IPv4NetAddr}
use tiny_rpc.MsgId.{MsgIds, gen_msg_id}
use tiny_rpc.Coder.Protocol.{new_protocol}
use tiny_rpc.Rpc.Controller.{RpcController, set_msg_id}
use tiny_rpc.Rpc.ErrorCode.{error_rpc_channel_not_init, error_failed_serialize}
use tiny_rpc.Rpc.Protobuf.{Protobuf}
use tiny_rpc.Tcp.Client.{ConnectResult, ConnectStep, runs_done, waits, connect, on_connect_event}
use tiny_rpc.Channel.{RpcChannel, Call, fail, start_timer, with_client, on_connected}

-- A call has a message id: the controller's, or one that is made for it.
unfoldable pub name_call :
    Option (List ℕ) → MsgIds → RpcController → Outcome (RpcController × MsgIds)
name_call random ids my_controller =
    if length my_controller.m_msg_id == 0
    then (do (msg_id, ids') ← gen_msg_id random ids; ok (set_msg_id my_controller msg_id, ids'))
    else ok (my_controller, ids)

module _ {Message : Type 0} (thread : ℕ) (strerror : ℕ → List ℕ) where
  -- Where `connect` does not wait, its callback runs at once.
  unfoldable pub connect_begun : ConnectStep → Call Message → Call Message
  unfolding on_connected
  connect_begun runs_done call = on_connected thread call
  connect_begun (waits starts_loop) call = call

  unfoldable pub begin_connect :
      ConnectResult → Option IPv4NetAddr → Call Message → Call Message × ConnectStep
  unfolding connect_begun
  begin_connect result name call =
      let (client, step) = connect thread strerror result name call.channel.m_client in
      (connect_begun step (with_client call client), step)

  -- The event that `connect` waits for.
  unfoldable pub end_connect : ConnectResult → Option IPv4NetAddr → ℕ → Call Message → Call Message
  unfolding on_connected
  end_connect result name socket call =
      on_connected thread (
        with_client call
          (on_connect_event thread strerror result name socket call.channel.m_client))

-- What `CallMethod` has done when it returns: it has refused the call, or it has gone as far as
-- `connect` has.
pub data CallResult (Message : Type 0) : Type 0 where
  refused : Call Message → CallResult Message
  begun : Call Message → ConnectStep → CallResult Message

module _ (protobuf : Protobuf) (thread : ℕ) (strerror : ℕ → List ℕ) where
  open protobuf use {Message, serialize_to_string}

  -- `CallMethod` behind the message id.
  unfoldable pub send_call :
      ℕ → ConnectResult → Option IPv4NetAddr → Message → Call Message → CallResult Message
  unfolding fail start_timer begin_connect
  send_call now result name request call =
      let (serialized, pb_data) = serialize_to_string request in
      let call' = record call { req_protocol = record call.req_protocol { m_pb_data = pb_data } } in
      if not call.channel.m_is_init
      then refused (fail call error_rpc_channel_not_init (codes "RpcChannel not init"))
      else if not serialized
      then refused (fail call' error_failed_serialize (codes "failed to serizlize"))
      else (let (call'', step) =
            begin_connect thread strerror result name (start_timer now call') in
          begun call'' step)

  -- `none` is a controller of another type. `timer_event` is the number of the event to be made.
  unfoldable pub call_method :
      ℕ
      → Option (List ℕ)
      → ConnectResult
      → Option IPv4NetAddr
      → ℕ
      → RpcChannel Message
      → MsgIds
      → List ℕ
      → Option RpcController
      → Message
      → Outcome (Option (CallResult Message) × MsgIds)
  unfolding name_call send_call
  call_method now random result name timer_event channel ids full_name none request = ok (none, ids)
  call_method now random result name timer_event channel ids full_name (some controller) request =
      do
        (my_controller, ids') ← name_call random ids controller
        let call : Call Message = record {
          channel = channel;
          my_controller = my_controller;
          req_protocol = record new_protocol {
            m_msg_id = my_controller.m_msg_id;
            m_method_name = full_name;
          };
          timer_event = timer_event;
          is_reset = false;
          runs = [];
        } in
            ok (some (send_call now result name request call), ids')
