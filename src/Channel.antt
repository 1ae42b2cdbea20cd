-- ===== src/Channel.antt =====
-- src/net/rpc/rpc_channel.cc and rpc_closure.cc: a call of a remote method, from `CallMethod` to the
-- closure. The objects that a channel only keeps or runs are numbers, null is `none`. What a failed
-- `ParseFromString` leaves in the response is not modelled: the response stays as it was.
pub mod CallMethod
pub mod Ticks
pub mod Spent
pub mod Once
pub mod Timeout
pub mod Response
pub mod Receiving
pub mod RemoteCall
pub mod Sending
pub mod Written
pub mod Begun
pub mod WholeCall
pub mod Resending
use tiny_rpc.Base.{
  ℕ, List, [], ◌∷◌, ◌++◌, Bool, true, false, not, ◌||◌, Option, none, some, Outcome, ok, err,
  null_pointer, ◌>>=◌, ◌==◌, if◌then◌else◌, length, codes, decimal,
}
use tiny_rpc.Address.{IPv4NetAddr}
use tiny_rpc.MsgId.{MsgIds, gen_msg_id}
use tiny_rpc.Coder.Protocol.{ProtobufProtocol, new_protocol}
use tiny_rpc.Rpc.Controller.{RpcController, set_msg_id, set_error, start_cancel}
use tiny_rpc.Rpc.ErrorCode.{
  error_rpc_channel_not_init, error_failed_serialize, error_rpc_call_timeout,
}
use tiny_rpc.Rpc.Protobuf.{Protobuf}
use tiny_rpc.Timer.{TimerEvent, Timer, new_event, update, on_timer}
use tiny_rpc.Tcp.Client.{
  TcpClient, ConnectResult, ConnectStep, runs_done, waits, connect, on_connect_event, write_message,
  read_message, add_timer_event,
}

pub record RpcChannel (Message : Type 0) : Type 0 where
  pub m_controller : Option ℕ
  pub m_request : Option ℕ
  pub m_response : Option Message
  pub m_closure : Option ℕ
  pub m_client : TcpClient
  pub m_timer_event : Option ℕ
  pub m_is_init : Bool

-- A call of `CallMethod`: what its lambdas hold. `timer_event` is the number of the event that it makes,
-- and of the event's lambda. `is_reset` is whether the response's lambda has dropped the channel, and
-- `runs` the closures that have run.
pub record Call (Message : Type 0) : Type 0 where
  pub channel : RpcChannel Message
  pub my_controller : RpcController
  pub req_protocol : ProtobufProtocol
  pub timer_event : ℕ
  pub is_reset : Bool
  pub runs : List ℕ

-- The lambdas that the connection of the client keeps for a call.
abbrev pub sent_callback : ℕ
sent_callback = 0

abbrev pub response_callback : ℕ
response_callback = 1

module _ {Message : Type 0} where
  unfoldable pub init :
      RpcChannel Message → Option ℕ → Option ℕ → Option Message → Option ℕ → RpcChannel Message
  init channel controller req rsp done = if channel.m_is_init then channel else record channel {
    m_controller = controller;
    m_request = req;
    m_response = rsp;
    m_closure = done;
    m_is_init = true;
  }

  unfoldable pub new_channel : TcpClient → RpcChannel Message
  new_channel client = record {
    m_controller = none;
    m_request = none;
    m_response = none;
    m_closure = none;
    m_client = client;
    m_timer_event = none;
    m_is_init = false;
  }

  -- `set_error` of the call's controller.
  unfoldable pub fail : Call Message → ℕ → List ℕ → Call Message
  fail call code info = record call { my_controller = set_error call.my_controller code info }

  -- `channel->get_closure()->Run()` behind its guard.
  unfoldable pub run : Option ℕ → Call Message → Call Message
  run none call = call
  run (some closure) call = record call { runs = call.runs ++ closure ∷ [] }

  unfoldable pub run_closure : Call Message → Call Message
  unfolding run
  run_closure call = run call.channel.m_closure call

  abbrev pub with_client : Call Message → TcpClient → Call Message
  with_client call client = record call { channel = record call.channel { m_client = client } }

  -- The timer of the call's event is made and set.
  unfoldable pub start_timer : ℕ → Call Message → Call Message
  start_timer now call =
      let client = call.channel.m_client in
      let event = new_event now call.my_controller.m_timeout_ms false (some call.timer_event) in
      let client' = record client {
        m_timer = record client.m_timer {
          store = update client.m_timer.store call.timer_event event;
        };
      } in
      record call {
        channel = record call.channel {
          m_timer_event = some call.timer_event;
          m_client = add_timer_event now client' call.timer_event;
        };
      }

  -- The lambda of the event.
  unfoldable pub on_timeout : Call Message → Call Message
  unfolding fail run_closure
  on_timeout call =
      let call' = record call { my_controller = start_cancel call.my_controller } in
      run_closure (
        fail call' error_rpc_call_timeout
          (codes "rpc call timeout" ++ decimal call.my_controller.m_timeout_ms))

  -- The callbacks that `on_timer` runs; those of other calls leave this one alone.
  unfoldable pub run_timeouts : List ℕ → Call Message → Call Message
  unfolding on_timeout
  run_timeouts [] call = call
  run_timeouts (task ∷ tasks) call =
      run_timeouts tasks (if task == call.timer_event then on_timeout call else call)

  unfoldable pub run_timer : ℕ → (ℕ → ℕ) → Call Message → Call Message
  unfolding run_timeouts
  run_timer now later call =
      let client = call.channel.m_client in
      let (timer, tasks) = on_timer now later client.m_timer in
      run_timeouts tasks (with_client call (record client { m_timer = timer }))

  -- `channel->get_timer_event()->set_cancel(true)`.
  unfoldable pub cancel_timer : ℕ → Call Message → Call Message
  cancel_timer i call =
      let client = call.channel.m_client in
      let store = client.m_timer.store in
      with_client call (record client {
        m_timer = record client.m_timer {
          store = update store i (record (store i) { m_is_cancel = true });
        };
      })

  -- The end of the response's lambda: the response is parsed, and the server sent no error.
  unfoldable pub complete : Call Message → Call Message
  unfolding run_closure
  complete call =
      let call' = if call.my_controller.m_is_cancled then call else run_closure call in
      record call' { is_reset = true }

  -- After `ParseFromString`, with the response that it makes.
  unfoldable pub take_response : Option Message → ProtobufProtocol → Call Message → Call Message
  unfolding fail complete
  take_response none rsp_protocol call = fail call error_failed_serialize (codes "serizlize error")
  take_response (some rsp) rsp_protocol call =
      let call' = record call { channel = record call.channel { m_response = some rsp } } in
      if rsp_protocol.m_err_code == 0
      then complete call'
      else fail call' rsp_protocol.m_err_code rsp_protocol.m_err_info

  -- The callback of `connect`.
  unfoldable pub on_connected : ℕ → Call Message → Call Message
  unfolding fail
  on_connected thread call =
      let client = call.channel.m_client in
      if client.m_connect_error_code == 0
      then with_client call (write_message thread client call.req_protocol sent_callback)
      else fail call client.m_connect_error_code client.m_connect_error_info

  -- The callback of `write_message`.
  unfoldable pub on_sent : ℕ → Call Message → Call Message
  on_sent thread call =
      with_client call
        (read_message thread call.channel.m_client call.req_protocol.m_msg_id response_callback)

module _ (protobuf : Protobuf) where
  open protobuf use {Message, parse_from_string, serialize_to_string}

  -- The lambda that `read_message` is given, on an event and a response that are there.
  unfoldable pub on_kept_response :
      Option ℕ → Option Message → Call Message → ProtobufProtocol → Outcome (Call Message)
  unfolding cancel_timer take_response
  on_kept_response (some i) (some response) call rsp_protocol = ok (
      take_response (parse_from_string response rsp_protocol.m_pb_data) rsp_protocol
        (cancel_timer i call))
  on_kept_response _ _ call rsp_protocol = err null_pointer

  unfoldable pub on_response : Call Message → ProtobufProtocol → Outcome (Call Message)
  unfolding on_kept_response
  on_response call rsp_protocol =
      if call.is_reset
      then err null_pointer
      else on_kept_response call.channel.m_timer_event call.channel.m_response call rsp_protocol
