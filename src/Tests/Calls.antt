-- ===== src/Tests/Calls.antt =====
-- The client: its connection, and its calls.
use tiny_rpc.Base.{ℕ, ◌≡◌, ◌≤◌, refl, List, [], ◌∷◌, false, none, some, ok, arith, length, codes}
use tiny_rpc.Coder.Protocol.{ProtobufProtocol, new_protocol}
use tiny_rpc.Rpc.Controller.{new_controller, set_error, start_cancel}
use tiny_rpc.Reactor.FdEvent.{new_fd_event}
use tiny_rpc.Reactor.EventLoop.{EventLoop}
use tiny_rpc.Timer.{Timer, new_event, on_timer}
use tiny_rpc.Tcp.Connection.{new_connection}
use tiny_rpc.Tcp.Client.{
  TcpClient, connect, read_message, write_message, add_timer_event, new_client, connects, fails,
  einprogress, econnrefused,
}
use tiny_rpc.Tcp.Connecting.{IsTold, establish, establish-IsTold}
use tiny_rpc.Channel.{
  Call, RpcChannel, new_channel, init, start_timer, run_timer, on_response, on_sent,
}
use tiny_rpc.Channel.CallMethod.{begin_connect}
use tiny_rpc.Channel.Spent.{IsSpent}
use tiny_rpc.Channel.Once.{
  IsNew, responds, ticks, sent, run_events, closure_once, start_timer-IsSpent,
}
use tiny_rpc.Channel.Timeout.{IsTimedOut, call_times_out}
use tiny_rpc.Channel.Response.{IsAnswered, IsRefused, answer_completes, error_response_refuses}
use tiny_rpc.Tests.Data.{echo, local_host}

abbrev pub idle_loop : EventLoop
idle_loop = record {
  m_thread_id = 1;
  m_stop_flag = false;
  m_listen_fds = [];
  m_pending_tasks = [];
  m_is_looping = false;
  epoll_calls = [];
  wake_ups = 0;
}

abbrev idle_timer : Timer
idle_timer = record {
  store = λ i. record {
    m_arrive_time = 0;
    m_interval = 0;
    m_is_repeat = false;
    m_is_cancel = false;
    m_task = none;
  };
  m_pending_events = [];
  armed = none;
}

abbrev pub strerror : ℕ → List ℕ
strerror errno = codes "error"

abbrev client : TcpClient
client = new_client 1 idle_loop idle_timer (new_fd_event 6) 6 local_host

-- The peer refuses the second `connect`.
establish-IsTold_example :
    IsTold (establish 1 strerror (fails einprogress) (fails econnrefused) none 7 client)
unfolding new_client new_connection
establish-IsTold_example =
    establish-IsTold 1 strerror (fails einprogress) (fails econnrefused) none 7 client refl refl

abbrev channel : RpcChannel (List ℕ)
channel = init (new_channel client) (some 1) (some 2) (some []) (some 9)

abbrev pub first_call : Call (List ℕ)
first_call = record {
  channel = channel;
  my_controller = record new_controller { m_msg_id = codes "7" };
  req_protocol = record new_protocol { m_msg_id = codes "7"; m_method_name = codes "Or.mk" };
  timer_event = 3;
  is_reset = false;
  runs = [];
}

pub first_call-IsNew : IsNew first_call.channel.m_client.m_timer 3
unfolding init new_channel new_client
first_call-IsNew = record {
  sorted = record { sorted = tt };
  not_pending = refl;
  no_task = λ j h. absurd (cc h);
}

abbrev response : ProtobufProtocol
response = record new_protocol { m_msg_id = codes "7"; m_pb_data = 5 ∷ 1 ∷ [] }

-- The timer fires, and the response comes late.
closure_once_example : length {A = ℕ} (9 ∷ []) ≤ 1
unfolding run_events begin_connect start_timer init new_channel on_response run_timer on_timer
    on_sent read_message connect add_timer_event new_client write_message new_event set_error
    start_cancel
closure_once_example =
    closure_once echo 1 strerror 100 connects none
      (sent ∷ ticks 2000 (λ n. 2000) ∷ responds response ∷ []) first_call first_call-IsNew refl refl

call_times_out_example : IsTimedOut 9 [] (
    run_timer 1100
      (λ n. 1100)
      (begin_connect 1 strerror connects none (start_timer 100 first_call)).0)
unfolding init new_channel
call_times_out_example =
    call_times_out 1 strerror 100 1100 (λ n. 1100) connects none first_call 9 first_call-IsNew refl
      (omega arith)

abbrev pub waiting_call : Call (List ℕ)
waiting_call = start_timer 100 first_call

pub waiting_call-IsSpent : IsSpent waiting_call
waiting_call-IsSpent = start_timer-IsSpent 100 first_call first_call-IsNew refl

answer_completes_example :
    (call' : Call (List ℕ)) × (on_response echo waiting_call response ≡ ok call')
    × IsAnswered echo [] 9 (5 ∷ 1 ∷ []) call'
unfolding start_timer init new_channel
answer_completes_example =
    answer_completes echo waiting_call response waiting_call-IsSpent refl refl refl refl refl refl

abbrev error_response : ProtobufProtocol
error_response = record response { m_err_code = 10000006; m_err_info = codes "service not found" }

error_response_refuses_example :
    (call' : Call (List ℕ)) × (on_response echo waiting_call error_response ≡ ok call')
    × IsRefused echo [] 10000006 (codes "service not found") call'
unfolding start_timer init new_channel
error_response_refuses_example =
    error_response_refuses echo waiting_call error_response waiting_call-IsSpent refl refl refl
      (λ e. absurd (omega (arith, e)))
