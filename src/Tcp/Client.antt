-- ===== src/Tcp/Client.antt =====
-- src/net/tcp/tcp_client.cc: the client's end of a connection. Its loop and its event are the objects
-- that its connection holds, so the model keeps them there; `m_timer` is the timer of that loop. The
-- results of `connect`, `getsockname` and `socket` and the texts of `strerror` are parameters.
use tiny_rpc.Base.{
  ℕ, List, [], ◌∷◌, ◌++◌, Bool, not, Option, none, some, ◌==◌, if◌then◌else◌, codes,
}
use tiny_rpc.Address.{IPv4NetAddr}
use tiny_rpc.Coder.Protocol.{ProtobufProtocol}
use tiny_rpc.Rpc.ErrorCode.{error_peer_closed, error_failed_connect}
use tiny_rpc.Rpc.Dispatcher.{Connection}
use tiny_rpc.Reactor.FdEvent.{FdEvent, out_event, listen}
use tiny_rpc.Reactor.EventLoop
use tiny_rpc.Reactor.EventLoop.{EventLoop, add_epoll_event, delete_epoll_event}
use tiny_rpc.Timer.{Timer, add_time_event}
use tiny_rpc.Tcp.Connection.{
  TcpConnection, connected, by_client, new_connection, set_state, push_send_message,
  push_read_message, listen_read, listen_write,
}

pub record TcpClient : Type 0 where
  pub m_connection : TcpConnection
  pub m_timer : Timer
  pub m_fd : ℕ
  pub m_local_addr : Option IPv4NetAddr
  pub m_connect_error_code : ℕ
  pub m_connect_error_info : List ℕ
  pub closed_fds : List ℕ

-- What `connect` returns: 0, or -1 with this `errno`.
pub data ConnectResult : Type 0 where
  connects : ConnectResult
  fails : ℕ → ConnectResult

abbrev pub einprogress : ℕ
einprogress = 115

abbrev pub eisconn : ℕ
eisconn = 106

abbrev pub econnrefused : ℕ
econnrefused = 111

-- What happens when `TcpClient::connect` has done its work: its callback runs, or it waits for the
-- descriptor; then it runs the loop unless the loop is running.
pub data ConnectStep : Type 0 where
  runs_done : ConnectStep
  waits : Bool → ConnectStep

-- The lambda that `connect` listens with, beside the two callbacks of the connection.
abbrev pub on_connect_callback : ℕ
on_connect_callback = 2

unfoldable pub init_local_addr : Option IPv4NetAddr → TcpClient → TcpClient
init_local_addr none c = c
init_local_addr (some addr) c = record c { m_local_addr = some addr }

unfoldable pub set_connect_error : TcpClient → ℕ → List ℕ → TcpClient
set_connect_error c code info = record c {
  m_connect_error_code = code;
  m_connect_error_info = info;
}

-- The branch of a connection that is there.
unfoldable pub connect_done : Option IPv4NetAddr → TcpClient → TcpClient
unfolding init_local_addr
connect_done name c =
    init_local_addr name (record c { m_connection = set_state c.m_connection connected })

unfoldable pub add_timer_event : ℕ → TcpClient → ℕ → TcpClient
add_timer_event now c timer_event = record c { m_timer = add_time_event now c.m_timer timer_event }

unfoldable pub stop : TcpClient → TcpClient
stop c =
    let loop = c.m_connection.m_event_loop in
    if loop.m_is_looping
    then record c { m_connection = record c.m_connection { m_event_loop = EventLoop.stop loop } }
    else c

module _ (thread : ℕ) where
  -- The constructor, with the loop, the event that the group has for the socket, the socket, and the
  -- addresses. A client's connection has no local address, and none of its functions reads one.
  unfoldable pub new_client : EventLoop → Timer → FdEvent → ℕ → Connection → TcpClient
  new_client event_loop timer fd_event fd addrs = record {
    m_connection = new_connection thread event_loop fd_event 128 addrs by_client;
    m_timer = timer;
    m_fd = fd;
    m_local_addr = none;
    m_connect_error_code = 0;
    m_connect_error_info = [];
    closed_fds = [];
  }

  unfoldable pub write_message : TcpClient → ProtobufProtocol → ℕ → TcpClient
  write_message c message done = record c {
    m_connection = listen_write thread (push_send_message c.m_connection message done);
  }

  unfoldable pub read_message : TcpClient → List ℕ → ℕ → TcpClient
  read_message c req_id done = record c {
    m_connection = listen_read thread (push_read_message c.m_connection req_id done);
  }

  module _ (strerror : ℕ → List ℕ) where
    -- The descriptor is watched until it can be written to.
    unfoldable pub watch_connect : TcpClient → TcpClient
    watch_connect c =
        let e = listen c.m_connection.m_fd_event out_event (some on_connect_callback) none in
        record c {
          m_connection = record c.m_connection {
            m_fd_event = e;
            m_event_loop = add_epoll_event thread c.m_connection.m_event_loop e;
          };
        }

    unfoldable pub connect :
        ConnectResult → Option IPv4NetAddr → TcpClient → TcpClient × ConnectStep
    unfolding connect_done watch_connect set_connect_error
    connect connects name c = (connect_done name c, runs_done)
    connect (fails errno) name c =
        if errno == einprogress
        then (watch_connect c, waits (not c.m_connection.m_event_loop.m_is_looping))
        else (
          set_connect_error c error_failed_connect
              (codes "connect error, sys error = " ++ strerror errno),
          runs_done,
        )

    -- The socket is closed, and another one takes its place.
    unfoldable pub connect_refused : ℕ → ℕ → TcpClient → TcpClient
    unfolding set_connect_error
    connect_refused errno socket c =
        let c' =
          if errno == econnrefused
          then set_connect_error c error_peer_closed
              (codes "connect refused, sys error = " ++ strerror errno)
          else set_connect_error c error_failed_connect
              (codes "connect unkonwn error, sys error = " ++ strerror errno) in
        record c' { m_fd = socket; closed_fds = c.closed_fds ++ c.m_fd ∷ [] }

    unfoldable pub connect_again : ConnectResult → Option IPv4NetAddr → ℕ → TcpClient → TcpClient
    unfolding connect_done connect_refused
    connect_again connects name socket c = connect_done name c
    connect_again (fails errno) name socket c =
        if errno == eisconn then connect_done name c else connect_refused errno socket c

    unfoldable pub leave_epoll : TcpClient → TcpClient
    leave_epoll c = record c {
      m_connection = record c.m_connection {
        m_event_loop =
            delete_epoll_event thread c.m_connection.m_event_loop c.m_connection.m_fd_event;
      };
    }

    -- The lambda, with the second `connect`; the callback of `TcpClient::connect` runs after it.
    unfoldable pub on_connect_event : ConnectResult → Option IPv4NetAddr → ℕ → TcpClient → TcpClient
    unfolding connect_again leave_epoll
    on_connect_event result name socket c = leave_epoll (connect_again result name socket c)
