-- ===== src/Tcp/Server.antt =====
-- src/net/tcp/tcp_server.cc: the server takes connections and gives each to a thread. The threads of
-- the group are their loops. A connection shares the loop of its thread and the event of its
-- descriptor: `m_io_thread_groups` and `fd_events` hold them as they are now, and what stands in a
-- connection of `m_client` is their state when it was taken.
use tiny_rpc.Base.{
  ℕ, ◌+◌, ◌/◌, List, [], ◌∷◌, map, Option, none, some, length, get_elem?, set_elem, ltb,
  if◌then◌else◌, Outcome, ok, err, out_of_bounds, ◌>>=◌, Ends, goes_on, ◌>>>◌,
}
use tiny_rpc.Address.{IPv4NetAddr, SockaddrIn}
use tiny_rpc.Rpc.Dispatcher.{Connection}
use tiny_rpc.Reactor.FdEvent.{FdEvent}
use tiny_rpc.Reactor.FdEventGroup.{FdEventGroup, get_fd_event}
use tiny_rpc.Reactor.IoThreadGroup.{get_io_thread}
use tiny_rpc.Reactor.EventLoop
use tiny_rpc.Reactor.EventLoop.{EventLoop, add_epoll_event}
use tiny_rpc.Reactor.NewLoop.{listening}
use tiny_rpc.Tcp.Connection.{TcpConnection, by_server, connected, new_connection, set_state}
use tiny_rpc.Tcp.Acceptor.{TcpAcceptor, accept}

pub record TcpServer : Type 0 where
  pub m_acceptor : TcpAcceptor
  pub m_local_addr : IPv4NetAddr
  pub m_main_event_loop : EventLoop
  pub m_io_thread_groups : List EventLoop
  pub m_listen_fd_event : FdEvent
  pub m_client_counts : ℕ
  pub m_client : List TcpConnection
  pub fd_events : FdEventGroup

abbrev pub on_accept_callback : ℕ
on_accept_callback = 5

-- How many threads the group has, with `std::thread::hardware_concurrency()`.
abbrev pub thread_count : ℕ → ℕ
thread_count cores = if ltb (cores / 2) 4 then 4 else cores / 2

abbrev pub get_pending_tasks_size : EventLoop → ℕ
get_pending_tasks_size loop = length loop.m_pending_tasks

module _ (thread : ℕ) where
  -- The constructor, with its acceptor, the main loop, and the loops of the threads.
  unfoldable pub new_server :
      TcpAcceptor → IPv4NetAddr → EventLoop → List EventLoop → FdEventGroup → TcpServer
  new_server acceptor local_addr main_event_loop io_threads fd_events =
      let e = listening acceptor.m_listenfd on_accept_callback in
      record {
        m_acceptor = acceptor;
        m_local_addr = local_addr;
        m_main_event_loop = add_epoll_event thread main_event_loop e;
        m_io_thread_groups = io_threads;
        m_listen_fd_event = e;
        m_client_counts = 0;
        m_client = [];
        fd_events = fd_events;
      }

  -- The connection is made, and is a client of the server.
  unfoldable pub add_client :
      TcpServer → IPv4NetAddr → ℕ → EventLoop → ℕ → FdEvent → FdEventGroup → TcpServer
  add_client server peer_addr io_thread loop client_fd fd_event fd_events =
      let addrs : Connection = record { local_addr = server.m_local_addr; peer_addr = peer_addr } in
      let connection =
        set_state (new_connection thread loop fd_event 128 addrs by_server) connected in
      record server {
        m_client_counts = server.m_client_counts + 1;
        m_io_thread_groups = set_elem server.m_io_thread_groups io_thread connection.m_event_loop;
        m_client = connection ∷ server.m_client;
        fd_events = record fd_events {
          m_fd_event_groups = set_elem fd_events.m_fd_event_groups client_fd connection.m_fd_event;
        };
      }

  -- The thread of that number, with its loop.
  unfoldable pub loop_of : TcpServer → ℕ → Outcome EventLoop
  loop_of server io_thread = elim (get_elem? server.m_io_thread_groups io_thread) [
    | none ↦ err out_of_bounds
    | some loop ↦ ok loop
  ]

  -- `on_accept` behind `accept`.
  unfoldable pub serve : TcpServer → ℕ → IPv4NetAddr → Outcome TcpServer
  unfolding add_client loop_of
  serve server client_fd peer_addr = do
    io_thread ← get_io_thread (map get_pending_tasks_size server.m_io_thread_groups)
    loop ← loop_of server io_thread
    (fd_event, fd_events) ← get_fd_event server.fd_events client_fd
    ok (add_client server peer_addr io_thread loop client_fd fd_event fd_events)

  unfoldable pub on_accept :
      (ℕ → List ℕ) → TcpServer → Option (ℕ × SockaddrIn) → Ends (Outcome TcpServer)
  unfolding serve
  on_accept inet_ntoa server accepted =
      accept inet_ntoa accepted >>> λ client. goes_on (serve server client.0 client.1)

  -- The destructor.
  unfoldable pub end_server : TcpServer → TcpServer
  end_server server = record server { m_main_event_loop = EventLoop.stop server.m_main_event_loop }
