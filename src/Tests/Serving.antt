-- ===== src/Tests/Serving.antt =====
-- The server, and addresses.
use tiny_rpc.Base.{
  ℕ, zero, suc, ◌≡◌, true, ◌≢◌, ap, Option, refl, List, [], ◌∷◌, none, some, ok, arith, codes,
  get_elem?,
}
use tiny_rpc.Address.{of_text, to_string, of_ip_port}
use tiny_rpc.Address.Text.{of_text-to_string}
use tiny_rpc.Reactor.FdEventGroup.{
  new_group, new_group-IsValid, fresh_events, get_fd_event, event_at,
}
use tiny_rpc.Reactor.FdEvent.{FdEvent, new_fd_event}
use tiny_rpc.Reactor.FdEvent.{FdEvent, new_fd_event, listen}
use tiny_rpc.Reactor.EventLoop.{EventLoop, run, run_tasks}
use tiny_rpc.Reactor.IoThreadGroup.{IsLeast, get_io_thread, least_from}
use tiny_rpc.Tcp.Watched.{IsWatched, served-IsWatched}
use tiny_rpc.Reactor.NewLoop.{empty_loop, listening}
use tiny_rpc.Tcp.Connection.{new_connection, set_state, listen_read, on_read_callback}
use tiny_rpc.Tcp.Acceptor.{TcpAcceptor}
use tiny_rpc.Tcp.Server.{TcpServer, new_server, add_client, loop_of, serve}
use tiny_rpc.Tcp.Serving.{sizes, IsServing, IsServed, serve-IsServed}
use tiny_rpc.Tests.Data.{loopback}

abbrev acceptor : TcpAcceptor
acceptor = record { m_local_addr = loopback 12345; m_family = 2; m_listenfd = 4 }

-- A loop with one callback in its queue.
abbrev loaded : ℕ → EventLoop
loaded thread = record (empty_loop thread) { m_pending_tasks = run (some 7) ∷ [] }

abbrev loops : List EventLoop
loops = loaded 2 ∷ loaded 3 ∷ []

-- The main thread is 1, the other two 2 and 3.
abbrev server : TcpServer
server = new_server 1 acceptor (loopback 12345) (empty_loop 1) loops (new_group 128)

abbrev id_of : Option EventLoop → ℕ
id_of none = 0
id_of (some loop) = loop.m_thread_id

other : (i : ℕ) (loop : EventLoop) → get_elem? loops i ≡ some loop → loop.m_thread_id ≢ 1
other zero loop e h = absurd (omega (arith, ap id_of e, h))
other (suc zero) loop e h = absurd (omega (arith, ap id_of e, h))
other (suc (suc i)) loop e h = absurd (cc e)

even : (i : ℕ) (m : ℕ) → get_elem? (sizes loops) i ≡ some m → m ≡ 1
even zero m e = ground (arith, e)
even (suc zero) m e = ground (arith, e)
even (suc (suc i)) m e = absurd (cc e)

server-IsServing : IsServing 1 server
unfolding new_server new_group
server-IsServing = record {
  threads = omega arith;
  foreign = λ i loop e. other i loop e;
  balanced = λ i j m n e f. omega (arith, even i m e);
  counted = refl;
  events = new_group-IsValid 128;
}

serve-IsServed_example :
    (server' : TcpServer) × (serve 1 server 9 (loopback 40000) ≡ ok server')
    × IsServed 1 server 9 server'
unfolding new_server new_group
serve-IsServed_example = serve-IsServed 1 server 9 (loopback 40000) server-IsServing (omega arith)

-- 127.0.0.1:8080, with an `inet_addr` that knows this one address.
of_text-to_string_example :
    of_text (λ ip. 16777343) (to_string (loopback 8080))
    ≡ of_ip_port (λ ip. 16777343) (codes "127.0.0.1") 8080
of_text-to_string_example =
    of_text-to_string (λ ip. 16777343) (loopback 8080) (ground arith) (omega arith)

-- The server behind the client 9, whose event waits for input.
abbrev served_server : TcpServer
served_server = add_client 1 server (loopback 40000) 0 (loaded 2) 9 (new_fd_event 9) (new_group 128)

serves : serve 1 server 9 (loopback 40000) ≡ ok served_server
unfolding serve new_server new_group loop_of get_fd_event get_io_thread fresh_events event_at
    least_from
serves = refl

-- The shared events, all of them listening for reading. A callback makes one of them wait for output too.
abbrev reading : ℕ → FdEvent
reading fd = listening fd on_read_callback

abbrev start_writing : ℕ → (ℕ → FdEvent) × EventLoop → (ℕ → FdEvent) × EventLoop
start_writing c (events, loop) = (λ fd. record (events fd) { epollout = true }, loop)

served-IsWatched_example :
    (k : ℕ) × (n : ℕ) × (loop : EventLoop) × IsLeast (sizes loops) k n
    × (get_elem? served_server.m_io_thread_groups k ≡ some loop)
    × (let (events, loop') =
          run_tasks start_writing
            (λ events. events)
            (reading, record loop { m_pending_tasks = [] })
            loop.m_pending_tasks in
        IsWatched 9 (events 9) loop')
unfolding new_server new_group add_client new_connection set_state listen_read listen fresh_events
served-IsWatched_example =
    served-IsWatched start_writing (λ events. events) 1 server served_server 9 (loopback 40000)
      reading server-IsServing (omega arith) serves refl
      (λ c t h. record { same_fd = h.same_fd; waits = h.waits })
