-- ===== src/Tcp/Serving.antt =====
-- The clients of a server: each goes to a thread with the fewest pending tasks.
use tiny_rpc.Base.{
  ℕ, ◌+◌, ◌≤◌, ◌<◌, ◌≡◌, ◌≢◌, refl, sym, ap, ◌∙◌, List, [], ◌∷◌, ◌++◌, map, true, some, arith,
  length, get_elem?, set_elem, length-set_elem, get_elem?-set_elem, get_elem?-set_elem_ne,
  set_elem-cases, get_elem?-bound, map-set_elem, get_elem?-map, Outcome, ok, inl, inr, ne→==_false,
  ◌>>=◌, length-append,
}
use native.Mathlib.Decide.{ℕ_discrete}
use mathlib.Core.Path.{subst}
use tiny_rpc.Address.{IPv4NetAddr}
use tiny_rpc.Rpc.Dispatcher.{Connection}
use tiny_rpc.Reactor.FdEvent.{FdEvent, listen}
use tiny_rpc.Reactor.FdEventGroup.{FdEventGroup, get_fd_event, get_fd_event_lem, expanded}
use tiny_rpc.Reactor.FdEventGroup
use tiny_rpc.Reactor.IoThreadGroup.{get_io_thread, get_io_thread_lem, IsLeast}
use tiny_rpc.Reactor.EventLoop.{EventLoop, Task, add_later, add_epoll_event, add_task, wake_up}
use tiny_rpc.Tcp.Connection.{
  TcpConnection, by_server, connected, new_connection, set_state, listen_read, on_read_callback,
}
use tiny_rpc.Tcp.Server.{TcpServer, get_pending_tasks_size, add_client, loop_of, serve}

abbrev pub sizes : List EventLoop → List ℕ
sizes = map get_pending_tasks_size

-- The loads of the threads differ by one at most.
abbrev pub IsBalanced : List ℕ → Type 0
IsBalanced xs = (i j m n : ℕ) → get_elem? xs i ≡ some m → get_elem? xs j ≡ some n → m ≤ n + 1

set_elem-IsBalanced :
    (xs : List ℕ) (k n : ℕ) → IsLeast xs k n → IsBalanced xs → IsBalanced (set_elem xs k (n + 1))
set_elem-IsBalanced xs k n least b i j m m' e f = elim (set_elem-cases xs k i (n + 1) e) [
  | inl p ↦ elim (set_elem-cases xs k j (n + 1) f) [
    | inl q ↦ omega arith
    | inr g ↦ omega (arith, least.least j m' g)
  ]
  | inr h ↦ elim (set_elem-cases xs k j (n + 1) f) [
    | inl q ↦ omega (arith, b i k m n h least.place)
    | inr g ↦ b i j m m' h g
  ]
]

pick :
    (loops : List EventLoop)
    → 0 < length loops
    → (k n : ℕ) × (get_io_thread (sizes loops) ≡ ok k) × IsLeast (sizes loops) k n
pick [] h = absurd (omega arith)
pick (l ∷ ls) h = get_io_thread_lem (get_pending_tasks_size l) (sizes ls)

-- The event of a descriptor can take the place of another with the same one.
set_event-IsValid :
    (g : FdEventGroup) (fd : ℕ) (e : FdEvent)
    → FdEventGroup.IsValid g
    → e.m_fd ≡ fd
    → FdEventGroup.IsValid (record g { m_fd_event_groups = set_elem g.m_fd_event_groups fd e })
set_event-IsValid g fd e v same = record {
  sized = length-set_elem g.m_fd_event_groups fd e ∙ v.sized;
  indexed = λ i h. elim (ℕ_discrete i fd) [
    | yes p ↦ (
      e,
      ap (get_elem? (set_elem g.m_fd_event_groups fd e)) p
          ∙ get_elem?-set_elem g.m_fd_event_groups fd e (omega (arith, p, v.sized)),
      same ∙ sym p,
    )
    | no p ↦
        let (d, at, d_fd) = v.indexed i h in
        (d, get_elem?-set_elem_ne g.m_fd_event_groups fd i e p ∙ at, d_fd)
  ];
}

module _ (thread : ℕ) where
  -- What holds of a server between two clients: its threads are others than its own, and share the
  -- load, and it has counted its clients.
  pub record IsServing (server : TcpServer) : Type 0 where
    pub threads : 0 < length server.m_io_thread_groups
    pub foreign :
        (i : ℕ) (loop : EventLoop)
        → get_elem? server.m_io_thread_groups i ≡ some loop
        → loop.m_thread_id ≢ thread
    pub balanced : IsBalanced (sizes server.m_io_thread_groups)
    pub counted : server.m_client_counts ≡ length server.m_client
    pub events : FdEventGroup.IsValid server.fd_events

  -- The task that it leaves.
  new_connection-task :
      (loop : EventLoop) (fd_event : FdEvent) (addrs : Connection)
      → loop.m_thread_id ≢ thread
      → let c = set_state (new_connection thread loop fd_event 128 addrs by_server) connected in
        (c.m_event_loop.m_pending_tasks ≡ loop.m_pending_tasks ++ add_later c.m_fd_event.m_fd ∷ [])
        × (c.m_fd_event.epollin ≡ true)
        × (c.m_fd_event.m_read_callback ≡ some on_read_callback)
  unfolding new_connection listen_read add_epoll_event add_task wake_up set_state listen
  new_connection-task loop fd_event addrs n =
      rw (ne→==_false loop.m_thread_id thread n) (refl, refl, refl)

  -- From another thread, a connection leaves one task with its loop.
  new_connection-load :
      (loop : EventLoop) (fd_event : FdEvent) (addrs : Connection)
      → loop.m_thread_id ≢ thread
      → let c = set_state (new_connection thread loop fd_event 128 addrs by_server) connected in
        (get_pending_tasks_size c.m_event_loop ≡ get_pending_tasks_size loop + 1)
        × (c.m_event_loop.m_thread_id ≡ loop.m_thread_id)
        × (c.m_fd_event.m_fd ≡ fd_event.m_fd)
  unfolding new_connection listen_read add_epoll_event add_task wake_up set_state listen
  new_connection-load loop fd_event addrs n =
      rw (ne→==_false loop.m_thread_id thread n)
        (length-append loop.m_pending_tasks (_ ∷ []), refl, refl)

  -- The last task of the loop of the thread `k` adds the event of the descriptor, and the one that the
  -- group has, which is shared, waits for input.
  abbrev pub HasEvent : TcpServer → ℕ → ℕ → Type 0
  HasEvent server k fd =
      (loop : EventLoop) × (tasks : List Task) × (e : FdEvent) × (get_elem?
          server.m_io_thread_groups k
        ≡ some loop)
      × (loop.m_pending_tasks ≡ tasks ++ add_later fd ∷ [])
      × (get_elem? server.fd_events.m_fd_event_groups fd ≡ some e)
      × (e.m_fd ≡ fd)
      × (e.epollin ≡ true)
      × (e.m_read_callback ≡ some on_read_callback)

  -- The client at the front, and what the server has become.
  pub record IsServed (server : TcpServer) (client_fd : ℕ) (server' : TcpServer) : Type 0 where
    pub serving : IsServing server'
    pub client :
        (c : TcpConnection) × (server'.m_client ≡ c ∷ server.m_client)
        × (c.m_state ≡ connected)
        × (c.m_fd_event.m_fd ≡ client_fd)
    pub thread_of :
        (k n : ℕ) × IsLeast (sizes server.m_io_thread_groups) k n
        × (sizes server'.m_io_thread_groups ≡ set_elem (sizes server.m_io_thread_groups) k (n + 1))
        × HasEvent server' k client_fd

  add_client-IsServed :
      (server : TcpServer) (peer_addr : IPv4NetAddr) (k n : ℕ) (loop : EventLoop) (client_fd : ℕ)
      (fd_event : FdEvent) (fd_events : FdEventGroup)
      → IsServing server
      → IsLeast (sizes server.m_io_thread_groups) k n
      → get_elem? server.m_io_thread_groups k ≡ some loop
      → get_pending_tasks_size loop ≡ n
      → fd_event.m_fd ≡ client_fd
      → FdEventGroup.IsValid fd_events
      → get_elem? fd_events.m_fd_event_groups client_fd ≡ some fd_event
      → IsServed server client_fd
          (add_client thread server peer_addr k loop client_fd fd_event fd_events)
  unfolding add_client set_state
  add_client-IsServed server peer_addr k n loop client_fd fd_event fd_events s least at load fd v
        has =
      let addrs : Connection = record { local_addr = server.m_local_addr; peer_addr = peer_addr } in
      let c = set_state (new_connection thread loop fd_event 128 addrs by_server) connected in
      let loops = server.m_io_thread_groups in
      let (task, waits_in, reads) = new_connection-task loop fd_event addrs (s.foreign k loop at) in
      let (more, same_thread, same_fd) =
        new_connection-load loop fd_event addrs (s.foreign k loop at) in
      let loads : sizes (set_elem loops k c.m_event_loop) ≡ set_elem (sizes loops) k (n + 1) =
        map-set_elem get_pending_tasks_size loops k c.m_event_loop
        ∙ ap (set_elem (sizes loops) k) (more ∙ ap (λ m. m + 1) load) in
      record {
        serving = record {
          threads = omega (arith, length-set_elem loops k c.m_event_loop, s.threads);
          foreign = λ i l e. elim (set_elem-cases loops k i c.m_event_loop e) [
            | inl p ↦ λ q.
                s.foreign k loop at
                  (sym same_thread ∙ ap (λ (d : EventLoop). d.m_thread_id) (sym p) ∙ q)
            | inr h ↦ s.foreign i l h
          ];
          balanced =
              subst IsBalanced (sym loads) (set_elem-IsBalanced (sizes loops) k n least s.balanced);
          counted = omega (arith, s.counted);
          events = set_event-IsValid fd_events client_fd c.m_fd_event v (same_fd ∙ fd);
        };
        client = (c, refl, refl, same_fd ∙ fd);
        thread_of = (
          k,
          n,
          least,
          loads,
          (
            c.m_event_loop,
            loop.m_pending_tasks,
            c.m_fd_event,
            get_elem?-set_elem loops k c.m_event_loop (get_elem?-bound loops k at),
            task ∙ ap (λ p. loop.m_pending_tasks ++ add_later p ∷ []) (same_fd ∙ fd),
            get_elem?-set_elem fd_events.m_fd_event_groups client_fd c.m_fd_event
                (get_elem?-bound fd_events.m_fd_event_groups client_fd has),
            same_fd ∙ fd,
            waits_in,
            reads,
          ),
        );
      }

  loop_of-ok :
      (server : TcpServer) (k : ℕ) (loop : EventLoop)
      → get_elem? server.m_io_thread_groups k ≡ some loop
      → loop_of thread server k ≡ ok loop
  unfolding loop_of
  loop_of-ok server k loop at = rw (at, loop_of) refl

  -- A server that has threads, all of them other than its own, with loads that differ by one at
  -- most, keeps this with each client whose descriptor is below one and a half times the size
  -- of the event group: serving the client returns, adds one connected connection with the
  -- event of its descriptor, counts it, and leaves one more task with the first of the least
  -- loaded threads and no other.
  pub serve-IsServed :
      (server : TcpServer) (client_fd : ℕ) (peer_addr : IPv4NetAddr)
      → IsServing server
      → client_fd < expanded server.fd_events.m_size
      → (server' : TcpServer) × (serve thread server client_fd peer_addr ≡ ok server')
        × IsServed server client_fd server'
  unfolding serve
  serve-IsServed server client_fd peer_addr s h =
      let serve_with : ℕ → EventLoop → Outcome TcpServer = λ k loop.
        get_fd_event server.fd_events client_fd >>= λ e.
        ok (add_client thread server peer_addr k loop client_fd e.0 e.1) in
      let serve_on : ℕ → Outcome TcpServer = λ k. loop_of thread server k >>= serve_with k in
      let (k, n, picked, least) = pick server.m_io_thread_groups s.threads in
      let (loop, at, load) =
        get_elem?-map get_pending_tasks_size server.m_io_thread_groups k least.place in
      let (fd_event, fd_events, got, fd, v, has) = get_fd_event_lem client_fd s.events h in
      (
        add_client thread server peer_addr k loop client_fd fd_event fd_events,
        ap (λ o. o >>= serve_on) picked
            ∙ ap (λ o. o >>= serve_with k) (loop_of-ok server k loop at)
            ∙ ap (λ o. o >>= λ e. ok (add_client thread server peer_addr k loop client_fd e.0 e.1))
                got,
        add_client-IsServed server peer_addr k n loop client_fd fd_event fd_events s least at load
            fd v has,
      )
