-- ===== src/Tcp/Watched.antt =====
-- A client of the server, until the loop of its thread waits for its bytes. The loop reads the shared
-- event of the client when its task runs, behind the callbacks that were queued before.
use tiny_rpc.Base.{
  ℕ, ◌<◌, ◌≡◌, refl, sym, ap, ◌∙◌, List, [], ◌∷◌, ◌++◌, true, none, some, ok, if◌then◌else◌,
  get_elem?, Bool-cases, inl, inr, arith,
}
use mathlib.Core.Path.{subst}
use tiny_rpc.Address.{IPv4NetAddr}
use tiny_rpc.Reactor.FdEvent.{FdEvent}
use tiny_rpc.Reactor.FdEventGroup.{expanded}
use tiny_rpc.Reactor.IoThreadGroup.{IsLeast}
use tiny_rpc.Reactor.EventLoop.{
  EventLoop, EpollOp, epoll_ctl_add, epoll_ctl_mod, EpollCtl, Task, run, add_later, delete_later,
  has_fd, insert_fd, add_to_epoll, delete_from_epoll, run_task, run_tasks,
}
use tiny_rpc.Tcp.Server.{TcpServer, serve}
use tiny_rpc.Tcp.Serving.{IsServing, HasEvent, serve-IsServed, sizes}

has_fd-insert_fd : (fd : ℕ) (fds : List ℕ) → has_fd fd (insert_fd fd fds) ≡ true
unfolding insert_fd has_fd
has_fd-insert_fd fd fds = elim (Bool-cases (has_fd fd fds)) [
  | inl e ↦ rw e e
  | inr e ↦ rw e (ground arith)
]

-- The event is one of the descriptor, and waits for input.
pub record WaitsFor (fd : ℕ) (e : FdEvent) : Type 0 where
  pub same_fd : e.m_fd ≡ fd
  pub waits : e.epollin ≡ true

-- The loop has the descriptor of the event, which waits for input, and the last call of `epoll_ctl` has
-- asked for what the event says.
pub record IsWatched (fd : ℕ) (e : FdEvent) (loop : EventLoop) : Type 0 where
  pub event : WaitsFor fd e
  pub listens : has_fd fd loop.m_listen_fds ≡ true
  pub told :
      (calls : List EpollCtl) × (op : EpollOp) × (loop.epoll_calls
        ≡ calls ++ record { op = op; fd = fd; wants_in = true; wants_out = e.epollout } ∷ [])

add_to_epoll-IsWatched :
    (loop : EventLoop) (e : FdEvent) (fd : ℕ) → WaitsFor fd e → IsWatched fd e (add_to_epoll loop e)
unfolding add_to_epoll
add_to_epoll-IsWatched loop e fd h = record {
  event = h;
  listens =
      ap (λ d. has_fd d (insert_fd e.m_fd loop.m_listen_fds)) (sym h.same_fd)
      ∙ has_fd-insert_fd e.m_fd loop.m_listen_fds;
  told = (
    loop.epoll_calls,
    if has_fd e.m_fd loop.m_listen_fds then epoll_ctl_mod else epoll_ctl_add,
    ap
          (λ d.
            loop.epoll_calls
            ++ record {
              op = if has_fd e.m_fd loop.m_listen_fds then epoll_ctl_mod else epoll_ctl_add;
              fd = d;
              wants_in = e.epollin;
              wants_out = e.epollout;
            }
              ∷ [])
          h.same_fd
        ∙ ap
            (λ b.
              loop.epoll_calls
              ++ record {
                op = if has_fd e.m_fd loop.m_listen_fds then epoll_ctl_mod else epoll_ctl_add;
                fd = fd;
                wants_in = b;
                wants_out = e.epollout;
              }
                ∷ [])
            h.waits,
  );
}

ok_injective : {s t : TcpServer} → ok s ≡ ok t → s ≡ t
ok_injective e = cc

some_injective : {d e : FdEvent} → some d ≡ some e → d ≡ e
some_injective e = cc

module _ {W : Type 0} (exec : ℕ → W × EventLoop → W × EventLoop) (events : W → ℕ → FdEvent) where
  run_tasks-append :
      (ts us : List Task) (s : W × EventLoop)
      → run_tasks exec events s (ts ++ us) ≡ run_tasks exec events (run_tasks exec events s ts) us
  unfolding run_tasks
  run_tasks-append [] us s = refl
  run_tasks-append (t ∷ ts) us s = run_tasks-append ts us (run_task exec events s t)

  run_tasks-WaitsFor :
      (fd : ℕ) (ts : List Task) (s : W × EventLoop)
      → ((c : ℕ) (t : W × EventLoop)
          → WaitsFor fd (events t.0 fd)
          → WaitsFor fd (events (exec c t).0 fd))
      → WaitsFor fd (events s.0 fd)
      → WaitsFor fd (events (run_tasks exec events s ts).0 fd)
  unfolding run_tasks run_task
  run_tasks-WaitsFor fd [] s keep h = h
  run_tasks-WaitsFor fd (run none ∷ ts) s keep h = run_tasks-WaitsFor fd ts s keep h
  run_tasks-WaitsFor fd (run (some c) ∷ ts) s keep h =
      run_tasks-WaitsFor fd ts (exec c s) keep (keep c s h)
  run_tasks-WaitsFor fd (add_later d ∷ ts) (w, loop) keep h =
      run_tasks-WaitsFor fd ts (w, add_to_epoll loop (events w d)) keep h
  run_tasks-WaitsFor fd (delete_later d ∷ ts) (w, loop) keep h =
      run_tasks-WaitsFor fd ts (w, delete_from_epoll loop (events w d)) keep h

  -- The task at the end of the queue reads the event as the callbacks before it have left it.
  add_later-IsWatched :
      (fd : ℕ) (s : W × EventLoop)
      → WaitsFor fd (events s.0 fd)
      → let (w', loop') = run_tasks exec events s (add_later fd ∷ []) in
        IsWatched fd (events w' fd) loop'
  unfolding run_tasks run_task
  add_later-IsWatched fd (w, loop) h = add_to_epoll-IsWatched loop (events w fd) fd h

  -- A server that has threads, all of them other than its own, with loads that differ by one at
  -- most, has served a client whose descriptor is below one and a half times the size of the
  -- event group, and the shared event of that descriptor is the one in the server's group. When
  -- the loop of the least loaded thread has then run the tasks of its queue, it listens for the
  -- descriptor, the shared event waits for input, and the last call of epoll_ctl has asked for
  -- input, and for output as the event says by then. The callbacks in the queue may do anything
  -- but stop the event from waiting for input.
  pub served-IsWatched :
      (thread : ℕ) (server server' : TcpServer) (client_fd : ℕ) (peer_addr : IPv4NetAddr) (w : W)
      → IsServing thread server
      → client_fd < expanded server.fd_events.m_size
      → serve thread server client_fd peer_addr ≡ ok server'
      → get_elem? server'.fd_events.m_fd_event_groups client_fd ≡ some (events w client_fd)
      → ((c : ℕ) (t : W × EventLoop)
          → WaitsFor client_fd (events t.0 client_fd)
          → WaitsFor client_fd (events (exec c t).0 client_fd))
      → (k : ℕ) × (n : ℕ) × (loop : EventLoop) × IsLeast (sizes server.m_io_thread_groups) k n
        × (get_elem? server'.m_io_thread_groups k ≡ some loop)
        × (let (w', loop') =
              run_tasks exec events
                (w, record loop { m_pending_tasks = [] })
                loop.m_pending_tasks in
            IsWatched client_fd (events w' client_fd) loop')
  served-IsWatched thread server server' client_fd peer_addr w s h done shared keep =
      let (t, e, served) = serve-IsServed thread server client_fd peer_addr s h in
      let (k, n, least, _, event) = served.thread_of in
      let (loop, tasks, d, at, queue, has, same, waits, _) =
        subst (λ u. HasEvent thread u k client_fd) (ok_injective (sym e ∙ done)) event in
      let start : W × EventLoop = (w, record loop { m_pending_tasks = [] }) in
      let begins : WaitsFor client_fd (events w client_fd) =
        subst (WaitsFor client_fd) (some_injective (sym has ∙ shared))
          (record { same_fd = same; waits = waits }) in
      (
        k,
        n,
        loop,
        least,
        at,
        subst (λ (r : W × EventLoop). IsWatched client_fd (events r.0 client_fd) r.1)
            (sym (
              ap (run_tasks exec events start) queue
              ∙ run_tasks-append tasks (add_later client_fd ∷ []) start))
            (add_later-IsWatched client_fd (run_tasks exec events start tasks)
              (run_tasks-WaitsFor client_fd tasks start keep begins)),
      )
