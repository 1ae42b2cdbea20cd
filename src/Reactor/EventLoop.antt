-- ===== src/Reactor/EventLoop.antt =====
-- src/net/eventloop.cc: the event loop of a thread. What a callback does is a parameter, `exec`, on a
-- state of type `W` beside the loop; so are the results of `epoll_wait`. The `FdEvent` objects that
-- threads share are part of that state: `events w fd` is what the shared one of `fd` holds in `w`. The loop keeps a record of
-- its `epoll_ctl` calls, whose results the code only logs.
use tiny_rpc.Base.{
  ℕ, ◌+◌, List, [], ◌∷◌, ◌++◌, Bool, true, false, Option, none, some, ◌==◌, if◌then◌else◌, take,
}
use tiny_rpc.Reactor.FdEvent.{FdEvent, in_event, out_event, error_event, handler}

pub data EpollOp : Type 0 where
  epoll_ctl_add epoll_ctl_mod epoll_ctl_del : EpollOp

-- The arguments of `epoll_ctl`, with the two bits of the events.
pub record EpollCtl : Type 0 where
  pub op : EpollOp
  pub fd : ℕ
  pub wants_in : Bool
  pub wants_out : Bool

-- A `std::function` in the queue: a callback (`none` if it is null), or one of the two lambdas. These
-- capture a `shared_ptr` to an event, which is read when the task runs; the pointer is the descriptor,
-- since the code shares one event of a descriptor between threads.
pub data Task : Type 0 where
  run : Option ℕ → Task
  add_later delete_later : ℕ → Task

pub record EventLoop : Type 0 where
  pub m_thread_id : ℕ
  pub m_stop_flag : Bool
  pub m_listen_fds : List ℕ
  pub m_pending_tasks : List Task
  pub m_is_looping : Bool
  pub epoll_calls : List EpollCtl
  pub wake_ups : ℕ

-- `std::set<int>`: `find`, `insert` and `erase`.
unfoldable pub has_fd : ℕ → List ℕ → Bool
has_fd fd [] = false
has_fd fd (x ∷ xs) = if x == fd then true else has_fd fd xs

unfoldable pub insert_fd : ℕ → List ℕ → List ℕ
insert_fd fd fds = if has_fd fd fds then fds else fd ∷ fds

unfoldable pub erase_fd : ℕ → List ℕ → List ℕ
erase_fd fd [] = []
erase_fd fd (x ∷ xs) = if x == fd then xs else x ∷ erase_fd fd xs

unfoldable pub add_to_epoll : EventLoop → FdEvent → EventLoop
add_to_epoll loop event =
    let op = if has_fd event.m_fd loop.m_listen_fds then epoll_ctl_mod else epoll_ctl_add in
    record loop {
      m_listen_fds = insert_fd event.m_fd loop.m_listen_fds;
      epoll_calls =
          loop.epoll_calls
          ++ record {
            op = op;
            fd = event.m_fd;
            wants_in = event.epollin;
            wants_out = event.epollout;
          }
            ∷ [];
    }

unfoldable pub delete_from_epoll : EventLoop → FdEvent → EventLoop
delete_from_epoll loop event =
    if has_fd event.m_fd loop.m_listen_fds
    then record loop {
      m_listen_fds = erase_fd event.m_fd loop.m_listen_fds;
      epoll_calls =
          loop.epoll_calls
          ++ record { op = epoll_ctl_del; fd = event.m_fd; wants_in = false; wants_out = false }
            ∷ [];
    }
    else loop

unfoldable pub wake_up : EventLoop → EventLoop
wake_up loop = record loop { wake_ups = loop.wake_ups + 1 }

unfoldable pub add_task : EventLoop → Task → Bool → EventLoop
unfolding wake_up
add_task loop task is_wake_up =
    let loop' = record loop { m_pending_tasks = loop.m_pending_tasks ++ task ∷ [] } in
    if is_wake_up then wake_up loop' else loop'

-- The first argument is the calling thread.
unfoldable pub add_epoll_event : ℕ → EventLoop → FdEvent → EventLoop
unfolding add_task
add_epoll_event thread loop event =
    if loop.m_thread_id == thread
    then add_to_epoll loop event
    else add_task loop (add_later event.m_fd) true

unfoldable pub delete_epoll_event : ℕ → EventLoop → FdEvent → EventLoop
unfolding add_task
delete_epoll_event thread loop event =
    if loop.m_thread_id == thread
    then delete_from_epoll loop event
    else add_task loop (delete_later event.m_fd) true

unfoldable pub stop : EventLoop → EventLoop
unfolding wake_up
stop loop = wake_up (record loop { m_stop_flag = true })

-- One entry of `result_event`: the event that `data.ptr` points to, and the bits of `events`.
pub record Trigger : Type 0 where
  pub event : FdEvent
  pub is_in : Bool
  pub is_out : Bool
  pub is_err : Bool

-- `add_task` of a handler, behind a test.
abbrev pub add_handler : Bool → Option ℕ → EventLoop → EventLoop
add_handler b callback loop = if b then add_task loop (run callback) false else loop

-- The body of the `for` loop. The loop's own thread runs it.
unfoldable pub trigger : EventLoop → Trigger → EventLoop
unfolding add_task delete_epoll_event handler
trigger loop t =
    let loop' =
      add_handler t.is_out (handler t.event out_event)
        (add_handler t.is_in (handler t.event in_event) loop) in
    if t.is_err
    then (elim (handler t.event error_event) [
      | none ↦ delete_epoll_event loop'.m_thread_id loop' t.event
      | some callback ↦
          add_task (delete_epoll_event loop'.m_thread_id loop' t.event)
            (run (handler t.event out_event)) false
    ])
    else loop'

unfoldable pub triggers : EventLoop → List Trigger → EventLoop
unfolding trigger
triggers loop [] = loop
triggers loop (t ∷ ts) = triggers (trigger loop t) ts

abbrev pub g_epoll_max_events : ℕ
g_epoll_max_events = 10

module _ {W : Type 0} (exec : ℕ → W × EventLoop → W × EventLoop) (events : W → ℕ → FdEvent) where
  unfoldable pub run_task : W × EventLoop → Task → W × EventLoop
  run_task s (run none) = s
  run_task s (run (some callback)) = exec callback s
  run_task (w, loop) (add_later fd) = (w, add_to_epoll loop (events w fd))
  run_task (w, loop) (delete_later fd) = (w, delete_from_epoll loop (events w fd))

  -- `temp_tasks`, from the front.
  unfoldable pub run_tasks : W × EventLoop → List Task → W × EventLoop
  unfolding run_task
  run_tasks s [] = s
  run_tasks s (t ∷ ts) = run_tasks (run_task s t) ts

  -- The body of the `while` loop, with what `epoll_wait` returns (`none` below 0).
  unfoldable pub round : W × EventLoop → Option (List Trigger) → W × EventLoop
  unfolding run_tasks triggers
  round (w, loop) result =
      let (w', loop') = run_tasks (w, record loop { m_pending_tasks = [] }) loop.m_pending_tasks in
      elim result [
        | none ↦ (w', loop')
        | some ts ↦ (w', triggers loop' (take g_epoll_max_events ts))
      ]

  -- `loop`, for as many rounds as there are results.
  unfoldable pub rounds : W × EventLoop → List (Option (List Trigger)) → W × EventLoop
  unfolding round
  rounds s [] = s
  rounds s (r ∷ rs) = let rest = rounds (round s r) rs in if s.1.m_stop_flag then s else rest

  unfoldable pub loop : W × EventLoop → List (Option (List Trigger)) → W × EventLoop
  unfolding rounds
  loop (w, l) results = rounds (w, record l { m_is_looping = true }) results
