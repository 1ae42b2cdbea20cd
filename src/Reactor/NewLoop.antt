-- ===== src/Reactor/NewLoop.antt =====
-- src/net/eventloop.cc: the making of an event loop, and `Get_Current_Eventloop`. The descriptors that
-- the system returns are parameters, `none` where a call fails.
use tiny_rpc.Base.{
  ℕ, ◌+◌, ◌≡◌, ◌<◌, refl, [], Bool, false, Option, none, some, Ends, goes_on, exits, ◌>>>◌, arith,
  if◌then◌else◌,
}
use tiny_rpc.Reactor.FdEvent.{FdEvent, new_fd_event, in_event, listen}
use tiny_rpc.Reactor.EventLoop.{EventLoop, add_epoll_event}

abbrev pub wake_up_callback : ℕ
wake_up_callback = 3

abbrev pub on_timer_callback : ℕ
on_timer_callback = 4

-- The event of a descriptor that waits for input.
abbrev pub listening : ℕ → ℕ → FdEvent
listening fd callback = listen (new_fd_event fd) in_event (some callback) none

-- The members as the class initialises them.
abbrev pub empty_loop : ℕ → EventLoop
empty_loop thread = record {
  m_thread_id = thread;
  m_stop_flag = false;
  m_listen_fds = [];
  m_pending_tasks = [];
  m_is_looping = false;
  epoll_calls = [];
  wake_ups = 0;
}

unfoldable pub init_wakeup_fd_event : ℕ → EventLoop → Option ℕ → Ends EventLoop
init_wakeup_fd_event thread loop none = exits 1
init_wakeup_fd_event thread loop (some fd) =
    goes_on (add_epoll_event thread loop (listening fd wake_up_callback))

unfoldable pub init_timer : ℕ → EventLoop → ℕ → EventLoop
init_timer thread loop fd = add_epoll_event thread loop (listening fd on_timer_callback)

-- The constructor, on a thread whose `thread_current_eventloop` is there or not.
unfoldable pub new_event_loop : Bool → ℕ → Bool → Option ℕ → ℕ → Ends EventLoop
unfolding init_wakeup_fd_event init_timer
new_event_loop has_current thread epoll_created wakeup_fd timer_fd =
    if has_current
    then exits 0
    else if epoll_created
    then (init_wakeup_fd_event thread (empty_loop thread) wakeup_fd >>> λ loop.
        goes_on (init_timer thread loop timer_fd))
    else exits 0

-- The loops that a thread has made are numbered; `thread_current_eventloop` holds one of them, or null.
pub record ThreadLoops : Type 0 where
  pub thread_current_eventloop : Option ℕ
  pub made : ℕ

unfoldable pub make_current : ThreadLoops → ThreadLoops
make_current s = elim s.thread_current_eventloop [
  | none ↦ record { thread_current_eventloop = some s.made; made = s.made + 1 }
  | some loop ↦ s
]

-- `std::move` takes the pointer out of the variable.
unfoldable pub get_current_eventloop : ThreadLoops → Option ℕ × ThreadLoops
unfolding make_current
get_current_eventloop s =
    let s' = make_current s in
    (s'.thread_current_eventloop, record s' { thread_current_eventloop = none })

fresh :
    (current : Option ℕ) (made : ℕ)
    → ((loop : ℕ) → current ≡ some loop → loop < made)
    → let s : ThreadLoops = record { thread_current_eventloop = current; made = made } in
      let (first, s') = get_current_eventloop s in
      let (second, s'') = get_current_eventloop s' in
      (a : ℕ) × (b : ℕ) × (first ≡ some a) × (second ≡ some b) × (a < b)
unfolding get_current_eventloop make_current
fresh none made h = (made, made + 1, refl, refl, omega arith)
fresh (some loop) made h = (loop, made, refl, refl, h loop refl)

-- Two calls on one thread return two different loops, if the loop that the variable holds, if any, is one of those
-- that the thread has made.
get_current_eventloop_differs :
    (s : ThreadLoops)
    → ((loop : ℕ) → s.thread_current_eventloop ≡ some loop → loop < s.made)
    → let (first, s') = get_current_eventloop s in
      let (second, s'') = get_current_eventloop s' in
      (a : ℕ) × (b : ℕ) × (first ≡ some a) × (second ≡ some b) × (a < b)
get_current_eventloop_differs s h = fresh s.thread_current_eventloop s.made h
