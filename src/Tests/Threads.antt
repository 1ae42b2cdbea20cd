-- ===== src/Tests/Threads.antt =====
-- The event loop beside other threads.
use tiny_rpc.Base.{
  ℕ, ◌+◌, ◌≡◌, refl, [], ◌∷◌, ◌++◌, true, false, Option, some, none, arith, ltb, if◌then◌else◌, ap,
}
use tiny_rpc.Reactor.FdEvent.{new_fd_event}
use tiny_rpc.Reactor.EventLoop.{run, add_task, wake_up, run_task}
use tiny_rpc.Reactor.NewLoop.{empty_loop}
use tiny_rpc.Reactor.Queue.{callbacks}
use tiny_rpc.Reactor.WakeUp.{Errno, eagain, EventFd, IsEventFd, little_endian, wakeup}
use tiny_rpc.Reactor.Interleaving.{
  runs, waits, ended, is_wake_up, Running, started, run_front, push_task, take_tasks, run_next,
  begin_wait, wait_returns, handle, handled, push, write, Reach, here, next,
}
use tiny_rpc.Reactor.Interleaving.Order.{IsFifo, Reach-IsFifo}
use tiny_rpc.Reactor.Interleaving.Woken.{Cause, waiting-Cause}
use tiny_rpc.Reactor.Interleaving.Lost.{wake_up_task, lost_wake_up}
use tiny_rpc.Reactor.Interleaving.Stopping.{stop_abandons}
use tiny_rpc.Reactor.Interleaving.Progress.{queue_runs}

-- A counter that is a number.
abbrev read_counter : ℕ → Option Errno × ℕ
read_counter c = if ltb 0 c then (none, 0) else (some eagain, c)

abbrev counter_fd : EventFd ℕ
counter_fd = record {
  is_ready = λ c. ltb 0 c;
  write = λ bytes c. c + little_endian bytes;
  read = read_counter;
}

counter_fd-IsEventFd : IsEventFd counter_fd
counter_fd-IsEventFd = record {
  counter = record {
    read_ready = λ c e. (0, ap (λ b. if b then (none, 0) else (some eagain, c)) e, refl);
    read_empty = λ c e. ap (λ b. if b then (none, 0) else (some eagain, c)) e;
  };
  write_ready = λ bytes c e h b. ground arith;
}

-- The loop waits; another thread has added the callback 7 and written.
abbrev sleeping : Running ℕ
sleeping = record (started 1 97) {
  loop = record (empty_loop 1) { m_pending_tasks = run (some 7) ∷ []; wake_ups = 1 };
  place = waits;
  added = run (some 7) ∷ [];
}

sleeping-Reach : Reach counter_fd (started 1 0) sleeping
unfolding push_task add_task wake_up wakeup
sleeping-Reach =
    next
      (next (next (next here (take_tasks _ refl refl refl)) (begin_wait _ refl refl))
        (push _ (run (some 7)) refl))
      (write _ refl)

waiting-Cause_example : Cause counter_fd sleeping
waiting-Cause_example = waiting-Cause counter_fd-IsEventFd 1 0 sleeping-Reach refl

queue_runs_example :
    (u : Running ℕ) × Reach counter_fd (started 1 0) u
    × (u.place ≡ waits)
    × (u.ran ≡ [] ++ callbacks (run (some 7) ∷ []))
    × (u.added ≡ run (some 7) ∷ [])
    × (u.loop.m_pending_tasks ≡ [])
queue_runs_example = queue_runs counter_fd-IsEventFd new_fd_event sleeping-Reach refl refl refl

-- The loop has run the callback 7, and comes to the one of the descriptor.
abbrev woken : Running ℕ
woken = record sleeping {
  loop = record (empty_loop 1) { wake_ups = 1 };
  place = runs;
  temp_tasks = wake_up_task ∷ [];
  ran = 7 ∷ [];
  added = run (some 7) ∷ wake_up_task ∷ [];
}

woken-Reach : Reach counter_fd (started 1 0) woken
unfolding push_task add_task run_front run_task is_wake_up
woken-Reach =
    let returned = next sleeping-Reach (wait_returns _ (wake_up_task ∷ []) refl (λ e. refl)) in
    let queued = next (next returned (handle _ wake_up_task [] refl refl)) (handled _ refl) in
    next (next queued (take_tasks _ refl refl refl))
      (run_next new_fd_event _ (run (some 7)) (wake_up_task ∷ []) refl refl)

Reach-IsFifo_example : IsFifo woken
Reach-IsFifo_example = Reach-IsFifo 1 0 woken-Reach

lost_wake_up_example :
    (u : Running ℕ) × Reach counter_fd (started 1 0) u
    × (u.place ≡ waits)
    × (ltb 0 u.counter ≡ false)
    × (u.adding ≡ false)
    × (u.loop.m_pending_tasks ≡ [] ++ run (some 8) ∷ [])
lost_wake_up_example =
    lost_wake_up counter_fd-IsEventFd new_fd_event (run (some 8)) woken-Reach refl refl refl

stop_abandons_example :
    let stopped = record sleeping { loop = record sleeping.loop { m_stop_flag = true } } in
    Reach counter_fd sleeping stopped
    × ((u : Running ℕ) → Reach counter_fd stopped u → u.ran ≡ [])
    × ((u : Running ℕ) × Reach counter_fd stopped u
        × (u.place ≡ ended)
        × (u.loop.m_pending_tasks ≡ run (some 7) ∷ []))
stop_abandons_example = stop_abandons sleeping refl
