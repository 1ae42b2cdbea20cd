-- ===== src/Reactor/Interleaving.antt =====
-- src/net/eventloop.cc: the event loop beside other threads that add tasks, in any order of their
-- steps. `add_task` holds `m_mtx` while it writes to the wake-up descriptor; the callback that reads
-- the descriptor, and `epoll_wait`, run without it. What `trigger` queues is a list of tasks, and the
-- callbacks but the one of the descriptor only record themselves.
pub mod Order
pub mod Woken
pub mod Lost
pub mod Progress
pub mod Stopping
use tiny_rpc.Base.{
  ℕ, ◌≡◌, List, [], ◌∷◌, ◌++◌, Bool, true, false, ◌||◌, Option, none, some, ◌==◌, if◌then◌else◌,
}
use tiny_rpc.Reactor.FdEvent.{FdEvent}
use tiny_rpc.Reactor.EventLoop.{
  Task, run, add_later, delete_later, EventLoop, add_task, wake_up, run_task,
}
use tiny_rpc.Reactor.NewLoop.{wake_up_callback, empty_loop}
use tiny_rpc.Reactor.Queue.{record_callback}
use tiny_rpc.Reactor.WakeUp.{Errno, is_eagain, EventFd, wakeup}

-- Where the thread of the loop stands.
pub data LoopAt : Type 0 where
  tests runs reads waits ended : LoopAt
  handles : List Task → LoopAt

-- `adding` says that another thread has pushed its task in `add_task`, and has not written yet. `ran`
-- and `added` are the callbacks that have begun, and the tasks that were pushed; `has_read` says that
-- the descriptor was read since the queue was taken.
pub record Running (C : Type 0) : Type 0 where
  pub loop : EventLoop
  pub counter : C
  pub place : LoopAt
  pub temp_tasks : List Task
  pub adding : Bool
  pub ran : List ℕ
  pub added : List Task
  pub has_read : Bool

abbrev pub started : {C : Type 0} → ℕ → C → Running C
started thread counter = record {
  loop = empty_loop thread;
  counter = counter;
  place = tests;
  temp_tasks = [];
  adding = false;
  ran = [];
  added = [];
  has_read = false;
}

unfoldable pub is_wake_up : Task → Bool
is_wake_up (run (some c)) = c == wake_up_callback
is_wake_up (run none) = false
is_wake_up (add_later e) = false
is_wake_up (delete_later e) = false

abbrev pub has_wake_up : List Task → Bool
has_wake_up [] = false
has_wake_up (t ∷ ts) = is_wake_up t || has_wake_up ts

-- One task from the front of `temp_tasks`, with what the shared events hold then.
unfoldable pub run_front : {C : Type 0} → (ℕ → FdEvent) → Running C → Task → List Task → Running C
unfolding run_task is_wake_up
run_front events s t ts =
    let (ran, loop) = run_task record_callback (λ _. events) (s.ran, s.loop) t in
    record s {
      ran = ran;
      loop = loop;
      temp_tasks = ts;
      place = if is_wake_up t then reads else runs;
    }

unfoldable pub push_task : {C : Type 0} → Running C → Task → Running C
unfolding add_task
push_task s t = record s { loop = add_task s.loop t false; added = s.added ++ t ∷ [] }

pub data Step {C : Type 0} (k : EventFd C) : Running C → Running C → Type 0 where
  end_loop :
      (s : Running C)
      → s.place ≡ tests
      → s.loop.m_stop_flag ≡ true
      → Step k s (record s { place = ended })
  take_tasks :
      (s : Running C)
      → s.place ≡ tests
      → s.loop.m_stop_flag ≡ false
      → s.adding ≡ false
      → Step k s (record s {
        loop = record s.loop { m_pending_tasks = [] };
        temp_tasks = s.loop.m_pending_tasks;
        place = runs;
        has_read = false;
      })
  run_next :
      (events : ℕ → FdEvent) (s : Running C) (t : Task) (ts : List Task)
      → s.place ≡ runs
      → s.temp_tasks ≡ t ∷ ts
      → Step k s (run_front events s t ts)
  read_more :
      (s : Running C) (errno : Errno) (c : C)
      → s.place ≡ reads
      → k.read s.counter ≡ (none, c)
      → is_eagain errno ≡ false
      → Step k s (record s { counter = c; has_read = true })
  read_done :
      (s : Running C) (errno : Errno) (c : C)
      → s.place ≡ reads
      → k.read s.counter ≡ (none, c)
      → is_eagain errno ≡ true
      → Step k s (record s { counter = c; has_read = true; place = runs })
  read_fails :
      (s : Running C) (errno : Errno) (c : C)
      → s.place ≡ reads
      → k.read s.counter ≡ (some errno, c)
      → Step k s (record s { counter = c; has_read = true; place = runs })
  begin_wait :
      (s : Running C) → s.place ≡ runs → s.temp_tasks ≡ [] → Step k s (record s { place = waits })
  wait_returns :
      (s : Running C) (ts : List Task)
      → s.place ≡ waits
      → (has_wake_up ts ≡ true → k.is_ready s.counter ≡ true)
      → Step k s (record s { place = handles ts })
  handle :
      (s : Running C) (t : Task) (ts : List Task)
      → s.place ≡ handles (t ∷ ts)
      → s.adding ≡ false
      → Step k s (record (push_task s t) { place = handles ts })
  handled : (s : Running C) → s.place ≡ handles [] → Step k s (record s { place = tests })
  push :
      (s : Running C) (t : Task)
      → s.adding ≡ false
      → Step k s (record (push_task s t) { adding = true })
  write :
      (s : Running C)
      → s.adding ≡ true
      → Step k s (record s { loop = wake_up s.loop; counter = wakeup k s.counter; adding = false })
  set_stop_flag :
      (s : Running C) → Step k s (record s { loop = record s.loop { m_stop_flag = true } })
  wake :
      (s : Running C) → Step k s (record s { loop = wake_up s.loop; counter = wakeup k s.counter })

-- The states that the loop reaches from `s`.
pub data Reach {C : Type 0} (k : EventFd C) (s : Running C) : Running C → Type 0 where
  here : Reach k s s
  next : {t u : Running C} → Reach k s t → Step k t u → Reach k s u
