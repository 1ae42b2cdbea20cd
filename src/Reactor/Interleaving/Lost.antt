-- ===== src/Reactor/Interleaving/Lost.antt =====
-- A task that is added behind the swap of the queue.
use tiny_rpc.Base.{ℕ, ◌≡◌, refl, [], ◌∷◌, ◌++◌, true, false, some}
use tiny_rpc.Reactor.FdEvent.{FdEvent}
use tiny_rpc.Reactor.EventLoop.{Task, run, add_task, wake_up}
use tiny_rpc.Reactor.NewLoop.{wake_up_callback}
use tiny_rpc.Reactor.WakeUp.{eagain, other_errno, is_eagain, EventFd, IsEventFd, wakeup_ready}
use tiny_rpc.Reactor.Interleaving.{
  runs, reads, waits, is_wake_up, Running, run_front, push_task, run_next, read_more, read_fails,
  begin_wait, push, write, Reach, next,
}
use tiny_rpc.Reactor.Interleaving.Order.{pending-run_front}

abbrev pub wake_up_task : Task
wake_up_task = run (some wake_up_callback)

module _ {C : Type 0} {k : EventFd C} (law : IsEventFd k) where
  -- Two reads empty a descriptor that is ready.
  pub read_twice :
      {o s : Running C}
      → Reach k o s
      → s.place ≡ reads
      → k.is_ready s.counter ≡ true
      → (c : C) × (k.is_ready c ≡ false)
        × Reach k o (record s { counter = c; has_read = true; place = runs })
  read_twice {o} {s} r e ready =
      let (c, first, empty) = law.counter.read_ready s.counter ready in
      (
        c,
        empty,
        next (next r (read_more s other_errno c e first (unfold is_eagain in refl)))
            (read_fails _ eagain c e (law.counter.read_empty c empty)),
      )

  -- Any state is left as it is but for the run of the descriptor's callback, up to the wait.
  read_and_wait :
      {o s : Running C} (events : ℕ → FdEvent)
      → Reach k o s
      → s.place ≡ runs
      → s.temp_tasks ≡ wake_up_task ∷ []
      → k.is_ready s.counter ≡ true
      → (u : Running C) × Reach k o u
        × (u.place ≡ waits)
        × (k.is_ready u.counter ≡ false)
        × (u.adding ≡ s.adding)
        × (u.loop.m_pending_tasks ≡ s.loop.m_pending_tasks)
  unfolding run_front is_wake_up
  read_and_wait {o} {s} events r e f ready =
      let (c, empty, r') = read_twice (next r (run_next events s wake_up_task [] e f)) refl ready in
      (
        _,
        next r' (begin_wait _ refl refl),
        refl,
        empty,
        refl,
        pending-run_front events s wake_up_task [],
      )

  -- A wake-up can be lost. From each reachable state in which the callback of the wake-up
  -- descriptor is what the loop has left to run, and no thread is adding a task, any task can
  -- be added and its wake-up be read again, so that the loop waits with the task in its queue,
  -- its descriptor not readable, and no thread about to write, whatever the shared events hold.
  pub lost_wake_up :
      {o s : Running C} (events : ℕ → FdEvent) (t : Task)
      → Reach k o s
      → s.place ≡ runs
      → s.temp_tasks ≡ wake_up_task ∷ []
      → s.adding ≡ false
      → (u : Running C) × Reach k o u
        × (u.place ≡ waits)
        × (k.is_ready u.counter ≡ false)
        × (u.adding ≡ false)
        × (u.loop.m_pending_tasks ≡ s.loop.m_pending_tasks ++ t ∷ [])
  unfolding push_task add_task wake_up
  lost_wake_up {o} {s} events t r e f a =
      read_and_wait events (next (next r (push s t a)) (write _ refl)) e f
        (wakeup_ready law s.counter)
