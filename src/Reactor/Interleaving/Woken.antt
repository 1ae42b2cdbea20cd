-- ===== src/Reactor/Interleaving/Woken.antt =====
-- When the loop waits although tasks are queued.
use tiny_rpc.Base.{ℕ, ◌≡◌, refl, sym, ap, ◌∙◌, List, [], Bool, true, false}
use tiny_rpc.Reactor.FdEvent.{FdEvent}
use tiny_rpc.Reactor.EventLoop.{EventLoop, Task, add_task, wake_up}
use tiny_rpc.Reactor.WakeUp.{EventFd, IsEventFd, wakeup_ready}
use tiny_rpc.Reactor.Interleaving.{
  LoopAt, runs, reads, waits, Running, started, run_front, push_task, Step, end_loop, take_tasks,
  run_next, read_more, read_done, read_fails, begin_wait, wait_returns, handle, handled, push,
  write, set_stop_flag, wake, Reach, here, next,
}
use tiny_rpc.Reactor.Interleaving.Order.{pending-run_front}

-- Why a queue that is not empty is seen to: its descriptor is readable, or will be. The last case is
-- the one without such a reason.
pub data Cause {C : Type 0} (k : EventFd C) (s : Running C) : Type 0 where
  nothing_queued : s.loop.m_pending_tasks ≡ [] → Cause k s
  being_added : s.adding ≡ true → Cause k s
  descriptor_ready : k.is_ready s.counter ≡ true → Cause k s
  descriptor_read : s.has_read ≡ true → Cause k s

-- From the swap to the return of `epoll_wait`.
abbrev after_swap : LoopAt → Bool
after_swap runs = true
after_swap reads = true
after_swap waits = true
after_swap _ = false

IsSeen : {C : Type 0} → EventFd C → Running C → Type 0
IsSeen k s = after_swap s.place ≡ true → Cause k s

pushed :
    {C : Type 0} {k : EventFd C} {s : Running C} {loop : EventLoop} {place : LoopAt}
    → s.loop.m_pending_tasks ≡ loop.m_pending_tasks
    → Cause k s
    → Cause k (record s { loop = loop; place = place })
pushed e (nothing_queued f) = nothing_queued (sym e ∙ f)
pushed e (being_added f) = being_added f
pushed e (descriptor_ready f) = descriptor_ready f
pushed e (descriptor_read f) = descriptor_read f

ran_front :
    {C : Type 0} {k : EventFd C} (events : ℕ → FdEvent) (s : Running C) (t : Task) (ts : List Task)
    → Cause k s
    → Cause k (run_front events s t ts)
unfolding run_front
ran_front events s t ts (nothing_queued f) = nothing_queued (pending-run_front events s t ts ∙ f)
ran_front events s t ts (being_added f) = being_added f
ran_front events s t ts (descriptor_ready f) = descriptor_ready f
ran_front events s t ts (descriptor_read f) = descriptor_read f

module _ {C : Type 0} {k : EventFd C} (law : IsEventFd k) where
  Step-IsSeen : {s u : Running C} → Step k s u → IsSeen k s → IsSeen k u
  unfolding IsSeen push_task add_task wake_up
  Step-IsSeen (end_loop s e f) h n = absurd cc
  Step-IsSeen (take_tasks s e f a) h n = nothing_queued refl
  Step-IsSeen (run_next events s t ts e f) h n = ran_front events s t ts (h (ap after_swap e))
  Step-IsSeen (read_more s errno c e r i) h n = descriptor_read refl
  Step-IsSeen (read_done s errno c e r i) h n = descriptor_read refl
  Step-IsSeen (read_fails s errno c e r) h n = descriptor_read refl
  Step-IsSeen (begin_wait s e f) h n = pushed refl (h (ap after_swap e))
  Step-IsSeen (wait_returns s ts e r) h n = absurd cc
  Step-IsSeen (handle s t ts e a) h n = absurd cc
  Step-IsSeen (handled s e) h n = absurd cc
  Step-IsSeen (push s t a) h n = being_added refl
  Step-IsSeen (write s a) h n = descriptor_ready (wakeup_ready law s.counter)
  Step-IsSeen (set_stop_flag s) h n = pushed refl (h n)
  Step-IsSeen (wake s) h n = descriptor_ready (wakeup_ready law s.counter)

  Reach-IsSeen :
      (thread : ℕ) (counter : C) {s : Running C} → Reach k (started thread counter) s → IsSeen k s
  unfolding IsSeen
  Reach-IsSeen thread counter here n = absurd cc
  Reach-IsSeen thread counter (next r step) n = Step-IsSeen step (Reach-IsSeen thread counter r) n

  -- However the steps of the event loop and of other threads fall: where the loop waits in
  -- epoll_wait and tasks are queued, its wake-up descriptor is readable, or a thread is about
  -- to write to it, or the callback of the descriptor has read it since the queue was taken.
  pub waiting-Cause :
      (thread : ℕ) (counter : C) {s : Running C}
      → Reach k (started thread counter) s
      → s.place ≡ waits
      → Cause k s
  unfolding IsSeen
  waiting-Cause thread counter r e = Reach-IsSeen thread counter r (ap after_swap e)
