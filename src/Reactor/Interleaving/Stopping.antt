-- ===== src/Reactor/Interleaving/Stopping.antt =====
-- The end of the loop: what `stop` leaves.
use tiny_rpc.Base.{◌≡◌, refl, sym, ap, ◌∙◌, [], Bool, true, false}
use tiny_rpc.Reactor.EventLoop.{add_task, wake_up}
use tiny_rpc.Reactor.WakeUp.{EventFd}
use tiny_rpc.Reactor.Interleaving.Order.{not_both}
use tiny_rpc.Reactor.Interleaving.{
  LoopAt, runs, reads, waits, ended, Running, push_task, Step, end_loop, take_tasks, run_next,
  read_more, read_done, read_fails, begin_wait, wait_returns, handle, handled, push, write,
  set_stop_flag, wake, Reach, here, next,
}

-- From the wait on to the test of the flag, and behind the loop.
abbrev runs_nothing : LoopAt → Bool
runs_nothing runs = false
runs_nothing reads = false
runs_nothing _ = true

-- The loop has its flag set, runs nothing, and has run no more than `s`.
record IsStopped {C : Type 0} (s u : Running C) : Type 0 where
  flag : u.loop.m_stop_flag ≡ true
  place : runs_nothing u.place ≡ true
  ran : u.ran ≡ s.ran

module _ {C : Type 0} {k : EventFd C} where
  Step-IsStopped : {s t u : Running C} → Step k t u → IsStopped s t → IsStopped s u
  unfolding push_task add_task wake_up
  Step-IsStopped (end_loop t e f) h = record { flag = h.flag; place = refl; ran = h.ran }
  Step-IsStopped (take_tasks t e f a) h = absurd (not_both (sym h.flag ∙ f))
  Step-IsStopped (run_next events t task ts e f) h =
      absurd (not_both (sym h.place ∙ ap runs_nothing e))
  Step-IsStopped (read_more t errno c e r i) h = absurd (not_both (sym h.place ∙ ap runs_nothing e))
  Step-IsStopped (read_done t errno c e r i) h = absurd (not_both (sym h.place ∙ ap runs_nothing e))
  Step-IsStopped (read_fails t errno c e r) h = absurd (not_both (sym h.place ∙ ap runs_nothing e))
  Step-IsStopped (begin_wait t e f) h = absurd (not_both (sym h.place ∙ ap runs_nothing e))
  Step-IsStopped (wait_returns t ts e r) h = record { flag = h.flag; place = refl; ran = h.ran }
  Step-IsStopped (handle t task ts e a) h = record { flag = h.flag; place = refl; ran = h.ran }
  Step-IsStopped (handled t e) h = record { flag = h.flag; place = refl; ran = h.ran }
  Step-IsStopped (push t task a) h = record { flag = h.flag; place = h.place; ran = h.ran }
  Step-IsStopped (write t a) h = record { flag = h.flag; place = h.place; ran = h.ran }
  Step-IsStopped (set_stop_flag t) h = record { flag = refl; place = h.place; ran = h.ran }
  Step-IsStopped (wake t) h = record { flag = h.flag; place = h.place; ran = h.ran }

  Reach-IsStopped : {s u : Running C} → Reach k s u → IsStopped s s → IsStopped s u
  Reach-IsStopped here h = h
  Reach-IsStopped (next r step) h = Step-IsStopped step (Reach-IsStopped r h)

  -- Where the loop waits in epoll_wait and its stop flag is set, no callback begins any more,
  -- whatever the loop and other threads do from there on, and the loop can come to its end with
  -- its queue as it was: the tasks that are queued then are never run.
  pub stop_abandons :
      (s : Running C)
      → s.place ≡ waits
      → let stopped = record s { loop = record s.loop { m_stop_flag = true } } in
        Reach k s stopped
        × ((u : Running C) → Reach k stopped u → u.ran ≡ s.ran)
        × ((u : Running C) × Reach k stopped u
            × (u.place ≡ ended)
            × (u.loop.m_pending_tasks ≡ s.loop.m_pending_tasks))
  stop_abandons s e = (
    next here (set_stop_flag s),
    λ u r. (Reach-IsStopped r (record { flag = refl; place = ap runs_nothing e; ran = refl })).ran,
    (
      _,
      next (next (next here (wait_returns _ [] e (λ n. absurd cc))) (handled _ refl))
          (end_loop _ refl refl),
      refl,
      refl,
    ),
  )
