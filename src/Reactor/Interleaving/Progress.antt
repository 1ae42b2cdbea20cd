-- ===== src/Reactor/Interleaving/Progress.antt =====
-- What the loop does by itself once `epoll_wait` returns, at the latest after its time-out.
use tiny_rpc.Base.{
  ℕ, ◌≡◌, refl, sym, ap, ◌∙◌, List, [], ◌∷◌, ◌++◌, true, false, if◌then◌else◌, Bool-cases, inl, inr,
  append-nil, append_assoc,
}
use tiny_rpc.Reactor.FdEvent.{FdEvent}
use tiny_rpc.Reactor.EventLoop.{Task}
use tiny_rpc.Reactor.Queue.{callbacks}
use tiny_rpc.Reactor.WakeUp.{eagain, EventFd, IsEventFd}
use tiny_rpc.Reactor.Interleaving.{
  runs, reads, waits, is_wake_up, Running, run_front, take_tasks, run_next, read_fails, begin_wait,
  wait_returns, handled, Reach, next,
}
use tiny_rpc.Reactor.Interleaving.Order.{callbacks-cons, run_task_lem}
use tiny_rpc.Reactor.Interleaving.Lost.{read_twice}

-- The state `u` has run the callbacks `cs` more than `s`, with the same queue and the same tasks added.
pub record HasRun {C : Type 0} (s : Running C) (cs : List ℕ) (u : Running C) : Type 0 where
  pub ran : u.ran ≡ s.ran ++ cs
  pub added : u.added ≡ s.added
  pub queue : u.loop.m_pending_tasks ≡ s.loop.m_pending_tasks

module _ {C : Type 0} {k : EventFd C} (law : IsEventFd k) (events : ℕ → FdEvent) where
  -- The callback of the descriptor comes to its end, with the rest of the state as it is.
  read_all :
      {o s : Running C}
      → Reach k o s
      → s.place ≡ reads
      → (c : C) × Reach k o (record s { counter = c; has_read = true; place = runs })
  read_all {o} {s} r e = elim (Bool-cases (k.is_ready s.counter)) [
    | inl ready ↦ let (c, _, r') = read_twice law r e ready in (c, r')
    | inr empty ↦ (s.counter, next r (read_fails s eagain _ e (law.counter.read_empty _ empty)))
  ]

  -- One task, the reads of the descriptor included.
  run_one :
      {o s : Running C} (t : Task) (ts : List Task)
      → Reach k o s
      → s.place ≡ runs
      → s.temp_tasks ≡ t ∷ ts
      → (u : Running C) × Reach k o u
        × (u.place ≡ runs)
        × (u.temp_tasks ≡ ts)
        × HasRun s (callbacks (t ∷ [])) u
  unfolding run_front
  run_one {o} {s} t ts r e f =
      let (w, l) = run_task_lem events s.ran s.loop t in
      let after = next r (run_next events s t ts e f) in
      elim (Bool-cases (is_wake_up t)) [
        | inl y ↦
            let (c, r') = read_all after (ap (λ b. if b then reads else runs) y) in
            (_, r', refl, refl, record { ran = w; added = refl; queue = l })
        | inr n ↦ (
          _,
          after,
          ap (λ b. if b then reads else runs) n,
          refl,
          record { ran = w; added = refl; queue = l },
        )
      ]

  run_all :
      {o : Running C} (ts : List Task) {s : Running C}
      → Reach k o s
      → s.place ≡ runs
      → s.temp_tasks ≡ ts
      → (u : Running C) × Reach k o u
        × (u.place ≡ runs)
        × (u.temp_tasks ≡ [])
        × HasRun s (callbacks ts) u
  run_all {o} [] {s} r e f =
      (s, r, e, f, record { ran = sym (append-nil s.ran); added = refl; queue = refl })
  run_all {o} (t ∷ ts) {s} r e f =
      let (u, r', e', f', h) = run_one t ts r e f in
      let (v, r'', e'', f'', h') = run_all ts r' e' f' in
      (
        v,
        r'',
        e'',
        f'',
        record {
          ran =
              h'.ran
              ∙ ap (λ xs. xs ++ callbacks ts) h.ran
              ∙ append_assoc s.ran (callbacks (t ∷ [])) (callbacks ts)
              ∙ ap (λ xs. s.ran ++ xs) (sym (callbacks-cons t ts));
          added = h'.added ∙ h.added;
          queue = h'.queue ∙ h.queue;
        },
      )

  -- From each reachable state in which the loop waits, is not stopped, and no thread is adding
  -- a task, the loop can go on, without a task being added, to wait again with an empty queue,
  -- having run the callbacks that were queued, each once and in order, whatever the shared
  -- events hold.
  pub queue_runs :
      {o s : Running C}
      → Reach k o s
      → s.place ≡ waits
      → s.loop.m_stop_flag ≡ false
      → s.adding ≡ false
      → (u : Running C) × Reach k o u
        × (u.place ≡ waits)
        × (u.ran ≡ s.ran ++ callbacks s.loop.m_pending_tasks)
        × (u.added ≡ s.added)
        × (u.loop.m_pending_tasks ≡ [])
  queue_runs {o} {s} r e go a =
      let timed_out = wait_returns s [] e (λ n. absurd cc) in
      let taken = next (next (next r timed_out) (handled _ refl)) (take_tasks _ refl go a) in
      let (u, r', e', f', h) = run_all s.loop.m_pending_tasks taken refl refl in
      (_, next r' (begin_wait u e' f'), refl, h.ran, h.added, h.queue)
