-- ===== src/Reactor/Epoll.antt =====
-- The set `m_listen_fds` against the kernel: no `epoll_ctl` call is refused for a descriptor that is
-- already, or not yet, in the interest list.
use tiny_rpc.Base.{
  ℕ, ◌≡◌, refl, ◌∙◌, inl, inr, List, [], ◌∷◌, ◌++◌, Bool, true, false, Option, none, some, ◌==◌,
  if◌then◌else◌, take, Bool-cases,
}
use tiny_rpc.Reactor.FdEvent.{FdEvent, in_event, out_event, error_event, handler}
use tiny_rpc.Reactor.EventLoop.{
  EpollOp, epoll_ctl_add, epoll_ctl_mod, epoll_ctl_del, EpollCtl, Task, run, add_later,
  delete_later, EventLoop, has_fd, insert_fd, erase_fd, add_to_epoll, delete_from_epoll, add_task,
  delete_epoll_event, Trigger, trigger, triggers, run_task, run_tasks, round, rounds, loop,
  add_handler,
}

-- `epoll_ctl` on the interest list of the kernel: ADD wants a new descriptor (else EEXIST), MOD and
-- DEL a known one (else ENOENT).
abbrev pub kernel_op : EpollOp → ℕ → List ℕ → Option (List ℕ)
kernel_op epoll_ctl_add fd fds = if has_fd fd fds then none else some (fd ∷ fds)
kernel_op epoll_ctl_mod fd fds = if has_fd fd fds then some fds else none
kernel_op epoll_ctl_del fd fds = if has_fd fd fds then some (erase_fd fd fds) else none

abbrev pub kernel_step : EpollCtl → List ℕ → Option (List ℕ)
kernel_step c fds = kernel_op c.op c.fd fds

abbrev pub kernel_steps : Option (List ℕ) → List EpollCtl → Option (List ℕ)
kernel_steps fds [] = fds
kernel_steps none (c ∷ cs) = none
kernel_steps (some fds) (c ∷ cs) = kernel_steps (kernel_step c fds) cs

-- The kernel accepts all calls of the loop so far, and its list is then `m_listen_fds`.
pub record IsConsistent (l : EventLoop) : Type 0 where
  pub agreed : kernel_steps (some []) l.epoll_calls ≡ some l.m_listen_fds

kernel_steps-nil : (o : Option (List ℕ)) → kernel_steps o [] ≡ o
kernel_steps-nil none = refl
kernel_steps-nil (some fds) = refl

kernel_steps-snoc :
    (o : Option (List ℕ)) (cs : List EpollCtl) (c : EpollCtl) (fds : List ℕ)
    → kernel_steps o cs ≡ some fds
    → kernel_steps o (cs ++ c ∷ []) ≡ kernel_step c fds
kernel_steps-snoc none [] c fds h = cc
kernel_steps-snoc (some xs) [] c fds h =
    let e : xs ≡ fds = cc in rw e (kernel_steps-nil (kernel_step c fds))
kernel_steps-snoc none (d ∷ cs) c fds h = cc
kernel_steps-snoc (some xs) (d ∷ cs) c fds h = kernel_steps-snoc (kernel_step d xs) cs c fds h

pub add_to_epoll-IsConsistent :
    {l : EventLoop} (e : FdEvent) → IsConsistent l → IsConsistent (add_to_epoll l e)
unfolding add_to_epoll insert_fd
add_to_epoll-IsConsistent {l} e h = elim (Bool-cases (has_fd e.m_fd l.m_listen_fds)) [
  | inl p ↦ rw p (record {
    agreed = kernel_steps-snoc (some []) l.epoll_calls _ l.m_listen_fds h.agreed ∙ rw p;
  })
  | inr p ↦ rw p (record {
    agreed = kernel_steps-snoc (some []) l.epoll_calls _ l.m_listen_fds h.agreed ∙ rw p;
  })
]

pub delete_from_epoll-IsConsistent :
    {l : EventLoop} (e : FdEvent) → IsConsistent l → IsConsistent (delete_from_epoll l e)
unfolding delete_from_epoll
delete_from_epoll-IsConsistent {l} e h = elim (Bool-cases (has_fd e.m_fd l.m_listen_fds)) [
  | inl p ↦ rw p (record {
    agreed = kernel_steps-snoc (some []) l.epoll_calls _ l.m_listen_fds h.agreed ∙ rw p;
  })
  | inr p ↦ rw p h
]

add_task-IsConsistent :
    {l : EventLoop} (t : Task) (b : Bool) → IsConsistent l → IsConsistent (add_task l t b)
unfolding add_task
add_task-IsConsistent t true h = record { agreed = h.agreed }
add_task-IsConsistent t false h = record { agreed = h.agreed }

pub delete_epoll_event-IsConsistent :
    {l : EventLoop} (thread : ℕ) (e : FdEvent)
    → IsConsistent l
    → IsConsistent (delete_epoll_event thread l e)
unfolding delete_epoll_event
delete_epoll_event-IsConsistent {l} thread e h = elim (Bool-cases (l.m_thread_id == thread)) [
  | inl p ↦ rw p (delete_from_epoll-IsConsistent e h)
  | inr p ↦ rw p (add_task-IsConsistent (delete_later e.m_fd) true h)
]

add_handler-IsConsistent :
    {l : EventLoop} (b : Bool) (f : Option ℕ) → IsConsistent l → IsConsistent (add_handler b f l)
add_handler-IsConsistent true f h = add_task-IsConsistent (run f) false h
add_handler-IsConsistent false f h = h

error_step :
    {l : EventLoop} (e : FdEvent) (f : Option ℕ)
    → IsConsistent l
    → IsConsistent (elim f [
      | none ↦ delete_epoll_event l.m_thread_id l e
      | some callback ↦
          add_task (delete_epoll_event l.m_thread_id l e) (run (handler e out_event)) false
    ])
error_step {l} e none h = delete_epoll_event-IsConsistent l.m_thread_id e h
error_step {l} e (some callback) h =
    add_task-IsConsistent (run (handler e out_event)) false
      (delete_epoll_event-IsConsistent l.m_thread_id e h)

trigger-IsConsistent : {l : EventLoop} (t : Trigger) → IsConsistent l → IsConsistent (trigger l t)
unfolding trigger
trigger-IsConsistent {l} t h =
    let h' =
      add_handler-IsConsistent t.is_out (handler t.event out_event)
        (add_handler-IsConsistent t.is_in (handler t.event in_event) h) in
    elim (Bool-cases t.is_err) [
      | inl p ↦ rw p (error_step t.event (handler t.event error_event) h')
      | inr p ↦ rw p h'
    ]

triggers-IsConsistent :
    (l : EventLoop) (ts : List Trigger) → IsConsistent l → IsConsistent (triggers l ts)
unfolding triggers
triggers-IsConsistent l [] h = h
triggers-IsConsistent l (t ∷ ts) h =
    triggers-IsConsistent (trigger l t) ts (trigger-IsConsistent t h)

IsConsistent-if :
    {W : Type 0} (b : Bool) (s t : W × EventLoop)
    → IsConsistent s.1
    → IsConsistent t.1
    → IsConsistent (if b then s else t).1
IsConsistent-if true s t h k = h
IsConsistent-if false s t h k = k

module _ {W : Type 0} (exec : ℕ → W × EventLoop → W × EventLoop) (events : W → ℕ → FdEvent)
    (keep : (c : ℕ) (s : W × EventLoop) → IsConsistent s.1 → IsConsistent (exec c s).1) where
  run_task-IsConsistent :
      (s : W × EventLoop) (t : Task) → IsConsistent s.1 → IsConsistent (run_task exec events s t).1
  unfolding run_task
  run_task-IsConsistent s (run none) h = h
  run_task-IsConsistent s (run (some c)) h = keep c s h
  run_task-IsConsistent s (add_later fd) h = add_to_epoll-IsConsistent (events s.0 fd) h
  run_task-IsConsistent s (delete_later fd) h = delete_from_epoll-IsConsistent (events s.0 fd) h

  run_tasks-IsConsistent :
      (s : W × EventLoop) (ts : List Task)
      → IsConsistent s.1
      → IsConsistent (run_tasks exec events s ts).1
  unfolding run_tasks
  run_tasks-IsConsistent s [] h = h
  run_tasks-IsConsistent s (t ∷ ts) h =
      run_tasks-IsConsistent (run_task exec events s t) ts (run_task-IsConsistent s t h)

  round-IsConsistent :
      (s : W × EventLoop) (r : Option (List Trigger))
      → IsConsistent s.1
      → IsConsistent (round exec events s r).1
  unfolding round
  round-IsConsistent (w, l) none h =
      run_tasks-IsConsistent (w, record l { m_pending_tasks = [] }) l.m_pending_tasks
        (record { agreed = h.agreed })
  round-IsConsistent (w, l) (some ts) h = triggers-IsConsistent _ (take 10 ts) (
      run_tasks-IsConsistent (w, record l { m_pending_tasks = [] }) l.m_pending_tasks
        (record { agreed = h.agreed }))

  rounds-IsConsistent :
      (s : W × EventLoop) (rs : List (Option (List Trigger)))
      → IsConsistent s.1
      → IsConsistent (rounds exec events s rs).1
  unfolding rounds
  rounds-IsConsistent s [] h = h
  rounds-IsConsistent s (r ∷ rs) h =
      IsConsistent-if s.1.m_stop_flag s (rounds exec events (round exec events s r) rs) h
        (rounds-IsConsistent (round exec events s r) rs (round-IsConsistent s r h))

  -- Whatever epoll_wait returns, round for round, the event loop keeps its descriptor set equal
  -- to the kernel's interest list, and the kernel accepts every epoll_ctl call, if the
  -- callbacks that run keep this.
  pub loop-IsConsistent :
      (w : W) (l : EventLoop) (rs : List (Option (List Trigger)))
      → IsConsistent l
      → IsConsistent (loop exec events (w, l) rs).1
  unfolding loop
  loop-IsConsistent w l rs h =
      rounds-IsConsistent (w, record l { m_is_looping = true }) rs (record { agreed = h.agreed })
