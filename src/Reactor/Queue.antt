-- ===== src/Reactor/Queue.antt =====
-- The task queue of the loop: order, and what `epoll_wait` adds to it.
use tiny_rpc.Base.{
  ℕ, ◌≡◌, refl, sym, ap, ◌∙◌, List, [], ◌∷◌, ◌++◌, Bool, true, false, Option, none, some, arith,
  if◌then◌else◌, take, append-nil, append_assoc,
}
use tiny_rpc.Reactor.FdEvent.{FdEvent, in_event, out_event, error_event, handler}
use tiny_rpc.Reactor.EventLoop.{
  Task, run, add_later, delete_later, EventLoop, delete_from_epoll, add_to_epoll, add_task,
  delete_epoll_event, Trigger, trigger, triggers, run_task, run_tasks, round, add_handler,
}

-- The callbacks among the tasks, in order.
abbrev pub callbacks : List Task → List ℕ
callbacks [] = []
callbacks (run (some c) ∷ ts) = c ∷ callbacks ts
callbacks (run none ∷ ts) = callbacks ts
callbacks (add_later e ∷ ts) = callbacks ts
callbacks (delete_later e ∷ ts) = callbacks ts

-- The tasks of one triggered event. An error with an error callback queues the write callback.
abbrev pub when : Bool → Option ℕ → List Task
when b f = if b then run f ∷ [] else []

abbrev pub error_tasks : FdEvent → Option ℕ → List Task
error_tasks e none = []
error_tasks e (some c) = run (handler e out_event) ∷ []

abbrev pub tasks_of : Trigger → List Task
tasks_of t =
    when t.is_in (handler t.event in_event)
    ++ (when t.is_out (handler t.event out_event)
        ++ (if t.is_err then error_tasks t.event (handler t.event error_event) else []))

abbrev pub tasks_of_all : List Trigger → List Task
tasks_of_all [] = []
tasks_of_all (t ∷ ts) = tasks_of t ++ tasks_of_all ts

-- A callback that is recorded, and leaves the loop alone.
abbrev pub record_callback : ℕ → List ℕ × EventLoop → List ℕ × EventLoop
record_callback c (w, l) = (w ++ c ∷ [], l)

pending-delete :
    (l : EventLoop) (e : FdEvent)
    → (delete_epoll_event l.m_thread_id l e).m_pending_tasks ≡ l.m_pending_tasks
unfolding delete_epoll_event delete_from_epoll
pending-delete l e = ground arith

pending-delete_from :
    (l : EventLoop) (e : FdEvent) → (delete_from_epoll l e).m_pending_tasks ≡ l.m_pending_tasks
unfolding delete_from_epoll
pending-delete_from l e = ground arith

pending-add_handler :
    (b : Bool) (f : Option ℕ) (l : EventLoop)
    → (add_handler b f l).m_pending_tasks ≡ l.m_pending_tasks ++ when b f
unfolding add_task
pending-add_handler true f l = refl
pending-add_handler false f l = sym (append-nil l.m_pending_tasks)

-- What `trigger` does after the two handlers.
pending-error :
    (l : EventLoop) (e : FdEvent) (b : Bool) (f : Option ℕ)
    → (if b
        then (elim f [
          | none ↦ delete_epoll_event l.m_thread_id l e
          | some callback ↦
              add_task (delete_epoll_event l.m_thread_id l e) (run (handler e out_event)) false
        ])
        else l).m_pending_tasks
      ≡ l.m_pending_tasks ++ (if b then error_tasks e f else [])
unfolding add_task
pending-error l e false f = sym (append-nil l.m_pending_tasks)
pending-error l e true none = pending-delete l e ∙ sym (append-nil l.m_pending_tasks)
pending-error l e true (some c) =
    ap (λ ts. ts ++ run (handler e out_event) ∷ []) (pending-delete l e)

pending-trigger :
    (l : EventLoop) (t : Trigger) → (trigger l t).m_pending_tasks ≡ l.m_pending_tasks ++ tasks_of t
unfolding trigger
pending-trigger l t =
    let f = handler t.event in_event in
    let g = handler t.event out_event in
    let l₁ = add_handler t.is_in f l in
    pending-error (add_handler t.is_out g l₁) t.event t.is_err (handler t.event error_event)
    ∙ ap (λ ts. ts ++ errors)
        (pending-add_handler t.is_out g l₁
          ∙ ap (λ ts. ts ++ when t.is_out g) (pending-add_handler t.is_in f l))
    ∙ append_assoc (l.m_pending_tasks ++ when t.is_in f) (when t.is_out g) errors
    ∙ append_assoc l.m_pending_tasks (when t.is_in f) (when t.is_out g ++ errors)
  where
    errors : List Task
    errors = if t.is_err then error_tasks t.event (handler t.event error_event) else []

pending-triggers :
    (l : EventLoop) (ts : List Trigger)
    → (triggers l ts).m_pending_tasks ≡ l.m_pending_tasks ++ tasks_of_all ts
unfolding triggers
pending-triggers l [] = sym (append-nil l.m_pending_tasks)
pending-triggers l (t ∷ ts) =
    pending-triggers (trigger l t) ts
    ∙ ap (λ xs. xs ++ tasks_of_all ts) (pending-trigger l t)
    ∙ append_assoc l.m_pending_tasks (tasks_of t) (tasks_of_all ts)

pub run_tasks_lem :
    (events : List ℕ → ℕ → FdEvent) (w : List ℕ) (l : EventLoop) (ts : List Task)
    → let (w', l') = run_tasks record_callback events (w, l) ts in
      (w' ≡ w ++ callbacks ts) × (l'.m_pending_tasks ≡ l.m_pending_tasks)
unfolding run_tasks run_task
run_tasks_lem events w l [] = (sym (append-nil w), refl)
run_tasks_lem events w l (run none ∷ ts) = run_tasks_lem events w l ts
run_tasks_lem events w l (run (some c) ∷ ts) =
    let (e, f) = run_tasks_lem events (w ++ c ∷ []) l ts in
    (e ∙ append_assoc w (c ∷ []) (callbacks ts), f)
run_tasks_lem events w l (add_later fd ∷ ts) =
    let (p, f) = run_tasks_lem events w (add_to_epoll l (events w fd)) ts in
    (p, f ∙ unfold add_to_epoll in refl)
run_tasks_lem events w l (delete_later fd ∷ ts) =
    let e = events w fd in
    let (p, f) = run_tasks_lem events w (delete_from_epoll l e) ts in
    (p, f ∙ pending-delete_from l e)

-- One round of the event loop runs the callbacks that were queued before it, each once and in
-- order, and leaves in the queue the handlers of the first ten events that epoll_wait returned,
-- in order; an event with EPOLLERR and an error callback queues its write callback, never the
-- error callback. The callbacks are ones that only record themselves; the shared events are
-- any.
pub round_lem :
    (events : List ℕ → ℕ → FdEvent) (w : List ℕ) (l : EventLoop) (ts : List Trigger)
    → let (w', l') = round record_callback events (w, l) (some ts) in
      (w' ≡ w ++ callbacks l.m_pending_tasks) × (l'.m_pending_tasks ≡ tasks_of_all (take 10 ts))
unfolding round
round_lem events w l ts =
    let start = record l { m_pending_tasks = [] } in
    let (e, f) = run_tasks_lem events w start l.m_pending_tasks in
    (
      e,
      pending-triggers (run_tasks record_callback events (w, start) l.m_pending_tasks).1
            (take 10 ts)
          ∙ ap (λ xs. xs ++ tasks_of_all (take 10 ts)) f,
    )
