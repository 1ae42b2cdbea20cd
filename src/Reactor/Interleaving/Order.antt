-- ===== src/Reactor/Interleaving/Order.antt =====
-- The order in which the loop runs the tasks that any thread has added.
use tiny_rpc.Base.{
  ℕ, ◌≡◌, refl, sym, ap, ◌∙◌, List, [], ◌∷◌, ◌++◌, none, some, append-nil, append_assoc, Bool, true,
  false, if◌then◌else◌,
}
use tiny_rpc.Reactor.FdEvent.{FdEvent}
use tiny_rpc.Reactor.EventLoop.{
  Task, run, add_later, delete_later, EventLoop, add_task, wake_up, run_task, run_tasks,
}
use tiny_rpc.Reactor.Queue.{record_callback, callbacks, run_tasks_lem}
use tiny_rpc.Reactor.WakeUp.{EventFd}
use tiny_rpc.Reactor.Interleaving.{
  LoopAt, runs, reads, is_wake_up, Running, started, run_front, push_task, Step, end_loop,
  take_tasks, run_next, read_more, read_done, read_fails, begin_wait, wait_returns, handle, handled,
  push, write, set_stop_flag, wake, Reach, here, next,
}

pub callbacks-cons :
    (t : Task) (ts : List Task) → callbacks (t ∷ ts) ≡ callbacks (t ∷ []) ++ callbacks ts
callbacks-cons (run (some c)) ts = refl
callbacks-cons (run none) ts = refl
callbacks-cons (add_later e) ts = refl
callbacks-cons (delete_later e) ts = refl

callbacks-append : (ts us : List Task) → callbacks (ts ++ us) ≡ callbacks ts ++ callbacks us
callbacks-append [] us = refl
callbacks-append (t ∷ ts) us =
    callbacks-cons t (ts ++ us)
    ∙ ap (λ xs. callbacks (t ∷ []) ++ xs) (callbacks-append ts us)
    ∙ sym (append_assoc (callbacks (t ∷ [])) (callbacks ts) (callbacks us))
    ∙ ap (λ xs. xs ++ callbacks us) (sym (callbacks-cons t ts))

-- What has begun, what was taken and what is queued are what was added, in order.
abbrev pub all_tasks : {C : Type 0} → Running C → List ℕ
all_tasks s = s.ran ++ (callbacks s.temp_tasks ++ callbacks s.loop.m_pending_tasks)

abbrev holds_tasks : LoopAt → Bool
holds_tasks runs = true
holds_tasks reads = true
holds_tasks _ = false

pub record IsFifo {C : Type 0} (s : Running C) : Type 0 where
  pub order : all_tasks s ≡ callbacks s.added
  emptied : holds_tasks s.place ≡ false → s.temp_tasks ≡ []

pub run_task_lem :
    (events : ℕ → FdEvent) (w : List ℕ) (l : EventLoop) (t : Task)
    → let (w', l') = run_task record_callback (λ _. events) (w, l) t in
      (w' ≡ w ++ callbacks (t ∷ [])) × (l'.m_pending_tasks ≡ l.m_pending_tasks)
run_task_lem events w l t = unfold run_tasks in run_tasks_lem (λ _. events) w l (t ∷ [])

pub pending-run_front :
    {C : Type 0} (events : ℕ → FdEvent) (s : Running C) (t : Task) (ts : List Task)
    → (run_front events s t ts).loop.m_pending_tasks ≡ s.loop.m_pending_tasks
unfolding run_front
pending-run_front events s t ts = (run_task_lem events s.ran s.loop t).1

all_tasks-run_front :
    {C : Type 0} (events : ℕ → FdEvent) (s : Running C) (t : Task) (ts : List Task)
    → s.temp_tasks ≡ t ∷ ts
    → all_tasks (run_front events s t ts) ≡ all_tasks s
unfolding run_front
all_tasks-run_front events s t ts e =
    let (w, l) = run_task_lem events s.ran s.loop t in
    let pending = callbacks s.loop.m_pending_tasks in
    let (ran, loop) = run_task record_callback (λ _. events) (s.ran, s.loop) t in
    ap (λ p. ran ++ (callbacks ts ++ callbacks p)) l
    ∙ ap (λ xs. xs ++ (callbacks ts ++ pending)) w
    ∙ append_assoc s.ran (callbacks (t ∷ [])) (callbacks ts ++ pending)
    ∙ ap (λ xs. s.ran ++ xs) (sym (append_assoc (callbacks (t ∷ [])) (callbacks ts) pending))
    ∙ ap (λ xs. s.ran ++ (xs ++ pending)) (sym (callbacks-cons t ts))
    ∙ ap (λ xs. s.ran ++ (callbacks xs ++ pending)) (sym e)

all_tasks-push_task :
    {C : Type 0} (s : Running C) (t : Task)
    → all_tasks s ≡ callbacks s.added
    → all_tasks (push_task s t) ≡ callbacks (push_task s t).added
unfolding push_task add_task
all_tasks-push_task s t h =
    let pending = callbacks s.loop.m_pending_tasks in
    ap (λ xs. s.ran ++ (callbacks s.temp_tasks ++ xs))
      (callbacks-append s.loop.m_pending_tasks (t ∷ []))
    ∙ ap (λ xs. s.ran ++ xs)
        (sym (append_assoc (callbacks s.temp_tasks) pending (callbacks (t ∷ []))))
    ∙ sym (append_assoc s.ran (callbacks s.temp_tasks ++ pending) (callbacks (t ∷ [])))
    ∙ ap (λ xs. xs ++ callbacks (t ∷ [])) h
    ∙ sym (callbacks-append s.added (t ∷ []))

next_place : (b : Bool) → holds_tasks (if b then reads else runs) ≡ true
next_place true = refl
next_place false = refl

pub not_both : true ≡ false → ⊥
not_both e = cc

Step-IsFifo : {C : Type 0} {k : EventFd C} {s u : Running C} → Step k s u → IsFifo s → IsFifo u
unfolding run_front push_task add_task wake_up
Step-IsFifo (end_loop s e f) h = record {
  order = h.order;
  emptied = λ _. h.emptied (ap holds_tasks e);
}
Step-IsFifo (take_tasks s e f a) h = record {
  order =
      ap (λ xs. s.ran ++ xs) (append-nil (callbacks s.loop.m_pending_tasks))
      ∙ ap (λ ts. s.ran ++ (callbacks ts ++ callbacks s.loop.m_pending_tasks))
          (sym (h.emptied (ap holds_tasks e)))
      ∙ h.order;
  emptied = λ n. absurd cc;
}
Step-IsFifo (run_next events s t ts e f) h = record {
  order = all_tasks-run_front events s t ts f ∙ h.order;
  emptied = λ n. absurd (not_both (sym (next_place (is_wake_up t)) ∙ n));
}
Step-IsFifo (read_more s errno c e r i) h = record { order = h.order; emptied = h.emptied }
Step-IsFifo (read_done s errno c e r i) h = record { order = h.order; emptied = λ n. absurd cc }
Step-IsFifo (read_fails s errno c e r) h = record { order = h.order; emptied = λ n. absurd cc }
Step-IsFifo (begin_wait s e f) h = record { order = h.order; emptied = λ _. f }
Step-IsFifo (wait_returns s ts e r) h = record {
  order = h.order;
  emptied = λ _. h.emptied (ap holds_tasks e);
}
Step-IsFifo (handle s t ts e a) h = record {
  order = all_tasks-push_task s t h.order;
  emptied = λ _. h.emptied (ap holds_tasks e);
}
Step-IsFifo (handled s e) h = record {
  order = h.order;
  emptied = λ _. h.emptied (ap holds_tasks e);
}
Step-IsFifo (push s t a) h = record { order = all_tasks-push_task s t h.order; emptied = h.emptied }
Step-IsFifo (write s a) h = record { order = h.order; emptied = h.emptied }
Step-IsFifo (set_stop_flag s) h = record { order = h.order; emptied = h.emptied }
Step-IsFifo (wake s) h = record { order = h.order; emptied = h.emptied }

-- However the steps of the event loop and of other threads that add tasks, stop it or wake it
-- fall: the callbacks that have begun, those that the round has taken and those in the queue
-- are, in this order, the callbacks of all tasks that were added, in the order in which they
-- were added. Nothing is lost, nothing runs twice, nothing overtakes. A callback other than the
-- one of the wake-up descriptor only records itself.
pub Reach-IsFifo :
    {C : Type 0} {k : EventFd C} (thread : ℕ) (counter : C) {s : Running C}
    → Reach k (started thread counter) s
    → IsFifo s
Reach-IsFifo thread counter here = record { order = refl; emptied = λ _. refl }
Reach-IsFifo thread counter (next r step) = Step-IsFifo step (Reach-IsFifo thread counter r)
