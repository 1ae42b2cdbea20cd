-- ===== src/Tests/Loop.antt =====
-- The events, the groups and the loop.
use tiny_rpc.Base.{
  ℕ, zero, suc, ◌<◌, ◌≤◌, ◌≡◌, sym, ap, Option, refl, List, [], ◌∷◌, ◌++◌, arith, true, false, some,
  none, take, get_elem?,
}
use tiny_rpc.Reactor.IoThread.{
  IoThread, MakerAt, begun, make_loop, set_id, post_init, end_constructor, begin_loop, waits_start,
  loops, waits_init, constructed, IsInOrder,
}
use tiny_rpc.Reactor.ThreadGroup.{
  AllConstructed, start_all, make_thread, thread_step, start_group, GroupReach, made, goes,
  GroupReach-IsInOrder,
}
use tiny_rpc.Reactor.FdEvent.{FdEvent, new_fd_event}
use tiny_rpc.Reactor.FdEventGroup.{IsValid, new_group, fresh_events}
use tiny_rpc.Reactor.EventLoop.{EventLoop, Trigger, run, add_later, loop, round}
use tiny_rpc.Reactor.Epoll.{IsConsistent, loop-IsConsistent}
use tiny_rpc.Reactor.Queue.{record_callback, callbacks, tasks_of_all, round_lem}

new_group-IsValid : IsValid (new_group 2)
unfolding new_group fresh_events new_fd_event
new_group-IsValid = record { sized = refl; indexed = at }
  where
    at :
        (i : ℕ)
        → i < 2
        → (e : FdEvent) × (get_elem? (new_fd_event 0 ∷ new_fd_event 1 ∷ []) i ≡ some e)
          × (e.m_fd ≡ i)
    at zero h = (new_fd_event 0, refl, refl)
    at (suc zero) h = (new_fd_event 1, refl, refl)
    at (suc (suc i)) h = absurd (omega arith)

abbrev busy : EventLoop
busy = record {
  m_thread_id = 1;
  m_stop_flag = false;
  m_listen_fds = [];
  m_pending_tasks = run (some 6) ∷ add_later 4 ∷ run (some 7) ∷ [];
  m_is_looping = true;
  epoll_calls = [];
  wake_ups = 0;
}

-- Descriptor 4 is readable.
abbrev readable : Trigger
readable = record {
  event = record (new_fd_event 4) { m_read_callback = some 8 };
  is_in = true;
  is_out = false;
  is_err = false;
}

record_callback-IsConsistent :
    (c : ℕ) (s : List ℕ × EventLoop) → IsConsistent s.1 → IsConsistent (record_callback c s).1
record_callback-IsConsistent c (w, l) h = h

loop-IsConsistent_example :
    IsConsistent
      (loop record_callback (λ w. new_fd_event) ([], busy) (some (readable ∷ []) ∷ none ∷ [])).1
loop-IsConsistent_example =
    loop-IsConsistent record_callback (λ w. new_fd_event) record_callback-IsConsistent [] busy
      (some (readable ∷ []) ∷ none ∷ []) (record { agreed = refl })

round_lem_example :
    let (w', l') = round record_callback (λ w. new_fd_event) ([], busy) (some (readable ∷ [])) in
    (w' ≡ [] ++ callbacks busy.m_pending_tasks)
    × (l'.m_pending_tasks ≡ tasks_of_all (take 10 (readable ∷ [])))
round_lem_example = round_lem (λ w. new_fd_event) [] busy (readable ∷ [])

abbrev waiting : IoThread
waiting = record {
  m_thread_id = some 8;
  m_event_loop = some 4;
  m_init_semphore = 0;
  m_start_semphore = 0;
  main = waits_start;
  maker = constructed;
  starts = 0;
}

abbrev running : IoThread
running = record waiting { main = loops; starts = 1 }

abbrev maker_of : Option IoThread → MakerAt
maker_of none = waits_init
maker_of (some t) = t.maker

-- A group of one thread: the thread makes its loop, 4, its constructor ends, the group starts, and the
-- loop runs.
one_thread-GroupReach :
    GroupReach 1 (record { m_size = 1; m_io_thread_groups = running ∷ []; start_calls = 1 })
unfolding start_all
one_thread-GroupReach =
    let made_one = goes made (make_thread _ (omega arith) (λ i t e. absurd (cc e))) in
    let with_loop = goes made_one (thread_step _ 0 _ _ refl (make_loop _ 4 refl) refl) in
    let with_id = goes with_loop (thread_step _ 0 _ _ refl (set_id _ 8 refl) refl) in
    let posted = goes with_id (thread_step _ 0 _ _ refl (post_init _ refl) refl) in
    let ended =
      goes posted (thread_step _ 0 _ _ refl (end_constructor _ refl (omega arith)) refl) in
    let started = goes ended (start_group _ refl only_one) in
    goes started (thread_step _ 0 _ _ refl (begin_loop _ refl (omega arith)) refl)
  where
    only_one : AllConstructed (waiting ∷ [])
    only_one zero t e = ap maker_of (sym e)
    only_one (suc i) t e = absurd (cc e)

GroupReach-IsInOrder_example : IsInOrder running × (running.starts ≡ 1) × (begun running.main ≤ 1)
GroupReach-IsInOrder_example = GroupReach-IsInOrder 0 running one_thread-GroupReach refl
