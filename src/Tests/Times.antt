-- ===== src/Tests/Times.antt =====
-- The timer, and the message ids.
use tiny_rpc.Base.{
  ℕ, ◌≡◌, refl, List, [], ◌∷◌, ◌++◌, ok, arith, true, false, some, none, select, ltb, if◌then◌else◌,
  ◌==◌, ◌+◌, ◌*◌, ap, replicate,
}
use mathlib.Core.List.{Perm}
use tiny_rpc.Timer.{Timer, Store, new_event, runnable, on_timer, collect}
use tiny_rpc.Reactor.WakeUp.{eagain, EventFd, IsCounter}
use tiny_rpc.Timer.Reading.{on_timer_event, on_timer_event_ends}
use tiny_rpc.Timer.Order.{IsSorted}
use tiny_rpc.Timer.Due.{is_due, events, tasks, on_timer_runs}
use tiny_rpc.Timer.Stay.{readded, on_timer_stays}
use tiny_rpc.MsgId.{MsgIds, gen_msg_id}
use tiny_rpc.MsgId.Counting.{IsCounting, value, gen_msg_id_counts}

-- Event 0 repeats every 100 ms, event 1 runs once, and event 2 comes later.
abbrev three_events : Store
three_events i =
    if i == 0
    then new_event 0 100 true (some 10)
    else new_event 0 (100 + 50 * i) false (some (10 + i))

abbrev waiting : Timer
waiting = record {
  store = three_events;
  m_pending_events = (100, 0) ∷ (150, 1) ∷ (200, 2) ∷ [];
  armed = none;
}

waiting-IsSorted : IsSorted waiting
waiting-IsSorted = record { sorted = (omega arith, (omega arith, (omega arith, tt))) }

on_timer_runs_example :
    (on_timer 160 (λ n. 161 + n) waiting).1
    ≡ runnable
        (tasks three_events (events (select (is_due three_events 160) waiting.m_pending_events)))
on_timer_runs_example = on_timer_runs waiting 160 (λ n. 161 + n) waiting-IsSorted

on_timer_stays_example : Perm (on_timer 160 (λ n. 161 + n) waiting).0.m_pending_events (
    readded
      (λ n. 161 + n)
      1
      three_events
      (events (select (is_due three_events 160) waiting.m_pending_events))
    ++ select (λ e. ltb 160 e.0) waiting.m_pending_events)
on_timer_stays_example = on_timer_stays waiting 160 (λ n. 161 + n) waiting-IsSorted

on_timer_run : (on_timer 160 (λ n. 161 + n) waiting).1 ≡ 10 ∷ 11 ∷ []
unfolding on_timer collect new_event
on_timer_run = refl

-- The id 00000000000000000019.
abbrev counting : MsgIds
counting = record {
  t_cur_msg_id_number = replicate 18 b'0' ++ b'1' ∷ b'9' ∷ [];
  t_max_msg_id_number = replicate 20 b'9';
}

gen_msg_id_counts_example :
    (id : List ℕ) × (s' : MsgIds) × (gen_msg_id none counting ≡ ok (id, s'))
    × (value id ≡ 20)
    × (s'.t_cur_msg_id_number ≡ id)
    × IsCounting s'
gen_msg_id_counts_example =
    gen_msg_id_counts none {s = counting}
      (record { digits = ground arith; cur_length = refl; max_nines = refl })
      (λ e. absurd (omega (arith, ap value e)))

abbrev at_the_end : MsgIds
at_the_end = record {
  t_cur_msg_id_number = replicate 20 b'9';
  t_max_msg_id_number = replicate 20 b'9';
}

-- The descriptor of the timer has fired three times.
abbrev fired : EventFd ℕ
fired = record {
  is_ready = λ c. ltb 0 c;
  write = λ bytes c. c;
  read = λ c. if ltb 0 c then (none, 0) else (some eagain, c);
}

fired-IsCounter : IsCounter fired
fired-IsCounter = record {
  read_ready = λ c e. (0, ap (λ b. if b then (none, 0) else (some eagain, c)) e, refl);
  read_empty = λ c e. ap (λ b. if b then (none, 0) else (some eagain, c)) e;
}

on_timer_event_ends_example :
    (c' : ℕ) × (on_timer_event fired 2 3 20 (λ n. 21) waiting
      ≡ ok (c', on_timer 20 (λ n. 21) waiting))
    × (ltb 0 c' ≡ false)
on_timer_event_ends_example =
    on_timer_event_ends {k = fired} 0 20 (λ n. 21) 3 waiting fired-IsCounter
