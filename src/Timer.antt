-- ===== src/Timer.antt =====
-- src/net/time/timer.cc and time_event.cc: the timer of an event loop. Events are shared objects:
-- the multimap holds their numbers, and a store their fields. Times are milliseconds, and each call
-- is given what `get_now_ms` reads.
pub mod Order
pub mod Due
pub mod Stay
pub mod Once
pub mod Owned
pub mod Reading
use tiny_rpc.Base.{
  ℕ, ◌+◌, ◌-◌, List, [], ◌∷◌, ◌++◌, Bool, true, false, not, Option, none, some, leb, ltb, ◌==◌,
  if◌then◌else◌, Outcome, ok, err, deadlock_error,
}

pub record TimerEvent : Type 0 where
  pub m_arrive_time : ℕ
  pub m_interval : ℕ
  pub m_is_repeat : Bool
  pub m_is_cancel : Bool
  pub m_task : Option ℕ

-- The constructor.
unfoldable pub new_event : ℕ → ℕ → Bool → Option ℕ → TimerEvent
new_event now interval repeat task = record {
  m_arrive_time = now + interval;
  m_interval = interval;
  m_is_repeat = repeat;
  m_is_cancel = false;
  m_task = task;
}

unfoldable pub reset_event : ℕ → TimerEvent → TimerEvent
reset_event now e = record e { m_arrive_time = now + e.m_interval }

abbrev pub Store : Type 0
Store = ℕ → TimerEvent

abbrev pub update : Store → ℕ → TimerEvent → Store
update store i e j = if j == i then e else store j

-- `m_pending_events`, sorted by the key, and the interval that `timerfd_settime` was last given.
pub record Timer : Type 0 where
  pub store : Store
  pub m_pending_events : List (ℕ × ℕ)
  pub armed : Option ℕ

-- `std::multimap::emplace`: behind the entries with the same key.
unfoldable pub emplace : ℕ → ℕ → List (ℕ × ℕ) → List (ℕ × ℕ)
emplace key i [] = (key, i) ∷ []
emplace key i ((k, j) ∷ m) = if leb k key then (k, j) ∷ emplace key i m else (key, i) ∷ (k, j) ∷ m

-- The interval until `arrive_time`; 100 ms when it has passed.
abbrev pub interval_until : ℕ → ℕ → ℕ
interval_until now arrive_time = if ltb now arrive_time then arrive_time - now else 100

unfoldable pub rearm : ℕ → Timer → List (ℕ × ℕ) → Timer
rearm now t [] = t
rearm now t ((k, i) ∷ m) = record t { armed = some (interval_until now (t.store i).m_arrive_time) }

unfoldable pub reset_arrive_time : ℕ → Timer → Timer
unfolding rearm
reset_arrive_time now t = rearm now t t.m_pending_events

-- `is_reset_timerfd`.
abbrev pub comes_first : Store → ℕ → List (ℕ × ℕ) → Bool
comes_first store i [] = true
comes_first store i ((k, j) ∷ m) = ltb (store i).m_arrive_time (store j).m_arrive_time

unfoldable pub add_time_event : ℕ → Timer → ℕ → Timer
unfolding emplace reset_arrive_time
add_time_event now t i =
    let t' = record t {
      m_pending_events = emplace (t.store i).m_arrive_time i t.m_pending_events;
    } in
    if comes_first t.store i t.m_pending_events then reset_arrive_time now t' else t'

-- The first loop of `on_timer`: `temp`, `tasks`, and what stands from the iterator on.
pub record Collected : Type 0 where
  pub temp : List ℕ
  pub tasks : List (Option ℕ)
  pub rest : List (ℕ × ℕ)

unfoldable pub collect : Store → ℕ → List (ℕ × ℕ) → Collected
collect store now_time [] = record { temp = []; tasks = []; rest = [] }
collect store now_time ((k, i) ∷ m) =
    let c = collect store now_time m in
    if leb k now_time
    then if (store i).m_is_cancel
      then c
      else record c { temp = i ∷ c.temp; tasks = (store i).m_task ∷ c.tasks }
    else record { temp = []; tasks = []; rest = (k, i) ∷ m }

-- The second loop: events that repeat are put in again. `now` is what their `reset_arrive_time` reads,
-- `then_now` what `add_time_event` reads.
unfoldable pub repeat_one : ℕ → ℕ → Timer → ℕ → Timer
unfolding add_time_event reset_event
repeat_one now then_now t i =
    if (t.store i).m_is_repeat
    then add_time_event then_now
        (record t { store = update t.store i (reset_event now (t.store i)) }) i
    else t

unfoldable pub repeat_all : (ℕ → ℕ) → ℕ → Timer → List ℕ → Timer
unfolding repeat_one
repeat_all later n t [] = t
repeat_all later n t (i ∷ is) =
    repeat_all later (n + 2) (repeat_one (later n) (later (n + 1)) t i) is

-- The callbacks that the third loop runs.
abbrev pub runnable : List (Option ℕ) → List ℕ
runnable [] = []
runnable (none ∷ ts) = runnable ts
runnable (some f ∷ ts) = f ∷ runnable ts

-- `now_time` is the first reading of the clock, and `later` numbers the readings after it: 0 is the last
-- one, and from 1 on stand two for each event of `temp`, in order. The second component is
-- the callbacks in the order in which they run, behind all changes of the timer.
unfoldable pub on_timer : ℕ → (ℕ → ℕ) → Timer → Timer × List ℕ
unfolding collect repeat_all reset_arrive_time
on_timer now_time later t =
    let c = collect t.store now_time t.m_pending_events in
    let t' = repeat_all later 1 (record t { m_pending_events = c.rest }) c.temp in
    (reset_arrive_time (later 0) t', runnable c.tasks)

-- The loop over the range of the key, and `erase`.
unfoldable pub erase_event : ℕ → ℕ → List (ℕ × ℕ) → List (ℕ × ℕ)
erase_event key i [] = []
erase_event key i ((k, j) ∷ m) =
    let rest = (k, j) ∷ erase_event key i m in if k == key then if j == i then m else rest else rest

-- After the erasure the function locks a mutex that it holds already.
unfoldable pub delete_time_event : Timer → ℕ → Timer × Outcome (Unit {0})
unfolding erase_event
delete_time_event t i = (
  record t {
    store = update t.store i (record (t.store i) { m_is_cancel = true });
    m_pending_events = erase_event (t.store i).m_arrive_time i t.m_pending_events;
  },
  err deadlock_error,
)
