-- ===== src/Timer/Order.antt =====
-- The pending events stay sorted by their keys.
use tiny_rpc.Base.{ℕ, ◌+◌, ◌≤◌, ◌≡◌, refl, inl, inr, List, [], ◌∷◌, arith, Bool-cases, if-either}
use tiny_rpc.Timer.{
  Store, Timer, emplace, rearm, reset_arrive_time, comes_first, add_time_event, collect, repeat_one,
  repeat_all, on_timer, erase_event, delete_time_event, update, reset_event,
}

-- Every key is at least `low`, and at least the one before it.
abbrev pub SortedFrom : ℕ → List (ℕ × ℕ) → Type 0
SortedFrom low [] = Unit {0}
SortedFrom low ((k, i) ∷ m) = (low ≤ k) × SortedFrom k m

pub record IsSorted (t : Timer) : Type 0 where
  pub sorted : SortedFrom 0 t.m_pending_events

emplace-SortedFrom :
    (low key i : ℕ) (m : List (ℕ × ℕ))
    → low ≤ key
    → SortedFrom low m
    → SortedFrom low (emplace key i m)
unfolding emplace
emplace-SortedFrom low key i [] h s = (h, tt)
emplace-SortedFrom low key i ((k, j) ∷ m) h s = ground (arith, emplace-SortedFrom k key i m)

weaken : (low k : ℕ) (m : List (ℕ × ℕ)) → low ≤ k → SortedFrom k m → SortedFrom low m
weaken low k [] h s = tt
weaken low k ((j, i) ∷ m) h s = (omega arith, s.1)

rest-SortedFrom :
    (store : Store) (now low : ℕ) (m : List (ℕ × ℕ))
    → SortedFrom low m
    → SortedFrom low (collect store now m).rest
unfolding collect
rest-SortedFrom store now low [] s = tt
rest-SortedFrom store now low ((k, i) ∷ m) s =
    ground (arith, weaken low k (collect store now m).rest s.0 (rest-SortedFrom store now k m s.1))

erase_event-SortedFrom :
    (key i low : ℕ) (m : List (ℕ × ℕ)) → SortedFrom low m → SortedFrom low (erase_event key i m)
unfolding erase_event
erase_event-SortedFrom key i low [] s = tt
erase_event-SortedFrom key i low ((k, j) ∷ m) s =
    ground (arith, weaken low k m s.0 s.1, erase_event-SortedFrom key i k m s.1)

pub pending-rearm :
    (now : ℕ) (t : Timer) (m : List (ℕ × ℕ)) → (rearm now t m).m_pending_events ≡ t.m_pending_events
unfolding rearm
pending-rearm now t [] = refl
pending-rearm now t ((k, i) ∷ m) = refl

pub pending-reset_arrive_time :
    (now : ℕ) (t : Timer) → (reset_arrive_time now t).m_pending_events ≡ t.m_pending_events
unfolding reset_arrive_time
pending-reset_arrive_time now t = pending-rearm now t t.m_pending_events

-- `add_time_event` puts the event in its place, whether or not it rearms the timer.
pub pending-add_time_event :
    (now : ℕ) (t : Timer) (i : ℕ)
    → (add_time_event now t i).m_pending_events
      ≡ emplace (t.store i).m_arrive_time i t.m_pending_events
unfolding add_time_event
pending-add_time_event now t i =
    let t' = record t {
      m_pending_events = emplace (t.store i).m_arrive_time i t.m_pending_events;
    } in
    elim (Bool-cases (comes_first t.store i t.m_pending_events)) [
      | inl e ↦ rw e (pending-reset_arrive_time now t')
      | inr e ↦ rw e refl
    ]

pub add_time_event-IsSorted :
    {t : Timer} (now i : ℕ) → IsSorted t → IsSorted (add_time_event now t i)
add_time_event-IsSorted {t} now i s = record {
  sorted =
      rw (pending-add_time_event now t i) (
        emplace-SortedFrom 0 (t.store i).m_arrive_time i t.m_pending_events (omega arith) s.sorted);
}

repeat_one-IsSorted :
    (t : Timer) (now then_now i : ℕ) → IsSorted t → IsSorted (repeat_one now then_now t i)
unfolding repeat_one
repeat_one-IsSorted t now then_now i s =
    if-either IsSorted (t.store i).m_is_repeat
      (add_time_event-IsSorted
        {t = record t { store = update t.store i (reset_event now (t.store i)) }} then_now i
        (record { sorted = s.sorted }))
      s

repeat_all-IsSorted :
    (t : Timer) (later : ℕ → ℕ) (n : ℕ) (is : List ℕ)
    → IsSorted t
    → IsSorted (repeat_all later n t is)
unfolding repeat_all
repeat_all-IsSorted t later n [] s = s
repeat_all-IsSorted t later n (i ∷ is) s =
    repeat_all-IsSorted (repeat_one (later n) (later (n + 1)) t i) later (n + 2) is
      (repeat_one-IsSorted t (later n) (later (n + 1)) i s)

-- on_timer keeps the pending events sorted by their keys, the repeated ones included.
pub on_timer-IsSorted :
    {t : Timer} (now : ℕ) (later : ℕ → ℕ) → IsSorted t → IsSorted (on_timer now later t).0
unfolding on_timer
on_timer-IsSorted {t} now later s =
    let c = collect t.store now t.m_pending_events in
    let t' = repeat_all later 1 (record t { m_pending_events = c.rest }) c.temp in
    let s' =
      repeat_all-IsSorted (record t { m_pending_events = c.rest }) later 1 c.temp
        (record { sorted = rest-SortedFrom t.store now 0 t.m_pending_events s.sorted }) in
    record { sorted = rw (pending-reset_arrive_time (later 0) t') s'.sorted }

pub delete_time_event-IsSorted :
    {t : Timer} (i : ℕ) → IsSorted t → IsSorted (delete_time_event t i).0
unfolding delete_time_event
delete_time_event-IsSorted {t} i s = record {
  sorted = erase_event-SortedFrom (t.store i).m_arrive_time i 0 t.m_pending_events s.sorted;
}
