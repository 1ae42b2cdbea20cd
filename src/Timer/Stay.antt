-- ===== src/Timer/Stay.antt =====
-- `on_timer` and `delete_time_event`: which events are pending afterwards.
use tiny_rpc.Base.{
  ℕ, ◌+◌, ◌≡◌, refl, ◌∙◌, List, [], ◌∷◌, ◌++◌, Bool, true, false, arith, ltb, if◌then◌else◌, select,
  if-either,
}
use mathlib.Core.List.{Perm, perm_middle}
use mathlib.Core.List.Perm
use tiny_rpc.Timer.{
  Store, Timer, emplace, rearm, reset_arrive_time, add_time_event, collect, repeat_one, repeat_all,
  on_timer, update, reset_event, comes_first,
}
use tiny_rpc.Timer.Order.{IsSorted, pending-add_time_event, pending-reset_arrive_time}
use tiny_rpc.Timer.Due.{is_due, events, collect_lem, emplace-perm}

-- The entries of the events among `is` that repeat, put in again at the readings `later`, from
-- `n` on.
abbrev pub readded : (ℕ → ℕ) → ℕ → Store → List ℕ → List (ℕ × ℕ)
readded later n store [] = []
readded later n store (i ∷ is) =
    let rest = readded later (n + 2) store is in
    if (store i).m_is_repeat then (later n + (store i).m_interval, i) ∷ rest else rest

-- Two stores that differ in the times at which the events arrive.
pub record SamePlan (s s' : Store) : Type 0 where
  pub m_interval : (i : ℕ) → (s' i).m_interval ≡ (s i).m_interval
  pub m_is_repeat : (i : ℕ) → (s' i).m_is_repeat ≡ (s i).m_is_repeat
  pub m_is_cancel : (i : ℕ) → (s' i).m_is_cancel ≡ (s i).m_is_cancel
  pub m_task : (i : ℕ) → (s' i).m_task ≡ (s i).m_task

refl-SamePlan : (s : Store) → SamePlan s s
refl-SamePlan s = record {
  m_interval = λ i. refl;
  m_is_repeat = λ i. refl;
  m_is_cancel = λ i. refl;
  m_task = λ i. refl;
}

trans-SamePlan : {s s' s'' : Store} → SamePlan s s' → SamePlan s' s'' → SamePlan s s''
trans-SamePlan p q = record {
  m_interval = λ i. q.m_interval i ∙ p.m_interval i;
  m_is_repeat = λ i. q.m_is_repeat i ∙ p.m_is_repeat i;
  m_is_cancel = λ i. q.m_is_cancel i ∙ p.m_is_cancel i;
  m_task = λ i. q.m_task i ∙ p.m_task i;
}

readded-same :
    {s s' : Store} (later : ℕ → ℕ) (n : ℕ)
    → SamePlan s s'
    → (is : List ℕ) → readded later n s' is ≡ readded later n s is
readded-same later n same [] = refl
readded-same {s} {s'} later n same (i ∷ is) =
    simp (same.m_interval i, same.m_is_repeat i, readded-same later (n + 2) same is)

update-SamePlan : (s : Store) (i now : ℕ) → SamePlan s (update s i (reset_event now (s i)))
unfolding reset_event
update-SamePlan s i now = record {
  m_interval = λ j. ground arith;
  m_is_repeat = λ j. ground arith;
  m_is_cancel = λ j. ground arith;
  m_task = λ j. ground arith;
}

store-rearm : (now : ℕ) (t : Timer) (m : List (ℕ × ℕ)) → (rearm now t m).store ≡ t.store
unfolding rearm
store-rearm now t [] = refl
store-rearm now t ((k, i) ∷ m) = refl

pub store-add_time_event : (now : ℕ) (t : Timer) (i : ℕ) → (add_time_event now t i).store ≡ t.store
unfolding add_time_event reset_arrive_time
store-add_time_event now t i =
    let t' = record t {
      m_pending_events = emplace (t.store i).m_arrive_time i t.m_pending_events;
    } in
    if-either (λ (u : Timer). u.store ≡ t.store) (comes_first t.store i t.m_pending_events)
      (store-rearm now t' t'.m_pending_events) refl

repeat_one-SamePlan :
    (now then_now : ℕ) (t : Timer) (i : ℕ) → SamePlan t.store (repeat_one now then_now t i).store
unfolding repeat_one
repeat_one-SamePlan now then_now t i =
    if-either (λ (u : Timer). SamePlan t.store u.store) (t.store i).m_is_repeat
      (rw
        (store-add_time_event then_now
          (record t { store = update t.store i (reset_event now (t.store i)) }) i)
        (update-SamePlan t.store i now))
      (refl-SamePlan t.store)

repeat_all-SamePlan :
    (later : ℕ → ℕ) (n : ℕ) (t : Timer) (is : List ℕ)
    → SamePlan t.store (repeat_all later n t is).store
unfolding repeat_all
repeat_all-SamePlan later n t [] = refl-SamePlan t.store
repeat_all-SamePlan later n t (i ∷ is) =
    trans-SamePlan (repeat_one-SamePlan (later n) (later (n + 1)) t i)
      (repeat_all-SamePlan later (n + 2) (repeat_one (later n) (later (n + 1)) t i) is)

-- `on_timer` changes nothing of an event but the time at which it arrives.
pub on_timer-SamePlan :
    (t : Timer) (now : ℕ) (later : ℕ → ℕ) → SamePlan t.store (on_timer now later t).0.store
unfolding on_timer reset_arrive_time
on_timer-SamePlan t now later =
    let c = collect t.store now t.m_pending_events in
    let t' = repeat_all later 1 (record t { m_pending_events = c.rest }) c.temp in
    rw (store-rearm (later 0) t' t'.m_pending_events)
      (repeat_all-SamePlan later 1 (record t { m_pending_events = c.rest }) c.temp)

arrives :
    (s : Store) (i now : ℕ)
    → (update s i (reset_event now (s i)) i).m_arrive_time ≡ now + (s i).m_interval
unfolding reset_event
arrives s i now = ground arith

put_again :
    (t u : Timer) (e : ℕ × ℕ) (b : Bool)
    → Perm u.m_pending_events (e ∷ t.m_pending_events)
    → Perm (if b then u else t).m_pending_events ((if b then e ∷ [] else []) ++ t.m_pending_events)
put_again t u e true p = p
put_again t u e false p = Perm.refl _

repeat_one-perm :
    (later : ℕ → ℕ) (n : ℕ) (t : Timer) (i : ℕ)
    → Perm
        (repeat_one (later n) (later (n + 1)) t i).m_pending_events
        (readded later n t.store (i ∷ []) ++ t.m_pending_events)
unfolding repeat_one
repeat_one-perm later n t i =
    let t' = record t { store = update t.store i (reset_event (later n) (t.store i)) } in
    put_again t (add_time_event (later (n + 1)) t' i) (later n + (t.store i).m_interval, i)
      (t.store i).m_is_repeat
      (rw (pending-add_time_event (later (n + 1)) t' i, arrives t.store i (later n))
        (emplace-perm _ i t.m_pending_events))

into_place :
    (b : Bool) (e : ℕ × ℕ) (xs m : List (ℕ × ℕ))
    → Perm (xs ++ ((if b then e ∷ [] else []) ++ m)) ((if b then e ∷ xs else xs) ++ m)
into_place true e xs m = perm_middle xs m
into_place false e xs m = Perm.refl _

repeat_all-perm :
    (later : ℕ → ℕ) (n : ℕ) (t : Timer) (is : List ℕ)
    → Perm
        (repeat_all later n t is).m_pending_events
        (readded later n t.store is ++ t.m_pending_events)
unfolding repeat_all
repeat_all-perm later n t [] = Perm.refl _
repeat_all-perm later n t (i ∷ is) =
    let t' = repeat_one (later n) (later (n + 1)) t i in
    let others = readded later (n + 2) t.store is in
    let ih : Perm (repeat_all later (n + 2) t' is).m_pending_events
        (others ++ t'.m_pending_events) =
      rw (← readded-same later (n + 2) (repeat_one-SamePlan (later n) (later (n + 1)) t i) is)
        (repeat_all-perm later (n + 2) t' is) in
    Perm.trans ih (
      Perm.trans (Perm.append_left others (repeat_one-perm later n t i)) (
        into_place (t.store i).m_is_repeat (later n + (t.store i).m_interval, i) others
          t.m_pending_events))

-- After on_timer on a timer whose pending events are sorted, the entries whose time had not
-- come are still pending, each event that was due, not cancelled, and repeats is pending again,
-- its interval after the reading of the clock for it, and nothing else is pending.
pub on_timer_stays :
    (t : Timer) (now : ℕ) (later : ℕ → ℕ)
    → IsSorted t
    → Perm (on_timer now later t).0.m_pending_events (
        readded later 1 t.store (events (select (is_due t.store now) t.m_pending_events))
        ++ select (λ e. ltb now e.0) t.m_pending_events)
unfolding on_timer
on_timer_stays t now later s =
    let c = collect t.store now t.m_pending_events in
    let t' = record t { m_pending_events = c.rest } in
    let facts = collect_lem t.store now 0 t.m_pending_events s.sorted in
    let p : Perm (repeat_all later 1 t' c.temp).m_pending_events
        (readded later 1 t.store c.temp ++ c.rest) =
      repeat_all-perm later 1 t' c.temp in
    rw (pending-reset_arrive_time (later 0) (repeat_all later 1 t' c.temp), ← facts.0, ← facts.2) p
