-- ===== src/Timer/Once.antt =====
-- `on_timer`: how often the callback of one event runs, against how often the event is pending.
use tiny_rpc.Base.{
  ℕ, ◌+◌, ◌≤◌, ◌≡◌, ◌↔◌, refl, ap, ◌∙◌, List, [], ◌∷◌, ◌++◌, true, false, some, arith, ltb, ◌==◌,
  if◌then◌else◌, select,
}
use mathlib.Core.Logic.{∥∥₁_elim}
use native.Mathlib.Nat.{ℕ_set}
use mathlib.Core.List.{Perm, Permᴰ}
use tiny_rpc.Timer.{Store, Timer, emplace, on_timer, runnable}
use tiny_rpc.Timer.Order.{IsSorted}
use tiny_rpc.Timer.Due.{is_due, events, tasks, on_timer_runs}
use tiny_rpc.Timer.Stay.{readded, on_timer_stays}

-- How often a callback, and an event, is among those given.
abbrev pub times : ℕ → List ℕ → ℕ
times f [] = 0
times f (g ∷ gs) = let rest = times f gs in if g == f then rest + 1 else rest

abbrev pub add_entry : ℕ → ℕ × ℕ → ℕ → ℕ
add_entry i (k, j) rest = if j == i then rest + 1 else rest

abbrev pub entries : ℕ → List (ℕ × ℕ) → ℕ
entries i [] = 0
entries i (e ∷ m) = add_entry i e (entries i m)

-- Event `i` has a callback of its own.
abbrev pub Owns : Store → ℕ → ℕ → Type 0
Owns store i f = (j : ℕ) → ((store j).m_task ≡ some f) ↔ (j ≡ i)

entries-append : (i : ℕ) (m m' : List (ℕ × ℕ)) → entries i (m ++ m') ≡ entries i m + entries i m'
entries-append i [] m' = omega arith
entries-append i ((k, j) ∷ m) m' = ground (arith, entries-append i m m')

add_entry_comm :
    (i : ℕ) (d e : ℕ × ℕ) (n : ℕ)
    → add_entry i d (add_entry i e n) ≡ add_entry i e (add_entry i d n)
add_entry_comm i (k, j) (k', j') n = ground arith

entries-permᴰ : {m m' : List (ℕ × ℕ)} (i : ℕ) → Permᴰ m m' → entries i m ≡ entries i m'
entries-permᴰ i Permᴰ.nil = refl
entries-permᴰ i (Permᴰ.cons e p) = λ t. add_entry i (e t) (entries-permᴰ i p t)
entries-permᴰ i (Permᴰ.swap {a = a} {b = b} {l = l} d e) =
    add_entry_comm i a b (entries i l) ∙ (λ t. add_entry i (e t) (add_entry i (d t) (entries i l)))
entries-permᴰ i (Permᴰ.trans p q) = entries-permᴰ i p ∙ entries-permᴰ i q

pub entries-perm : {m m' : List (ℕ × ℕ)} (i : ℕ) → Perm m m' → entries i m ≡ entries i m'
entries-perm {m} {m'} i p = ∥∥₁_elim p (ℕ_set (entries i m) (entries i m')) (λ d. entries-permᴰ i d)

-- Each entry is due, or its time has not come, or it is cancelled.
entries-split :
    (store : Store) (now i : ℕ) (m : List (ℕ × ℕ))
    → entries i (select (is_due store now) m) + entries i (select (λ e. ltb now e.0) m)
      ≤ entries i m
entries-split store now i [] = omega arith
entries-split store now i ((k, j) ∷ m) = ground (arith, entries-split store now i m)

entries_cancelled :
    (store : Store) (now i : ℕ) (m : List (ℕ × ℕ))
    → (store i).m_is_cancel ≡ true
    → entries i (select (is_due store now) m) ≡ 0
entries_cancelled store now i [] h = refl
entries_cancelled store now i ((k, j) ∷ m) h = ground (arith, entries_cancelled store now i m)

-- Of an event that is not pending, none is due.
entries-select_none :
    (store : Store) (now i : ℕ) (m : List (ℕ × ℕ))
    → entries i m ≡ 0
    → entries i (select (is_due store now) m) ≡ 0
entries-select_none store now i m z = omega (arith, entries-split store now i m, z)

entries-readded :
    (store : Store) (later : ℕ → ℕ) (n i : ℕ) (is : List ℕ)
    → (store i).m_is_repeat ≡ false
    → entries i (readded later n store is) ≡ 0
entries-readded store later n i [] h = refl
entries-readded store later n i (j ∷ js) h =
    ground (arith, entries-readded store later (n + 2) i js)

pub times-runnable :
    (store : Store) (i f : ℕ) (m : List (ℕ × ℕ))
    → Owns store i f
    → times f (runnable (tasks store (events m))) ≡ entries i m
times-runnable store i f [] own = refl
times-runnable store i f ((k, j) ∷ m) own = ground (arith, times-runnable store i f m own, own j)

-- The callback of an event that does not repeat, run by on_timer, uses up an entry.
pub on_timer-entries :
    (t : Timer) (now : ℕ) (later : ℕ → ℕ) (i f : ℕ)
    → IsSorted t
    → Owns t.store i f
    → (t.store i).m_is_repeat ≡ false
    → times f (on_timer now later t).1 + entries i (on_timer now later t).0.m_pending_events
      ≤ entries i t.m_pending_events
on_timer-entries t now later i f s own h =
    let due = select (is_due t.store now) t.m_pending_events in
    let later_ones = select (λ e. ltb now e.0) t.m_pending_events in
    let runs : times f (on_timer now later t).1 ≡ entries i due =
      ap (times f) (on_timer_runs t now later s) ∙ times-runnable t.store i f due own in
    let stays : entries i (on_timer now later t).0.m_pending_events
        ≡ entries i (readded later 1 t.store (events due) ++ later_ones) =
      entries-perm i (on_timer_stays t now later s) in
    omega (
      arith,
      runs,
      stays,
      entries-append i (readded later 1 t.store (events due)) later_ones,
      entries-readded t.store later 1 i (events due) h,
      entries-split t.store now i t.m_pending_events,
    )

pub on_timer_cancelled :
    (t : Timer) (now : ℕ) (later : ℕ → ℕ) (i f : ℕ)
    → IsSorted t
    → Owns t.store i f
    → (t.store i).m_is_cancel ≡ true
    → times f (on_timer now later t).1 ≡ 0
on_timer_cancelled t now later i f s own h =
    let due = select (is_due t.store now) t.m_pending_events in
    ap (times f) (on_timer_runs t now later s)
    ∙ times-runnable t.store i f due own
    ∙ entries_cancelled t.store now i t.m_pending_events h

-- A new entry of an event that is not cancelled is due when its time has come.
pub entries-emplace_due :
    (store : Store) (now key i : ℕ) (m : List (ℕ × ℕ))
    → (store i).m_is_cancel ≡ false
    → key ≤ now
    → entries i m ≡ 0
    → entries i (select (is_due store now) (emplace key i m)) ≡ 1
unfolding emplace
entries-emplace_due store now key i [] c h z = ground (arith, c)
entries-emplace_due store now key i ((k, j) ∷ m) c h z =
    ground (arith, c, entries-emplace_due store now key i m c h, entries-select_none store now i m)
