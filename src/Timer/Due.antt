-- ===== src/Timer/Due.antt =====
-- `on_timer`: which events run, and which stay.
use tiny_rpc.Base.{
  ℕ, ◌<◌, ◌≡◌, refl, ap, inl, inr, List, [], ◌∷◌, map, Bool, not, ◌&&◌, Option, arith, leb, ltb,
  Bool-cases, select,
}
use mathlib.Core.List.{Perm}
use mathlib.Core.List.Perm
use tiny_rpc.Timer.{Store, Timer, emplace, collect, on_timer, runnable}
use tiny_rpc.Timer.Order.{SortedFrom, IsSorted}

-- An entry that `on_timer` runs at `now`: its time has come, and its event is not cancelled.
abbrev pub is_due : Store → ℕ → ℕ × ℕ → Bool
is_due store now e = leb e.0 now && not (store e.1).m_is_cancel

-- The numbers of events in the pending entries.
abbrev pub events : List (ℕ × ℕ) → List ℕ
events = map (λ e. e.1)

abbrev pub tasks : Store → List ℕ → List (Option ℕ)
tasks store = map (λ i. (store i).m_task)

none_due :
    (store : Store) (now low : ℕ) (m : List (ℕ × ℕ))
    → now < low
    → SortedFrom low m
    → select (is_due store now) m ≡ []
none_due store now low [] h s = refl
none_due store now low ((k, i) ∷ m) h s = ground (arith, none_due store now k m)

all_later :
    (now low : ℕ) (m : List (ℕ × ℕ))
    → now < low
    → SortedFrom low m
    → select (λ e. ltb now e.0) m ≡ m
all_later now low [] h s = refl
all_later now low ((k, i) ∷ m) h s = ground (arith, all_later now k m)

-- The loop breaks at the first entry that is not due yet; since the entries are sorted, it takes the
-- due ones of the whole list, and leaves the later ones.
pub collect_lem :
    (store : Store) (now low : ℕ) (m : List (ℕ × ℕ))
    → SortedFrom low m
    → let c = collect store now m in
      (c.temp ≡ events (select (is_due store now) m))
      × (c.tasks ≡ tasks store (events (select (is_due store now) m)))
      × (c.rest ≡ select (λ e. ltb now e.0) m)
unfolding collect
collect_lem store now low [] s = (refl, refl, refl)
collect_lem store now low ((k, i) ∷ m) s =
    ground (arith, collect_lem store now k m s.1, none_due store now k m, all_later now k m)

pub emplace-perm : (key i : ℕ) (m : List (ℕ × ℕ)) → Perm (emplace key i m) ((key, i) ∷ m)
unfolding emplace
emplace-perm key i [] = Perm.refl _
emplace-perm key i ((k, j) ∷ m) = elim (Bool-cases (leb k key)) [
  | inl e ↦
      rw e (Perm.trans (Perm.cons (k, j) (emplace-perm key i m)) (Perm.swap (key, i) (k, j) m))
  | inr e ↦ rw e (Perm.refl _)
]

-- The callbacks that on_timer runs, on a timer whose pending events are sorted, are those of
-- all entries that are due and not cancelled, in the order of their times.
pub on_timer_runs :
    (t : Timer) (now : ℕ) (later : ℕ → ℕ)
    → IsSorted t
    → (on_timer now later t).1
      ≡ runnable (tasks t.store (events (select (is_due t.store now) t.m_pending_events)))
unfolding on_timer
on_timer_runs t now later s = ap runnable (collect_lem t.store now 0 t.m_pending_events s.sorted).1
