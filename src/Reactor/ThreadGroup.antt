-- ===== src/Reactor/ThreadGroup.antt =====
-- src/net/io_thread/io_thread_group.cc: the constructor and `start` of a group, beside the steps of its
-- threads. The constructor makes one thread behind the other, each when the constructor of the one
-- before it has ended.
use tiny_rpc.Base.{
  ℕ, zero, suc, ◌+◌, ◌≤◌, ◌<◌, ◌≡◌, refl, sym, ap, ◌∙◌, List, [], ◌∷◌, ◌++◌, map, some, arith,
  length, length-append, get_elem?, set_elem, set_elem-cases, length-set_elem, get_elem?-map, inl,
  inr, ◌⊎◌,
}
use mathlib.Core.Path.{subst}
use tiny_rpc.Reactor.IoThread.{
  IoThread, constructed, new_thread, Step, start, Reach, here, next, begun, IsInOrder,
  Reach-IsInOrder,
}

-- `start_calls` counts the calls of `start`. `m_idx` is never read.
pub record IoThreadGroup : Type 0 where
  pub m_size : ℕ
  pub m_io_thread_groups : List IoThread
  pub start_calls : ℕ

abbrev pub no_threads : ℕ → IoThreadGroup
no_threads size = record { m_size = size; m_io_thread_groups = []; start_calls = 0 }

abbrev pub AllConstructed : List IoThread → Type 0
AllConstructed threads =
    (i : ℕ) (t : IoThread) → get_elem? threads i ≡ some t → t.maker ≡ constructed

abbrev pub posted_start : IoThread → IoThread
posted_start t = record t { m_start_semphore = t.m_start_semphore + 1; starts = t.starts + 1 }

-- `start`, a post for each thread.
unfoldable pub start_all : IoThreadGroup → IoThreadGroup
start_all g = record g {
  m_io_thread_groups = map posted_start g.m_io_thread_groups;
  start_calls = g.start_calls + 1;
}

-- A step of a thread is not a call of its `start`, which only the group makes.
pub data GroupStep : IoThreadGroup → IoThreadGroup → Type 0 where
  make_thread :
      (g : IoThreadGroup)
      → length g.m_io_thread_groups < g.m_size
      → AllConstructed g.m_io_thread_groups
      → GroupStep g (record g { m_io_thread_groups = g.m_io_thread_groups ++ new_thread ∷ [] })
  thread_step :
      (g : IoThreadGroup) (i : ℕ) (t u : IoThread)
      → get_elem? g.m_io_thread_groups i ≡ some t
      → Step t u
      → u.starts ≡ t.starts
      → GroupStep g (record g { m_io_thread_groups = set_elem g.m_io_thread_groups i u })
  start_group :
      (g : IoThreadGroup)
      → length g.m_io_thread_groups ≡ g.m_size
      → AllConstructed g.m_io_thread_groups
      → GroupStep g (start_all g)

pub data GroupReach (size : ℕ) : IoThreadGroup → Type 0 where
  made : GroupReach size (no_threads size)
  goes : {g h : IoThreadGroup} → GroupReach size g → GroupStep g h → GroupReach size h

record IsSoundGroup (g : IoThreadGroup) : Type 0 where
  reached :
      (i : ℕ) (t : IoThread)
      → get_elem? g.m_io_thread_groups i ≡ some t
      → Reach t × (t.starts ≡ g.start_calls)
  size : length g.m_io_thread_groups ≤ g.m_size
  not_started : length g.m_io_thread_groups < g.m_size → g.start_calls ≡ 0

snoc-cases :
    (ts : List IoThread) (u : IoThread) (i : ℕ) {t : IoThread}
    → get_elem? (ts ++ u ∷ []) i ≡ some t
    → (u ≡ t) ⊎ (get_elem? ts i ≡ some t)
snoc-cases [] u zero e = inl (cc e)
snoc-cases [] u (suc i) e = absurd (cc e)
snoc-cases (v ∷ ts) u zero e = inr e
snoc-cases (v ∷ ts) u (suc i) e = snoc-cases ts u i e

length-map {ℓ} : {A B : Type ℓ} (f : A → B) (xs : List A) → length (map f xs) ≡ length xs
length-map f [] = refl
length-map f (x ∷ xs) = ap suc (length-map f xs)

abbrev Ready : IoThreadGroup → IoThread → Type 0
Ready g t = Reach t × (t.starts ≡ g.start_calls)

GroupStep-IsSoundGroup : {g h : IoThreadGroup} → GroupStep g h → IsSoundGroup g → IsSoundGroup h
unfolding start_all
GroupStep-IsSoundGroup (make_thread g less all) s = record {
  reached = λ i t e. elim (snoc-cases g.m_io_thread_groups new_thread i e) [
    | inl same ↦ subst (Ready g) same (here, sym (s.not_started less))
    | inr old ↦ s.reached i t old
  ];
  size = omega (arith, length-append g.m_io_thread_groups (new_thread ∷ []));
  not_started = λ _. s.not_started less;
}
GroupStep-IsSoundGroup (thread_step g i t u at step same) s = record {
  reached = λ j v e. elim (set_elem-cases g.m_io_thread_groups i j u e) [
    | inl here_it ↦
        let (r, n) = s.reached i t at in subst (Ready g) (sym here_it) (next r step, same ∙ n)
    | inr old ↦ s.reached j v old
  ];
  size = omega (arith, s.size, length-set_elem g.m_io_thread_groups i u);
  not_started = λ less. s.not_started (omega (arith, length-set_elem g.m_io_thread_groups i u));
}
GroupStep-IsSoundGroup (start_group g full all) s = record {
  reached = λ i t e.
      let (v, at, posted) = get_elem?-map posted_start g.m_io_thread_groups i e in
      let (r, n) = s.reached i v at in
      subst (Ready (start_all g)) posted (next r (start v (all i v at)), ap (λ m. m + 1) n);
  size = omega (arith, s.size, length-map posted_start g.m_io_thread_groups);
  not_started = λ less. absurd (omega (arith, full, length-map posted_start g.m_io_thread_groups));
}

GroupReach-IsSoundGroup : {size : ℕ} {g : IoThreadGroup} → GroupReach size g → IsSoundGroup g
GroupReach-IsSoundGroup made = record {
  reached = λ i t e. absurd (cc e);
  size = omega arith;
  not_started = λ _. refl;
}
GroupReach-IsSoundGroup (goes r step) = GroupStep-IsSoundGroup step (GroupReach-IsSoundGroup r)

-- However the steps of the constructor and of start of a group fall beside those of its
-- threads, each thread of the group is in order: when its constructor has ended, its loop and
-- its thread id are there; its loop does not run before start; until its Main has returned some
-- side can take a step, where the call of its start is one. Its start has been called as often
-- as that of the group.
pub GroupReach-IsInOrder :
    {size : ℕ} {g : IoThreadGroup} (i : ℕ) (t : IoThread)
    → GroupReach size g
    → get_elem? g.m_io_thread_groups i ≡ some t
    → IsInOrder t × (t.starts ≡ g.start_calls) × (begun t.main ≤ g.start_calls)
GroupReach-IsInOrder i t r e =
    let (reach, n) = (GroupReach-IsSoundGroup r).reached i t e in
    let order = Reach-IsInOrder reach in (order, n, omega (arith, order.started, n))
