-- ===== src/Reactor/FdEventGroup.antt =====
-- src/net/fd_event/fd_event_group.cc: one `FdEvent` for each descriptor.
use tiny_rpc.Base.{
  ℕ, zero, suc, ◌+◌, ◌-◌, ◌*◌, ◌/◌, ◌≤◌, ◌<◌, ◌≡◌, refl, ap, ◌∙◌, List, [], ◌∷◌, ◌++◌, none, some,
  arith, ltb, if◌then◌else◌, length, get_elem?, length-append, Outcome, ok, err, out_of_bounds,
  lt→ltb, le→ltb_false,
}
use tiny_rpc.Reactor.FdEvent.{FdEvent, new_fd_event}
use native.Mathlib.Decide.{dec_lt}

pub record FdEventGroup : Type 0 where
  pub m_size : ℕ
  pub m_fd_event_groups : List FdEvent

-- The `n` events that `emplace_back` adds, from descriptor `i` on.
unfoldable pub fresh_events : ℕ → ℕ → List FdEvent
fresh_events i zero = []
fresh_events i (suc n) = new_fd_event i ∷ fresh_events (i + 1) n

unfoldable pub new_group : ℕ → FdEventGroup
new_group size = record { m_size = size; m_fd_event_groups = fresh_events 0 size }

-- `static_cast<int>(m_size * 1.5)`.
abbrev pub expanded : ℕ → ℕ
expanded size = 3 * size / 2

unfoldable pub expand : FdEventGroup → FdEventGroup
expand g = record {
  m_size = expanded g.m_size;
  m_fd_event_groups = g.m_fd_event_groups ++ fresh_events g.m_size (expanded g.m_size - g.m_size);
}

-- `m_fd_event_groups[fd]`, out of range of the vector where it is too short.
unfoldable pub event_at : FdEventGroup → ℕ → Outcome (FdEvent × FdEventGroup)
event_at g fd = elim (get_elem? g.m_fd_event_groups fd) [
  | none ↦ err out_of_bounds
  | some e ↦ ok (e, g)
]

-- The event and the group after the call.
unfoldable pub get_fd_event : FdEventGroup → ℕ → Outcome (FdEvent × FdEventGroup)
unfolding expand event_at
get_fd_event g fd =
    if ltb fd (length g.m_fd_event_groups) then event_at g fd else event_at (expand g) fd

-- The event of each descriptor stands at its own index.
pub record IsValid (g : FdEventGroup) : Type 0 where
  pub sized : length g.m_fd_event_groups ≡ g.m_size
  pub indexed :
      (i : ℕ)
      → i < g.m_size
      → (e : FdEvent) × (get_elem? g.m_fd_event_groups i ≡ some e) × (e.m_fd ≡ i)

length-fresh_events : (i n : ℕ) → length (fresh_events i n) ≡ n
unfolding fresh_events
length-fresh_events i zero = refl
length-fresh_events i (suc n) = ap suc (length-fresh_events (i + 1) n)

-- What stands at `i` in a list behind which fresh events follow.
fresh_at :
    (xs : List FdEvent) (at n i : ℕ)
    → length xs ≤ i
    → i < length xs + n
    → get_elem? (xs ++ fresh_events at n) i ≡ some (new_fd_event (at + (i - length xs)))
unfolding fresh_events
fresh_at [] at zero i h k = absurd (omega arith)
fresh_at [] at (suc n) zero h k = ap (λ j. some (new_fd_event j)) (omega arith)
fresh_at [] at (suc n) (suc i) h k =
    let e : at + 1 + (i - 0) ≡ at + (suc i - 0) = omega arith in
    rw (← e) (fresh_at [] (at + 1) n i (omega arith) (omega arith))
fresh_at (x ∷ xs) at n zero h k = absurd (omega arith)
fresh_at (x ∷ xs) at n (suc i) h k =
    let e : i - length xs ≡ suc i - suc (length xs) = omega arith in
    rw (← e) (fresh_at xs at n i (omega arith) (omega arith))

get_elem?-append_left :
    (xs ys : List FdEvent) (i : ℕ) → i < length xs → get_elem? (xs ++ ys) i ≡ get_elem? xs i
get_elem?-append_left [] ys i h = absurd (omega arith)
get_elem?-append_left (x ∷ xs) ys zero h = refl
get_elem?-append_left (x ∷ xs) ys (suc i) h = get_elem?-append_left xs ys i (omega arith)

new_fd : (i : ℕ) → (new_fd_event i).m_fd ≡ i
unfolding new_fd_event
new_fd i = refl

pub new_group-IsValid : (size : ℕ) → IsValid (new_group size)
unfolding new_group
new_group-IsValid size = record {
  sized = length-fresh_events 0 size;
  indexed = λ i h. (
    new_fd_event (0 + (i - 0)),
    fresh_at [] 0 size i (omega arith) (omega arith),
    new_fd (0 + (i - 0)) ∙ omega arith,
  );
}

pub expand-IsValid : {g : FdEventGroup} → IsValid g → IsValid (expand g)
unfolding expand
expand-IsValid {g} v = record {
  sized = omega (
    arith,
    v.sized,
    length-append g.m_fd_event_groups (fresh_events g.m_size (expanded g.m_size - g.m_size)),
    length-fresh_events g.m_size (expanded g.m_size - g.m_size),
  );
  indexed = λ i h. elim (dec_lt i g.m_size) [
    | yes k ↦
        let (e, at, fd) = v.indexed i k in
        (e, get_elem?-append_left g.m_fd_event_groups _ i (omega (arith, v.sized)) ∙ at, fd)
    | no k ↦ (
      new_fd_event (g.m_size + (i - length g.m_fd_event_groups)),
      fresh_at g.m_fd_event_groups g.m_size (expanded g.m_size - g.m_size) i
          (omega (arith, v.sized)) (omega (arith, v.sized)),
      new_fd (g.m_size + (i - length g.m_fd_event_groups)) ∙ omega (arith, v.sized),
    )
  ];
}

get_elem?-past : (xs : List FdEvent) (i : ℕ) → length xs ≤ i → get_elem? xs i ≡ none
get_elem?-past [] i h = refl
get_elem?-past (x ∷ xs) zero h = absurd (omega arith)
get_elem?-past (x ∷ xs) (suc i) h = get_elem?-past xs i (omega arith)

event_at-ok :
    (g : FdEventGroup) (fd : ℕ) (e : FdEvent)
    → get_elem? g.m_fd_event_groups fd ≡ some e
    → event_at g fd ≡ ok (e, g)
unfolding event_at
event_at-ok g fd e h = rw (h, event_at)

event_at-past :
    (g : FdEventGroup) (fd : ℕ)
    → length g.m_fd_event_groups ≤ fd
    → event_at g fd ≡ err out_of_bounds
unfolding event_at
event_at-past g fd h = rw (get_elem?-past g.m_fd_event_groups fd h, event_at)

-- get_fd_event on a valid group returns the event that then stands at the descriptor, and a valid
-- group, for every descriptor below one and a half times the size of the group.
pub get_fd_event_lem :
    {g : FdEventGroup} (fd : ℕ)
    → IsValid g
    → fd < expanded g.m_size
    → (e : FdEvent) × (g' : FdEventGroup) × (get_fd_event g fd ≡ ok (e, g'))
      × (e.m_fd ≡ fd)
      × IsValid g'
      × (get_elem? g'.m_fd_event_groups fd ≡ some e)
unfolding get_fd_event
get_fd_event_lem {g} fd v h = elim (dec_lt fd g.m_size) [
  | yes k ↦
      let (e, at, same) = v.indexed fd k in
      (
        e,
        g,
        rw (lt→ltb fd (length g.m_fd_event_groups) (omega (arith, v.sized)))
            (event_at-ok g fd e at),
        same,
        v,
        at,
      )
  | no k ↦
      let v' = expand-IsValid v in
      let (e, at, same) = v'.indexed fd h in
      (
        e,
        expand g,
        rw (le→ltb_false fd (length g.m_fd_event_groups) (omega (arith, v.sized)))
            (event_at-ok (expand g) fd e at),
        same,
        v',
        at,
      )
]

-- get_fd_event on a valid group that is not empty reads outside the vector for every descriptor
-- from one and a half times the size of the group on: the group grows once.
get_fd_event_overflow :
    {g : FdEventGroup} (fd : ℕ)
    → IsValid g
    → 0 < g.m_size
    → expanded g.m_size ≤ fd
    → get_fd_event g fd ≡ err out_of_bounds
unfolding get_fd_event
get_fd_event_overflow {g} fd v p h =
    let v' = expand-IsValid v in
    rw (le→ltb_false fd (length g.m_fd_event_groups) (omega (arith, v.sized)))
      (event_at-past (expand g) fd (omega (arith, v'.sized)))
