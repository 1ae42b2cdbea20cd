-- ===== src/Timer/Owned.antt =====
-- `on_timer` and the cancelling of an event, for an event with a callback of its own.
use tiny_rpc.Base.{
  ℕ, ◌+◌, ◌≤◌, ◌≡◌, sym, ◌∙◌, true, false, arith, if◌then◌else◌, Bool-cases, inl, inr,
}
use tiny_rpc.Timer.{Timer, on_timer, update}
use tiny_rpc.Timer.Order.{IsSorted, on_timer-IsSorted}
use tiny_rpc.Timer.Stay.{on_timer-SamePlan}
use tiny_rpc.Timer.Once.{times, entries, Owns, on_timer-entries, on_timer_cancelled}

-- What is left of the event `i` in the timer.
abbrev pub left : Timer → ℕ → ℕ
left t i = if (t.store i).m_is_cancel then 0 else entries i t.m_pending_events

-- A timer in which the event `i` fires once at most for each of its entries.
pub record IsOwned (t : Timer) (i : ℕ) : Type 0 where
  pub sorted : IsSorted t
  pub owns : Owns t.store i i
  pub no_repeat : (t.store i).m_is_repeat ≡ false

pub on_timer-IsOwned :
    (t : Timer) (now : ℕ) (later : ℕ → ℕ) (i : ℕ) → IsOwned t i → IsOwned (on_timer now later t).0 i
on_timer-IsOwned t now later i o =
    let same = on_timer-SamePlan t now later in
    record {
      sorted = on_timer-IsSorted now later o.sorted;
      owns =
          λ j. (λ h. (o.owns j).0 (sym (same.m_task j) ∙ h), λ h. same.m_task j ∙ (o.owns j).1 h);
      no_repeat = same.m_is_repeat i ∙ o.no_repeat;
    }

pub on_timer-left :
    (t : Timer) (now : ℕ) (later : ℕ → ℕ) (i : ℕ)
    → IsOwned t i
    → times i (on_timer now later t).1 + left (on_timer now later t).0 i ≤ left t i
on_timer-left t now later i o =
    let cancel = (on_timer-SamePlan t now later).m_is_cancel i in
    elim (Bool-cases (t.store i).m_is_cancel) [
      | inl e ↦ rw (cancel, e) (omega (arith, on_timer_cancelled t now later i i o.sorted o.owns e))
      | inr e ↦ rw (cancel, e) (on_timer-entries t now later i i o.sorted o.owns o.no_repeat)
    ]

abbrev pub cancel_event : Timer → ℕ → Timer
cancel_event t i = record t { store = update t.store i (record (t.store i) { m_is_cancel = true }) }

pub cancel_event-left : (t : Timer) (i : ℕ) → left (cancel_event t i) i ≡ 0
cancel_event-left t i = ground arith

pub cancel_event-IsOwned : (t : Timer) (i : ℕ) → IsOwned t i → IsOwned (cancel_event t i) i
cancel_event-IsOwned t i o =
    let same : (j : ℕ) → ((cancel_event t i).store j).m_task ≡ (t.store j).m_task =
      λ j. ground arith in
    record {
      sorted = record { sorted = o.sorted.sorted };
      owns = λ j. (λ h. (o.owns j).0 (sym (same j) ∙ h), λ h. same j ∙ (o.owns j).1 h);
      no_repeat = ground (arith, o.no_repeat);
    }
