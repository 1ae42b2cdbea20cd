-- ===== src/Timer/Reading.antt =====
-- src/net/time/timer.cc: the loop with which `on_timer` empties the descriptor of the timer, and the
-- whole of `on_timer`.
use tiny_rpc.Base.{
  ℕ, zero, suc, ◌≡◌, refl, ap, ◌∙◌, List, Bool, false, Option, none, some, Outcome, ok, stuck,
  if◌then◌else◌, Bool-cases, inl, inr, ◌>>=◌,
}
use tiny_rpc.Reactor.WakeUp.{Errno, other_errno, is_eagain, EventFd, IsCounter}
use tiny_rpc.Timer.{Timer, on_timer}

-- The test that ends the loop.
unfoldable pub ends_reading : Option Errno → Bool
ends_reading none = false
ends_reading (some errno) = is_eagain errno

unfoldable pub read_out : {C : Type 0} → EventFd C → ℕ → C → Outcome C
unfolding ends_reading
read_out k zero c = stuck
read_out k (suc fuel) c =
    let (result, c') = k.read c in
    let rest = read_out k fuel c' in if ends_reading result then ok c' else rest

-- The descriptor, the timer, and the callbacks that run.
unfoldable pub on_timer_event :
    {C : Type 0} → EventFd C → ℕ → C → ℕ → (ℕ → ℕ) → Timer → Outcome (C × (Timer × List ℕ))
unfolding read_out on_timer
on_timer_event k fuel c now_time later t =
    read_out k fuel c >>= λ c'. ok (c', on_timer now_time later t)

read_out-empty :
    {C : Type 0} {k : EventFd C} (law : IsCounter k) (fuel : ℕ) (c : C)
    → k.is_ready c ≡ false
    → read_out k (suc fuel) c ≡ ok c
unfolding read_out is_eagain
read_out-empty {C} {k} law fuel c e =
    ap (λ r. if ends_reading r.0 then ok r.1 else read_out k fuel r.1) (law.read_empty c e)

read_out_ends :
    {C : Type 0} {k : EventFd C} (law : IsCounter k) (fuel : ℕ) (c : C)
    → (c' : C) × (read_out k (suc (suc fuel)) c ≡ ok c') × (k.is_ready c' ≡ false)
unfolding read_out
read_out_ends {C} {k} law fuel c = elim (Bool-cases (k.is_ready c)) [
  | inl e ↦
      let (c', r, empty) = law.read_ready c e in
      (
        c',
        ap (λ r. if ends_reading r.0 then ok r.1 else read_out k (suc fuel) r.1) r
            ∙ read_out-empty law fuel c' empty,
        empty,
      )
  | inr e ↦ (c, read_out-empty law (suc fuel) c e, e)
]

-- The whole of on_timer, with the loop that reads the descriptor of the timer, returns after
-- two reads at most: the descriptor is not readable, and the timer and the callbacks are those
-- of its second part. The descriptor does what timerfd documents.
pub on_timer_event_ends :
    {C : Type 0} {k : EventFd C} (fuel now_time : ℕ) (later : ℕ → ℕ) (c : C) (t : Timer)
    → IsCounter k
    → (c' : C) × (on_timer_event k (suc (suc fuel)) c now_time later t
        ≡ ok (c', on_timer now_time later t))
      × (k.is_ready c' ≡ false)
unfolding on_timer_event
on_timer_event_ends fuel now_time later c t law =
    let (c', e, empty) = read_out_ends law fuel c in
    (c', ap (λ o. o >>= λ c'. ok (c', on_timer now_time later t)) e, empty)

-- Where each read fails with another error, `on_timer` does not end.
on_timer_event-stuck :
    {C : Type 0} (k : EventFd C) (fuel now_time : ℕ) (later : ℕ → ℕ) (c : C) (t : Timer)
    → k.read c ≡ (some other_errno, c)
    → on_timer_event k fuel c now_time later t ≡ stuck
unfolding on_timer_event read_out is_eagain
on_timer_event-stuck k fuel now_time later c t e =
    ap (λ o. o >>= λ c'. ok (c', on_timer now_time later t)) (loops fuel)
  where
    loops : (fuel : ℕ) → read_out k fuel c ≡ stuck
    loops zero = refl
    loops (suc fuel) =
        ap (λ r. if ends_reading r.0 then ok r.1 else read_out k fuel r.1) e ∙ loops fuel
