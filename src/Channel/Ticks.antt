-- ===== src/Channel/Ticks.antt =====
-- What a tick of the timer does to a call.
use tiny_rpc.Base.{
  ℕ, ◌+◌, ◌≤◌, ◌≡◌, refl, ◌∙◌, List, [], ◌∷◌, Bool, true, false, Option, none, some, arith, ◌==◌,
  if◌then◌else◌, length, length-append,
}
use mathlib.Core.Path.{subst}
use tiny_rpc.Rpc.Controller.{set_error, start_cancel}
use tiny_rpc.Timer.Once.{times}
use tiny_rpc.Channel.{Call, run, run_closure, fail, on_timeout, run_timeouts}

module _ {Message : Type 0} where
  -- `call'` is `call` after `n` runs of the timer's lambda.
  pub record IsAfter (n : ℕ) (call call' : Call Message) : Type 0 where
    pub channel : call'.channel ≡ call.channel
    pub timer_event : call'.timer_event ≡ call.timer_event
    pub is_reset : call'.is_reset ≡ call.is_reset
    pub runs : length call'.runs ≤ length call.runs + n
    pub cancelled :
        call'.my_controller.m_is_cancled ≡ false
        → (call.my_controller.m_is_cancled ≡ false)
          × (n ≡ 0)
          × (length call'.runs ≡ length call.runs)

  run-IsAfter :
      (o : Option ℕ) (call : Call Message) (code : ℕ) (info : List ℕ)
      → IsAfter 1 call
          (run o (fail (record call { my_controller = start_cancel call.my_controller }) code info))
  unfolding run fail set_error start_cancel
  run-IsAfter none call code info = record {
    channel = refl;
    timer_event = refl;
    is_reset = refl;
    runs = omega arith;
    cancelled = λ h. absurd (cc h);
  }
  run-IsAfter (some f) call code info = record {
    channel = refl;
    timer_event = refl;
    is_reset = refl;
    runs = omega (arith, length-append call.runs (f ∷ []));
    cancelled = λ h. absurd (cc h);
  }

  trans-IsAfter :
      {m n : ℕ} {c c' c'' : Call Message}
      → IsAfter m c c'
      → IsAfter n c' c''
      → IsAfter (n + m) c c''
  trans-IsAfter p q = record {
    channel = q.channel ∙ p.channel;
    timer_event = q.timer_event ∙ p.timer_event;
    is_reset = q.is_reset ∙ p.is_reset;
    runs = omega (arith, p.runs, q.runs);
    cancelled = λ h.
        let (a, n, r) = q.cancelled h in
        let (a', n', r') = p.cancelled a in (a', omega (arith, n, n'), r ∙ r');
  }

  pub step-IsAfter :
      (b : Bool) (call : Call Message)
      → IsAfter (if b then 1 else 0) call (if b then on_timeout call else call)
  unfolding on_timeout run_closure
  step-IsAfter true call = run-IsAfter _ call _ _
  step-IsAfter false call = record {
    channel = refl;
    timer_event = refl;
    is_reset = refl;
    runs = omega arith;
    cancelled = λ h. (h, refl, refl);
  }

  pub run_timeouts-IsAfter :
      (tasks : List ℕ) (call : Call Message)
      → IsAfter (times call.timer_event tasks) call (run_timeouts tasks call)
  unfolding run_timeouts
  run_timeouts-IsAfter [] call = record {
    channel = refl;
    timer_event = refl;
    is_reset = refl;
    runs = omega arith;
    cancelled = λ h. (h, refl, refl);
  }
  run_timeouts-IsAfter (task ∷ tasks) call =
      let b = task == call.timer_event in
      let call' = if b then on_timeout call else call in
      let first = step-IsAfter b call in
      let rest : IsAfter (times call.timer_event tasks) call' (run_timeouts tasks call') =
        subst (λ i. IsAfter (times i tasks) call' (run_timeouts tasks call')) first.timer_event
          (run_timeouts-IsAfter tasks call') in
      subst (λ n. IsAfter n call (run_timeouts tasks call')) (ground arith)
        (trans-IsAfter first rest)
