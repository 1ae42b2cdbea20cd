-- ===== src/Channel/Timeout.antt =====
-- A call whose timer fires before a response has come.
use tiny_rpc.Base.{
  ℕ, ◌+◌, ◌≤◌, ◌≡◌, refl, sym, ap, ap₂, codes, decimal, ◌∙◌, List, [], ◌∷◌, ◌++◌, true, false,
  Option, some, arith, ◌==◌, Bool-cases, inl, inr, if-either, select,
}
use mathlib.Core.Path.{subst}
use tiny_rpc.Address.{IPv4NetAddr}
use tiny_rpc.Rpc.Controller.{set_error, start_cancel}
use tiny_rpc.Rpc.ErrorCode.{error_rpc_call_timeout}
use tiny_rpc.Timer.{Timer, update, add_time_event, new_event, on_timer}
use tiny_rpc.Timer.Order.{pending-add_time_event}
use tiny_rpc.Timer.Due.{is_due, on_timer_runs}
use tiny_rpc.Timer.Stay.{store-add_time_event}
use tiny_rpc.Timer.Once.{times, entries, times-runnable, entries-emplace_due}
use tiny_rpc.Tcp.Connecting.{connect-m_timer}
use tiny_rpc.Tcp.Client.{
  write_message, ConnectResult, ConnectStep, runs_done, waits, connect, add_timer_event,
}
use tiny_rpc.Channel.{
  Call, run, run_closure, fail, on_timeout, run_timeouts, run_timer, on_connected, with_client,
  start_timer,
}
use tiny_rpc.Channel.CallMethod.{begin_connect, connect_begun}
use tiny_rpc.Channel.Ticks.{step-IsAfter}
use tiny_rpc.Channel.Once.{IsNew, new_event-IsOwned, add_time_event-IsOwned}

-- The event of the call fires once when its time has come.
due_once :
    (t : Timer) (now timeout now_time : ℕ) (later : ℕ → ℕ) (i : ℕ)
    → IsNew t i
    → now + timeout ≤ now_time
    → let t' = record t { store = update t.store i (new_event now timeout false (some i)) } in
      times i (on_timer now_time later (add_time_event now t' i)).1 ≡ 1
unfolding new_event
due_once t now timeout now_time later i new h =
    let t' = record t { store = update t.store i (new_event now timeout false (some i)) } in
    let t'' = add_time_event now t' i in
    let owned = add_time_event-IsOwned t' now i (new_event-IsOwned t now timeout i new) in
    let c : (t'.store i).m_is_cancel ≡ false = ground arith in
    let key : (t'.store i).m_arrive_time ≡ now + timeout = ground arith in
    let one : entries i (select (is_due t''.store now_time) t''.m_pending_events) ≡ 1 =
      rw (store-add_time_event now t' i, pending-add_time_event now t' i)
        (entries-emplace_due t'.store now_time (t'.store i).m_arrive_time i t.m_pending_events c
          (omega (arith, key, h)) new.not_pending) in
    ap (times i) (on_timer_runs t'' now_time later owned.sorted)
    ∙ times-runnable t''.store i i (select (is_due t''.store now_time) t''.m_pending_events)
        owned.owns
    ∙ one

module _ {Message : Type 0} where
  pub run_timeouts_none :
      (tasks : List ℕ) (call : Call Message)
      → times call.timer_event tasks ≡ 0
      → run_timeouts tasks call ≡ call
  unfolding run_timeouts
  run_timeouts_none [] call z = refl
  run_timeouts_none (task ∷ tasks) call z = elim (Bool-cases (task == call.timer_event)) [
    | inl e ↦ absurd (ground (arith, e, z))
    | inr e ↦ rw e (run_timeouts_none tasks call (ground (arith, e, z)))
  ]

  run_timeouts_once :
      (tasks : List ℕ) (call : Call Message)
      → times call.timer_event tasks ≡ 1
      → run_timeouts tasks call ≡ on_timeout call
  unfolding run_timeouts
  run_timeouts_once [] call z = absurd (omega (arith, z))
  run_timeouts_once (task ∷ tasks) call z = elim (Bool-cases (task == call.timer_event)) [
    | inl e ↦ rw e (
        run_timeouts_none tasks (on_timeout call)
          (ap (λ i. times i tasks) (step-IsAfter true call).timer_event ∙ ground (arith, e, z)))
    | inr e ↦ rw e (run_timeouts_once tasks call (ground (arith, e, z)))
  ]

  -- What `connect` leaves of a call as it is.
  record IsSame (call call' : Call Message) : Type 0 where
    m_timer : call'.channel.m_client.m_timer ≡ call.channel.m_client.m_timer
    timer_event : call'.timer_event ≡ call.timer_event
    m_closure : call'.channel.m_closure ≡ call.channel.m_closure
    runs : call'.runs ≡ call.runs

  connect_begun-IsSame :
      (thread : ℕ) (strerror : ℕ → List ℕ) (step : ConnectStep) (call : Call Message)
      → IsSame call (connect_begun thread strerror step call)
  unfolding connect_begun on_connected write_message fail
  connect_begun-IsSame thread strerror runs_done call =
      if-either (IsSame call) (call.channel.m_client.m_connect_error_code == 0)
        (record { m_timer = refl; timer_event = refl; m_closure = refl; runs = refl })
        (record { m_timer = refl; timer_event = refl; m_closure = refl; runs = refl })
  connect_begun-IsSame thread strerror (waits starts_loop) call = record {
    m_timer = refl;
    timer_event = refl;
    m_closure = refl;
    runs = refl;
  }

  begin_connect-IsSame :
      (thread : ℕ) (strerror : ℕ → List ℕ) (result : ConnectResult) (name : Option IPv4NetAddr)
      (call : Call Message)
      → IsSame call (begin_connect thread strerror result name call).0
  unfolding begin_connect
  begin_connect-IsSame thread strerror result name call =
      let (client, step) = connect thread strerror result name call.channel.m_client in
      let same = connect_begun-IsSame thread strerror step (with_client call client) in
      record {
        m_timer = same.m_timer ∙ connect-m_timer thread strerror result name call.channel.m_client;
        timer_event = same.timer_event;
        m_closure = same.m_closure;
        runs = same.runs;
      }

  -- A call that has timed out, with these closures run before.
  pub record IsTimedOut (closure : ℕ) (ran : List ℕ) (call : Call Message) : Type 0 where
    pub failed : call.my_controller.m_is_failed ≡ true
    pub cancelled : call.my_controller.m_is_cancled ≡ true
    pub error_code : call.my_controller.m_error_code ≡ error_rpc_call_timeout
    pub runs : call.runs ≡ ran ++ closure ∷ []

  on_timeout-IsTimedOut :
      (closure : ℕ) (call : Call Message)
      → call.channel.m_closure ≡ some closure
      → IsTimedOut closure call.runs (on_timeout call)
  unfolding on_timeout run_closure run fail set_error start_cancel
  on_timeout-IsTimedOut closure call e =
      let call' = record call { my_controller = start_cancel call.my_controller } in
      let info = codes "rpc call timeout" ++ decimal call.my_controller.m_timeout_ms in
      subst (λ o. IsTimedOut closure call.runs (run o (fail call' error_rpc_call_timeout info)))
        (sym e) (record { failed = refl; cancelled = refl; error_code = refl; runs = refl })

  -- A call with a closure whose timer event is new, and that is told nothing but the outcome of
  -- connect before its timeout has passed, is failed with the timeout code and cancelled by the
  -- first tick of the timer after that, which runs its closure once. The outcome of connect
  -- does not matter: the error of a failed connect is overwritten.
  pub call_times_out :
      (thread : ℕ) (strerror : ℕ → List ℕ) (now now_time : ℕ) (later : ℕ → ℕ)
      (result : ConnectResult) (name : Option IPv4NetAddr) (call : Call Message) (closure : ℕ)
      → IsNew call.channel.m_client.m_timer call.timer_event
      → call.channel.m_closure ≡ some closure
      → now + call.my_controller.m_timeout_ms ≤ now_time
      → IsTimedOut closure call.runs (
          run_timer now_time later
            (begin_connect thread strerror result name (start_timer now call)).0)
  unfolding run_timer start_timer add_timer_event
  call_times_out thread strerror now now_time later result name call closure new e h =
      let started = start_timer now call in
      let begun = (begin_connect thread strerror result name started).0 in
      let same = begin_connect-IsSame thread strerror result name started in
      let client = begun.channel.m_client in
      let (timer, tasks) = on_timer now_time later client.m_timer in
      let once : times begun.timer_event tasks ≡ 1 =
        ap₂ (λ i t. times i (on_timer now_time later t).1) same.timer_event same.m_timer
        ∙ due_once call.channel.m_client.m_timer now call.my_controller.m_timeout_ms now_time later
            call.timer_event new h in
      let ticked = with_client begun (record client { m_timer = timer }) in
      subst (IsTimedOut closure call.runs) (sym (run_timeouts_once tasks ticked once)) (
        subst (λ ran. IsTimedOut closure ran (on_timeout ticked)) same.runs
          (on_timeout-IsTimedOut closure ticked (same.m_closure ∙ e)))
