-- ===== src/Channel/Once.antt =====
-- The closure of a call, over the responses, the ticks of the timer, and the connection's callbacks.
use tiny_rpc.Base.{
  ℕ, ◌≤◌, ◌≡◌, ◌≢◌, refl, ap, ◌∙◌, List, [], ◌∷◌, false, Option, some, Outcome, ok, ◌>>=◌, arith,
  length, if-either,
}
use mathlib.Core.Path.{subst}
use tiny_rpc.Address.{IPv4NetAddr}
use tiny_rpc.Coder.Protocol.{ProtobufProtocol}
use tiny_rpc.Rpc.Protobuf.{Protobuf}
use tiny_rpc.Timer.{Timer, update, add_time_event, new_event}
use tiny_rpc.Timer.Order.{IsSorted, add_time_event-IsSorted, pending-add_time_event}
use tiny_rpc.Timer.Stay.{store-add_time_event}
use tiny_rpc.Timer.Due.{emplace-perm}
use tiny_rpc.Timer.Once.{entries, entries-perm}
use tiny_rpc.Timer.Owned.{left, IsOwned}
use tiny_rpc.Tcp.Client.{ConnectResult, ConnectStep, runs_done, waits, connect, add_timer_event}
use tiny_rpc.Tcp.Connecting.{connect-m_timer, on_connect_event-m_timer}
use tiny_rpc.Channel.{Call, run_timer, on_sent, on_response, start_timer}
use tiny_rpc.Channel.CallMethod.{begin_connect, connect_begun, end_connect}
use tiny_rpc.Channel.Spent.{
  IsSpent, run_timer-IsSpent, with_client-IsSpent, on_connected-IsSpent, on_sent-IsSpent,
  KeepsSpent, bind-KeepsSpent, on_response-IsSpent,
}

-- What can happen to a call after `connect` has begun.
pub data Event (Message : Type 0) : Type 0 where
  connects : ConnectResult → Option IPv4NetAddr → ℕ → Event Message
  sent : Event Message
  responds : ProtobufProtocol → Event Message
  ticks : ℕ → (ℕ → ℕ) → Event Message

-- The event `i` is new to the timer: not pending, and no event has its callback.
pub record IsNew (t : Timer) (i : ℕ) : Type 0 where
  pub sorted : IsSorted t
  pub not_pending : entries i t.m_pending_events ≡ 0
  pub no_task : (j : ℕ) → (t.store j).m_task ≢ some i

pub new_event-IsOwned :
    (t : Timer) (now timeout i : ℕ)
    → IsNew t i
    → IsOwned (record t { store = update t.store i (new_event now timeout false (some i)) }) i
unfolding new_event
new_event-IsOwned t now timeout i new = record {
  sorted = record { sorted = new.sorted.sorted };
  owns = λ j. ground (arith, new.no_task j);
  no_repeat = ground arith;
}

pub add_time_event-IsOwned :
    (t : Timer) (now i : ℕ) → IsOwned t i → IsOwned (add_time_event now t i) i
add_time_event-IsOwned t now i o = record {
  sorted = add_time_event-IsSorted now i o.sorted;
  owns = rw (store-add_time_event now t i) o.owns;
  no_repeat = rw (store-add_time_event now t i) o.no_repeat;
}

add_time_event-left :
    (t : Timer) (now i : ℕ) → entries i t.m_pending_events ≡ 0 → left (add_time_event now t i) i ≤ 1
add_time_event-left t now i z =
    let n : entries i (add_time_event now t i).m_pending_events ≡ 1 =
      ap (entries i) (pending-add_time_event now t i)
      ∙ entries-perm i (emplace-perm (t.store i).m_arrive_time i t.m_pending_events)
      ∙ ground (arith, z) in
    if-either (λ l. l ≤ 1) ((add_time_event now t i).store i).m_is_cancel (omega arith)
      (omega (arith, n))

pub start_timer-IsSpent :
    {Message : Type 0} (now : ℕ) (call : Call Message)
    → IsNew call.channel.m_client.m_timer call.timer_event
    → length call.runs ≡ 0
    → IsSpent (start_timer now call)
unfolding start_timer add_timer_event
start_timer-IsSpent now call new z =
    let t = call.channel.m_client.m_timer in
    let i = call.timer_event in
    let event = new_event now call.my_controller.m_timeout_ms false (some i) in
    let t' = record t { store = update t.store i event } in
    record {
      owned =
          add_time_event-IsOwned t' now i
            (new_event-IsOwned t now call.my_controller.m_timeout_ms i new);
      kept = refl;
      budget = omega (arith, z, add_time_event-left t' now i new.not_pending);
      unspent = λ r h. z;
    }

ok_length :
    {Message : Type 0} {o : Outcome (Call Message)} {call : Call Message}
    → o ≡ ok call
    → KeepsSpent o
    → length call.runs ≤ 1
ok_length e s = let s' = subst KeepsSpent e s in omega (arith, s'.budget)

module _ (protobuf : Protobuf) (thread : ℕ) (strerror : ℕ → List ℕ) where
  open protobuf use {Message}

  unfoldable pub run_event : Call Message → Event Message → Outcome (Call Message)
  run_event call (connects result name socket) =
      ok (end_connect thread strerror result name socket call)
  run_event call sent = ok (on_sent thread call)
  run_event call (responds m) = on_response protobuf call m
  run_event call (ticks now later) = ok (run_timer now later call)

  unfoldable pub run_events : Call Message → List (Event Message) → Outcome (Call Message)
  unfolding run_event
  run_events call [] = ok call
  run_events call (event ∷ events) = do call' ← run_event call event; run_events call' events

  end_connect-IsSpent :
      (result : ConnectResult) (name : Option IPv4NetAddr) (socket : ℕ) (call : Call Message)
      → IsSpent call
      → IsSpent (end_connect thread strerror result name socket call)
  unfolding end_connect
  end_connect-IsSpent result name socket call s = on_connected-IsSpent thread _ (
      with_client-IsSpent call _
        (on_connect_event-m_timer thread strerror result name socket call.channel.m_client) s)

  connect_begun-IsSpent :
      (step : ConnectStep) (call : Call Message)
      → IsSpent call
      → IsSpent (connect_begun thread strerror step call)
  unfolding connect_begun
  connect_begun-IsSpent runs_done call s = on_connected-IsSpent thread call s
  connect_begun-IsSpent (waits starts_loop) call s = s

  begin_connect-IsSpent :
      (result : ConnectResult) (name : Option IPv4NetAddr) (call : Call Message)
      → IsSpent call
      → IsSpent (begin_connect thread strerror result name call).0
  unfolding begin_connect
  begin_connect-IsSpent result name call s =
      connect_begun-IsSpent (connect thread strerror result name call.channel.m_client).1 _ (
        with_client-IsSpent call _
          (connect-m_timer thread strerror result name call.channel.m_client) s)

  run_event-IsSpent :
      (call : Call Message) (event : Event Message)
      → IsSpent call
      → KeepsSpent (run_event call event)
  unfolding run_event
  run_event-IsSpent call (connects result name socket) s =
      end_connect-IsSpent result name socket call s
  run_event-IsSpent call sent s = on_sent-IsSpent thread call s
  run_event-IsSpent call (responds m) s = on_response-IsSpent protobuf call m s
  run_event-IsSpent call (ticks now later) s = run_timer-IsSpent now later call s

  run_events-IsSpent :
      (events : List (Event Message)) (call : Call Message)
      → IsSpent call
      → KeepsSpent (run_events call events)
  unfolding run_events
  run_events-IsSpent [] call s = s
  run_events-IsSpent (event ∷ events) call s =
      bind-KeepsSpent (run_event call event) (λ c. run_events c events)
        (run_event-IsSpent call event s) (λ c s'. run_events-IsSpent events c s')

  -- The closure of a call runs at most once, whatever connects, sends, responses and ticks of
  -- the timer follow the connect of a call whose timer event is new and whose closure has not
  -- run, in any order, as long as none of them faults.
  pub closure_once :
      (now : ℕ) (result : ConnectResult) (name : Option IPv4NetAddr) (events : List (Event Message))
      (call : Call Message) {call' : Call Message}
      → IsNew call.channel.m_client.m_timer call.timer_event
      → length call.runs ≡ 0
      → run_events (begin_connect thread strerror result name (start_timer now call)).0 events
        ≡ ok call'
      → length call'.runs ≤ 1
  closure_once now result name events call new z e = ok_length e (
      run_events-IsSpent events _ (
        begin_connect-IsSpent result name (start_timer now call)
          (start_timer-IsSpent now call new z)))
