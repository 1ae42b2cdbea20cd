-- ===== src/Channel/Spent.antt =====
-- What a call can still do with its closure, and that its callbacks keep to it.
use tiny_rpc.Base.{
  ℕ, ◌+◌, ◌≤◌, ◌≡◌, refl, sym, ap, ap₂, ◌∙◌, List, [], ◌∷◌, true, false, Option, none, some,
  Outcome, ok, err, stuck, ◌>>=◌, arith, ◌==◌, length, length-append, if-either, if-cases,
}
use mathlib.Core.Path.{subst}
use tiny_rpc.Coder.Protocol.{ProtobufProtocol}
use tiny_rpc.Rpc.Protobuf.{Protobuf}
use tiny_rpc.Rpc.Controller.{set_error}
use tiny_rpc.Timer.{on_timer}
use tiny_rpc.Timer.Owned.{
  left, IsOwned, on_timer-IsOwned, on_timer-left, cancel_event-left, cancel_event-IsOwned,
}
use tiny_rpc.Tcp.Client.{TcpClient, write_message, read_message}
use tiny_rpc.Channel.{
  RpcChannel, Call, run, run_closure, fail, run_timeouts, run_timer, cancel_timer, complete,
  take_response, sent_callback, response_callback, on_connected, on_sent, on_kept_response,
  on_response, with_client,
}
use tiny_rpc.Channel.Ticks.{run_timeouts-IsAfter}

module _ {Message : Type 0} where
  pub record IsSpent (call : Call Message) : Type 0 where
    pub owned : IsOwned call.channel.m_client.m_timer call.timer_event
    pub kept : call.channel.m_timer_event ≡ some call.timer_event
    pub budget : length call.runs + left call.channel.m_client.m_timer call.timer_event ≤ 1
    pub unspent :
        call.is_reset ≡ false → call.my_controller.m_is_cancled ≡ false → length call.runs ≡ 0

  pub run_timer-IsSpent :
      (now : ℕ) (later : ℕ → ℕ) (call : Call Message)
      → IsSpent call
      → IsSpent (run_timer now later call)
  unfolding run_timer
  run_timer-IsSpent now later call s =
      let t = call.channel.m_client.m_timer in
      let (t', tasks) = on_timer now later t in
      let call' = with_client call (record call.channel.m_client { m_timer = t' }) in
      let after = run_timeouts-IsAfter tasks call' in
      let u = (run_timeouts tasks call').channel.m_client.m_timer in
      let timer : u ≡ t' = ap (λ (c : RpcChannel Message). c.m_client.m_timer) after.channel in
      record {
        owned =
            subst (λ v. IsOwned v (run_timeouts tasks call').timer_event) (sym timer)
              (subst (IsOwned t') (sym after.timer_event)
                (on_timer-IsOwned t now later call.timer_event s.owned));
        kept =
            ap (λ (c : RpcChannel Message). c.m_timer_event) after.channel
            ∙ s.kept
            ∙ ap some (sym after.timer_event);
        budget = omega (
          arith,
          ap₂ left timer after.timer_event,
          after.runs,
          s.budget,
          on_timer-left t now later call.timer_event s.owned,
        );
        unspent = λ r h.
            let (a, n, runs) = after.cancelled h in runs ∙ s.unspent (sym after.is_reset ∙ r) a;
      }

  pub with_client-IsSpent :
      (call : Call Message) (client : TcpClient)
      → client.m_timer ≡ call.channel.m_client.m_timer
      → IsSpent call
      → IsSpent (with_client call client)
  with_client-IsSpent call client same s = record {
    owned = subst (λ t. IsOwned t call.timer_event) (sym same) s.owned;
    kept = s.kept;
    budget = omega (arith, ap (λ t. left t call.timer_event) same, s.budget);
    unspent = s.unspent;
  }

  fail-IsSpent :
      (call : Call Message) (code : ℕ) (info : List ℕ)
      → IsSpent call
      → IsSpent (fail call code info)
  unfolding fail set_error
  fail-IsSpent call code info s = record {
    owned = s.owned;
    kept = s.kept;
    budget = s.budget;
    unspent = s.unspent;
  }

  pub on_connected-IsSpent :
      (thread : ℕ) (call : Call Message) → IsSpent call → IsSpent (on_connected thread call)
  unfolding on_connected write_message
  on_connected-IsSpent thread call s =
      let client = call.channel.m_client in
      if-either IsSpent (client.m_connect_error_code == 0)
        (with_client-IsSpent call (write_message thread client call.req_protocol sent_callback) refl
          s)
        (fail-IsSpent call client.m_connect_error_code client.m_connect_error_info s)

  pub on_sent-IsSpent :
      (thread : ℕ) (call : Call Message) → IsSpent call → IsSpent (on_sent thread call)
  unfolding on_sent read_message
  on_sent-IsSpent thread call s =
      with_client-IsSpent call
        (read_message thread call.channel.m_client call.req_protocol.m_msg_id response_callback)
        refl s

  cancel_timer-IsSpent :
      (call : Call Message)
      → IsSpent call
      → IsSpent (cancel_timer call.timer_event call)
        × (left (cancel_timer call.timer_event call).channel.m_client.m_timer call.timer_event ≡ 0)
  unfolding cancel_timer
  cancel_timer-IsSpent call s =
      let i = call.timer_event in
      let t = call.channel.m_client.m_timer in
      (
        record {
          owned = cancel_event-IsOwned t i s.owned;
          kept = s.kept;
          budget = omega (arith, cancel_event-left t i, s.budget);
          unspent = s.unspent;
        },
        cancel_event-left t i,
      )

  run-IsSpent :
      (o : Option ℕ) (call : Call Message)
      → left call.channel.m_client.m_timer call.timer_event ≡ 0
      → length call.runs ≡ 0
      → IsSpent call
      → IsSpent (record (run o call) { is_reset = true })
  unfolding run
  run-IsSpent none call z e s = record {
    owned = s.owned;
    kept = s.kept;
    budget = s.budget;
    unspent = λ r. absurd (cc r);
  }
  run-IsSpent (some f) call z e s = record {
    owned = s.owned;
    kept = s.kept;
    budget = omega (arith, z, e, length-append call.runs (f ∷ []));
    unspent = λ r. absurd (cc r);
  }

  complete-IsSpent :
      (call : Call Message)
      → left call.channel.m_client.m_timer call.timer_event ≡ 0
      → call.is_reset ≡ false
      → IsSpent call
      → IsSpent (complete call)
  unfolding complete run_closure
  complete-IsSpent call z r s =
      if-cases (λ (c : Call Message). IsSpent (record c { is_reset = true }))
        call.my_controller.m_is_cancled
        (λ e. record {
          owned = s.owned;
          kept = s.kept;
          budget = s.budget;
          unspent = λ r'. absurd (cc r');
        })
        (λ e. run-IsSpent call.channel.m_closure call z (s.unspent r e) s)

  take_response-IsSpent :
      (rsp : Option Message) (m : ProtobufProtocol) (call : Call Message)
      → left call.channel.m_client.m_timer call.timer_event ≡ 0
      → call.is_reset ≡ false
      → IsSpent call
      → IsSpent (take_response rsp m call)
  unfolding take_response
  take_response-IsSpent none m call z r s = fail-IsSpent call _ _ s
  take_response-IsSpent (some rsp) m call z r s =
      let call' = record call { channel = record call.channel { m_response = some rsp } } in
      let s' : IsSpent call' = record {
        owned = s.owned;
        kept = s.kept;
        budget = s.budget;
        unspent = s.unspent;
      } in
      if-either IsSpent (m.m_err_code == 0) (complete-IsSpent call' z r s')
        (fail-IsSpent call' m.m_err_code m.m_err_info s')

  -- Running fine, a call keeps what it has left.
  abbrev pub KeepsSpent : Outcome (Call Message) → Type 0
  KeepsSpent (ok call) = IsSpent call
  KeepsSpent _ = Unit {0}

  pub bind-KeepsSpent :
      (o : Outcome (Call Message)) (f : Call Message → Outcome (Call Message))
      → KeepsSpent o
      → ((call : Call Message) → IsSpent call → KeepsSpent (f call))
      → KeepsSpent (o >>= f)
  bind-KeepsSpent (ok call) f s next = next call s
  bind-KeepsSpent (err e) f s next = tt
  bind-KeepsSpent stuck f s next = tt

pub on_response-IsSpent :
    (protobuf : Protobuf) (call : Call protobuf.Message) (m : ProtobufProtocol)
    → IsSpent call
    → KeepsSpent (on_response protobuf call m)
unfolding on_response on_kept_response cancel_timer
on_response-IsSpent protobuf call m s =
    if-cases KeepsSpent call.is_reset (λ e. tt)
      (λ e.
        let (s', z) = cancel_timer-IsSpent call s in
        subst (λ o. KeepsSpent (on_kept_response protobuf o call.channel.m_response call m))
          (sym s.kept)
          (elim call.channel.m_response
            as (λ o. KeepsSpent (on_kept_response protobuf (some call.timer_event) o call m)) [
              | none ↦ tt
              | some rsp ↦
                  take_response-IsSpent (protobuf.parse_from_string rsp m.m_pb_data) m
                    (cancel_timer call.timer_event call) z e s'
            ]))
