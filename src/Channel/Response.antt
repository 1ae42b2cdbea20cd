-- ===== src/Channel/Response.antt =====
-- A call whose response has come: what its closure, its timer and later responses still do.
use tiny_rpc.Base.{
  ℕ, ◌≡◌, ◌≢◌, refl, ap, ◌∙◌, List, [], ◌∷◌, ◌++◌, true, false, some, ok, err, null_pointer, arith,
  ◌==◌, if◌then◌else◌, ne→==_false,
}
use tiny_rpc.Coder.Protocol.{ProtobufProtocol}
use tiny_rpc.Rpc.Protobuf.{Protobuf}
use tiny_rpc.Rpc.Controller.{set_error}
use tiny_rpc.Timer.{on_timer}
use tiny_rpc.Timer.Once.{on_timer_cancelled}
use tiny_rpc.Timer.Owned.{IsOwned, cancel_event-IsOwned}
use tiny_rpc.Channel.{
  Call, run, run_closure, fail, run_timer, cancel_timer, complete, take_response, on_kept_response,
  on_response, with_client,
}
use tiny_rpc.Channel.Spent.{IsSpent}
use tiny_rpc.Channel.Timeout.{run_timeouts_none}

module _ {Message : Type 0} where
  -- No tick of the timer does anything to the call any more.
  abbrev pub IsQuiet : Call Message → Type 0
  IsQuiet call =
      (now : ℕ) (later : ℕ → ℕ)
      → ((run_timer now later call).runs ≡ call.runs)
        × ((run_timer now later call).my_controller ≡ call.my_controller)

  cancelled-IsQuiet :
      (call : Call Message)
      → IsOwned call.channel.m_client.m_timer call.timer_event
      → (call.channel.m_client.m_timer.store call.timer_event).m_is_cancel ≡ true
      → IsQuiet call
  unfolding run_timer
  cancelled-IsQuiet call o c now later =
      let t = call.channel.m_client.m_timer in
      let (t', tasks) = on_timer now later t in
      let call' = with_client call (record call.channel.m_client { m_timer = t' }) in
      let same =
        run_timeouts_none tasks call'
          (on_timer_cancelled t now later call.timer_event call.timer_event o.sorted o.owns c) in
      (ap (λ (d : Call Message). d.runs) same, ap (λ (d : Call Message). d.my_controller) same)

  cancel_timer-IsQuiet :
      (call : Call Message) → IsSpent call → IsQuiet (cancel_timer call.timer_event call)
  unfolding cancel_timer
  cancel_timer-IsQuiet call s =
      let i = call.timer_event in
      cancelled-IsQuiet (cancel_timer i call)
        (cancel_event-IsOwned call.channel.m_client.m_timer i s.owned) (ground arith)

module _ (protobuf : Protobuf) where
  open protobuf use {Message, parse_from_string}

  -- A call whose closure has run on this response, the last thing that it does.
  pub record IsAnswered (ran : List ℕ) (closure : ℕ) (rsp : Message) (call : Call Message)
      : Type 0 where
    pub runs : call.runs ≡ ran ++ closure ∷ []
    pub response : call.channel.m_response ≡ some rsp
    pub quiet : IsQuiet call
    pub again : (m : ProtobufProtocol) → on_response protobuf call m ≡ err null_pointer

  -- A call that the server has refused: it has the error, and its closure will not run.
  pub record IsRefused (ran : List ℕ) (code : ℕ) (info : List ℕ) (call : Call Message)
      : Type 0 where
    pub runs : call.runs ≡ ran
    pub failed : call.my_controller.m_is_failed ≡ true
    pub error_code : call.my_controller.m_error_code ≡ code
    pub error_info : call.my_controller.m_error_info ≡ info
    pub quiet : IsQuiet call

  parsed :
      (call : Call Message) (m : ProtobufProtocol) {response rsp : Message}
      → IsSpent call
      → call.is_reset ≡ false
      → call.channel.m_response ≡ some response
      → parse_from_string response m.m_pb_data ≡ some rsp
      → on_response protobuf call m
        ≡ ok (take_response (some rsp) m (cancel_timer call.timer_event call))
  unfolding on_response on_kept_response
  parsed call m s r e p =
      ap
        (λ b.
          if b
          then err null_pointer
          else on_kept_response protobuf call.channel.m_timer_event call.channel.m_response call m)
        r
      ∙ ap (λ i. on_kept_response protobuf i call.channel.m_response call m) s.kept
      ∙ ap (λ o. on_kept_response protobuf (some call.timer_event) o call m) e
      ∙ ap (λ o. ok (take_response o m (cancel_timer call.timer_event call))) p

  -- The first response of a call that is not cancelled, with error code 0 and data that parse,
  -- returns: it runs the closure once, stores the parsed response, and no tick of the timer
  -- changes the controller or the closures that have run any more. Another response with the id
  -- of the call then reads through a null pointer. The closure and the response of the channel
  -- are there.
  pub answer_completes :
      (call : Call Message) (m : ProtobufProtocol) {response rsp : Message} {closure : ℕ}
      → IsSpent call
      → call.is_reset ≡ false
      → call.my_controller.m_is_cancled ≡ false
      → call.channel.m_closure ≡ some closure
      → call.channel.m_response ≡ some response
      → parse_from_string response m.m_pb_data ≡ some rsp
      → m.m_err_code ≡ 0
      → (call' : Call Message) × (on_response protobuf call m ≡ ok call')
        × IsAnswered call.runs closure rsp call'
  unfolding take_response complete run_closure run cancel_timer on_response
  answer_completes call m {rsp = rsp} {closure = closure} s r c f e p z =
      let cancelled = cancel_timer call.timer_event call in
      let d = record cancelled { channel = record cancelled.channel { m_response = some rsp } } in
      let d' = record (run (some closure) d) { is_reset = true } in
      (
        d',
        parsed call m s r e p
            ∙ ap (λ n. ok (if n == 0 then complete d else fail d m.m_err_code m.m_err_info)) z
            ∙ ap (λ b. ok (record (if b then d else run_closure d) { is_reset = true })) c
            ∙ ap (λ o. ok (record (run o d) { is_reset = true })) f,
        record {
          runs = refl;
          response = refl;
          quiet =
              cancelled-IsQuiet d'
                (cancel_event-IsOwned call.channel.m_client.m_timer call.timer_event s.owned)
                (ground arith);
          again = λ m'. refl;
        },
      )

  -- The first response of a call, with data that parse and an error code of the server,
  -- returns: the controller is failed with the code and the text of the server, the closure
  -- does not run, and no tick of the timer runs it any more.
  pub error_response_refuses :
      (call : Call Message) (m : ProtobufProtocol) {response rsp : Message}
      → IsSpent call
      → call.is_reset ≡ false
      → call.channel.m_response ≡ some response
      → parse_from_string response m.m_pb_data ≡ some rsp
      → m.m_err_code ≢ 0
      → (call' : Call Message) × (on_response protobuf call m ≡ ok call')
        × IsRefused call.runs m.m_err_code m.m_err_info call'
  unfolding take_response fail set_error cancel_timer
  error_response_refuses call m {rsp = rsp} s r e p n =
      let cancelled = cancel_timer call.timer_event call in
      let d = record cancelled { channel = record cancelled.channel { m_response = some rsp } } in
      let d' = fail d m.m_err_code m.m_err_info in
      (
        d',
        parsed call m s r e p
            ∙ ap (λ b. ok (if b then complete d else d')) (ne→==_false m.m_err_code 0 n),
        record {
          runs = refl;
          failed = refl;
          error_code = refl;
          error_info = refl;
          quiet =
              cancelled-IsQuiet d'
                (cancel_event-IsOwned call.channel.m_client.m_timer call.timer_event s.owned)
                (ground arith);
        },
      )
