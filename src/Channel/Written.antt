-- ===== src/Channel/Written.antt =====
-- From the callback of `connect` to the wait for the response.
use tiny_rpc.Base.{
  ℕ, ◌+◌, ◌*◌, ◌/◌, ◌^◌, ◌≤◌, ◌<◌, ◌≡◌, refl, ap, ◌∙◌, List, [], ◌∷◌, ◌++◌, false, none, some, ok,
  length, lookup, if◌then◌else◌, ◌==◌, lookup-insert_new, insert_new, same, same_refl, List,
}
use tiny_rpc.Buffer.{can_read_bytes_num}
use tiny_rpc.Buffer.Invariant.{IsValid}
use tiny_rpc.Buffer.Contents.{contents}
use tiny_rpc.Coder.Encode.{encode}
use tiny_rpc.Coder.Append.{packets}
use tiny_rpc.Rpc.Protobuf.{Protobuf}
use tiny_rpc.Reactor.FdEvent.{cancel, listen}
use tiny_rpc.Tcp.Socket.{WriteResult, wrote}
use tiny_rpc.Tcp.Connection.{
  connected, is_connected, listen_write, listen_read, push_send_message, push_read_message,
  stop_writing,
}
use tiny_rpc.Tcp.Client.{write_message, read_message}
use tiny_rpc.Channel.{
  Call, with_client, fail, on_connected, on_sent, sent_callback, response_callback,
}
use tiny_rpc.Channel.Spent.{IsSpent, with_client-IsSpent}
use tiny_rpc.Channel.Receiving.{with_connection}
use tiny_rpc.Channel.RemoteCall.{IsWaiting}
use tiny_rpc.Channel.Sending.{on_write_call, write_connected_call, write_connected_call_lem, writes}

lookup_inserted :
    (k : List ℕ) (v : ℕ) (m : List (List ℕ × ℕ))
    → lookup k m ≡ none
    → lookup k (insert_new k v m) ≡ some v
lookup_inserted k v m e =
    lookup-insert_new k k v m
    ∙ ap (λ o. elim o [ some w ↦ some w | none ↦ if same k k then some v else none ]) e
    ∙ ap (λ b. if b then some v else none) (same_refl k)

-- A call whose connection is there, with no message queued and nothing unread or unsent.
pub record IsConnected {Message : Type 0} (closure : ℕ) (response : Message) (call : Call Message)
    : Type 0 where
  pub spent : IsSpent call
  pub kept : call.is_reset ≡ false
  pub not_cancelled : call.my_controller.m_is_cancled ≡ false
  pub closes : call.channel.m_closure ≡ some closure
  pub fills : call.channel.m_response ≡ some response
  pub no_error : call.channel.m_client.m_connect_error_code ≡ 0
  pub state : call.channel.m_client.m_connection.m_state ≡ connected
  pub nothing_queued : call.channel.m_client.m_connection.m_write_dones ≡ []
  pub valid_in : IsValid call.channel.m_client.m_connection.m_in_buffer
  pub unread : contents call.channel.m_client.m_connection.m_in_buffer ≡ []
  pub small : 2 * length call.channel.m_client.m_connection.m_in_buffer.m_buffer < 2 ^ 31
  pub valid_out : IsValid call.channel.m_client.m_connection.m_out_buffer
  pub unsent : contents call.channel.m_client.m_connection.m_out_buffer ≡ []
  pub unregistered :
      lookup call.req_protocol.m_msg_id call.channel.m_client.m_connection.m_read_dones ≡ none

-- The request is sent: the bytes that `write` has taken more, and the state of the call.
pub record IsSent (protobuf : Protobuf) (closure : ℕ) (response : protobuf.Message)
    (call call' : Call protobuf.Message) : Type 0 where
  pub waiting : IsWaiting protobuf closure response call'
  pub listens :
      lookup call'.req_protocol.m_msg_id call'.channel.m_client.m_connection.m_read_dones
      ≡ some response_callback
  pub taken :
      call'.channel.m_client.m_connection.written
      ≡ call.channel.m_client.m_connection.written ++ packets (call.req_protocol ∷ [])
  pub request : call'.req_protocol ≡ call.req_protocol
  pub runs : call'.runs ≡ call.runs
  pub in_buffer :
      call'.channel.m_client.m_connection.m_in_buffer
      ≡ call.channel.m_client.m_connection.m_in_buffer

module _ {Message : Type 0} (thread : ℕ) where
  abbrev pub writing : Call Message → Call Message
  writing call =
      with_client call (write_message thread call.channel.m_client call.req_protocol sent_callback)

  pub on_connected_writes :
      (call : Call Message)
      → call.channel.m_client.m_connect_error_code ≡ 0
      → on_connected thread call ≡ writing call
  unfolding on_connected
  on_connected_writes call e =
      let client = call.channel.m_client in
      ap
        (λ code.
          if code == 0
          then writing call
          else fail call client.m_connect_error_code client.m_connect_error_info)
        e

  pub on_write_connected :
      (call : Call Message) (rs : List WriteResult)
      → call.channel.m_client.m_connection.m_state ≡ connected
      → on_write_call thread call rs ≡ write_connected_call thread call rs
  unfolding on_write_call
  on_write_connected call rs e =
      ap (λ state. if is_connected state then write_connected_call thread call rs else ok call) e

  -- The call behind the write that takes its request, and what the out buffer held, as a whole.
  abbrev pub written_call : Call Message → Call Message
  written_call call =
      let c = (writing call).channel.m_client.m_connection in
      on_sent thread (
        with_connection (writing call)
          (writes thread c (encode (call.req_protocol ∷ []) c.m_out_buffer).1))

  pub on_write_call_lem :
      (n : ℕ) (rs : List WriteResult) (call : Call Message)
      → let m = call.req_protocol in
        let c = call.channel.m_client.m_connection in
        let b = (encode (m ∷ []) c.m_out_buffer).1 in
        call.channel.m_client.m_connect_error_code ≡ 0
        → c.m_state ≡ connected
        → c.m_write_dones ≡ []
        → IsValid c.m_out_buffer
        → 3 * (c.m_out_buffer.m_write_index + length (packets (m ∷ []))) / 2 < 2 ^ 31
        → can_read_bytes_num b ≤ n
        → (on_write_call thread (on_connected thread call) (wrote n ∷ rs) ≡ ok (written_call call))
          × (contents b ≡ contents c.m_out_buffer ++ packets (m ∷ []))
  unfolding write_message listen_write push_send_message
  on_write_call_lem n rs call no_error state nothing_queued valid small all =
      let m = call.req_protocol in
      let (e, k) =
        write_connected_call_lem thread (writing call) m sent_callback n rs
          (ap (λ dones. dones ++ (m, sent_callback) ∷ []) nothing_queued) valid small all in
      (
        ap (λ d. on_write_call thread d (wrote n ∷ rs)) (on_connected_writes call no_error)
            ∙ on_write_connected (writing call) (wrote n ∷ rs) state
            ∙ e,
        k,
      )

module _ (protobuf : Protobuf) (thread : ℕ) where
  open protobuf use {Message}

  pub on_write_call-IsSent :
      (call : Call Message) (n : ℕ) (rs : List WriteResult) {closure : ℕ} {response : Message}
      → let m = call.req_protocol in
        let out = call.channel.m_client.m_connection.m_out_buffer in
        IsConnected closure response call
        → 3 * (out.m_write_index + length (packets (m ∷ []))) / 2 < 2 ^ 31
        → can_read_bytes_num (encode (m ∷ []) out).1 ≤ n
        → (call' : Call Message) × (on_write_call thread (on_connected thread call) (wrote n ∷ rs)
            ≡ ok call')
          × IsSent protobuf closure response call call'
  unfolding write_message on_sent read_message listen_read listen_write push_send_message
      push_read_message stop_writing cancel listen
  on_write_call-IsSent call n rs s small all =
      let m = call.req_protocol in
      let client = call.channel.m_client in
      let c = client.m_connection in
      let (e, k) =
        on_write_call_lem thread n rs call s.no_error s.state s.nothing_queued s.valid_out small
          all in
      (
        written_call thread call,
        e,
        record {
          waiting = record {
            spent = with_client-IsSpent call _ refl s.spent;
            kept = s.kept;
            not_cancelled = s.not_cancelled;
            closes = s.closes;
            fills = s.fills;
            state = s.state;
            valid = s.valid_in;
            nothing = s.unread;
            small = s.small;
          };
          listens = lookup_inserted m.m_msg_id response_callback c.m_read_dones s.unregistered;
          taken = ap (λ xs. c.written ++ xs) (k ∙ ap (λ xs. xs ++ packets (m ∷ [])) s.unsent);
          request = refl;
          runs = refl;
          in_buffer = refl;
        },
      )
