-- ===== src/Tcp/Connection.antt =====
-- src/net/tcp/tcp_connection.cc: one connection, of a server or of a client.
use tiny_rpc.Base.{
  ℕ, zero, suc, ◌+◌, List, [], ◌∷◌, ◌++◌, map, Bool, true, false, none, some, Outcome, ok, stuck,
  ◌>>=◌, ◌||◌, if◌then◌else◌, get_elem?, lookup, insert_new,
}
use tiny_rpc.Buffer.{TcpBuffer, new_buffer}
use tiny_rpc.Tcp.Socket.{ReadResult, WriteResult, read_loop, write_loop}
use tiny_rpc.Coder.Protocol.{ProtobufProtocol, new_protocol}
use tiny_rpc.Coder.Encode.{encode}
use tiny_rpc.Coder.Decode.{decode}
use tiny_rpc.Rpc.Protobuf.{Protobuf}
use tiny_rpc.Rpc.Dispatcher.{Connection, ServiceMap, dispatcher}
use tiny_rpc.Reactor.FdEvent.{FdEvent, in_event, out_event, listen, cancel}
use tiny_rpc.Reactor.EventLoop.{EventLoop, add_epoll_event, delete_epoll_event}

pub data TcpState : Type 0 where
  not_connected connected half_closing closed : TcpState

pub data TcpConnectionType : Type 0 where
  by_server by_client : TcpConnectionType

-- Callbacks are numbers; those of the connection's own functions are the two below. `addrs` holds
-- `m_local_addr` and `m_peer_addr`, which only a server's connection reads. The model keeps the bytes
-- that `write` has taken, and the number of calls of `shutdown(m_fd, SHUT_RDWR)`.
pub record TcpConnection : Type 0 where
  pub addrs : Connection
  pub m_event_loop : EventLoop
  pub m_in_buffer : TcpBuffer
  pub m_out_buffer : TcpBuffer
  pub m_fd_event : FdEvent
  pub m_state : TcpState
  pub m_connection_type : TcpConnectionType
  pub m_write_dones : List (ProtobufProtocol × ℕ)
  pub m_read_dones : List (List ℕ × ℕ)
  pub written : List ℕ
  pub shutdowns : ℕ

abbrev pub on_read_callback : ℕ
on_read_callback = 0

abbrev pub on_write_callback : ℕ
on_write_callback = 1

abbrev pub is_connected : TcpState → Bool
is_connected connected = true
is_connected _ = false

abbrev pub is_closed : TcpState → Bool
is_closed closed = true
is_closed _ = false

abbrev pub is_not_connected : TcpState → Bool
is_not_connected not_connected = true
is_not_connected _ = false

unfoldable pub set_state : TcpConnection → TcpState → TcpConnection
set_state c state = record c { m_state = state }

unfoldable pub set_connection_type : TcpConnection → TcpConnectionType → TcpConnection
set_connection_type c type = record c { m_connection_type = type }

unfoldable pub push_send_message : TcpConnection → ProtobufProtocol → ℕ → TcpConnection
push_send_message c message done = record c {
  m_write_dones = c.m_write_dones ++ (message, done) ∷ [];
}

unfoldable pub push_read_message : TcpConnection → List ℕ → ℕ → TcpConnection
push_read_message c req_id done = record c { m_read_dones = insert_new req_id done c.m_read_dones }

unfoldable pub shutdown : TcpConnection → TcpConnection
shutdown c =
    if is_closed c.m_state || is_not_connected c.m_state
    then c
    else record c { m_state = half_closing; shutdowns = c.shutdowns + 1 }

abbrev pub with_messages :
    List (ProtobufProtocol × ℕ) → List ProtobufProtocol → List (ProtobufProtocol × ℕ)
with_messages ((_, done) ∷ dones) (m ∷ ms) = (m, done) ∷ with_messages dones ms
with_messages _ _ = []

-- A client's messages are encoded first, which also sets their lengths.
unfoldable pub encode_messages : TcpConnectionType → TcpConnection → TcpConnection
encode_messages by_server c = c
encode_messages by_client c =
    let (ms, b) = encode (map (λ d. d.0) c.m_write_dones) c.m_out_buffer in
    record c { m_write_dones = with_messages c.m_write_dones ms; m_out_buffer = b }

-- The thread that runs the functions is a parameter: the loop's own one, or another.
module _ (thread : ℕ) where
  unfoldable pub listen_write : TcpConnection → TcpConnection
  listen_write c =
      let e = listen c.m_fd_event out_event (some on_write_callback) none in
      record c { m_fd_event = e; m_event_loop = add_epoll_event thread c.m_event_loop e }

  unfoldable pub listen_read : TcpConnection → TcpConnection
  listen_read c =
      let e = listen c.m_fd_event in_event (some on_read_callback) none in
      record c { m_fd_event = e; m_event_loop = add_epoll_event thread c.m_event_loop e }

  -- The constructor, with the event that the group has for the descriptor.
  unfoldable pub new_connection :
      EventLoop → FdEvent → ℕ → Connection → TcpConnectionType → TcpConnection
  unfolding listen_read
  new_connection event_loop fd_event buffer_size addrs type =
      let c : TcpConnection = record {
        addrs = addrs;
        m_event_loop = event_loop;
        m_in_buffer = new_buffer buffer_size;
        m_out_buffer = new_buffer buffer_size;
        m_fd_event = fd_event;
        m_state = not_connected;
        m_connection_type = type;
        m_write_dones = [];
        m_read_dones = [];
        written = [];
        shutdowns = 0;
      } in
      elim type [ by_server ↦ listen_read c | by_client ↦ c ]

  -- `clear` behind its guard.
  unfoldable pub close : TcpConnection → TcpConnection
  close c =
      let e = cancel (cancel c.m_fd_event in_event) out_event in
      record c {
        m_fd_event = e;
        m_event_loop = delete_epoll_event thread c.m_event_loop e;
        m_state = closed;
      }

  unfoldable pub clear : TcpConnection → TcpConnection
  unfolding close
  clear c = if is_closed c.m_state then c else close c

  unfoldable pub stop_writing : Bool → TcpConnection → TcpConnection
  stop_writing is_write_all c =
      let e = cancel c.m_fd_event out_event in
      if is_write_all
      then record c { m_fd_event = e; m_event_loop = add_epoll_event thread c.m_event_loop e }
      else c

  -- What a client's callback does to the connection is a parameter.
  module _ (exec : ℕ → ProtobufProtocol → TcpConnection → TcpConnection) (protobuf : Protobuf)
      (services : ServiceMap protobuf) where
    -- The loop of a server's `excute`, before `encode`.
    unfoldable pub replies : Connection → List ProtobufProtocol → List ProtobufProtocol
    replies addrs result =
        map (λ request. dispatcher protobuf services addrs request new_protocol) result

    -- The loop of a client's `excute`.
    unfoldable pub run_read_dones : TcpConnection → List ProtobufProtocol → TcpConnection
    run_read_dones c [] = c
    run_read_dones c (m ∷ result) =
        run_read_dones
          (elim (lookup m.m_msg_id c.m_read_dones) [ none ↦ c | some done ↦ exec done m c ]) result

    unfoldable pub answer_requests : TcpConnection → List ProtobufProtocol → TcpConnection
    unfolding replies listen_write
    answer_requests c result =
        let (ms, b) = encode (replies c.addrs result) c.m_out_buffer in
        listen_write (record c { m_out_buffer = b })

    -- `excute` behind `decode`, for a server and for a client.
    unfoldable pub excute_as :
        TcpConnectionType → TcpConnection → List ProtobufProtocol → TcpConnection
    unfolding answer_requests run_read_dones
    excute_as by_server c result = answer_requests c result
    excute_as by_client c result = run_read_dones c result

    unfoldable pub excute : TcpConnection → Outcome TcpConnection
    unfolding excute_as
    excute c = do
      (result, b) ← decode [] c.m_in_buffer
      ok (excute_as c.m_connection_type (record c { m_in_buffer = b }) result)

    -- `on_read` behind its guard.
    unfoldable pub read_connected : TcpConnection → List ReadResult → Outcome TcpConnection
    unfolding read_loop clear excute
    read_connected c rs = do
      (is_close, b) ← read_loop c.m_in_buffer rs
      let c' = record c { m_in_buffer = b } in if is_close then ok (clear c') else excute c'

    unfoldable pub on_read : TcpConnection → List ReadResult → Outcome TcpConnection
    unfolding read_connected
    on_read c rs = if is_connected c.m_state then read_connected c rs else ok c

    -- The last loop of a client's `on_write`: a callback can push messages, which are then run as well.
    unfoldable pub run_write_dones : ℕ → ℕ → TcpConnection → Outcome TcpConnection
    run_write_dones zero i c = stuck
    run_write_dones (suc fuel) i c = elim (get_elem? c.m_write_dones i) [
      | none ↦ ok (record c { m_write_dones = [] })
      | some (message, done) ↦ run_write_dones fuel (i + 1) (exec done message c)
    ]

    -- The end of `on_write`, for a server and for a client.
    unfoldable pub after_write : TcpConnectionType → ℕ → TcpConnection → Outcome TcpConnection
    unfolding run_write_dones
    after_write by_server fuel c = ok c
    after_write by_client fuel c = run_write_dones fuel 0 c

    -- `on_write` behind its guard.
    unfoldable pub write_connected :
        TcpConnectionType → ℕ → TcpConnection → List WriteResult → Outcome TcpConnection
    unfolding write_loop encode_messages stop_writing after_write
    write_connected type fuel c rs =
        let c' = encode_messages type c in
        do
          (is_write_all, written) ← write_loop c'.m_out_buffer c'.written rs
          after_write type fuel (stop_writing is_write_all (record c' { written = written }))

    unfoldable pub on_write : ℕ → TcpConnection → List WriteResult → Outcome TcpConnection
    unfolding write_connected
    on_write fuel c rs =
        if is_connected c.m_state then write_connected c.m_connection_type fuel c rs else ok c
