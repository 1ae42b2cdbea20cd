-- ===== src/Tests/RemoteCall.antt =====
-- A call of `Or.mk` from end to end, and a request that arrives in two parts.
use tiny_rpc.Base.{
  ℕ, ◌≡◌, ◌<◌, refl, List, [], ◌∷◌, ok, arith, length, codes, lookup, same, take, drop, map, false,
  none,
}
use tiny_rpc.Buffer.{TcpBuffer, can_write_bytes_num, new_buffer, write_to_buffer, make_room}
use tiny_rpc.Coder.Encode.{encode, encode_protobuf}
use tiny_rpc.Buffer.Contents.{contents}
use tiny_rpc.Coder.Append.{packets}
use tiny_rpc.Coder.RoundTrip.{decoded, IsReady}
use tiny_rpc.Coder.Decode.{decode}
use tiny_rpc.Tcp.InParts.{decode_in_parts}
use tiny_rpc.Rpc.Dispatch.{Served}
use tiny_rpc.Reactor.FdEvent.{new_fd_event}
use tiny_rpc.Tcp.Connection.{TcpConnection, connected, by_server, new_connection, on_read}
use tiny_rpc.Tcp.Socket.{read_bytes, wrote, room_to_read, read_loop}
use tiny_rpc.Channel.{Call, init, new_channel, with_client}
use tiny_rpc.Channel.Response.{IsAnswered}
use tiny_rpc.Channel.Receiving.{on_read_call}
use tiny_rpc.Channel.CallMethod.{begun, send_call}
use tiny_rpc.Channel.RemoteCall.{IsIdle}
use tiny_rpc.Channel.Sending.{on_write_call}
use tiny_rpc.Channel.Written.{written_call}
use tiny_rpc.Channel.Begun.{IsFresh, requesting}
use tiny_rpc.Channel.WholeCall.{whole_call_completes}
use tiny_rpc.Tcp.Client.{runs_done, connects, new_client}
use tiny_rpc.Tests.Data.{
  request, request-IsSendable, holding, empty, empty-IsValid, echo, orders, local_host,
}
use tiny_rpc.Tests.Calls.{idle_loop, strerror, first_call, first_call-IsNew}

decoded-Served : Served echo orders local_host (decoded request) (5 ∷ 6 ∷ 1 ∷ [])
unfolding lookup same
decoded-Served = record {
  service_name = codes "Or";
  method_name = codes "mk";
  service = codes "Or";
  method = codes "mk";
  message = 5 ∷ 6 ∷ [];
  named = refl;
  undotted = ground arith;
  registered = refl;
  found = refl;
  parsed = refl;
  serialized = refl;
}

abbrev server : TcpConnection
server = record {
  addrs = local_host;
  m_event_loop = idle_loop;
  m_in_buffer = empty;
  m_out_buffer = empty;
  m_fd_event = new_fd_event 9;
  m_state = connected;
  m_connection_type = by_server;
  m_write_dones = [];
  m_read_dones = [];
  written = [];
  shutdowns = 0;
}

empty-room : 35 < can_write_bytes_num (room_to_read empty)
unfolding room_to_read
empty-room = omega arith

server-IsIdle : IsIdle echo (packets (request ∷ [])) server
server-IsIdle = record {
  state = refl;
  type = refl;
  valid_in = empty-IsValid;
  valid_out = empty-IsValid;
  unread = refl;
  unsent = refl;
  small = omega arith;
  room = omega (arith, empty-room);
}

first_call-IsFresh : IsFresh 9 [] (requesting echo 1 strerror first_call (5 ∷ 6 ∷ []))
unfolding init new_channel new_client new_connection new_buffer lookup
first_call-IsFresh = record {
  new = first_call-IsNew;
  not_run = refl;
  kept = refl;
  not_cancelled = refl;
  is_init = refl;
  closes = refl;
  fills = refl;
  no_error = refl;
  nothing_queued = refl;
  valid_in = record { read_le = omega arith; write_le = omega arith; small = omega arith };
  unread = refl;
  small = omega arith;
  valid_out = record { read_le = omega arith; write_le = omega arith; small = omega arith };
  unsent = refl;
  unregistered = refl;
}

whole_call_completes_example :
    (begun_call : Call (List ℕ)) × (sent_call : Call (List ℕ)) × (answered_call : Call (List ℕ))
    × (c' : TcpConnection) × (send_call echo 1 strerror 100 connects none (5 ∷ 6 ∷ []) first_call
        ≡ begun begun_call runs_done)
    × (on_write_call 1 begun_call (wrote 100 ∷ []) ≡ ok sent_call)
    × (on_read 2
          (λ done m c. c)
          echo
          orders
          server
          (read_bytes sent_call.channel.m_client.m_connection.written ∷ [])
        ≡ ok c')
    × (on_read_call echo 1 sent_call (read_bytes (contents c'.m_out_buffer) ∷ [])
        ≡ ok answered_call)
    × IsAnswered echo [] 9 (5 ∷ 6 ∷ 1 ∷ []) answered_call
unfolding init new_channel new_client new_connection new_buffer room_to_read encode encode_protobuf
    write_to_buffer make_room
whole_call_completes_example =
    whole_call_completes echo 1 strerror 2 (λ done m c. c) orders 100 100 none (5 ∷ 6 ∷ [])
      (5 ∷ 6 ∷ []) (5 ∷ 6 ∷ 1 ∷ []) first_call server [] [] [] first_call-IsFresh refl
      request-IsSendable (λ e. absurd (omega (arith, e))) (omega arith) (omega arith) refl
      server-IsIdle decoded-Served (omega arith) (omega arith) (omega arith) refl

-- The first seven bytes of the request, and the others.
abbrev first_part : TcpBuffer
first_part = holding (take 7 (packets (request ∷ [])))

abbrev other_part : List ℕ
other_part = drop 7 (packets (request ∷ []))

first_part-IsReady : IsReady first_part
first_part-IsReady = record {
  valid = record { read_le = omega arith; write_le = omega arith; small = omega arith };
  not_full = omega arith;
}

other_part-fits : length other_part < can_write_bytes_num (room_to_read first_part)
unfolding room_to_read
other_part-fits = omega arith

decode_in_parts_example :
    (decode [] first_part ≡ ok ([], first_part))
    × ((b' b'' : TcpBuffer) × (read_loop first_part (read_bytes other_part ∷ []) ≡ ok (false, b'))
        × (decode [] b' ≡ ok (map decoded (request ∷ []), b''))
        × (contents b'' ≡ []))
decode_in_parts_example =
    decode_in_parts (request ∷ []) 34 (0 ∷ 0 ∷ []) other_part [] first_part first_part-IsReady refl
      (omega arith) (omega arith) (ground arith) (request-IsSendable, tt) refl (omega arith)
      (omega arith) other_part-fits

-- The first call with its client connected, and its data.
abbrev joined_call : Call (List ℕ)
joined_call =
    let call = requesting echo 1 strerror first_call (5 ∷ 6 ∷ []) in
    let client = call.channel.m_client in
    with_client call
      (record client { m_connection = record client.m_connection { m_state = connected } })

-- The call that has sent its request.
abbrev sent_call : Call (List ℕ)
sent_call = written_call 1 joined_call

-- The next call on the connection, which waits for the response no more.
abbrev next_call : Call (List ℕ)
next_call =
    let client = sent_call.channel.m_client in
    with_client sent_call
      (record client { m_connection = record client.m_connection { m_read_dones = [] } })
