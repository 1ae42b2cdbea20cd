-- ===== src/Tests/Answers.antt =====
-- The dispatcher and the connections.
use tiny_rpc.Base.{
  ℕ, ◌≡◌, ◌↔◌, refl, [], ◌∷◌, ◌++◌, map, ok, arith, length, codes, replicate, true, false, some,
  lookup, same, find_first_of, ap, ◌+◌, ◌*◌, ◌/◌, ◌<◌, ◌^◌,
}
use tiny_rpc.Buffer.{TcpBuffer}
use tiny_rpc.Buffer.Invariant.{IsValid}
use tiny_rpc.Buffer.Contents.{contents}
use tiny_rpc.Coder.Protocol.{ProtobufProtocol, new_protocol}
use tiny_rpc.Coder.Append.{packets}
use tiny_rpc.Coder.RoundTrip.{IsReady}
use tiny_rpc.Rpc.Dispatcher.{parse_service_full_name, dispatcher, dispatch_method, answer}
use tiny_rpc.Rpc.Names.{NoDot, parse_service_full_name_iff}
use tiny_rpc.Rpc.Dispatch.{Served, dispatcher-Served, dispatcher_ok}
use tiny_rpc.Reactor.FdEvent.{new_fd_event, out_event, cancel}
use tiny_rpc.Reactor.EventLoop.{EventLoop, epoll_ctl_add, has_fd, add_epoll_event}
use tiny_rpc.Tcp.Connection.{
  TcpConnection, connected, closed, by_server, replies, on_read, on_write,
}
use tiny_rpc.Tcp.Socket.{read_bytes, read_again, wrote, room_to_read, take_in, read_loop}
use tiny_rpc.Tcp.Reading.{read_loop_full}
use tiny_rpc.Tcp.Answering.{answers, on_read-answers}
use tiny_rpc.Tcp.Writing.{beginnings, on_write_lem}
use tiny_rpc.Tcp.Closing.{IsClosed, on_read_closes}
use tiny_rpc.Tests.Data.{
  request, request-IsSendable, empty, empty-IsValid, one_request, one_request-IsReady, echo, orders,
  local_host,
}

parse_service_full_name_iff_example :
    (parse_service_full_name (codes "Or.mk") ≡ some (codes "Or", codes "mk"))
    ↔ ((codes "Or.mk" ≡ codes "Or" ++ b'.' ∷ codes "mk") × NoDot (codes "Or"))
parse_service_full_name_iff_example =
    parse_service_full_name_iff (codes "Or.mk") (codes "Or") (codes "mk")

request-Served : Served echo orders local_host request (5 ∷ 6 ∷ 1 ∷ [])
unfolding lookup same
request-Served = record {
  service_name = codes "Or";
  method_name = codes "mk";
  service = codes "Or";
  method = codes "mk";
  message = 5 ∷ 6 ∷ [];
  named = refl;
  undotted = ground arith;
  registered = refl;
  found = refl;
  parsed = refl;
  serialized = refl;
}

dispatcher-Served_example :
    dispatcher echo orders local_host request new_protocol ≡ record new_protocol {
      m_msg_id = codes "7";
      m_method_name = codes "Or.mk";
      m_pb_data = 5 ∷ 6 ∷ 1 ∷ [];
      m_err_code = 0;
    }
dispatcher-Served_example =
    dispatcher-Served echo orders local_host request new_protocol (5 ∷ 6 ∷ 1 ∷ []) request-Served

request_answered : dispatcher echo orders local_host request new_protocol ≡ record new_protocol {
  m_msg_id = codes "7";
  m_method_name = codes "Or.mk";
  m_pb_data = 5 ∷ 6 ∷ 1 ∷ [];
  m_err_code = 0;
}
unfolding dispatcher parse_service_full_name find_first_of lookup same dispatch_method answer
request_answered = refl

dispatcher_ok_example :
    Served echo orders local_host request
      (dispatcher echo orders local_host request new_protocol).m_pb_data
dispatcher_ok_example =
    dispatcher_ok echo orders local_host request new_protocol
      (ap (λ r. r.m_err_code) request_answered)

abbrev idle : EventLoop
idle = record {
  m_thread_id = 1;
  m_stop_flag = false;
  m_listen_fds = [];
  m_pending_tasks = [];
  m_is_looping = true;
  epoll_calls = [];
  wake_ups = 0;
}

-- A connection of a server, with the given bytes to send.
abbrev serving : TcpBuffer → TcpConnection
serving out = record {
  addrs = local_host;
  m_event_loop = idle;
  m_in_buffer = empty;
  m_out_buffer = out;
  m_fd_event = new_fd_event 5;
  m_state = connected;
  m_connection_type = by_server;
  m_write_dones = [];
  m_read_dones = [];
  written = [];
  shutdowns = 0;
}

abbrev ignore : ℕ → ProtobufProtocol → TcpConnection → TcpConnection
ignore done m c = c

answer_small :
    3 * (0 + length (packets (answers 1 ignore echo orders local_host (request ∷ [])))) / 2 < 2 ^ 31
unfolding replies dispatcher parse_service_full_name find_first_of lookup same dispatch_method
    answer
answer_small = omega arith

on_read-answers_example :
    (c' : TcpConnection) × (on_read 1 ignore echo orders
        (serving empty)
        (read_bytes (packets (request ∷ [])) ∷ [])
      ≡ ok c')
    × (contents c'.m_out_buffer
        ≡ contents empty ++ packets (answers 1 ignore echo orders local_host (request ∷ [])))
    × IsValid c'.m_out_buffer
    × (contents c'.m_in_buffer ≡ [])
    × IsReady c'.m_in_buffer
unfolding room_to_read
on_read-answers_example =
    on_read-answers 1 ignore echo orders (serving empty) (packets (request ∷ [])) [] (request ∷ [])
      [] refl refl empty-IsValid empty-IsValid (omega arith) (omega arith) (omega arith) refl
      (request-IsSendable, tt) tt answer_small

read_loop_full_example :
    (b' : TcpBuffer) × (read_loop empty (read_bytes (replicate 64 7) ∷ read_again ∷ [])
      ≡ ok (false, b'))
    × (contents b' ≡ contents empty)
unfolding room_to_read
read_loop_full_example =
    read_loop_full {b = empty} (replicate 64 7) [] empty-IsValid (omega arith) (omega arith)
      (omega arith)

-- The first `write` takes 4 bytes of the 34.
on_write_lem_example :
    (c' : TcpConnection) × (on_write 1 ignore echo orders 0
        (serving one_request)
        (map wrote (4 ∷ []) ++ wrote 34 ∷ [])
      ≡ ok c')
    × (c'.written ≡ [] ++ (beginnings (contents one_request) (4 ∷ []) ++ contents one_request))
    × (c'.m_out_buffer ≡ one_request)
    × (c'.m_fd_event ≡ cancel (new_fd_event 5) out_event)
    × (c'.m_fd_event.epollout ≡ false)
    × (c'.m_event_loop ≡ add_epoll_event 1 idle c'.m_fd_event)
on_write_lem_example =
    on_write_lem 1 ignore echo orders 0 (serving one_request) (4 ∷ []) 34 [] refl refl
      one_request-IsReady.valid (omega arith) (omega arith, tt) (omega arith)

abbrev finished : TcpConnection
finished = record (serving empty) { m_state = closed }

-- The server's connection of the descriptor 5, which its loop has added.
abbrev watched : TcpConnection
watched = record (serving one_request) {
  m_event_loop = record idle {
    m_listen_fds = 5 ∷ [];
    epoll_calls = record { op = epoll_ctl_add; fd = 5; wants_in = true; wants_out = false } ∷ [];
  };
}

-- The reads fill the buffer and come to the end of the stream.
on_read_closes_example :
    (c' : TcpConnection) × (on_read 1 ignore echo orders watched
        (read_bytes (replicate 64 7) ∷ read_bytes [] ∷ [])
      ≡ ok c')
    × IsClosed 1 ignore echo orders c'
    × (c'.m_fd_event.m_fd ≡ 5)
    × (c'.m_in_buffer ≡ room_to_read (take_in empty (replicate 64 7)))
    × (c'.m_out_buffer ≡ one_request)
unfolding read_loop room_to_read take_in has_fd new_fd_event
on_read_closes_example =
    on_read_closes 1 ignore echo orders watched (read_bytes (replicate 64 7) ∷ read_bytes [] ∷ [])
      (room_to_read (take_in empty (replicate 64 7))) refl refl (record { agreed = refl }) refl
