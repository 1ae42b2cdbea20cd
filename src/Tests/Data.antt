-- ===== src/Tests/Data.antt =====
-- The requests, buffers and services that the tests run on.
use tiny_rpc.Base.{
  ℕ, List, [], ◌∷◌, ◌++◌, true, some, none, if◌then◌else◌, codes, length, same, arith, ltb,
}
use tiny_rpc.Address.{IPv4NetAddr, htons}
use tiny_rpc.Buffer.{TcpBuffer, fresh_with}
use tiny_rpc.Buffer.Invariant.{IsValid}
use tiny_rpc.Coder.Protocol.{ProtobufProtocol, new_protocol}
use tiny_rpc.Coder.Append.{packets}
use tiny_rpc.Coder.Packet.{IsSendable}
use tiny_rpc.Coder.RoundTrip.{IsReady}
use tiny_rpc.Rpc.Protobuf.{Protobuf}
use tiny_rpc.Rpc.Dispatcher.{Connection, ServiceMap}

abbrev pub request : ProtobufProtocol
request = record new_protocol {
  m_msg_id = codes "7";
  m_method_name = codes "Or.mk";
  m_pb_data = 5 ∷ 6 ∷ [];
}

pub request-IsSendable : IsSendable request
request-IsSendable = record {
  id_clean = ground arith;
  id_short = omega arith;
  name_clean = ground arith;
  name_short = omega arith;
  info_clean = tt;
  info_short = omega arith;
  code_small = omega arith;
  data_small = omega arith;
}

-- A buffer of 64 bytes that holds `bytes`.
abbrev pub holding : List ℕ → TcpBuffer
holding bytes = record {
  m_read_index = 0;
  m_write_index = length bytes;
  m_size = 64;
  m_buffer = fresh_with 64 bytes;
}

abbrev pub empty : TcpBuffer
empty = holding []

pub empty-IsValid : IsValid empty
empty-IsValid = record { read_le = omega arith; write_le = omega arith; small = omega arith }

abbrev pub one_request : TcpBuffer
one_request = holding (packets (request ∷ []))

pub one_request-IsReady : IsReady one_request
one_request-IsReady = record {
  valid = record { read_le = omega arith; write_le = omega arith; small = omega arith };
  not_full = omega arith;
}

-- A service is its full name, and its one method, `mk`, appends a byte to its request.
abbrev pub echo : Protobuf
echo = record {
  Service = List ℕ;
  MethodDescriptor = List ℕ;
  Message = List ℕ;
  full_name = λ s. s;
  find_method_by_name = λ s m. if same m (codes "mk") then some m else none;
  new_request = λ s m. [];
  new_response = λ s m. [];
  parse_from_string = λ m text. if ltb (length text) 9 then some text else none;
  call_method = λ s m c q r. q ++ 1 ∷ [];
  serialize_to_string = λ m. (true, m);
}

abbrev pub orders : ServiceMap echo
orders = (codes "Or", codes "Or") ∷ []

-- The addresses 127.0.0.1:12345 and 127.0.0.1:40000.
abbrev pub loopback : ℕ → IPv4NetAddr
loopback port = record {
  m_ip = codes "127.0.0.1";
  m_port = port;
  m_addr = record { sin_family = 2; sin_port = htons port; sin_addr = 16777343 };
}

abbrev pub local_host : Connection
local_host = record { local_addr = loopback 12345; peer_addr = loopback 40000 }
