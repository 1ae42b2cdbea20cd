-- ===== src/Rpc/Dispatcher.antt =====
-- src/net/rpc/rpc_dispatchor.cc: a request is answered by the service and method that it names.
use tiny_rpc.Base.{
  ℕ, suc, ◌%◌, ◌^◌, List, Option, none, some, if◌then◌else◌, ◌==◌, length, take, drop, codes,
  find_first_of, lookup, assign,
}
use tiny_rpc.Address.{IPv4NetAddr}
use tiny_rpc.Coder.Protocol.{ProtobufProtocol}
use tiny_rpc.Rpc.Controller.{
  RpcController, new_controller, set_local_addr, set_peer_addr, set_msg_id,
}
use tiny_rpc.Rpc.ErrorCode.{
  error_parse_service_name, error_service_not_found, error_method_not_found,
  error_failed_deserialize,
}
use tiny_rpc.Rpc.Protobuf.{Protobuf}

unfoldable pub set_protobuf_error : ProtobufProtocol → ℕ → List ℕ → ProtobufProtocol
set_protobuf_error msg err_code err_info = record msg {
  m_err_code = err_code;
  m_err_info_len = length err_info % 2 ^ 32;
  m_err_info = err_info;
}

-- The names that are set, `none` where the function returns false.
unfoldable pub parse_service_full_name : List ℕ → Option (List ℕ × List ℕ)
parse_service_full_name full_name =
    if length full_name == 0 then none else elim (find_first_of b'.' full_name) [
      | none ↦ none
      | some pos ↦ some (take pos full_name, drop (suc pos) full_name)
    ]

-- What the connection of a request lends to the call. The addresses are there: a server's connection
-- has both, and the log lines of `dispatcher` read them.
pub record Connection : Type 0 where
  pub local_addr : IPv4NetAddr
  pub peer_addr : IPv4NetAddr

module _ (protobuf : Protobuf) where
  open protobuf use {
    Service, MethodDescriptor, Message, full_name, find_method_by_name, new_request, new_response,
    parse_from_string, call_method, serialize_to_string,
  }

  -- `m_service_map`.
  abbrev pub ServiceMap : Type 0
  ServiceMap = List (List ℕ × Service)

  unfoldable pub register_service : ServiceMap → Service → ServiceMap
  register_service services service = assign (full_name service) service services

  abbrev pub call_controller : Connection → ProtobufProtocol → RpcController
  call_controller conection request =
      set_msg_id
        (set_peer_addr (set_local_addr new_controller (some conection.local_addr))
          (some conection.peer_addr))
        request.m_msg_id

  -- The end of `dispatcher`: the request is parsed, and the method is there.
  unfoldable pub answer :
      Service → MethodDescriptor → RpcController → Message → ProtobufProtocol → ProtobufProtocol
  unfolding set_protobuf_error
  answer service method controller req_message response =
      let rsp_message =
        call_method service method controller req_message (new_response service method) in
      let (serialized, pb_data) = serialize_to_string rsp_message in
      let response' = record response { m_pb_data = pb_data } in
      if serialized
      then record response' { m_err_code = 0 }
      else set_protobuf_error response' error_service_not_found (codes "serilize error")

  unfoldable pub dispatch_method :
      Connection → Service → List ℕ → ProtobufProtocol → ProtobufProtocol → ProtobufProtocol
  unfolding set_protobuf_error answer
  dispatch_method conection service method_name request response =
      elim (find_method_by_name service method_name) [
        | none ↦ set_protobuf_error response error_method_not_found (codes "method not found")
        | some method ↦ elim (parse_from_string (new_request service method) request.m_pb_data) [
          | none ↦ set_protobuf_error response error_failed_deserialize (codes "serialize error")
          | some req_message ↦
              answer service method (call_controller conection request) req_message response
        ]
      ]

  -- The response after the call.
  unfoldable pub dispatcher :
      ServiceMap → Connection → ProtobufProtocol → ProtobufProtocol → ProtobufProtocol
  unfolding set_protobuf_error dispatch_method
  dispatcher services conection request response =
      let response' = record response {
        m_msg_id = request.m_msg_id;
        m_method_name = request.m_method_name;
      } in
      elim (parse_service_full_name request.m_method_name) [
        | none ↦
            set_protobuf_error response' error_parse_service_name (codes "parse service name error")
        | some (service_name, method_name) ↦ elim (lookup service_name services) [
          | none ↦ set_protobuf_error response' error_service_not_found (codes "service not found")
          | some service ↦ dispatch_method conection service method_name request response'
        ]
      ]
