-- ===== src/Rpc/Dispatch.antt =====
-- `RpcDispatcher::dispatcher`: which requests are served, and what every response carries.
use tiny_rpc.Base.{ℕ, ◌≡◌, ◌∙◌, inl, inr, List, ◌∷◌, ◌++◌, true, some, arith, lookup, Option-cases}
use tiny_rpc.Coder.Protocol.{ProtobufProtocol}
use tiny_rpc.Rpc.Controller.{RpcController}
use tiny_rpc.Rpc.Protobuf.{Protobuf}
use tiny_rpc.Rpc.Dispatcher.{
  Connection, ServiceMap, parse_service_full_name, call_controller, answer, dispatch_method,
  dispatcher,
}
use tiny_rpc.Rpc.Names.{NoDot, parse_service_full_name_iff}

module _ (protobuf : Protobuf) where
  open protobuf use {
    Service, MethodDescriptor, Message, full_name, find_method_by_name, new_request, new_response,
    parse_from_string, call_method, serialize_to_string,
  }

  -- Every response of the dispatcher, an error included, repeats the message id and the method
  -- name of its request.
  dispatcher_echo :
      (services : ServiceMap protobuf) (conection : Connection)
      (request response : ProtobufProtocol)
      → let r = dispatcher protobuf services conection request response in
        (r.m_msg_id ≡ request.m_msg_id) × (r.m_method_name ≡ request.m_method_name)
  unfolding dispatcher
  dispatcher_echo services conection request response = ground arith

  -- A request is served: its name is that of a registered service and a method of it, its data can
  -- be parsed, and the response of the method can be serialized. The last component is that text.
  pub record Served (services : ServiceMap protobuf) (conection : Connection)
      (request : ProtobufProtocol) (pb_data : List ℕ) : Type 0 where
    pub service_name : List ℕ
    pub method_name : List ℕ
    pub service : Service
    pub method : MethodDescriptor
    pub message : Message
    pub named : request.m_method_name ≡ service_name ++ b'.' ∷ method_name
    pub undotted : NoDot service_name
    pub registered : lookup service_name services ≡ some service
    pub found : find_method_by_name service method_name ≡ some method
    pub parsed : parse_from_string (new_request service method) request.m_pb_data ≡ some message
    pub serialized :
        serialize_to_string (
          call_method service method
            (call_controller protobuf conection request)
            message
            (new_response service method))
        ≡ (true, pb_data)

  -- The chain of lookups, link by link.
  abbrev echoed : ProtobufProtocol → ProtobufProtocol → ProtobufProtocol
  echoed request response = record response {
    m_msg_id = request.m_msg_id;
    m_method_name = request.m_method_name;
  }

  pub dispatcher-dispatch_method :
      (conection : Connection) (request response : ProtobufProtocol)
      (services : ServiceMap protobuf) (s m : List ℕ) (service : Service)
      → parse_service_full_name request.m_method_name ≡ some (s, m)
      → lookup s services ≡ some service
      → dispatcher protobuf services conection request response
        ≡ dispatch_method protobuf conection service m request
            (record response { m_msg_id = request.m_msg_id; m_method_name = request.m_method_name })
  unfolding dispatcher
  dispatcher-dispatch_method conection request response services s m service f g =
      rw (f, g, dispatcher)

  dispatch_method-answer :
      (conection : Connection) (request response : ProtobufProtocol) (service : Service)
      (name : List ℕ) (method : MethodDescriptor) (message : Message)
      → find_method_by_name service name ≡ some method
      → parse_from_string (new_request service method) request.m_pb_data ≡ some message
      → dispatch_method protobuf conection service name request response
        ≡ answer protobuf service method
            (call_controller protobuf conection request)
            message
            response
  unfolding dispatch_method
  dispatch_method-answer conection request response service name method message f p =
      rw (f, p, dispatch_method)

  answer_served :
      (service : Service) (method : MethodDescriptor) (controller : RpcController)
      (message : Message) (response : ProtobufProtocol) (pb_data : List ℕ)
      → serialize_to_string
          (call_method service method controller message (new_response service method))
        ≡ (true, pb_data)
      → answer protobuf service method controller message response
        ≡ record response { m_pb_data = pb_data; m_err_code = 0 }
  unfolding answer
  answer_served service method controller message response pb_data e = rw (e, answer)

  -- A request that can be served is answered with error code 0 and the serialized result of the
  -- method, under the message id and method name of the request.
  pub dispatcher-Served :
      (services : ServiceMap protobuf) (conection : Connection)
      (request response : ProtobufProtocol) (pb_data : List ℕ)
      → Served services conection request pb_data
      → dispatcher protobuf services conection request response ≡ record response {
        m_msg_id = request.m_msg_id;
        m_method_name = request.m_method_name;
        m_pb_data = pb_data;
        m_err_code = 0;
      }
  dispatcher-Served services conection request response pb_data s =
      dispatcher-dispatch_method conection request response services s.service_name s.method_name
        s.service ((parse_service_full_name_iff _ _ _).1 (s.named, s.undotted)) s.registered
      ∙ dispatch_method-answer conection request (echoed request response) s.service s.method_name
          s.method s.message s.found s.parsed
      ∙ answer_served s.service s.method (call_controller protobuf conection request) s.message
          (echoed request response) pb_data s.serialized

  answer_ok :
      (service : Service) (method : MethodDescriptor) (controller : RpcController)
      (message : Message) (response : ProtobufProtocol)
      → let r = answer protobuf service method controller message response in
        r.m_err_code ≡ 0
        → serialize_to_string
            (call_method service method controller message (new_response service method))
          ≡ (true, r.m_pb_data)
  unfolding answer
  answer_ok service method controller message response e = ground arith

  -- The response of `dispatch_method` with error code 0 comes from the end of the chain.
  dispatch_method_ok :
      (conection : Connection) (service : Service) (name : List ℕ)
      (request response : ProtobufProtocol)
      → let r = dispatch_method protobuf conection service name request response in
        r.m_err_code ≡ 0
        → (method : MethodDescriptor) × (message : Message) × (find_method_by_name service name
            ≡ some method)
          × (parse_from_string (new_request service method) request.m_pb_data ≡ some message)
          × (serialize_to_string (
                call_method service method
                  (call_controller protobuf conection request)
                  message
                  (new_response service method))
              ≡ (true, r.m_pb_data))
  dispatch_method_ok conection service name request response e =
      elim (Option-cases (find_method_by_name service name)) [
        | inl f ↦ absurd (unfold dispatch_method in ground arith)
        | inr (method, f) ↦
            elim (Option-cases (parse_from_string (new_request service method) request.m_pb_data)) [
              | inl p ↦ absurd (unfold dispatch_method in ground arith)
              | inr (message, p) ↦
                  let q =
                    dispatch_method-answer conection request response service name method message f
                      p in
                  (
                    method,
                    message,
                    f,
                    p,
                    rw q (
                        answer_ok service method (call_controller protobuf conection request)
                          message response (rw q at e)),
                  )
            ]
      ]

  -- A response of the dispatcher has error code 0 only where the request was served: its name
  -- is that of a registered service and a method of it, its data were parsed, the result was
  -- serialized, and the response carries that text.
  pub dispatcher_ok :
      (services : ServiceMap protobuf) (conection : Connection)
      (request response : ProtobufProtocol)
      → let r = dispatcher protobuf services conection request response in
        r.m_err_code ≡ 0 → Served services conection request r.m_pb_data
  dispatcher_ok services conection request response e =
      elim (Option-cases (parse_service_full_name request.m_method_name)) [
        | inl f ↦ absurd (unfold dispatcher in ground arith)
        | inr ((s, m), f) ↦ elim (Option-cases (lookup s services)) [
          | inl g ↦ absurd (unfold dispatcher in ground arith)
          | inr (service, g) ↦
              let q =
                dispatcher-dispatch_method conection request response services s m service f g in
              let (method, message, h, p, t) =
                dispatch_method_ok conection service m request (echoed request response)
                  (rw q at e) in
              let (named, undotted) = (parse_service_full_name_iff _ _ _).0 f in
              rw q (record {
                service_name = s;
                method_name = m;
                service = service;
                method = method;
                message = message;
                named = named;
                undotted = undotted;
                registered = g;
                found = h;
                parsed = p;
                serialized = t;
              })
        ]
      ]
