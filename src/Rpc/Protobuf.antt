-- ===== src/Rpc/Protobuf.antt =====
-- The parts of the protobuf library that the RPC code calls. The library is not part of the
-- repository: a service, its methods and its messages are parameters of the model.
use tiny_rpc.Base.{ℕ, List, Bool, Option}
use tiny_rpc.Rpc.Controller.{RpcController}

pub record Protobuf : Type 1 where
  pub Service : Type 0
  pub MethodDescriptor : Type 0
  pub Message : Type 0
  -- `service->GetDescriptor()->full_name()` and `->FindMethodByName(name)`, `none` for a null result.
  pub full_name : Service → List ℕ
  pub find_method_by_name : Service → List ℕ → Option MethodDescriptor
  -- `GetRequestPrototype(method).New()` and `GetResponsePrototype(method).New()`.
  pub new_request : Service → MethodDescriptor → Message
  pub new_response : Service → MethodDescriptor → Message
  -- The message after `ParseFromString`, `none` where it returns false.
  pub parse_from_string : Message → List ℕ → Option Message
  -- The response after `CallMethod(method, controller, request, response, nullptr)`.
  pub call_method : Service → MethodDescriptor → RpcController → Message → Message → Message
  -- The result of `SerializeToString` and the string that it leaves.
  pub serialize_to_string : Message → Bool × List ℕ
