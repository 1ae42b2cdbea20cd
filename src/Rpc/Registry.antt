-- ===== src/Rpc/Registry.antt =====
-- `register_service` and the requests that reach the service.
use tiny_rpc.Base.{
  ℕ, ◌≡◌, ap, ◌∙◌, List, ◌∷◌, ◌++◌, none, some, arith, if◌then◌else◌, lookup, lookup-assign, same,
  same_iff, same_refl, append_assoc, length, length-append,
}
use tiny_rpc.Coder.Protocol.{ProtobufProtocol}
use tiny_rpc.Rpc.ErrorCode.{error_service_not_found}
use tiny_rpc.Rpc.Protobuf.{Protobuf}
use tiny_rpc.Rpc.Dispatcher.{
  Connection, ServiceMap, register_service, parse_service_full_name, dispatch_method, dispatcher,
}
use tiny_rpc.Rpc.Names.{NoDot, parse_service_full_name-join}
use tiny_rpc.Rpc.Dispatch.{dispatcher-dispatch_method}

longer : (xs ys : List ℕ) → xs ++ b'.' ∷ ys ≡ xs → ⊥
longer xs ys q = omega (arith, ap length q, length-append xs (b'.' ∷ ys))

module _ (protobuf : Protobuf) where
  open protobuf use {Service, full_name}

  -- The service registered last under a name is found, and the others stay.
  lookup-register_service :
      (services : ServiceMap protobuf) (service : Service) (name : List ℕ)
      → lookup name (register_service protobuf services service)
        ≡ (if same (full_name service) name then some service else lookup name services)
  unfolding register_service
  lookup-register_service services service name =
      lookup-assign (full_name service) name service services

  -- A request for a method of the service registered last is passed to that service, if the
  -- name of the service holds no dot.
  dispatcher-register_service :
      (services : ServiceMap protobuf) (service : Service) (conection : Connection)
      (request response : ProtobufProtocol) (method : List ℕ)
      → NoDot (full_name service)
      → request.m_method_name ≡ full_name service ++ b'.' ∷ method
      → dispatcher protobuf (register_service protobuf services service) conection request response
        ≡ dispatch_method protobuf conection service method request
            (record response { m_msg_id = request.m_msg_id; m_method_name = request.m_method_name })
  dispatcher-register_service services service conection request response method clean e =
      dispatcher-dispatch_method protobuf conection request response
        (register_service protobuf services service) (full_name service) method service
        (rw e (parse_service_full_name-join (full_name service) method clean))
        (lookup-register_service services service (full_name service)
          ∙ rw (same_refl (full_name service)))

  dispatcher_missing :
      (services : ServiceMap protobuf) (conection : Connection)
      (request response : ProtobufProtocol) (s m : List ℕ)
      → parse_service_full_name request.m_method_name ≡ some (s, m)
      → lookup s services ≡ none
      → (dispatcher protobuf services conection request response).m_err_code
        ≡ error_service_not_found
  unfolding dispatcher
  dispatcher_missing services conection request response s m f g = rw (f, g, dispatcher)

  -- A request for a service of a protobuf package, whose full name is package.name, is answered
  -- with the code for a missing service although the service is registered, unless one is
  -- registered under the name of the package.
  packaged_service_missed :
      (services : ServiceMap protobuf) (service : Service) (conection : Connection)
      (request response : ProtobufProtocol) (package_name name method : List ℕ)
      → NoDot package_name
      → full_name service ≡ package_name ++ b'.' ∷ name
      → lookup package_name services ≡ none
      → request.m_method_name ≡ full_name service ++ b'.' ∷ method
      → (dispatcher protobuf
          (register_service protobuf services service)
          conection
          request
          response).m_err_code
        ≡ error_service_not_found
  packaged_service_missed services service conection request response pkg name method clean f
        missing e =
      dispatcher_missing (register_service protobuf services service) conection request response pkg
        (name ++ b'.' ∷ method)
        (rw (e, f, append_assoc pkg (b'.' ∷ name) (b'.' ∷ method))
          (parse_service_full_name-join pkg (name ++ b'.' ∷ method) clean))
        (lookup-register_service services service pkg
          ∙ ground (arith, same_iff (full_name service) pkg, longer pkg name, missing))
