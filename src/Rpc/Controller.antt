-- ===== src/Rpc/Controller.antt =====
-- src/net/rpc/rpc_controller.cc: the state of one call.
use tiny_rpc.Address.{IPv4NetAddr}
use tiny_rpc.Base.{ℕ, List, [], Bool, true, false, Option, none}

pub record RpcController : Type 0 where
  pub m_error_code : ℕ
  pub m_error_info : List ℕ
  pub m_msg_id : List ℕ
  pub m_is_failed : Bool
  pub m_is_cancled : Bool
  pub m_local_addr : Option IPv4NetAddr
  pub m_peer_addr : Option IPv4NetAddr
  pub m_timeout_ms : ℕ

-- The members as the class initialises them.
abbrev pub new_controller : RpcController
new_controller = record {
  m_error_code = 0;
  m_error_info = [];
  m_msg_id = [];
  m_is_failed = false;
  m_is_cancled = false;
  m_local_addr = none;
  m_peer_addr = none;
  m_timeout_ms = 1000;
}

unfoldable pub reset : RpcController → RpcController
reset c = record c {
  m_error_code = 0;
  m_error_info = [];
  m_msg_id = [];
  m_is_failed = false;
  m_is_cancled = false;
  m_local_addr = none;
  m_peer_addr = none;
  m_timeout_ms = 1000;
}

unfoldable pub start_cancel : RpcController → RpcController
start_cancel c = record c { m_is_cancled = true }

unfoldable pub set_failed : RpcController → List ℕ → RpcController
set_failed c reason = record c { m_error_info = reason }

unfoldable pub set_error : RpcController → ℕ → List ℕ → RpcController
set_error c error_code error_info = record c {
  m_error_code = error_code;
  m_error_info = error_info;
  m_is_failed = true;
}

unfoldable pub set_msg_id : RpcController → List ℕ → RpcController
set_msg_id c msg_id = record c { m_msg_id = msg_id }

unfoldable pub set_local_addr : RpcController → Option IPv4NetAddr → RpcController
set_local_addr c addr = record c { m_local_addr = addr }

unfoldable pub set_peer_addr : RpcController → Option IPv4NetAddr → RpcController
set_peer_addr c addr = record c { m_peer_addr = addr }

unfoldable pub set_timeout : RpcController → ℕ → RpcController
set_timeout c timeout = record c { m_timeout_ms = timeout }
