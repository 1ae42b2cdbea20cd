-- ===== src/Rpc.antt =====
-- src/net/rpc and src/common/error_code.h: the calls of remote methods.
pub mod ErrorCode
pub mod Controller
pub mod Protobuf
pub mod Dispatcher
pub mod Names
pub mod Dispatch
pub mod Registry
