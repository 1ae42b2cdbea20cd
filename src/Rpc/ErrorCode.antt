-- ===== src/Rpc/ErrorCode.antt =====
-- src/include/common/error_code.h. `SYS_ERROR_PREFIX(xx)` pastes `1000` before the digits.
use tiny_rpc.Base.{ℕ}

abbrev pub error_peer_closed : ℕ
error_peer_closed = 10000000

abbrev pub error_failed_connect : ℕ
error_failed_connect = 10000001

abbrev pub error_failed_deserialize : ℕ
error_failed_deserialize = 10000003

abbrev pub error_failed_serialize : ℕ
error_failed_serialize = 10000004

abbrev pub error_rpc_call_timeout : ℕ
error_rpc_call_timeout = 10000007

abbrev pub error_service_not_found : ℕ
error_service_not_found = 10000008

abbrev pub error_method_not_found : ℕ
error_method_not_found = 10000009

abbrev pub error_parse_service_name : ℕ
error_parse_service_name = 10000010

abbrev pub error_rpc_channel_not_init : ℕ
error_rpc_channel_not_init = 10000011
