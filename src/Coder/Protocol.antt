-- ===== src/Coder/Protocol.antt =====
-- src/include/net/coder/protobuf_protocol.h and abstract_protocol.h: a message, and the integers of
-- its wire format (`htonl`, and src/common/utils.cc `get_int32_from_netbyte`).
use tiny_rpc.Base.{
  ℕ, ◌+◌, ◌*◌, ◌/◌, ◌%◌, ◌^◌, List, [], ◌∷◌, Bool, Outcome, ok, err, out_of_bounds, drop,
}

abbrev pub s_start : ℕ
s_start = 2

abbrev pub s_end : ℕ
s_end = 3

-- An `int32_t` is its bit pattern, a number below 2^32. A string is the list of its bytes.
pub record ProtobufProtocol : Type 0 where
  pub m_msg_id : List ℕ
  pub m_pk_len : ℕ
  pub m_msg_id_len : ℕ
  pub m_method_name_len : ℕ
  pub m_method_name : List ℕ
  pub m_err_info_len : ℕ
  pub m_err_code : ℕ
  pub m_err_info : List ℕ
  pub m_pb_data : List ℕ
  pub m_check_sum : ℕ
  pub m_parse_success : Bool

-- `std::make_shared<ProtobufProtocol>()`.
abbrev pub new_protocol : ProtobufProtocol
new_protocol = record {
  m_msg_id = [];
  m_pk_len = 0;
  m_msg_id_len = 0;
  m_method_name_len = 0;
  m_method_name = [];
  m_err_info_len = 0;
  m_err_code = 0;
  m_err_info = [];
  m_pb_data = [];
  m_check_sum = 0;
  m_parse_success = Bool.false;
}

-- The four bytes of `htonl(w)` in memory.
abbrev pub net_bytes : ℕ → List ℕ
net_bytes w = w / 2 ^ 24 % 256 ∷ w / 2 ^ 16 % 256 ∷ w / 2 ^ 8 % 256 ∷ w % 256 ∷ []

-- `ntohl` of the first four bytes. With fewer the `memcpy` leaves the array.
unfoldable pub from_net_bytes : List ℕ → Outcome ℕ
from_net_bytes (a ∷ b ∷ c ∷ d ∷ rest) = ok (a * 2 ^ 24 + b * 2 ^ 16 + c * 2 ^ 8 + d)
from_net_bytes _ = err out_of_bounds

-- `get_int32_from_netbyte(&bytes[at])`.
unfoldable pub get_int32_from_netbyte : List ℕ → ℕ → Outcome ℕ
get_int32_from_netbyte bytes at = from_net_bytes (drop at bytes)
