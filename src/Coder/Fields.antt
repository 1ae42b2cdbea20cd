-- ===== src/Coder/Fields.antt =====
-- The parsers of `decode` on the fields of a packet.
use tiny_rpc.Base.{
  ℕ, ◌+◌, ◌-◌, ◌*◌, ◌%◌, ◌^◌, ◌<◌, ◌≡◌, List, ◌++◌, arith, true, some, ok, length, drop,
  length-append, lt→leb_false,
}
use tiny_rpc.Coder.Protocol.{ProtobufProtocol, new_protocol, net_bytes}
use tiny_rpc.Coder.Decode.{Found, parse_err_info, parse_method_name, parse_packet}
use tiny_rpc.Coder.Wire.{NoNul, advance, get_int32_at, copy_c_string_at, copy_string_at}

-- The bytes from the length of the method name on, with `tail` behind the data.
abbrev pub from_method : List ℕ → List ℕ → ℕ → List ℕ → List ℕ → List ℕ
from_method tail name code info pb =
    net_bytes (length name)
    ++ (name ++ (net_bytes code ++ (net_bytes (length info) ++ (info ++ (pb ++ tail)))))

module _ (tmp : List ℕ) (end_index : ℕ) (tail : List ℕ) (more : 0 < length tail) where
  pub parse_err_info_at :
      (k : ℕ) (m : ProtobufProtocol) (code : ℕ) (info pb : List ℕ)
      → drop k tmp ≡ net_bytes code ++ (net_bytes (length info) ++ (info ++ (pb ++ tail)))
      → k + 4 < end_index
      → code < 2 ^ 32
      → NoNul info
      → length info < 512
      → length pb < 2 ^ 31
      → (m.m_pk_len + (4 * 2 ^ 32 - m.m_method_name_len - m.m_msg_id_len - length info - 26))
          % 2 ^ 32
        ≡ length pb
      → parse_err_info tmp end_index k m
        ≡ ok (
            some (record m {
              m_err_code = code;
              m_err_info_len = length info;
              m_err_info = info;
              m_parse_success = true;
              m_pb_data = pb;
            }))
  unfolding parse_err_info
  parse_err_info_at k m code info pb h far small clean short fit len =
      let h₁ = advance tmp k (net_bytes code) h in
      let h₂ = advance tmp (k + 4) (net_bytes (length info)) h₁ in
      let h₃ = advance tmp (k + 4 + 4) info h₂ in
      rw (
        lt→leb_false end_index k (omega arith),
        get_int32_at tmp k code small h,
        lt→leb_false end_index (k + 4) far,
        get_int32_at tmp (k + 4) (length info) (omega arith) h₁,
        copy_c_string_at tmp 512 (k + 4 + 4) info (pb ++ tail) h₂
            (omega (arith, length-append pb tail)) clean short (omega arith),
        len,
        copy_string_at tmp (k + 4 + 4 + length info) pb tail h₃ more fit,
      )

  pub parse_method_name_at :
      (k : ℕ) (m : ProtobufProtocol) (name : List ℕ) (code : ℕ) (info pb : List ℕ)
      → drop k tmp ≡ from_method tail name code info pb
      → k + 4 + length name + 4 < end_index
      → NoNul name
      → length name < 512
      → code < 2 ^ 32
      → NoNul info
      → length info < 512
      → length pb < 2 ^ 31
      → (m.m_pk_len + (4 * 2 ^ 32 - length name - m.m_msg_id_len - length info - 26)) % 2 ^ 32
        ≡ length pb
      → parse_method_name tmp end_index k m
        ≡ ok (
            some (record m {
              m_method_name_len = length name;
              m_method_name = name;
              m_err_code = code;
              m_err_info_len = length info;
              m_err_info = info;
              m_parse_success = true;
              m_pb_data = pb;
            }))
  unfolding parse_method_name
  parse_method_name_at k m name code info pb h far clean short small clean' short' fit len =
      let h₁ = advance tmp k (net_bytes (length name)) h in
      let h₂ = advance tmp (k + 4) name h₁ in
      rw
        (
          lt→leb_false end_index k (omega arith),
          get_int32_at tmp k (length name) (omega arith) h,
          copy_c_string_at tmp 512 (k + 4) name
              (net_bytes code ++ (net_bytes (length info) ++ (info ++ (pb ++ tail)))) h₁
              (omega arith) clean short (omega arith),
        )
        (parse_err_info_at (k + 4 + length name)
          (record m { m_method_name_len = length name; m_method_name = name }) code info pb h₂ far
          small clean' short' fit len)

  pub parse_packet_at :
      (p : Found) (id name : List ℕ) (code : ℕ) (info pb : List ℕ)
      → drop (p.start_index + 1 + 4) tmp
        ≡ net_bytes (length id) ++ (id ++ from_method tail name code info pb)
      → p.end_index ≡ end_index
      → p.start_index + 1 + 4 + 4 + length id + 4 + length name + 4 < end_index
      → NoNul id
      → length id < 100
      → NoNul name
      → length name < 512
      → code < 2 ^ 32
      → NoNul info
      → length info < 512
      → length pb < 2 ^ 31
      → (p.pk_len + (4 * 2 ^ 32 - length name - length id - length info - 26)) % 2 ^ 32 ≡ length pb
      → parse_packet tmp p
        ≡ ok (
            some (record {
              m_msg_id = id;
              m_pk_len = p.pk_len;
              m_msg_id_len = length id;
              m_method_name_len = length name;
              m_method_name = name;
              m_err_info_len = length info;
              m_err_code = code;
              m_err_info = info;
              m_pb_data = pb;
              m_check_sum = 0;
              m_parse_success = true;
            }))
  unfolding parse_packet
  parse_packet_at p id name code info pb h e far clean₀ short₀ clean short small clean' short' fit
        len =
      let k = p.start_index + 1 + 4 in
      let h₁ = advance tmp k (net_bytes (length id)) h in
      let h₂ = advance tmp (k + 4) id h₁ in
      rw
        (
          e,
          lt→leb_false end_index k (omega arith),
          get_int32_at tmp k (length id) (omega arith) h,
          copy_c_string_at tmp 100 (k + 4) id (from_method tail name code info pb) h₁ (omega arith)
              clean₀ short₀ (omega arith),
        )
        (parse_method_name_at (k + 4 + length id)
          (record new_protocol { m_pk_len = p.pk_len; m_msg_id_len = length id; m_msg_id = id })
          name code info pb h₂ far clean short small clean' short' fit len)
