-- ===== src/Coder/Decode.antt =====
-- src/net/coder/protobuf_coder.cc, `decode`. Array accesses out of range are errors, and the
-- `while (true)` runs on fuel.
use tiny_rpc.Base.{
  ℕ, zero, suc, ◌+◌, ◌-◌, ◌*◌, ◌%◌, ◌^◌, List, [], ◌∷◌, ◌++◌, true, ◌&&◌, ◌||◌, ltb, leb, ◌==◌,
  if◌then◌else◌, Option, none, some, Outcome, ok, err, stuck, out_of_bounds, length_error, ◌>>=◌,
  length, get_elem?, slice,
}
use tiny_rpc.Buffer.{TcpBuffer, can_read_bytes_num, adjust_read_index}
use tiny_rpc.Coder.Protocol.{ProtobufProtocol, new_protocol, get_int32_from_netbyte, s_start, s_end}

-- `tmp[i]`.
unfoldable pub byte_at : List ℕ → ℕ → Outcome ℕ
byte_at tmp i = elim (get_elem? tmp i) [ none ↦ err out_of_bounds | some b ↦ ok b ]

-- The local variables `start_index`, `end_index` and `pk_len` after a successful search.
pub record Found : Type 0 where
  pub start_index : ℕ
  pub end_index : ℕ
  pub pk_len : ℕ

-- `i + pk_len - 1` as an `int`, a bit pattern; from 2^31 on it is negative.
abbrev pub end_of : ℕ → ℕ → ℕ
end_of i pk_len = (i + pk_len + (2 ^ 32 - 1)) % 2 ^ 32

-- The test of the end byte, once `pk_len` is read. A negative index leaves the array.
unfoldable pub check_end : List ℕ → ℕ → ℕ → ℕ → Outcome (Option Found)
unfolding byte_at
check_end tmp write_index i pk_len =
    let j = end_of i pk_len in
    if leb (2 ^ 31) j then err out_of_bounds else if leb write_index j then ok none else do
      e ← byte_at tmp j
      ok (
          if e == s_end
          then some (record { start_index = i; end_index = j; pk_len = pk_len })
          else none)

-- One round of the `for` loop: `none` is the next round.
unfoldable pub check_start : List ℕ → ℕ → ℕ → Outcome (Option Found)
unfolding byte_at check_end
check_start tmp write_index i = do
  b ← byte_at tmp i
  if (b == s_start) && ltb (i + 1) write_index
      then (do pk_len ← get_int32_from_netbyte tmp (i + 1); check_end tmp write_index i pk_len)
      else ok none

-- The `for` loop, by the rounds that are left.
unfoldable pub find_packet : List ℕ → ℕ → ℕ → ℕ → Outcome (Option Found)
find_packet tmp write_index zero i = ok none
find_packet tmp write_index (suc n) i =
    let rest = find_packet tmp write_index n (i + 1) in
    do c ← check_start tmp write_index i; elim c [ none ↦ rest | some p ↦ ok (some p) ]

-- The bytes before the first 0, as `std::string(const char*)` takes them.
abbrev pub until_nul : List ℕ → List ℕ
until_nul [] = []
until_nul (b ∷ bs) = let rest = b ∷ until_nul bs in if b == 0 then [] else rest

-- `char a[cap] = {0}; memcpy(a, &tmp[at], len); std::string(a)`, with `len` an `int`.
unfoldable pub copy_c_string : ℕ → List ℕ → ℕ → ℕ → Outcome (List ℕ)
copy_c_string cap tmp at len =
    let s = until_nul (slice tmp at len) in
    if leb (2 ^ 31) len || ltb cap len || ltb (length tmp) (at + len)
    then err out_of_bounds
    else if ltb (length s) cap
    then ok s
    else err out_of_bounds

-- `std::string(&tmp[at], len)`: a negative `len` is a huge `size_t`.
unfoldable pub copy_string : List ℕ → ℕ → ℕ → Outcome (List ℕ)
copy_string tmp at len =
    if leb (2 ^ 31) len
    then err length_error
    else if ltb (length tmp) (at + len)
    then err out_of_bounds
    else ok (slice tmp at len)

-- `m_pk_len - m_method_name_len - m_msg_id_len - m_err_info_len - 2 - 24`.
abbrev pub pb_data_len : ProtobufProtocol → ℕ
pb_data_len m =
    (m.m_pk_len + (4 * 2 ^ 32 - m.m_method_name_len - m.m_msg_id_len - m.m_err_info_len - 26))
    % 2 ^ 32

-- The fields one after the other. `none` is a `parse error`, where the message is dropped.
unfoldable pub parse_err_info :
    List ℕ → ℕ → ℕ → ProtobufProtocol → Outcome (Option ProtobufProtocol)
parse_err_info tmp end_index err_code_index m =
    let error_info_len_index = err_code_index + 4 in
    let err_info_index = error_info_len_index + 4 in
    if leb end_index err_code_index then ok none else do
      err_code ← get_int32_from_netbyte tmp err_code_index
      if leb end_index error_info_len_index then ok none else (do
        err_info_len ← get_int32_from_netbyte tmp error_info_len_index
        err_info ← copy_c_string 512 tmp err_info_index err_info_len
        let m' = record m {
          m_err_code = err_code;
          m_err_info_len = err_info_len;
          m_err_info = err_info;
          m_parse_success = true;
        }
        pb_data ← copy_string tmp (err_info_index + err_info_len) (pb_data_len m')
        ok (some (record m' { m_pb_data = pb_data })))

unfoldable pub parse_method_name :
    List ℕ → ℕ → ℕ → ProtobufProtocol → Outcome (Option ProtobufProtocol)
parse_method_name tmp end_index method_name_len_index m =
    let method_name_index = method_name_len_index + 4 in
    if leb end_index method_name_len_index then ok none else do
      method_name_len ← get_int32_from_netbyte tmp method_name_len_index
      method_name ← copy_c_string 512 tmp method_name_index method_name_len
      parse_err_info tmp end_index (method_name_index + method_name_len)
          (record m { m_method_name_len = method_name_len; m_method_name = method_name })

unfoldable pub parse_packet : List ℕ → Found → Outcome (Option ProtobufProtocol)
parse_packet tmp p =
    let msg_id_len_index = p.start_index + 1 + 4 in
    let msg_id_index = msg_id_len_index + 4 in
    if leb p.end_index msg_id_len_index then ok none else do
      msg_id_len ← get_int32_from_netbyte tmp msg_id_len_index
      msg_id ← copy_c_string 100 tmp msg_id_index msg_id_len
      parse_method_name tmp p.end_index (msg_id_index + msg_id_len) (record new_protocol {
        m_pk_len = p.pk_len;
        m_msg_id_len = msg_id_len;
        m_msg_id = msg_id;
      })

-- `end_index - start_index + 1` as an `int`.
abbrev pub found_len : Found → ℕ
found_len p = (p.end_index + 1 + (2 ^ 32 - p.start_index)) % 2 ^ 32

abbrev pub push_parsed : List ProtobufProtocol → Option ProtobufProtocol → List ProtobufProtocol
push_parsed out none = out
push_parsed out (some m) = out ++ m ∷ []

-- `decode`, with the messages pushed so far. No fuel is enough where the program does not return.
unfoldable pub decode_loop :
    ℕ → List ProtobufProtocol → TcpBuffer → Outcome (List ProtobufProtocol × TcpBuffer)
decode_loop zero out buffer = stuck
decode_loop (suc fuel) out buffer = do
  found ←
      find_packet buffer.m_buffer buffer.m_write_index (can_read_bytes_num buffer)
        buffer.m_read_index
  elim found [
    | none ↦ ok (out, buffer)
    | some p ↦ do
      m ← parse_packet buffer.m_buffer p
      decode_loop fuel (push_parsed out m) (adjust_read_index buffer (found_len p))
  ]

-- A call returns when it finds no packet: one round for each byte, and one more.
unfoldable pub decode :
    List ProtobufProtocol → TcpBuffer → Outcome (List ProtobufProtocol × TcpBuffer)
decode out buffer = decode_loop (can_read_bytes_num buffer + 1) out buffer
