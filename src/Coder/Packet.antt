-- ===== src/Coder/Packet.antt =====
-- One packet in the array: `decode` finds it and reads its fields back.
use tiny_rpc.Base.{
  ℕ, ◌+◌, ◌-◌, ◌%◌, ◌^◌, ◌≤◌, ◌<◌, ◌≡◌, refl, ◌∙◌, inl, inr, List, [], ◌∷◌, ◌++◌, arith, ◌==◌,
  Bool-cases, some, ok, length, drop, append_assoc, lt→ltb, lt→leb_false,
}
use tiny_rpc.Coder.Protocol.{ProtobufProtocol, net_bytes, s_start, s_end}
use tiny_rpc.Coder.Encode.{with_msg_id, default_msg_id, packet_len, packet, with_lengths}
use tiny_rpc.Coder.Decode.{Found, end_of, check_end, check_start, parse_packet}
use tiny_rpc.Coder.Wire.{NoNul, advance, get_int32_at, byte_at_lem}
use tiny_rpc.Coder.Fields.{from_method, parse_packet_at}
use tiny_rpc.Coder.Append.{length-packet}

-- What the fixed arrays of `decode` can take back: texts without a NUL that leave room for one.
pub record IsSendable (m : ProtobufProtocol) : Type 0 where
  pub id_clean : NoNul m.m_msg_id
  pub id_short : length m.m_msg_id < 100
  pub name_clean : NoNul m.m_method_name
  pub name_short : length m.m_method_name < 512
  pub info_clean : NoNul m.m_err_info
  pub info_short : length m.m_err_info < 512
  pub code_small : m.m_err_code < 2 ^ 32
  pub data_small : packet_len (with_msg_id m) < 2 ^ 31

pub with_msg_id-IsSendable : {m : ProtobufProtocol} → IsSendable m → IsSendable (with_msg_id m)
with_msg_id-IsSendable {m} s = elim (Bool-cases (length m.m_msg_id == 0)) [
  | inl e ↦
      let q : with_msg_id m ≡ record m { m_msg_id = default_msg_id } = rw e in
      rw q (record {
        id_clean = omega arith;
        id_short = omega arith;
        name_clean = s.name_clean;
        name_short = s.name_short;
        info_clean = s.info_clean;
        info_short = s.info_short;
        code_small = s.code_small;
        data_small = rw q at s.data_small;
      })
  | inr e ↦ let q : with_msg_id m ≡ m = rw e in rw q s
]

-- A packet that stands at `i`, inside what is to be read.
module _ (m : ProtobufProtocol) (tmp : List ℕ) (write_index i : ℕ) (rest : List ℕ)
    (s : IsSendable m) (short : packet_len m < 2 ^ 31) (h : drop i tmp ≡ packet m ++ rest)
    (inside : i + packet_len m ≤ write_index) (small : write_index < 2 ^ 31) where
  abbrev pub found : Found
  found = record { start_index = i; end_index = i + packet_len m - 1; pk_len = packet_len m }

  -- The check sum, the end, and what follows the packet.
  abbrev pub tail : List ℕ
  tail = net_bytes 1 ++ s_end ∷ rest

  abbrev pub fields : List ℕ
  fields =
      net_bytes (length m.m_msg_id)
      ++ (m.m_msg_id ++ from_method tail m.m_method_name m.m_err_code m.m_err_info m.m_pb_data)

  shape : drop i tmp ≡ s_start ∷ (net_bytes (packet_len m) ++ fields)
  shape = h ∙ simp append_assoc

  at_end : drop (i + packet_len m - 1) tmp ≡ s_end ∷ rest
  at_end =
      let d₂ =
        advance tmp (i + 1) (net_bytes (packet_len m)) (advance tmp i (s_start ∷ []) shape) in
      let d₃ = advance tmp (i + 1 + 4) (net_bytes (length m.m_msg_id)) d₂ in
      let d₄ = advance tmp (i + 1 + 4 + 4) m.m_msg_id d₃ in
      let k₄ = i + 1 + 4 + 4 + length m.m_msg_id in
      let d₅ = advance tmp k₄ (net_bytes (length m.m_method_name)) d₄ in
      let d₆ = advance tmp (k₄ + 4) m.m_method_name d₅ in
      let k₆ = k₄ + 4 + length m.m_method_name in
      let d₇ = advance tmp k₆ (net_bytes m.m_err_code) d₆ in
      let d₈ = advance tmp (k₆ + 4) (net_bytes (length m.m_err_info)) d₇ in
      let d₉ = advance tmp (k₆ + 4 + 4) m.m_err_info d₈ in
      let k₉ = k₆ + 4 + 4 + length m.m_err_info in
      let last =
        advance tmp (k₉ + length m.m_pb_data) (net_bytes 1) (advance tmp k₉ m.m_pb_data d₉) in
      let e : k₉ + length m.m_pb_data + 4 ≡ i + packet_len m - 1 = omega arith in rw (← e) last

  pub check_start-found : check_start tmp write_index i ≡ ok (some found)
  unfolding check_start check_end
  check_start-found =
      let len = length-packet m in
      let e : end_of i (packet_len m) ≡ i + packet_len m - 1 = omega arith in
      rw (
        byte_at_lem tmp i s_start shape,
        lt→ltb (i + 1) write_index (omega arith),
        get_int32_at tmp (i + 1) (packet_len m) (omega arith) (advance tmp i (s_start ∷ []) shape),
        e,
        lt→leb_false (2 ^ 31) (i + packet_len m - 1) (omega arith),
        lt→leb_false write_index (i + packet_len m - 1) (omega arith),
        byte_at_lem tmp (i + packet_len m - 1) s_end at_end,
      )

  pub parse_packet-found :
      parse_packet tmp found ≡ ok (some (record (with_lengths m) { m_check_sum = 0 }))
  parse_packet-found =
      let d₁ = advance tmp i (s_start ∷ []) shape in
      let e₁ : packet_len m % 2 ^ 32 ≡ packet_len m = omega arith in
      let e₂ : length m.m_msg_id % 2 ^ 32 ≡ length m.m_msg_id = omega arith in
      let e₃ : length m.m_method_name % 2 ^ 32 ≡ length m.m_method_name = omega arith in
      let e₄ : length m.m_err_info % 2 ^ 32 ≡ length m.m_err_info = omega arith in
      rw (e₁, e₂, e₃, e₄)
        (parse_packet_at tmp (i + packet_len m - 1) tail (omega arith) found m.m_msg_id
          m.m_method_name m.m_err_code m.m_err_info m.m_pb_data
          (advance tmp (i + 1) (net_bytes (packet_len m)) d₁) refl (omega arith) s.id_clean
          s.id_short s.name_clean s.name_short s.code_small s.info_clean s.info_short (omega arith)
          (omega arith))
