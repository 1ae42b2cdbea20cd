-- ===== src/Coder/StringCoder.antt =====
-- src/include/net/coder/string_coder.h and string_protocol.h: the coder that sends plain texts.
use tiny_rpc.Base.{
  ℕ, ◌+◌, ◌*◌, ◌/◌, ◌^◌, ◌<◌, ◌≡◌, refl, sym, ap, ◌∙◌, List, [], ◌∷◌, ◌++◌, arith, length,
  length-append, append-nil, append_assoc, codes, take, take_all, drop_all, if-either, ne→==_false,
  ◌==◌, if◌then◌else◌,
}
use tiny_rpc.Buffer.{TcpBuffer, write_to_buffer, read_from_buffer, can_read_bytes_num}
use tiny_rpc.Buffer.Invariant.{IsValid, length-kept, write_to_buffer-IsValid}
use tiny_rpc.Buffer.Contents.{contents, contents-write_to_buffer, read_from_buffer_lem}
use tiny_rpc.Coder.Append.{write_index-write_to_buffer}

pub record StringProtocol : Type 0 where
  pub m_msg_id : List ℕ
  pub m_info : List ℕ

unfoldable pub encode_strings : List StringProtocol → TcpBuffer → TcpBuffer
encode_strings [] out_buffer = out_buffer
encode_strings (msg ∷ messages) out_buffer =
    encode_strings messages (write_to_buffer out_buffer msg.m_info)

-- The message that `decode` makes of all that the buffer holds.
abbrev pub string_message : List ℕ → StringProtocol
string_message info = record { m_msg_id = codes "123456"; m_info = info }

unfoldable pub decode_strings : List StringProtocol → TcpBuffer → List StringProtocol × TcpBuffer
decode_strings out_messages buffer =
    let (receive, buffer') = read_from_buffer buffer [] (can_read_bytes_num buffer) in
    (out_messages ++ string_message receive ∷ [], buffer')

-- The texts of the messages, one behind the other.
abbrev pub infos : List StringProtocol → List ℕ
infos [] = []
infos (m ∷ ms) = m.m_info ++ infos ms

pub contents-encode_strings :
    (ms : List StringProtocol) {b : TcpBuffer}
    → IsValid b
    → 3 * (b.m_write_index + length (infos ms)) / 2 < 2 ^ 31
    → (contents (encode_strings ms b) ≡ contents b ++ infos ms) × IsValid (encode_strings ms b)
unfolding encode_strings
contents-encode_strings [] {b} v h = (sym (append-nil (contents b)), v)
contents-encode_strings (m ∷ ms) {b} v h =
    let n = length-append m.m_info (infos ms) in
    let (c, v') =
      contents-encode_strings ms (write_to_buffer-IsValid m.m_info v (omega (arith, n)))
        (omega (arith, n, write_index-write_to_buffer b m.m_info)) in
    (
      c
          ∙ ap (λ xs. xs ++ infos ms) (contents-write_to_buffer m.m_info v (omega (arith, n)))
          ∙ append_assoc (contents b) m.m_info (infos ms),
      v',
    )

pub all_read :
    {b : TcpBuffer}
    → IsValid b
    → let (out, b') = read_from_buffer b [] (can_read_bytes_num b) in
      (out ≡ contents b) × (contents b' ≡ [])
all_read {b} v =
    let n = can_read_bytes_num b in
    let (rest, out) = read_from_buffer_lem [] n v in
    let size : length (contents b) ≡ n = length-kept v n (omega arith) in
    (out ∙ whole (contents b) n size, rest ∙ drop_all n (contents b) (omega arith))
  where
    whole : (xs : List ℕ) (n : ℕ) → length xs ≡ n → (if n == 0 then [] else take n xs) ≡ xs
    whole [] n e = if-either (λ ys. ys ≡ []) (n == 0) refl (take_all n [] (omega arith))
    whole (x ∷ xs) n e =
        rw (ne→==_false n 0 (λ z. absurd (omega arith))) (take_all n (x ∷ xs) (omega arith))

-- decode of the string coder after encode on a valid buffer makes one message, with the bytes
-- that were there and the texts of all messages, one behind the other, and leaves nothing in
-- the buffer: the borders of the messages are lost. The buffer stays below 2^31 * 2/3.
decode-encode_strings :
    (ms out : List StringProtocol) {b : TcpBuffer}
    → IsValid b
    → 3 * (b.m_write_index + length (infos ms)) / 2 < 2 ^ 31
    → let (out', b') = decode_strings out (encode_strings ms b) in
      (out' ≡ out ++ string_message (contents b ++ infos ms) ∷ []) × (contents b' ≡ [])
unfolding decode_strings
decode-encode_strings ms out {b} v h =
    let (c, v') = contents-encode_strings ms v h in
    let (all, rest) = all_read v' in
    (ap (λ receive. out ++ string_message receive ∷ []) (all ∙ c), rest)
