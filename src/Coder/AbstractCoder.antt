-- ===== src/Coder/AbstractCoder.antt =====
-- src/include/net/coder/abstract_coder.h: the interface of the coders, and the two classes that
-- implement it.
use tiny_rpc.Base.{
  ℕ, ◌+◌, ◌*◌, ◌/◌, ◌^◌, ◌≤◌, ◌<◌, ◌≡◌, refl, sym, ap, ◌∙◌, List, [], ◌∷◌, ◌++◌, map, All, arith,
  Outcome, ok, length, length-append, append-nil, append_assoc,
}
use tiny_rpc.Buffer.{TcpBuffer, write_to_buffer}
use tiny_rpc.Buffer.Invariant.{IsValid}
use tiny_rpc.Buffer.Contents.{contents}
use tiny_rpc.Coder.Protocol.{ProtobufProtocol}
use tiny_rpc.Coder.Encode.{encode, with_msg_id, packet}
use tiny_rpc.Coder.Decode.{decode}
use tiny_rpc.Coder.Append.{
  packets, encode_lem, encode-cons, length-packet, write_index-write_to_buffer,
}
use tiny_rpc.Coder.Packet.{IsSendable}
use tiny_rpc.Coder.RoundTrip.{IsReady, decoded, decode-packets}
use tiny_rpc.Coder.StringCoder.{
  StringProtocol, encode_strings, string_message, decode_strings, infos, contents-encode_strings,
  all_read,
}

-- The messages are shared objects: `encode` leaves their updated versions.
pub record AbstractCoder (M : Type 0) : Type 0 where
  pub encode : List M → TcpBuffer → List M × TcpBuffer
  pub decode : List M → TcpBuffer → Outcome (List M × TcpBuffer)

abbrev pub protobuf_coder : AbstractCoder ProtobufProtocol
protobuf_coder = record { encode = encode; decode = decode }

abbrev pub string_coder : AbstractCoder StringProtocol
string_coder = record {
  encode = λ messages out_buffer. (messages, encode_strings messages out_buffer);
  decode = λ out_messages buffer. ok (decode_strings out_messages buffer);
}

-- The promise of a coder. `wire` are the bytes of messages, `received` what the other side makes of
-- them, and `CanSend` the messages for which it does.
pub record IsCoder {M : Type 0} (c : AbstractCoder M) (wire : List M → List ℕ)
    (received : List M → List M) (CanSend : List M → Type 0) : Type 0 where
  pub wire-append : (ms ns : List M) → wire (ms ++ ns) ≡ wire ms ++ wire ns
  pub encode_appends :
      (ms : List M) (b : TcpBuffer)
      → IsValid b
      → 3 * (b.m_write_index + length (wire ms)) / 2 < 2 ^ 31
      → let b' = (c.encode ms b).1 in
        (contents b' ≡ contents b ++ wire ms)
        × IsValid b'
        × (b'.m_write_index ≤ b.m_write_index + length (wire ms))
  pub decode_receives :
      (ms out : List M) (b : TcpBuffer)
      → IsReady b
      → CanSend ms
      → contents b ≡ wire ms
      → (b' : TcpBuffer) × (c.decode out b ≡ ok (out ++ received ms, b')) × (contents b' ≡ [])

pub packets-append : (ms ns : List ProtobufProtocol) → packets (ms ++ ns) ≡ packets ms ++ packets ns
packets-append [] ns = refl
packets-append (m ∷ ms) ns =
    ap (λ xs. packet (with_msg_id m) ++ xs) (packets-append ms ns)
    ∙ sym (append_assoc (packet (with_msg_id m)) (packets ms) (packets ns))

infos-append : (ms ns : List StringProtocol) → infos (ms ++ ns) ≡ infos ms ++ infos ns
infos-append [] ns = refl
infos-append (m ∷ ms) ns =
    ap (λ xs. m.m_info ++ xs) (infos-append ms ns)
    ∙ sym (append_assoc m.m_info (infos ms) (infos ns))

write_index-encode_strings :
    (ms : List StringProtocol) (b : TcpBuffer)
    → (encode_strings ms b).m_write_index ≤ b.m_write_index + length (infos ms)
unfolding encode_strings
write_index-encode_strings [] b = omega arith
write_index-encode_strings (m ∷ ms) b = omega (
  arith,
  length-append m.m_info (infos ms),
  write_index-write_to_buffer b m.m_info,
  write_index-encode_strings ms (write_to_buffer b m.m_info),
)

write_index-encode :
    (ms : List ProtobufProtocol) (b : TcpBuffer)
    → length (packets ms) < 2 ^ 32
    → (encode ms b).1.m_write_index ≤ b.m_write_index + length (packets ms)
write_index-encode [] b h = unfold encode in omega arith
write_index-encode (m ∷ ms) b h =
    let p = packet (with_msg_id m) in
    let n = length-append p (packets ms) in
    let e = length-packet (with_msg_id m) in
    let rest = write_index-encode ms (write_to_buffer b p) (omega (arith, n)) in
    rw (encode-cons m ms b (omega (arith, n, e)))
      (omega (arith, n, rest, write_index-write_to_buffer b p))

protobuf_coder-IsCoder : IsCoder protobuf_coder packets (map decoded) (All IsSendable)
protobuf_coder-IsCoder = record {
  wire-append = packets-append;
  encode_appends = λ ms b v h.
      let (c, _, v') = encode_lem ms v h in (c, v', write_index-encode ms b (omega arith));
  decode_receives = λ ms out b r s h.
      let (b', e, t, _) = decode-packets ms [] b out r s tt (h ∙ sym (append-nil (packets ms))) in
      (b', e, t);
}

decode_infos :
    (ms : List StringProtocol) (out : List StringProtocol) (b : TcpBuffer)
    → IsValid b
    → contents b ≡ infos ms
    → (b' : TcpBuffer) × (ok (decode_strings out b)
        ≡ ok (out ++ string_message (infos ms) ∷ [], b'))
      × (contents b' ≡ [])
unfolding decode_strings
decode_infos ms out b v h =
    let (all, rest) = all_read v in
    let b' = (decode_strings out b).1 in
    (b', ap (λ xs. ok (out ++ string_message xs ∷ [], b')) (all ∙ h), rest)

-- The borders of texts are not sent: the other side makes one message of them.
string_coder-IsCoder :
    IsCoder string_coder infos (λ ms. string_message (infos ms) ∷ []) (λ ms. Unit {0})
string_coder-IsCoder = record {
  wire-append = infos-append;
  encode_appends = λ ms b v h.
      let (c, v') = contents-encode_strings ms v h in (c, v', write_index-encode_strings ms b);
  decode_receives = λ ms out b r s h. decode_infos ms out b r.valid h;
}

-- The two classes that a connection can be given as its coder, and what they promise.
pub data CoderClass : Type 0 where
  protobuf_class string_class : CoderClass

abbrev pub MessageOf : CoderClass → Type 0
MessageOf protobuf_class = ProtobufProtocol
MessageOf string_class = StringProtocol

abbrev pub coder_of : (k : CoderClass) → AbstractCoder (MessageOf k)
coder_of protobuf_class = protobuf_coder
coder_of string_class = string_coder

abbrev pub wire_of : (k : CoderClass) → List (MessageOf k) → List ℕ
wire_of protobuf_class ms = packets ms
wire_of string_class ms = infos ms

abbrev pub received_of : (k : CoderClass) → List (MessageOf k) → List (MessageOf k)
received_of protobuf_class ms = map decoded ms
received_of string_class ms = string_message (infos ms) ∷ []

abbrev pub CanSendTo : (k : CoderClass) → List (MessageOf k) → Type 0
CanSendTo protobuf_class ms = All IsSendable ms
CanSendTo string_class ms = Unit {0}

pub coder_of-IsCoder :
    (k : CoderClass) → IsCoder (coder_of k) (wire_of k) (received_of k) (CanSendTo k)
coder_of-IsCoder protobuf_class = protobuf_coder-IsCoder
coder_of-IsCoder string_class = string_coder-IsCoder
