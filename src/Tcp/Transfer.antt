-- ===== src/Tcp/Transfer.antt =====
-- The way of messages through any coder: `encode` on one side, the bytes in one read of `on_read`, and
-- `decode` on the other.
use tiny_rpc.Base.{
  ℕ, ◌+◌, ◌*◌, ◌/◌, ◌^◌, ◌<◌, ◌≡◌, sym, ap, ◌∙◌, List, [], ◌∷◌, ◌++◌, arith, ok, false, length,
  length-append,
}
use tiny_rpc.Buffer.{TcpBuffer, can_write_bytes_num}
use tiny_rpc.Buffer.Invariant.{IsValid}
use tiny_rpc.Buffer.Contents.{contents}
use tiny_rpc.Coder.AbstractCoder.{
  AbstractCoder, IsCoder, CoderClass, MessageOf, coder_of, wire_of, received_of, CanSendTo,
  coder_of-IsCoder,
}
use tiny_rpc.Tcp.Socket.{ReadResult, read_bytes, read_loop, room_to_read}
use tiny_rpc.Tcp.Reading.{read_loop_lem}

module _ {M : Type 0} {c : AbstractCoder M} {wire : List M → List ℕ} {received : List M → List M}
    {CanSend : List M → Type 0} (law : IsCoder c wire received CanSend) where
  -- Two calls of `encode` on an empty buffer leave the bytes of all messages.
  encode_twice :
      (ms ns : List M) (b : TcpBuffer)
      → IsValid b
      → contents b ≡ []
      → 3 * (b.m_write_index + length (wire (ms ++ ns))) / 2 < 2 ^ 31
      → contents (c.encode ns (c.encode ms b).1).1 ≡ wire (ms ++ ns)
  encode_twice ms ns b v h small =
      let n = ap length (law.wire-append ms ns) ∙ length-append (wire ms) (wire ns) in
      let (e, v', w) = law.encode_appends ms b v (omega (arith, n)) in
      let (f, _, _) = law.encode_appends ns (c.encode ms b).1 v' (omega (arith, n)) in
      f ∙ ap (λ xs. xs ++ wire ns) (e ∙ ap (λ xs. xs ++ wire ms) h) ∙ sym (law.wire-append ms ns)

  arrive :
      (ms ns out : List M) (o i : TcpBuffer) (rs : List ReadResult)
      → IsValid o
      → contents o ≡ []
      → 3 * (o.m_write_index + length (wire (ms ++ ns))) / 2 < 2 ^ 31
      → IsValid i
      → contents i ≡ []
      → 2 * length i.m_buffer < 2 ^ 31
      → 0 < length (wire (ms ++ ns))
      → length (wire (ms ++ ns)) < can_write_bytes_num (room_to_read i)
      → CanSend (ms ++ ns)
      → let o' = (c.encode ns (c.encode ms o).1).1 in
        (i' : TcpBuffer) × (b : TcpBuffer) × (read_loop i (read_bytes (contents o') ∷ rs)
          ≡ ok (false, i'))
        × (c.decode out i' ≡ ok (out ++ received (ms ++ ns), b))
        × (contents b ≡ [])
  arrive ms ns out o i rs v empty small v' empty' room some_bytes short can =
      let sent = encode_twice ms ns o v empty small in
      let (i', l, k, r) = read_loop_lem (wire (ms ++ ns)) rs v' room some_bytes short in
      let (b, d, e) =
        law.decode_receives (ms ++ ns) out i' r can (k ∙ ap (λ xs. xs ++ wire (ms ++ ns)) empty') in
      (i', b, ap (λ bytes. read_loop i (read_bytes bytes ∷ rs)) sent ∙ l, d, e)

-- With either class of coder, messages that two calls of encode write to an empty valid buffer,
-- and that reach an empty valid buffer in one read, arrive: the loop of on_read returns, and
-- decode returns, leaves nothing in the buffer, and appends all messages in order as encode
-- leaves them (ProtobufCoder), or one message with their texts one behind the other
-- (StringCoder). Messages of ProtobufCoder are sendable, the read does not fill its buffer, and
-- the sizes stay below the stated bounds.
pub messages_arrive :
    (k : CoderClass) (ms ns out : List (MessageOf k)) (o i : TcpBuffer) (rs : List ReadResult)
    → let c = coder_of k in
      let bytes = wire_of k (ms ++ ns) in
      IsValid o
      → contents o ≡ []
      → 3 * (o.m_write_index + length bytes) / 2 < 2 ^ 31
      → IsValid i
      → contents i ≡ []
      → 2 * length i.m_buffer < 2 ^ 31
      → 0 < length bytes
      → length bytes < can_write_bytes_num (room_to_read i)
      → CanSendTo k (ms ++ ns)
      → let o' = (c.encode ns (c.encode ms o).1).1 in
        (i' : TcpBuffer) × (b : TcpBuffer) × (read_loop i (read_bytes (contents o') ∷ rs)
          ≡ ok (false, i'))
        × (c.decode out i' ≡ ok (out ++ received_of k (ms ++ ns), b))
        × (contents b ≡ [])
messages_arrive k ms ns out o i rs = arrive (coder_of-IsCoder k) ms ns out o i rs
