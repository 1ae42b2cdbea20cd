-- ===== src/Tests/Transfer.antt =====
-- Messages on their way through a coder.
use tiny_rpc.Base.{◌≡◌, refl, [], ◌∷◌, ◌++◌, map, arith, ok, false, replicate}
use tiny_rpc.Buffer.{TcpBuffer}
use tiny_rpc.Buffer.Invariant.{IsValid}
use tiny_rpc.Buffer.Contents.{contents}
use tiny_rpc.Coder.RoundTrip.{decoded}
use tiny_rpc.Coder.AbstractCoder.{protobuf_coder, protobuf_class}
use tiny_rpc.Tcp.Socket.{read_bytes, read_loop, room_to_read}
use tiny_rpc.Tcp.Transfer.{messages_arrive}
use tiny_rpc.Tests.Data.{request, request-IsSendable}

abbrev roomy : TcpBuffer
roomy = record { m_read_index = 0; m_write_index = 0; m_size = 128; m_buffer = replicate 128 0 }

roomy-IsValid : IsValid roomy
roomy-IsValid = record { read_le = omega arith; write_le = omega arith; small = omega arith }

-- Two requests, of one call of `encode` each.
messages_arrive_example :
    let o =
      (protobuf_coder.encode (request ∷ []) (protobuf_coder.encode (request ∷ []) roomy).1).1 in
    (i : TcpBuffer) × (b : TcpBuffer) × (read_loop roomy (read_bytes (contents o) ∷ [])
      ≡ ok (false, i))
    × (protobuf_coder.decode [] i ≡ ok ([] ++ map decoded (request ∷ request ∷ []), b))
    × (contents b ≡ [])
unfolding room_to_read
messages_arrive_example =
    messages_arrive protobuf_class (request ∷ []) (request ∷ []) [] roomy roomy [] roomy-IsValid
      refl (omega arith) roomy-IsValid refl (omega arith) (omega arith) (omega arith)
      (request-IsSendable, (request-IsSendable, tt))
