-- ===== src/Tests/Wire.antt =====
-- Buffers and the coder.
use tiny_rpc.Base.{
  ℕ, ◌≡◌, refl, List, [], ◌∷◌, ◌++◌, map, ok, err, stuck, out_of_bounds, arith, replicate, take,
}
use tiny_rpc.Buffer.{TcpBuffer, write_to_buffer, resize_buffer, adjust_buffer}
use tiny_rpc.Buffer.Invariant.{IsValid}
use tiny_rpc.Buffer.Contents.{
  contents, contents-write_to_buffer, contents-resize_buffer, contents-adjust_buffer,
}
use tiny_rpc.Coder.Protocol.{s_start, s_end, net_bytes, get_int32_from_netbyte, from_net_bytes}
use tiny_rpc.Coder.Decode.{find_packet, check_start, decode, decode_loop, parse_packet}
use tiny_rpc.Coder.Append.{packets}
use tiny_rpc.Coder.RoundTrip.{IsReady, decoded, decode-packets}
use tiny_rpc.Coder.Noise.{decode_loop-twice}
use tiny_rpc.Coder.Malformed.{msg_id_overflow, zero_length-stuck}
use tiny_rpc.Tests.Data.{
  request, request-IsSendable, holding, empty, empty-IsValid, one_request, one_request-IsReady,
}

decode-packets_example :
    (b' : TcpBuffer) × (decode [] one_request ≡ ok ([] ++ map decoded (request ∷ []), b'))
    × (contents b' ≡ [])
    × IsReady b'
decode-packets_example =
    decode-packets (request ∷ []) [] one_request [] one_request-IsReady (request-IsSendable, tt) tt
      refl

contents-write_to_buffer_example :
    contents (write_to_buffer empty (1 ∷ 2 ∷ 3 ∷ [])) ≡ contents empty ++ 1 ∷ 2 ∷ 3 ∷ []
contents-write_to_buffer_example =
    contents-write_to_buffer {b = empty} (1 ∷ 2 ∷ 3 ∷ []) empty-IsValid (omega arith)

contents-resize_buffer_example :
    contents (resize_buffer one_request 20) ≡ take 20 (contents one_request)
contents-resize_buffer_example =
    contents-resize_buffer {b = one_request} 20 one_request-IsReady.valid

-- The bytes behind the read index, 30 of 64.
abbrev half_read : TcpBuffer
half_read = record one_request { m_read_index = 30 }

half_read-IsValid : IsValid half_read
half_read-IsValid = record { read_le = omega arith; write_le = omega arith; small = omega arith }

contents-adjust_buffer_example : contents (adjust_buffer half_read) ≡ contents half_read
contents-adjust_buffer_example = contents-adjust_buffer {b = half_read} half_read-IsValid

abbrev behind_noise : TcpBuffer
behind_noise = record {
  m_read_index = 0;
  m_write_index = 74;
  m_size = 128;
  m_buffer = (replicate 40 9 ++ packets (request ∷ [])) ++ replicate 54 0;
}

behind_noise-IsReady : IsReady behind_noise
behind_noise-IsReady = record {
  valid = record { read_le = omega arith; write_le = omega arith; small = omega arith };
  not_full = omega arith;
}

decode_loop-twice_example :
    (b' : TcpBuffer) × (decode_loop 5 [] behind_noise
      ≡ decode_loop 3 (decoded request ∷ decoded request ∷ []) b')
decode_loop-twice_example =
    decode_loop-twice request (replicate 40 9) [] behind_noise 3 [] behind_noise-IsReady
      request-IsSendable (ground arith) (omega arith) refl

-- A packet whose message id is 200 bytes long.
abbrev long_id : List ℕ
long_id = s_start ∷ (net_bytes 226 ++ (net_bytes 200 ++ replicate 217 9)) ++ s_end ∷ []

msg_id_overflow_example :
    parse_packet long_id (record { start_index = 0; end_index = 225; pk_len = 226 })
    ≡ err out_of_bounds
msg_id_overflow_example =
    msg_id_overflow long_id (replicate 217 9 ++ s_end ∷ [])
      (record { start_index = 0; end_index = 225; pk_len = 226 }) 200 refl (omega arith)
      (omega arith) (omega arith)

-- The end byte, a start byte, and the length 0.
abbrev endless : TcpBuffer
endless = holding (s_end ∷ s_start ∷ 0 ∷ 0 ∷ 0 ∷ 0 ∷ [])

zero_length-stuck_example : decode_loop 1000 [] endless ≡ stuck
unfolding find_packet check_start get_int32_from_netbyte from_net_bytes
zero_length-stuck_example =
    zero_length-stuck endless (record { start_index = 1; end_index = 0; pk_len = 0 }) (omega arith)
      (omega arith) refl refl (omega arith) 1000 []
