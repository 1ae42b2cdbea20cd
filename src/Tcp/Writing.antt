-- ===== src/Tcp/Writing.antt =====
-- `on_write` of a server: which bytes the peer is sent.
use tiny_rpc.Base.{
  ℕ, ◌≤◌, ◌<◌, ◌≡◌, refl, ◌∙◌, ap, List, [], ◌∷◌, ◌++◌, map, true, false, All, arith, ok,
  if◌then◌else◌, take, take_all, ne→==_false, le→leb, lt→leb_false, append_assoc,
}
use tiny_rpc.Buffer.{TcpBuffer, can_read_bytes_num}
use tiny_rpc.Buffer.Invariant.{IsValid, length-kept}
use tiny_rpc.Buffer.Contents.{contents}
use tiny_rpc.Coder.Protocol.{ProtobufProtocol}
use tiny_rpc.Rpc.Protobuf.{Protobuf}
use tiny_rpc.Rpc.Dispatcher.{ServiceMap}
use tiny_rpc.Reactor.FdEvent.{out_event, cancel}
use tiny_rpc.Reactor.EventLoop.{add_epoll_event}
use tiny_rpc.Tcp.Connection.{
  TcpConnection, connected, by_server, encode_messages, stop_writing, after_write, write_connected,
  on_write, is_connected,
}
use tiny_rpc.Tcp.Socket.{WriteResult, wrote, write_loop}

-- What each of the calls of `write` that take `ns` bytes sends: a beginning of the contents.
abbrev pub beginnings : List ℕ → List ℕ → List ℕ
beginnings xs [] = []
beginnings xs (n ∷ ns) = take n xs ++ beginnings xs ns

-- Every call starts at the same read index: calls that take less than the contents are followed by
-- one that sends the contents from their beginning.
pub write_loop_lem :
    (b : TcpBuffer) (ns : List ℕ) (n : ℕ) (rs : List WriteResult) (out : List ℕ)
    → IsValid b
    → 0 < can_read_bytes_num b
    → All (λ k. k < can_read_bytes_num b) ns
    → can_read_bytes_num b ≤ n
    → write_loop b out (map wrote ns ++ wrote n ∷ rs)
      ≡ ok (true, out ++ (beginnings (contents b) ns ++ contents b))
unfolding write_loop
write_loop_lem b [] n rs out v some_bytes h all = rw (
  ne→==_false (can_read_bytes_num b) 0 (omega arith),
  le→leb (can_read_bytes_num b) n all,
  take_all n (contents b) (omega (arith, length-kept v (can_read_bytes_num b) (omega arith))),
)
write_loop_lem b (k ∷ ns) n rs out v some_bytes h all = rw (
  ne→==_false (can_read_bytes_num b) 0 (omega arith),
  lt→leb_false (can_read_bytes_num b) k h.0,
  write_loop_lem b ns n rs (out ++ take k (contents b)) v some_bytes h.1 all,
  append_assoc (take k (contents b)) (beginnings (contents b) ns) (contents b),
  append_assoc out (take k (contents b)) (beginnings (contents b) ns ++ contents b),
)

module _ (thread : ℕ) (exec : ℕ → ProtobufProtocol → TcpConnection → TcpConnection)
    (protobuf : Protobuf) (services : ServiceMap protobuf) where
  -- on_write of a connected server sends the contents of the out buffer when a write takes them
  -- all, behind one more beginning of them for each earlier write that took only a part; it
  -- returns, stops listening for writing and tells the loop so, and leaves the out buffer
  -- unchanged, so that the bytes sent are still its contents.
  pub on_write_lem :
      (fuel : ℕ) (c : TcpConnection) (ns : List ℕ) (n : ℕ) (rs : List WriteResult)
      → c.m_state ≡ connected
      → c.m_connection_type ≡ by_server
      → IsValid c.m_out_buffer
      → 0 < can_read_bytes_num c.m_out_buffer
      → All (λ k. k < can_read_bytes_num c.m_out_buffer) ns
      → can_read_bytes_num c.m_out_buffer ≤ n
      → (c' : TcpConnection) × (on_write thread exec protobuf services fuel c
            (map wrote ns ++ wrote n ∷ rs)
          ≡ ok c')
        × (c'.written
            ≡ c.written ++ (beginnings (contents c.m_out_buffer) ns ++ contents c.m_out_buffer))
        × (c'.m_out_buffer ≡ c.m_out_buffer)
        × (c'.m_fd_event ≡ cancel c.m_fd_event out_event)
        × (c'.m_fd_event.epollout ≡ false)
        × (c'.m_event_loop ≡ add_epoll_event thread c.m_event_loop c'.m_fd_event)
  unfolding on_write write_connected encode_messages stop_writing after_write cancel
  on_write_lem fuel c ns n rs st t v some_bytes h all =
      let results = map wrote ns ++ wrote n ∷ rs in
      let b = c.m_out_buffer in
      let c' =
        stop_writing thread true
          (record c { written = c.written ++ (beginnings (contents b) ns ++ contents b) }) in
      (
        c',
        ap
              (λ s.
                if is_connected s
                then write_connected thread exec protobuf services c.m_connection_type fuel c
                    results
                else ok c)
              st
            ∙ ap (λ type. write_connected thread exec protobuf services type fuel c results) t
            ∙ rw (write_loop_lem b ns n rs c.written v some_bytes h all),
        refl,
        refl,
        refl,
        refl,
        refl,
      )
