-- ===== src/Tcp/Closing.antt =====
-- The states of a connection: the end of the stream, `clear`, and what a closed connection does.
use tiny_rpc.Base.{
  ℕ, ◌≡◌, refl, ap, ◌∙◌, List, Bool, true, false, Outcome, ok, ◌>>=◌, ◌+◌, ◌||◌, if◌then◌else◌,
}
use mathlib.Core.Path.{subst}
use tiny_rpc.Buffer.{TcpBuffer}
use tiny_rpc.Reactor.EventLoop.{delete_epoll_event}
use tiny_rpc.Reactor.Epoll.{IsConsistent}
use tiny_rpc.Reactor.Deleting.{IsUnwatched, delete_epoll_event-IsUnwatched}
use tiny_rpc.Coder.Protocol.{ProtobufProtocol}
use tiny_rpc.Rpc.Protobuf.{Protobuf}
use tiny_rpc.Rpc.Dispatcher.{ServiceMap}
use tiny_rpc.Reactor.FdEvent.{cancel}
use tiny_rpc.Tcp.Connection.{
  connected, half_closing, closed, TcpConnection, read_connected, write_connected, on_read,
  on_write, clear, shutdown, is_connected, is_closed, is_not_connected, close, excute,
}
use tiny_rpc.Tcp.Socket.{ReadResult, WriteResult, read_loop}

module _ (thread : ℕ) (exec : ℕ → ProtobufProtocol → TcpConnection → TcpConnection)
    (protobuf : Protobuf) (services : ServiceMap protobuf) where
  -- A closed connection stays as it is: on_read and on_write return and do nothing, and clear
  -- and shutdown do nothing.
  closed_lem :
      (c : TcpConnection) (fuel : ℕ) (rs : List ReadResult) (ws : List WriteResult)
      → c.m_state ≡ closed
      → (on_read thread exec protobuf services c rs ≡ ok c)
        × (on_write thread exec protobuf services fuel c ws ≡ ok c)
        × (clear thread c ≡ c)
        × (shutdown c ≡ c)
  unfolding on_read on_write clear shutdown
  closed_lem c fuel rs ws e = (
    ap (λ s. if is_connected s then read_connected thread exec protobuf services c rs else ok c) e,
    ap
        (λ s.
          if is_connected s
          then write_connected thread exec protobuf services c.m_connection_type fuel c ws
          else ok c)
        e,
    ap (λ s. if is_closed s then c else close thread c) e,
    ap
        (λ s.
          if is_closed s || is_not_connected s
          then c
          else record c { m_state = half_closing; shutdowns = c.shutdowns + 1 })
        e,
  )

  -- A closed connection whose kernel events are off, and that the functions leave as it is.
  pub record IsClosed (c : TcpConnection) : Type 0 where
    pub state : c.m_state ≡ closed
    pub no_input : c.m_fd_event.epollin ≡ false
    pub no_output : c.m_fd_event.epollout ≡ false
    pub unwatched : IsUnwatched c.m_fd_event.m_fd c.m_event_loop
    pub stays :
        (fuel : ℕ) (rs : List ReadResult) (ws : List WriteResult)
        → (on_read thread exec protobuf services c rs ≡ ok c)
          × (on_write thread exec protobuf services fuel c ws ≡ ok c)
          × (clear thread c ≡ c)
          × (shutdown c ≡ c)

  -- When the reads of a connected connection, whatever bytes they return, come to the end of
  -- the stream, and its loop, whose thread runs on_read, agrees with the kernel, then on_read
  -- returns the connection closed. Its event listens to nothing, the kernel has accepted every
  -- epoll_ctl call and does not watch the descriptor, and from then on on_read, on_write, clear
  -- and shutdown change nothing. The in buffer is what the reads have left, with their bytes
  -- undecoded, and the out buffer is unchanged.
  pub on_read_closes :
      (c : TcpConnection) (rs : List ReadResult) (b : TcpBuffer)
      → c.m_state ≡ connected
      → c.m_event_loop.m_thread_id ≡ thread
      → IsConsistent c.m_event_loop
      → read_loop c.m_in_buffer rs ≡ ok (true, b)
      → (c' : TcpConnection) × (on_read thread exec protobuf services c rs ≡ ok c')
        × IsClosed c'
        × (c'.m_fd_event.m_fd ≡ c.m_fd_event.m_fd)
        × (c'.m_in_buffer ≡ b)
        × (c'.m_out_buffer ≡ c.m_out_buffer)
  unfolding on_read read_connected clear close cancel
  on_read_closes c rs b e own agrees ends =
      let c' = close thread (record c { m_in_buffer = b }) in
      let finish : Bool × TcpBuffer → Outcome TcpConnection = λ r.
        let d = record c { m_in_buffer = r.1 } in
        if r.0 then ok (clear thread d) else excute thread exec protobuf services d in
      (
        c',
        ap (λ s. if is_connected s then read_connected thread exec protobuf services c rs else ok c)
              e
            ∙ ap (λ o. o >>= finish) ends
            ∙ ap (λ s. ok (if is_closed s then record c { m_in_buffer = b } else c')) e,
        record {
          state = refl;
          no_input = refl;
          no_output = refl;
          unwatched =
              subst
                (λ t.
                  IsUnwatched c.m_fd_event.m_fd (delete_epoll_event t c.m_event_loop c'.m_fd_event))
                own (delete_epoll_event-IsUnwatched c'.m_fd_event agrees);
          stays = λ fuel rs' ws. closed_lem c' fuel rs' ws refl;
        },
        refl,
        refl,
        refl,
      )
