-- ===== src/Tcp/Connecting.antt =====
-- The outcomes of `TcpClient::connect`, the second call of `connect` included.
use tiny_rpc.Base.{
  ℕ, ◌≡◌, ◌↔◌, refl, inl, inr, List, Option, none, some, arith, ◌==◌, ◌∷◌, [], ◌++◌, codes,
  Bool-cases, if-either,
}
use tiny_rpc.Address.{IPv4NetAddr}
use tiny_rpc.Rpc.ErrorCode.{error_peer_closed, error_failed_connect}
use tiny_rpc.Tcp.Connection.{not_connected, connected, set_state}
use tiny_rpc.Tcp.Client.{
  TcpClient, ConnectResult, connects, fails, ConnectStep, runs_done, waits, connect,
  on_connect_event, connect_again, connect_done, connect_refused, set_connect_error,
  init_local_addr, watch_connect, leave_epoll, einprogress, eisconn, econnrefused,
}

-- The code that the channel tests against the state of the connection.
abbrev pub IsTold : TcpClient → Type 0
IsTold c = (c.m_connect_error_code ≡ 0) ↔ (c.m_connection.m_state ≡ connected)

connect_done-IsTold :
    (name : Option IPv4NetAddr) (c : TcpClient)
    → c.m_connect_error_code ≡ 0
    → IsTold (connect_done name c)
unfolding connect_done init_local_addr set_state
connect_done-IsTold none c e = (λ _. refl, λ _. e)
connect_done-IsTold (some addr) c e = (λ _. refl, λ _. e)

connect_done-m_timer :
    (name : Option IPv4NetAddr) (c : TcpClient) → (connect_done name c).m_timer ≡ c.m_timer
unfolding connect_done init_local_addr
connect_done-m_timer none c = refl
connect_done-m_timer (some addr) c = refl

error-IsTold :
    (c : TcpClient) (code : ℕ) (info : List ℕ)
    → c.m_connection.m_state ≡ not_connected
    → ¬ (code ≡ 0)
    → IsTold (set_connect_error c code info)
unfolding set_connect_error
error-IsTold c code info s differs = (λ z. absurd (differs z), λ h. absurd (cc (s, h)))

module _ (thread : ℕ) (strerror : ℕ → List ℕ) where
  -- What follows `connect`: nothing, or the event that it waits for.
  abbrev pub await_connect :
      ConnectResult → Option IPv4NetAddr → ℕ → TcpClient × ConnectStep → TcpClient
  await_connect second name socket (c, runs_done) = c
  await_connect second name socket (c, waits starts_loop) =
      on_connect_event thread strerror second name socket c

  abbrev pub establish :
      ConnectResult → ConnectResult → Option IPv4NetAddr → ℕ → TcpClient → TcpClient
  establish first second name socket c =
      await_connect second name socket (connect thread strerror first name c)

  connect_refused-IsTold :
      (errno socket : ℕ) (c : TcpClient)
      → c.m_connection.m_state ≡ not_connected
      → IsTold (connect_refused thread strerror errno socket c)
  unfolding connect_refused set_connect_error
  connect_refused-IsTold errno socket c s =
      if-either
        (λ c'. IsTold (record c' { m_fd = socket; closed_fds = c.closed_fds ++ c.m_fd ∷ [] }))
        (errno == econnrefused)
        (error-IsTold c error_peer_closed (codes "connect refused, sys error = " ++ strerror errno)
          s (omega arith))
        (error-IsTold c error_failed_connect
          (codes "connect unkonwn error, sys error = " ++ strerror errno) s (omega arith))

  connect_again-IsTold :
      (result : ConnectResult) (name : Option IPv4NetAddr) (socket : ℕ) (c : TcpClient)
      → c.m_connect_error_code ≡ 0
      → c.m_connection.m_state ≡ not_connected
      → IsTold (connect_again thread strerror result name socket c)
  unfolding connect_again
  connect_again-IsTold connects name socket c e s = connect_done-IsTold name c e
  connect_again-IsTold (fails errno) name socket c e s = elim (Bool-cases (errno == eisconn)) [
    | inl f ↦ rw f (connect_done-IsTold name c e)
    | inr f ↦ rw f (connect_refused-IsTold errno socket c s)
  ]

  -- After connect on a client that is not connected and has no error, and after the event that
  -- it waits for where it waits, the connect error code is 0 exactly if the connection is
  -- connected, whatever the two system calls return.
  pub establish-IsTold :
      (first second : ConnectResult) (name : Option IPv4NetAddr) (socket : ℕ) (c : TcpClient)
      → c.m_connect_error_code ≡ 0
      → c.m_connection.m_state ≡ not_connected
      → IsTold (establish first second name socket c)
  unfolding connect on_connect_event leave_epoll watch_connect set_connect_error
  establish-IsTold connects second name socket c e s = connect_done-IsTold name c e
  establish-IsTold (fails errno) second name socket c e s =
      if-either (λ p. IsTold (await_connect second name socket p)) (errno == einprogress)
        (connect_again-IsTold second name socket (watch_connect thread strerror c) e s)
        (error-IsTold c error_failed_connect (codes "connect error, sys error = " ++ strerror errno)
          s (omega arith))

  connect_again-m_timer :
      (result : ConnectResult) (name : Option IPv4NetAddr) (socket : ℕ) (c : TcpClient)
      → (connect_again thread strerror result name socket c).m_timer ≡ c.m_timer
  unfolding connect_again connect_refused set_connect_error
  connect_again-m_timer connects name socket c = connect_done-m_timer name c
  connect_again-m_timer (fails errno) name socket c =
      if-either (λ (d : TcpClient). d.m_timer ≡ c.m_timer) (errno == eisconn)
        (connect_done-m_timer name c)
        (if-either (λ (d : TcpClient). d.m_timer ≡ c.m_timer) (errno == econnrefused) refl refl)

  pub on_connect_event-m_timer :
      (result : ConnectResult) (name : Option IPv4NetAddr) (socket : ℕ) (c : TcpClient)
      → (on_connect_event thread strerror result name socket c).m_timer ≡ c.m_timer
  unfolding on_connect_event leave_epoll
  on_connect_event-m_timer result name socket c = connect_again-m_timer result name socket c

  pub connect-m_timer :
      (result : ConnectResult) (name : Option IPv4NetAddr) (c : TcpClient)
      → (connect thread strerror result name c).0.m_timer ≡ c.m_timer
  unfolding connect watch_connect set_connect_error
  connect-m_timer connects name c = connect_done-m_timer name c
  connect-m_timer (fails errno) name c =
      if-either (λ (p : TcpClient × ConnectStep). p.0.m_timer ≡ c.m_timer) (errno == einprogress)
        refl refl
