-- ===== src/Tcp/Acceptor.antt =====
-- src/net/tcp/tcp_acceptor.cc: the listening socket. What the system calls return is a parameter,
-- `none` or `false` where they fail; `setsockopt` is left out, as its result is only logged.
use tiny_rpc.Base.{ℕ, List, Bool, not, Option, none, some, if◌then◌else◌, Ends, goes_on, exits}
use tiny_rpc.Address.{IPv4NetAddr, SockaddrIn, check_valid, get_family, of_sockaddr}

pub record TcpAcceptor : Type 0 where
  pub m_local_addr : IPv4NetAddr
  pub m_family : ℕ
  pub m_listenfd : ℕ

-- The end of the constructor, with its socket.
unfoldable pub start_listening : IPv4NetAddr → ℕ → Bool → Bool → Ends TcpAcceptor
start_listening local_addr listenfd bound listens =
    if not bound
    then exits 2
    else if not listens
    then exits 2
    else goes_on (record {
      m_local_addr = local_addr;
      m_family = get_family local_addr;
      m_listenfd = listenfd;
    })

unfoldable pub new_acceptor : (List ℕ → ℕ) → IPv4NetAddr → Option ℕ → Bool → Bool → Ends TcpAcceptor
unfolding start_listening
new_acceptor inet_addr local_addr socket bound listens =
    if not (check_valid inet_addr local_addr) then exits 2 else elim socket [
      | none ↦ exits 2
      | some listenfd ↦ start_listening local_addr listenfd bound listens
    ]

-- With the descriptor and the address that `accept` returns.
unfoldable pub accept : (ℕ → List ℕ) → Option (ℕ × SockaddrIn) → Ends (ℕ × IPv4NetAddr)
accept inet_ntoa none = exits 2
accept inet_ntoa (some (client_fd, client_addr)) =
    goes_on (client_fd, of_sockaddr inet_ntoa client_addr)
