-- ===== src/Address.antt =====
-- src/net/tcp/ipv4_net_addr.cc: an address with its port. `inet_addr` and `inet_ntoa`, functions of
-- the system, are parameters.
pub mod Text
use tiny_rpc.Base.{
  ℕ, suc, ◌+◌, ◌-◌, ◌*◌, ◌/◌, ◌%◌, ◌^◌, List, [], ◌∷◌, ◌++◌, Bool, true, false, not, Option, none,
  some, ◌==◌, if◌then◌else◌, length, take, drop, find_first_of, atoi, decimal,
}

-- `sockaddr_in`.
pub record SockaddrIn : Type 0 where
  pub sin_family : ℕ
  pub sin_port : ℕ
  pub sin_addr : ℕ

pub record IPv4NetAddr : Type 0 where
  pub m_ip : List ℕ
  pub m_port : ℕ
  pub m_addr : SockaddrIn

abbrev pub af_inet : ℕ
af_inet = 2

abbrev pub inaddr_none : ℕ
inaddr_none = 2 ^ 32 - 1

-- `htons` and `ntohs` swap the two bytes.
abbrev pub htons : ℕ → ℕ
htons w = w % 256 * 256 + w / 256 % 256

abbrev pub zero_addr : SockaddrIn
zero_addr = record { sin_family = 0; sin_port = 0; sin_addr = 0 }

-- An `int` as a `uint16_t`.
abbrev pub to_uint16 : Bool × ℕ → ℕ
to_uint16 (false, n) = n % 2 ^ 16
to_uint16 (true, n) = (2 ^ 16 - n % 2 ^ 16) % 2 ^ 16

unfoldable pub to_string : IPv4NetAddr → List ℕ
to_string a = a.m_ip ++ b':' ∷ decimal a.m_port

abbrev pub get_family : IPv4NetAddr → ℕ
get_family a = af_inet

module _ (inet_addr : List ℕ → ℕ) where
  unfoldable pub of_ip_port : List ℕ → ℕ → IPv4NetAddr
  of_ip_port ip port = record {
    m_ip = ip;
    m_port = port;
    m_addr = record { sin_family = af_inet; sin_port = htons port; sin_addr = inet_addr ip };
  }

  -- The constructor from a text. Without a colon the members stay as the class initialises them.
  unfoldable pub of_text : List ℕ → IPv4NetAddr
  unfolding of_ip_port
  of_text addr = elim (find_first_of b':' addr) [
    | none ↦ record { m_ip = []; m_port = 0; m_addr = zero_addr }
    | some pos ↦ of_ip_port (take pos addr) (to_uint16 (atoi (drop (suc pos) addr)))
  ]

  unfoldable pub check_valid : IPv4NetAddr → Bool
  check_valid a =
      if length a.m_ip == 0 then false else if inet_addr a.m_ip == inaddr_none then false else true

unfoldable pub of_sockaddr : (ℕ → List ℕ) → SockaddrIn → IPv4NetAddr
of_sockaddr inet_ntoa addr = record {
  m_ip = inet_ntoa addr.sin_addr;
  m_port = htons addr.sin_port;
  m_addr = addr;
}
