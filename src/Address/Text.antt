-- ===== src/Address/Text.antt =====
-- Addresses as texts.
use tiny_rpc.Base.{
  ℕ, ◌%◌, ◌^◌, ◌<◌, ◌≡◌, ◌≢◌, ap₂, List, ◌∷◌, ◌++◌, All, false, arith, find_first_of-append,
  find_first_of-none, take_front, drop_past, decimal, atoi-decimal,
}
use tiny_rpc.Address.{IPv4NetAddr, htons, to_string, of_ip_port, of_text, of_sockaddr, check_valid}

abbrev pub NoColon : List ℕ → Type 0
NoColon = All (λ c. c ≢ b':')

module _ (inet_addr : List ℕ → ℕ) where
  -- The address made from the text of an address whose ip has no colon and whose port is below
  -- 2^16 is the one made from its ip and its port.
  pub of_text-to_string :
      (a : IPv4NetAddr)
      → NoColon a.m_ip
      → a.m_port < 2 ^ 16
      → of_text inet_addr (to_string a) ≡ of_ip_port inet_addr a.m_ip a.m_port
  unfolding of_text to_string
  of_text-to_string a clean small =
      let q : a.m_port % 2 ^ 16 ≡ a.m_port = omega arith in
      rw (
        find_first_of-append b':' a.m_ip (decimal a.m_port) clean,
        take_front a.m_ip (decimal a.m_port) b':',
        drop_past a.m_ip (decimal a.m_port) b':',
        atoi-decimal a.m_port,
        q,
        of_text,
      )

  -- A text without a colon gives an address that is refused.
  pub of_text-invalid :
      (addr : List ℕ) → NoColon addr → check_valid inet_addr (of_text inet_addr addr) ≡ false
  unfolding of_text check_valid
  of_text-invalid addr clean = rw (find_first_of-none b':' addr clean, of_text)

-- `htons` and `ntohs` undo each other.
htons-htons : (w : ℕ) → w < 2 ^ 16 → htons (htons w) ≡ w
htons-htons w h = omega arith

-- What a peer learns from the socket address is the address, where its ip is a text that the two
-- functions of the system lead back to itself.
pub of_sockaddr-of_text :
    (inet_addr : List ℕ → ℕ) (inet_ntoa : ℕ → List ℕ) (a : IPv4NetAddr)
    → NoColon a.m_ip
    → a.m_port < 2 ^ 16
    → inet_ntoa (inet_addr a.m_ip) ≡ a.m_ip
    → let b = of_sockaddr inet_ntoa (of_text inet_addr (to_string a)).m_addr in
      (b.m_ip ≡ a.m_ip) × (b.m_port ≡ a.m_port) × (to_string b ≡ to_string a)
unfolding of_sockaddr of_ip_port
of_sockaddr-of_text inet_addr inet_ntoa a clean small undone =
    rw (of_text-to_string inet_addr a clean small) (
      undone,
      htons-htons a.m_port small,
      unfold to_string in
          ap₂ (λ ip port. ip ++ b':' ∷ decimal port) undone (htons-htons a.m_port small),
    )
