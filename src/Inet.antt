-- ===== src/Inet.antt =====
-- CSocekt::ngx_sock_ntop of net/ngx_c_socket_inet.cxx: the text of an address.
pub mod Dotted
use net_server.Base.{ℕ, Option, none, some, List, [], ◌∷◌, ◌==◌, if◌then◌else◌}
use net_server.Printf.{Doubles, Arg, word, snprintf}

-- A sockaddr_in: the four bytes of `sin_addr`, and `sin_port` after ntohs.
pub record SockAddr : Type 0 where
  pub p0 : ℕ
  pub p1 : ℕ
  pub p2 : ℕ
  pub p3 : ℕ
  pub port : ℕ

-- "%ud.%ud.%ud.%ud"
abbrev pub address_format : List ℕ
address_format =
    b'%' ∷ b'u' ∷ b'd' ∷ b'.' ∷ b'%' ∷ b'u' ∷ b'd' ∷ b'.' ∷ b'%' ∷ b'u' ∷ b'd' ∷ b'.' ∷ b'%' ∷ b'u'
    ∷ b'd' ∷ []

-- "%ud.%ud.%ud.%ud:%d"
abbrev pub address_port_format : List ℕ
address_port_format =
    b'%' ∷ b'u' ∷ b'd' ∷ b'.' ∷ b'%' ∷ b'u' ∷ b'd' ∷ b'.' ∷ b'%' ∷ b'u' ∷ b'd' ∷ b'.' ∷ b'%' ∷ b'u'
    ∷ b'd' ∷ b':' ∷ b'%' ∷ b'd' ∷ []

-- ngx_sock_ntop: what is written to `text`, whose length is the result. An address of another family
-- than AF_INET is `none`.
unfoldable pub sock_ntop : Doubles → Option SockAddr → ℕ → ℕ → Option (List ℕ)
sock_ntop fl none port len = some []
sock_ntop fl (some sa) port len =
    if port == 0
    then snprintf fl len address_format (word sa.p0 ∷ word sa.p1 ∷ word sa.p2 ∷ word sa.p3 ∷ [])
    else snprintf fl len address_port_format
        (word sa.p0 ∷ word sa.p1 ∷ word sa.p2 ∷ word sa.p3 ∷ word sa.port ∷ [])
