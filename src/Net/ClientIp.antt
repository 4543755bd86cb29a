-- ===== src/Net/ClientIp.antt =====
-- crates/api/src/client_ip.rs: the client's address behind a reverse proxy.
pub mod Hops
use nyuka.Common.{
  ℕ, Bool, true, false, Option, none, some, List, [], ◌∷◌, ◌++◌, ◌==◌, Text, if◌then◌else◌,
}
use nyuka.Common.Trim.{trim}
use nyuka.Net.Address.{IpAddr, SocketAddr}
use nyuka.Net.Cidr.{Cidr, contains}

-- `iter().any`; `none` is the panic of a network of an impossible prefix length.
unfoldable pub is_trusted : IpAddr → List Cidr → Option Bool
is_trusted addr [] = some false
is_trusted addr (net ∷ nets) =
    let rest = is_trusted addr nets in
    elim (contains net addr) [ none ↦ none | some t ↦ if t then some true else rest ]

-- `str::split(',')`: one entry more than there are commas.
unfoldable pub split_commas : Text → List Text
split_commas [] = [] ∷ []
split_commas (c ∷ cs) = elim (split_commas cs) [
  | [] ↦ (c ∷ []) ∷ []
  | e ∷ es ↦ if c == b',' then [] ∷ e ∷ es else (c ∷ e) ∷ es
]

unfoldable pub reverse_onto : List IpAddr → List IpAddr → List IpAddr
reverse_onto [] acc = acc
reverse_onto (a ∷ rest) acc = reverse_onto rest (a ∷ acc)

-- `find(|addr| !is_trusted(*addr, trusted))`
unfoldable pub first_untrusted : List Cidr → List IpAddr → Option (Option IpAddr)
first_untrusted nets [] = some none
first_untrusted nets (addr ∷ addrs) =
    let rest = first_untrusted nets addrs in
    elim (is_trusted addr nets) [ none ↦ none | some t ↦ if t then rest else some (some addr) ]

-- The standard library's parser of addresses.
module _ (parse_ip : Text → Option IpAddr) where
  unfoldable pub entries : List Text → List IpAddr
  entries [] = []
  entries (e ∷ es) =
      let rest = entries es in elim (parse_ip (trim e)) [ none ↦ rest | some ip ↦ ip ∷ rest ]

  unfoldable pub read_forwarded : IpAddr → Text → List Cidr → Option IpAddr
  read_forwarded peer forwarded nets =
      elim (first_untrusted nets (reverse_onto (entries (split_commas forwarded)) [])) [
        | none ↦ none
        | some none ↦ some peer
        | some (some addr) ↦ some addr
      ]

  -- `forwarded` is the header's first value, where it has one and it is visible ASCII.
  unfoldable pub client_ip : SocketAddr → Option Text → List Cidr → Option IpAddr
  client_ip peer forwarded [] = some peer.ip
  client_ip peer forwarded (net ∷ nets) = elim (is_trusted peer.ip (net ∷ nets)) [
    | none ↦ none
    | some false ↦ some peer.ip
    | some true ↦ (elim forwarded [
      | none ↦ some peer.ip
      | some header ↦ read_forwarded peer.ip header (net ∷ nets)
    ])
  ]
