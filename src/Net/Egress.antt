-- ===== src/Net/Egress.antt =====
-- crates/aidoku-runtime/src/imports/egress.rs, and the resolver of imports/net.rs beside it.
pub mod Ranges
pub mod Vetted
use nyuka.Common.{
  ℕ, ◌/◌, ◌%◌, Bool, true, false, ◌&&◌, ◌||◌, Option, none, some, List, [], ◌∷◌, ◌==◌, leb, within,
  if◌then◌else◌, Text, txt, text_eq, unwrap_or,
}
use nyuka.Net.Address.{IpAddr, v4, v6, SocketAddr}
use nyuka.Net.Bits.{bit_and}

pub data Blocked : Type 0 where
  loopback private link_local cloud_metadata unspecified reserved multicast : Blocked

pub data Denial : Type 0 where
  scheme : Text → Denial
  no_host unresolved : Denial
  blocked : Text → Blocked → Denial

pub data Vetting : Type 0 where
  ok : List SocketAddr → Vetting
  denied : Denial → Vetting

unfoldable pub classify_v4 : ℕ → ℕ → ℕ → ℕ → Option Blocked
classify_v4 a b c d =
    if a == 169 && b == 254 && c == 169 && (d == 254 || d == 253)
    then some cloud_metadata
    else if a == 127
    then some loopback
    else if a == 10 || a == 172 && within 16 31 b || a == 192 && b == 168
    then some private
    else if a == 169 && b == 254
    then some link_local
    else if a == 0 && b == 0 && c == 0 && d == 0
    then some unspecified
    else if a == 255 && b == 255 && c == 255 && d == 255 || within 224 239 a
    then some multicast
    else if a == 100 && within 64 127 b || a == 192 && b == 0 && c == 0
    then some reserved
    else none

-- The eight segments are zero but for the last, which is `last`.
abbrev pub is_only : ℕ → ℕ → ℕ → ℕ → ℕ → ℕ → ℕ → ℕ → ℕ → Bool
is_only last a b c d e f g h =
    a == 0 && b == 0 && c == 0 && d == 0 && e == 0 && f == 0 && g == 0 && h == last

-- `Ipv6Addr::is_multicast` is ff00::/8.
unfoldable pub classify_v6 : ℕ → ℕ → ℕ → ℕ → ℕ → ℕ → ℕ → ℕ → Option Blocked
classify_v6 a b c d e f g h =
    if is_only 1 a b c d e f g h
    then some loopback
    else if is_only 0 a b c d e f g h
    then some unspecified
    else if bit_and 16 a 65_280 == 65_280
    then some multicast
    else if bit_and 16 a 65_472 == 65_152
    then some link_local
    else if bit_and 16 a 65_024 == 64_512
    then some private
    else none

abbrev pub is_mapped : ℕ → ℕ → ℕ → ℕ → ℕ → ℕ → Bool
is_mapped a b c d e f = a == 0 && b == 0 && c == 0 && d == 0 && e == 0 && f == 65_535

-- `to_ipv4_mapped` is `some` on ::ffff:0:0/96.
unfoldable pub classify : IpAddr → Option Blocked
classify (v4 a b c d) = classify_v4 a b c d
classify (v6 a b c d e f g h) =
    if is_mapped a b c d e f
    then classify_v4 (g / 256) (g % 256) (h / 256) (h % 256)
    else classify_v6 a b c d e f g h

-- What the accessors of a `url::Url` return; `port` is `port_or_known_default`.
pub record Url : Type 0 where
  pub scheme : Text
  pub host : Option Text
  pub port : Option ℕ

-- The loop over the addresses returns at the first that is blocked.
unfoldable pub first_blocked : List SocketAddr → Option Blocked
first_blocked [] = none
first_blocked (addr ∷ addrs) =
    let rest = first_blocked addrs in
    let reason = classify addr.ip in elim reason [ none ↦ rest | some r ↦ some r ]

unfoldable pub vet_resolved : Text → Option (List SocketAddr) → Vetting
vet_resolved host none = denied unresolved
vet_resolved host (some []) = denied unresolved
vet_resolved host (some (addr ∷ addrs)) = elim (first_blocked (addr ∷ addrs)) [
  | none ↦ ok (addr ∷ addrs)
  | some reason ↦ denied (blocked host reason)
]

unfoldable pub vet_literal : Text → IpAddr → ℕ → Vetting
vet_literal host ip port = elim (classify ip) [
  | some reason ↦ denied (blocked host reason)
  | none ↦ ok (record { ip = ip; port = port } ∷ [])
]

-- The standard library's parser of addresses, and the resolver that the policy is given.
module _ (parse_ip : Text → Option IpAddr) (resolve : Text → ℕ → Option (List SocketAddr)) where
  unfoldable pub vet_host : Text → ℕ → Vetting
  vet_host host port = elim (parse_ip host) [
    | some ip ↦ vet_literal host ip port
    | none ↦ vet_resolved host (resolve host port)
  ]

  unfoldable pub vet_named : Option Text → ℕ → Vetting
  vet_named none port = denied no_host
  vet_named (some host) port = vet_host host port

  unfoldable pub vet : Url → Vetting
  vet url =
      if text_eq url.scheme (txt "http") || text_eq url.scheme (txt "https")
      then vet_named url.host (unwrap_or url.port 443)
      else denied (scheme url.scheme)

-- `VettingResolver::vetted`
unfoldable pub vetted : (Text → ℕ → Option (List SocketAddr)) → Text → ℕ → Vetting
vetted resolve host port = vet_resolved host (resolve host port)
