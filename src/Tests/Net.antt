-- ===== src/Tests/Net.antt =====
-- Addresses: a proxy, a client, and a source's address.
use nyuka.Common.{
  refl, ◌++◌, ℕ, Bool, true, Option, none, some, List, [], ◌∷◌, ◌≡◌, ◌↔◌, ◌⊎◌, inl, inr, arith,
  Text, txt, text_eq, take, unwrap_or, if◌then◌else◌, Bool-cases, sym,
}
use nyuka.Net.Address.{IpAddr, v4, v6, SocketAddr, IsAddress, octets}
use nyuka.Net.Cidr.{
  Cidr, Parsed, contains, parse, parse_parts, split_slash, parse_u8, digits_u8, checked_prefix,
}
use nyuka.Net.Cidr.Parse.{parse_lem}
use nyuka.Net.Cidr.Prefix.{IsCidr, bits, width, contains_lem}
use nyuka.Net.ClientIp.{client_ip}
use nyuka.Net.ClientIp.Hops.{Parses, IsHop, Trusted, Untrusted, client_ip_lem}
use nyuka.Net.Egress.{classify, vet, vetted, ok, Url}
use nyuka.Net.Egress.Ranges.{IsOpen, classify_lem}
use nyuka.Net.Egress.Vetted.{IsAnswer, IsApproved, vet_lem, vetted_lem}

abbrev public : IpAddr
public = v4 203 0 113 9

abbrev proxy : IpAddr
proxy = v4 10 0 0 5

abbrev proxies : Cidr
proxies = record { network = v4 10 0 0 0; prefix = 8 }

abbrev mapped_loopback : IpAddr
mapped_loopback = v6 0 0 0 0 0 65_535 32_512 1

abbrev parse_some : Text → Option IpAddr
parse_some t =
    if text_eq t (txt "203.0.113.9")
    then some public
    else if text_eq t (txt "10.0.0.5")
    then some proxy
    else none

public_ok : IsAddress public
public_ok = (omega arith, omega arith, omega arith, omega arith)

proxy_ok : IsAddress proxy
proxy_ok = (omega arith, omega arith, omega arith, omega arith)

parse_some-ok : Parses parse_some
parse_some-ok t ip h = elim (Bool-cases (text_eq t (txt "203.0.113.9"))) [
  | inl e ↦ let q : public ≡ ip = same (rw e at h) in rw (sym q) public_ok
  | inr e ↦ elim (Bool-cases (text_eq t (txt "10.0.0.5"))) [
    | inl f ↦ let q : proxy ≡ ip = same (rw (e, f) at h) in rw (sym q) proxy_ok
    | inr f ↦ absurd (none-ne (rw (e, f) at h))
  ]
]
  where
    same : {a b : IpAddr} → some a ≡ some b → a ≡ b
    same e = cc

    none-ne : {a : IpAddr} → none ≡ some a → ⊥
    none-ne e = cc

contains_lem_example :
    (t : Bool) × (contains proxies proxy ≡ some t)
    × ((t ≡ true) ↔ (
        (width proxies.network ≡ width proxy)
        × (take 8 (bits (octets proxies.network)) ≡ take 8 (bits (octets proxy)))))
contains_lem_example =
    contains_lem proxies proxy ((omega arith, omega arith, omega arith, omega arith), omega arith)
      proxy_ok

abbrev peer : SocketAddr
peer = record { ip = proxy; port = 40_000 }

abbrev header : Text
header = txt "203.0.113.9,10.0.0.5"

client_ip_lem_example :
    (ip : IpAddr) × (client_ip parse_some peer (some header) (proxies ∷ []) ≡ some ip)
    × ((Untrusted (proxies ∷ []) proxy × (ip ≡ proxy))
        ⊎ (Trusted (proxies ∷ []) proxy × (some header ≡ none) × (ip ≡ proxy))
        ⊎ (Trusted (proxies ∷ []) proxy
            × ((h : Text) × (some header ≡ some h) × IsHop parse_some (proxies ∷ []) proxy h ip)))
client_ip_lem_example =
    client_ip_lem parse_some parse_some-ok peer (some header) (proxies ∷ []) proxy_ok
      (((omega arith, omega arith, omega arith, omega arith), omega arith), tt)

classify_lem_example : (classify mapped_loopback ≡ none) ↔ IsOpen mapped_loopback
classify_lem_example = classify_lem mapped_loopback (
  omega arith,
  omega arith,
  omega arith,
  omega arith,
  omega arith,
  omega arith,
  omega arith,
  omega arith,
)

abbrev answers : Text → ℕ → Option (List SocketAddr)
answers host port =
    some (record { ip = public; port = port } ∷ record { ip = v4 127 0 0 1; port = port } ∷ [])

vetted_lem_example :
    (vetted answers (txt "sources.example") 443 ≡ ok (record { ip = public; port = 443 } ∷ []))
    ↔ IsAnswer (answers (txt "sources.example") 443) (record { ip = public; port = 443 } ∷ [])
vetted_lem_example =
    vetted_lem answers (txt "sources.example") 443 (record { ip = public; port = 443 } ∷ [])

abbrev url : Url
url = record { scheme = txt "https"; host = some (txt "203.0.113.9"); port = none }

vet_lem_example : (vet parse_some answers url ≡ ok (record { ip = public; port = 443 } ∷ [])) ↔ (
    ((url.scheme ≡ txt "http") ⊎ (url.scheme ≡ txt "https"))
    × ((host : Text) × (url.host ≡ some host)
        × IsApproved parse_some answers host
            (unwrap_or url.port 443)
            (record { ip = public; port = 443 } ∷ [])))
vet_lem_example = vet_lem parse_some answers url (record { ip = public; port = 443 } ∷ [])

abbrev from_text : Cidr
from_text = record { network = proxy; prefix = 8 }

parses : parse parse_some (txt "10.0.0.5/8") ≡ Parsed.ok from_text
unfolding parse parse_parts split_slash parse_u8 digits_u8 checked_prefix text_eq
parses = refl

parse_lem_example :
    IsCidr from_text
    × ((addr : Text) × (prefix : Text) × (txt "10.0.0.5/8" ≡ addr ++ (b'/' ∷ prefix))
        × (parse_some addr ≡ some from_text.network)
        × (parse_u8 prefix ≡ some from_text.prefix))
parse_lem_example = parse_lem parse_some parse_some-ok (txt "10.0.0.5/8") from_text parses
