-- ===== src/Net/Cidr.antt =====
-- crates/api/src/config.rs: networks of the trusted-proxy list.
pub mod Prefix
pub mod Parse
use nyuka.Common.{
  ℕ, ◌-◌, ◌*◌, ◌/◌, ◌%◌, ◌^◌, ◌≤◌, Bool, true, false, not, Option, none, some, List, [], ◌∷◌, ◌==◌,
  ltb, length, take, get_elem?, text_eq, if◌then◌else◌, ◌+◌, ◌&&◌, leb, within, Text,
}
use nyuka.Net.Address.{IpAddr, v4, v6, octets}
use nyuka.Net.Bits.{bit_and}

pub record Cidr : Type 0 where
  pub network : IpAddr
  pub prefix : ℕ

-- The last octet that the prefix reaches into, under the mask.
unfoldable pub same_masked : Option ℕ → Option ℕ → ℕ → Option Bool
same_masked (some n) (some o) mask = some (bit_and 8 n mask == bit_and 8 o mask)
same_masked _ _ mask = none

-- `none` is the panic of an index out of range.
unfoldable pub masked : List ℕ → List ℕ → ℕ → Option Bool
masked network other prefix =
    let full = prefix / 8 in
    if ltb (length network) full
    then none
    else if ltb (length other) full
    then none
    else if not (text_eq (take full network) (take full other))
    then some false
    else let bits = prefix % 8 in
      if bits == 0
      then some true
      else same_masked (get_elem? network full) (get_elem? other full)
          ((255 * 2 ^ (8 - bits)) % 2 ^ 8)

unfoldable pub contains : Cidr → IpAddr → Option Bool
contains net addr = contained net.network addr net.prefix
  where
    contained : IpAddr → IpAddr → ℕ → Option Bool
    contained (v4 a b c d) (v4 a' b' c' d') p =
        masked (octets (v4 a b c d)) (octets (v4 a' b' c' d')) p
    contained (v6 a b c d e f g h) (v6 a' b' c' d' e' f' g' h') p =
        masked (octets (v6 a b c d e f g h)) (octets (v6 a' b' c' d' e' f' g' h')) p
    contained _ _ p = some false

-- `split_once('/')`
unfoldable pub split_slash : Text → Option (Text × Text)
split_slash [] = none
split_slash (c ∷ cs) =
    let rest = split_slash cs in
    if c == b'/' then some ([], cs) else (elim rest [ none ↦ none | some r ↦ some (c ∷ r.0, r.1) ])

-- `u8::from_str`: digits, after a plus sign at most, with a checked sum.
unfoldable pub digits_u8 : ℕ → Text → Option ℕ
digits_u8 v [] = some v
digits_u8 v (c ∷ cs) =
    let w = v * 10 + (c - b'0') in
    let rest = digits_u8 w cs in if within b'0' b'9' c && leb w 255 then rest else none

unfoldable pub parse_u8 : Text → Option ℕ
parse_u8 [] = none
parse_u8 (c ∷ []) = digits_u8 0 (c ∷ [])
parse_u8 (c ∷ d ∷ ds) = if c == b'+' then digits_u8 0 (d ∷ ds) else digits_u8 0 (c ∷ d ∷ ds)

-- The messages of `Cidr::parse`, by what they tell.
pub data CidrError : Type 0 where
  missing_prefix not_an_address not_a_prefix : Text → CidrError
  too_long : ℕ → IpAddr → ℕ → CidrError

pub data Parsed : Type 0 where
  ok : Cidr → Parsed
  err : CidrError → Parsed

abbrev pub max_prefix : IpAddr → ℕ
max_prefix (v4 a b c d) = 32
max_prefix (v6 a b c d e f g h) = 128

unfoldable pub checked_prefix : IpAddr → ℕ → Parsed
checked_prefix network prefix =
    let most = max_prefix network in
    if ltb most prefix
    then err (too_long prefix network most)
    else ok (record { network = network; prefix = prefix })

-- The standard library's parser of addresses.
module _ (parse_ip : Text → Option IpAddr) where
  unfoldable pub parse_parts : Text × Text → Parsed
  parse_parts (addr, prefix) = elim (parse_ip addr) [
    | none ↦ err (not_an_address addr)
    | some network ↦ (elim (parse_u8 prefix) [
      | none ↦ err (not_a_prefix prefix)
      | some p ↦ checked_prefix network p
    ])
  ]

  unfoldable pub parse : Text → Parsed
  parse text = elim (split_slash text) [
    | none ↦ err (missing_prefix text)
    | some parts ↦ parse_parts parts
  ]
