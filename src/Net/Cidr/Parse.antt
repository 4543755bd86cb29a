-- ===== src/Net/Cidr/Parse.antt =====
-- What the configuration's parser of networks accepts.
use nyuka.Common.{
  ℕ, ◌≤◌, Option, none, some, [], ◌∷◌, ◌++◌, ◌==◌, ltb, Text, ◌≡◌, refl, sym, ap, inl, inr, arith,
  ==_iff, Bool-cases, Option-cases,
}
use nyuka.Net.Address.{IpAddr, v4, v6, IsAddress}
use nyuka.Net.Cidr.{
  Cidr, CidrError, ok, err, split_slash, parse_u8, max_prefix, checked_prefix, parse_parts, parse,
}
use nyuka.Net.Cidr.Prefix.{IsCidr, width}

width-max_prefix : (n : IpAddr) → max_prefix n ≡ width n
width-max_prefix (v4 a b c d) = refl
width-max_prefix (v6 a b c d e f g h) = refl

err-ne-ok : {e : CidrError} {net : Cidr} → err e ≡ ok net → ⊥
err-ne-ok q = cc

checked :
    (n : IpAddr) (p : ℕ) (net : Cidr)
    → checked_prefix n p ≡ ok net
    → (n ≡ net.network) × (p ≡ net.prefix) × (p ≤ width n)
unfolding checked_prefix
checked n p net h = elim (Bool-cases (ltb (max_prefix n) p)) [
  | inl e ↦ absurd (err-ne-ok (rw (checked_prefix, e) at h))
  | inr e ↦
      let same : record { network = n; prefix = p } ≡ net =
        injective (rw (checked_prefix, e) at h) in
      (ap (λ c. c.network) same, ap (λ c. c.prefix) same, ground (arith, width-max_prefix n))
]
  where
    injective : {a b : Cidr} → ok a ≡ ok b → a ≡ b
    injective q = cc

split :
    (t : Text) (parts : Text × Text) → split_slash t ≡ some parts → t ≡ parts.0 ++ (b'/' ∷ parts.1)
unfolding split_slash
split [] parts h = absurd (none-ne h)
  where
    none-ne : none ≡ some parts → ⊥
    none-ne q = cc
split (c ∷ cs) parts h = elim (Bool-cases (c == b'/')) [
  | inl e ↦
      let same : ([], cs) ≡ parts = injective (rw (split_slash, e) at h) in
      rw (sym same) (ap (λ d. d ∷ cs) ((==_iff c b'/').0 e))
  | inr e ↦ elim (Option-cases (split_slash cs)) [
    | inl f ↦ absurd (none-ne (rw (split_slash, e, f) at h))
    | inr (r, f) ↦
        let same : (c ∷ r.0, r.1) ≡ parts = injective (rw (split_slash, e, f) at h) in
        rw (sym same) (ap (λ d. c ∷ d) (split cs r f))
  ]
]
  where
    injective : {a b : Text × Text} → some a ≡ some b → a ≡ b
    injective q = cc

    none-ne : none ≡ some parts → ⊥
    none-ne q = cc

module _ (parse_ip : Text → Option IpAddr) where
  -- A network that is accepted was written as an address, a slash and a prefix length, and its
  -- prefix is no longer than its address.
  pub parse_lem :
      ((t : Text) (ip : IpAddr) → parse_ip t ≡ some ip → IsAddress ip)
      → (t : Text) (net : Cidr) → parse parse_ip t ≡ ok net
      → IsCidr net
        × ((addr : Text) × (prefix : Text) × (t ≡ addr ++ (b'/' ∷ prefix))
            × (parse_ip addr ≡ some net.network)
            × (parse_u8 prefix ≡ some net.prefix))
  unfolding parse parse_parts
  parse_lem sound t net h = elim (Option-cases (split_slash t)) [
    | inl e ↦ absurd (err-ne-ok (rw (parse, e) at h))
    | inr (parts, e) ↦ elim (Option-cases (parse_ip parts.0)) [
      | inl f ↦ absurd (err-ne-ok (rw (parse, e, parse_parts, f) at h))
      | inr (n, f) ↦ elim (Option-cases (parse_u8 parts.1)) [
        | inl g ↦ absurd (err-ne-ok (rw (parse, e, parse_parts, f, g) at h))
        | inr (p, g) ↦
            let (same_n, same_p, short) = checked n p net (rw (parse, e, parse_parts, f, g) at h) in
            let found : parse_ip parts.0 ≡ some net.network = rw same_n at f in
            (
              (sound parts.0 net.network found, rw (same_n, same_p) at short),
              (parts.0, parts.1, split t parts e, found, rw same_p at g),
            )
      ]
    ]
  ]
