-- ===== src/Net/Egress/Ranges.antt =====
-- Which addresses the policy lets through, as ranges of numbers.
use nyuka.Common.{
  ℕ, ◌+◌, ◌*◌, ◌/◌, ◌%◌, ◌<◌, ◌≡◌, ◌↔◌, ◌⊎◌, inl, inr, refl, arith, Bool, true, false, ◌&&◌, ◌||◌,
  ◌==◌, none, some, within, List, [], ◌∷◌, All, if◌then◌else◌, Bool-cases, sym,
}
use nyuka.Net.Address.{IpAddr, v4, v6, IsAddress}
use nyuka.Net.Bits.{bit_and, bit_and-mask}
use nyuka.Net.Egress.{
  loopback, private, link_local, cloud_metadata, unspecified, reserved, multicast, classify,
  classify_v4, classify_v6, is_only, is_mapped,
}

abbrev pub value_v4 : ℕ → ℕ → ℕ → ℕ → ℕ
value_v4 a b c d = a * 16_777_216 + b * 65_536 + c * 256 + d

abbrev pub Outside : ℕ → ℕ × ℕ → Type 0
Outside v (lo, hi) = (v < lo) ⊎ (hi < v)

-- 0.0.0.0, 10/8, 100.64/10, 127/8, 169.254/16, 172.16/12, 192.0.0/24, 192.168/16, 224/4 and the
-- broadcast address, first and last.
abbrev pub closed_v4 : List (ℕ × ℕ)
closed_v4 =
    (0, 0)
    ∷ (167_772_160, 184_549_375)
    ∷ (1_681_915_904, 1_686_110_207)
    ∷ (2_130_706_432, 2_147_483_647)
    ∷ (2_851_995_648, 2_852_061_183)
    ∷ (2_886_729_728, 2_887_778_303)
    ∷ (3_221_225_472, 3_221_225_727)
    ∷ (3_232_235_520, 3_232_301_055)
    ∷ (3_758_096_384, 4_026_531_839)
    ∷ (4_294_967_295, 4_294_967_295)
    ∷ []

module _ (a b c d : ℕ) (h : IsAddress (v4 a b c d)) where
  Outside-loopback :
      ((a == 127) ≡ false) ↔ Outside (value_v4 a b c d) (2_130_706_432, 2_147_483_647)
  Outside-loopback = ground arith

  Outside-ten : ((a == 10) ≡ false) ↔ Outside (value_v4 a b c d) (167_772_160, 184_549_375)
  Outside-ten = ground arith

  Outside-twelve :
      ((a == 172 && within 16 31 b) ≡ false)
      ↔ Outside (value_v4 a b c d) (2_886_729_728, 2_887_778_303)
  Outside-twelve = ground arith

  Outside-sixteen :
      ((a == 192 && b == 168) ≡ false) ↔ Outside (value_v4 a b c d) (3_232_235_520, 3_232_301_055)
  Outside-sixteen = ground arith

  Outside-link_local :
      ((a == 169 && b == 254) ≡ false) ↔ Outside (value_v4 a b c d) (2_851_995_648, 2_852_061_183)
  Outside-link_local = ground arith

  Outside-unspecified :
      ((a == 0 && b == 0 && c == 0 && d == 0) ≡ false) ↔ Outside (value_v4 a b c d) (0, 0)
  Outside-unspecified = ground arith

  Outside-broadcast :
      ((a == 255 && b == 255 && c == 255 && d == 255) ≡ false)
      ↔ Outside (value_v4 a b c d) (4_294_967_295, 4_294_967_295)
  Outside-broadcast = ground arith

  Outside-multicast :
      ((within 224 239 a) ≡ false) ↔ Outside (value_v4 a b c d) (3_758_096_384, 4_026_531_839)
  Outside-multicast = ground arith

  Outside-shared :
      ((a == 100 && within 64 127 b) ≡ false)
      ↔ Outside (value_v4 a b c d) (1_681_915_904, 1_686_110_207)
  Outside-shared = ground arith

  Outside-protocol :
      ((a == 192 && b == 0 && c == 0) ≡ false)
      ↔ Outside (value_v4 a b c d) (3_221_225_472, 3_221_225_727)
  Outside-protocol = ground arith

none_of :
    (m l t w x k u y z s r : Bool)
    → (k ≡ false → m ≡ false)
    → ((if m
          then some cloud_metadata
          else if l
          then some loopback
          else if t || w || x
          then some private
          else if k
          then some link_local
          else if u
          then some unspecified
          else if y || z
          then some multicast
          else if s || r
          then some reserved
          else none)
        ≡ none)
      ↔ ((u ≡ false)
          × (t ≡ false)
          × (s ≡ false)
          × (l ≡ false)
          × (k ≡ false)
          × (w ≡ false)
          × (r ≡ false)
          × (x ≡ false)
          × (z ≡ false)
          × (y ≡ false))
none_of true l t w x true u y z s r h = (λ e. cc, λ e. cc)
none_of true l t w x false u y z s r h = absurd (no (h refl))
  where
    no : true ≡ false → ⊥
    no e = cc
none_of false true t w x k u y z s r h = (λ e. cc, λ e. cc)
none_of false false true w x k u y z s r h = (λ e. cc, λ e. cc)
none_of false false false true x k u y z s r h = (λ e. cc, λ e. cc)
none_of false false false false true k u y z s r h = (λ e. cc, λ e. cc)
none_of false false false false false true u y z s r h = (λ e. cc, λ e. cc)
none_of false false false false false false u y z s r h = ground arith

metadata-link_local :
    (a b c d : ℕ)
    → (a == 169 && b == 254) ≡ false
    → (a == 169 && b == 254 && c == 169 && (d == 254 || d == 253)) ≡ false
metadata-link_local a b c d h = ground arith

classify_v4_lem :
    (a b c d : ℕ)
    → IsAddress (v4 a b c d)
    → (classify_v4 a b c d ≡ none) ↔ All (Outside (value_v4 a b c d)) closed_v4
unfolding classify_v4
classify_v4_lem a b c d h =
    let r =
      none_of _ (a == 127) (a == 10) (a == 172 && within 16 31 b) (a == 192 && b == 168)
        (a == 169 && b == 254) _ _ (within 224 239 a) _ (a == 192 && b == 0 && c == 0)
        (metadata-link_local a b c d) in
    (
      λ e.
          let (u, t, s, l, k, w, x, y, z, v) = r.0 e in
          (
            (Outside-unspecified a b c d h).0 u,
            (
              (Outside-ten a b c d h).0 t,
              (
                (Outside-shared a b c d h).0 s,
                (
                  (Outside-loopback a b c d h).0 l,
                  (
                    (Outside-link_local a b c d h).0 k,
                    (
                      (Outside-twelve a b c d h).0 w,
                      (
                        (Outside-protocol a b c d h).0 x,
                        (
                          (Outside-sixteen a b c d h).0 y,
                          (
                            (Outside-multicast a b c d h).0 z,
                            ((Outside-broadcast a b c d h).0 v, tt),
                          ),
                        ),
                      ),
                    ),
                  ),
                ),
              ),
            ),
          ),
      λ q.
          let (u, (t, (s, (l, (k, (w, (x, (y, (z, (v, _)))))))))) = q in
          r.1 (
            (Outside-unspecified a b c d h).1 u,
            (Outside-ten a b c d h).1 t,
            (Outside-shared a b c d h).1 s,
            (Outside-loopback a b c d h).1 l,
            (Outside-link_local a b c d h).1 k,
            (Outside-twelve a b c d h).1 w,
            (Outside-protocol a b c d h).1 x,
            (Outside-sixteen a b c d h).1 y,
            (Outside-multicast a b c d h).1 z,
            (Outside-broadcast a b c d h).1 v,
          ),
    )

abbrev pub number : ℕ → ℕ → ℕ → ℕ → ℕ → ℕ → ℕ → ℕ → ℕ
number a b c d e f g h =
    ((((((a * 65_536 + b) * 65_536 + c) * 65_536 + d) * 65_536 + e) * 65_536 + f) * 65_536 + g)
      * 65_536
    + h

-- Neither `::` nor `::1`, nor in fc00::/7, fe80::/10 or ff00::/8.
abbrev pub IsOpenV6 : ℕ → ℕ → ℕ → ℕ → ℕ → ℕ → ℕ → ℕ → Type 0
IsOpenV6 a b c d e f g h =
    Outside (number a b c d e f g h) (0, 1)
    × Outside a (64_512, 65_023)
    × Outside a (65_152, 65_215)
    × Outside a (65_280, 65_535)

only_small :
    (a b c d e f g h : ℕ)
    → (is_only 1 a b c d e f g h ≡ false) × (is_only 0 a b c d e f g h ≡ false)
      ↔ Outside (number a b c d e f g h) (0, 1)
only_small a b c d e f g h = ground arith

multicast_lem :
    (a : ℕ) → a < 65_536 → ((bit_and 16 a 65_280 == 65_280) ≡ false) ↔ Outside a (65_280, 65_535)
multicast_lem a h = rw (bit_and-mask 8 8 a (omega arith)) (ground arith)

link_local_lem :
    (a : ℕ) → a < 65_536 → ((bit_and 16 a 65_472 == 65_152) ≡ false) ↔ Outside a (65_152, 65_215)
link_local_lem a h = rw (bit_and-mask 6 10 a (omega arith)) (ground arith)

private_lem :
    (a : ℕ) → a < 65_536 → ((bit_and 16 a 65_024 == 64_512) ≡ false) ↔ Outside a (64_512, 65_023)
private_lem a h = rw (bit_and-mask 9 7 a (omega arith)) (ground arith)

none_of_five :
    (l u m k p : Bool)
    → ((if l
          then some loopback
          else if u
          then some unspecified
          else if m
          then some multicast
          else if k
          then some link_local
          else if p
          then some private
          else none)
        ≡ none)
      ↔ (((l ≡ false) × (u ≡ false)) × (p ≡ false) × (k ≡ false) × (m ≡ false))
none_of_five true u m k p = (λ e. cc, λ e. cc)
none_of_five false true m k p = (λ e. cc, λ e. cc)
none_of_five false false m k p = ground arith

classify_v6_lem :
    (a b c d e f g h : ℕ)
    → a < 65_536
    → (classify_v6 a b c d e f g h ≡ none) ↔ IsOpenV6 a b c d e f g h
unfolding classify_v6
classify_v6_lem a b c d e f g h i =
    let r =
      none_of_five (is_only 1 a b c d e f g h) (is_only 0 a b c d e f g h)
        (bit_and 16 a 65_280 == 65_280) (bit_and 16 a 65_472 == 65_152)
        (bit_and 16 a 65_024 == 64_512) in
    let o = only_small a b c d e f g h in
    (
      λ q.
          let (s, p, k, m) = r.0 q in
          (o.0 s, (private_lem a i).0 p, (link_local_lem a i).0 k, (multicast_lem a i).0 m),
      λ (s, p, k, m).
          r.1 (o.1 s, (private_lem a i).1 p, (link_local_lem a i).1 k, (multicast_lem a i).1 m),
    )

-- Outside what the policy closes; an IPv4 address inside an IPv6 one counts as what it is.
abbrev pub IsOpen : IpAddr → Type 0
IsOpen (v4 a b c d) = All (Outside (value_v4 a b c d)) closed_v4
IsOpen (v6 a b c d e f g h) =
    ((is_mapped a b c d e f ≡ true)
      × All (Outside (value_v4 (g / 256) (g % 256) (h / 256) (h % 256))) closed_v4)
    ⊎ ((is_mapped a b c d e f ≡ false) × IsOpenV6 a b c d e f g h)

-- The policy lets an address through exactly when it is outside the closed ranges of its family,
-- where an IPv4 address that is written as an IPv6 one is judged by the ranges of IPv4.
pub classify_lem : (ip : IpAddr) → IsAddress ip → (classify ip ≡ none) ↔ IsOpen ip
unfolding classify
classify_lem (v4 a b c d) i = classify_v4_lem a b c d i
classify_lem (v6 a b c d e f g h) i =
    let inner = classify_v4_lem (g / 256) (g % 256) (h / 256) (h % 256) (ground arith) in
    let outer = classify_v6_lem a b c d e f g h i.0 in
    elim (Bool-cases (is_mapped a b c d e f)) [
      | inl t ↦ rw t (
        λ q. inl (refl, inner.0 q),
        λ q. elim q [ inl u ↦ inner.1 u.1 | inr u ↦ absurd (true-ne u.0) ],
      )
      | inr t ↦ rw t (
        λ q. inr (refl, outer.0 q),
        λ q. elim q [ inl u ↦ absurd (true-ne (sym u.0)) | inr u ↦ outer.1 u.1 ],
      )
    ]
  where
    true-ne : true ≡ false → ⊥
    true-ne e = cc
