-- ===== src/Net/Cidr/Prefix.antt =====
-- Membership in a network is agreement on the bits of its prefix.
use nyuka.Common.{
  ℕ, zero, suc, ◌-◌, ◌*◌, ◌/◌, ◌%◌, ◌^◌, ◌≤◌, ◌<◌, ◌≡◌, ◌↔◌, refl, inl, inr, arith, Bool, true,
  false, some, List, [], ◌∷◌, ◌++◌, ◌==◌, ltb, length, take, text_eq, if◌then◌else◌, All,
  Bool-cases, ==_iff, ltb→lt, subst, sym, ap, ◌∙◌,
}
use nyuka.Net.Bits.{bit_and, bit_and-mask, shift_down, shift_up, shift_up-injective}
use nyuka.Net.Address.{IpAddr, v4, v6, IsAddress, octets}
use nyuka.Net.Cidr.{Cidr, contains, masked, same_masked}

abbrev pub octet_bits : ℕ → List ℕ
octet_bits o =
    o / 128 % 2
    ∷ o / 64 % 2
    ∷ o / 32 % 2
    ∷ o / 16 % 2
    ∷ o / 8 % 2
    ∷ o / 4 % 2
    ∷ o / 2 % 2
    ∷ o % 2
    ∷ []

-- Most significant first.
abbrev pub bits : List ℕ → List ℕ
bits [] = []
bits (o ∷ os) = octet_bits o ++ bits os

same_octet : (x y : ℕ) → x < 256 → y < 256 → octet_bits x ≡ octet_bits y → x ≡ y
same_octet x y h k e = ground arith

first_bits :
    (x y p : ℕ)
    → x < 256
    → y < 256
    → p < 8
    → (take p (octet_bits x) ≡ take p (octet_bits y))
      ↔ (shift_down (8 - p) x ≡ shift_down (8 - p) y)
first_bits x y zero h k l = ground arith
first_bits x y (suc zero) h k l = ground arith
first_bits x y (suc (suc zero)) h k l = ground arith
first_bits x y (suc (suc (suc zero))) h k l = ground arith
first_bits x y (suc (suc (suc (suc zero)))) h k l = ground arith
first_bits x y (suc (suc (suc (suc (suc zero))))) h k l = ground arith
first_bits x y (suc (suc (suc (suc (suc (suc zero)))))) h k l = ground arith
first_bits x y (suc (suc (suc (suc (suc (suc (suc zero))))))) h k l = ground arith
first_bits x y (suc (suc (suc (suc (suc (suc (suc (suc p)))))))) h k l = absurd (omega arith)

-- The mask of `p` leading ones, as the code shifts it into an octet.
mask_lem :
    (x p : ℕ)
    → x < 256
    → 0 < p
    → p < 8
    → bit_and 8 x ((255 * 2 ^ (8 - p)) % 2 ^ 8) ≡ shift_up (8 - p) (shift_down (8 - p) x)
mask_lem x zero h k l = absurd (omega arith)
mask_lem x (suc zero) h k l = bit_and-mask 7 1 x (omega arith)
mask_lem x (suc (suc zero)) h k l = bit_and-mask 6 2 x (omega arith)
mask_lem x (suc (suc (suc zero))) h k l = bit_and-mask 5 3 x (omega arith)
mask_lem x (suc (suc (suc (suc zero)))) h k l = bit_and-mask 4 4 x (omega arith)
mask_lem x (suc (suc (suc (suc (suc zero))))) h k l = bit_and-mask 3 5 x (omega arith)
mask_lem x (suc (suc (suc (suc (suc (suc zero)))))) h k l = bit_and-mask 2 6 x (omega arith)
mask_lem x (suc (suc (suc (suc (suc (suc (suc zero))))))) h k l = bit_and-mask 1 7 x (omega arith)
mask_lem x (suc (suc (suc (suc (suc (suc (suc (suc p)))))))) h k l = absurd (omega arith)

take_below :
    (x p : ℕ) (rest : List ℕ) → p < 8 → take p (octet_bits x ++ rest) ≡ take p (octet_bits x)
take_below x zero rest h = refl
take_below x (suc zero) rest h = refl
take_below x (suc (suc zero)) rest h = refl
take_below x (suc (suc (suc zero))) rest h = refl
take_below x (suc (suc (suc (suc zero)))) rest h = refl
take_below x (suc (suc (suc (suc (suc zero))))) rest h = refl
take_below x (suc (suc (suc (suc (suc (suc zero)))))) rest h = refl
take_below x (suc (suc (suc (suc (suc (suc (suc zero))))))) rest h = refl
take_below x (suc (suc (suc (suc (suc (suc (suc (suc p)))))))) rest h = absurd (omega arith)

-- What the test says, and that it returns.
abbrev Agrees : List ℕ → List ℕ → ℕ → Type 0
Agrees xs ys p =
    (t : Bool) × (masked xs ys p ≡ some t) × ((t ≡ true) ↔ (take p (bits xs) ≡ take p (bits ys)))

masked-zero : (xs ys : List ℕ) → masked xs ys 0 ≡ some true
unfolding masked text_eq
masked-zero xs ys = ground arith

masked-small :
    (x y : ℕ) (xs ys : List ℕ) (p : ℕ)
    → 0 < p
    → p < 8
    → masked (x ∷ xs) (y ∷ ys) p
      ≡ some
          (bit_and 8 x ((255 * 2 ^ (8 - p)) % 2 ^ 8) == bit_and 8 y ((255 * 2 ^ (8 - p)) % 2 ^ 8))
unfolding masked same_masked text_eq
masked-small x y xs ys p h k =
    let full : p / 8 ≡ 0 = omega arith in
    let left : p % 8 ≡ p = omega arith in
    let some_left : (p == 0) ≡ false = ground arith in
    let in_xs : ltb (suc (length xs)) 0 ≡ false = ground arith in
    let in_ys : ltb (suc (length ys)) 0 ≡ false = ground arith in
    rw (full, left, some_left, in_xs, in_ys) refl

masked-suc :
    (x y : ℕ) (xs ys : List ℕ) (p : ℕ)
    → p ≤ 8 * length xs
    → length xs ≡ length ys
    → masked (x ∷ xs) (y ∷ ys) (suc (suc (suc (suc (suc (suc (suc (suc p))))))))
      ≡ (if x == y then masked xs ys p else some false)
unfolding masked text_eq
masked-suc x y xs ys p h same =
    let full : (suc (suc (suc (suc (suc (suc (suc (suc p)))))))) / 8 ≡ suc (p / 8) = omega arith in
    let left : (suc (suc (suc (suc (suc (suc (suc (suc p)))))))) % 8 ≡ p % 8 = omega arith in
    let long_x : ltb (suc (length xs)) (suc (p / 8)) ≡ false = ground arith in
    let long_y : ltb (suc (length ys)) (suc (p / 8)) ≡ false = ground arith in
    let in_xs : ltb (length xs) (p / 8) ≡ false = ground arith in
    let in_ys : ltb (length ys) (p / 8) ≡ false = ground arith in
    elim (Bool-cases (x == y)) [
      | inl e ↦ rw (full, left, long_x, long_y, in_xs, in_ys, e) refl
      | inr e ↦ rw (full, left, long_x, long_y, e) refl
    ]

Agrees-octet :
    (x y : ℕ) (xs ys : List ℕ) (p : ℕ)
    → x < 256
    → y < 256
    → p ≤ 8 * length xs
    → length xs ≡ length ys
    → Agrees xs ys p
    → Agrees (x ∷ xs) (y ∷ ys) (suc (suc (suc (suc (suc (suc (suc (suc p))))))))
Agrees-octet x y xs ys p h k le same (t, run, iff) = elim (Bool-cases (x == y)) [
  | inl e ↦
      let q : x ≡ y = ground arith in
      (t, rw (masked-suc x y xs ys p le same, e) run, (λ u. cc (iff.0 u, q), λ u. iff.1 (cc)))
  | inr e ↦ (
    false,
    rw (masked-suc x y xs ys p le same, e) refl,
    (λ u. cc, λ u. absurd (differ e (same_octet x y h k (cc)))),
  )
]
  where
    differ : (x == y) ≡ false → x ≡ y → ⊥
    differ e q = ground arith

Agrees-bits :
    (x y : ℕ) (xs ys : List ℕ) (p : ℕ) → x < 256 → y < 256 → p < 8 → Agrees (x ∷ xs) (y ∷ ys) p
Agrees-bits x y xs ys zero h k l = (true, masked-zero (x ∷ xs) (y ∷ ys), ground arith)
Agrees-bits x y xs ys (suc p) h k l =
    let run = masked-small x y xs ys (suc p) (omega arith) l in
    let mx = mask_lem x (suc p) h (omega arith) l in
    let my = mask_lem y (suc p) k (omega arith) l in
    let iff = first_bits x y (suc p) h k l in
    let bx = take_below x (suc p) (bits xs) l in
    let by = take_below y (suc p) (bits ys) l in
    let eq =
      ==_iff (bit_and 8 x ((255 * 2 ^ (8 - suc p)) % 2 ^ 8))
        (bit_and 8 y ((255 * 2 ^ (8 - suc p)) % 2 ^ 8)) in
    (
      _,
      run,
      (
        λ t.
            let e = shift_up-injective (8 - suc p) _ _ (sym mx ∙ eq.0 t ∙ my) in
            bx ∙ iff.1 e ∙ sym by,
        λ t. eq.1 (mx ∙ ap (shift_up (8 - suc p)) (iff.0 (sym bx ∙ t ∙ by)) ∙ sym my),
      ),
    )

-- The test of a network of as many octets as the address, whose prefix is no longer than they
-- are, returns, and it says whether the first bits of the two agree, as many as the prefix is long.
pub Agrees-masked :
    (xs ys : List ℕ) (p : ℕ)
    → All (λ o. o < 256) xs
    → All (λ o. o < 256) ys
    → length xs ≡ length ys
    → p ≤ 8 * length xs
    → (t : Bool) × (masked xs ys p ≡ some t) × ((t ≡ true) ↔ (take p (bits xs) ≡ take p (bits ys)))
Agrees-masked [] [] p h k same le =
    let z : p ≡ 0 = omega arith in rw z (true, masked-zero [] [], ground arith)
Agrees-masked [] (y ∷ ys) p h k same le = absurd (omega arith)
Agrees-masked (x ∷ xs) [] p h k same le = absurd (omega arith)
Agrees-masked (x ∷ xs) (y ∷ ys) p h k same le =
    let deep = Agrees-masked xs ys (p - 8) h.1 k.1 (omega arith) (omega arith) in
    elim (Bool-cases (ltb p 8)) [
      | inl e ↦ Agrees-bits x y xs ys p h.0 k.0 (ltb→lt p 8 e)
      | inr e ↦
          let q : suc (suc (suc (suc (suc (suc (suc (suc (p - 8)))))))) ≡ p = ground arith in
          subst (Agrees (x ∷ xs) (y ∷ ys)) q
            (Agrees-octet x y xs ys (p - 8) h.0 k.0 (omega arith) (omega arith) deep)
    ]

abbrev pub width : IpAddr → ℕ
width (v4 a b c d) = 32
width (v6 a b c d e f g h) = 128

-- What `Cidr::parse` lets through.
abbrev pub IsCidr : Cidr → Type 0
IsCidr net = IsAddress net.network × (net.prefix ≤ width net.network)

contained :
    (n addr : IpAddr) (p : ℕ)
    → IsAddress n
    → p ≤ width n
    → IsAddress addr
    → (t : Bool) × (contains (record { network = n; prefix = p }) addr ≡ some t)
      × ((t ≡ true)
          ↔ ((width n ≡ width addr) × (take p (bits (octets n)) ≡ take p (bits (octets addr)))))
unfolding contains
contained (v4 a b c d) (v4 a' b' c' d') p h l k =
    let (t, run, iff) =
      Agrees-masked (octets (v4 a b c d)) (octets (v4 a' b' c' d')) p (ground arith) (ground arith)
        refl l in
    (t, run, (λ u. (refl, iff.0 u), λ u. iff.1 u.1))
contained (v6 a b c d e f g h) (v6 a' b' c' d' e' f' g' h') p i l j =
    let (t, run, iff) =
      Agrees-masked (octets (v6 a b c d e f g h)) (octets (v6 a' b' c' d' e' f' g' h')) p
        (ground arith) (ground arith) refl l in
    (t, run, (λ u. (refl, iff.0 u), λ u. iff.1 u.1))
contained (v4 a b c d) (v6 a' b' c' d' e' f' g' h') p h l k =
    (false, refl, (λ u. cc, λ u. absurd (omega (arith, u.0))))
contained (v6 a b c d e f g h) (v4 a' b' c' d') p i l j =
    (false, refl, (λ u. cc, λ u. absurd (omega (arith, u.0))))

-- A network of a valid prefix length decides about every address: it contains those of its own
-- family whose leading bits, as many as its prefix is long, are its own.
pub contains_lem :
    (net : Cidr) (addr : IpAddr)
    → IsCidr net
    → IsAddress addr
    → (t : Bool) × (contains net addr ≡ some t)
      × ((t ≡ true) ↔ (
          (width net.network ≡ width addr)
          × (take net.prefix (bits (octets net.network)) ≡ take net.prefix (bits (octets addr)))))
contains_lem net addr h k = contained net.network addr net.prefix h.0 h.1 k
