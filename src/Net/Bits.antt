-- ===== src/Net/Bits.antt =====
-- The bitwise and of words, and what masking the low bits away leaves.
use nyuka.Common.{ℕ, zero, suc, ◌+◌, ◌*◌, ◌/◌, ◌%◌, ◌≤◌, ◌≡◌, refl, arith}

-- `x & y` on words of `w` bits.
unfoldable pub bit_and : ℕ → ℕ → ℕ → ℕ
bit_and zero x y = 0
bit_and (suc w) x y = (x % 2) * (y % 2) + 2 * bit_and w (x / 2) (y / 2)

-- The largest word of `w` bits.
abbrev pub ones : ℕ → ℕ
ones zero = 0
ones (suc w) = 1 + 2 * ones w

abbrev pub shift_up : ℕ → ℕ → ℕ
shift_up zero m = m
shift_up (suc k) m = 2 * shift_up k m

abbrev pub shift_down : ℕ → ℕ → ℕ
shift_down zero x = x
shift_down (suc k) x = shift_down k (x / 2)

-- `k` more than `w`.
abbrev pub widen : ℕ → ℕ → ℕ
widen zero w = w
widen (suc k) w = suc (widen k w)

bit_and-odd : (w x m : ℕ) → bit_and (suc w) x (1 + 2 * m) ≡ x % 2 + 2 * bit_and w (x / 2) m
unfolding bit_and
bit_and-odd w x m =
    let low : (1 + 2 * m) % 2 ≡ 1 = omega arith in
    let half : (1 + 2 * m) / 2 ≡ m = omega arith in rw (low, half) (omega arith)

bit_and-even : (w x m : ℕ) → bit_and (suc w) x (2 * m) ≡ 2 * bit_and w (x / 2) m
unfolding bit_and
bit_and-even w x m =
    let low : (2 * m) % 2 ≡ 0 = omega arith in
    let half : (2 * m) / 2 ≡ m = omega arith in rw (low, half) (omega arith)

bit_and-zero : (x y : ℕ) → bit_and 0 x y ≡ 0
unfolding bit_and
bit_and-zero x y = refl

bit_and-ones : (w x : ℕ) → x ≤ ones w → bit_and w x (ones w) ≡ x
bit_and-ones zero x h = omega (arith, bit_and-zero x 0)
bit_and-ones (suc w) x h =
    omega (arith, bit_and-odd w x (ones w), bit_and-ones w (x / 2) (omega arith))

-- A mask of `w` ones above `k` zeros clears the `k` low bits.
pub bit_and-mask :
    (k w x : ℕ)
    → x ≤ ones (widen k w)
    → bit_and (widen k w) x (shift_up k (ones w)) ≡ shift_up k (shift_down k x)
bit_and-mask zero w x h = bit_and-ones w x h
bit_and-mask (suc k) w x h = omega (
  arith,
  bit_and-even (widen k w) x (shift_up k (ones w)),
  bit_and-mask k w (x / 2) (omega arith),
)

pub shift_up-injective : (k x y : ℕ) → shift_up k x ≡ shift_up k y → x ≡ y
shift_up-injective zero x y h = h
shift_up-injective (suc k) x y h = shift_up-injective k x y (omega arith)
