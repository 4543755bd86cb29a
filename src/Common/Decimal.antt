-- ===== src/Common/Decimal.antt =====
-- Decimal rendering of whole numbers, as `{}` in `format!` prints them, and that it loses nothing.
use nyuka.Common.Int.{ℤ, pos, negsuc}
use nyuka.Common.Lists.{All, All-impl}
use nyuka.Common.Strings.{Text}
use nyuka.Common.Tests.{ltb, if◌then◌else◌, Bool-cases}
use Prim.Native.Nat.{ℕ, zero, suc, ◌+◌, ◌-◌, ◌*◌, ◌/◌, ◌%◌, ◌≤◌, ◌<◌}
use mathlib.Core.Path.{◌≡◌, sym, ap, ◌∙◌}
use mathlib.Core.Logic.{inl, inr}
use mathlib.Core.List.{[], ◌∷◌}
use native.Mathlib.Omega.{arith}

abbrev pub IsDigit : ℕ → Type 0
IsDigit c = (b'0' ≤ c) × (c ≤ b'9')

-- The fuel is one more than the number, and each round divides it by ten.
decimal_onto : ℕ → ℕ → Text → Text
decimal_onto zero n acc = acc
decimal_onto (suc f) n acc =
    let rest = decimal_onto f (n / 10) ((b'0' + n % 10) ∷ acc) in
    if ltb n 10 then (b'0' + n) ∷ acc else rest

unfoldable pub decimal : ℕ → Text
unfolding decimal_onto
decimal n = decimal_onto (suc n) n []

value_from : ℕ → Text → ℕ
value_from v [] = v
value_from v (c ∷ cs) = value_from (v * 10 + (c - b'0')) cs

value-decimal_onto :
    (f n : ℕ) (acc : Text) → n < f → value_from 0 (decimal_onto f n acc) ≡ value_from n acc
unfolding decimal_onto value_from
value-decimal_onto zero n acc h = absurd (omega arith)
value-decimal_onto (suc f) n acc h = elim (Bool-cases (ltb n 10)) [
  | inl e ↦ rw e (ap (λ v. value_from v acc) (omega arith))
  | inr e ↦ rw e (
      value-decimal_onto f (n / 10) ((b'0' + n % 10) ∷ acc) (ground arith)
      ∙ ap (λ v. value_from v acc) (omega arith))
]

pub decimal-injective : (m n : ℕ) → decimal m ≡ decimal n → m ≡ n
unfolding decimal value_from
decimal-injective m n h =
    sym (value-decimal_onto (suc m) m [] (omega arith))
    ∙ ap (value_from 0) h
    ∙ value-decimal_onto (suc n) n [] (omega arith)

decimal_onto-IsDigit : (f n : ℕ) (acc : Text) → All IsDigit acc → All IsDigit (decimal_onto f n acc)
unfolding decimal_onto
decimal_onto-IsDigit zero n acc h = h
decimal_onto-IsDigit (suc f) n acc h = elim (Bool-cases (ltb n 10)) [
  | inl e ↦ rw e ((ground arith, ground arith), h)
  | inr e ↦ rw e (decimal_onto-IsDigit f (n / 10) _ ((omega arith, omega arith), h))
]

pub decimal-IsDigit : (n : ℕ) → All IsDigit (decimal n)
unfolding decimal
decimal-IsDigit n = decimal_onto-IsDigit (suc n) n [] tt

-- A signed number prints a minus sign first.
unfoldable pub decimal_ℤ : ℤ → Text
unfolding decimal
decimal_ℤ (pos n) = decimal n
decimal_ℤ (negsuc n) = b'-' ∷ decimal (suc n)

minus-ne-decimal : (n : ℕ) (t : Text) → decimal n ≡ b'-' ∷ t → ⊥
minus-ne-decimal n t h = absurd (omega (arith, (rw h at (decimal-IsDigit n)).0.0))

pub decimal_ℤ-injective : (a b : ℤ) → decimal_ℤ a ≡ decimal_ℤ b → a ≡ b
unfolding decimal_ℤ
decimal_ℤ-injective (pos m) (pos n) h = ap pos (decimal-injective m n h)
decimal_ℤ-injective (pos m) (negsuc n) h = absurd (minus-ne-decimal m _ h)
decimal_ℤ-injective (negsuc m) (pos n) h = absurd (minus-ne-decimal n _ (sym h))
decimal_ℤ-injective (negsuc m) (negsuc n) h = cc (decimal-injective (suc m) (suc n) (cc))

-- A colon is no digit and no sign.
pub decimal_ℤ-no_colon : (a : ℤ) → All (λ c. (c ≡ b':') → ⊥) (decimal_ℤ a)
unfolding decimal_ℤ
decimal_ℤ-no_colon (pos n) =
    All-impl IsDigit _ (λ c d e. omega arith) (decimal n) (decimal-IsDigit n)
decimal_ℤ-no_colon (negsuc n) = (
  λ e. omega arith,
  All-impl IsDigit _ (λ c d e. omega arith) (decimal (suc n)) (decimal-IsDigit (suc n)),
)
