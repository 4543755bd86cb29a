-- ===== src/Domain/RateLimit/Wire.antt =====
-- Which wire triples are a limit.
use nyuka.Common.{
  ℕ, ◌*◌, ◌^◌, ◌<◌, ℤ, pos, negsuc, pos_part, true, ◌||◌, ◌==◌, Option, none, some, ◌≡◌, ◌↔◌, ◌⊎◌,
  inl, inr, refl, sym, ap, ◌∙◌, arith, Bool-cases, Option-cases,
}
use nyuka.Domain.RateLimit.{RateLimit, unit_seconds, checked_mul, limited, from_wire}

-- Seconds, minutes and hours.
abbrev pub IsUnit : ℤ → ℕ → Type 0
IsUnit u s = ((u ≡ pos 0) × (s ≡ 1)) ⊎ ((u ≡ pos 1) × (s ≡ 60)) ⊎ ((u ≡ pos 2) × (s ≡ 3600))

unit_lem : (u : ℤ) (s : ℕ) → (unit_seconds u ≡ some s) → IsUnit u s
unfolding unit_seconds
unit_lem (pos n) s h = ground arith
unit_lem (negsuc n) s h = ground arith

unit_seconds_lem : (u : ℤ) (s : ℕ) → IsUnit u s → unit_seconds u ≡ some s
unfolding unit_seconds
unit_seconds_lem u s (inl (e, f)) = rw (e, f) refl
unit_seconds_lem u s (inr (inl (e, f))) = rw (e, f) refl
unit_seconds_lem u s (inr (inr (e, f))) = rw (e, f) refl

checked_mul_lem : (a b c : ℕ) → (checked_mul a b ≡ some c) ↔ ((c ≡ a * b) × (a * b < 2 ^ 32))
unfolding checked_mul
checked_mul_lem a b c = ground arith

-- A wire triple is a limit exactly when both counts are positive, the unit is known, and the
-- period in seconds is below 2^32; the limit is then of that count and period.
pub from_wire_lem :
    (permits period unit : ℤ) (limit : RateLimit)
    → (from_wire permits period unit ≡ some limit) ↔ (
        (s : ℕ) × IsUnit unit s
        × (0 < pos_part permits)
        × (0 < pos_part period)
        × (limit.permits ≡ pos_part permits)
        × (limit.period_seconds ≡ s * pos_part period)
        × (s * pos_part period < 2 ^ 32))
unfolding from_wire limited
from_wire_lem permits period unit limit =
    elim (Bool-cases (pos_part permits == 0 || pos_part period == 0)) [
      | inl e ↦
          rw (from_wire, e)
            (λ h. absurd (none-ne h), λ (s, u, p, q, a, b, fits). absurd (zero-ne e p q))
      | inr e ↦ elim (Option-cases (unit_seconds unit)) [
        | inl f ↦
            rw (from_wire, e, f)
              (
                λ h. absurd (none-ne h),
                λ (s, u, p, q, a, b, fits). absurd (none-some (unit_seconds_lem unit s u) f),
              )
        | inr (s, f) ↦ elim (Option-cases (checked_mul s (pos_part period))) [
          | inl g ↦
              rw (from_wire, e, f, g)
                (
                  λ h. absurd (none-ne h),
                  λ (s', u, p, q, a, b, fits).
                      let same : s' ≡ s = unit_same (unit_seconds_lem unit s' u) f in
                      absurd (
                        none-some
                          ((checked_mul_lem s (pos_part period) (s * pos_part period)).1
                            (refl, rw same at fits))
                          g),
                )
          | inr (c, g) ↦
              rw (from_wire, e, f, g)
                (
                  λ h.
                      let m = (checked_mul_lem s (pos_part period) c).0 g in
                      let k : record { permits = pos_part permits; period_seconds = c } ≡ limit =
                        limit_same h in
                      (
                        s,
                        unit_lem unit s f,
                        ground arith,
                        ground arith,
                        sym (ap (λ l. l.permits) k),
                        sym (ap (λ l. l.period_seconds) k) ∙ m.0,
                        m.1,
                      ),
                  λ (s', u, p, q, a, b, fits).
                      let same : s' ≡ s = unit_same (unit_seconds_lem unit s' u) f in
                      let m = (checked_mul_lem s (pos_part period) c).0 g in
                      made (sym a) (m.0 ∙ sym (rw same at b)),
                )
        ]
      ]
    ]
  where
    none-ne : none ≡ some limit → ⊥
    none-ne q = cc

    none-some : {o : Option ℕ} {s : ℕ} → o ≡ some s → o ≡ none → ⊥
    none-some p q = cc

    zero-ne :
        (pos_part permits == 0 || pos_part period == 0) ≡ true
        → 0 < pos_part permits
        → 0 < pos_part period
        → ⊥
    zero-ne e p q = ground arith

    unit_same : {o : Option ℕ} {s t : ℕ} → o ≡ some s → o ≡ some t → s ≡ t
    unit_same p q = cc

    limit_same : {l m : RateLimit} → some l ≡ some m → l ≡ m
    limit_same q = cc

    made :
        {a b : ℕ}
        → a ≡ limit.permits
        → b ≡ limit.period_seconds
        → some (record { permits = a; period_seconds = b }) ≡ some limit
    made p q = λ i. some (record { permits = p i; period_seconds = q i })
