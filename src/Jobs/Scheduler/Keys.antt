-- ===== src/Jobs/Scheduler/Keys.antt =====
-- Keys name periods: two keys are one key exactly when prefix and period are the same.
use nyuka.Common.{ℕ, ℤ, Text, [], ◌∷◌, ◌++◌, ◌≡◌, refl, sym, subst, ◌↔◌, All, All-append_right}
use nyuka.Common.Decimal.{decimal_ℤ-injective, decimal_ℤ-no_colon}
use nyuka.Jobs.Scheduler.{bucket, period_key}

NoColon : Text → Type 0
NoColon t = All (λ c. (c ≡ b':') → ⊥) t

tails : (c c' : ℕ) (s t : Text) → c ∷ s ≡ c' ∷ t → s ≡ t
tails c c' s t h = cc

-- A text with no colon is none that has one.
colon_inside : (d q e : Text) → NoColon d → d ≡ q ++ (b':' ∷ e) → ⊥
unfolding NoColon
colon_inside d q e hd h = (All-append_right _ q (b':' ∷ e) (subst NoColon h hd)).0 refl

-- The last colon of a key splits it.
split_last :
    (p q d e : Text) → NoColon d → NoColon e → p ++ (b':' ∷ d) ≡ q ++ (b':' ∷ e) → (p ≡ q) × (d ≡ e)
split_last [] [] d e hd he h = (refl, tails _ _ d e h)
split_last [] (c ∷ q) d e hd he h = absurd (colon_inside d q e hd (tails _ _ d _ h))
split_last (c ∷ p) [] d e hd he h = absurd (colon_inside e p d he (sym (tails _ _ _ e h)))
split_last (c ∷ p) (c' ∷ q) d e hd he h =
    let s = split_last p q d e hd he (tails _ _ _ _ h) in (cc (s.0), s.1)

-- Two keys are equal exactly when their prefixes are and their instants lie in periods of one
-- number.
pub period_key-injective :
    (p q : Text) (every every' : ℕ) (now now' : ℤ)
    → (period_key p every now ≡ period_key q every' now')
      ↔ ((p ≡ q) × (bucket every now ≡ bucket every' now'))
unfolding period_key NoColon
period_key-injective p q every every' now now' = (
  λ h.
      let s =
        split_last p q _ _ (decimal_ℤ-no_colon (bucket every now))
          (decimal_ℤ-no_colon (bucket every' now')) h in
      (s.0, decimal_ℤ-injective _ _ s.1),
  λ h. rw (h.0, h.1),
)
