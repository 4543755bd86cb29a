-- ===== src/Api/Config/Clauses.antt =====
-- The tests of `validate` on their Boolean parts: when one adds no problem.
use nyuka.Common.{
  ℕ, ◌≤◌, ◌<◌, Bool, true, false, not, ◌&&◌, Text, text_eq_iff, Option, none, some, List, [], ◌∷◌,
  ◌++◌, ◌==◌, ltb, ◌≡◌, ◌≢◌, ◌⊎◌, ◌↔◌, inl, inr, refl, Bool-cases, arith, if◌then◌else◌,
}
use nyuka.Common.Trim.{trim}
use nyuka.Api.Config.{Problem, is_blank, when, nothing_in}

abbrev pub IsGiven : Text → Type 0
IsGiven t = trim t ≢ []

pub append-nil_iff : (xs ys : List Problem) → (xs ++ ys ≡ []) ↔ ((xs ≡ []) × (ys ≡ []))
append-nil_iff [] ys = (λ h. (refl, h), λ h. h.1)
append-nil_iff (x ∷ xs) ys = (λ h. cc, λ h. cc)

pub when-nil_iff : (b : Bool) (p : Problem) → (when b p ≡ []) ↔ (b ≡ false)
when-nil_iff true p = (λ h. cc, λ h. cc)
when-nil_iff false p = (λ h. refl, λ h. refl)

pub not-IsGiven : (t : Text) → (is_blank t ≡ false) ↔ IsGiven t
not-IsGiven t =
    let same = text_eq_iff (trim t) [] in
    (
      λ h e. absurd (mixed h (same.1 e)),
      λ h. elim (Bool-cases (is_blank t)) [ inl e ↦ absurd (h (same.0 e)) | inr e ↦ e ],
    )
  where
    mixed : is_blank t ≡ false → is_blank t ≡ true → ⊥
    mixed p q = cc

pub cons-nil : {p : Problem} {ps : List Problem} → p ∷ ps ≡ [] → ⊥
cons-nil h = cc

pub none-some {ℓ} : {A : Type ℓ} {o : Option A} (a : A) → o ≡ none → o ≡ some a → ⊥
none-some a p q = cc

-- The shapes of the tests, on their Boolean parts.
pub first_or_second :
    (b u : Bool) (p q : Problem)
    → ((if b then p ∷ [] else when (not u) q) ≡ []) ↔ ((b ≡ false) × (u ≡ true))
first_or_second true u p q = (λ h. cc, λ h. cc)
first_or_second false true p q = (λ h. (refl, refl), λ h. refl)
first_or_second false false p q = (λ h. cc, λ h. cc)

pub nested_only :
    (a b o : Bool) → a ≡ false → b ≡ false → ((not a && (not b && o)) ≡ false) ↔ (o ≡ false)
nested_only a b o p q = rw (p, q) (λ h. h, λ h. h)

pub url_only : (b u : Bool) → b ≡ false → ((not b && not u) ≡ false) ↔ (u ≡ true)
url_only b true p = rw p (λ h. refl, λ h. refl)
url_only b false p = rw p (λ h. cc, λ h. cc)

pub nobody_in :
    (xs ys : List Text) → ((nothing_in xs && nothing_in ys) ≡ false) ↔ ((xs ≢ []) ⊎ (ys ≢ []))
nobody_in [] [] = (λ h. cc, λ h. elim h [ inl n ↦ absurd (n refl) | inr n ↦ absurd (n refl) ])
nobody_in [] (y ∷ ys) = (λ h. inr (λ e. cc), λ h. refl)
nobody_in (x ∷ xs) ys = (λ h. inl (λ e. cc), λ h. refl)

pub zero-test : (n : ℕ) → ((n == 0) ≡ false) ↔ (0 < n)
zero-test n = (λ h. ground arith, λ h. ground arith)

pub not-test : (b : Bool) → (not b ≡ false) ↔ (b ≡ true)
not-test true = (λ h. refl, λ h. refl)
not-test false = (λ h. cc, λ h. cc)

pub below-test : (m n : ℕ) → (ltb m n ≡ false) ↔ (n ≤ m)
below-test m n = (λ h. ground arith, λ h. ground arith)

-- Two parts of a list of problems.
pub both :
    {P Q : Type 0} (xs ys : List Problem)
    → (xs ≡ []) ↔ P
    → (ys ≡ []) ↔ Q
    → (xs ++ ys ≡ []) ↔ (P × Q)
both xs ys p q =
    let a = append-nil_iff xs ys in
    (λ h. (p.0 (a.0 h).0, q.0 (a.0 h).1), λ h. a.1 (p.1 h.0, q.1 h.1))

pub absent : (test : Bool) (p : Problem) {P : Type 0} → (test ≡ false) ↔ P → (when test p ≡ []) ↔ P
absent test p t = let w = when-nil_iff test p in (λ h. t.0 (w.0 h), λ h. w.1 (t.1 h))
