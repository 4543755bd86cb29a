-- ===== src/Jobs/Handlers/Outcome.antt =====
-- What is known of the parts of a handler that returned.
use nyuka.Common.{ℕ, Bool, true, false, ◌∷◌, ◌≡◌, ◌⊎◌, inl, inr, refl, if◌then◌else◌}
use nyuka.Jobs.Worker.{JobEvent}
use nyuka.Domain.Errors.{DomainError, Result, ok, err}
use nyuka.Jobs.Handlers.{
  Call, History, continue, lift, ◌>>=◌, call, publish, with_permit, acquired, dropped, published,
}

pub err-ne-ok {ℓ} : {A : Type ℓ} {e : DomainError} {a : A} → err e ≡ ok a → ⊥
err-ne-ok h = cc

pub ok-injective {ℓ} : {A : Type ℓ} {a b : A} → ok a ≡ ok b → a ≡ b
ok-injective h = cc

-- Where a sequence returned, so did both of its parts.
pub >>=-ok {ℓ κ} :
    {A : Type ℓ} {B : Type κ} (m : History → Result A × History)
    (f : A → History → Result B × History) (h : History) (b : B)
    → ((m >>= f) h).0 ≡ ok b
    → (a : A) × ((m h).0 ≡ ok a) × ((m >>= f) h ≡ f a (m h).1) × ((f a (m h).1).0 ≡ ok b)
unfolding ◌>>=◌
>>=-ok {A = A} {B = B} m f h b = go (m h).0
  where
    go :
        (r : Result A)
        → (continue r f (m h).1).0 ≡ ok b
        → (a : A) × (r ≡ ok a) × (continue r f (m h).1 ≡ f a (m h).1) × ((f a (m h).1).0 ≡ ok b)
    go (ok a) e = (a, refl, refl, e)
    go (err x) e = absurd (err-ne-ok e)

-- A sequence fails as its first part does, or goes on from what that returned.
pub >>=-cases {ℓ κ} :
    {A : Type ℓ} {B : Type κ} (m : History → Result A × History)
    (f : A → History → Result B × History) (h : History)
    → ((e : DomainError) × ((m h).0 ≡ err e) × ((m >>= f) h ≡ (err e, (m h).1)))
      ⊎ ((a : A) × ((m h).0 ≡ ok a) × ((m >>= f) h ≡ f a (m h).1))
unfolding ◌>>=◌
>>=-cases {A = A} {B = B} m f h = go (m h).0
  where
    go :
        (r : Result A)
        → ((e : DomainError) × (r ≡ err e) × (continue r f (m h).1 ≡ (err e, (m h).1)))
          ⊎ ((a : A) × (r ≡ ok a) × (continue r f (m h).1 ≡ f a (m h).1))
    go (ok a) = inr (a, refl, refl)
    go (err x) = inl (x, refl, refl)

-- A predicate on histories that an action keeps, however it ends.
pub record Keeps {ℓ} {A : Type ℓ} (P : History → Type 0) (m : History → Result A × History)
    : Type 0 where
  pub at : (h : History) → P h → P (m h).1

module _ {ℓ} {A : Type ℓ} {P : History → Type 0} where
  pub Keeps-lift : (r : Result A) → Keeps P (lift r)
  Keeps-lift r = record { at = λ h p. p }

  pub Keeps-if :
      (b : Bool) (m n : History → Result A × History)
      → Keeps P m
      → Keeps P n
      → Keeps P (if b then m else n)
  Keeps-if true m n km kn = km
  Keeps-if false m n km kn = kn

  pub Keeps-call :
      (c : Call) (answer : History → Result A)
      → ((h : History) → P h → P (c ∷ h))
      → Keeps P (call c answer)
  unfolding call
  Keeps-call c answer step = record { at = step }

  pub Keeps-with_permit :
      (source : ℕ) (m : History → Result A × History)
      → ((h : History) → P h → P (acquired source ∷ h))
      → ((h : History) → P h → P (dropped source ∷ h))
      → Keeps P m
      → Keeps P (with_permit source m)
  unfolding with_permit
  Keeps-with_permit source m start stop km = record {
    at = λ h p. stop (m (acquired source ∷ h)).1 (km.at (acquired source ∷ h) (start h p));
  }

  pub Keeps-bind {κ} :
      {B : Type κ} (m : History → Result A × History) (f : A → History → Result B × History)
      → Keeps P m
      → ((a : A) → Keeps P (f a))
      → Keeps P (m >>= f)
  unfolding ◌>>=◌
  Keeps-bind m f km kf = record { at = λ h p. go (m h).0 (m h).1 (km.at h p) }
    where
      go : (r : Result A) (h : History) → P h → P (continue r f h).1
      go (ok a) h p = (kf a).at h p
      go (err e) h p = p

pub Keeps-publish :
    {P : History → Type 0} (e : JobEvent)
    → ((h : History) → P h → P (published e ∷ h))
    → Keeps P (publish e)
unfolding publish
Keeps-publish e step = record { at = step }
