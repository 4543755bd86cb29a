-- ===== src/Jobs/Exec/Ensures.antt =====
-- Predicates on the rows that an action establishes when it returns.
use nyuka.Common.{List, ◌≡◌, ◌≢◌, refl}
use nyuka.Domain.Errors.{DomainError, Result, ok, err}
use nyuka.Jobs.Exec.{Row, World, continue, lift, ◌>>=◌}
use nyuka.Jobs.Exec.Keeps.{Keeps}

pub record Ensures {ℓ} {A : Type ℓ} (P : List Row → Type 0) (m : World → Result A × World)
    : Type ℓ where
  pub after : (w : World) (a : A) → (m w).0 ≡ ok a → P (m w).1.rows

err-ne-ok {ℓ} : {A : Type ℓ} (x : DomainError) (a : A) → err x ≢ ok a
err-ne-ok x a h = cc

module _ {ℓ κ} {A : Type ℓ} {B : Type κ} {P : List Row → Type 0} (m : World → Result A × World)
    (f : A → World → Result B × World) where
  -- The first part establishes it and the rest keeps it.
  pub Ensures-bind_left : Ensures P m → ((a : A) → Keeps P (f a)) → Ensures P (m >>= f)
  unfolding ◌>>=◌
  Ensures-bind_left em kf = record { after = λ w b. go (m w).0 (m w).1 b (em.after w) }
    where
      go :
          (r : Result A) (w : World) (b : B)
          → ((a : A) → r ≡ ok a → P w.rows)
          → (continue r f w).0 ≡ ok b
          → P (continue r f w).1.rows
      go (ok a) w b h e = (kf a).at w (h a refl)
      go (err x) w b h e = absurd (err-ne-ok x b e)

  -- The rest establishes it.
  pub Ensures-bind_right : ((a : A) → Ensures P (f a)) → Ensures P (m >>= f)
  unfolding ◌>>=◌
  Ensures-bind_right ef = record { after = λ w b. go (m w).0 (m w).1 b }
    where
      go :
          (r : Result A) (w : World) (b : B) → (continue r f w).0 ≡ ok b → P (continue r f w).1.rows
      go (ok a) w b e = (ef a).after w b e
      go (err x) w b e = absurd (err-ne-ok x b e)

-- A value at hand is passed on.
pub Ensures-bind_lift {ℓ κ} :
    {A : Type ℓ} {B : Type κ} {P : List Row → Type 0} (a : A) (f : A → World → Result B × World)
    → Ensures P (f a)
    → Ensures P (lift (ok a) >>= f)
unfolding ◌>>=◌
Ensures-bind_lift a f e = record { after = λ w b. e.after w b }
