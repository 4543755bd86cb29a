-- ===== src/Jobs/Exec/Keeps.antt =====
-- Predicates on the rows that an action keeps, whether it returns or fails: a rule for each way to
-- build an action.
use nyuka.Common.{ℕ, Bool, true, false, List, inl, inr, Option-cases, if◌then◌else◌}
use nyuka.Domain.Errors.{Result, ok, err}
use nyuka.Jobs.Exec.{Row, Env, World, continue, pure, lift, clock, ◌>>=◌, statement}

pub record Keeps {ℓ} {A : Type ℓ} (P : List Row → Type 0) (m : World → Result A × World)
    : Type 0 where
  pub at : (w : World) → P w.rows → P (m w).1.rows

module _ {ℓ} {A : Type ℓ} {P : List Row → Type 0} where
  pub Keeps-pure : (a : A) → Keeps P (pure a)
  unfolding pure
  Keeps-pure a = record { at = λ w h. h }

  pub Keeps-lift : (r : Result A) → Keeps P (lift r)
  unfolding lift
  Keeps-lift r = record { at = λ w h. h }

  pub Keeps-if :
      (b : Bool) (m n : World → Result A × World)
      → Keeps P m
      → Keeps P n
      → Keeps P (if b then m else n)
  Keeps-if true m n km kn = km
  Keeps-if false m n km kn = kn

pub Keeps-clock : {P : List Row → Type 0} → Keeps P clock
unfolding clock
Keeps-clock = record { at = λ w h. h }

pub Keeps-bind {ℓ κ} :
    {A : Type ℓ} {B : Type κ} {P : List Row → Type 0} (m : World → Result A × World)
    (f : A → World → Result B × World)
    → Keeps P m
    → ((a : A) → Keeps P (f a))
    → Keeps P (m >>= f)
unfolding ◌>>=◌
Keeps-bind {A = A} {P = P} m f km kf = record { at = λ w h. go (m w).0 (m w).1 (km.at w h) }
  where
    go : (r : Result A) (w : World) → P w.rows → P (continue r f w).1.rows
    go (ok a) w h = (kf a).at w h
    go (err e) w h = h

-- A statement keeps what its effect on the rows keeps.
pub Keeps-statement :
    {A : Type 0} {P : List Row → Type 0} (env : Env) (run : ℕ → List Row → Result A × List Row)
    → ((now : ℕ) (rows : List Row) → P rows → P (run now rows).1)
    → Keeps P (statement env run)
unfolding statement
Keeps-statement env run step = record {
  at = λ w h. elim (Option-cases (env.outage w.statements)) [
    | inl works ↦ rw (works, statement) (step w.now w.rows h)
    | inr (m, fails) ↦ rw (fails, statement) h
  ];
}

pub ruleset keeps_rules = (Keeps-pure, Keeps-lift, Keeps-clock, Keeps-if, Keeps-bind)
