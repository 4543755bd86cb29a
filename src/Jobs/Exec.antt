-- ===== src/Jobs/Exec.antt =====
-- The state that the job code works on, and actions over it.
-- The database is the table of jobs; a statement runs whole or fails and changes nothing.
pub mod Keeps
pub mod Ensures
use nyuka.Common.{ℕ, suc, Text, Option, none, some, List, ◌≡◌}
use nyuka.Domain.Errors.{DomainError, storage, Result, ok, err}
use nyuka.Domain.Enums.{JobState}
use nyuka.Domain.Payload.{Json}

-- A row of the table `job`. The column `state` is written by `state_to_str` and by the literals of
-- the statements alone, so it is kept as the state that its text stands for.
pub record Row : Type 0 where
  pub id : ℕ
  pub kind : Text
  pub payload : Json
  pub state : JobState
  pub priority : ℕ
  pub run_at : ℕ
  pub attempts : ℕ
  pub max_attempts : ℕ
  pub locked_by : Option Text
  pub locked_at : Option ℕ
  pub last_error : Option Text
  pub idempotency_key : Option Text
  pub created_at : ℕ
  pub updated_at : ℕ

-- What the code gets from outside: the n-th uuid drawn, the message with which the n-th statement
-- fails if it fails, the database's message on a duplicate key, the `Debug` form of a text, the
-- text of a uuid, and `chrono::Duration::from_std`, which has no value where the span is too long.
pub record Env : Type 0 where
  pub uuid : ℕ → ℕ
  pub outage : ℕ → Option Text
  pub duplicate_key : Text
  pub debug : Text → Text
  pub uuid_text : ℕ → Text
  pub from_std : ℕ → Option ℕ

-- Times are microseconds since the epoch; the clock is that of the database and of `Utc::now`.
pub record World : Type 0 where
  pub rows : List Row
  pub now : ℕ
  pub uuids : ℕ
  pub statements : ℕ

abbrev pub Exec {ℓ} : Type ℓ → Type ℓ
Exec A = World → Result A × World

abbrev pub continue {ℓ κ} :
    {A : Type ℓ} {B : Type κ} → Result A → (A → World → Result B × World) → World → Result B × World
continue (ok a) f w = f a w
continue (err e) f w = (err e, w)

pub pure {ℓ} : {A : Type ℓ} → A → World → Result A × World
pure a w = (ok a, w)

pub lift {ℓ} : {A : Type ℓ} → Result A → World → Result A × World
lift r w = (r, w)

-- `Utc::now()`
pub clock : World → Result ℕ × World
clock w = (ok w.now, w)

infixl 5 ◌>>=◌ ◌>>◌
-- opening this opens `pure`, `lift` and `clock` too
unfoldable pub ◌>>=◌ {ℓ κ} :
    {A : Type ℓ} {B : Type κ}
    → (World → Result A × World)
    → (A → World → Result B × World)
    → World
    → Result B × World
unfolding pure lift clock
◌>>=◌ m f w = continue (m w).0 f (m w).1

abbrev pub ◌>>◌ {ℓ κ} :
    {A : Type ℓ} {B : Type κ}
    → (World → Result A × World)
    → (World → Result B × World)
    → World
    → Result B × World
m >> n = m >>= λ _. n

-- One statement: what it does to the rows and what it returns, at the time it runs.
unfoldable pub statement :
    {A : Type 0} → Env → (ℕ → List Row → Result A × List Row) → World → Result A × World
statement env run w = elim (env.outage w.statements) [
  | some m ↦ (err (storage m), record w { statements = suc w.statements })
  | none ↦ (
    (run w.now w.rows).0,
    record w { rows = (run w.now w.rows).1; statements = suc w.statements },
  )
]

pub statement-up :
    {A : Type 0} (env : Env) (run : ℕ → List Row → Result A × List Row) (w : World)
    → env.outage w.statements ≡ none
    → statement env run w ≡ (
      (run w.now w.rows).0,
      record w { rows = (run w.now w.rows).1; statements = suc w.statements },
    )
unfolding statement
statement-up env run w up = rw (up, statement)

pub statement-down :
    {A : Type 0} (env : Env) (run : ℕ → List Row → Result A × List Row) (w : World) (m : Text)
    → env.outage w.statements ≡ some m
    → statement env run w ≡ (err (storage m), record w { statements = suc w.statements })
unfolding statement
statement-down env run w m down = rw (down, statement)
