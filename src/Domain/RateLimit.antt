-- ===== src/Domain/RateLimit.antt =====
-- crates/domain/src/model.rs: the rate limit that a source declares.
pub mod Wire
use nyuka.Common.{
  ℕ, ◌*◌, ◌^◌, ℤ, pos, negsuc, pos_part, Bool, ◌||◌, ◌==◌, leb, Option, none, some, if◌then◌else◌,
}

pub record RateLimit : Type 0 where
  pub permits : ℕ
  pub period_seconds : ℕ

-- The unit's seconds; a unit that is not known has none.
unfoldable pub unit_seconds : ℤ → Option ℕ
unit_seconds (pos n) =
    if n == 0 then some 1 else if n == 1 then some 60 else if n == 2 then some 3600 else none
unit_seconds (negsuc n) = none

-- `checked_mul` of two `u32`.
unfoldable pub checked_mul : ℕ → ℕ → Option ℕ
checked_mul a b = if leb (2 ^ 32) (a * b) then none else some (a * b)

unfoldable pub limited : ℕ → Option ℕ → Option RateLimit
limited permits none = none
limited permits (some seconds) = some (record { permits = permits; period_seconds = seconds })

-- `permits <= 0 || period <= 0` is that a positive part is zero.
unfoldable pub from_wire : ℤ → ℤ → ℤ → Option RateLimit
from_wire permits period unit =
    if pos_part permits == 0 || pos_part period == 0 then none else elim (unit_seconds unit) [
      | none ↦ none
      | some seconds ↦ limited (pos_part permits) (checked_mul seconds (pos_part period))
    ]
