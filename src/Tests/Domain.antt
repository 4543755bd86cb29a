-- ===== src/Tests/Domain.antt =====
-- A declared rate limit: three requests in two minutes.
use nyuka.Common.{ℕ, ◌*◌, ◌^◌, ◌<◌, pos, some, ◌≡◌, ◌↔◌}
use nyuka.Domain.RateLimit.{RateLimit, from_wire}
use nyuka.Domain.RateLimit.Wire.{IsUnit, from_wire_lem}

abbrev limit : RateLimit
limit = record { permits = 3; period_seconds = 120 }

from_wire_lem_example : (from_wire (pos 3) (pos 2) (pos 1) ≡ some limit) ↔ (
    (s : ℕ) × IsUnit (pos 1) s
    × (0 < 3)
    × (0 < 2)
    × (limit.permits ≡ 3)
    × (limit.period_seconds ≡ s * 2)
    × (s * 2 < 2 ^ 32))
from_wire_lem_example = from_wire_lem (pos 3) (pos 2) (pos 1) limit
