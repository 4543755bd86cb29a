-- ===== src/Net/Address.antt =====
-- `std::net::IpAddr`: four octets, or eight segments of sixteen bits.
use nyuka.Common.{ℕ, ◌/◌, ◌%◌, ◌<◌, List, [], ◌∷◌}

pub data IpAddr : Type 0 where
  v4 : ℕ → ℕ → ℕ → ℕ → IpAddr
  v6 : ℕ → ℕ → ℕ → ℕ → ℕ → ℕ → ℕ → ℕ → IpAddr

pub record SocketAddr : Type 0 where
  pub ip : IpAddr
  pub port : ℕ

-- The digits are in the range of their width.
abbrev pub IsAddress : IpAddr → Type 0
IsAddress (v4 a b c d) = (a < 256) × (b < 256) × (c < 256) × (d < 256)
IsAddress (v6 a b c d e f g h) =
    (a < 65_536)
    × (b < 65_536)
    × (c < 65_536)
    × (d < 65_536)
    × (e < 65_536)
    × (f < 65_536)
    × (g < 65_536)
    × (h < 65_536)

-- `octets()`
abbrev pub octets : IpAddr → List ℕ
octets (v4 a b c d) = a ∷ b ∷ c ∷ d ∷ []
octets (v6 a b c d e f g h) =
    a / 256
    ∷ a % 256
    ∷ b / 256
    ∷ b % 256
    ∷ c / 256
    ∷ c % 256
    ∷ d / 256
    ∷ d % 256
    ∷ e / 256
    ∷ e % 256
    ∷ f / 256
    ∷ f % 256
    ∷ g / 256
    ∷ g % 256
    ∷ h / 256
    ∷ h % 256
    ∷ []
