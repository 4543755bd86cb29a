-- ===== src/Common/Trim.antt =====
-- `str::trim` and its kin, over the code points of Unicode's White_Space.
use nyuka.Common.Strings.{Text}
use nyuka.Common.Tests.{◌==◌, within, if◌then◌else◌}
use Prim.Native.Nat.{ℕ}
use mathlib.Core.Bool.{Bool, ◌||◌}
use mathlib.Core.List.{[], ◌∷◌}

unfoldable pub is_whitespace : ℕ → Bool
is_whitespace c =
    within 9 13 c
    || c == 32
    || c == 133
    || c == 160
    || c == 5_760
    || within 8_192 8_202 c
    || c == 8_232
    || c == 8_233
    || c == 8_239
    || c == 8_287
    || c == 12_288

-- `trim_start_matches`
unfoldable pub trim_start : (ℕ → Bool) → Text → Text
trim_start drop [] = []
trim_start drop (c ∷ cs) = let rest = trim_start drop cs in if drop c then rest else c ∷ cs

-- A code point goes where it matches and nothing is left behind it.
unfoldable pub keep_before : Bool → ℕ → Text → Text
keep_before matches c [] = if matches then [] else c ∷ []
keep_before matches c (d ∷ ds) = c ∷ d ∷ ds

-- `trim_end_matches`
unfoldable pub trim_end : (ℕ → Bool) → Text → Text
trim_end drop [] = []
trim_end drop (c ∷ cs) = keep_before (drop c) c (trim_end drop cs)

unfoldable pub trim : Text → Text
trim t = trim_end is_whitespace (trim_start is_whitespace t)
