-- ===== src/Api/Directories.antt =====
-- crates/api/src/config.rs: whether the library and the server's directory contain one another.
pub mod Nested
use nyuka.Common.{ℕ, Bool, true, false, ◌&&◌, ◌||◌, List, [], ◌∷◌, ◌++◌, ◌==◌, Text, txt, text_eq}
use nyuka.Common.Trim.{trim, trim_end}

-- `str::starts_with`, the prefix first.
unfoldable pub starts_with : Text → Text → Bool
starts_with [] t = true
starts_with (p ∷ ps) [] = false
starts_with (p ∷ ps) (c ∷ cs) = p == c && starts_with ps cs

unfoldable pub normalise_dir : Text → Text
normalise_dir path = trim_end (λ c. c == b'/') (trim path) ++ txt "/"

unfoldable pub paths_overlap : Text → Text → Bool
paths_overlap a b =
    let m = normalise_dir a in
    let n = normalise_dir b in text_eq m n || starts_with n m || starts_with m n
