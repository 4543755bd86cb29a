-- ===== src/Tests/Api.antt =====
-- Directories and callers.
use nyuka.Common.{true, [], ◌∷◌, Text, txt, ◌≡◌, ◌↔◌, ◌⊎◌, refl, Member}
use nyuka.Common.Trim.{trim, trim_start, trim_end, keep_before, is_whitespace}
use nyuka.Api.Directories.{normalise_dir, paths_overlap}
use nyuka.Api.Directories.Nested.{slashed, IsPrefix, paths_overlap_lem}
use nyuka.Api.Access.{AuthConfig, oidc, disabled, permits}
use nyuka.Api.Access.Permitted.{permits_lem}

lib_normal : normalise_dir (txt "/lib/ ") ≡ slashed ([] ∷ txt "lib" ∷ [])
unfolding normalise_dir trim trim_start trim_end keep_before is_whitespace
lib_normal = refl

library_normal : normalise_dir (txt "/library") ≡ slashed ([] ∷ txt "library" ∷ [])
unfolding normalise_dir trim trim_start trim_end keep_before is_whitespace
library_normal = refl

paths_overlap_lem_example : (paths_overlap (txt "/lib/ ") (txt "/library") ≡ true) ↔ (
    IsPrefix ([] ∷ txt "lib" ∷ []) ([] ∷ txt "library" ∷ [])
    ⊎ IsPrefix ([] ∷ txt "library" ∷ []) ([] ∷ txt "lib" ∷ []))
paths_overlap_lem_example =
    paths_overlap_lem (txt "/lib/ ") (txt "/library") ([] ∷ txt "lib" ∷ [])
      ([] ∷ txt "library" ∷ []) (tt, ((refl, (refl, (refl, tt))), tt))
      (tt, ((refl, (refl, (refl, (refl, (refl, (refl, (refl, tt))))))), tt)) lib_normal
      library_normal

abbrev config : AuthConfig
config = record {
  mode = oidc;
  allowed_subjects = txt "alice" ∷ [];
  allowed_groups = txt "readers" ∷ [];
}

permits_lem_example : (permits config (txt "bob") (txt "readers" ∷ []) ≡ true) ↔ (
    (config.mode ≡ disabled)
    ⊎ Member (txt "bob") config.allowed_subjects
    ⊎ ((g : Text) × Member g (txt "readers" ∷ []) × Member g config.allowed_groups))
permits_lem_example = permits_lem config (txt "bob") (txt "readers" ∷ [])
