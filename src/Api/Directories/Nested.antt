-- ===== src/Api/Directories/Nested.antt =====
-- Directories overlap when the components of one begin with those of the other.
use nyuka.Common.{
  Bool, true, false, ◌||◌, List, [], ◌∷◌, ◌++◌, ◌==◌, Text, text_eq, text_eq_iff, ◌≡◌, ◌↔◌, ◌⊎◌,
  inl, inr, refl, sym, arith, All,
}
use nyuka.Api.Directories.{starts_with, normalise_dir, paths_overlap}

abbrev pub NoSlash : Text → Type 0
NoSlash t = All (λ c. (c == b'/') ≡ false) t

-- Each component with a slash behind it; an absolute path has an empty one first.
abbrev pub slashed : List Text → Text
slashed [] = []
slashed (x ∷ xs) = x ++ (b'/' ∷ slashed xs)

abbrev pub IsPrefix : List Text → List Text → Type 0
IsPrefix [] ys = Unit
IsPrefix (x ∷ xs) [] = ⊥
IsPrefix (x ∷ xs) (y ∷ ys) = (x ≡ y) × IsPrefix xs ys

component :
    (x y s t : Text)
    → NoSlash x
    → NoSlash y
    → (starts_with (x ++ (b'/' ∷ s)) (y ++ (b'/' ∷ t)) ≡ true)
      ↔ ((x ≡ y) × (starts_with s t ≡ true))
unfolding starts_with
component [] [] s t h k = ground arith
component [] (d ∷ y) s t h k = ground (arith, k.0)
component (c ∷ x) [] s t h k = ground (arith, h.0)
component (c ∷ x) (d ∷ y) s t h k = ground (arith, component x y s t h.1 k.1)

nothing_before : (x s : Text) → starts_with (x ++ (b'/' ∷ s)) [] ≡ false
unfolding starts_with
nothing_before [] s = refl
nothing_before (c ∷ x) s = refl

nested :
    (xs ys : List Text)
    → All NoSlash xs
    → All NoSlash ys
    → (starts_with (slashed xs) (slashed ys) ≡ true) ↔ IsPrefix xs ys
unfolding starts_with
nested [] ys h k = (λ e. tt, λ e. refl)
nested (x ∷ xs) [] h k = (λ e. cc (e, nothing_before x (slashed xs)), λ e. absurd e)
nested (x ∷ xs) (y ∷ ys) h k =
    let c = component x y (slashed xs) (slashed ys) h.0 k.0 in
    let n = nested xs ys h.1 k.1 in (λ e. let q = c.0 e in (q.0, n.0 q.1), λ e. c.1 (e.0, n.1 e.1))

starts_with_refl : (t : Text) → starts_with t t ≡ true
unfolding starts_with
starts_with_refl [] = refl
starts_with_refl (c ∷ t) = ground (arith, starts_with_refl t)

or_same :
    (p q r : Bool) → (p ≡ true → r ≡ true) → ((p || q || r) ≡ true) ↔ ((r ≡ true) ⊎ (q ≡ true))
or_same p q r h = ground arith

-- Two directories overlap exactly when the components of one are the first components of the
-- other, whole components being compared.
pub paths_overlap_lem :
    (a b : Text) (xs ys : List Text)
    → All NoSlash xs
    → All NoSlash ys
    → normalise_dir a ≡ slashed xs
    → normalise_dir b ≡ slashed ys
    → (paths_overlap a b ≡ true) ↔ (IsPrefix xs ys ⊎ IsPrefix ys xs)
unfolding paths_overlap
paths_overlap_lem a b xs ys h k p q =
    let n = nested xs ys h k in
    let m = nested ys xs k h in
    let o =
      or_same (text_eq (slashed xs) (slashed ys)) (starts_with (slashed ys) (slashed xs))
        (starts_with (slashed xs) (slashed ys))
        (λ e.
          let s = (text_eq_iff (slashed xs) (slashed ys)).0 e in
          rw (sym s) (starts_with_refl (slashed xs))) in
    rw (p, q)
      (
        λ e. elim (o.0 e) [ inl u ↦ inl (n.0 u) | inr u ↦ inr (m.0 u) ],
        λ e. elim e [ inl u ↦ o.1 (inl (n.1 u)) | inr u ↦ o.1 (inr (m.1 u)) ],
      )
