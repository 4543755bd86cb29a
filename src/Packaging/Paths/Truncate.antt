-- ===== src/Packaging/Paths/Truncate.antt =====
-- `truncate_bytes` keeps the longest run of whole characters that fits.
use nyuka.Common.{
  ℕ, zero, suc, ◌-◌, ◌≤◌, min, true, false, [], ◌∷◌, leb, Text, ◌≡◌, refl, sym, ap, ◌∙◌, inl, inr,
  Bool-cases, arith,
}
use nyuka.Packaging.Paths.{
  char_bytes, byte_len, is_char_boundary, back_to_boundary, take_bytes, truncate_bytes,
}

pub char_bytes_bounds : (c : ℕ) → (1 ≤ char_bytes c) × (char_bytes c ≤ 4)
unfolding char_bytes
char_bytes_bounds c = ground arith

pub byte_len-take_bytes_le : (end : ℕ) (s : Text) → byte_len (take_bytes end s) ≤ end
unfolding byte_len take_bytes
byte_len-take_bytes_le end [] = omega arith
byte_len-take_bytes_le end (c ∷ cs) = ground (arith, byte_len-take_bytes_le (end - char_bytes c) cs)

-- All of it is kept where it fits.
take_bytes-all : (end : ℕ) (s : Text) → byte_len s ≤ end → take_bytes end s ≡ s
unfolding byte_len take_bytes
take_bytes-all end [] h = refl
take_bytes-all end (c ∷ cs) h = ground (arith, take_bytes-all (end - char_bytes c) cs)

take_bytes-min : (max : ℕ) (s : Text) → take_bytes (min max (byte_len s)) s ≡ take_bytes max s
take_bytes-min max s = elim (Bool-cases (leb max (byte_len s))) [
  | inl e ↦ ap (λ n. take_bytes n s) (ground arith)
  | inr e ↦
      ap (λ n. take_bytes n s) (ground arith)
      ∙ take_bytes-all (byte_len s) s (omega arith)
      ∙ sym (take_bytes-all max s (ground arith))
]

-- A boundary ends the run that fits in it.
boundary_lem : (at : ℕ) (s : Text) → is_char_boundary at s ≡ true → byte_len (take_bytes at s) ≡ at
unfolding is_char_boundary take_bytes byte_len
boundary_lem at [] h = ground arith
boundary_lem at (c ∷ cs) h =
    ground (arith, boundary_lem (at - char_bytes c) cs, char_bytes_bounds c)

boundary_zero : (s : Text) → is_char_boundary 0 s ≡ true
unfolding is_char_boundary
boundary_zero [] = refl
boundary_zero (c ∷ cs) = ground (arith, char_bytes_bounds c)

-- No run ends between boundaries.
take_bytes-suc :
    (end : ℕ) (s : Text)
    → is_char_boundary (suc end) s ≡ false
    → take_bytes (suc end) s ≡ take_bytes end s
unfolding is_char_boundary take_bytes
take_bytes-suc end [] h = refl
take_bytes-suc end (c ∷ cs) h = elim (Bool-cases (leb (char_bytes c) end)) [
  | inl e ↦
      let step : suc end - char_bytes c ≡ suc (end - char_bytes c) = ground arith in
      ground (arith, step, take_bytes-suc (end - char_bytes c) cs)
  | inr e ↦ elim (Bool-cases (leb (char_bytes c) (suc end))) [
    | inl f ↦
        let zero_left : suc end - char_bytes c ≡ 0 = ground arith in
        ground (arith, zero_left, boundary_zero cs)
    | inr f ↦ rw (e, f) refl
  ]
]

back_to_boundary_lem :
    (end : ℕ) (s : Text) → take_bytes (back_to_boundary end s) s ≡ take_bytes end s
unfolding back_to_boundary
back_to_boundary_lem zero s = refl
back_to_boundary_lem (suc end) s = elim (Bool-cases (is_char_boundary (suc end) s)) [
  | inl e ↦ rw e refl
  | inr e ↦ rw e (back_to_boundary_lem end s ∙ sym (take_bytes-suc end s e))
]

-- Truncation keeps the characters, from the first on, whose bytes all fit.
pub truncate_bytes-take_bytes : (s : Text) (max : ℕ) → truncate_bytes s max ≡ take_bytes max s
unfolding truncate_bytes
truncate_bytes-take_bytes s max =
    back_to_boundary_lem (min max (byte_len s)) s ∙ take_bytes-min max s
