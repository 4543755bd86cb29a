-- ===== src/Packaging/Paths/Kept.antt =====
-- The characters that the loop of `sanitize_component` and the collapse of white space leave.
use nyuka.Common.{
  ℕ, ◌≤◌, ◌<◌, true, false, List, [], ◌∷◌, Text, ◌≡◌, ◌≢◌, ◌⊎◌, refl, inl, inr, Bool-cases, All,
  All-append, All-impl, arith,
}
use nyuka.Common.Trim.{is_whitespace}
use nyuka.Packaging.Paths.{
  is_control, is_replaced, is_bidi, push_char, scrub, onto_first, pieces, nonempty, join, collapse,
}

-- Neither a separator nor another character that a shell or Windows reserves, no control or
-- bidirectional character, and no white space but the blank.
pub record IsPlain (c : ℕ) : Type 0 where
  pub no_slash : c ≢ b'/'
  pub no_backslash : c ≢ b'\\'
  pub no_mark :
      (c ≢ b':') × (c ≢ b'*') × (c ≢ b'?') × (c ≢ b'"') × (c ≢ b'<') × (c ≢ b'>') × (c ≢ b'|')
  pub no_control : (32 ≤ c) × ((c < 127) ⊎ (159 < c))
  pub no_bidi :
      ((c < 0x202A) ⊎ (0x202E < c)) × ((c < 0x2066) ⊎ (0x2069 < c)) × (c ≢ 0x200E) × (c ≢ 0x200F)
  pub blank : is_whitespace c ≡ true → c ≡ 32

-- As `IsPlain`, white space aside.
abbrev pub IsKept : ℕ → Type 0
IsKept c = (is_replaced c ≡ false) × (is_control c ≡ false) × (is_bidi c ≡ false)

pub kept : (c : ℕ) → IsKept c → (is_whitespace c ≡ true → c ≡ 32) → IsPlain c
unfolding is_replaced is_control is_bidi
kept c h blank = record {
  no_slash = ground arith;
  no_backslash = ground arith;
  no_mark = (
    ground arith,
    ground arith,
    ground arith,
    ground arith,
    ground arith,
    ground arith,
    ground arith,
  );
  no_control = (ground arith, ground arith);
  no_bidi = (ground arith, ground arith, ground arith, ground arith);
  blank = blank;
}

pub dash-IsKept : IsKept b'-'
unfolding is_replaced is_control is_bidi
dash-IsKept = (refl, refl, refl)

pub scrub-IsKept : (t : Text) → All IsKept (scrub t)
unfolding scrub push_char
scrub-IsKept [] = tt
scrub-IsKept (c ∷ cs) = elim (Bool-cases (is_replaced c)) [
  | inl e ↦ rw e (dash-IsKept, scrub-IsKept cs)
  | inr e ↦ elim (Bool-cases (is_control c)) [
    | inl f ↦ rw (e, f) (scrub-IsKept cs)
    | inr f ↦ elim (Bool-cases (is_bidi c)) [
      | inl g ↦ rw (e, f, g) (scrub-IsKept cs)
      | inr g ↦ rw (e, f, g) ((e, f, g), scrub-IsKept cs)
    ]
  ]
]

abbrev pub IsWord : ℕ → Type 0
IsWord c = IsKept c × (is_whitespace c ≡ false)

pub onto_first-IsWord :
    (c : ℕ) (ps : List Text) → IsWord c → All (All IsWord) ps → All (All IsWord) (onto_first c ps)
unfolding onto_first
onto_first-IsWord c [] h k = ((h, tt), tt)
onto_first-IsWord c (p ∷ ps) h k = ((h, k.0), k.1)

pub pieces-IsWord : (t : Text) → All IsKept t → All (All IsWord) (pieces t)
unfolding pieces
pieces-IsWord [] h = (tt, tt)
pieces-IsWord (c ∷ cs) h = elim (Bool-cases (is_whitespace c)) [
  | inl e ↦ rw e (tt, pieces-IsWord cs h.1)
  | inr e ↦ rw e (onto_first-IsWord c (pieces cs) (h.0, e) (pieces-IsWord cs h.1))
]

pub nonempty-All {ℓ} : (P : Text → Type ℓ) (ps : List Text) → All P ps → All P (nonempty ps)
unfolding nonempty
nonempty-All P [] h = tt
nonempty-All P ([] ∷ ps) h = nonempty-All P ps h.1
nonempty-All P ((c ∷ cs) ∷ ps) h = (h.0, nonempty-All P ps h.1)

pub word-IsPlain : (c : ℕ) → IsWord c → IsPlain c
word-IsPlain c h = kept c h.0 (λ w. cc)

pub blank-IsPlain : IsPlain 32
unfolding is_replaced is_control is_bidi
blank-IsPlain = kept 32 (refl, refl, refl) (λ w. refl)

pub join-IsPlain : (ws : List Text) → All (All IsWord) ws → All IsPlain (join ws)
unfolding join
join-IsPlain [] h = tt
join-IsPlain (w ∷ []) h = All-impl IsWord IsPlain word-IsPlain w h.0
join-IsPlain (w ∷ v ∷ ws) h =
    All-append IsPlain w (b' ' ∷ join (v ∷ ws)) (All-impl IsWord IsPlain word-IsPlain w h.0)
      (blank-IsPlain, join-IsPlain (v ∷ ws) h.1)

pub collapse-IsPlain : (t : Text) → All IsKept t → All IsPlain (collapse t)
unfolding collapse
collapse-IsPlain t h =
    join-IsPlain (nonempty (pieces t)) (nonempty-All (All IsWord) (pieces t) (pieces-IsWord t h))
