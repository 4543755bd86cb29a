-- ===== src/Packaging/Paths/Edges.antt =====
-- What trimming and truncating do to a text and leave at its ends.
use nyuka.Common.{
  ℕ, ◌+◌, ◌-◌, ◌≤◌, Bool, true, false, [], ◌∷◌, leb, Text, ◌≡◌, ◌≢◌, ◌⊎◌, refl, inl, inr,
  Bool-cases, All, arith,
}
use nyuka.Common.Trim.{is_whitespace, trim_start, trim_end, keep_before}
use nyuka.Packaging.Paths.{trim_matches, is_edge, is_tail, char_bytes, byte_len, take_bytes}

-- There is a first character and the predicate holds of it; likewise the last.
abbrev pub First : (ℕ → Type 0) → Text → Type 0
First P [] = ⊥
First P (c ∷ r) = P c

abbrev pub Last : (ℕ → Type 0) → Text → Type 0
Last P [] = ⊥
Last P (c ∷ []) = P c
Last P (c ∷ d ∷ r) = Last P (d ∷ r)

abbrev pub IsLead : ℕ → Type 0
IsLead c = (c ≢ b'.') × (c ≢ b'-') × (is_whitespace c ≡ false)

abbrev pub IsClosing : ℕ → Type 0
IsClosing c = (c ≢ b'.') × (is_whitespace c ≡ false)

-- Trimming and truncating drop characters and add none.
module _ {ℓ} (P : ℕ → Type ℓ) (drop : ℕ → Bool) where
  pub trim_start-All : (t : Text) → All P t → All P (trim_start drop t)
  unfolding trim_start
  trim_start-All [] h = tt
  trim_start-All (c ∷ cs) h = elim (Bool-cases (drop c)) [
    | inl e ↦ rw e (trim_start-All cs h.1)
    | inr e ↦ rw e h
  ]

  pub keep_before-All : (b : Bool) (c : ℕ) (r : Text) → P c → All P r → All P (keep_before b c r)
  unfolding keep_before
  keep_before-All true c [] h k = tt
  keep_before-All false c [] h k = (h, tt)
  keep_before-All b c (d ∷ ds) h k = (h, k)

  pub trim_end-All : (t : Text) → All P t → All P (trim_end drop t)
  unfolding trim_end
  trim_end-All [] h = tt
  trim_end-All (c ∷ cs) h = keep_before-All (drop c) c (trim_end drop cs) h.0 (trim_end-All cs h.1)

  pub trim_matches-All : (t : Text) → All P t → All P (trim_matches drop t)
  unfolding trim_matches
  trim_matches-All t h = trim_end-All (trim_start drop t) (trim_start-All t h)

  pub take_bytes-All : (end : ℕ) (t : Text) → All P t → All P (take_bytes end t)
  unfolding take_bytes
  take_bytes-All end [] h = tt
  take_bytes-All end (c ∷ cs) h = elim (Bool-cases (leb (char_bytes c) end)) [
    | inl e ↦ rw e (h.0, take_bytes-All (end - char_bytes c) cs h.1)
    | inr e ↦ rw e tt
  ]

-- What trimming leaves at the ends.
module _ (drop : ℕ → Bool) where
  abbrev pub Stays : ℕ → Type 0
  Stays c = drop c ≡ false

  pub trim_start-First : (t : Text) → (trim_start drop t ≡ []) ⊎ First Stays (trim_start drop t)
  unfolding trim_start
  trim_start-First [] = inl refl
  trim_start-First (c ∷ cs) = elim (Bool-cases (drop c)) [
    | inl e ↦ rw e (trim_start-First cs)
    | inr e ↦ rw e (inr e)
  ]

  pub trim_start-Stays : (t : Text) → First Stays t → trim_start drop t ≡ t
  unfolding trim_start
  trim_start-Stays [] h = refl
  trim_start-Stays (c ∷ cs) h = rw h refl

  pub keep_before-Last :
      (c : ℕ) (r : Text)
      → (r ≡ []) ⊎ Last Stays r
      → (keep_before (drop c) c r ≡ []) ⊎ Last Stays (keep_before (drop c) c r)
  unfolding keep_before
  keep_before-Last c [] h = elim (Bool-cases (drop c)) [
    | inl e ↦ rw e (inl refl)
    | inr e ↦ rw e (inr e)
  ]
  keep_before-Last c (d ∷ ds) (inl e) = absurd (cc)
  keep_before-Last c (d ∷ ds) (inr l) = inr l

  pub trim_end-Last : (t : Text) → (trim_end drop t ≡ []) ⊎ Last Stays (trim_end drop t)
  unfolding trim_end
  trim_end-Last [] = inl refl
  trim_end-Last (c ∷ cs) = keep_before-Last c (trim_end drop cs) (trim_end-Last cs)

  pub trim_end-First :
      (P : ℕ → Type 0) (t : Text) → First Stays t → First P t → First P (trim_end drop t)
  unfolding trim_end keep_before
  trim_end-First P [] s h = h
  trim_end-First P (c ∷ cs) s h = rw s (start (trim_end drop cs))
    where
      start : (r : Text) → First P (keep_before false c r)
      start [] = h
      start (d ∷ ds) = h

pub keep_before_le :
    (b : Bool) (c : ℕ) (r : Text) → byte_len (keep_before b c r) ≤ char_bytes c + byte_len r
unfolding byte_len keep_before
keep_before_le true c [] = omega arith
keep_before_le false c [] = omega arith
keep_before_le b c (d ∷ ds) = omega arith

pub First-impl : (P Q : ℕ → Type 0) → ((c : ℕ) → P c → Q c) → (t : Text) → First P t → First Q t
First-impl P Q f [] h = h
First-impl P Q f (c ∷ cs) h = f c h

pub Last-impl : (P Q : ℕ → Type 0) → ((c : ℕ) → P c → Q c) → (t : Text) → Last P t → Last Q t
Last-impl P Q f [] h = h
Last-impl P Q f (c ∷ []) h = f c h
Last-impl P Q f (c ∷ d ∷ r) h = Last-impl P Q f (d ∷ r) h

pub lead_stays : (c : ℕ) → IsLead c → is_tail c ≡ false
unfolding is_tail
lead_stays c h = ground arith

pub edge-IsLead : (c : ℕ) → is_edge c ≡ false → IsLead c
unfolding is_edge
edge-IsLead c h = (ground arith, ground arith, ground arith)

pub edge-IsClosing : (c : ℕ) → is_edge c ≡ false → IsClosing c
unfolding is_edge
edge-IsClosing c h = (ground arith, ground arith)

pub tail-IsClosing : (c : ℕ) → is_tail c ≡ false → IsClosing c
unfolding is_tail
tail-IsClosing c h = (ground arith, ground arith)

pub byte_len-trim_end_le : (drop : ℕ → Bool) (t : Text) → byte_len (trim_end drop t) ≤ byte_len t
unfolding trim_end byte_len
byte_len-trim_end_le drop [] = omega arith
byte_len-trim_end_le drop (c ∷ cs) =
    omega (arith, keep_before_le (drop c) c (trim_end drop cs), byte_len-trim_end_le drop cs)
