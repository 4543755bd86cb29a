-- ===== src/Packaging/Paths/Safety.antt =====
-- What a component that `sanitize_component` returns is like.
use nyuka.Common.{
  ℕ, ◌≤◌, Bool, true, Option, none, some, [], ◌∷◌, leb, ltb, Text, ◌≡◌, ◌⊎◌, refl, subst, inl, inr,
  Bool-cases, All, arith, text_eq,
}
use nyuka.Common.Trim.{is_whitespace, trim_start, trim_end}
use nyuka.Packaging.Paths.{
  Result, empty, ok, err, ◌>>=◌, Float, is_control, is_replaced, is_bidi, scrub, collapse,
  trim_matches, is_edge, is_tail, char_bytes, byte_len, take_bytes, is_reserved, unreserved,
  refuse_empty, cut, is_nothing, name_of, sanitize_component, series_dir, chapter_stem,
}
use nyuka.Packaging.Paths.Truncate.{
  char_bytes_bounds, byte_len-take_bytes_le, truncate_bytes-take_bytes,
}
use nyuka.Packaging.Paths.Kept.{IsPlain, kept, scrub-IsKept, collapse-IsPlain}
use nyuka.Packaging.Paths.Edges.{
  First, Last, IsLead, IsClosing, trim_end-All, trim_matches-All, take_bytes-All, Stays,
  trim_start-First, trim_start-Stays, trim_end-Last, trim_end-First, First-impl, Last-impl,
  lead_stays, edge-IsLead, edge-IsClosing, tail-IsClosing, byte_len-trim_end_le,
}

-- Fit to be the name of a file or of a directory.
pub record IsSafe (t : Text) : Type 0 where
  pub plain : All IsPlain t
  pub short : byte_len t ≤ 255
  pub first : First IsLead t
  pub last : Last IsClosing t

pub trim-IsSafe :
    (t : Text) → byte_len t ≤ 255 → All IsPlain t → First IsLead t → IsSafe (trim_matches is_tail t)
unfolding trim_matches
trim-IsSafe t h plain lead =
    let stays : First (Stays is_tail) t = First-impl IsLead (Stays is_tail) lead_stays t lead in
    let lead' : First IsLead (trim_end is_tail t) = trim_end-First is_tail IsLead t stays lead in
    rw (trim_start-Stays is_tail t stays) (record {
      plain = trim_end-All IsPlain is_tail t plain;
      short = omega (arith, byte_len-trim_end_le is_tail t);
      first = lead';
      last = elim (trim_end-Last is_tail t) [
        | inl e ↦ absurd (rw e at lead')
        | inr l ↦ Last-impl (Stays is_tail) IsClosing tail-IsClosing (trim_end is_tail t) l
      ];
    })

pub take_bytes-First : (t : Text) → First IsLead t → First IsLead (take_bytes 255 t)
unfolding take_bytes
take_bytes-First [] h = h
take_bytes-First (c ∷ cs) h =
    let fits : leb (char_bytes c) 255 ≡ true = ground (arith, char_bytes_bounds c) in rw fits h

refuse_empty_lem : (t name : Text) → refuse_empty t ≡ ok name → t ≡ name
unfolding refuse_empty
refuse_empty_lem [] name h = cc
refuse_empty_lem (c ∷ cs) name h = cc

ok-injective : (t name : Text) → ok t ≡ ok name → t ≡ name
ok-injective t name h = cc

cut-IsSafe :
    (t name : Text)
    → All IsPlain t
    → First IsLead t
    → Last IsClosing t
    → cut t ≡ ok name
    → IsSafe name
unfolding cut
cut-IsSafe t name plain lead closing h = elim (Bool-cases (ltb 255 (byte_len t))) [
  | inl e ↦
      let same = refuse_empty_lem _ name (rw e at h) in
      subst IsSafe same (
        rw (truncate_bytes-take_bytes t 255) (
          trim-IsSafe (take_bytes 255 t) (byte_len-take_bytes_le 255 t)
            (take_bytes-All IsPlain is_tail 255 t plain) (take_bytes-First t lead)))
  | inr e ↦
      subst IsSafe (ok-injective t name (rw e at h))
        (record { plain = plain; short = ground arith; first = lead; last = closing })
]

pub underscore-IsPlain : IsPlain b'_'
unfolding is_replaced is_control is_bidi is_whitespace
underscore-IsPlain = kept b'_' (refl, refl, refl) (λ w. cc)

pub underscore-IsLead : IsLead b'_'
unfolding is_whitespace
underscore-IsLead = (omega arith, omega arith, refl)

Last-cons : (c : ℕ) (t : Text) → Last IsClosing t → Last IsClosing (c ∷ t)
Last-cons c [] h = absurd h
Last-cons c (d ∷ r) h = h

unreserved-IsSafe :
    (t name : Text)
    → All IsPlain t
    → First IsLead t
    → Last IsClosing t
    → cut (unreserved t) ≡ ok name
    → IsSafe name
unfolding unreserved
unreserved-IsSafe t name plain lead closing h = elim (Bool-cases (is_reserved t)) [
  | inl e ↦
      cut-IsSafe (b'_' ∷ t) name (underscore-IsPlain, plain) underscore-IsLead
        (Last-cons b'_' t closing) (rw e at h)
  | inr e ↦ cut-IsSafe t name plain lead closing (rw e at h)
]

pub trim_end-nil : (drop : ℕ → Bool) → trim_end drop [] ≡ []
unfolding trim_end
trim_end-nil drop = refl

name_of-IsSafe :
    (t name : Text)
    → All IsPlain t
    → First IsLead t
    → Last IsClosing t
    → name_of t ≡ ok name
    → IsSafe name
unfolding name_of
name_of-IsSafe t name plain lead closing h = elim (Bool-cases (is_nothing t)) [
  | inl e ↦ absurd (refused (rw e at h))
  | inr e ↦ unreserved-IsSafe t name plain lead closing (rw e at h)
]
  where
    refused : err empty ≡ ok name → ⊥
    refused q = cc

pub trimmed_ends :
    (t : Text)
    → (trim_matches is_edge t ≡ [])
      ⊎ (First IsLead (trim_matches is_edge t) × Last IsClosing (trim_matches is_edge t))
unfolding trim_matches
trimmed_ends t = elim (trim_start-First is_edge t) [
  | inl e ↦ inl (rw e (trim_end-nil is_edge))
  | inr f ↦ elim (trim_end-Last is_edge (trim_start is_edge t)) [
    | inl e ↦ inl e
    | inr l ↦ inr (
      trim_end-First is_edge IsLead (trim_start is_edge t) f
          (First-impl (Stays is_edge) IsLead edge-IsLead (trim_start is_edge t) f),
      Last-impl (Stays is_edge) IsClosing edge-IsClosing (trim_end is_edge (trim_start is_edge t))
          l,
    )
  ]
]

name_of_nil : (t name : Text) → t ≡ [] → name_of t ≡ ok name → ⊥
unfolding name_of text_eq
name_of_nil t name e h = refused (rw e at h)
  where
    refused : err empty ≡ ok name → ⊥
    refused q = cc

pub cleaned-IsPlain : (t : Text) → All IsPlain (trim_matches is_edge (collapse (scrub t)))
cleaned-IsPlain t =
    trim_matches-All IsPlain is_edge (collapse (scrub t))
      (collapse-IsPlain (scrub t) (scrub-IsKept t))

bound :
    (r : Result Text) (f : Text → Result Text) (name : Text)
    → (r >>= f) ≡ ok name
    → (t : Text) × (r ≡ ok t) × (f t ≡ ok name)
bound (ok t) f name h = (t, refl, h)
bound (err e) f name h = absurd (bad h)
  where
    bad : Result.err e ≡ ok name → ⊥
    bad q = cc

module _ (nfc : Text → Text) where
  -- A name that `sanitize_component` returns has only plain characters, takes at most 255 bytes,
  -- does not start with a dot, a dash or white space and does not end with a dot or white space,
  -- whatever the text and whatever the normal form.
  pub sanitize_component-IsSafe :
      (input name : Text) → sanitize_component nfc input ≡ ok name → IsSafe name
  unfolding sanitize_component
  sanitize_component-IsSafe input name h =
      let cleaned = collapse (scrub (nfc input)) in
      elim (trimmed_ends cleaned) [
        | inl e ↦ absurd (name_of_nil (trim_matches is_edge cleaned) name e h)
        | inr (lead, closing) ↦
            name_of-IsSafe (trim_matches is_edge cleaned) name (cleaned-IsPlain (nfc input)) lead
              closing h
      ]

  -- Every name of a series' directory is safe, with a disambiguator and without.
  pub series_dir-IsSafe :
      (title : Text) (slug : Option Text) (name : Text)
      → series_dir nfc title slug ≡ ok name
      → IsSafe name
  unfolding series_dir
  series_dir-IsSafe title none name h = sanitize_component-IsSafe title name h
  series_dir-IsSafe title (some slug) name h =
      let (base, e, k) = bound (sanitize_component nfc title) _ name h in
      let (tag, g, l) = bound (sanitize_component nfc slug) _ name k in
      sanitize_component-IsSafe _ name l

  -- Every name of a chapter's file is safe, whatever its numbers print as.
  pub chapter_stem-IsSafe :
      {F : Type 0} (f : Float F) (series : Text) (volume number : Option F) (name : Text)
      → chapter_stem nfc f series volume number ≡ ok name
      → IsSafe name
  unfolding chapter_stem
  chapter_stem-IsSafe f series volume number name h =
      let (base, e, k) = bound (sanitize_component nfc series) _ name h in
      sanitize_component-IsSafe _ name k
