-- ===== src/Packaging/Paths/Refused.antt =====
-- When `sanitize_component` refuses a text: there is nothing in it to make a name of.
use nyuka.Common.{
  ℕ, true, false, List, [], ◌∷◌, ltb, Text, text_eq, ◌≡◌, ◌↔◌, ◌⊎◌, refl, sym, ap, ◌∙◌, inl, inr,
  Bool-cases, All, All-append, All-append_left, All-append_right, arith,
}
use nyuka.Common.Trim.{is_whitespace, trim_start, trim_end}
use nyuka.Packaging.Paths.{
  PathError, empty, Result, ok, err, is_control, is_replaced, is_bidi, push_char, scrub, onto_first,
  pieces, nonempty, join, collapse, trim_matches, is_edge, is_tail, byte_len, take_bytes,
  is_reserved, unreserved, refuse_empty, cut, is_nothing, name_of, sanitize_component,
}
use nyuka.Packaging.Paths.Truncate.{byte_len-take_bytes_le, truncate_bytes-take_bytes}
use nyuka.Packaging.Paths.Kept.{IsPlain}
use nyuka.Packaging.Paths.Edges.{
  First, IsLead, take_bytes-All, trim_start-First, trim_end-First, Stays,
}
use nyuka.Packaging.Paths.Safety.{
  trim-IsSafe, take_bytes-First, underscore-IsPlain, underscore-IsLead, trimmed_ends,
  cleaned-IsPlain, trim_end-nil,
}

-- A separator or another reserved character, a control or bidirectional character, a dot, a dash
-- or white space.
abbrev pub IsVacuous : ℕ → Type 0
IsVacuous c =
    (is_replaced c ≡ true)
    ⊎ (is_control c ≡ true)
    ⊎ (is_bidi c ≡ true)
    ⊎ (c ≡ b'.')
    ⊎ (c ≡ b'-')
    ⊎ (is_whitespace c ≡ true)

abbrev Edge : ℕ → Type 0
Edge c = is_edge c ≡ true

white-Edge : (c : ℕ) → is_whitespace c ≡ true → Edge c
unfolding is_edge
white-Edge c h = ground arith

onto_first-Edge :
    (c : ℕ) (ps : List Text) → All (All Edge) (onto_first c ps) → Edge c × All (All Edge) ps
unfolding onto_first
onto_first-Edge c [] h = (h.0.0, tt)
onto_first-Edge c (p ∷ ps) h = (h.0.0, (h.0.1, h.1))

Edge-onto_first :
    (c : ℕ) (ps : List Text) → Edge c → All (All Edge) ps → All (All Edge) (onto_first c ps)
unfolding onto_first
Edge-onto_first c [] h k = ((h, tt), tt)
Edge-onto_first c (p ∷ ps) h k = ((h, k.0), k.1)

pieces-Edge : (t : Text) → All (All Edge) (pieces t) ↔ All Edge t
unfolding pieces
pieces-Edge [] = (λ h. tt, λ h. (tt, tt))
pieces-Edge (c ∷ cs) =
    let ih = pieces-Edge cs in
    elim (Bool-cases (is_whitespace c)) [
      | inl e ↦ rw e (λ h. (white-Edge c e, ih.0 h.1), λ h. (tt, ih.1 h.1))
      | inr e ↦ rw e (
        λ h. let k = onto_first-Edge c (pieces cs) h in (k.0, ih.0 k.1),
        λ h. Edge-onto_first c (pieces cs) h.0 (ih.1 h.1),
      )
    ]

nonempty-Edge : (ps : List Text) → All (All Edge) (nonempty ps) ↔ All (All Edge) ps
unfolding nonempty
nonempty-Edge [] = (λ h. h, λ h. h)
nonempty-Edge ([] ∷ ps) = let ih = nonempty-Edge ps in (λ h. (tt, ih.0 h), λ h. ih.1 h.1)
nonempty-Edge ((c ∷ cs) ∷ ps) =
    let ih = nonempty-Edge ps in (λ h. (h.0, ih.0 h.1), λ h. (h.0, ih.1 h.1))

blank-Edge : Edge b' '
unfolding is_edge is_whitespace
blank-Edge = refl

join-Edge : (ws : List Text) → All Edge (join ws) ↔ All (All Edge) ws
unfolding join
join-Edge [] = (λ h. h, λ h. h)
join-Edge (w ∷ []) = (λ h. (h, tt), λ h. h.0)
join-Edge (w ∷ v ∷ ws) =
    let ih = join-Edge (v ∷ ws) in
    let rest = b' ' ∷ join (v ∷ ws) in
    (
      λ h. (All-append_left Edge w rest h, ih.0 (All-append_right Edge w rest h).1),
      λ h. All-append Edge w rest h.0 (blank-Edge, ih.1 h.1),
    )

collapse-Edge : (t : Text) → All Edge (collapse t) ↔ All Edge t
unfolding collapse
collapse-Edge t =
    let a = join-Edge (nonempty (pieces t)) in
    let b = nonempty-Edge (pieces t) in
    let c = pieces-Edge t in (λ h. c.0 (b.0 (a.0 h)), λ h. a.1 (b.1 (c.1 h)))

vacuous :
    (c : ℕ)
    → is_replaced c ≡ false
    → is_control c ≡ false
    → is_bidi c ≡ false
    → Edge c ↔ IsVacuous c
unfolding is_edge
vacuous c e f g = (λ h. ground arith, λ h. ground arith)

dash-Edge : Edge b'-'
unfolding is_edge is_whitespace
dash-Edge = refl

module _ (c : ℕ) (out : Text) where
  push_char-replaced : is_replaced c ≡ true → push_char c out ≡ b'-' ∷ out
  unfolding push_char
  push_char-replaced e = rw e refl

  push_char-control : is_replaced c ≡ false → is_control c ≡ true → push_char c out ≡ out
  unfolding push_char
  push_char-control e f = rw (e, f) refl

  push_char-bidi :
      is_replaced c ≡ false → is_control c ≡ false → is_bidi c ≡ true → push_char c out ≡ out
  unfolding push_char
  push_char-bidi e f g = rw (e, f, g) refl

  push_char-kept :
      is_replaced c ≡ false → is_control c ≡ false → is_bidi c ≡ false → push_char c out ≡ c ∷ out
  unfolding push_char
  push_char-kept e f g = rw (e, f, g) refl

  push_char-Edge : All Edge (push_char c out) ↔ (IsVacuous c × All Edge out)
  push_char-Edge = elim (Bool-cases (is_replaced c)) [
    | inl e ↦ rw (push_char-replaced e) (λ h. (inl e, h.1), λ h. (dash-Edge, h.1))
    | inr e ↦ elim (Bool-cases (is_control c)) [
      | inl f ↦ rw (push_char-control e f) (λ h. (inr (inl f), h), λ h. h.1)
      | inr f ↦ elim (Bool-cases (is_bidi c)) [
        | inl g ↦ rw (push_char-bidi e f g) (λ h. (inr (inr (inl g)), h), λ h. h.1)
        | inr g ↦
            let v = vacuous c e f g in
            rw (push_char-kept e f g) (λ h. (v.0 h.0, h.1), λ h. (v.1 h.0, h.1))
      ]
    ]
  ]

scrub-Edge : (t : Text) → All Edge (scrub t) ↔ All IsVacuous t
unfolding scrub
scrub-Edge [] = (λ h. h, λ h. h)
scrub-Edge (c ∷ cs) =
    let ih = scrub-Edge cs in
    let one = push_char-Edge c (scrub cs) in
    (λ h. let k = one.0 h in (k.0, ih.0 k.1), λ h. one.1 (h.0, ih.1 h.1))

-- Trimming leaves nothing exactly where every character may go.
trim_start-Edge : (t : Text) → (trim_start is_edge t ≡ []) ↔ All Edge t
unfolding trim_start
trim_start-Edge [] = (λ h. tt, λ h. refl)
trim_start-Edge (c ∷ cs) =
    let ih = trim_start-Edge cs in
    elim (Bool-cases (is_edge c)) [
      | inl e ↦ rw e (λ h. (refl, ih.0 h), λ h. ih.1 h.1)
      | inr e ↦ rw e (λ h. absurd (some_char h), λ h. absurd (mixed h.0))
    ]
  where
    some_char : c ∷ cs ≡ [] → ⊥
    some_char q = cc

    mixed : false ≡ true → ⊥
    mixed q = cc

First-filled : (P : ℕ → Type 0) (t : Text) → First P t → t ≡ [] → ⊥
First-filled P [] h e = h
First-filled P (c ∷ cs) h e = cc

trim_matches-Edge : (t : Text) → (trim_matches is_edge t ≡ []) ↔ All Edge t
unfolding trim_matches
trim_matches-Edge t = (
  λ h. elim (trim_start-First is_edge t) [
    | inl e ↦ (trim_start-Edge t).0 e
    | inr f ↦
        let kept = trim_end-First is_edge (Stays is_edge) (trim_start is_edge t) f f in
        absurd (First-filled (Stays is_edge) (trim_end is_edge (trim_start is_edge t)) kept h)
  ],
  λ h. rw ((trim_start-Edge t).1 h) (trim_end-nil is_edge),
)

refuse_empty_total : (t : Text) → First IsLead t → (name : Text) × (refuse_empty t ≡ ok name)
unfolding refuse_empty
refuse_empty_total [] h = absurd h
refuse_empty_total (c ∷ cs) h = (c ∷ cs, refl)

-- Truncation leaves a name a name.
cut_total : (t : Text) → All IsPlain t → First IsLead t → (name : Text) × (cut t ≡ ok name)
unfolding cut
cut_total t plain lead = elim (Bool-cases (ltb 255 (byte_len t))) [
  | inl e ↦
      let safe =
        trim-IsSafe (take_bytes 255 t) (byte_len-take_bytes_le 255 t)
          (take_bytes-All IsPlain is_tail 255 t plain) (take_bytes-First t lead) in
      rw (e, truncate_bytes-take_bytes t 255) (refuse_empty_total _ safe.first)
  | inr e ↦ rw e (t, refl)
]

unreserved_total :
    (t : Text) → All IsPlain t → First IsLead t → (name : Text) × (cut (unreserved t) ≡ ok name)
unfolding unreserved
unreserved_total t plain lead = elim (Bool-cases (is_reserved t)) [
  | inl e ↦ rw e (cut_total (b'_' ∷ t) (underscore-IsPlain, plain) underscore-IsLead)
  | inr e ↦ rw e (cut_total t plain lead)
]

lead_something : (t : Text) → First IsLead t → is_nothing t ≡ false
unfolding text_eq
lead_something [] h = absurd h
lead_something (c ∷ cs) h = ground arith

name_of_total : (t : Text) → All IsPlain t → First IsLead t → (name : Text) × (name_of t ≡ ok name)
unfolding name_of
name_of_total t plain lead = rw (lead_something t lead) (unreserved_total t plain lead)

name_of-nil : (t : Text) → t ≡ [] → name_of t ≡ err empty
unfolding name_of text_eq
name_of-nil t e = rw e refl

same_error : (d e : PathError) (r : Result Text) → r ≡ err d → r ≡ err e → e ≡ d
same_error d e r p q = cc

ok_or_err : (name : Text) (e : PathError) (r : Result Text) → r ≡ ok name → r ≡ err e → ⊥
ok_or_err name e r p q = cc

module _ (nfc : Text → Text) where
  -- `sanitize_component` fails with one error only, that nothing is left, and it does so exactly
  -- where the normal form holds nothing but reserved, control and bidirectional characters, dots,
  -- dashes and white space: no text is refused for its length or as a name that Windows
  -- reserves.
  pub sanitize_component-refuses :
      (input : Text) (e : PathError)
      → (sanitize_component nfc input ≡ err e) ↔ ((e ≡ empty) × All IsVacuous (nfc input))
  unfolding sanitize_component
  sanitize_component-refuses input e =
      let cleaned = collapse (scrub (nfc input)) in
      let blank = trim_matches-Edge cleaned in
      let whole = collapse-Edge (scrub (nfc input)) in
      let raw = scrub-Edge (nfc input) in
      elim (trimmed_ends cleaned) [
        | inl nothing ↦
            let refused = name_of-nil (trim_matches is_edge cleaned) nothing in
            (
              λ h. (same_error empty e _ refused h, raw.0 (whole.0 (blank.0 nothing))),
              λ h. refused ∙ ap err (sym h.0),
            )
        | inr (lead, closing) ↦
            let (name, run) =
              name_of_total (trim_matches is_edge cleaned) (cleaned-IsPlain (nfc input)) lead in
            (
              λ h. absurd (ok_or_err name e _ run h),
              λ h. absurd (
                  First-filled IsLead (trim_matches is_edge cleaned) lead
                    (blank.1 (whole.1 (raw.1 h.1)))),
            )
      ]
