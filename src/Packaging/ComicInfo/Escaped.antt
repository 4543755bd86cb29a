-- ===== src/Packaging/ComicInfo/Escaped.antt =====
-- What a reader of the XML gets back, and that no text breaks out of its element.
use nyuka.Common.{
  ℕ, Bool, false, not, ◌==◌, ◌&&◌, ◌||◌, leb, Text, txt, text_eq, Option, none, some, [], ◌∷◌, ◌++◌,
  keep, ◌≡◌, ◌≢◌, refl, ap, ◌∙◌, inl, inr, Bool-cases, if◌then◌else◌, All, All-append, arith,
}
use nyuka.Packaging.Paths.{is_control}
use nyuka.Packaging.ComicInfo.{is_forbidden, push_escaped, escape}

-- The five entities of XML.
abbrev pub entity : Text → Text
entity name =
    if text_eq name (txt "amp")
    then txt "&"
    else if text_eq name (txt "lt")
    then txt "<"
    else if text_eq name (txt "gt")
    then txt ">"
    else if text_eq name (txt "quot")
    then b'"' ∷ []
    else if text_eq name (txt "apos")
    then 39 ∷ []
    else []

-- How an XML reader takes character data: between `&` and `;` stands the name of an entity.
pub read_data : Option Text → Text → Text
read_data name [] = []
read_data none (c ∷ cs) =
    let inside = read_data (some []) cs in
    let outside = c ∷ read_data none cs in if c == b'&' then inside else outside
read_data (some name) (c ∷ cs) =
    let done = entity name ++ read_data none cs in
    let more = read_data (some (name ++ (c ∷ []))) cs in if c == b';' then done else more

read_plain :
    (c : ℕ) (r : Text)
    → (c == b'&') ≡ false
    → (c == b'<') ≡ false
    → (c == b'>') ≡ false
    → (c == b'"') ≡ false
    → (c == 39) ≡ false
    → read_data none (push_escaped c r)
      ≡ (if not (is_forbidden c) then c ∷ read_data none r else read_data none r)
unfolding read_data push_escaped
read_plain c r e1 e2 e3 e4 e5 = elim (Bool-cases (is_forbidden c)) [
  | inl f ↦ rw (e1, e2, e3, e4, e5, f) refl
  | inr f ↦ rw (e1, e2, e3, e4, e5, f) (rw e1 refl)
]

read_push :
    (c : ℕ) (r : Text)
    → read_data none (push_escaped c r)
      ≡ (if not (is_forbidden c) then c ∷ read_data none r else read_data none r)
unfolding read_data push_escaped is_forbidden is_control text_eq
read_push c r = elim (Bool-cases (c == b'&')) [
  | inl e ↦ let q : c ≡ b'&' = ground arith in rw q refl
  | inr e1 ↦ elim (Bool-cases (c == b'<')) [
    | inl e ↦ let q : c ≡ b'<' = ground arith in rw q refl
    | inr e2 ↦ elim (Bool-cases (c == b'>')) [
      | inl e ↦ let q : c ≡ b'>' = ground arith in rw q refl
      | inr e3 ↦ elim (Bool-cases (c == b'"')) [
        | inl e ↦ let q : c ≡ b'"' = ground arith in rw q refl
        | inr e4 ↦ elim (Bool-cases (c == 39)) [
          | inl e ↦ let q : c ≡ 39 = ground arith in rw q refl
          | inr e5 ↦ read_plain c r e1 e2 e3 e4 e5
        ]
      ]
    ]
  ]
]

-- None of the characters that mark up a document, the ampersand of the entities aside.
abbrev pub IsData : ℕ → Type 0
IsData c = (c ≢ b'<') × (c ≢ b'>') × (c ≢ b'"') × (c ≢ 39)

plain-IsData :
    (c : ℕ)
    → (c == b'<') ≡ false
    → (c == b'>') ≡ false
    → (c == b'"') ≡ false
    → (c == 39) ≡ false
    → IsData c
plain-IsData c e2 e3 e4 e5 = (ground arith, ground arith, ground arith, ground arith)

push_escaped-IsData : (c : ℕ) (r : Text) → All IsData r → All IsData (push_escaped c r)
unfolding push_escaped
push_escaped-IsData c r h = elim (Bool-cases (c == b'&')) [
  | inl e ↦ rw e (All-append IsData (txt "&amp;") r (omega arith) h)
  | inr e1 ↦ elim (Bool-cases (c == b'<')) [
    | inl e ↦ rw (e1, e) (All-append IsData (txt "&lt;") r (omega arith) h)
    | inr e2 ↦ elim (Bool-cases (c == b'>')) [
      | inl e ↦ rw (e1, e2, e) (All-append IsData (txt "&gt;") r (omega arith) h)
      | inr e3 ↦ elim (Bool-cases (c == b'"')) [
        | inl e ↦ rw (e1, e2, e3, e) (All-append IsData (txt "&quot;") r (omega arith) h)
        | inr e4 ↦ elim (Bool-cases (c == 39)) [
          | inl e ↦ rw (e1, e2, e3, e4, e) (All-append IsData (txt "&apos;") r (omega arith) h)
          | inr e5 ↦ elim (Bool-cases (is_forbidden c)) [
            | inl f ↦ rw (e1, e2, e3, e4, e5, f) h
            | inr f ↦ rw (e1, e2, e3, e4, e5, f) (plain-IsData c e2 e3 e4 e5, h)
          ]
        ]
      ]
    ]
  ]
]

-- The characters that stay: a tab, a line feed, a carriage return, and all from U+0020 on but those
-- from U+007F to U+009F.
abbrev pub stays : ℕ → Bool
stays c = c == 9 || c == 10 || c == 13 || (leb 32 c && not (leb 127 c && leb c 159))

stays_lem : (c : ℕ) → not (is_forbidden c) ≡ stays c
unfolding is_forbidden is_control
stays_lem c = ground arith

-- A reader that decodes the entities gets back the text without its control characters, line breaks
-- and tabs aside: not only those below U+0020, which XML 1.0 forbids, but also those from U+007F to
-- U+009F, which it allows. And no angle bracket or quote of the text stands in the document, so that
-- none ends its element or an attribute.
pub read-escape : (t : Text) → (read_data none (escape t) ≡ keep stays t) × All IsData (escape t)
unfolding escape read_data
read-escape [] = (refl, tt)
read-escape (c ∷ cs) =
    let ih = read-escape cs in
    (
      read_push c (escape cs)
          ∙ ap (λ b. if b then c ∷ read_data none (escape cs) else read_data none (escape cs))
              (stays_lem c)
          ∙ ap (λ l. if stays c then c ∷ l else l) ih.0,
      push_escaped-IsData c (escape cs) ih.1,
    )
