-- ===== src/Packaging/ComicInfo.antt =====
-- crates/packaging/src/comicinfo.rs: the metadata of an archive, as XML.
pub mod Escaped
use nyuka.Common.{
  ℕ, ℤ, pos, Bool, true, false, not, ◌&&◌, ◌||◌, ◌==◌, Text, txt, Option, none, some, List, [], ◌∷◌,
  ◌++◌, unwrap_or, if◌then◌else◌,
}
use nyuka.Common.Decimal.{decimal, decimal_ℤ}
use nyuka.Domain.Enums.{ReadingDirection}
use nyuka.Packaging.Paths.{Float, is_control}

pub record ComicInfo (F : Type 0) : Type 0 where
  pub series : Text
  pub title : Option Text
  pub number : Option F
  pub volume : Option F
  pub summary : Option Text
  pub writers : List Text
  pub pencillers : List Text
  pub genres : List Text
  pub language_iso : Option Text
  pub page_count : ℕ
  pub web : Option Text
  pub year : Option ℤ
  pub month : Option ℕ
  pub day : Option ℕ
  pub direction : ReadingDirection

unfoldable pub manga_value : ReadingDirection → Text
manga_value ReadingDirection.right_to_left = txt "YesAndRightToLeft"
manga_value ReadingDirection.left_to_right = txt "Yes"
manga_value ReadingDirection.unknown = txt "Unknown"

-- The control characters other than the line breaks and the tab. XML 1.0 has no place for those below
-- U+0020; it allows U+007F to U+009F, which the code drops too.
unfoldable pub is_forbidden : ℕ → Bool
is_forbidden c = is_control c && not (c == 10 || c == 13 || c == 9)

-- One turn of the loop: what it pushes, before what the later turns push.
unfoldable pub push_escaped : ℕ → Text → Text
push_escaped c out =
    if c == b'&'
    then txt "&amp;" ++ out
    else if c == b'<'
    then txt "&lt;" ++ out
    else if c == b'>'
    then txt "&gt;" ++ out
    else if c == b'"'
    then txt "&quot;" ++ out
    else if c == 39
    then txt "&apos;" ++ out
    else if is_forbidden c
    then out
    else c ∷ out

unfoldable pub escape : Text → Text
escape [] = []
escape (c ∷ cs) = push_escaped c (escape cs)

abbrev pub concat : List Text → Text
concat [] = []
concat (t ∷ ts) = t ++ concat ts

-- An element without a value is left out.
unfoldable pub element : Text → Text → Text
element name [] = []
element name (c ∷ cs) =
    concat (txt "  <" ∷ name ∷ txt ">" ∷ escape (c ∷ cs) ∷ txt "</" ∷ name ∷ (b'>' ∷ 10 ∷ []) ∷ [])

unfoldable pub format_number : {F : Type 0} → Float F → F → Text
format_number f value = if f.is_whole value then decimal_ℤ (f.as_i64 value) else f.display value

-- `if let Some(value) = …`
abbrev pub element_of : {A : Type 0} → Text → (A → Text) → Option A → Text
element_of name print none = []
element_of name print (some a) = element name (print a)

-- `filter(|v| v.fract().abs() < f32::EPSILON)`
abbrev pub whole_only : {F : Type 0} → Float F → Option F → Option F
whole_only f none = none
whole_only f (some v) = if f.is_whole v then some v else none

-- `join(", ")`
unfoldable pub join_commas : List Text → Text
join_commas [] = []
join_commas (w ∷ []) = w
join_commas (w ∷ v ∷ ws) = w ++ (txt ", " ++ join_commas (v ∷ ws))

-- What `to_xml` pushes, in order.
unfoldable pub parts : {F : Type 0} → Float F → ComicInfo F → List Text
parts f info =
    txt "<?xml version=\"1.0\" encoding=\"utf-8\"?>"
    ∷ (10 ∷ [])
    ∷ txt
        "<ComicInfo xmlns:xsi=\"http://www.w3.org/2001/XMLSchema-instance\" xmlns:xsd=\"http://www.w3.org/2001/XMLSchema\">"
    ∷ (10 ∷ [])
    ∷ element (txt "Title") (unwrap_or info.title [])
    ∷ element (txt "Series") info.series
    ∷ element_of (txt "Number") (format_number f) info.number
    ∷ element_of (txt "Volume") (format_number f) (whole_only f info.volume)
    ∷ element (txt "Summary") (unwrap_or info.summary [])
    ∷ element_of (txt "Year") decimal_ℤ info.year
    ∷ element_of (txt "Month") decimal info.month
    ∷ element_of (txt "Day") decimal info.day
    ∷ element (txt "Writer") (join_commas info.writers)
    ∷ element (txt "Penciller") (join_commas info.pencillers)
    ∷ element (txt "Genre") (join_commas info.genres)
    ∷ element (txt "Web") (unwrap_or info.web [])
    ∷ element (txt "PageCount") (decimal info.page_count)
    ∷ element (txt "LanguageISO") (unwrap_or info.language_iso [])
    ∷ element (txt "Manga") (manga_value info.direction)
    ∷ txt "</ComicInfo>"
    ∷ (10 ∷ [])
    ∷ []

unfoldable pub to_xml : {F : Type 0} → Float F → ComicInfo F → Text
unfolding parts
to_xml f info = concat (parts f info)
