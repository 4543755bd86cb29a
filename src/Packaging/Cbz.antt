-- ===== src/Packaging/Cbz.antt =====
-- crates/packaging/src/cbz.rs: the entries of an archive. The archive's format is the zip crate's.
use nyuka.Common.{
  ℕ, ◌+◌, max, Bool, true, false, ◌&&◌, ◌||◌, ◌==◌, Text, txt, text_eq, Option, none, some, List,
  [], ◌∷◌, ◌++◌, length, map, pos, if◌then◌else◌, any,
}
use nyuka.Common.Decimal.{decimal}
use nyuka.Packaging.Paths.{to_ascii_lower, zero_padded, Float}
use nyuka.Packaging.ComicInfo.{ComicInfo, to_xml}

pub data CbzError : Type 0 where
  write : Text → CbzError
  no_pages : CbzError

pub record PageImage : Type 0 where
  pub source_name : Text
  pub bytes : List ℕ

-- The XML is compressed and the images are stored as they are.
pub data Entry : Type 0 where
  deflated : Text → Text → Entry
  stored : Text → List ℕ → Entry

unfoldable pub page_number_width : ℕ → ℕ
page_number_width count = max (length (decimal count)) 3

-- The bytes start so; `none` stands for any byte.
unfoldable pub starts_so : List (Option ℕ) → List ℕ → Bool
starts_so [] bs = true
starts_so (p ∷ ps) [] = false
starts_so (none ∷ ps) (b ∷ bs) = starts_so ps bs
starts_so (some p ∷ ps) (b ∷ bs) = p == b && starts_so ps bs

abbrev pub exactly : Text → List (Option ℕ)
exactly [] = []
exactly (c ∷ cs) = some c ∷ exactly cs

-- `rsplit('.').next()`
unfoldable pub last_part : Text → Text
last_part [] = []
last_part (c ∷ cs) =
    let rest = last_part cs in if any (λ d. d == b'.') (c ∷ cs) then rest else c ∷ cs

unfoldable pub declared_extension : Text → Text
unfolding last_part
declared_extension source_name =
    let ext = map to_ascii_lower (last_part source_name) in
    if text_eq ext (txt "jpg") || text_eq ext (txt "jpeg")
    then txt "jpg"
    else if text_eq ext (txt "png")
    then txt "png"
    else if text_eq ext (txt "gif")
    then txt "gif"
    else if text_eq ext (txt "webp")
    then txt "webp"
    else if text_eq ext (txt "avif")
    then txt "avif"
    else txt "jpg"

unfoldable pub extension_for : Text → List ℕ → Text
extension_for source_name bytes =
    if starts_so (some 0xFF ∷ some 0xD8 ∷ some 0xFF ∷ []) bytes
    then txt "jpg"
    else if starts_so (some 0x89 ∷ exactly (txt "PNG")) bytes
    then txt "png"
    else if starts_so (exactly (txt "GIF8")) bytes
    then txt "gif"
    else if starts_so (exactly (txt "RIFF") ++ (none ∷ none ∷ none ∷ none ∷ exactly (txt "WEBP")))
        bytes
    then txt "webp"
    else declared_extension source_name

unfoldable pub page_name : ℕ → ℕ → PageImage → Text
unfolding zero_padded
page_name width index page =
    zero_padded width (pos (index + 1)) ++ (b'.' ∷ extension_for page.source_name page.bytes)

-- The loop over the pages from an index on.
unfoldable pub page_entries : ℕ → ℕ → List PageImage → List Entry
page_entries width index [] = []
page_entries width index (p ∷ ps) =
    stored (page_name width index p) p.bytes ∷ page_entries width (index + 1) ps

unfoldable pub entries : {F : Type 0} → Float F → ComicInfo F → List PageImage → List Entry
unfolding page_number_width page_entries
entries f info pages =
    deflated (txt "ComicInfo.xml") (to_xml f info)
    ∷ page_entries (page_number_width (length pages)) 0 pages
