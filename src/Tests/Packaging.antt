-- ===== src/Tests/Packaging.antt =====
-- Tests of the packaging modules, and the theorems at concrete inputs.
use nyuka.Common.{
  ℕ, zero, suc, [], ◌∷◌, ◌++◌, Text, txt, text_eq, ◌≡◌, true, refl, none, some, ◌↔◌, All, pos, keep,
  ◌⊎◌, inl,
}
use nyuka.Common.Decimal.{decimal}
use nyuka.Common.Trim.{is_whitespace, trim_start, trim_end, keep_before}
use nyuka.Packaging.Paths.{
  Result, ok, err, empty, PathError, zeros, sanitize_component, is_control, is_replaced, is_bidi,
  push_char, scrub, onto_first, pieces, nonempty, join, collapse, trim_matches, is_edge, is_tail,
  char_bytes, byte_len, is_char_boundary, back_to_boundary, take_bytes, truncate_bytes,
  to_ascii_lower, eq_ignore_ascii_case, stem, is_reserved, unreserved, refuse_empty, cut, name_of,
  Float, marked, pad_number, zero_padded, chapter_stem,
}
use nyuka.Packaging.Paths.Safety.{IsSafe, sanitize_component-IsSafe}
use nyuka.Packaging.ComicInfo.{is_forbidden, push_escaped, escape}
use nyuka.Packaging.ComicInfo.Escaped.{stays, read_data, IsData, read-escape}
use nyuka.Domain.Enums.{ReadingDirection}
use nyuka.Packaging.Cbz.{PageImage, page_name}
use nyuka.Packaging.Cbz as Cbz
use nyuka.Packaging.Store.{ChapterSpec, Disk, Outside, write_chapter}
use nyuka.Packaging.Store.Placing.{FailsUnchanged, IsPlaced, write_chapter-either}
use nyuka.Packaging.Paths as Paths
use nyuka.Packaging.Paths.Refused.{IsVacuous, sanitize_component-refuses}

abbrev as_is : Text → Text
as_is t = t

etc_passwd : sanitize_component as_is (txt "../../etc/passwd") ≡ ok (txt "etc-passwd")
unfolding sanitize_component scrub push_char is_control is_replaced is_bidi collapse trim_matches
    is_edge is_whitespace trim_start trim_end keep_before name_of text_eq unreserved is_reserved
    eq_ignore_ascii_case to_ascii_lower stem cut byte_len char_bytes onto_first pieces nonempty join
    is_tail truncate_bytes take_bytes back_to_boundary is_char_boundary refuse_empty
etc_passwd = refl

sanitize_component-IsSafe_example : IsSafe (txt "etc-passwd")
sanitize_component-IsSafe_example =
    sanitize_component-IsSafe as_is (txt "../../etc/passwd") (txt "etc-passwd") etc_passwd

abbrev dots : ℕ → Text → Text
dots zero rest = rest
dots (suc n) rest = b'.' ∷ dots n rest

-- The name is looked up among the reserved ones before it is cut, and the cut leaves a reserved one.
cut_to_reserved : sanitize_component as_is (txt "CON " ++ dots 252 (txt "x")) ≡ ok (txt "CON")
unfolding sanitize_component scrub push_char is_control is_replaced is_bidi collapse trim_matches
    is_edge is_whitespace trim_start trim_end keep_before name_of text_eq unreserved is_reserved
    eq_ignore_ascii_case to_ascii_lower stem cut byte_len char_bytes onto_first pieces nonempty join
    is_tail truncate_bytes take_bytes back_to_boundary is_char_boundary refuse_empty
cut_to_reserved = refl

sanitize_component-refuses_example :
    (sanitize_component as_is (txt "../..") ≡ err empty)
    ↔ ((empty ≡ empty) × All IsVacuous (txt "../.."))
sanitize_component-refuses_example = sanitize_component-refuses as_is (txt "../..") empty

-- Numbers that are all whole.
abbrev whole : Float ℕ
whole = record { is_whole = λ n. true; as_i64 = λ n. pos n; display = λ n. [] }

fifth_chapter : chapter_stem as_is whole (txt "One") none (some 5) ≡ ok (txt "One c005")
unfolding chapter_stem pad_number zero_padded decimal sanitize_component scrub push_char is_control
    is_replaced is_bidi collapse trim_matches is_edge is_whitespace trim_start trim_end keep_before
    name_of text_eq unreserved is_reserved eq_ignore_ascii_case to_ascii_lower stem cut byte_len
    char_bytes onto_first pieces nonempty join is_tail truncate_bytes take_bytes back_to_boundary
    is_char_boundary refuse_empty
fifth_chapter = refl

-- Of a title as long as a name may be, nothing is left for the number of a chapter.
abbrev letters : ℕ → Text
letters zero = []
letters (suc n) = b'a' ∷ letters n

same_stem :
    chapter_stem as_is whole (letters 255) none (some 1)
    ≡ chapter_stem as_is whole (letters 255) none (some 2)
unfolding chapter_stem pad_number zero_padded decimal sanitize_component scrub push_char is_control
    is_replaced is_bidi collapse trim_matches is_edge is_whitespace trim_start trim_end keep_before
    name_of text_eq unreserved is_reserved eq_ignore_ascii_case to_ascii_lower stem cut byte_len
    char_bytes onto_first pieces nonempty join is_tail truncate_bytes take_bytes back_to_boundary
    is_char_boundary refuse_empty
same_stem = refl

read-escape_example :
    (read_data none (escape (txt "a<b & c")) ≡ keep stays (txt "a<b & c"))
    × All IsData (escape (txt "a<b & c"))
read-escape_example = read-escape (txt "a<b & c")

escaped : escape (txt "a<b & c") ≡ txt "a&lt;b &amp; c"
unfolding escape push_escaped is_forbidden is_control
escaped = refl

abbrev spec : ChapterSpec ℕ
spec = record {
  series_title = txt "One";
  disambiguator = none;
  volume = none;
  number = some 5;
  info = record {
    series = txt "One";
    title = none;
    number = some 5;
    volume = none;
    summary = none;
    writers = [];
    pencillers = [];
    genres = [];
    language_iso = none;
    page_count = 1;
    web = none;
    year = none;
    month = none;
    day = none;
    direction = ReadingDirection.unknown;
  };
}

abbrev page : PageImage
page = record { source_name = txt "cover.PNG"; bytes = 0xFF ∷ 0xD8 ∷ 0xFF ∷ [] }

-- The bytes say what the page is, and its name in the archive is its number.
first_page : page_name 3 0 page ≡ txt "001.jpg"
unfolding page_name zero_padded decimal Cbz.extension_for Cbz.starts_so
first_page = refl

-- Nothing fails, and the archive is as long as it has entries.
abbrev outside : Outside
outside = record {
  fault = λ n. none;
  uuid = 11;
  nfc = as_is;
  resolve_within = λ p. Paths.ok tt;
  zip = λ es. inl (80 ∷ 75 ∷ []);
  digest = λ bytes. txt "ab";
}

abbrev disk : Disk
disk = record { library = λ p. none; staging = λ id. none; calls = 0 }

write_chapter-either_example :
    FailsUnchanged outside disk (write_chapter outside whole spec (page ∷ []) disk)
    ⊎ IsPlaced outside whole spec
        (page ∷ [])
        disk
        (write_chapter outside whole spec (page ∷ []) disk)
write_chapter-either_example = write_chapter-either outside whole spec (page ∷ []) disk
