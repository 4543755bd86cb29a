-- ===== src/Packaging/Paths.antt =====
-- crates/packaging/src/paths.rs: a component of a path from a source's text.
-- A text is its code points; lengths in bytes are those of their UTF-8 form.
pub mod Truncate
pub mod Kept
pub mod Edges
pub mod Safety
pub mod Refused
use nyuka.Common.{
  ℕ, zero, suc, ◌+◌, ◌-◌, min, Bool, true, false, ◌&&◌, ◌||◌, not, Option, none, some, List, [],
  ◌∷◌, ◌++◌, map, leb, ltb, ◌==◌, within, if◌then◌else◌, any, length, Text, txt, text_eq, ℤ, pos,
  negsuc,
}
use nyuka.Common.Decimal.{decimal}
use nyuka.Common.Trim.{is_whitespace, trim_start, trim_end}

pub data PathError : Type 0 where
  empty : PathError
  escapes : PathError
  unresolvable : Text → PathError

pub data Result (A : Type 0) : Type 0 where
  ok : A → Result A
  err : PathError → Result A

infixl 5 ◌>>=◌
abbrev pub ◌>>=◌ : {A B : Type 0} → Result A → (A → Result B) → Result B
ok a >>= f = f a
err e >>= f = err e

abbrev pub max_component_bytes : ℕ
max_component_bytes = 255

-- `char::is_control`: the code points of Unicode's category Cc.
unfoldable pub is_control : ℕ → Bool
is_control c = leb c 31 || within 127 159 c

-- `'/' | '\\'` and `':' | '*' | '?' | '"' | '<' | '>' | '|'`
unfoldable pub is_replaced : ℕ → Bool
is_replaced c =
    c == 47 || c == 92 || c == 58 || c == 42 || c == 63 || c == 34 || c == 60 || c == 62 || c == 124

unfoldable pub is_bidi : ℕ → Bool
is_bidi c = within 0x202A 0x202E c || within 0x2066 0x2069 c || c == 0x200E || c == 0x200F

-- One turn of the loop over the characters: what it pushes, before what the later turns push.
unfoldable pub push_char : ℕ → Text → Text
push_char c out =
    if is_replaced c
    then b'-' ∷ out
    else if is_control c
    then out
    else if is_bidi c
    then out
    else c ∷ out

unfoldable pub scrub : Text → Text
scrub [] = []
scrub (c ∷ cs) = push_char c (scrub cs)

-- `split_whitespace`: the pieces between white space that are not empty.
unfoldable pub onto_first : ℕ → List Text → List Text
onto_first c [] = (c ∷ []) ∷ []
onto_first c (p ∷ ps) = (c ∷ p) ∷ ps

unfoldable pub pieces : Text → List Text
pieces [] = [] ∷ []
pieces (c ∷ cs) = let ps = pieces cs in if is_whitespace c then [] ∷ ps else onto_first c ps

unfoldable pub nonempty : List Text → List Text
nonempty [] = []
nonempty ([] ∷ ps) = nonempty ps
nonempty ((c ∷ cs) ∷ ps) = (c ∷ cs) ∷ nonempty ps

-- `join(" ")`
unfoldable pub join : List Text → Text
join [] = []
join (w ∷ []) = w
join (w ∷ v ∷ ws) = w ++ (b' ' ∷ join (v ∷ ws))

unfoldable pub collapse : Text → Text
unfolding pieces nonempty join
collapse t = join (nonempty (pieces t))

-- `trim_matches`
unfoldable pub trim_matches : (ℕ → Bool) → Text → Text
trim_matches drop t = trim_end drop (trim_start drop t)

unfoldable pub is_edge : ℕ → Bool
is_edge c = c == b'.' || c == b'-' || is_whitespace c

unfoldable pub is_tail : ℕ → Bool
is_tail c = c == b'.' || is_whitespace c

-- `len_utf8`
unfoldable pub char_bytes : ℕ → ℕ
char_bytes c = if ltb c 0x80 then 1 else if ltb c 0x800 then 2 else if ltb c 0x1_0000 then 3 else 4

-- `str::len`
unfoldable pub byte_len : Text → ℕ
byte_len [] = 0
byte_len (c ∷ cs) = char_bytes c + byte_len cs

-- `str::is_char_boundary`
unfoldable pub is_char_boundary : ℕ → Text → Bool
is_char_boundary at [] = at == 0
is_char_boundary at (c ∷ cs) =
    let later = is_char_boundary (at - char_bytes c) cs in
    if leb (char_bytes c) at then later else at == 0

-- `while end > 0 && !s.is_char_boundary(end) { end -= 1; }`
unfoldable pub back_to_boundary : ℕ → Text → ℕ
back_to_boundary zero s = 0
back_to_boundary (suc end) s =
    let back = back_to_boundary end s in if is_char_boundary (suc end) s then suc end else back

-- `s[..end]` at a boundary: the characters that end there or before.
unfoldable pub take_bytes : ℕ → Text → Text
take_bytes end [] = []
take_bytes end (c ∷ cs) =
    let rest = take_bytes (end - char_bytes c) cs in if leb (char_bytes c) end then c ∷ rest else []

unfoldable pub truncate_bytes : Text → ℕ → Text
truncate_bytes s max = take_bytes (back_to_boundary (min max (byte_len s)) s) s

abbrev pub reserved : List Text
reserved =
    txt "CON"
    ∷ txt "PRN"
    ∷ txt "AUX"
    ∷ txt "NUL"
    ∷ txt "COM1"
    ∷ txt "COM2"
    ∷ txt "COM3"
    ∷ txt "COM4"
    ∷ txt "COM5"
    ∷ txt "COM6"
    ∷ txt "COM7"
    ∷ txt "COM8"
    ∷ txt "COM9"
    ∷ txt "LPT1"
    ∷ txt "LPT2"
    ∷ txt "LPT3"
    ∷ txt "LPT4"
    ∷ txt "LPT5"
    ∷ txt "LPT6"
    ∷ txt "LPT7"
    ∷ txt "LPT8"
    ∷ txt "LPT9"
    ∷ []

unfoldable pub to_ascii_lower : ℕ → ℕ
to_ascii_lower c = if within b'A' b'Z' c then c + 32 else c

unfoldable pub eq_ignore_ascii_case : Text → Text → Bool
eq_ignore_ascii_case a b = text_eq (map to_ascii_lower a) (map to_ascii_lower b)

-- `split('.').next()`
unfoldable pub stem : Text → Text
stem [] = []
stem (c ∷ cs) = let rest = stem cs in if c == b'.' then [] else c ∷ rest

unfoldable pub is_reserved : Text → Bool
is_reserved t = any (λ r. eq_ignore_ascii_case r (stem t)) reserved

unfoldable pub unreserved : Text → Text
unreserved t = if is_reserved t then b'_' ∷ t else t

unfoldable pub refuse_empty : Text → Result Text
refuse_empty [] = err empty
refuse_empty (c ∷ cs) = ok (c ∷ cs)

unfoldable pub cut : Text → Result Text
cut t =
    if ltb max_component_bytes (byte_len t)
    then refuse_empty (trim_matches is_tail (truncate_bytes t max_component_bytes))
    else ok t

abbrev pub is_nothing : Text → Bool
is_nothing t = text_eq t [] || text_eq t (txt ".") || text_eq t (txt "..")

unfoldable pub name_of : Text → Result Text
name_of trimmed = if is_nothing trimmed then err empty else cut (unreserved trimmed)

-- Numbers of volumes and chapters are `f32`, of which the code uses `fract().abs() < EPSILON`,
-- `trunc() as i64` and the decimal form that `format!` writes.
pub record Float (F : Type 0) : Type 0 where
  pub is_whole : F → Bool
  pub as_i64 : F → ℤ
  pub display : F → Text

abbrev pub zeros : ℕ → Text
zeros zero = []
zeros (suc n) = b'0' ∷ zeros n

-- `{:0width$}` of an `i64`
unfoldable pub zero_padded : ℕ → ℤ → Text
zero_padded width (pos n) = zeros (width - length (decimal n)) ++ decimal n
zero_padded width (negsuc n) =
    b'-' ∷ (zeros (width - 1 - length (decimal (suc n))) ++ decimal (suc n))

-- `split('.').nth(1)`
unfoldable pub after_dot : Text → Option Text
after_dot [] = none
after_dot (c ∷ cs) = let rest = after_dot cs in if c == b'.' then some (stem cs) else rest

abbrev pub tail_or_zero : Option Text → Text
tail_or_zero none = txt "0"
tail_or_zero (some t) = t

unfoldable pub pad_number : {F : Type 0} → Float F → F → ℕ → Text
unfolding zero_padded after_dot stem
pad_number f value width =
    if f.is_whole value
    then zero_padded width (f.as_i64 value)
    else zero_padded width (f.as_i64 value) ++ (b'.' ∷ tail_or_zero (after_dot (f.display value)))

abbrev pub marked : {F : Type 0} → Float F → Text → Option F → ℕ → Text
marked f mark none width = []
marked f mark (some v) width = mark ++ pad_number f v width

-- `nfc` is the normal form of the crate unicode-normalization.
module _ (nfc : Text → Text) where
  unfoldable pub sanitize_component : Text → Result Text
  sanitize_component input = name_of (trim_matches is_edge (collapse (scrub (nfc input))))

  unfoldable pub series_dir : Text → Option Text → Result Text
  series_dir title none = sanitize_component title
  series_dir title (some disambiguator) = do
    base ← sanitize_component title
    slug ← sanitize_component disambiguator
    sanitize_component (base ++ (txt " [" ++ (slug ++ txt "]")))

  unfoldable pub chapter_stem : {F : Type 0} → Float F → Text → Option F → Option F → Result Text
  chapter_stem f series volume number = do
    name ← sanitize_component series
    sanitize_component (name ++ (marked f (txt " v") volume 2 ++ marked f (txt " c") number 3))
