-- ===== src/Persistence/Pages.antt =====
-- crates/persistence/src/repository.rs: `list_manga` and `list_chapters`, whose statements page by the
-- last row of the page before. A table is the list of its rows.
pub mod Falling
use nyuka.Common.{
  ℕ, ◌+◌, Bool, true, false, ◌&&◌, ◌||◌, Text, txt, Option, none, some, List, [], ◌∷◌, ◌++◌, ◌==◌,
  ltb, length, take, keep, find, get_last?, unwrap_or, if◌then◌else◌,
}
use nyuka.Domain.Errors.{invalid, Result, ok, err}
use nyuka.Domain.Library.{Page, Manga, Chapter}

abbrev pub page_size : ℕ
page_size = 50

-- `Uuid`'s parser and its text, and the place of an `f32` in PostgreSQL's order of `REAL`.
pub record Values : Type 0 where
  pub parse_uuid : Text → Option ℕ
  pub uuid_text : ℕ → Text
  pub place : ℕ → ℕ

-- `parse_cursor`
abbrev pub uuid_or : Text → Option ℕ → Result (Option ℕ)
uuid_or what none = err (invalid (txt "cursor is not a " ++ (what ++ txt " id")))
uuid_or what (some id) = ok (some id)

unfoldable pub parse_cursor : Values → Option Text → Text → Result (Option ℕ)
parse_cursor v none what = ok none
parse_cursor v (some c) what = uuid_or what (v.parse_uuid c)

-- What a statement selects by: the rows that it is about, which of them stand below another, the order,
-- and the id of a row.
pub record Listing (A : Type 0) : Type 0 where
  pub concerns : A → Bool
  pub below : A → A → Bool
  pub first : A → A → Bool
  pub id_of : A → ℕ

module _ {A : Type 0} (s : Listing A) where
  -- `ORDER BY`
  unfoldable pub insert_by : A → List A → List A
  insert_by r [] = r ∷ []
  insert_by r (x ∷ xs) = let rest = x ∷ insert_by r xs in if s.first r x then r ∷ x ∷ xs else rest

  unfoldable pub order_by : List A → List A
  order_by [] = []
  order_by (r ∷ rows) = insert_by r (order_by rows)

  -- `WHERE … < (SELECT … WHERE id = $n)`: nothing is below a row that is not there.
  abbrev pub rows_below : Option A → List A → List A
  rows_below none table = []
  rows_below (some c) table = keep (λ r. s.concerns r && s.below r c) table

  unfoldable pub rows_after : Option ℕ → List A → List A
  rows_after none table = keep s.concerns table
  rows_after (some id) table = rows_below (find (λ r. s.id_of r == id) table) table

  abbrev pub cursor_of : Values → Option A → Option Text
  cursor_of v none = none
  cursor_of v (some r) = some (v.uuid_text (s.id_of r))

  unfoldable pub page_of : Values → List A → Page A
  page_of v rows =
      let items = take page_size rows in
      record {
        items = items;
        next = if ltb page_size (length rows) then cursor_of v (get_last? items) else none;
      }

  abbrev pub answer : Values → List A → Result (Option ℕ) → Result (Page A)
  answer v table (err e) = err e
  answer v table (ok after) =
      ok (page_of v (take (page_size + 1) (order_by (rows_after after table))))

-- `(created_at, id) < …`
abbrev pub older : Manga → Manga → Bool
older m n = ltb m.created_at n.created_at || (m.created_at == n.created_at && ltb m.id n.id)

abbrev pub all_manga : Listing Manga
all_manga = record {
  concerns = λ m. true;
  below = older;
  first = λ m n. older n m;
  id_of = λ m. m.id;
}

unfoldable pub list_manga : Values → List Manga → Option Text → Result (Page Manga)
list_manga v table cursor = answer all_manga v table (parse_cursor v cursor (txt "manga"))

-- `(number, id) < …`, which is not true where the number is NULL; that of the cursor is then zero.
abbrev pub numbered_below : Values → Option ℕ → ℕ → Chapter → Bool
numbered_below v none id c = false
numbered_below v (some n) id c =
    let zero_or = v.place (unwrap_or c.number 0) in
    ltb (v.place n) zero_or || (v.place n == zero_or && ltb id c.id)

-- `number DESC NULLS LAST, id DESC`
abbrev pub newer : Values → Option ℕ → Option ℕ → ℕ → ℕ → Bool
newer v none none i j = ltb j i
newer v none (some n) i j = false
newer v (some m) none i j = true
newer v (some m) (some n) i j = ltb (v.place n) (v.place m) || (v.place n == v.place m && ltb j i)

abbrev pub chapters_of : Values → ℕ → Listing Chapter
chapters_of v manga_id = record {
  concerns = λ c. c.manga_id == manga_id;
  below = λ c d. numbered_below v c.number c.id d;
  first = λ c d. newer v c.number d.number c.id d.id;
  id_of = λ c. c.id;
}

unfoldable pub list_chapters : Values → List Chapter → ℕ → Option Text → Result (Page Chapter)
list_chapters v table manga_id cursor =
    answer (chapters_of v manga_id) v table (parse_cursor v cursor (txt "chapter"))
