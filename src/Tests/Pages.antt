-- ===== src/Tests/Pages.antt =====
-- The repository's pages at concrete tables.
use nyuka.Common.{
  ℕ, zero, suc, ◌<◌, ◌==◌, Text, Option, none, some, List, [], ◌∷◌, ◌≡◌, ◌⊎◌, inl, refl, arith,
  find, Member, here, there,
}
use nyuka.Domain.Errors.{DomainError, Result, ok, err}
use nyuka.Domain.Library.{Page, Manga, Chapter}
use nyuka.Jobs.Handlers.{Ports}
use nyuka.Jobs.Handlers.Reconcile
use nyuka.Jobs.Handlers.Reconcile.{Reconciled}
use nyuka.Jobs.Handlers.Reconcile.Ends.{IsServed, handle-ends}
use nyuka.Persistence.Pages.{
  Values, Listing, all_manga, chapters_of, list_manga, list_chapters, parse_cursor, rows_after,
  order_by, insert_by, page_of,
}
use nyuka.Persistence.Pages.Falling.{IsKeyed}
use nyuka.Tests.Handlers.{series, chapter, ports, reconcile_job}

abbrev first_of : Text → Option ℕ
first_of [] = none
first_of (c ∷ cs) = some c

abbrev values : Values
values = record { parse_uuid = first_of; uuid_text = λ id. id ∷ []; place = λ bits. bits }

-- So many rows with the ids below that number.
abbrev shelf : {A : Type 0} → (ℕ → A) → ℕ → List A
shelf f zero = []
shelf f (suc n) = f n ∷ shelf f n

module _ {A : Type 0} (s : Listing A) (f : ℕ → A) (named : (n : ℕ) → s.id_of (f n) ≡ n) where
  on_shelf : (n : ℕ) (r : A) → Member r (shelf f n) → s.id_of r < n
  on_shelf zero r m = elim m [ ]
  on_shelf (suc n) r here = omega (arith, named n)
  on_shelf (suc n) r (there m) = omega (arith, on_shelf n r m)

  found :
      (n : ℕ) (r : A)
      → Member r (shelf f n)
      → find (λ x. s.id_of x == s.id_of r) (shelf f n) ≡ some r
  found zero r m = elim m [ ]
  found (suc n) r here = ground arith
  found (suc n) r (there m) = ground (arith, named n, on_shelf n r m, found n r m)

  shelf-IsKeyed : (n : ℕ) → IsKeyed s (shelf f n)
  shelf-IsKeyed n = record { by_id = found n }

abbrev many_series : List Manga
many_series = shelf (λ n. record series { id = n }) 60

abbrev many_chapters : List Chapter
many_chapters = shelf (λ n. record chapter { id = n; number = some n }) 60

abbrev stocked : Ports
stocked = record ports {
  list_manga = λ h c. list_manga values many_series c;
  list_chapters = λ h id c. list_chapters values many_chapters id c;
}

stocked-IsServed : IsServed stocked values many_series many_chapters
stocked-IsServed = record { manga_pages = λ h c. inl refl; chapter_pages = λ h id c. inl refl }

next_of : {A : Type 0} → Result (Page A) → Option Text
next_of (ok page) = page.next
next_of (err e) = none

-- The first page ends with the row 10, and a second one follows.
second_page : next_of (list_chapters values many_chapters 1 none) ≡ some (10 ∷ [])
unfolding next_of list_chapters parse_cursor rows_after order_by insert_by page_of
second_page = refl

handle-ends_example :
    ((report : Reconciled) × ((Reconcile.handle stocked 70 reconcile_job []).0 ≡ ok (some report)))
    ⊎ ((e : DomainError) × ((Reconcile.handle stocked 70 reconcile_job []).0 ≡ err e))
handle-ends_example =
    handle-ends stocked values many_series many_chapters stocked-IsServed
      (shelf-IsKeyed all_manga (λ n. record series { id = n }) (λ n. refl) 60)
      (shelf-IsKeyed (chapters_of values 0) (λ n. record chapter { id = n; number = some n })
        (λ n. refl) 60)
      (λ id. refl) 70 reconcile_job [] (omega arith) (omega arith)
