-- ===== src/Jobs/Handlers/Reconcile/Ends.antt =====
-- The loops over pages end: of the rows of the repository fewer are left with every page.
use nyuka.Common.{
  sym, txt, true, false, ltb, ◌==◌, ◌||◌, ◌&&◌, unwrap_or, length, Option-cases, ℕ, zero, suc, ◌<◌,
  Text, Option, none, some, List, [], ◌∷◌, ◌≡◌, ◌≢◌, ◌⊎◌, inl, inr, refl, ap, ◌∙◌, arith,
}
use nyuka.Domain.Errors.{DomainError, Result, ok, err}
use nyuka.Domain.Library.{Page, Manga, Chapter}
use nyuka.Persistence.Pages.{
  Values, all_manga, chapters_of, list_manga, list_chapters, numbered_below,
}
use nyuka.Persistence.Pages.Falling.{IsKeyed, IsOrder, rows_left, answer-falls}
use nyuka.Jobs.Queue.{Job}
use nyuka.Jobs.Handlers.{Ports, History, call, listed_manga, listed_chapters}
use nyuka.Jobs.Handlers.Outcome.{err-ne-ok, ok-injective, >>=-ok}
use nyuka.Jobs.Handlers.Reconcile.{
  Reconciled, Looping, default, after_page, if_done, chapter_page, reconcile_manga, reconcile_all,
  reconcile_pages, root_is_read, handle,
}

some-ne-none {ℓ} : {A : Type ℓ} {a : A} → some a ≡ none → ⊥
some-ne-none h = cc

after_page-ends :
    (next : Option Text) (report : Reconciled) (more : Text → Looping) (h : History)
    → ((n : Text) → next ≡ some n → (more n h).0 ≢ ok none)
    → (after_page next report more h).0 ≢ ok none
unfolding after_page
after_page-ends none report more h ends e = some-ne-none (ok-injective e)
after_page-ends (some n) report more h ends e = ends n refl e

if_done-ends :
    (r : Option Reconciled) (more : Reconciled → Looping) (h : History)
    → r ≢ none
    → ((report : Reconciled) → (more report h).0 ≢ ok none)
    → (if_done r more h).0 ≢ ok none
unfolding if_done
if_done-ends none more h done ends e = done refl
if_done-ends (some report) more h done ends e = ends report e

-- The cursor of a page leaves fewer rows than the page was asked with.
record Advances (ports : Ports) (chapters_left manga_left : Option Text → ℕ) : Type 0 where
  chapters_fall :
      (h : History) (id : ℕ) (cursor : Option Text) (page : Page Chapter) (next : Text)
      → ports.list_chapters h id cursor ≡ ok page
      → page.next ≡ some next
      → chapters_left (some next) < chapters_left cursor
  manga_fall :
      (h : History) (cursor : Option Text) (page : Page Manga) (next : Text)
      → ports.list_manga h cursor ≡ ok page
      → page.next ≡ some next
      → manga_left (some next) < manga_left cursor

module _ (ports : Ports) (chapters_left manga_left : Option Text → ℕ)
    (advances : Advances ports chapters_left manga_left) where
  reconcile_manga-ends :
      (fuel id : ℕ) (cursor : Option Text) (report : Reconciled) (h : History)
      → chapters_left cursor < fuel
      → (reconcile_manga ports fuel id cursor report h).0 ≢ ok none
  unfolding reconcile_manga call
  reconcile_manga-ends zero id cursor report h enough e = absurd (omega arith)
  reconcile_manga-ends (suc fuel) id cursor report h enough e =
      let (page, listed, step, more) = >>=-ok (call (listed_chapters id cursor) _) _ h none e in
      let h1 = listed_chapters id cursor ∷ h in
      let (report', scanned, step', last) =
        >>=-ok (chapter_page ports report page) _ h1 none more in
      after_page-ends page.next report' _ _
        (λ next last_of.
          reconcile_manga-ends fuel id (some next) report' _
            (omega (arith, advances.chapters_fall h id cursor page next listed last_of)))
        last

  reconcile_all-ends :
      (fuel : ℕ) (ms : List Manga) (report : Reconciled) (h : History)
      → chapters_left none < fuel
      → (reconcile_all ports fuel ms report h).0 ≢ ok none
  unfolding reconcile_all
  reconcile_all-ends fuel [] report h enough e = some-ne-none (ok-injective e)
  reconcile_all-ends fuel (m ∷ ms) report h enough e =
      let (r, done, step, more) = >>=-ok (reconcile_manga ports fuel m.id none report) _ h none e in
      if_done-ends r _ _
        (λ out. reconcile_manga-ends fuel m.id none report h enough (done ∙ ap ok out))
        (λ report'. reconcile_all-ends fuel ms report' _ enough) more

  reconcile_pages-ends :
      (fuel rounds : ℕ) (cursor : Option Text) (report : Reconciled) (h : History)
      → chapters_left none < fuel
      → manga_left cursor < rounds
      → (reconcile_pages ports fuel rounds cursor report h).0 ≢ ok none
  unfolding reconcile_pages call
  reconcile_pages-ends fuel zero cursor report h enough few e = absurd (omega arith)
  reconcile_pages-ends fuel (suc rounds) cursor report h enough few e =
      let (page, listed, step, more) = >>=-ok (call (listed_manga cursor) _) _ h none e in
      let h1 = listed_manga cursor ∷ h in
      let (r, done, step', last) =
        >>=-ok (reconcile_all ports fuel page.items report) _ h1 none more in
      if_done-ends r _ _
        (λ out. reconcile_all-ends fuel page.items report h1 enough (done ∙ ap ok out))
        (λ report'. after_page-ends page.next report' _ _ (λ next last_of.
          reconcile_pages-ends fuel rounds (some next) report' _ enough
            (omega (arith, advances.manga_fall h cursor page next listed last_of))))
        last

  ends_within :
      (fuel : ℕ) (job : Job) (h : History)
      → chapters_left none < fuel
      → manga_left none < fuel
      → ((report : Reconciled) × ((handle ports fuel job h).0 ≡ ok (some report)))
        ⊎ ((e : DomainError) × ((handle ports fuel job h).0 ≡ err e))
  unfolding handle
  ends_within fuel job h chapters manga = settle (handle ports fuel job h).0 (λ e.
      let (n, read, step, more) = >>=-ok (root_is_read ports) _ h none e in
      reconcile_pages-ends fuel fuel none default _ chapters manga more)
    where
      settle :
          (r : Result (Option Reconciled))
          → r ≢ ok none
          → ((report : Reconciled) × (r ≡ ok (some report))) ⊎ ((e : DomainError) × (r ≡ err e))
      settle (ok none) ends = absurd (ends refl)
      settle (ok (some report)) ends = inl (report, refl)
      settle (err e) ends = inr (e, refl)

-- The ports list the pages of these tables, as the repositories do, or fail.
pub record IsServed (ports : Ports) (v : Values) (manga : List Manga) (chapters : List Chapter)
    : Type 0 where
  pub manga_pages :
      (h : History) (cursor : Option Text)
      → (ports.list_manga h cursor ≡ list_manga v manga cursor)
        ⊎ ((e : DomainError) × (ports.list_manga h cursor ≡ err e))
  pub chapter_pages :
      (h : History) (id : ℕ) (cursor : Option Text)
      → (ports.list_chapters h id cursor ≡ list_chapters v chapters id cursor)
        ⊎ ((e : DomainError) × (ports.list_chapters h id cursor ≡ err e))

manga-IsOrder : IsOrder all_manga
manga-IsOrder = record { onward = λ a b c h k. ground arith; never_itself = λ a b h. ground arith }

numbered-onward :
    (v : Values) (m : Option ℕ) (i : ℕ) (b c : Chapter)
    → numbered_below v m i b ≡ true
    → numbered_below v b.number b.id c ≡ true
    → numbered_below v m i c ≡ true
numbered-onward v none i b c h k = cc
numbered-onward v (some n) i b c h k = elim (Option-cases b.number) [
  | inl e ↦ absurd (unnumbered (rw e at k))
  | inr (z, e) ↦
      let under : (ltb (v.place n) (v.place z) || (v.place n == v.place z && ltb i b.id)) ≡ true =
        rw e at h in
      let further : (ltb (v.place z) (v.place (unwrap_or c.number 0))
            || (v.place z == v.place (unwrap_or c.number 0) && ltb b.id c.id))
          ≡ true =
        rw e at k in
      ground arith
]
  where
    unnumbered : false ≡ true → ⊥
    unnumbered q = cc

numbered-itself :
    (v : Values) (a b : Chapter)
    → numbered_below v a.number a.id b ≡ true
    → numbered_below v a.number a.id a ≡ false
numbered-itself v a b h = elim (Option-cases a.number) [
  | inl e ↦ rw e refl
  | inr (z, e) ↦ rw e (apart (v.place z))
]
  where
    apart : (p : ℕ) → (ltb p p || (p == p && ltb a.id a.id)) ≡ false
    apart p = ground arith

chapters-IsOrder : (v : Values) (manga_id : ℕ) → IsOrder (chapters_of v manga_id)
chapters-IsOrder v manga_id = record {
  onward = λ a b c. numbered-onward v a.number a.id b c;
  never_itself = λ a b. numbered-itself v a b;
}

module _ (ports : Ports) (v : Values) (manga : List Manga) (chapters : List Chapter)
    (served : IsServed ports v manga chapters) (manga_keyed : IsKeyed all_manga manga)
    (chapters_keyed : IsKeyed (chapters_of v 0) chapters)
    (read : (id : ℕ) → v.parse_uuid (v.uuid_text id) ≡ some id) where
  advances : Advances ports (rows_left (chapters_of v 0) v chapters) (rows_left all_manga v manga)
  unfolding list_manga list_chapters
  advances = record {
    chapters_fall = λ h id cursor page next listed more. elim (served.chapter_pages h id cursor) [
      | inl e ↦
          answer-falls (chapters_of v id) v chapters (record { by_id = chapters_keyed.by_id })
            (chapters-IsOrder v id) read cursor (txt "chapter") page next (sym e ∙ listed) more
      | inr (e, down) ↦ absurd (err-ne-ok (sym down ∙ listed))
    ];
    manga_fall = λ h cursor page next listed more. elim (served.manga_pages h cursor) [
      | inl e ↦
          answer-falls all_manga v manga manga_keyed manga-IsOrder read cursor (txt "manga") page
            next (sym e ∙ listed) more
      | inr (e, down) ↦ absurd (err-ne-ok (sym down ∙ listed))
    ];
  }

  -- Where the ports list the pages of the repository, or fail, and its rows stay while the pass runs,
  -- each with an id of its own that a cursor's text is read back as, the pass over the library ends:
  -- with more rounds than one more than there are rows the loops over the pages never run out of
  -- them, and the pass returns its report or the error of a call.
  pub handle-ends :
      (fuel : ℕ) (job : Job) (h : History)
      → suc (length chapters) < fuel
      → suc (length manga) < fuel
      → ((report : Reconciled) × ((handle ports fuel job h).0 ≡ ok (some report)))
        ⊎ ((e : DomainError) × ((handle ports fuel job h).0 ≡ err e))
  handle-ends fuel job h enough many =
      ends_within ports (rows_left (chapters_of v 0) v chapters) (rows_left all_manga v manga)
        advances fuel job h enough many
