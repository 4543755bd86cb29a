-- ===== src/Jobs/Handlers/Reconcile/Missing.antt =====
-- A record is forgotten only where its file was looked for and not found, the root being readable.
use nyuka.Common.{
  ℕ, zero, suc, Bool, true, false, Text, Option, none, some, List, [], ◌∷◌, ◌≡◌, inl, inr, refl, ap,
  ◌∙◌, All-append,
}
use nyuka.Domain.Errors.{Result, ok, err}
use nyuka.Domain.Library.{Page, Manga, Chapter, DownloadedChapter}
use nyuka.Jobs.Queue.{Job}
use nyuka.Jobs.Handlers.{
  Ports, History, call, lift, listed_manga, listed_chapters, downloaded, forgot, exists, free_bytes,
}
use nyuka.Jobs.Handlers.Outcome.{err-ne-ok, >>=-cases}
use nyuka.Jobs.Handlers.Reconcile.{
  Reconciled, Verdict, Looping, default, judge, push, unreadable, after_page, if_done, look,
  missing_download, scan, forget, chapter_page, reconcile_manga, reconcile_all, reconcile_pages,
  root_is_read, handle,
}
use nyuka.Jobs.Handlers.Reconcile.Evidence.{
  IsMissing, looked, IsRead, read, ForgetsMissing, Good, Found, quiet, quiet-Found, After, After-ok,
  After-err, After-bind, After-call,
}

module _ (ports : Ports) where
  abbrev Extends : List ℕ → Verdict → History → Type 0
  Extends ids v h = Found ports (push v.0 ids) h

  push-judge :
      (ids : List ℕ) (id : ℕ) (report : Reconciled) (there : Bool) (h : History)
      → Found ports ids h
      → (there ≡ false → IsMissing ports id h)
      → Found ports (push (judge id report there).0 ids) h
  unfolding push judge
  push-judge ids id report true h f m = f
  push-judge ids id report false h f m = record {
    good = f.good;
    all = All-append (λ i. IsMissing ports i h) ids (id ∷ []) f.all (m refl, tt);
  }

  look-After :
      (ids : List ℕ) (id : ℕ) (report : Reconciled) (found : Option DownloadedChapter) (h : History)
      → ports.find_download h id ≡ ok found
      → Found ports ids h
      → After ports (Extends ids) (look ports id report found (downloaded id ∷ h))
  unfolding look push
  look-After ids id report none h e f =
      let f1 = quiet-Found ports (downloaded id) ids h (λ p. p) f in
      After-ok ports (Extends ids) (none, report) (downloaded id ∷ h) f1.good f1
  look-After ids id report (some d) h e f =
      let f1 = quiet-Found ports (downloaded id) ids h (λ p. p) f in
      let f2 = quiet-Found ports (exists d.relative_path) ids (downloaded id ∷ h) (λ p. p) f1 in
      After-bind ports (λ there g. Found ports ids g × (there ≡ false → IsMissing ports id g))
        (Extends ids) (call (exists d.relative_path) (λ g. ports.file_exists g d.relative_path))
        (λ there. lift (ok (judge id report there))) (downloaded id ∷ h)
        (After-call ports _ (exists d.relative_path) (λ g. ports.file_exists g d.relative_path)
          (downloaded id ∷ h) f2.good
          (λ there answer. (f2, λ gone. looked d e (answer ∙ ap ok gone))))
        (λ there g good k.
          After-ok ports (Extends ids) (judge id report there) g good
            (push-judge ids id report there g k.0 k.1))

  missing_download-After :
      (ids : List ℕ) (c : Chapter) (report : Reconciled) (h : History)
      → Found ports ids h
      → After ports (Extends ids) (missing_download ports c report h)
  unfolding missing_download call
  missing_download-After ids c report h f =
      elim (>>=-cases (call (downloaded c.id) (λ g. ports.find_download g c.id))
        (look ports c.id report) h) [
          | inl (e, failed, step) ↦ rw step (
              After-err ports (Extends ids) e (downloaded c.id ∷ h)
                (quiet-Found ports (downloaded c.id) ids h (λ p. p) f).good)
          | inr (found, answer, step) ↦ rw step (look-After ids c.id report found h answer f)
        ]

  scan-After :
      (cs : List Chapter) (report : Reconciled) (ids : List ℕ) (h : History)
      → Found ports ids h
      → After ports (λ s g. Found ports s.1 g) (scan ports cs report ids h)
  unfolding scan
  scan-After [] report ids h f = After-ok ports (λ s g. Found ports s.1 g) (report, ids) h f.good f
  scan-After (c ∷ cs) report ids h f =
      After-bind ports (Extends ids) (λ s g. Found ports s.1 g) (missing_download ports c report)
        (λ v. scan ports cs v.1 (push v.0 ids)) h (missing_download-After ids c report h f)
        (λ v g good k. scan-After cs v.1 (push v.0 ids) g k)

  abbrev Nothing : {A : Type 0} → A → History → Type 0
  Nothing a h = Unit

  forget-After :
      (s : Reconciled × List ℕ) (h : History)
      → Found ports s.1 h
      → After ports Nothing (forget ports s h)
  unfolding forget
  forget-After s h f =
      let after : Good ports (forgot s.1 ∷ h) = record {
        forgets = (f.all, f.good.root, f.good.forgets);
        root = IsRead.earlier (forgot s.1) f.good.root;
      } in
      After-bind ports Nothing Nothing (call (forgot s.1) (λ g. ports.forget_downloads g s.1)) _ h
        (After-call ports Nothing (forgot s.1) (λ g. ports.forget_downloads g s.1) h after
          (λ n e. tt))
        (λ n g good k. After-ok ports Nothing _ g good tt)

  chapter_page-After :
      (report : Reconciled) (page : Page Chapter) (h : History)
      → Good ports h
      → After ports Nothing (chapter_page ports report page h)
  unfolding chapter_page
  chapter_page-After report page h g =
      After-bind ports (λ s g. Found ports s.1 g) Nothing (scan ports page.items report [])
        (forget ports) h (scan-After page.items report [] h (record { good = g; all = tt }))
        (λ s g good k. forget-After s g k)

  after_page-After :
      (next : Option Text) (report : Reconciled) (more : Text → Looping) (h : History)
      → Good ports h
      → ((n : Text) → After ports Nothing (more n h))
      → After ports Nothing (after_page next report more h)
  unfolding after_page
  after_page-After none report more h g k = After-ok ports Nothing (some report) h g tt
  after_page-After (some n) report more h g k = k n

  if_done-After :
      (r : Option Reconciled) (more : Reconciled → Looping) (h : History)
      → Good ports h
      → ((report : Reconciled) → After ports Nothing (more report h))
      → After ports Nothing (if_done r more h)
  unfolding if_done
  if_done-After none more h g k = After-ok ports Nothing none h g tt
  if_done-After (some report) more h g k = k report

  reconcile_manga-After :
      (fuel id : ℕ) (cursor : Option Text) (report : Reconciled) (h : History)
      → Good ports h
      → After ports Nothing (reconcile_manga ports fuel id cursor report h)
  unfolding reconcile_manga
  reconcile_manga-After zero id cursor report h g = After-ok ports Nothing none h g tt
  reconcile_manga-After (suc fuel) id cursor report h g =
      After-bind ports Nothing Nothing
        (call (listed_chapters id cursor) (λ k. ports.list_chapters k id cursor)) _ h
        (After-call ports Nothing (listed_chapters id cursor) _ h
          (quiet ports (listed_chapters id cursor) h (λ p. p) g) (λ a e. tt))
        (λ page g1 good1 k.
          After-bind ports Nothing Nothing (chapter_page ports report page) _ g1
            (chapter_page-After report page g1 good1)
            (λ report' g2 good2 k2.
              after_page-After page.next report' _ g2 good2
                (λ next. reconcile_manga-After fuel id (some next) report' g2 good2)))

  reconcile_all-After :
      (fuel : ℕ) (ms : List Manga) (report : Reconciled) (h : History)
      → Good ports h
      → After ports Nothing (reconcile_all ports fuel ms report h)
  unfolding reconcile_all
  reconcile_all-After fuel [] report h g = After-ok ports Nothing (some report) h g tt
  reconcile_all-After fuel (m ∷ ms) report h g =
      After-bind ports Nothing Nothing (reconcile_manga ports fuel m.id none report) _ h
        (reconcile_manga-After fuel m.id none report h g)
        (λ r g1 good1 k.
          if_done-After r _ g1 good1 (λ report'. reconcile_all-After fuel ms report' g1 good1))

  reconcile_pages-After :
      (fuel rounds : ℕ) (cursor : Option Text) (report : Reconciled) (h : History)
      → Good ports h
      → After ports Nothing (reconcile_pages ports fuel rounds cursor report h)
  unfolding reconcile_pages
  reconcile_pages-After fuel zero cursor report h g = After-ok ports Nothing none h g tt
  reconcile_pages-After fuel (suc rounds) cursor report h g =
      After-bind ports Nothing Nothing (call (listed_manga cursor) (λ k. ports.list_manga k cursor))
        _ h
        (After-call ports Nothing (listed_manga cursor) _ h
          (quiet ports (listed_manga cursor) h (λ p. p) g) (λ a e. tt))
        (λ page g1 good1 k.
          After-bind ports Nothing Nothing (reconcile_all ports fuel page.items report) _ g1
            (reconcile_all-After fuel page.items report g1 good1)
            (λ r g2 good2 k2. if_done-After r _ g2 good2 (λ report'.
              after_page-After page.next report' _ g2 good2
                (λ next. reconcile_pages-After fuel rounds (some next) report' g2 good2))))

  unreadable-ok : (r : Result ℕ) (n : ℕ) → unreadable r ≡ ok n → r ≡ ok n
  unfolding unreadable
  unreadable-ok (ok m) n e = e
  unreadable-ok (err x) n e = absurd (err-ne-ok e)

  -- However a pass over the library ends, each chapter that it told the repository to forget had a
  -- download record whose file the library, asked then, did not have, and this after the root of the
  -- library answered how much space it has: with an unreadable root nothing is forgotten.
  pub handle-ForgetsMissing :
      (fuel : ℕ) (job : Job) (h : History)
      → ForgetsMissing ports h
      → ForgetsMissing ports (handle ports fuel job h).1
  unfolding handle root_is_read call
  handle-ForgetsMissing fuel job h p =
      elim (>>=-cases (root_is_read ports) (λ n. reconcile_pages ports fuel fuel none default) h) [
        | inl (e, failed, step) ↦ rw step p
        | inr (n, answer, step) ↦
            let good : Good ports (free_bytes ∷ h) = record {
              forgets = p;
              root = read n (unreadable-ok (ports.free_space h) n answer);
            } in
            rw step
              (reconcile_pages-After fuel fuel none default (free_bytes ∷ h) good).ends_well.forgets
      ]
