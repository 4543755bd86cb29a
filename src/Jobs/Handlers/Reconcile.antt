-- ===== src/Jobs/Handlers/Reconcile.antt =====
-- crates/jobs/src/handlers/maintenance.rs: `ReconcileLibrary`. Each loop over pages has `fuel` rounds
-- at most, and returns `none` where they run out.
pub mod Evidence
pub mod Missing
pub mod Ends
use nyuka.Common.{
  ℕ, zero, suc, ◌+◌, Bool, true, false, Text, txt, Option, none, some, List, [], ◌∷◌, ◌++◌,
}
use nyuka.Domain.Errors.{storage, error_text, Result, ok, err}
use nyuka.Domain.Library.{Page, Manga, Chapter, DownloadedChapter}
use nyuka.Jobs.Queue.{Job}
use nyuka.Jobs.Handlers.{
  Ports, History, call, lift, ◌>>=◌, ◌>>◌, listed_manga, listed_chapters, downloaded, forgot,
  exists, free_bytes,
}

pub record Reconciled : Type 0 where
  pub checked : ℕ
  pub missing : ℕ
  pub forgotten : ℕ

abbrev pub default : Reconciled
default = record { checked = 0; missing = 0; forgotten = 0 }

-- The identifier where the file is gone, and the report.
abbrev pub Verdict : Type 0
Verdict = Option ℕ × Reconciled

unfoldable pub judge : ℕ → Reconciled → Bool → Verdict
judge id report true = (none, record report { checked = report.checked + 1 })
judge id report false =
    (some id, record report { checked = report.checked + 1; missing = report.missing + 1 })

unfoldable pub push : Option ℕ → List ℕ → List ℕ
push none missing = missing
push (some id) missing = missing ++ (id ∷ [])

-- `map_err` on `free_bytes`
unfoldable pub unreadable : Result ℕ → Result ℕ
unreadable (ok n) = ok n
unreadable (err e) = err (
    storage
      (txt "library root is unreadable, so nothing can be declared missing: " ++ error_text e))

abbrev pub Looping : Type 0
Looping = History → Result (Option Reconciled) × History

-- `match page.next`
unfoldable pub after_page :
    Option Text → Reconciled → (Text → Looping) → History → Result (Option Reconciled) × History
after_page none report more = lift (ok (some report))
after_page (some next) report more = more next

-- Rounds that ran out inside run out outside.
unfoldable pub if_done :
    Option Reconciled → (Reconciled → Looping) → History → Result (Option Reconciled) × History
if_done none more = lift (ok none)
if_done (some report) more = more report

module _ (ports : Ports) where
  unfoldable pub look :
      ℕ → Reconciled → Option DownloadedChapter → History → Result Verdict × History
  look id report none = lift (ok (none, report))
  look id report (some d) =
      call (exists d.relative_path) (λ h. ports.file_exists h d.relative_path) >>= λ there.
      lift (ok (judge id report there))

  unfoldable pub missing_download : Chapter → Reconciled → History → Result Verdict × History
  missing_download chapter report =
      call (downloaded chapter.id) (λ h. ports.find_download h chapter.id)
      >>= look chapter.id report

  -- `for chapter in &page.items`
  unfoldable pub scan :
      List Chapter → Reconciled → List ℕ → History → Result (Reconciled × List ℕ) × History
  scan [] report missing = lift (ok (report, missing))
  scan (c ∷ cs) report missing = missing_download c report >>= λ v. scan cs v.1 (push v.0 missing)

  unfoldable pub forget : Reconciled × List ℕ → History → Result Reconciled × History
  forget s = call (forgot s.1) (λ h. ports.forget_downloads h s.1) >>= λ n.
      lift (ok (record s.0 { forgotten = s.0.forgotten + n }))

  unfoldable pub chapter_page : Reconciled → Page Chapter → History → Result Reconciled × History
  chapter_page report page = scan page.items report [] >>= forget

  unfoldable pub reconcile_manga :
      ℕ → ℕ → Option Text → Reconciled → History → Result (Option Reconciled) × History
  reconcile_manga zero id cursor report = lift (ok none)
  reconcile_manga (suc fuel) id cursor report =
      call (listed_chapters id cursor) (λ h. ports.list_chapters h id cursor) >>= λ page.
      chapter_page report page >>= λ report'.
      after_page page.next report' (λ next. reconcile_manga fuel id (some next) report')

  -- `for manga in &page.items`
  unfoldable pub reconcile_all :
      ℕ → List Manga → Reconciled → History → Result (Option Reconciled) × History
  reconcile_all fuel [] report = lift (ok (some report))
  reconcile_all fuel (m ∷ ms) report = reconcile_manga fuel m.id none report >>= λ r.
      if_done r (λ report'. reconcile_all fuel ms report')

  unfoldable pub reconcile_pages :
      ℕ → ℕ → Option Text → Reconciled → History → Result (Option Reconciled) × History
  reconcile_pages fuel zero cursor report = lift (ok none)
  reconcile_pages fuel (suc rounds) cursor report =
      call (listed_manga cursor) (λ h. ports.list_manga h cursor) >>= λ page.
      reconcile_all fuel page.items report >>= λ r. if_done r (λ report'.
        after_page page.next report' (λ next. reconcile_pages fuel rounds (some next) report'))

  unfoldable pub root_is_read : History → Result ℕ × History
  root_is_read = call free_bytes (λ h. unreadable (ports.free_space h))

  -- `handle`; the report is what it logs.
  unfoldable pub handle : ℕ → Job → History → Result (Option Reconciled) × History
  handle fuel job = root_is_read >> reconcile_pages fuel fuel none default
