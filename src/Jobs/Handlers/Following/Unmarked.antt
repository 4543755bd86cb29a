-- ===== src/Jobs/Handlers/Following/Unmarked.antt =====
-- Refreshing and queueing mark no follow as checked.
use nyuka.Common.{ℕ, suc, Bool, Option, none, some, List, [], ◌∷◌, ◌≡◌}
use nyuka.Domain.Errors.{ok}
use nyuka.Domain.Library.{SourceManga, SourceChapter, Manga}
use nyuka.Jobs.Worker.{chapter_new}
use nyuka.Jobs.Handlers.{
  Ports, History, call, got_manga, upserted_chapters, asked_details, asked_chapters, marked_checked,
}
use nyuka.Jobs.Handlers.Outcome.{
  Keeps, Keeps-lift, Keeps-if, Keeps-call, Keeps-with_permit, Keeps-bind, Keeps-publish,
}
use nyuka.Jobs.Handlers.Following.{
  announce, chapters_of, source_report, upsert_merged, upsert_announced, refresh, queue_download,
  queue_downloads, queue_if,
}
use nyuka.Jobs.Handlers.Following.Queued.{queued_download}

abbrev pub marks : History → ℕ
marks [] = 0
marks (marked_checked id ∷ h) = suc (marks h)
marks (other ∷ h) = marks h

module _ (ports : Ports) where
  -- So many follows were marked.
  abbrev pub Marked : ℕ → History → Type 0
  Marked n h = marks h ≡ n

  announce-Marked : (n manga_id : ℕ) (ids : List ℕ) → Keeps (Marked n) (announce manga_id ids)
  unfolding announce
  announce-Marked n manga_id [] = Keeps-lift (ok tt)
  announce-Marked n manga_id (id ∷ ids) =
      Keeps-bind _ _ (Keeps-publish (chapter_new manga_id id) (λ h p. p))
        (λ u. announce-Marked n manga_id ids)

  chapters_of-Marked :
      (n : ℕ) (m : Manga) (cs : Option (List SourceChapter))
      → Keeps (Marked n) (chapters_of ports m cs)
  unfolding chapters_of
  chapters_of-Marked n m none = Keeps-call (asked_chapters m.source_id m.external_key) _ (λ h p. p)
  chapters_of-Marked n m (some cs) = Keeps-lift (ok cs)

  source_report-Marked : (n : ℕ) (m : Manga) → Keeps (Marked n) (source_report ports m)
  unfolding source_report
  source_report-Marked n m =
      Keeps-with_permit m.source_id _ (λ h p. p) (λ h p. p)
        (Keeps-bind _ _ (Keeps-call (asked_details m.source_id m.external_key) _ (λ h p. p))
          (λ d. Keeps-bind _ _ (chapters_of-Marked n m d.chapters) (λ cs. Keeps-lift _)))

  upsert_merged-Marked :
      (n : ℕ) (m : Manga) (d : SourceManga) → Keeps (Marked n) (upsert_merged ports m d)
  unfolding upsert_merged call
  upsert_merged-Marked n m d = record { at = λ h p. p }

  upsert_announced-Marked :
      (n manga_id : ℕ) (cs : List SourceChapter)
      → Keeps (Marked n) (upsert_announced ports manga_id cs)
  unfolding upsert_announced
  upsert_announced-Marked n manga_id cs =
      Keeps-bind _ _ (Keeps-call (upserted_chapters manga_id cs) _ (λ h p. p))
        (λ new. Keeps-bind _ _ (announce-Marked n manga_id new) (λ u. Keeps-lift (ok new)))

  pub refresh-Marked : (n manga_id : ℕ) → Keeps (Marked n) (refresh ports manga_id)
  unfolding refresh
  refresh-Marked n manga_id = Keeps-bind _ _ (Keeps-call (got_manga manga_id) _ (λ h p. p)) (λ m.
      Keeps-bind _ _ (source_report-Marked n m) (λ r.
        Keeps-bind _ _ (upsert_merged-Marked n m r.0)
          (λ id. upsert_announced-Marked n manga_id r.1)))

  queue_downloads-Marked : (n : ℕ) (ids : List ℕ) → Keeps (Marked n) (queue_downloads ports ids)
  unfolding queue_downloads queue_download
  queue_downloads-Marked n [] = Keeps-lift (ok tt)
  queue_downloads-Marked n (id ∷ ids) =
      Keeps-bind _ _ (Keeps-call (queued_download ports id) _ (λ h p. p))
        (λ u. queue_downloads-Marked n ids)

  pub queue_if-Marked :
      (n : ℕ) (auto : Bool) (ids : List ℕ) → Keeps (Marked n) (queue_if ports auto ids)
  unfolding queue_if
  queue_if-Marked n auto [] = Keeps-lift (ok tt)
  queue_if-Marked n auto (id ∷ ids) =
      Keeps-if auto _ _ (queue_downloads-Marked n (id ∷ ids)) (Keeps-lift _)
