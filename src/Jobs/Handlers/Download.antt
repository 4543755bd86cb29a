-- ===== src/Jobs/Handlers/Download.antt =====
-- crates/jobs/src/handlers/download.rs: `DownloadChapter`.
pub mod Pages
pub mod Recorded
pub mod Complete
use nyuka.Common.{
  ℕ, zero, suc, ◌+◌, ◌*◌, max, min, ltb, Bool, true, false, Text, txt, Option, none, some, List, [],
  ◌∷◌, ◌++◌, length, if◌then◌else◌, ◌%◌,
}
use nyuka.Common.Decimal.{decimal}
use nyuka.Domain.Errors.{DomainError, source, unsupported_capability, Result, ok, err}
use nyuka.Domain.Library.{PageContent, SourcePage, Manga, Chapter, DownloadedChapter, PageRef}
use nyuka.Jobs.Queue.{Job}
use nyuka.Jobs.Worker.{job_progress, chapter_downloaded}
use nyuka.Jobs.Handlers.{
  Ports, History, call, publish, with_permit, lift, ◌>>=◌, ◌>>◌, payload_field, acquired, dropped,
  got_manga, got_chapter, downloaded, recorded, asked_pages, fetched, wrote_chapter, exists,
}

pub record DownloadConfig : Type 0 where
  pub page_concurrency : ℕ
  pub max_pages : ℕ
  pub max_chapter_bytes : ℕ

unfoldable pub default_config : DownloadConfig
default_config = record {
  page_concurrency = 4;
  max_pages = 500;
  max_chapter_bytes = 512 * 1024 * 1024;
}

-- The closure that `to_refs` maps over the pages.
unfoldable pub to_ref : SourcePage → Result PageRef
to_ref page = elim page.content [
  | PageContent.url u headers ↦ ok (record { index = page.index; url = u; headers = headers })
  | PageContent.text t ↦ err (unsupported_capability (txt "text chapters are not packaged yet"))
  | PageContent.zip archive path ↦
      err (unsupported_capability (txt "zip-backed pages are not packaged yet"))
]

abbrev pub cons_ok : Result PageRef → Result (List PageRef) → Result (List PageRef)
cons_ok (err e) rest = err e
cons_ok (ok r) (err e) = err e
cons_ok (ok r) (ok rs) = ok (r ∷ rs)

-- `map(…).collect::<Result<Vec<_>>>()`: the first error wins.
unfoldable pub collect_refs : List SourcePage → Result (List PageRef)
collect_refs [] = ok []
collect_refs (p ∷ ps) = cons_ok (to_ref p) (collect_refs ps)

unfoldable pub to_refs : DownloadConfig → List SourcePage → Result (List PageRef)
to_refs config pages =
    if ltb config.max_pages (length pages)
    then err (
        source
          (txt "chapter lists "
            ++ (decimal (length pages)
                ++ (txt " pages, over the " ++ (decimal config.max_pages ++ txt " page limit"))))
          false)
    else collect_refs pages

abbrev pub Image : Type 0
Image = PageRef × List ℕ

-- Of the pages in flight, the i-th is the next that is answered, and the others keep their order.
unfoldable pub pull : ℕ → PageRef → List PageRef → PageRef × List PageRef
pull zero p ps = (p, ps)
pull (suc i) p [] = (p, [])
pull (suc i) p (q ∷ qs) = let rest = pull i q qs in (rest.0, p ∷ rest.1)

module _ (ports : Ports) (config : DownloadConfig) where
  -- `already_downloaded`
  unfoldable pub file_of : Option DownloadedChapter → History → Result Bool × History
  file_of none = lift (ok false)
  file_of (some d) = call (exists d.relative_path) (λ h. ports.file_exists h d.relative_path)

  unfoldable pub already_downloaded : Chapter → History → Result Bool × History
  already_downloaded chapter =
      call (downloaded chapter.id) (λ h. ports.find_download h chapter.id) >>= file_of

  -- One of the futures: a request is written down when it is answered.
  unfoldable pub fetch_page : ℕ → PageRef → History → Result Image × History
  fetch_page source_id page =
      with_permit source_id
        (call (fetched page) (λ h. ports.fetch h page) >>= λ image. lift (ok (page, image)))

  abbrev pub too_many_bytes : ℕ → DomainError
  too_many_bytes n =
      source
        (txt "chapter exceeded the "
          ++ (decimal config.max_chapter_bytes
              ++ (txt " byte limit after " ++ (decimal n ++ txt " pages"))))
        false

  -- The loop of `fetch_all`, with `n` rounds left. The ports choose which of the requests in flight
  -- is answered next; at most `page_concurrency` of them are, at least one.
  unfoldable pub fetch_rest :
      Job → ℕ → ℕ → ℕ → List PageRef → ℕ → List Image → History → Result (List Image) × History
  fetch_rest job source_id total zero waiting bytes taken = lift (ok taken)
  fetch_rest job source_id total (suc n) [] bytes taken = lift (ok taken)
  fetch_rest job source_id total (suc n) (p ∷ ps) bytes taken = λ h.
      let window = min (max config.page_concurrency 1) (suc (length ps)) in
      let next = pull (ports.arrival h % window) p ps in
      (fetch_page source_id next.0 >>= λ image.
      let so_far = bytes + length image.1 in
      let now_taken = taken ++ (image ∷ []) in
      let rest = fetch_rest job source_id total n next.1 so_far now_taken in
      if ltb config.max_chapter_bytes so_far
      then lift (err (too_many_bytes (length now_taken)))
      else publish (job_progress job.id (length now_taken) total so_far) >> rest)
        h

  unfoldable pub fetch_all : Job → ℕ → List PageRef → History → Result (List Image) × History
  unfolding fetch_rest
  fetch_all job source_id refs = fetch_rest job source_id (length refs) (length refs) refs 0 []

  unfoldable pub page_refs : Manga → Chapter → History → Result (List PageRef) × History
  page_refs manga chapter = with_permit manga.source_id (
      call (asked_pages manga.source_id manga.external_key chapter.external_key)
        (λ h. ports.pages h manga.source_id manga.external_key chapter.external_key)
      >>= λ pages. lift (to_refs config pages))

  -- From the archive on.
  unfoldable pub store : ℕ → Manga → Chapter → List Image → History → Result (Unit {0}) × History
  store chapter_id manga chapter images =
      call (wrote_chapter manga chapter images) (λ h. ports.write_chapter h manga chapter images)
      >>= λ download.
          call (recorded download) (λ h. ports.record_download h download)
          >> publish (chapter_downloaded manga.id chapter_id)

  unfoldable pub refuse_no_pages : ℕ → List PageRef → Result (Unit {0})
  refuse_no_pages id [] =
      err (source (txt "chapter " ++ (ports.write_uuid id ++ txt " listed no pages")) true)
  refuse_no_pages id (p ∷ ps) = ok tt

  unfoldable pub download : Job → ℕ → Manga → Chapter → History → Result (Unit {0}) × History
  download job chapter_id manga chapter = page_refs manga chapter >>= λ refs.
      lift (refuse_no_pages chapter_id refs)
      >> (fetch_all job manga.source_id refs >>= λ images. store chapter_id manga chapter images)

  unfoldable pub unless_there :
      Job → ℕ → Manga → Chapter → Bool → History → Result (Unit {0}) × History
  unless_there job chapter_id manga chapter true = lift (ok tt)
  unless_there job chapter_id manga chapter false = download job chapter_id manga chapter

  unfoldable pub handle : Job → History → Result (Unit {0}) × History
  handle job = lift (payload_field ports job (txt "chapter_id")) >>= λ chapter_id.
      call (got_chapter chapter_id) (λ h. ports.get_chapter h chapter_id) >>= λ chapter.
      call (got_manga chapter.manga_id) (λ h. ports.get_manga h chapter.manga_id) >>= λ manga.
      already_downloaded chapter >>= λ there. unless_there job chapter_id manga chapter there
