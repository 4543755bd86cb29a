-- ===== src/Jobs/Handlers/Download/Recorded.antt =====
-- A download is recorded only once its archive is in the library, and a job that succeeds has put
-- it there, whole, or found it there.
use nyuka.Common.{
  ℕ, zero, suc, Bool, true, false, txt, Option, none, some, List, [], ◌∷◌, ◌≡◌, refl, ltb,
}
use nyuka.Domain.Errors.{Result, ok, err}
use nyuka.Domain.Library.{Manga, Chapter, DownloadedChapter, PageRef}
use nyuka.Jobs.Queue.{Job}
use nyuka.Jobs.Worker.{chapter_downloaded}
use nyuka.Jobs.Handlers.{
  Ports, History, continue, call, publish, ◌>>=◌, payload_field, got_manga, got_chapter, downloaded,
  recorded, asked_pages, fetched, wrote_chapter, exists,
}
use nyuka.Jobs.Handlers.Outcome.{
  Keeps, Keeps-lift, Keeps-if, Keeps-call, Keeps-with_permit, Keeps-bind, Keeps-publish,
}
use nyuka.Jobs.Handlers.Download.{
  DownloadConfig, Image, file_of, already_downloaded, fetch_page, fetch_rest, fetch_all, page_refs,
  store, download, unless_there, handle,
}

module _ (ports : Ports) (config : DownloadConfig) where
  -- The call before was that which wrote the archive, and it returned this record.
  abbrev Packaged : DownloadedChapter → History → Type 0
  Packaged d [] = ⊥
  Packaged d (wrote_chapter m c images ∷ older) = ports.write_chapter older m c images ≡ ok d
  Packaged d (other ∷ older) = ⊥

  -- So it is at every record of the history.
  abbrev pub RecordsPackaged : History → Type 0
  RecordsPackaged [] = Unit
  RecordsPackaged (recorded d ∷ older) = Packaged d older × RecordsPackaged older
  RecordsPackaged (other ∷ older) = RecordsPackaged older

  abbrev Safe {ℓ} : {A : Type ℓ} → (History → Result A × History) → Type 0
  Safe = Keeps RecordsPackaged

  fetch_page-Safe : (source_id : ℕ) (page : PageRef) → Safe (fetch_page ports config source_id page)
  unfolding fetch_page
  fetch_page-Safe source_id page =
      Keeps-with_permit source_id _ (λ h p. p) (λ h p. p)
        (Keeps-bind _ _ (Keeps-call (fetched page) _ (λ h p. p)) (λ b. Keeps-lift _))

  fetch_rest-Safe :
      (job : Job) (source_id total n : ℕ) (waiting : List PageRef) (bytes : ℕ) (taken : List Image)
      → Safe (fetch_rest ports config job source_id total n waiting bytes taken)
  unfolding fetch_rest
  fetch_rest-Safe job source_id total zero waiting bytes taken = Keeps-lift (ok taken)
  fetch_rest-Safe job source_id total (suc n) [] bytes taken = Keeps-lift (ok taken)
  fetch_rest-Safe job source_id total (suc n) (p ∷ ps) bytes taken = record {
    at = λ h safe.
        (Keeps-bind _ _ (fetch_page-Safe source_id _) (λ image.
            Keeps-if (ltb config.max_chapter_bytes _) _ _ (Keeps-lift _) (
              Keeps-bind _ _ (Keeps-publish _ (λ g q. q))
                (λ u. fetch_rest-Safe job source_id total n _ _ _)))).at
          h safe;
  }

  store-Safe :
      (id : ℕ) (m : Manga) (c : Chapter) (images : List Image)
      → Safe (store ports config id m c images)
  unfolding store ◌>>=◌ call publish
  store-Safe id m c images = record {
    at = λ h safe. go h safe (ports.write_chapter h m c images) refl;
  }
    where
      go :
          (h : History)
          → RecordsPackaged h
          → (r : Result DownloadedChapter) → ports.write_chapter h m c images ≡ r
          → RecordsPackaged (store ports config id m c images h).1
      go h safe (ok d) e = rw e (
          told (ports.record_download (wrote_chapter m c images ∷ h) d)
            (recorded d ∷ wrote_chapter m c images ∷ h) (e, safe))
        where
          told :
              (r : Result (Unit {0})) (g : History)
              → RecordsPackaged g
              → RecordsPackaged (continue r (λ u g'. publish (chapter_downloaded m.id id) g') g).1
          told (ok u) g p = p
          told (err x) g p = p
      go h safe (err x) e = rw e safe

  page_refs-Safe : (m : Manga) (c : Chapter) → Safe (page_refs ports config m c)
  unfolding page_refs
  page_refs-Safe m c =
      Keeps-with_permit m.source_id _ (λ h p. p) (λ h p. p)
        (Keeps-bind _ _ (Keeps-call (asked_pages _ _ _) _ (λ h p. p)) (λ b. Keeps-lift _))

  fetch_all-Safe :
      (job : Job) (source_id : ℕ) (refs : List PageRef)
      → Safe (fetch_all ports config job source_id refs)
  unfolding fetch_all
  fetch_all-Safe job source_id refs = fetch_rest-Safe job source_id _ _ _ _ _

  download-Safe :
      (job : Job) (id : ℕ) (m : Manga) (c : Chapter) → Safe (download ports config job id m c)
  unfolding download
  download-Safe job id m c = Keeps-bind _ _ (page_refs-Safe m c) (λ refs.
      Keeps-bind _ _ (Keeps-lift _)
        (λ u. Keeps-bind _ _ (fetch_all-Safe job m.source_id refs) (store-Safe id m c)))

  unless_there-Safe :
      (job : Job) (id : ℕ) (m : Manga) (c : Chapter) (there : Bool)
      → Safe (unless_there ports config job id m c there)
  unfolding unless_there
  unless_there-Safe job id m c true = Keeps-lift (ok tt)
  unless_there-Safe job id m c false = download-Safe job id m c

  already_downloaded-Safe : (c : Chapter) → Safe (already_downloaded ports config c)
  unfolding already_downloaded file_of
  already_downloaded-Safe c =
      Keeps-bind _ _ (Keeps-call (downloaded c.id) _ (λ h p. p)) (λ found. there found)
    where
      there : (found : Option DownloadedChapter) → Safe (file_of ports config found)
      there none = Keeps-lift _
      there (some d) = Keeps-call (exists d.relative_path) _ (λ h p. p)

  -- However a download ends, at each `record_download` in the history the call just before it is a
  -- `write_chapter` that returned the very record: nothing is recorded without its archive in place.
  pub handle-RecordsPackaged :
      (job : Job) (h : History) → RecordsPackaged h → RecordsPackaged (handle ports config job h).1
  unfolding handle
  handle-RecordsPackaged job =
      (Keeps-bind _ _ (Keeps-lift (payload_field ports job (txt "chapter_id"))) (λ id.
        Keeps-bind _ _ (Keeps-call (got_chapter id) _ (λ h p. p)) (λ c.
          Keeps-bind _ _ (Keeps-call (got_manga c.manga_id) _ (λ h p. p)) (λ m.
            Keeps-bind _ _ (already_downloaded-Safe c)
              (λ there. unless_there-Safe job id m c there))))).at
