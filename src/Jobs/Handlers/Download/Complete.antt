-- ===== src/Jobs/Handlers/Download/Complete.antt =====
-- What a download that succeeds leaves behind.
use mathlib.Core.List.{Perm}
use nyuka.Common.{ℕ, ◌≤◌, true, some, List, [], ◌∷◌, ◌≡◌, ◌≢◌, All}
use nyuka.Domain.Errors.{ok}
use nyuka.Domain.Library.{SourcePage, Manga, Chapter, DownloadedChapter, PageRef}
use nyuka.Jobs.Worker.{chapter_downloaded}
use nyuka.Jobs.Handlers.{Ports, History, downloaded, recorded, wrote_chapter, published}
use nyuka.Jobs.Handlers.Download.{DownloadConfig, Image, to_refs}
use nyuka.Jobs.Handlers.Download.Pages.{pages_of, bytes_of, IsAnswer}

module _ (ports : Ports) (config : DownloadConfig) where
  -- The repository had a download of the chapter and the library its file.
  pub record IsThere (c : Chapter) : Type 0 where
    pub existing : DownloadedChapter
    pub before : History
    pub known : ports.find_download before c.id ≡ ok (some existing)
    pub on_disk : ports.file_exists (downloaded c.id ∷ before) existing.relative_path ≡ ok true

  -- The pages that the source listed, one or more, were fetched once each, within the limit, and
  -- written; the record that the library returned was stored, and then the event published.
  pub record IsPackaged (id : ℕ) (m : Manga) (c : Chapter) (after : History) : Type 0 where
    pub asked : History
    pub listed : List SourcePage
    pub refs : List PageRef
    pub images : List Image
    pub older : History
    pub made : DownloadedChapter
    pub source_listed : ports.pages asked m.source_id m.external_key c.external_key ≡ ok listed
    pub fetchable : to_refs config listed ≡ ok refs
    pub some_page : refs ≢ []
    pub each_once : Perm (pages_of images) refs
    pub within : bytes_of images ≤ config.max_chapter_bytes
    pub fetched_so : All (IsAnswer ports config) images
    pub written : ports.write_chapter older m c images ≡ ok made
    pub stored : ports.record_download (wrote_chapter m c images ∷ older) made ≡ ok tt
    pub trace :
        after
        ≡ published (chapter_downloaded m.id id) ∷ recorded made ∷ wrote_chapter m c images ∷ older
