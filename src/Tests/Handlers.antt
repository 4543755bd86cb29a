-- ===== src/Tests/Handlers.antt =====
-- The theorems on the job handlers at concrete ports.
use nyuka.Common.{pos, true, false, Text, txt, none, some, [], ◌∷◌, inl}
use nyuka.Domain.Errors.{ok}
use nyuka.Domain.Enums.{JobKind, JobState, MangaStatus, ContentRating, ReadingDirection}
use nyuka.Domain.Payload.{Json, Fields}
use nyuka.Domain.Library.{PageContent, SourceManga, Manga, Chapter, Follow, DownloadedChapter}
use nyuka.Jobs.Queue.{Job}
use nyuka.Jobs.Handlers.{Ports}
use nyuka.Jobs.Handlers.Download.{default_config}
use nyuka.Jobs.Handlers.Download
use nyuka.Jobs.Handlers.Download.Recorded.{RecordsPackaged, handle-RecordsPackaged}
use nyuka.Jobs.Handlers.Following.{check_follow}
use nyuka.Jobs.Handlers.Reconcile
use nyuka.Jobs.Handlers.Reconcile.Evidence.{ForgetsMissing}
use nyuka.Jobs.Handlers.Reconcile.Missing.{handle-ForgetsMissing}

abbrev pub series : Manga
series = record {
  id = 1;
  source_id = 2;
  external_key = txt "m";
  title = txt "One";
  authors = [];
  artists = [];
  description = none;
  tags = [];
  cover_url = none;
  url = none;
  language = none;
  status = MangaStatus.ongoing;
  content_rating = ContentRating.safe;
  direction = ReadingDirection.unknown;
  created_at = 0;
  updated_at = 0;
}

abbrev source_report : SourceManga
source_report = record {
  key = txt "m";
  title = txt "One";
  cover = none;
  authors = [];
  artists = [];
  description = none;
  url = none;
  tags = [];
  status = MangaStatus.ongoing;
  content_rating = ContentRating.safe;
  direction = ReadingDirection.unknown;
  chapters = some [];
}

abbrev pub chapter : Chapter
chapter = record {
  id = 3;
  manga_id = 1;
  external_key = txt "c";
  title = none;
  number = none;
  volume = none;
  language = none;
  published_at = none;
}

abbrev packaged : DownloadedChapter
packaged = record {
  chapter_id = 3;
  relative_path = txt "One/One.cbz";
  size_bytes = 9;
  checksum = txt "ab";
  packaged_at = 5;
}

abbrev follow : Follow
follow = record {
  id = 4;
  manga_id = 1;
  check_interval_secs = pos 60;
  last_checked_at = none;
  auto_download = true;
  created_at = 0;
}

-- One series with one chapter of two pages; the file of a download is never there.
abbrev pub ports : Ports
ports = record {
  get_manga = λ h id. ok series;
  upsert_manga = λ h m. ok 1;
  list_manga = λ h c. ok (record { items = series ∷ []; next = none });
  get_chapter = λ h id. ok chapter;
  upsert_chapters = λ h id cs. ok (3 ∷ []);
  list_chapters = λ h id c. ok (record { items = chapter ∷ []; next = none });
  find_download = λ h id. ok (some packaged);
  record_download = λ h d. ok tt;
  forget_downloads = λ h ids. ok 1;
  details = λ h s k. ok source_report;
  chapters = λ h s k. ok [];
  pages = λ h s m c. ok (
      record { index = 0; content = PageContent.url (txt "a") []; description = none }
      ∷ record { index = 1; content = PageContent.url (txt "b") []; description = none }
      ∷ []);
  fetch = λ h p. ok (1 ∷ 2 ∷ []);
  write_chapter = λ h m c pages. ok packaged;
  file_exists = λ h path. ok false;
  free_space = λ h. ok 100;
  get_follow = λ h id. ok follow;
  mark_checked = λ h id. ok tt;
  enqueue = λ h kind payload key priority most. ok 8;
  now = λ h. 6;
  arrival = λ h. 1;
  read_uuid = λ v. inl 3;
  write_uuid = λ id. txt "3";
}

abbrev job_for : JobKind → Text → Job
job_for kind name = record {
  id = 9;
  kind = kind;
  state = JobState.running;
  payload = Json.object (Fields.field name (Json.string (txt "3")) Fields.end);
  priority = 0;
  run_at = 0;
  attempts = 1;
  max_attempts = 5;
  last_error = none;
  created_at = 0;
}

abbrev download_job : Job
download_job = job_for JobKind.download_chapter (txt "chapter_id")

handle-RecordsPackaged_example :
    RecordsPackaged ports default_config (Download.handle ports default_config download_job []).1
handle-RecordsPackaged_example = handle-RecordsPackaged ports default_config download_job [] tt

abbrev follow_job : Job
follow_job = job_for JobKind.check_follow (txt "follow_id")

abbrev pub reconcile_job : Job
reconcile_job = job_for JobKind.reconcile_library (txt "none")

handle-ForgetsMissing_example : ForgetsMissing ports (Reconcile.handle ports 2 reconcile_job []).1
handle-ForgetsMissing_example = handle-ForgetsMissing ports 2 reconcile_job [] tt
