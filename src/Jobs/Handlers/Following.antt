-- ===== src/Jobs/Handlers/Following.antt =====
-- crates/jobs/src/handlers/follow.rs: `CheckFollow` and `RefreshMetadata`.
pub mod Refreshed
pub mod Queued
pub mod Unmarked
pub mod Checked
use nyuka.Common.{
  ℕ, Bool, true, false, not, ◌&&◌, Text, txt, Option, none, some, List, [], ◌∷◌, ◌++◌,
  if◌then◌else◌,
}
use nyuka.Domain.Errors.{not_found, Result, ok, err}
use nyuka.Domain.Enums.{JobKind}
use nyuka.Domain.Payload.{Json, Fields}
use nyuka.Domain.Library.{SourceManga, SourceChapter, Manga, Follow}
use nyuka.Jobs.Queue.{Job}
use nyuka.Jobs.Worker.{chapter_new}
use nyuka.Jobs.Handlers.{
  Ports, History, call, publish, with_permit, lift, ◌>>=◌, ◌>>◌, payload_field, got_manga,
  upserted_manga, upserted_chapters, asked_details, asked_chapters, got_follow, marked_checked,
  enqueued,
}

unfoldable pub merge : Manga → SourceManga → ℕ → Manga
merge existing details now = record {
  id = existing.id;
  source_id = existing.source_id;
  external_key = existing.external_key;
  title = details.title;
  authors = details.authors;
  artists = details.artists;
  description = details.description;
  tags = details.tags;
  cover_url = details.cover;
  url = details.url;
  language = existing.language;
  status = details.status;
  content_rating = details.content_rating;
  direction = details.direction;
  created_at = existing.created_at;
  updated_at = now;
}

-- `for chapter_id in &new { self.events.publish(…) }`
unfoldable pub announce : ℕ → List ℕ → History → Result (Unit {0}) × History
announce manga_id [] = lift (ok tt)
announce manga_id (id ∷ ids) = publish (chapter_new manga_id id) >> announce manga_id ids

module _ (ports : Ports) where
  unfoldable pub chapters_of :
      Manga → Option (List SourceChapter) → History → Result (List SourceChapter) × History
  chapters_of existing (some chapters) = lift (ok chapters)
  chapters_of existing none =
      call (asked_chapters existing.source_id existing.external_key)
        (λ h. ports.chapters h existing.source_id existing.external_key)

  -- What the source is asked for, under one permit.
  unfoldable pub source_report :
      Manga → History → Result (SourceManga × List SourceChapter) × History
  source_report existing = with_permit existing.source_id (
      call (asked_details existing.source_id existing.external_key)
        (λ h. ports.details h existing.source_id existing.external_key)
      >>= λ details.
          chapters_of existing details.chapters >>= λ chapters. lift (ok (details, chapters)))

  unfoldable pub upsert_merged : Manga → SourceManga → History → Result ℕ × History
  upsert_merged existing details h =
      let merged = merge existing details (ports.now h) in
      call (upserted_manga merged) (λ g. ports.upsert_manga g merged) h

  -- Only the chapters that were inserted are announced.
  unfoldable pub upsert_announced : ℕ → List SourceChapter → History → Result (List ℕ) × History
  upsert_announced manga_id chapters =
      call (upserted_chapters manga_id chapters) (λ h. ports.upsert_chapters h manga_id chapters)
      >>= λ new. announce manga_id new >> lift (ok new)

  unfoldable pub refresh : ℕ → History → Result (List ℕ) × History
  refresh manga_id = call (got_manga manga_id) (λ h. ports.get_manga h manga_id) >>= λ existing.
      source_report existing >>= λ r. upsert_merged existing r.0 >> upsert_announced manga_id r.1

  abbrev pub download_payload : ℕ → Json
  download_payload chapter_id =
      Json.object
        (Fields.field (txt "chapter_id") (Json.string (ports.write_uuid chapter_id)) Fields.end)

  abbrev pub download_key : ℕ → Option Text
  download_key chapter_id = some (txt "download:" ++ ports.write_uuid chapter_id)

  unfoldable pub queue_download : ℕ → History → Result ℕ × History
  queue_download chapter_id =
      call
        (enqueued JobKind.download_chapter (download_payload chapter_id) (download_key chapter_id) 5
          5)
        (λ h.
          ports.enqueue h JobKind.download_chapter (download_payload chapter_id)
            (download_key chapter_id) 5 5)

  unfoldable pub queue_downloads : List ℕ → History → Result (Unit {0}) × History
  queue_downloads [] = lift (ok tt)
  queue_downloads (id ∷ ids) = queue_download id >> queue_downloads ids

  unfoldable pub queue_if : Bool → List ℕ → History → Result (Unit {0}) × History
  queue_if auto_download [] = lift (ok tt)
  queue_if auto_download (id ∷ ids) =
      if auto_download then queue_downloads (id ∷ ids) else lift (ok tt)

  unfoldable pub mark : ℕ → History → Result (Unit {0}) × History
  mark follow_id = call (marked_checked follow_id) (λ h. ports.mark_checked h follow_id)

  unfoldable pub finish : Bool → ℕ → List ℕ → History → Result (Unit {0}) × History
  finish auto_download follow_id new = queue_if auto_download new >> mark follow_id

  unfoldable pub check : Result Follow → ℕ → History → Result (Unit {0}) × History
  check (ok follow) follow_id = refresh follow.manga_id >>= finish follow.auto_download follow_id
  check (err not_found) follow_id = lift (ok tt)
  check (err e) follow_id = lift (err e)

  unfoldable pub find_and_check : ℕ → History → Result (Unit {0}) × History
  find_and_check follow_id h =
      check (ports.get_follow h follow_id) follow_id (got_follow follow_id ∷ h)

  -- `CheckFollow::handle`
  unfoldable pub check_follow : Job → History → Result (Unit {0}) × History
  check_follow job = lift (payload_field ports job (txt "follow_id")) >>= find_and_check

  -- `RefreshMetadata::handle`
  unfoldable pub refresh_metadata : Job → History → Result (Unit {0}) × History
  refresh_metadata job = lift (payload_field ports job (txt "manga_id")) >>= λ manga_id.
      refresh manga_id >> lift (ok tt)
