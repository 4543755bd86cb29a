-- ===== src/Domain/Library.antt =====
-- crates/domain/src/model.rs: series and chapters, as a source reports them and as they are stored.
-- A uuid is a number, a time is microseconds since the epoch, an `f32` is its bit pattern and a
-- file is its bytes.
use nyuka.Common.{ℕ, ℤ, Bool, Text, Option, List}
use nyuka.Domain.Enums.{ReadingDirection, MangaStatus, ContentRating}

pub record Page (A : Type 0) : Type 0 where
  pub items : List A
  pub next : Option Text

pub record SourceChapter : Type 0 where
  pub key : Text
  pub title : Option Text
  pub number : Option ℕ
  pub volume : Option ℕ
  pub published_at : Option ℕ
  pub scanlators : List Text
  pub url : Option Text
  pub language : Option Text
  pub locked : Bool

pub record SourceManga : Type 0 where
  pub key : Text
  pub title : Text
  pub cover : Option Text
  pub authors : List Text
  pub artists : List Text
  pub description : Option Text
  pub url : Option Text
  pub tags : List Text
  pub status : MangaStatus
  pub content_rating : ContentRating
  pub direction : ReadingDirection
  pub chapters : Option (List SourceChapter)

pub data PageContent : Type 0 where
  url : Text → List (Text × Text) → PageContent
  text : Text → PageContent
  zip : Text → Text → PageContent

pub record SourcePage : Type 0 where
  pub index : ℕ
  pub content : PageContent
  pub description : Option Text

pub record Manga : Type 0 where
  pub id : ℕ
  pub source_id : ℕ
  pub external_key : Text
  pub title : Text
  pub authors : List Text
  pub artists : List Text
  pub description : Option Text
  pub tags : List Text
  pub cover_url : Option Text
  pub url : Option Text
  pub language : Option Text
  pub status : MangaStatus
  pub content_rating : ContentRating
  pub direction : ReadingDirection
  pub created_at : ℕ
  pub updated_at : ℕ

pub record Chapter : Type 0 where
  pub id : ℕ
  pub manga_id : ℕ
  pub external_key : Text
  pub title : Option Text
  pub number : Option ℕ
  pub volume : Option ℕ
  pub language : Option Text
  pub published_at : Option ℕ

pub record Follow : Type 0 where
  pub id : ℕ
  pub manga_id : ℕ
  pub check_interval_secs : ℤ
  pub last_checked_at : Option ℕ
  pub auto_download : Bool
  pub created_at : ℕ

pub record DownloadedChapter : Type 0 where
  pub chapter_id : ℕ
  pub relative_path : Text
  pub size_bytes : ℕ
  pub checksum : Text
  pub packaged_at : ℕ

pub record PageRef : Type 0 where
  pub index : ℕ
  pub url : Text
  pub headers : List (Text × Text)
