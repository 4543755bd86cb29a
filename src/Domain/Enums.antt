-- ===== src/Domain/Enums.antt =====
-- crates/domain/src/model.rs: the enumerations, with the numbers that are stored for them.
pub mod Stored
use nyuka.Common.{ℤ, pos, negsuc, ◌==◌, if◌then◌else◌}

pub data ReadingDirection : Type 0 where
  unknown left_to_right right_to_left : ReadingDirection

pub data MangaStatus : Type 0 where
  unknown ongoing completed cancelled hiatus : MangaStatus

pub data ContentRating : Type 0 where
  unknown safe suggestive nsfw : ContentRating

pub data JobState : Type 0 where
  queued running succeeded failed cancelled : JobState

pub data JobKind : Type 0 where
  download_chapter package_chapter refresh_metadata check_follow : JobKind
  update_sources prune_jobs prune_sessions reconcile_library : JobKind

pub data Capability : Type 0 where
  net html defaults std js_context js_web_view canvas : Capability

-- The three expansions of `numeric_enum!`: `as_i16` and `from_i16`, whose last arm is the default.
pub status_as_i16 : MangaStatus → ℤ
status_as_i16 MangaStatus.unknown = pos 0
status_as_i16 MangaStatus.ongoing = pos 1
status_as_i16 MangaStatus.completed = pos 2
status_as_i16 MangaStatus.cancelled = pos 3
status_as_i16 MangaStatus.hiatus = pos 4

pub status_from_i16 : ℤ → MangaStatus
status_from_i16 (pos n) =
    if n == 0
    then MangaStatus.unknown
    else if n == 1
    then MangaStatus.ongoing
    else if n == 2
    then MangaStatus.completed
    else if n == 3
    then MangaStatus.cancelled
    else if n == 4
    then MangaStatus.hiatus
    else MangaStatus.unknown
status_from_i16 (negsuc n) = MangaStatus.unknown

pub rating_as_i16 : ContentRating → ℤ
rating_as_i16 ContentRating.unknown = pos 0
rating_as_i16 ContentRating.safe = pos 1
rating_as_i16 ContentRating.suggestive = pos 2
rating_as_i16 ContentRating.nsfw = pos 3

pub rating_from_i16 : ℤ → ContentRating
rating_from_i16 (pos n) =
    if n == 0
    then ContentRating.unknown
    else if n == 1
    then ContentRating.safe
    else if n == 2
    then ContentRating.suggestive
    else if n == 3
    then ContentRating.nsfw
    else ContentRating.unknown
rating_from_i16 (negsuc n) = ContentRating.unknown

pub direction_as_i16 : ReadingDirection → ℤ
direction_as_i16 ReadingDirection.unknown = pos 0
direction_as_i16 ReadingDirection.left_to_right = pos 1
direction_as_i16 ReadingDirection.right_to_left = pos 2

pub direction_from_i16 : ℤ → ReadingDirection
direction_from_i16 (pos n) =
    if n == 0
    then ReadingDirection.unknown
    else if n == 1
    then ReadingDirection.left_to_right
    else if n == 2
    then ReadingDirection.right_to_left
    else ReadingDirection.unknown
direction_from_i16 (negsuc n) = ReadingDirection.unknown
