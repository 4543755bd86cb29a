-- ===== src/Domain/Enums/Stored.antt =====
-- What a stored number is read back as.
use nyuka.Common.{ℤ, pos, negsuc, ◌≡◌, ◌≢◌, refl, arith}
use nyuka.Domain.Enums.{
  ReadingDirection, MangaStatus, ContentRating, status_as_i16, status_from_i16, rating_as_i16,
  rating_from_i16, direction_as_i16, direction_from_i16,
}

status_same : (x : MangaStatus) → status_from_i16 (status_as_i16 x) ≡ x
unfolding status_as_i16 status_from_i16
status_same MangaStatus.unknown = refl
status_same MangaStatus.ongoing = refl
status_same MangaStatus.completed = refl
status_same MangaStatus.cancelled = refl
status_same MangaStatus.hiatus = refl

status_default :
    (n : ℤ) → ((x : MangaStatus) → status_as_i16 x ≢ n) → status_from_i16 n ≡ MangaStatus.unknown
unfolding status_as_i16 status_from_i16
status_default (pos n) h = ground (
  arith,
  h MangaStatus.unknown,
  h MangaStatus.ongoing,
  h MangaStatus.completed,
  h MangaStatus.cancelled,
  h MangaStatus.hiatus,
)
status_default (negsuc n) h = refl

rating_same : (x : ContentRating) → rating_from_i16 (rating_as_i16 x) ≡ x
unfolding rating_as_i16 rating_from_i16
rating_same ContentRating.unknown = refl
rating_same ContentRating.safe = refl
rating_same ContentRating.suggestive = refl
rating_same ContentRating.nsfw = refl

rating_default :
    (n : ℤ)
    → ((x : ContentRating) → rating_as_i16 x ≢ n)
    → rating_from_i16 n ≡ ContentRating.unknown
unfolding rating_as_i16 rating_from_i16
rating_default (pos n) h = ground (
  arith,
  h ContentRating.unknown,
  h ContentRating.safe,
  h ContentRating.suggestive,
  h ContentRating.nsfw,
)
rating_default (negsuc n) h = refl

direction_same : (x : ReadingDirection) → direction_from_i16 (direction_as_i16 x) ≡ x
unfolding direction_as_i16 direction_from_i16
direction_same ReadingDirection.unknown = refl
direction_same ReadingDirection.left_to_right = refl
direction_same ReadingDirection.right_to_left = refl

direction_default :
    (n : ℤ)
    → ((x : ReadingDirection) → direction_as_i16 x ≢ n)
    → direction_from_i16 n ≡ ReadingDirection.unknown
unfolding direction_as_i16 direction_from_i16
direction_default (pos n) h = ground (
  arith,
  h ReadingDirection.unknown,
  h ReadingDirection.left_to_right,
  h ReadingDirection.right_to_left,
)
direction_default (negsuc n) h = refl

-- Each of the three enumerations is read back from its stored number as itself, and a number that
-- is stored for no member is read as the default member.
pub stored_round_trip :
    ((s : MangaStatus) → status_from_i16 (status_as_i16 s) ≡ s)
    × ((n : ℤ)
        → ((s : MangaStatus) → status_as_i16 s ≢ n)
        → status_from_i16 n ≡ MangaStatus.unknown)
    × ((r : ContentRating) → rating_from_i16 (rating_as_i16 r) ≡ r)
    × ((n : ℤ)
        → ((r : ContentRating) → rating_as_i16 r ≢ n)
        → rating_from_i16 n ≡ ContentRating.unknown)
    × ((d : ReadingDirection) → direction_from_i16 (direction_as_i16 d) ≡ d)
    × ((n : ℤ)
        → ((d : ReadingDirection) → direction_as_i16 d ≢ n)
        → direction_from_i16 n ≡ ReadingDirection.unknown)
stored_round_trip =
    (status_same, status_default, rating_same, rating_default, direction_same, direction_default)
