-- ===== src/Jobs/Names.antt =====
-- crates/jobs/src/queue.rs: the names under which job kinds and states are stored.
use nyuka.Common.{
  Text, txt, text_eq, text_eq_iff, Option, none, some, ◌≡◌, refl, ◌↔◌, arith, if◌then◌else◌,
}
use nyuka.Domain.Enums.{JobKind, JobState}

unfoldable pub kind_to_str : JobKind → Text
kind_to_str JobKind.download_chapter = txt "download_chapter"
kind_to_str JobKind.package_chapter = txt "package_chapter"
kind_to_str JobKind.refresh_metadata = txt "refresh_metadata"
kind_to_str JobKind.check_follow = txt "check_follow"
kind_to_str JobKind.update_sources = txt "update_sources"
kind_to_str JobKind.prune_jobs = txt "prune_jobs"
kind_to_str JobKind.prune_sessions = txt "prune_sessions"
kind_to_str JobKind.reconcile_library = txt "reconcile_library"

unfoldable pub kind_from_str : Text → Option JobKind
kind_from_str s =
    if text_eq s (txt "download_chapter")
    then some JobKind.download_chapter
    else if text_eq s (txt "package_chapter")
    then some JobKind.package_chapter
    else if text_eq s (txt "refresh_metadata")
    then some JobKind.refresh_metadata
    else if text_eq s (txt "check_follow")
    then some JobKind.check_follow
    else if text_eq s (txt "update_sources")
    then some JobKind.update_sources
    else if text_eq s (txt "prune_jobs")
    then some JobKind.prune_jobs
    else if text_eq s (txt "prune_sessions")
    then some JobKind.prune_sessions
    else if text_eq s (txt "reconcile_library")
    then some JobKind.reconcile_library
    else none

unfoldable pub state_to_str : JobState → Text
state_to_str JobState.queued = txt "queued"
state_to_str JobState.running = txt "running"
state_to_str JobState.succeeded = txt "succeeded"
state_to_str JobState.failed = txt "failed"
state_to_str JobState.cancelled = txt "cancelled"

unfoldable pub state_from_str : Text → Option JobState
state_from_str s =
    if text_eq s (txt "queued")
    then some JobState.queued
    else if text_eq s (txt "running")
    then some JobState.running
    else if text_eq s (txt "succeeded")
    then some JobState.succeeded
    else if text_eq s (txt "failed")
    then some JobState.failed
    else if text_eq s (txt "cancelled")
    then some JobState.cancelled
    else none

pub kind_of_name : (k : JobKind) → kind_from_str (kind_to_str k) ≡ some k
unfolding kind_to_str kind_from_str text_eq
kind_of_name JobKind.download_chapter = refl
kind_of_name _ = refl

pub state_of_name : (s : JobState) → state_from_str (state_to_str s) ≡ some s
unfolding state_to_str state_from_str text_eq
state_of_name JobState.queued = refl
state_of_name _ = refl

name_of_kind : (t : Text) (k : JobKind) → kind_from_str t ≡ some k → t ≡ kind_to_str k
unfolding kind_to_str kind_from_str
name_of_kind t JobKind.download_chapter h = ground (arith, text_eq_iff t (txt "download_chapter"))
name_of_kind t JobKind.package_chapter h = ground (arith, text_eq_iff t (txt "package_chapter"))
name_of_kind t JobKind.refresh_metadata h = ground (arith, text_eq_iff t (txt "refresh_metadata"))
name_of_kind t JobKind.check_follow h = ground (arith, text_eq_iff t (txt "check_follow"))
name_of_kind t JobKind.update_sources h = ground (arith, text_eq_iff t (txt "update_sources"))
name_of_kind t JobKind.prune_jobs h = ground (arith, text_eq_iff t (txt "prune_jobs"))
name_of_kind t JobKind.prune_sessions h = ground (arith, text_eq_iff t (txt "prune_sessions"))
name_of_kind t JobKind.reconcile_library h = ground (arith, text_eq_iff t (txt "reconcile_library"))

name_of_state : (t : Text) (s : JobState) → state_from_str t ≡ some s → t ≡ state_to_str s
unfolding state_to_str state_from_str
name_of_state t JobState.queued h = ground (arith, text_eq_iff t (txt "queued"))
name_of_state t JobState.running h = ground (arith, text_eq_iff t (txt "running"))
name_of_state t JobState.succeeded h = ground (arith, text_eq_iff t (txt "succeeded"))
name_of_state t JobState.failed h = ground (arith, text_eq_iff t (txt "failed"))
name_of_state t JobState.cancelled h = ground (arith, text_eq_iff t (txt "cancelled"))

-- A text is read as a kind exactly when it is the name that the kind is stored under, and the same
-- holds of states.
pub names_inverse :
    ((t : Text) (k : JobKind) → (kind_from_str t ≡ some k) ↔ (t ≡ kind_to_str k))
    × ((t : Text) (s : JobState) → (state_from_str t ≡ some s) ↔ (t ≡ state_to_str s))
names_inverse = (
  λ t k. (name_of_kind t k, λ e. rw e (kind_of_name k)),
  λ t s. (name_of_state t s, λ e. rw e (state_of_name s)),
)
