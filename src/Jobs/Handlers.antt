-- ===== src/Jobs/Handlers.antt =====
-- crates/jobs/src/handlers/mod.rs: dispatch of a job to the handler of its kind, and what handlers
-- work with. The ports of crates/domain/src/ports.rs are arguments: an answer may depend on all that
-- was asked before, so that the repositories, the source and the library behind them may change.
pub mod Dispatch
pub mod Outcome
pub mod Download
pub mod Following
pub mod Reconcile
use nyuka.Common.{
  ℕ, Bool, Text, txt, Option, none, some, List, [], ◌∷◌, ◌++◌, ◌⊎◌, inl, inr, ◌≡◌, refl,
}
use nyuka.Domain.Errors.{DomainError, invalid, internal, Result, ok, err}
use nyuka.Domain.Enums.{JobKind}
use nyuka.Domain.Payload.{Json, get}
use nyuka.Domain.Library.{
  Page, SourceChapter, SourceManga, SourcePage, Manga, Chapter, Follow, DownloadedChapter, PageRef,
}
use nyuka.Jobs.Names.{kind_to_str}
use nyuka.Jobs.Queue.{Job}
use nyuka.Jobs.Worker.{JobEvent}

-- What a handler does to the outside.
pub data Call : Type 0 where
  acquired : ℕ → Call
  dropped : ℕ → Call
  got_manga : ℕ → Call
  upserted_manga : Manga → Call
  listed_manga : Option Text → Call
  got_chapter : ℕ → Call
  upserted_chapters : ℕ → List SourceChapter → Call
  listed_chapters : ℕ → Option Text → Call
  downloaded : ℕ → Call
  recorded : DownloadedChapter → Call
  forgot : List ℕ → Call
  asked_details : ℕ → Text → Call
  asked_chapters : ℕ → Text → Call
  asked_pages : ℕ → Text → Text → Call
  fetched : PageRef → Call
  wrote_chapter : Manga → Chapter → List (PageRef × List ℕ) → Call
  exists : Text → Call
  free_bytes : Call
  got_follow : ℕ → Call
  marked_checked : ℕ → Call
  enqueued : JobKind → Json → Option Text → ℕ → ℕ → Call
  published : JobEvent → Call

-- Latest first.
abbrev pub History : Type 0
History = List Call

pub record Ports : Type 0 where
  pub get_manga : History → ℕ → Result Manga
  pub upsert_manga : History → Manga → Result ℕ
  pub list_manga : History → Option Text → Result (Page Manga)
  pub get_chapter : History → ℕ → Result Chapter
  pub upsert_chapters : History → ℕ → List SourceChapter → Result (List ℕ)
  pub list_chapters : History → ℕ → Option Text → Result (Page Chapter)
  pub find_download : History → ℕ → Result (Option DownloadedChapter)
  pub record_download : History → DownloadedChapter → Result (Unit {0})
  pub forget_downloads : History → List ℕ → Result ℕ
  pub details : History → ℕ → Text → Result SourceManga
  pub chapters : History → ℕ → Text → Result (List SourceChapter)
  pub pages : History → ℕ → Text → Text → Result (List SourcePage)
  pub fetch : History → PageRef → Result (List ℕ)
  pub write_chapter : History → Manga → Chapter → List (PageRef × List ℕ) → Result DownloadedChapter
  pub file_exists : History → Text → Result Bool
  pub free_space : History → Result ℕ
  pub get_follow : History → ℕ → Result Follow
  pub mark_checked : History → ℕ → Result (Unit {0})
  pub enqueue : History → JobKind → Json → Option Text → ℕ → ℕ → Result ℕ
  pub now : History → ℕ
  pub arrival : History → ℕ
  pub read_uuid : Json → ℕ ⊎ Text
  pub write_uuid : ℕ → Text

abbrev pub continue {ℓ κ} :
    {A : Type ℓ} {B : Type κ}
    → Result A
    → (A → History → Result B × History)
    → History
    → Result B × History
continue (ok a) f h = f a h
continue (err e) f h = (err e, h)

abbrev pub lift {ℓ} : {A : Type ℓ} → Result A → History → Result A × History
lift r h = (r, h)

infixl 5 ◌>>=◌ ◌>>◌
unfoldable pub ◌>>=◌ {ℓ κ} :
    {A : Type ℓ} {B : Type κ}
    → (History → Result A × History)
    → (A → History → Result B × History)
    → History
    → Result B × History
◌>>=◌ m f h = continue (m h).0 f (m h).1

abbrev pub ◌>>◌ {ℓ κ} :
    {A : Type ℓ} {B : Type κ}
    → (History → Result A × History)
    → (History → Result B × History)
    → History
    → Result B × History
m >> n = m >>= λ _. n

unfoldable pub call {ℓ} : {A : Type ℓ} → Call → (History → Result A) → History → Result A × History
call c answer h = (answer h, c ∷ h)

unfoldable pub publish : JobEvent → History → Result (Unit {0}) × History
publish e h = (ok tt, published e ∷ h)

-- A permit of the source's limit, held while the action runs and dropped however it ends.
unfoldable pub with_permit {ℓ} :
    {A : Type ℓ} → ℕ → (History → Result A × History) → History → Result A × History
with_permit source m h = let r = m (acquired source ∷ h) in (r.0, dropped source ∷ r.1)

abbrev pub Handler : Type 0
Handler = Job → History → Result (Unit {0}) × History

-- `payload_field::<Uuid>`
unfoldable pub payload_field : Ports → Job → Text → Result ℕ
payload_field ports job field = elim (get job.payload field) [
  | none ↦ err (
      invalid (
        txt "job "
        ++ (ports.write_uuid job.id
            ++ (txt " of kind "
                ++ (kind_to_str job.kind
                    ++ (txt " has no `" ++ (field ++ txt "` in its payload")))))))
  | some v ↦ elim (ports.read_uuid v) [
    | inl id ↦ ok id
    | inr e ↦ err (invalid (txt "job payload field `" ++ (field ++ (txt "` is invalid: " ++ e))))
  ]
]
