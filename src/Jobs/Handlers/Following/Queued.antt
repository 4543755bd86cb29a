-- ===== src/Jobs/Handlers/Following/Queued.antt =====
-- The downloads that a follow queues.
use nyuka.Common.{ℕ, Bool, true, false, List, [], ◌∷◌, map, ◌≡◌, refl, ap, ◌∙◌, if◌then◌else◌}
use nyuka.Domain.Errors.{ok}
use nyuka.Domain.Enums.{JobKind}
use nyuka.Jobs.Handlers.{Ports, Call, History, call, enqueued}
use nyuka.Jobs.Handlers.Outcome.{>>=-ok}
use nyuka.Jobs.Handlers.Following.{
  download_payload, download_key, queue_download, queue_downloads, queue_if,
}
use nyuka.Jobs.Handlers.Following.Refreshed.{onto}

module _ (ports : Ports) where
  abbrev pub queued_download : ℕ → Call
  queued_download id =
      enqueued JobKind.download_chapter (download_payload ports id) (download_key ports id) 5 5

  queue_downloads-ok :
      (ids : List ℕ) (h : History)
      → (queue_downloads ports ids h).0 ≡ ok tt
      → (queue_downloads ports ids h).1 ≡ onto (map queued_download ids) h
  unfolding queue_downloads queue_download call
  queue_downloads-ok [] h e = refl
  queue_downloads-ok (id ∷ ids) h e =
      let (job, answer, step, more) = >>=-ok (queue_download ports id) _ h tt e in
      ap (λ r. r.1) step ∙ queue_downloads-ok ids (queued_download id ∷ h) more

  abbrev pub wanted : Bool → List ℕ → List ℕ
  wanted auto_download new = if auto_download then new else []

  pub queue_if-ok :
      (auto_download : Bool) (new : List ℕ) (h : History)
      → (queue_if ports auto_download new h).0 ≡ ok tt
      → (queue_if ports auto_download new h).1
        ≡ onto (map queued_download (wanted auto_download new)) h
  unfolding queue_if
  queue_if-ok true [] h e = refl
  queue_if-ok false [] h e = refl
  queue_if-ok true (id ∷ ids) h e = queue_downloads-ok (id ∷ ids) h e
  queue_if-ok false (id ∷ ids) h e = refl
