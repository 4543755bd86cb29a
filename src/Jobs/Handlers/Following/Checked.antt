-- ===== src/Jobs/Handlers/Following/Checked.antt =====
-- A follow is marked as checked once the series was refreshed and its new chapters were announced
-- and, if wanted, queued.
use nyuka.Common.{ℕ, List, ◌∷◌, map, ◌≡◌, ◌≢◌}
use nyuka.Domain.Errors.{DomainError, not_found, Result, ok, err}
use nyuka.Domain.Library.{Follow}
use nyuka.Jobs.Handlers.{Ports, History, got_follow, marked_checked}
use nyuka.Jobs.Handlers.Following.Refreshed.{onto, IsRefreshed}
use nyuka.Jobs.Handlers.Following.Queued.{queued_download, wanted}
use nyuka.Jobs.Handlers.Following.Unmarked.{marks}

module _ (ports : Ports) where
  -- The follow was found, its series refreshed, each of the new chapters queued if the follow wants
  -- that, and then it was marked as checked.
  pub record IsChecked (follow_id : ℕ) (before : History) (r : Result (Unit {0}) × History)
      : Type 0 where
    pub follow : Follow
    pub new : List ℕ
    pub refreshed : History
    pub found : ports.get_follow before follow_id ≡ ok follow
    pub up_to_date : IsRefreshed ports follow.manga_id (got_follow follow_id ∷ before) new refreshed
    pub answer :
        r.0
        ≡ ports.mark_checked
            (onto (map (queued_download ports) (wanted ports follow.auto_download new)) refreshed)
            follow_id
    pub trace :
        r.1
        ≡ marked_checked follow_id
          ∷ onto (map (queued_download ports) (wanted ports follow.auto_download new)) refreshed

  -- A follow that was removed in the meantime.
  abbrev pub IsGone : ℕ → History → Result (Unit {0}) × History → Type 0
  IsGone follow_id before r =
      (ports.get_follow before follow_id ≡ err not_found)
      × (r ≡ (ok tt, got_follow follow_id ∷ before))

  -- Something failed, but not for want of the follow, and nothing was marked.
  abbrev pub FailsUnmarked : ℕ → History → Result (Unit {0}) × History → Type 0
  FailsUnmarked follow_id before r =
      (ports.get_follow before follow_id ≢ err not_found)
      × ((e : DomainError) × (r.0 ≡ err e) × (marks r.1 ≡ marks before))
