-- ===== src/Jobs/Metrics.antt =====
-- crates/jobs/src/metrics.rs: outcomes, the counters of a window, and the snapshot.
pub mod Window
pub mod Percentile
use nyuka.Common.{
  ℕ, suc, ◌+◌, ◌-◌, ◌*◌, ◌/◌, min, max, Bool, true, false, ◌&&◌, Option, none, some, List, [], ◌∷◌,
  ◌++◌, leb, ltb, length, get_elem?, get_last?, unwrap_or, if◌then◌else◌,
}
use nyuka.Domain.Enums.{JobKind}
use nyuka.Domain.Errors.{
  DomainError, not_found, conflict, invalid, source, unsupported_capability, storage,
  insufficient_storage, internal,
}

abbrev pub max_samples : ℕ
max_samples = 4096

abbrev pub priority_interactive : ℕ
priority_interactive = 0

pub data Outcome : Type 0 where
  succeeded service_fault source_fault : Outcome

unfoldable pub classify : DomainError → Outcome
classify (source m r) = source_fault
classify (unsupported_capability m) = source_fault
classify (storage m) = service_fault
classify insufficient_storage = service_fault
classify (internal m) = service_fault
classify (invalid m) = service_fault
classify (conflict m) = service_fault
classify not_found = service_fault

pub record Snapshot : Type 0 where
  pub window_secs : ℕ
  pub jobs_succeeded : ℕ
  pub jobs_failed_service : ℕ
  pub jobs_failed_source : ℕ
  pub ttfp_samples : ℕ
  pub ttfp_p50_ms : ℕ
  pub ttfp_p95_ms : ℕ
  pub ttfp_max_ms : ℕ
  pub ttfp_truncated : Bool

unfoldable pub attributable_total : Snapshot → ℕ
attributable_total s = s.jobs_succeeded + s.jobs_failed_service

pub record Metrics : Type 0 where
  pub succeeded : ℕ
  pub failed_service : ℕ
  pub failed_source : ℕ
  pub ttfp : List ℕ
  pub truncated : Bool

abbrev pub fresh : Metrics
fresh = record {
  succeeded = 0;
  failed_service = 0;
  failed_source = 0;
  ttfp = [];
  truncated = false;
}

unfoldable pub record_outcome : Outcome → Metrics → Metrics
record_outcome succeeded m = record m { succeeded = m.succeeded + 1 }
record_outcome service_fault m = record m { failed_service = m.failed_service + 1 }
record_outcome source_fault m = record m { failed_source = m.failed_source + 1 }

-- `elapsed` is in milliseconds, below 2^64 in the `u64` that is stored.
unfoldable pub record_time_to_first_page : ℕ → Metrics → Metrics
record_time_to_first_page elapsed m =
    if leb max_samples (length m.ttfp)
    then record m { truncated = true }
    else record m { ttfp = m.ttfp ++ (min elapsed 18_446_744_073_709_551_615 ∷ []) }

-- `sort_unstable`
unfoldable pub insert_sorted : ℕ → List ℕ → List ℕ
insert_sorted x [] = x ∷ []
insert_sorted x (y ∷ ys) = let rest = y ∷ insert_sorted x ys in if leb x y then x ∷ y ∷ ys else rest

unfoldable pub sort : List ℕ → List ℕ
unfolding insert_sorted
sort [] = []
sort (x ∷ xs) = insert_sorted x (sort xs)

-- The index is in range wherever the list is not empty.
unfoldable pub percentile : List ℕ → ℕ → ℕ
percentile [] p = 0
percentile (x ∷ xs) p =
    let n = length (x ∷ xs) in
    let rank = max ((p * n + 99) / 100) 1 in unwrap_or (get_elem? (x ∷ xs) (min rank n - 1)) 0

-- The snapshot, and the window that the next one starts from.
unfoldable pub take_window : ℕ → Metrics → Snapshot × Metrics
take_window window_secs m =
    let samples = sort m.ttfp in
    (
      record {
        window_secs = window_secs;
        jobs_succeeded = m.succeeded;
        jobs_failed_service = m.failed_service;
        jobs_failed_source = m.failed_source;
        ttfp_samples = length samples;
        ttfp_p50_ms = percentile samples 50;
        ttfp_p95_ms = percentile samples 95;
        ttfp_max_ms = unwrap_or (get_last? samples) 0;
        ttfp_truncated = m.truncated;
      },
      fresh,
    )

-- crates/jobs/src/scheduler.rs: `emit_metrics_if_due`. Where the window is over, its snapshot goes to
-- the log and the next one starts now; times are in microseconds.
unfoldable pub emit_if_due : ℕ → ℕ → ℕ × Metrics → Option Snapshot × (ℕ × Metrics)
emit_if_due window now (started, m) =
    if ltb (now - started) window
    then (none, (started, m))
    else let taken = take_window ((now - started) / 1_000_000) m in (some taken.0, (now, taken.1))

unfoldable pub is_interactive : JobKind → ℕ → Bool
is_interactive JobKind.download_chapter priority = leb priority priority_interactive
is_interactive _ priority = false
