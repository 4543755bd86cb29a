-- ===== src/Tests/Scheduling.antt =====
-- The scheduler over two ticks, and the counters of a window.
use nyuka.Common.{
  min, ltb, take, ℕ, ◌+◌, ◌*◌, ◌-◌, pos, true, none, some, List, [], ◌∷◌, ◌≡◌, ◌↔◌, refl, arith,
  txt, text_eq, div_euclid, length, Member, here,
}
use nyuka.Common.Decimal.{decimal, decimal_ℤ}
use nyuka.Domain.Enums.{JobKind, JobState}
use nyuka.Domain.Errors.{ok}
use nyuka.Domain.Payload.{Json}
use nyuka.Jobs.Names.{kind_to_str}
use nyuka.Jobs.Exec.{Row, Env, World, ◌>>=◌, statement}
use nyuka.Jobs.Queue.{
  second, update_where, key_exists, enqueue, holder, has_key, insert_row, new_row,
}
use nyuka.Jobs.Queue.Upkeep.{stale_age, is_stale, released, prune, recover_stale}
use nyuka.Jobs.Scheduler.{
  Periodic, SchedulerConfig, default_schedule, day, hour, bucket, period_key, periodic_key, Follow,
  follow_key, TickReport, tick, tick_at, run_schedule, enqueue_once, run_follows, bump,
  check_retention,
}
use nyuka.Jobs.Scheduler.Keys.{period_key-injective}
use nyuka.Jobs.Scheduler.Repeats.{tick_again}
use nyuka.Jobs.Scheduler.Retention.{prune-keeps_period}
use nyuka.Jobs.Metrics.{Outcome, fresh, max_samples, percentile, take_window}
use nyuka.Jobs.Metrics.Percentile.{IsPercentile, percentile_share}
use nyuka.Jobs.Metrics.Window.{
  Event, finished, shown_after, observe, outcomes, is_succeeded, is_service_fault, is_source_fault,
  snapshot_counts, times, IsSummary,
}

period_key-injective_example :
    (period_key (txt "a") hour (pos 5) ≡ period_key (txt "a") hour (pos 7))
    ↔ ((txt "a" ≡ txt "a") × (bucket hour (pos 5) ≡ bucket hour (pos 7)))
period_key-injective_example = period_key-injective (txt "a") (txt "a") hour hour (pos 5) (pos 7)

percentile_share_example : IsPercentile 50 (1 ∷ 4 ∷ 9 ∷ []) (percentile (1 ∷ 4 ∷ 9 ∷ []) 50)
percentile_share_example =
    percentile_share (1 ∷ 4 ∷ 9 ∷ []) 50
      ((omega arith, (omega arith, tt)), ((omega arith, tt), (tt, tt))) (omega arith) (omega arith)
      (omega arith)

abbrev seen : List Event
seen =
    finished Outcome.succeeded ∷ shown_after 40 ∷ finished Outcome.source_fault ∷ shown_after 7 ∷ []

snapshot_counts_example :
    let taken = take_window 60 (observe seen fresh) in
    (taken.0.jobs_succeeded ≡ outcomes is_succeeded seen)
    × (taken.0.jobs_failed_service ≡ outcomes is_service_fault seen)
    × (taken.0.jobs_failed_source ≡ outcomes is_source_fault seen)
    × (taken.0.ttfp_samples ≡ min (length (times seen)) max_samples)
    × (taken.0.ttfp_truncated ≡ ltb max_samples (length (times seen)))
    × IsSummary (take max_samples (times seen)) taken.0
    × (taken.1 ≡ fresh)
snapshot_counts_example = snapshot_counts seen 60

abbrev steady : Env
steady = record {
  uuid = λ n. n + 1;
  outage = λ n. none;
  from_std = λ d. some d;
  duplicate_key = txt "duplicate key";
  debug = λ t. t;
  uuid_text = λ n. txt "u";
}

abbrev today : ℕ
today = 50 * day

abbrev old_row : Row
old_row = record {
  id = 9;
  kind = kind_to_str JobKind.prune_jobs;
  payload = Json.null;
  state = JobState.succeeded;
  priority = 0;
  run_at = 10;
  attempts = 1;
  max_attempts = 1;
  locked_by = none;
  locked_at = none;
  last_error = none;
  idempotency_key = none;
  created_at = today;
  updated_at = today + 5;
}

abbrev morning : World
morning = record { rows = old_row ∷ []; now = today + 7 * hour; uuids = 0; statements = 0 }

abbrev daily : Periodic
daily = record { kind = JobKind.update_sources; every = day; priority = 10; max_attempts = 3 }

accepted : check_retention steady.from_std (30 * day) default_schedule ≡ ok tt
unfolding check_retention
accepted = refl

same_day : bucket day (pos old_row.updated_at) ≡ bucket day (pos morning.now)
unfolding bucket div_euclid
same_day = refl

prune-keeps_period_example : Member old_row (prune steady (30 * day) morning).1.rows
prune-keeps_period_example =
    prune-keeps_period steady default_schedule (30 * day) daily old_row morning accepted refl here
      (omega arith) here same_day

abbrev config : SchedulerConfig
config = record {
  tick = 60 * second;
  metrics_window = hour;
  stale_after = 900 * second;
  follow_batch = 200;
  schedule = daily ∷ [];
}

abbrev followed : Follow
followed = record { id = 3; manga_id = 4; check_interval_secs = pos 86_400; auto_download = true }

abbrev first_report : TickReport
first_report = record {
  enqueued = (kind_to_str JobKind.update_sources, 1) ∷ [];
  follows = 1;
  recovered = 0;
}

first_tick : (tick steady config (λ b. ok (followed ∷ [])) morning).0 ≡ ok first_report
unfolding tick ◌>>=◌ tick_at recover_stale statement run_schedule enqueue_once key_exists enqueue
    holder update_where has_key is_stale run_follows text_eq periodic_key period_key kind_to_str
    decimal decimal_ℤ div_euclid released insert_row new_row bucket bump follow_key
first_tick = refl

same_period :
    periodic_key daily (pos (today + 8 * hour)) ≡ periodic_key daily (pos (today + 7 * hour))
unfolding periodic_key period_key bucket div_euclid
same_period = refl

same_follow :
    follow_key steady followed (pos (today + 8 * hour))
    ≡ follow_key steady followed (pos (today + 7 * hour))
unfolding follow_key period_key bucket div_euclid
same_follow = refl

tick_again_example :
    let w' = record (tick steady config (λ b. ok (followed ∷ [])) morning).1 {
      now = today + 8 * hour;
    } in
    (n : ℕ) × ((tick steady config (λ b. ok (followed ∷ [])) w').0
      ≡ ok (record { enqueued = []; follows = 0; recovered = n }))
    × ((tick steady config (λ b. ok (followed ∷ [])) w').1.rows
        ≡ update_where
            (is_stale (today + 8 * hour - stale_age steady config.stale_after))
            (released (today + 8 * hour))
            w'.rows)
tick_again_example =
    tick_again steady config (followed ∷ []) morning first_report (today + 8 * hour) (λ n. refl)
      first_tick (same_period, tt) (same_follow, tt)
