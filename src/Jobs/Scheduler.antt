-- ===== src/Jobs/Scheduler.antt =====
-- crates/jobs/src/scheduler.rs: the periods, one tick, and the retention check. Durations are
-- microseconds.
pub mod Keys
pub mod Repeats
pub mod Retention
use nyuka.Common.{
  ℕ, suc, ◌+◌, ◌*◌, ◌/◌, max, ℤ, pos, pos_part, div_euclid, Bool, not, Text, txt, text_eq, Option,
  none, some, List, [], ◌∷◌, ◌++◌, leb, if◌then◌else◌, unwrap_or,
}
use nyuka.Common.Decimal.{decimal, decimal_ℤ}
use nyuka.Domain.Enums.{JobKind}
use nyuka.Domain.Errors.{DomainError, invalid, Result, ok, err}
use nyuka.Domain.Payload.{Json, Fields}
use nyuka.Jobs.Exec.{Env, World, pure, lift, clock, ◌>>=◌, ◌>>◌}
use nyuka.Jobs.Names.{kind_to_str}
use nyuka.Jobs.Queue.{second, key_exists, enqueue}
use nyuka.Jobs.Queue.Upkeep.{recover_stale}

pub record Periodic : Type 0 where
  pub kind : JobKind
  pub every : ℕ
  pub priority : ℕ
  pub max_attempts : ℕ

abbrev pub day : ℕ
day = 24 * 60 * 60 * second

abbrev pub hour : ℕ
hour = 60 * 60 * second

abbrev pub default_schedule : List Periodic
default_schedule =
    record { kind = JobKind.update_sources; every = day; priority = 10; max_attempts = 3 }
    ∷ record { kind = JobKind.prune_jobs; every = day; priority = 20; max_attempts = 1 }
    ∷ record { kind = JobKind.prune_sessions; every = hour; priority = 20; max_attempts = 1 }
    ∷ record { kind = JobKind.reconcile_library; every = day; priority = 20; max_attempts = 1 }
    ∷ []

-- `now` is in microseconds, and `timestamp` rounds it down to seconds.
unfoldable pub bucket : ℕ → ℤ → ℤ
bucket every now =
    let secs = max (every / second) 1 in
    let timestamp = div_euclid now second in div_euclid timestamp secs

unfoldable pub period_key : Text → ℕ → ℤ → Text
period_key prefix every now = prefix ++ (b':' ∷ decimal_ℤ (bucket every now))

pub record SchedulerConfig : Type 0 where
  pub tick : ℕ
  pub metrics_window : ℕ
  pub stale_after : ℕ
  pub follow_batch : ℕ
  pub schedule : List Periodic

abbrev pub default_config : SchedulerConfig
default_config = record {
  tick = 60 * second;
  metrics_window = hour;
  stale_after = 900 * second;
  follow_batch = 200;
  schedule = default_schedule;
}

pub record TickReport : Type 0 where
  pub enqueued : List (Text × ℕ)
  pub follows : ℕ
  pub recovered : ℕ

-- `*report.enqueued.entry(kind).or_default() += 1`
unfoldable pub bump : Text → List (Text × ℕ) → List (Text × ℕ)
bump k [] = (k, 1) ∷ []
bump k ((j, n) ∷ rest) = if text_eq j k then (j, n + 1) ∷ rest else (j, n) ∷ bump k rest

-- The two statements behind each entry of a tick: whether the key was new, once it is queued.
unfoldable pub enqueue_once : Env → JobKind → Json → Text → ℕ → ℕ → World → Result Bool × World
enqueue_once env kind payload key priority max_attempts = do
  before ← key_exists env key
  enqueue env kind payload none (some key) priority max_attempts
  pure (not before)

count_periodic : Periodic → Bool → TickReport → TickReport
count_periodic p fresh report =
    if fresh then record report { enqueued = bump (kind_to_str p.kind) report.enqueued } else report

unfoldable pub periodic_key : Periodic → ℤ → Text
periodic_key p now = period_key (kind_to_str p.kind) p.every now

unfoldable pub run_schedule :
    Env → ℤ → List Periodic → TickReport → World → Result TickReport × World
unfolding count_periodic
run_schedule env now [] report = pure report
run_schedule env now (p ∷ rest) report = do
  fresh ←
      enqueue_once env p.kind (Json.object Fields.end) (periodic_key p now) p.priority
        p.max_attempts
  run_schedule env now rest (count_periodic p fresh report)

-- crates/domain/src/model.rs: the fields of `Follow` that a tick reads
pub record Follow : Type 0 where
  pub id : ℕ
  pub manga_id : ℕ
  pub check_interval_secs : ℤ
  pub auto_download : Bool

unfoldable pub follow_key : Env → Follow → ℤ → Text
follow_key env f now =
    period_key (txt "check_follow:" ++ env.uuid_text f.id)
      (max (pos_part f.check_interval_secs) 1 * second) now

abbrev pub follow_payload : Env → Follow → Json
follow_payload env f =
    Json.object (Fields.field (txt "follow_id") (Json.string (env.uuid_text f.id)) Fields.end)

count_follow : Bool → TickReport → TickReport
count_follow fresh report = if fresh then record report { follows = report.follows + 1 } else report

unfoldable pub run_follows : Env → ℤ → List Follow → TickReport → World → Result TickReport × World
unfolding count_follow
run_follows env now [] report = pure report
run_follows env now (f ∷ rest) report = do
  fresh ← enqueue_once env JobKind.check_follow (follow_payload env f) (follow_key env f now) 5 3
  run_follows env now rest (count_follow fresh report)

-- One pass, less the metrics snapshot that it begins with (`Metrics.emit_if_due`). `due` is what
-- the follow repository answers for a batch size.
unfoldable pub tick_at :
    Env → SchedulerConfig → (ℕ → Result (List Follow)) → ℤ → World → Result TickReport × World
tick_at env config due now = do
  recovered ← recover_stale env config.stale_after
  report ←
      run_schedule env now config.schedule
        (record { enqueued = []; follows = 0; recovered = recovered })
  follows ← lift (due config.follow_batch)
  run_follows env now follows report

unfoldable pub tick :
    Env → SchedulerConfig → (ℕ → Result (List Follow)) → World → Result TickReport × World
tick env config due = do now ← clock; tick_at env config due (pos now)

pub longest : List Periodic → ℕ
longest [] = 0
longest (p ∷ rest) = max p.every (longest rest)

-- `from_std(longest).unwrap_or(zero())`
abbrev pub longest_or_zero : (ℕ → Option ℕ) → List Periodic → ℕ
longest_or_zero from_std schedule = unwrap_or (from_std (longest schedule)) 0

-- `from_std` is that of `chrono::Duration`.
unfoldable pub check_retention : (ℕ → Option ℕ) → ℕ → List Periodic → Result (Unit {0})
unfolding longest
check_retention from_std retention schedule =
    let longest = longest_or_zero from_std schedule in
    if leb retention longest
    then err (
        invalid (
          txt "job retention of "
          ++ (decimal (retention / hour)
              ++ (txt " hours is not longer than the longest schedule period of "
                  ++ (decimal (longest / hour)
                      ++ txt
                          " hours; pruned rows would let that schedule fire more than once per period")))))
    else ok tt
