-- ===== src/Jobs/Worker.antt =====
-- crates/jobs/src/worker.rs: a worker's turns, and the shutdown of the pool.
pub mod Outcomes
pub mod Shutdown
use nyuka.Common.{
  ℕ, suc, ◌+◌, ◌-◌, ◌*◌, ◌/◌, ◌%◌, Bool, true, false, ◌&&◌, Option, none, some, List, [], ◌∷◌, ◌++◌,
  leb, Text, txt, if◌then◌else◌,
}
use nyuka.Common.Decimal.{decimal}
use nyuka.Domain.Enums.{JobState}
use nyuka.Domain.Errors.{DomainError, is_retryable, error_text, Result, ok, err}
use nyuka.Jobs.Exec.{Env, World}
use nyuka.Jobs.Queue.{Job, claim, complete, fail}
use nyuka.Jobs.Queue.Upkeep.{recover_stale}
use nyuka.Jobs.Metrics.{
  Outcome, succeeded, classify, Metrics, record_outcome, record_time_to_first_page, is_interactive,
}

-- crates/domain/src/model.rs: `JobEvent`
pub data JobEvent : Type 0 where
  job_progress : ℕ → ℕ → ℕ → ℕ → JobEvent
  job_state : ℕ → JobState → JobEvent
  chapter_new : ℕ → ℕ → JobEvent
  chapter_downloaded : ℕ → ℕ → JobEvent
  source_updated : ℕ → JobEvent

-- What the workers share: the queue's state, the counters, and the events published, oldest first.
pub record Pool : Type 0 where
  pub world : World
  pub metrics : Metrics
  pub events : List JobEvent

-- After a turn the worker looks at the queue again, at once or after a pause in milliseconds that
-- a shutdown cuts short.
pub data Next : Type 0 where
  again : Next
  after : ℕ → Next

abbrev pub publish : JobEvent → Pool → Pool
publish e pool = record pool { events = pool.events ++ (e ∷ []) }

-- `interactive && let Ok(elapsed) = (now - created_at).to_std()`
unfoldable pub observe_first_page : Job → Pool → Pool
observe_first_page job pool =
    if is_interactive job.kind job.priority && leb job.created_at pool.world.now
    then record pool {
      metrics = record_time_to_first_page ((pool.world.now - job.created_at) / 1000) pool.metrics;
    }
    else pool

unfoldable pub succeed : Env → Job → Pool → Pool
succeed env job pool = observe_first_page job (
    publish (job_state job.id JobState.succeeded) (record pool {
      world = (complete env job.id pool.world).1;
      metrics = record_outcome Outcome.succeeded pool.metrics;
    }))

-- The arm after `queue.fail`: `_` is an error of the queue as well as a job without a next run.
unfoldable pub announce_failure : Job → DomainError → Result (Option ℕ) → Pool → Pool
announce_failure job e (ok (some next)) pool = publish (job_state job.id JobState.queued) pool
announce_failure job e _ pool =
    publish (job_state job.id JobState.failed)
      (record pool { metrics = record_outcome (classify e) pool.metrics })

unfoldable pub failing : Env → Job → DomainError → Pool → Pool
failing env job e pool =
    let r = fail env job.id (error_text e) (is_retryable e) pool.world in
    announce_failure job e r.0 (record pool { world = r.1 })

-- A handler is any of the `JobHandler`s: it works on the queue's state and publishes events.
module _ (env : Env) (handle : Job → Pool → Result (Unit {0}) × Pool) where
  unfoldable pub run_job : Job → Pool → Pool
  run_job job pool =
      let r = handle job pool in
      elim r.0 [ ok u ↦ succeed env job r.1 | err e ↦ failing env job e r.1 ]

  unfoldable pub after_claim : ℕ → ℕ → Result (Option Job) → Pool → Next × Pool
  after_claim index poll (err e) pool = (after poll, pool)
  after_claim index poll (ok none) pool = (after (poll + (index * 37) % 250), pool)
  after_claim index poll (ok (some job)) pool = (again, run_job job pool)

  -- One round of the loop of `run_worker`; `poll` is in milliseconds.
  unfoldable pub turn : ℕ → ℕ → Pool → Next × Pool
  turn index poll pool =
      let c = claim env (txt "worker-" ++ decimal index) pool.world in
      after_claim index poll c.0 (record pool { world = c.1 })

-- `unwrap_or(0)`
abbrev pub report : Result ℕ × World → ℕ × World
report (ok n, w) = (n, w)
report (err e, w) = (0, w)

-- `shutdown` once the workers have stopped: `released` of its report, and what is left.
unfoldable pub release_held : Env → World → ℕ × World
release_held env w = report (recover_stale env 0 w)
