-- ===== src/Jobs/Worker/Outcomes.antt =====
-- What is counted is what is announced.
use nyuka.Common.{
  ℕ, suc, ◌+◌, ◌-◌, ◌/◌, ◌&&◌, Option, none, some, List, [], ◌∷◌, ◌++◌, leb, ◌≡◌, inl, inr, arith,
  Bool-cases,
}
use nyuka.Domain.Enums.{JobState}
use nyuka.Domain.Errors.{DomainError, Result, ok, err}
use nyuka.Jobs.Exec.{Env}
use nyuka.Jobs.Queue.{Job}
use nyuka.Jobs.Metrics.{
  Outcome, succeeded, service_fault, source_fault, classify, Metrics, record_outcome,
  record_time_to_first_page, is_interactive,
}
use nyuka.Jobs.Worker.{
  JobEvent, job_state, Pool, observe_first_page, succeed, announce_failure, failing, run_job,
  after_claim, turn,
}

abbrev pub is_final : JobEvent → ℕ
is_final (job_state id JobState.succeeded) = 1
is_final (job_state id JobState.failed) = 1
is_final _ = 0

-- How many jobs were announced as succeeded or failed.
abbrev pub announced : List JobEvent → ℕ
announced [] = 0
announced (e ∷ es) = is_final e + announced es

-- How many outcomes are counted.
abbrev pub counted : Metrics → ℕ
counted m = m.succeeded + m.failed_service + m.failed_source

announced-append :
    (es : List JobEvent) (e : JobEvent) → announced (es ++ (e ∷ [])) ≡ announced es + is_final e
announced-append [] e = omega arith
announced-append (d ∷ es) e = omega (arith, announced-append es e)

counted-record_outcome :
    (o : Outcome) (m : Metrics) → counted (record_outcome o m) ≡ suc (counted m)
unfolding record_outcome
counted-record_outcome succeeded m = omega arith
counted-record_outcome service_fault m = omega arith
counted-record_outcome source_fault m = omega arith

counted-record_time : (t : ℕ) (m : Metrics) → counted (record_time_to_first_page t m) ≡ counted m
unfolding record_time_to_first_page
counted-record_time t m = ground arith

-- The counters and the announcements moved by the same number.
abbrev pub InStep : Pool → Pool → Type 0
InStep p q = counted q.metrics + announced p.events ≡ counted p.metrics + announced q.events

observe-InStep : (job : Job) (p q : Pool) → InStep p q → InStep p (observe_first_page job q)
unfolding observe_first_page
observe-InStep job p q h =
    elim (Bool-cases (is_interactive job.kind job.priority && leb job.created_at q.world.now)) [
      | inl e ↦
          rw e (
            omega (arith, h, counted-record_time ((q.world.now - job.created_at) / 1000) q.metrics))
      | inr e ↦ rw e h
    ]

succeed-InStep : (env : Env) (job : Job) (p q : Pool) → InStep p q → InStep p (succeed env job q)
unfolding succeed
succeed-InStep env job p q h = observe-InStep job p _ (
    omega (
      arith,
      h,
      counted-record_outcome Outcome.succeeded q.metrics,
      announced-append q.events (job_state job.id JobState.succeeded),
    ))

failed-InStep :
    (job : Job) (e : DomainError) (r : Result (Option ℕ)) (p q : Pool)
    → InStep p q
    → InStep p (announce_failure job e r q)
unfolding announce_failure
failed-InStep job e (ok (some next)) p q h =
    omega (arith, h, announced-append q.events (job_state job.id JobState.queued))
failed-InStep job e (ok none) p q h = omega (
  arith,
  h,
  counted-record_outcome (classify e) q.metrics,
  announced-append q.events (job_state job.id JobState.failed),
)
failed-InStep job e (err d) p q h = omega (
  arith,
  h,
  counted-record_outcome (classify e) q.metrics,
  announced-append q.events (job_state job.id JobState.failed),
)

failing-InStep :
    (env : Env) (job : Job) (e : DomainError) (p q : Pool)
    → InStep p q
    → InStep p (failing env job e q)
unfolding failing
failing-InStep env job e p q h = failed-InStep job e _ p _ h

module _ (env : Env) (handle : Job → Pool → Result (Unit {0}) × Pool) where
  -- A handler counts nothing and announces no end: that is the worker's part.
  abbrev pub KeepsCount : Type 0
  KeepsCount = (job : Job) (p : Pool) → InStep p (handle job p).1

  run_job-InStep :
      KeepsCount → (job : Job) (p q : Pool) → InStep p q → InStep p (run_job env handle job q)
  unfolding run_job
  run_job-InStep k job p q h = ended (handle job q).0 (handle job q).1 (omega (arith, h, k job q))
    where
      ended :
          (r : Result (Unit {0})) (after_it : Pool)
          → InStep p after_it
          → InStep p
              (elim r [ ok u ↦ succeed env job after_it | err e ↦ failing env job e after_it ])
      ended (ok u) s i = succeed-InStep env job p s i
      ended (err e) s i = failing-InStep env job e p s i

  claimed-InStep :
      KeepsCount
      → (index poll : ℕ) (r : Result (Option Job)) (p q : Pool) → InStep p q
      → InStep p (after_claim env handle index poll r q).1
  unfolding after_claim
  claimed-InStep k index poll (err e) p q h = h
  claimed-InStep k index poll (ok none) p q h = h
  claimed-InStep k index poll (ok (some job)) p q h = run_job-InStep k job p q h

  turn-InStep : KeepsCount → (index poll : ℕ) (p : Pool) → InStep p (turn env handle index poll p).1
  unfolding turn
  turn-InStep k index poll p = claimed-InStep k index poll _ p _ (omega arith)

  -- Turns of workers by their index, in the order in which they take them.
  abbrev pub turns : ℕ → List ℕ → Pool → Pool
  turns poll [] p = p
  turns poll (i ∷ is) p = turns poll is (turn env handle i poll p).1

  -- Whatever turns the workers take, and whatever the queue and the handlers do in them, as many
  -- outcomes are counted as ends of jobs are announced, where handlers neither count outcomes nor
  -- announce ends.
  pub outcomes_announced :
      KeepsCount
      → (poll : ℕ) (is : List ℕ) (p : Pool)
      → counted (turns poll is p).metrics + announced p.events
        ≡ counted p.metrics + announced (turns poll is p).events
  outcomes_announced k poll [] p = omega arith
  outcomes_announced k poll (i ∷ is) p =
      omega
        (arith, turn-InStep k i poll p, outcomes_announced k poll is (turn env handle i poll p).1)
