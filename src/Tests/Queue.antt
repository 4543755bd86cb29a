-- ===== src/Tests/Queue.antt =====
-- The queue and its workers on a table of two jobs.
use nyuka.Common.{
  ℕ, ◌+◌, ◌*◌, ◌≤◌, ◌<◌, true, false, none, some, List, [], ◌∷◌, ◌≡◌, ◌≢◌, ◌⊎◌, refl, arith, txt,
  text_eq, All, ◌==◌, if◌then◌else◌,
}
use nyuka.Common.Pairs.{Pairwise}
use nyuka.Domain.Enums.{JobKind, JobState}
use nyuka.Domain.Errors.{DomainError, Result, ok, err}
use nyuka.Domain.Payload.{Json}
use nyuka.Jobs.Names.{kind_to_str, kind_from_str}
use nyuka.Jobs.Exec.{Row, Env, World, statement}
use nyuka.Jobs.Queue.{
  Job, second, backoff, claim, claimed, enqueue, insert_row, holder, has_key, has_id, fail,
  update_where,
}
use nyuka.Jobs.Queue.Rows.{LockMatches, IsConsistent}
use nyuka.Jobs.Queue.Requests.{
  Request, wait, enqueue_job, claim_for, complete_job, fail_job, recover, serve_all,
}
use nyuka.Jobs.Queue.Invariant.{serve_all-IsConsistent}
use nyuka.Jobs.Queue.Claim.{IsDue, IsNext, claim-IsNext}
use nyuka.Jobs.Queue.Claim.Distinct.{claimed_ids, claimed_ids-distinct}
use nyuka.Jobs.Queue.Retry.{Becomes, IsFailed, fail_lem}
use nyuka.Jobs.Queue.Held.{enqueue_twice}
use nyuka.Jobs.Worker.{Pool, release_held}
use nyuka.Jobs.Worker.Outcomes.{announced, counted, turns, outcomes_announced}
use nyuka.Jobs.Worker.Shutdown.{LockedBefore, AllReleased, running_count, shutdown-none_running}
use nyuka.Jobs.Metrics.{fresh}

abbrev steady : Env
steady = record {
  uuid = λ n. n + 1;
  outage = λ n. none;
  from_std = λ d. some d;
  duplicate_key = txt "duplicate key";
  debug = λ t. t;
  uuid_text = λ n. [];
}

abbrev empty : World
empty = record { rows = []; now = 1000; uuids = 0; statements = 0 }

abbrev waiting : ℕ → ℕ → Row
waiting id priority = record {
  id = id;
  kind = kind_to_str JobKind.download_chapter;
  payload = Json.null;
  state = JobState.queued;
  priority = priority;
  run_at = 10;
  attempts = 0;
  max_attempts = 3;
  locked_by = none;
  locked_at = none;
  last_error = none;
  idempotency_key = none;
  created_at = 10;
  updated_at = 10;
}

abbrev busy : Row
busy = record (waiting 2 0) {
  state = JobState.running;
  attempts = 1;
  locked_by = some (txt "worker-0");
  locked_at = some 500;
}

abbrev two_jobs : World
two_jobs = record empty { rows = waiting 1 5 ∷ busy ∷ [] }

abbrev a_day : List Request
a_day =
    enqueue_job JobKind.download_chapter Json.null none (some (txt "k")) 0 3
    ∷ wait 5
    ∷ claim_for (txt "worker-0")
    ∷ fail_job 1 (txt "no") true
    ∷ recover 0
    ∷ complete_job 1
    ∷ []

serve_all-IsConsistent_example : IsConsistent (serve_all steady empty a_day).rows
serve_all-IsConsistent_example =
    serve_all-IsConsistent steady a_day empty (record { apart = tt; locks = tt })

claim-IsNext_example :
    ((j : Job)
      → (claim steady (txt "w") two_jobs).0 ≡ ok (some j)
      → (r : Row) × IsNext 1000 two_jobs.rows r
        × (j.id ≡ r.id)
        × (j.attempts ≡ r.attempts + 1)
        × (j.state ≡ JobState.running)
        × ((claim steady (txt "w") two_jobs).1.rows
            ≡ update_where (has_id r.id) (claimed (txt "w") 1000) two_jobs.rows))
    × ((claim steady (txt "w") two_jobs).0 ≡ ok none
        → All (λ s. ¬ IsDue 1000 s) two_jobs.rows
          × ((claim steady (txt "w") two_jobs).1.rows ≡ two_jobs.rows))
claim-IsNext_example = claim-IsNext steady (txt "w") two_jobs

claimed_ids-distinct_example :
    Pairwise ◌≢◌ (claimed_ids steady ((txt "a", 1) ∷ (txt "b", 1) ∷ []) two_jobs)
claimed_ids-distinct_example =
    claimed_ids-distinct steady ((txt "a", 1) ∷ (txt "b", 1) ∷ []) two_jobs

known_kind : kind_from_str busy.kind ≡ some JobKind.download_chapter
unfolding kind_from_str kind_to_str text_eq
known_kind = refl

fail_lem_example :
    let failed = fail steady 2 (txt "e") true two_jobs in
    ((true ≡ true) × (1 < 3)
      → let next = 1000 + backoff 1 * second in
        (failed.0 ≡ ok (some next))
        × Becomes 2 (IsFailed (txt "e") JobState.queued next busy) two_jobs.rows failed.1.rows)
    × ((true ≡ false) ⊎ (3 ≤ 1)
        → (failed.0 ≡ ok none)
          × Becomes 2
              (IsFailed (txt "e") JobState.failed busy.run_at busy)
              two_jobs.rows
              failed.1.rows)
fail_lem_example =
    fail_lem steady two_jobs busy JobKind.download_chapter (txt "e") true refl refl refl known_kind

enqueue_once_ok :
    (enqueue steady JobKind.download_chapter Json.null none (some (txt "k")) 0 3 empty).0 ≡ ok 1
unfolding enqueue statement insert_row holder has_key
enqueue_once_ok = refl

abbrev meanwhile : List Request
meanwhile = claim_for (txt "w") ∷ wait 9 ∷ complete_job 1 ∷ []

abbrev after_a_while : World
after_a_while =
    serve_all steady
      (enqueue steady JobKind.download_chapter Json.null none (some (txt "k")) 0 3 empty).1
      meanwhile

enqueue_twice_example :
    ((enqueue steady JobKind.download_chapter Json.null
        (some 7)
        (some (txt "k"))
        1
        2
        after_a_while).0
      ≡ ok 1)
    × ((enqueue steady JobKind.download_chapter Json.null
          (some 7)
          (some (txt "k"))
          1
          2
          after_a_while).1.rows
        ≡ after_a_while.rows)
enqueue_twice_example =
    enqueue_twice steady JobKind.download_chapter JobKind.download_chapter Json.null Json.null none
      (some 7) (txt "k") 0 1 3 2 empty 1 meanwhile enqueue_once_ok (refl, (refl, (refl, tt))) refl

abbrev start : Pool
start = record { world = two_jobs; metrics = fresh; events = [] }

-- The job 1 fails, and others succeed.
abbrev handler : Job → Pool → Result (Unit {0}) × Pool
handler job p = (if job.id == 1 then err DomainError.insufficient_storage else ok tt, p)

outcomes_announced_example :
    counted (turns steady handler 1000 (0 ∷ 1 ∷ []) start).metrics + announced start.events
    ≡ counted start.metrics + announced (turns steady handler 1000 (0 ∷ 1 ∷ []) start).events
outcomes_announced_example =
    outcomes_announced steady handler (λ job p. refl) 1000 (0 ∷ 1 ∷ []) start

both_match : All LockMatches two_jobs.rows
both_match = ((λ h. cc, λ h. (refl, refl)), ((λ h. (refl, refl), λ h. absurd (h refl)), tt))

both_before : All (LockedBefore 1000) two_jobs.rows
both_before = (λ u h. cc, (λ u h. let q : 500 ≡ u = cc in omega arith, tt))

shutdown-none_running_example :
    ((release_held steady two_jobs).0 ≡ running_count two_jobs.rows)
    × AllReleased 1000 two_jobs.rows (release_held steady two_jobs).1.rows
shutdown-none_running_example =
    shutdown-none_running steady two_jobs refl refl both_match both_before
