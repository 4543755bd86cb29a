-- ===== src/Jobs/Queue/Upkeep.antt =====
-- crates/jobs/src/queue.rs: recovery of stale locks, the listings, and pruning.
use nyuka.Common.{
  ℕ, ◌-◌, Bool, true, false, not, Option, none, some, List, [], ◌∷◌, ltb, leb, if◌then◌else◌, keep,
  take, length, unwrap_or, ◌*◌,
}
use nyuka.Domain.Errors.{Result, ok, err}
use nyuka.Domain.Enums.{JobState}
use nyuka.Jobs.Exec.{Row, Env, World, ◌>>=◌, lift, statement}
use nyuka.Jobs.Queue.{Job, second, row_to_job, update_where}

unfoldable pub is_stale : ℕ → Row → Bool
is_stale cutoff r = elim r.state [
  | JobState.running ↦ elim r.locked_at [ none ↦ false | some t ↦ ltb t cutoff ]
  | _ ↦ false
]

unfoldable pub released : ℕ → Row → Row
released now r = record r {
  state = JobState.queued;
  locked_by = none;
  locked_at = none;
  updated_at = now;
}

-- `from_std(older_than).unwrap_or(seconds(900))`
abbrev pub stale_age : Env → ℕ → ℕ
stale_age env older_than = unwrap_or (env.from_std older_than) (900 * second)

-- `older_than` is in microseconds; a lock older than the epoch does not exist.
unfoldable pub recover_stale : Env → ℕ → World → Result ℕ × World
recover_stale env older_than w =
    let cutoff = w.now - stale_age env older_than in
    statement env
      (λ now rows. (
        ok (length (keep (is_stale cutoff) rows)),
        update_where (is_stale cutoff) (released now) rows,
      ))
      w

-- `ORDER BY created_at DESC`
insert_by_age : Row → List Row → List Row
insert_by_age r [] = r ∷ []
insert_by_age r (s ∷ rows) =
    let rest = s ∷ insert_by_age r rows in
    if leb s.created_at r.created_at then r ∷ s ∷ rows else rest

by_age : List Row → List Row
by_age [] = []
by_age (r ∷ rows) = insert_by_age r (by_age rows)

unfoldable pub same_state : JobState → JobState → Bool
same_state JobState.queued JobState.queued = true
same_state JobState.running JobState.running = true
same_state JobState.succeeded JobState.succeeded = true
same_state JobState.failed JobState.failed = true
same_state JobState.cancelled JobState.cancelled = true
same_state _ _ = false

listed : Option JobState → Row → Bool
listed none r = true
listed (some s) r = same_state r.state s

-- `collect::<Result<Vec<_>>>()`
pub collect {ℓ κ} : {A : Type ℓ} {B : Type κ} → (A → Result B) → List A → Result (List B)
collect f [] = ok []
collect f (r ∷ rows) = elim (f r) [
  | err e ↦ err e
  | ok j ↦ elim (collect f rows) [ err e ↦ err e | ok js ↦ ok (j ∷ js) ]
]

unfoldable pub list : Env → Option JobState → ℕ → World → Result (List Job) × World
unfolding by_age insert_by_age listed collect same_state
list env state limit = do
  rows ← statement env (λ now rows. (ok (take limit (by_age (keep (listed state) rows))), rows))
  lift (collect (row_to_job env) rows)

-- `state IN ('succeeded', 'cancelled') AND updated_at < $1`
unfoldable pub prunable : ℕ → Row → Bool
prunable cutoff r = elim r.state [
  | JobState.succeeded ↦ ltb r.updated_at cutoff
  | JobState.cancelled ↦ ltb r.updated_at cutoff
  | _ ↦ false
]

unfoldable pub prune : Env → ℕ → World → Result ℕ × World
prune env older_than w =
    let cutoff = w.now - older_than in
    statement env
      (λ now rows.
        (ok (length (keep (prunable cutoff) rows)), keep (λ r. not (prunable cutoff r)) rows))
      w
