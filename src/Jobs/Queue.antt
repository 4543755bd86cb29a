-- ===== src/Jobs/Queue.antt =====
-- crates/jobs/src/queue.rs: `PostgresQueue`. Each statement is a function on the table.
pub mod Rows
pub mod Upkeep
pub mod Requests
pub mod Held
pub mod Invariant
pub mod Claim
pub mod Retry
pub mod Idempotent
use nyuka.Common.{
  ℕ, suc, ◌+◌, ◌-◌, ◌*◌, ◌^◌, ◌%◌, min, Bool, true, false, not, ◌&&◌, ◌||◌, Text, txt, text_eq,
  Option, none, some, List, [], ◌∷◌, ◌++◌, ltb, leb, ◌==◌, if◌then◌else◌, any, keep, find, take,
  length, map,
}
use nyuka.Domain.Errors.{DomainError, not_found, storage, internal, Result, ok, err}
use nyuka.Domain.Enums.{JobKind, JobState}
use nyuka.Domain.Payload.{Json}
use nyuka.Jobs.Names.{kind_to_str, kind_from_str, state_to_str, state_from_str}
use nyuka.Jobs.Exec.{Row, Env, World, ◌>>=◌, ◌>>◌, pure, lift, clock, statement}

-- crates/domain/src/model.rs: `Job`
pub record Job : Type 0 where
  pub id : ℕ
  pub kind : JobKind
  pub state : JobState
  pub payload : Json
  pub priority : ℕ
  pub run_at : ℕ
  pub attempts : ℕ
  pub max_attempts : ℕ
  pub last_error : Option Text
  pub created_at : ℕ

abbrev pub second : ℕ
second = 1_000_000

-- In seconds. `attempt` counts from 0, so the lower end of `clamp` is never reached.
unfoldable pub backoff : ℕ → ℕ
backoff attempt =
    let base = 2 ^ min attempt 10 in
    let capped = min base 3600 in let jitter = (attempt * 7919) % 30 in capped + jitter

of_kind : Row → Option JobKind → Option JobState → Env → Result Job
of_kind r (some k) (some s) env = ok (record {
  id = r.id;
  kind = k;
  state = s;
  payload = r.payload;
  priority = r.priority;
  run_at = r.run_at;
  attempts = r.attempts;
  max_attempts = r.max_attempts;
  last_error = r.last_error;
  created_at = r.created_at;
})
of_kind r (some k) none env =
    err (internal (txt "unknown job state " ++ env.debug (state_to_str r.state)))
of_kind r none s env = err (internal (txt "unknown job kind " ++ env.debug r.kind))

unfoldable pub row_to_job : Env → Row → Result Job
unfolding of_kind
row_to_job env r = of_kind r (kind_from_str r.kind) (state_from_str (state_to_str r.state)) env

unfoldable pub has_key : Text → Row → Bool
has_key k r = elim r.idempotency_key [ none ↦ false | some j ↦ text_eq j k ]

-- The row that a key conflicts with: a NULL key conflicts with none.
unfoldable pub holder : Option Text → List Row → Option Row
holder none rows = none
holder (some k) rows = find (has_key k) rows

-- `INSERT … ON CONFLICT (idempotency_key) DO UPDATE SET updated_at = job.updated_at RETURNING id`
unfoldable pub insert_row : Env → Row → List Row → Result ℕ × List Row
insert_row env r rows = elim (holder r.idempotency_key rows) [
  | some held ↦ (ok held.id, rows)
  | none ↦
      if any (λ s. s.id == r.id) rows
      then (err (storage env.duplicate_key), rows)
      else (ok r.id, rows ++ (r ∷ []))
]

unfoldable pub new_row : ℕ → JobKind → Json → Option ℕ → Option Text → ℕ → ℕ → ℕ → Row
new_row id kind payload run_at key priority max_attempts now = record {
  id = id;
  kind = kind_to_str kind;
  payload = payload;
  state = JobState.queued;
  priority = priority;
  run_at = elim run_at [ none ↦ now | some t ↦ t ];
  attempts = 0;
  max_attempts = max_attempts;
  locked_by = none;
  locked_at = none;
  last_error = none;
  idempotency_key = key;
  created_at = now;
  updated_at = now;
}

unfoldable pub enqueue :
    Env → JobKind → Json → Option ℕ → Option Text → ℕ → ℕ → World → Result ℕ × World
unfolding insert_row new_row
enqueue env kind payload run_at key priority max_attempts w =
    statement env
      (λ now.
        insert_row env
          (new_row (env.uuid w.uuids) kind payload run_at key priority max_attempts now))
      (record w { uuids = suc w.uuids })

unfoldable pub key_exists : Env → Text → World → Result Bool × World
key_exists env key = statement env (λ now rows. (ok (any (has_key key) rows), rows))

-- `WHERE state = 'queued' AND run_at <= now()`
unfoldable pub runnable : ℕ → Row → Bool
runnable now r = elim r.state [ JobState.queued ↦ leb r.run_at now | _ ↦ false ]

-- `ORDER BY priority, run_at`
unfoldable pub before : Row → Row → Bool
before r s = ltb r.priority s.priority || (r.priority == s.priority && ltb r.run_at s.run_at)

unfoldable pub pick : Row → Option Row → Option Row
pick r none = some r
pick r (some s) = if before s r then some s else some r

unfoldable pub next_runnable : ℕ → List Row → Option Row
next_runnable now [] = none
next_runnable now (r ∷ rows) =
    let best = next_runnable now rows in if runnable now r then pick r best else best

unfoldable pub claimed : Text → ℕ → Row → Row
claimed worker now r = record r {
  state = JobState.running;
  attempts = r.attempts + 1;
  locked_by = some worker;
  locked_at = some now;
  updated_at = now;
}

-- `UPDATE job SET … WHERE …`
unfoldable pub update_where : (Row → Bool) → (Row → Row) → List Row → List Row
update_where test f [] = []
update_where test f (r ∷ rows) = (if test r then f r else r) ∷ update_where test f rows

abbrev pub has_id : ℕ → Row → Bool
has_id id r = r.id == id

unfoldable pub claim_rows : Text → ℕ → List Row → Result (Option Row) × List Row
claim_rows worker now rows = elim (next_runnable now rows) [
  | none ↦ (ok none, rows)
  | some r ↦
      (ok (some (claimed worker now r)), update_where (has_id r.id) (claimed worker now) rows)
]

read_claimed : Env → Option Row → Result (Option Job)
read_claimed env none = ok none
read_claimed env (some r) = elim (row_to_job env r) [ ok j ↦ ok (some j) | err e ↦ err e ]

unfoldable pub claim : Env → Text → World → Result (Option Job) × World
unfolding read_claimed
claim env worker = do row ← statement env (claim_rows worker); lift (read_claimed env row)

unfoldable pub ended : JobState → Option Text → ℕ → Row → Row
ended state error now r = record r {
  state = state;
  locked_by = none;
  locked_at = none;
  last_error = error;
  updated_at = now;
}

unfoldable pub set_terminal : Env → ℕ → JobState → Option Text → World → Result (Unit {0}) × World
set_terminal env id state error =
    statement env (λ now rows. (ok tt, update_where (has_id id) (ended state error now) rows))

unfoldable pub complete : Env → ℕ → World → Result (Unit {0}) × World
complete env id = set_terminal env id JobState.succeeded none

unfoldable pub cancel : Env → ℕ → World → Result (Unit {0}) × World
cancel env id = set_terminal env id JobState.cancelled none

found : Option Row → Result Row
found none = err not_found
found (some r) = ok r

unfoldable pub get : Env → ℕ → World → Result Job × World
unfolding found
get env id = do
  row ← statement env (λ now rows. (found (find (has_id id) rows), rows))
  lift (row_to_job env row)

unfoldable pub requeued : ℕ → Text → ℕ → Row → Row
requeued next error now r = record r {
  state = JobState.queued;
  run_at = next;
  locked_by = none;
  locked_at = none;
  last_error = some error;
  updated_at = now;
}

retry_at : Env → ℕ → Text → ℕ → World → Result (Option ℕ) × World
retry_at env id error next = do
  statement env (λ now rows. (ok tt, update_where (has_id id) (requeued next error now) rows))
  pure (some next)

-- What `fail` does once it has read the job.
unfoldable pub fail_with : Env → ℕ → Text → Bool → Job → World → Result (Option ℕ) × World
unfolding retry_at
fail_with env id error retryable current =
    if not retryable || leb current.max_attempts current.attempts
    then (do set_terminal env id JobState.failed (some error); pure none)
    else (do now ← clock; retry_at env id error (now + backoff current.attempts * second))

unfoldable pub fail : Env → ℕ → Text → Bool → World → Result (Option ℕ) × World
fail env id error retryable = do current ← get env id; fail_with env id error retryable current
