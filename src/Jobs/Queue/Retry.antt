-- ===== src/Jobs/Queue/Retry.antt =====
-- What a failure does to a job: it waits for its next attempt, or it has failed for good.
use nyuka.Common.{
  ℕ, suc, ◌+◌, ◌*◌, ◌≤◌, ◌<◌, min, Bool, true, false, ◌&&◌, Text, none, some, not, keep, List, [],
  ◌∷◌, sym, subst, ◌≡◌, refl, ◌⊎◌, inl, inr, arith, ltb, leb, ltb→lt, find, tried_up_to,
  tried_up_to-at, Bool-cases,
}
use nyuka.Domain.Enums.{JobKind, JobState}
use nyuka.Domain.Errors.{ok}
use nyuka.Jobs.Exec.{Row, Env, World, statement, ◌>>=◌}
use nyuka.Jobs.Names.{kind_from_str, state_of_name}
use nyuka.Jobs.Queue.{
  backoff, second, row_to_job, has_id, ended, requeued, retry_at, fail_with, fail, get,
  set_terminal, update_where,
}

backoff_table : tried_up_to (λ a. ltb (backoff a) (backoff (a + 1))) 10 ≡ true
unfolding tried_up_to backoff
backoff_table = refl

bound_table : tried_up_to (λ a. leb 1 (backoff a) && leb (backoff a) 1053) 10 ≡ true
unfolding tried_up_to backoff
bound_table = refl

backoff_early : (a : ℕ) → a < 10 → (1 ≤ backoff a) × (backoff a ≤ 1053)
backoff_early a h = ground (arith, tried_up_to-at _ 10 a h bound_table)

backoff_late : (a : ℕ) → 10 ≤ a → (1024 ≤ backoff a) × (backoff a ≤ 1053)
unfolding backoff
backoff_late a h = let e : min a 10 ≡ 10 = omega arith in rw e (omega arith, omega arith)

-- The delay grows with every one of the first ten attempts, and from then on stays between 1024
-- and 1053 seconds: the cap of an hour is never what decides.
pub backoff_bounds :
    ((a : ℕ) → a < 10 → backoff a < backoff (a + 1))
    × ((a : ℕ) → 10 ≤ a → (1024 ≤ backoff a) × (backoff a ≤ 1053))
    × ((a : ℕ) → (1 ≤ backoff a) × (backoff a ≤ 1053))
backoff_bounds = (growing, backoff_late, within)
  where
    growing : (a : ℕ) → a < 10 → backoff a < backoff (a + 1)
    growing a h = ground (arith, tried_up_to-at _ 10 a h backoff_table)

    within : (a : ℕ) → (1 ≤ backoff a) × (backoff a ≤ 1053)
    within a = elim (Bool-cases (ltb a 10)) [
      | inl early ↦ backoff_early a (ltb→lt a 10 early)
      | inr late ↦
          (omega (arith, (backoff_late a (ground arith)).0), (backoff_late a (ground arith)).1)
    ]

-- A row as a failure leaves it: unlocked, with the error, in this state and due then, and otherwise
-- as it was.
pub record IsFailed (error : Text) (state : JobState) (due : ℕ) (r r' : Row) : Type 0 where
  pub state_is : r'.state ≡ state
  pub due_at : r'.run_at ≡ due
  pub error_kept : r'.last_error ≡ some error
  pub unlocked : (r'.locked_by ≡ none) × (r'.locked_at ≡ none)
  pub attempts_kept : (r'.attempts ≡ r.attempts) × (r'.max_attempts ≡ r.max_attempts)
  pub work_kept : (r'.kind ≡ r.kind) × (r'.payload ≡ r.payload) × (r'.priority ≡ r.priority)
  pub identity_kept : (r'.id ≡ r.id) × (r'.idempotency_key ≡ r.idempotency_key)

-- The row with this id became such a row, and all others are as they were, in their order.
pub record Becomes (id : ℕ) (P : Row → Type 0) (before after : List Row) : Type 0 where
  pub row : Row
  pub stored : find (has_id id) after ≡ some row
  pub is : P row
  pub others : keep (λ r. not (has_id id r)) after ≡ keep (λ r. not (has_id id r)) before

module _ (id : ℕ) (f : Row → Row) (same : (r : Row) → (f r).id ≡ r.id) where
  find-updated :
      (rows : List Row) (r : Row)
      → find (has_id id) rows ≡ some r
      → find (has_id id) (update_where (has_id id) f rows) ≡ some (f r)
  unfolding update_where
  find-updated [] r h = absurd (bad h)
    where
      bad : none ≡ some r → ⊥
      bad q = cc
  find-updated (s ∷ rows) r h = ground (arith, same s, find-updated rows r)

  others-updated :
      (rows : List Row)
      → keep (λ r. not (has_id id r)) (update_where (has_id id) f rows)
        ≡ keep (λ r. not (has_id id r)) rows
  unfolding update_where
  others-updated [] = refl
  others-updated (s ∷ rows) = ground (arith, same s, others-updated rows)

requeued-IsFailed :
    (next : ℕ) (error : Text) (now : ℕ) (r : Row)
    → IsFailed error JobState.queued next r (requeued next error now r)
unfolding requeued
requeued-IsFailed next error now r = record {
  state_is = refl;
  due_at = refl;
  error_kept = refl;
  unlocked = (refl, refl);
  attempts_kept = (refl, refl);
  work_kept = (refl, refl, refl);
  identity_kept = (refl, refl);
}

ended-IsFailed :
    (error : Text) (now : ℕ) (r : Row)
    → IsFailed error JobState.failed r.run_at r (ended JobState.failed (some error) now r)
unfolding ended
ended-IsFailed error now r = record {
  state_is = refl;
  due_at = refl;
  error_kept = refl;
  unlocked = (refl, refl);
  attempts_kept = (refl, refl);
  work_kept = (refl, refl, refl);
  identity_kept = (refl, refl);
}

fail_rows :
    (env : Env) (w : World) (r : Row) (kind : JobKind) (error : Text) (retryable : Bool)
    → env.outage w.statements ≡ none
    → env.outage (suc w.statements) ≡ none
    → find (has_id r.id) w.rows ≡ some r
    → kind_from_str r.kind ≡ some kind
    → ((retryable ≡ true) × (r.attempts < r.max_attempts)
        → let next = w.now + backoff r.attempts * second in
          ((fail env r.id error retryable w).0 ≡ ok (some next))
          × ((fail env r.id error retryable w).1.rows
              ≡ update_where (has_id r.id) (requeued next error w.now) w.rows))
      × ((retryable ≡ false) ⊎ (r.max_attempts ≤ r.attempts)
          → ((fail env r.id error retryable w).0 ≡ ok none)
            × ((fail env r.id error retryable w).1.rows
                ≡ update_where (has_id r.id) (ended JobState.failed (some error) w.now) w.rows))
unfolding fail fail_with retry_at set_terminal get statement row_to_job ◌>>=◌
fail_rows env w r kind error retryable runs runs_again stored known =
    (λ h. ground (arith, state_of_name r.state), λ h. ground (arith, state_of_name r.state))

-- Where both statements run, a failure of a stored job of a known kind queues it for later, at the
-- time that is returned, if it may be retried and has attempts left, and else marks it failed. Either
-- way its lock is released, the error is kept in its row, its attempts, work and identity are as they
-- were, and so is every other row.
pub fail_lem :
    (env : Env) (w : World) (r : Row) (kind : JobKind) (error : Text) (retryable : Bool)
    → env.outage w.statements ≡ none
    → env.outage (suc w.statements) ≡ none
    → find (has_id r.id) w.rows ≡ some r
    → kind_from_str r.kind ≡ some kind
    → let failed = fail env r.id error retryable w in
      ((retryable ≡ true) × (r.attempts < r.max_attempts)
        → let next = w.now + backoff r.attempts * second in
          (failed.0 ≡ ok (some next))
          × Becomes r.id (IsFailed error JobState.queued next r) w.rows failed.1.rows)
      × ((retryable ≡ false) ⊎ (r.max_attempts ≤ r.attempts)
          → (failed.0 ≡ ok none)
            × Becomes r.id (IsFailed error JobState.failed r.run_at r) w.rows failed.1.rows)
fail_lem env w r kind error retryable runs runs_again stored known =
    let rows = fail_rows env w r kind error retryable runs runs_again stored known in
    (
      λ h.
          let done = rows.0 h in
          let next = w.now + backoff r.attempts * second in
          (
            done.0,
            subst (Becomes r.id (IsFailed error JobState.queued next r) w.rows) (sym done.1) (
                updated (requeued next error w.now) (requeued-id next)
                  (requeued-IsFailed next error w.now r)),
          ),
      λ h.
          let done = rows.1 h in
          (
            done.0,
            subst (Becomes r.id (IsFailed error JobState.failed r.run_at r) w.rows) (sym done.1) (
                updated (ended JobState.failed (some error) w.now) ended-id
                  (ended-IsFailed error w.now r)),
          ),
    )
  where
    requeued-id : (next : ℕ) (s : Row) → (requeued next error w.now s).id ≡ s.id
    requeued-id next s = (requeued-IsFailed next error w.now s).identity_kept.0

    ended-id : (s : Row) → (ended JobState.failed (some error) w.now s).id ≡ s.id
    ended-id s = (ended-IsFailed error w.now s).identity_kept.0

    updated :
        {P : Row → Type 0} (f : Row → Row)
        → ((s : Row) → (f s).id ≡ s.id)
        → P (f r)
        → Becomes r.id P w.rows (update_where (has_id r.id) f w.rows)
    updated f same p = record {
      row = f r;
      stored = find-updated r.id f same w.rows r stored;
      is = p;
      others = others-updated r.id f same w.rows;
    }
