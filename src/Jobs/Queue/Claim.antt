-- ===== src/Jobs/Queue/Claim.antt =====
-- What `claim` hands out: the first runnable job by priority and time.
pub mod Distinct
use nyuka.Common.{
  ℕ, suc, ◌+◌, ◌≤◌, ◌<◌, ◌⊎◌, ◌↔◌, true, false, Text, Option, none, some, List, [], ◌∷◌, ◌++◌, ◌≡◌,
  ◌≢◌, refl, inl, inr, arith, All, Member, here, there, All-member, All-impl, All-append,
  Bool-cases,
}
use nyuka.Common.Pairs.{Pairwise}
use nyuka.Domain.Enums.{JobState}
use nyuka.Domain.Errors.{Result, ok, err, storage}
use nyuka.Jobs.Exec.{Row, Env, World, statement, ◌>>=◌}
use nyuka.Jobs.Names.{state_of_name}
use nyuka.Jobs.Queue.{
  Job, runnable, before, pick, next_runnable, has_id, claimed, update_where, claim_rows,
  read_claimed, claim, row_to_job,
}

-- `r` is the row that the claim query selects: runnable, and no runnable row goes before it.
record IsPicked (now : ℕ) (rows : List Row) (r : Row) : Type 0 where
  pub member : Member r rows
  pub can_run : runnable now r ≡ true
  pub first : All (λ s. runnable now s ≡ true → before s r ≡ false) rows

before-asym : (r s : Row) → before s r ≡ true → before r s ≡ false
unfolding before
before-asym r s h = ground arith

before-trans_not : (r s t : Row) → before s r ≡ false → before t s ≡ false → before t r ≡ false
unfolding before
before-trans_not r s t h k = ground arith

before_irrefl : (r : Row) → before r r ≡ false
unfolding before
before_irrefl r = ground arith

-- What `next_runnable` returns: nothing where nothing can run, and else the first in the order.
abbrev Selects : ℕ → List Row → Option Row → Type 0
Selects now rows none = All (λ s. runnable now s ≡ false) rows
Selects now rows (some r) = IsPicked now rows r

Selects-skip :
    (now : ℕ) (r : Row) (rows : List Row) (best : Option Row)
    → runnable now r ≡ false
    → Selects now rows best
    → Selects now (r ∷ rows) best
Selects-skip now r rows none e h = (e, h)
Selects-skip now r rows (some b) e h = record {
  member = there h.member;
  can_run = h.can_run;
  first = (λ p. cc (e, p), h.first);
}

Selects-pick :
    (now : ℕ) (r : Row) (rows : List Row) (best : Option Row)
    → runnable now r ≡ true
    → Selects now rows best
    → Selects now (r ∷ rows) (pick r best)
unfolding pick
Selects-pick now r rows none e h = record {
  member = here;
  can_run = e;
  first = (λ p. before_irrefl r, All-impl _ _ (λ s f p. absurd (clash s f p)) rows h);
}
  where
    clash : (s : Row) → runnable now s ≡ false → runnable now s ≡ true → ⊥
    clash s f p = cc (f, p)
Selects-pick now r rows (some b) e h = elim (Bool-cases (before b r)) [
  | inl better ↦ rw better (record {
    member = there h.member;
    can_run = h.can_run;
    first = (λ p. before-asym r b better, h.first);
  })
  | inr worse ↦ rw worse (record {
    member = here;
    can_run = e;
    first = (
      λ p. before_irrefl r,
      All-impl _ _ (λ s f p. before-trans_not r b s worse (f p)) rows h.first,
    );
  })
]

next_runnable-Selects : (now : ℕ) (rows : List Row) → Selects now rows (next_runnable now rows)
unfolding next_runnable
next_runnable-Selects now [] = tt
next_runnable-Selects now (r ∷ rows) = elim (Bool-cases (runnable now r)) [
  | inl e ↦
      rw e (Selects-pick now r rows (next_runnable now rows) e (next_runnable-Selects now rows))
  | inr e ↦
      rw e (Selects-skip now r rows (next_runnable now rows) e (next_runnable-Selects now rows))
]

-- The job that is read back from the claimed row.
row_to_job-fields :
    (env : Env) (r : Row) (j : Job)
    → row_to_job env r ≡ ok j
    → (j.id ≡ r.id) × (j.attempts ≡ r.attempts) × (j.state ≡ r.state)
unfolding row_to_job
row_to_job-fields env r j h = ground (arith, state_of_name r.state)

read_claimed-ok :
    (env : Env) (r : Row) (j : Job)
    → read_claimed env (some r) ≡ ok (some j)
    → row_to_job env r ≡ ok j
unfolding read_claimed
read_claimed-ok env r j h = ground arith

read_claimed-ne-none : (env : Env) (r : Row) → read_claimed env (some r) ≢ ok none
unfolding read_claimed
read_claimed-ne-none env r h = ground arith

-- The two branches of the database and of the query.
outcome : Env → Text → World → Option Text → Option Row → Result (Option Job) × World
outcome env worker w (some m) best = (err (storage m), record w { statements = suc w.statements })
outcome env worker w none none = (ok none, record w { statements = suc w.statements })
outcome env worker w none (some r) = (
  read_claimed env (some (claimed worker w.now r)),
  record w {
    rows = update_where (has_id r.id) (claimed worker w.now) w.rows;
    statements = suc w.statements;
  },
)

claim-outcome :
    (env : Env) (worker : Text) (w : World)
    → claim env worker w
      ≡ outcome env worker w (env.outage w.statements) (next_runnable w.now w.rows)
unfolding claim statement claim_rows ◌>>=◌ outcome
claim-outcome env worker w = ground arith

abbrev Taken : Env → Text → World → Job → World → Type 0
Taken env worker w j w' =
    (r : Row) × IsPicked w.now w.rows r
    × (j.id ≡ r.id)
    × (j.attempts ≡ r.attempts + 1)
    × (j.state ≡ JobState.running)
    × (w'.rows ≡ update_where (has_id r.id) (claimed worker w.now) w.rows)

outcome-some :
    (env : Env) (worker : Text) (w : World) (o : Option Text) (best : Option Row) (j : Job)
    → Selects w.now w.rows best
    → (outcome env worker w o best).0 ≡ ok (some j)
    → Taken env worker w j (outcome env worker w o best).1
unfolding outcome claimed
outcome-some env worker w (some m) best j sel h = absurd (ground arith)
outcome-some env worker w none none j sel h = absurd (ground arith)
outcome-some env worker w none (some r) j sel h =
    let f = row_to_job-fields env (claimed worker w.now r) j (read_claimed-ok env _ j h) in
    (r, sel, f.0, f.1, f.2, refl)

outcome-none :
    (env : Env) (worker : Text) (w : World) (o : Option Text) (best : Option Row)
    → Selects w.now w.rows best
    → (outcome env worker w o best).0 ≡ ok none
    → All (λ s. runnable w.now s ≡ false) w.rows × ((outcome env worker w o best).1.rows ≡ w.rows)
unfolding outcome
outcome-none env worker w (some m) best sel h = absurd (ground arith)
outcome-none env worker w none none sel h = (sel, refl)
outcome-none env worker w none (some r) sel h = absurd (read_claimed-ne-none env _ h)

claim-IsPicked :
    (env : Env) (worker : Text) (w : World)
    → ((j : Job)
        → (claim env worker w).0 ≡ ok (some j)
        → (r : Row) × IsPicked w.now w.rows r
          × (j.id ≡ r.id)
          × (j.attempts ≡ r.attempts + 1)
          × (j.state ≡ JobState.running)
          × ((claim env worker w).1.rows
              ≡ update_where (has_id r.id) (claimed worker w.now) w.rows))
      × ((claim env worker w).0 ≡ ok none
          → All (λ s. runnable w.now s ≡ false) w.rows × ((claim env worker w).1.rows ≡ w.rows))
claim-IsPicked env worker w = rw claim-outcome (
  λ j h. outcome-some env worker w _ _ j (next_runnable-Selects w.now w.rows) h,
  λ h. outcome-none env worker w _ _ (next_runnable-Selects w.now w.rows) h,
)

-- The row is queued and its time has come.
abbrev pub IsDue : ℕ → Row → Type 0
IsDue now s = (s.state ≡ JobState.queued) × (s.run_at ≤ now)

-- `r` may go first: its priority number is lower, or the same and its time no later.
abbrev pub InOrder : Row → Row → Type 0
InOrder r s = (r.priority < s.priority) ⊎ ((r.priority ≡ s.priority) × (r.run_at ≤ s.run_at))

pub record IsNext (now : ℕ) (rows : List Row) (r : Row) : Type 0 where
  pub member : Member r rows
  pub due : IsDue now r
  pub first : All (λ s. IsDue now s → InOrder r s) rows

runnable-IsDue : (now : ℕ) (s : Row) → (runnable now s ≡ true) ↔ IsDue now s
unfolding runnable
runnable-IsDue now s = ground arith

before-InOrder : (r s : Row) → before s r ≡ false → InOrder r s
unfolding before
before-InOrder r s h = ground arith

IsPicked-IsNext : (now : ℕ) (rows : List Row) (r : Row) → IsPicked now rows r → IsNext now rows r
IsPicked-IsNext now rows r h = record {
  member = h.member;
  due = (runnable-IsDue now r).0 h.can_run;
  first =
      All-impl (λ s. runnable now s ≡ true → before s r ≡ false) (λ s. IsDue now s → InOrder r s)
        (λ s f due. before-InOrder r s (f ((runnable-IsDue now s).1 due))) rows h.first;
}

-- A claim that returns a job took a row that is queued and due, of the lowest priority number
-- among those and the earliest of that number, counted the attempt and wrote that row alone; one
-- that returns no job found no row that is queued and due, and changed no row.
pub claim-IsNext :
    (env : Env) (worker : Text) (w : World)
    → ((j : Job)
        → (claim env worker w).0 ≡ ok (some j)
        → (r : Row) × IsNext w.now w.rows r
          × (j.id ≡ r.id)
          × (j.attempts ≡ r.attempts + 1)
          × (j.state ≡ JobState.running)
          × ((claim env worker w).1.rows
              ≡ update_where (has_id r.id) (claimed worker w.now) w.rows))
      × ((claim env worker w).0 ≡ ok none
          → All (λ s. ¬ IsDue w.now s) w.rows × ((claim env worker w).1.rows ≡ w.rows))
claim-IsNext env worker w = (
  λ j h.
      let (r, picked, same, counted, runs, written) = (claim-IsPicked env worker w).0 j h in
      (r, IsPicked-IsNext w.now w.rows r picked, same, counted, runs, written),
  λ h.
      let (none_due, kept) = (claim-IsPicked env worker w).1 h in
      (All-impl _ _ (λ s e due. cc (e, (runnable-IsDue w.now s).1 due)) w.rows none_due, kept),
)
