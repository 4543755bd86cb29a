-- ===== src/Jobs/Worker/Shutdown.antt =====
-- What a shutdown leaves in the queue.
use nyuka.Common.{
  ℕ, suc, ◌-◌, ◌<◌, true, false, none, some, List, [], ◌∷◌, lt→ltb, keep, length, ◌≡◌, ◌≢◌, ap,
  subst, inl, inr, sym, refl, ◌∙◌, arith, All, Bool-cases, Option-cases, is_some,
}
use nyuka.Domain.Enums.{JobState}
use nyuka.Jobs.Exec.{Row, Env, World, statement-up}
use nyuka.Jobs.Queue.{update_where}
use nyuka.Jobs.Queue.Rows.{LockMatches}
use nyuka.Jobs.Queue.Upkeep.{is_stale, released, recover_stale}
use nyuka.Jobs.Worker.{release_held, report}

-- The lock of a row was taken before a time.
abbrev pub LockedBefore : ℕ → Row → Type 0
LockedBefore t r = (u : ℕ) → r.locked_at ≡ some u → u < t

abbrev IsRunning : Row → Type 0
IsRunning r = r.state ≡ JobState.running

stale : (t : ℕ) (r : Row) → LockMatches r → LockedBefore t r → IsRunning r → is_stale t r ≡ true
unfolding is_stale
stale t r l b run = elim (Option-cases r.locked_at) [
  | inl e ↦ absurd (none-ne (sym (l.0 run).1) e)
  | inr (u, e) ↦ rw (is_stale, run, e) (lt→ltb u t (b u e))
]
  where
    none-ne : true ≡ is_some r.locked_at → r.locked_at ≡ none → ⊥
    none-ne q e = cc_none (rw e at q)
      where
        cc_none : true ≡ false → ⊥
        cc_none x = cc

-- A row that was running is in the queue again with its lock released and is otherwise as it was,
-- but for the time of the write; any other row is as it was.
pub record IsReleased (now : ℕ) (r r' : Row) : Type 0 where
  pub back :
      IsRunning r
      → (r'.state ≡ JobState.queued)
        × (r'.locked_by ≡ none)
        × (r'.locked_at ≡ none)
        × (r'.updated_at ≡ now)
        × (r'.id ≡ r.id)
        × (r'.attempts ≡ r.attempts)
        × (r'.max_attempts ≡ r.max_attempts)
        × (r'.run_at ≡ r.run_at)
        × (r'.priority ≡ r.priority)
        × (r'.idempotency_key ≡ r.idempotency_key)
        × (r'.last_error ≡ r.last_error)
  pub others : r.state ≢ JobState.running → r' ≡ r

-- One row after the other.
abbrev pub AllReleased : ℕ → List Row → List Row → Type 0
AllReleased now [] [] = Unit
AllReleased now (r ∷ rows) (s ∷ rest) = IsReleased now r s × AllReleased now rows rest
AllReleased now _ _ = ⊥

abbrev pub running_count : List Row → ℕ
running_count [] = 0
running_count (r ∷ rows) = elim r.state [
  | JobState.running ↦ suc (running_count rows)
  | _ ↦ running_count rows
]

not-stale : (t : ℕ) (r : Row) → r.state ≢ JobState.running → is_stale t r ≡ false
unfolding is_stale
not-stale t r n = elim (Bool-cases (is_stale t r)) [ inl e ↦ absurd (n (ground arith)) | inr e ↦ e ]

released-IsReleased : (now : ℕ) (r : Row) → IsRunning r → IsReleased now r (released now r)
unfolding released
released-IsReleased now r run = record {
  back = λ h. (refl, refl, refl, refl, refl, refl, refl, refl, refl, refl, refl);
  others = λ n. absurd (n run);
}

kept-IsReleased : (now : ℕ) (r : Row) → r.state ≢ JobState.running → IsReleased now r r
kept-IsReleased now r n = record { back = λ h. absurd (n h); others = λ h. refl }

running-yes :
    (r : Row) (rows : List Row) → IsRunning r → running_count (r ∷ rows) ≡ suc (running_count rows)
running-yes r rows h = rw h refl

running-no :
    (r : Row) (rows : List Row)
    → r.state ≢ JobState.running
    → running_count (r ∷ rows) ≡ running_count rows
running-no r rows n = ground arith

stale-IsRunning : (t : ℕ) (r : Row) → is_stale t r ≡ true → IsRunning r
unfolding is_stale
stale-IsRunning t r h = ground arith

all_released :
    (now t : ℕ) (rows : List Row)
    → All LockMatches rows
    → All (LockedBefore t) rows
    → AllReleased now rows (update_where (is_stale t) (released now) rows)
      × (length (keep (is_stale t) rows) ≡ running_count rows)
unfolding update_where
all_released now t [] h k = (tt, refl)
all_released now t (r ∷ rows) h k =
    let ih = all_released now t rows h.1 k.1 in
    elim (Bool-cases (is_stale t r)) [
      | inl e ↦
          let run = stale-IsRunning t r e in
          rw e ((released-IsReleased now r run, ih.0), ap suc ih.1 ∙ sym (running-yes r rows run))
      | inr e ↦
          let idle : r.state ≢ JobState.running = λ q. cc (stale t r h.0 k.0 q, e) in
          rw e ((kept-IsReleased now r idle, ih.0), ih.1 ∙ sym (running-no r rows idle))
    ]

recovered :
    (env : Env) (w : World)
    → env.outage w.statements ≡ none
    → env.from_std 0 ≡ some 0
    → release_held env w ≡ (
      length (keep (is_stale (w.now - 0)) w.rows),
      record w {
        rows = update_where (is_stale (w.now - 0)) (released w.now) w.rows;
        statements = suc w.statements;
      },
    )
unfolding release_held recover_stale
recovered env w up zero_span = rw zero_span (ap report (statement-up env _ w up))

-- Where each row's lock columns are set exactly while it runs, every lock was taken before now and
-- `from_std` keeps the span of zero, a shutdown whose statement the database runs releases every lock:
-- each running row is in the queue again with its lock columns empty, its attempts, time, key and
-- error kept, and each other row is as it was. It reports how many ran.
pub shutdown-none_running :
    (env : Env) (w : World)
    → env.outage w.statements ≡ none
    → env.from_std 0 ≡ some 0
    → All LockMatches w.rows
    → All (LockedBefore w.now) w.rows
    → ((release_held env w).0 ≡ running_count w.rows)
      × AllReleased w.now w.rows (release_held env w).1.rows
shutdown-none_running env w up zero_span h k =
    let cutoff : w.now - 0 ≡ w.now = omega arith in
    let done =
      subst
        (λ t. release_held env w ≡ (
          length (keep (is_stale t) w.rows),
          record w {
            rows = update_where (is_stale t) (released w.now) w.rows;
            statements = suc w.statements;
          },
        ))
        cutoff (recovered env w up zero_span) in
    let rows = all_released w.now w.now w.rows h k in
    (ap (λ r. r.0) done ∙ rows.1, subst (λ r. AllReleased w.now w.rows r.1.rows) (sym done) rows.0)
