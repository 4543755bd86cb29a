-- ===== src/Jobs/Scheduler/Repeats.antt =====
-- A second tick in the same periods queues nothing.
use nyuka.Common.{
  ℕ, suc, ◌-◌, ◌∙◌, length, keep, ℤ, pos, Bool, true, false, Text, none, some, List, [], ◌∷◌, ◌++◌,
  ◌≡◌, refl, sym, subst, inl, inr, arith, any, find, All, All-impl, Bool-cases,
}
use nyuka.Domain.Enums.{JobKind}
use nyuka.Domain.Errors.{ok}
use nyuka.Domain.Payload.{Json, Fields}
use nyuka.Jobs.Exec.{Row, Env, World, statement-up, ◌>>=◌}
use nyuka.Jobs.Exec.Keeps.{Keeps, Keeps-statement, Keeps-bind, Keeps-pure, Keeps-lift}
use nyuka.Jobs.Exec.Ensures.{Ensures, Ensures-bind_left, Ensures-bind_right, Ensures-bind_lift}
use nyuka.Jobs.Queue.Idempotent.{insert_row-Holds, enqueue-Holds, any-find}
use nyuka.Jobs.Queue.{has_key, holder, insert_row, new_row, enqueue, key_exists, update_where}
use nyuka.Jobs.Queue.Upkeep.{stale_age, recover_stale, is_stale, released}
use nyuka.Jobs.Scheduler.{
  Periodic, SchedulerConfig, TickReport, Follow, enqueue_once, run_schedule, run_follows, tick_at,
  tick, periodic_key, follow_key, follow_payload,
}

-- Some row holds the key.
abbrev Held : Text → List Row → Type 0
Held k rows = any (has_key k) rows ≡ true

any-append_left {ℓ} :
    {A : Type ℓ} (p : A → Bool) (xs ys : List A) → any p xs ≡ true → any p (xs ++ ys) ≡ true
any-append_left p (x ∷ xs) ys h = ground (arith, any-append_left p xs ys)
any-append_left p [] ys h = absurd (no h)
  where
    no : false ≡ true → ⊥
    no e = cc

any-append_right {ℓ} :
    {A : Type ℓ} (p : A → Bool) (xs ys : List A) → any p ys ≡ true → any p (xs ++ ys) ≡ true
any-append_right p [] ys h = h
any-append_right p (x ∷ xs) ys h = ground (arith, any-append_right p xs ys)

find-any {ℓ} :
    {A : Type ℓ} (p : A → Bool) (xs : List A) → any p xs ≡ true → (a : A) × (find p xs ≡ some a)
find-any p [] h = absurd (no h)
  where
    no : false ≡ true → ⊥
    no e = cc
find-any p (x ∷ xs) h = elim (Bool-cases (p x)) [
  | inl e ↦ (x, rw e)
  | inr e ↦ rw e (find-any p xs (rw e at h))
]

insert_row-Held :
    (env : Env) (r : Row) (k : Text) (rows : List Row)
    → Held k rows
    → Held k (insert_row env r rows).1
unfolding insert_row
insert_row-Held env r k rows h = ground (arith, any-append_left (has_key k) rows (r ∷ []) h)

enqueue-Keeps :
    (env : Env) (kind : JobKind) (payload : Json) (key : Text) (priority most : ℕ) (k : Text)
    → Keeps (Held k) (enqueue env kind payload none (some key) priority most)
unfolding enqueue
enqueue-Keeps env kind payload key priority most k = record {
  at = λ w.
      (Keeps-statement {P = Held k} env
          (λ now.
            insert_row env
              (new_row (env.uuid w.uuids) kind payload none (some key) priority most now))
          (λ now rows. insert_row-Held env _ k rows)).at
        (record w { uuids = suc w.uuids });
}

module _ (env : Env) (k : Text) where
  enqueue_once-Keeps :
      (kind : JobKind) (payload : Json) (key : Text) (priority most : ℕ)
      → Keeps (Held k) (enqueue_once env kind payload key priority most)
  unfolding enqueue_once key_exists
  enqueue_once-Keeps kind payload key priority most =
      Keeps-bind _ _ (Keeps-statement env _ (λ now rows h. h)) λ before.
        Keeps-bind _ _ (enqueue-Keeps env kind payload key priority most k) (λ id. Keeps-pure _)

  run_schedule-Keeps :
      (now : ℤ) (ps : List Periodic) (report : TickReport)
      → Keeps (Held k) (run_schedule env now ps report)
  unfolding run_schedule
  run_schedule-Keeps now [] report = Keeps-pure report
  run_schedule-Keeps now (p ∷ ps) report =
      Keeps-bind _ _ (enqueue_once-Keeps p.kind _ (periodic_key p now) p.priority p.max_attempts)
        λ fresh. run_schedule-Keeps now ps _

  run_follows-Keeps :
      (now : ℤ) (fs : List Follow) (report : TickReport)
      → Keeps (Held k) (run_follows env now fs report)
  unfolding run_follows
  run_follows-Keeps now [] report = Keeps-pure report
  run_follows-Keeps now (f ∷ fs) report =
      Keeps-bind _ _ (enqueue_once-Keeps JobKind.check_follow _ (follow_key env f now) 5 3)
        λ fresh. run_follows-Keeps now fs _

-- Releasing locks keeps keys.
released-Held :
    (test : Row → Bool) (now : ℕ) (k : Text) (rows : List Row)
    → any (has_key k) (update_where test (released now) rows) ≡ any (has_key k) rows
unfolding update_where released has_key
released-Held test now k [] = refl
released-Held test now k (r ∷ rows) = ground (arith, released-Held test now k rows)

-- An insert that returned an id leaves its key held, and a held key is inserted no more.
insert_row-own :
    (env : Env) (r : Row) (key : Text) (rows : List Row) (id : ℕ)
    → r.idempotency_key ≡ some key
    → (insert_row env r rows).0 ≡ ok id
    → Held key (insert_row env r rows).1
insert_row-own env r key rows id e h =
    let (held, found, same) = insert_row-Holds env r key rows id e h in
    any-find (has_key key) (insert_row env r rows).1 held found

enqueue-own :
    (env : Env) (kind : JobKind) (payload : Json) (key : Text) (priority most : ℕ) (w : World)
    (id : ℕ)
    → (enqueue env kind payload none (some key) priority most w).0 ≡ ok id
    → Held key (enqueue env kind payload none (some key) priority most w).1.rows
enqueue-own env kind payload key priority most w id h =
    let (held, found, same) = enqueue-Holds env kind payload none key priority most w id h in
    any-find (has_key key) _ held found

module _ (env : Env) (up : (n : ℕ) → env.outage n ≡ none) where
  enqueue_again :
      (kind : JobKind) (payload : Json) (key : Text) (priority most : ℕ) (w : World)
      → Held key w.rows
      → (id : ℕ) × (enqueue env kind payload none (some key) priority most w
          ≡ (ok id, record w { uuids = suc w.uuids; statements = suc w.statements }))
  unfolding enqueue new_row insert_row holder
  enqueue_again kind payload key priority most w h =
      let (r, found) = find-any (has_key key) w.rows h in
      let drawn : World = record w { uuids = suc w.uuids } in
      let row : ℕ → Row = new_row (env.uuid w.uuids) kind payload none (some key) priority most in
      (
        r.id,
        rw (statement-up env (λ now. insert_row env (row now)) drawn (up w.statements))
            (rw (found, insert_row)),
      )

  enqueue_once-again :
      (kind : JobKind) (payload : Json) (key : Text) (priority most : ℕ) (w : World)
      → Held key w.rows
      → enqueue_once env kind payload key priority most w
        ≡ (ok false, record w { uuids = suc w.uuids; statements = suc (suc w.statements) })
  unfolding enqueue_once key_exists ◌>>=◌
  enqueue_once-again kind payload key priority most w h = rw (
    statement-up env _ w (up w.statements),
    h,
    (enqueue_again kind payload key priority most (record w { statements = suc w.statements }) h).1,
  )

  run_schedule-again :
      (now : ℤ) (ps : List Periodic) (report : TickReport) (w : World)
      → All (λ p. Held (periodic_key p now) w.rows) ps
      → ((run_schedule env now ps report w).0 ≡ ok report)
        × ((run_schedule env now ps report w).1.rows ≡ w.rows)
  unfolding run_schedule ◌>>=◌
  run_schedule-again now [] report w h = (refl, refl)
  run_schedule-again now (p ∷ ps) report w h =
      rw
        (enqueue_once-again p.kind (Json.object Fields.end) (periodic_key p now) p.priority
          p.max_attempts w h.0)
        (run_schedule-again now ps report
          (record w { uuids = suc w.uuids; statements = suc (suc w.statements) }) h.1)

  run_follows-again :
      (now : ℤ) (fs : List Follow) (report : TickReport) (w : World)
      → All (λ f. Held (follow_key env f now) w.rows) fs
      → ((run_follows env now fs report w).0 ≡ ok report)
        × ((run_follows env now fs report w).1.rows ≡ w.rows)
  unfolding run_follows ◌>>=◌
  run_follows-again now [] report w h = (refl, refl)
  run_follows-again now (f ∷ fs) report w h =
      rw
        (enqueue_once-again JobKind.check_follow (follow_payload env f) (follow_key env f now) 5 3 w
          h.0)
        (run_follows-again now fs report
          (record w { uuids = suc w.uuids; statements = suc (suc w.statements) }) h.1)

-- What a tick that returned has queued: every key of its schedule and of its follows is held.
module _ (env : Env) (now : ℤ) where
  enqueue_once-Ensures :
      (kind : JobKind) (payload : Json) (key : Text) (priority most : ℕ)
      → Ensures (Held key) (enqueue_once env kind payload key priority most)
  unfolding enqueue_once
  enqueue_once-Ensures kind payload key priority most = Ensures-bind_right _ _ λ before.
      Ensures-bind_left _ _
        (record { after = λ w id. enqueue-own env kind payload key priority most w id })
        (λ id. Keeps-pure _)

  run_schedule-Ensures :
      (ps : List Periodic)
      → All
          (λ p.
            (report : TickReport)
            → Ensures (Held (periodic_key p now)) (run_schedule env now ps report))
          ps
  unfolding run_schedule
  run_schedule-Ensures [] = tt
  run_schedule-Ensures (p ∷ ps) = (
    λ report.
        Ensures-bind_left _ _
          (enqueue_once-Ensures p.kind _ (periodic_key p now) p.priority p.max_attempts)
          (λ fresh. run_schedule-Keeps env (periodic_key p now) now ps _),
    All-impl _ _ (λ q h report. Ensures-bind_right _ _ (λ fresh. h _)) ps (run_schedule-Ensures ps),
  )

  run_follows-Ensures :
      (fs : List Follow)
      → All
          (λ f.
            (report : TickReport)
            → Ensures (Held (follow_key env f now)) (run_follows env now fs report))
          fs
  unfolding run_follows
  run_follows-Ensures [] = tt
  run_follows-Ensures (f ∷ fs) = (
    λ report.
        Ensures-bind_left _ _
          (enqueue_once-Ensures JobKind.check_follow _ (follow_key env f now) 5 3)
          (λ fresh. run_follows-Keeps env (follow_key env f now) now fs _),
    All-impl _ _ (λ q h report. Ensures-bind_right _ _ (λ fresh. h _)) fs (run_follows-Ensures fs),
  )

  tick_at-schedule :
      (config : SchedulerConfig) (fs : List Follow)
      → All
          (λ p. Ensures (Held (periodic_key p now)) (tick_at env config (λ n. ok fs) now))
          config.schedule
  unfolding tick_at
  tick_at-schedule config fs =
      All-impl _ _
        (λ p h. Ensures-bind_right _ _ λ recovered.
          Ensures-bind_left _ _ (h _)
            λ report. Keeps-bind _ _ (Keeps-lift _) (λ due. run_follows-Keeps env _ now due report))
        config.schedule (run_schedule-Ensures config.schedule)

  tick_at-follows :
      (config : SchedulerConfig) (fs : List Follow)
      → All (λ f. Ensures (Held (follow_key env f now)) (tick_at env config (λ n. ok fs) now)) fs
  unfolding tick_at
  tick_at-follows config fs =
      All-impl _ _
        (λ f h.
          Ensures-bind_right _ _
            λ recovered. Ensures-bind_right _ _ λ report. Ensures-bind_lift fs _ (h report))
        fs (run_follows-Ensures fs)

All_both {ℓ κ μ ν} :
    {A : Type ℓ} {P : A → Type κ} {Q : A → Type μ} {R : A → Type ν}
    → ((a : A) → P a → Q a → R a)
    → (xs : List A) → All P xs
    → All Q xs
    → All R xs
All_both f [] h k = tt
All_both f (x ∷ xs) h k = (f x h.0 k.0, All_both f xs h.1 k.1)

-- What a second tick finds: its keys are held whatever locks were released before.
module _ (env : Env) (up : (n : ℕ) → env.outage n ≡ none) where
  tick_at-again :
      (config : SchedulerConfig) (fs : List Follow) (now : ℤ) (w : World)
      → All (λ p. Held (periodic_key p now) w.rows) config.schedule
      → All (λ f. Held (follow_key env f now) w.rows) fs
      → (n : ℕ) × ((tick_at env config (λ b. ok fs) now w).0
          ≡ ok (record { enqueued = []; follows = 0; recovered = n }))
        × ((tick_at env config (λ b. ok fs) now w).1.rows
            ≡ update_where
                (is_stale (w.now - stale_age env config.stale_after))
                (released w.now)
                w.rows)
  unfolding tick_at recover_stale ◌>>=◌
  tick_at-again config fs now w hs hf =
      let test : Row → Bool = is_stale (w.now - stale_age env config.stale_after) in
      let rows : List Row = update_where test (released w.now) w.rows in
      let n : ℕ = length (keep test w.rows) in
      let w1 : World = record w { rows = rows; statements = suc w.statements } in
      let start : TickReport = record { enqueued = []; follows = 0; recovered = n } in
      let kept : (k : Text) → Held k w.rows → Held k rows =
        λ k h. released-Held test w.now k w.rows ∙ h in
      let s =
        run_schedule-again env up now config.schedule start w1
          (All-impl _ _ (λ p h. kept (periodic_key p now) h) config.schedule hs) in
      let w2 : World = (run_schedule env now config.schedule start w1).1 in
      let f =
        run_follows-again env up now fs start w2
          (All-impl _ _ (λ f h. rw s.1 (kept (follow_key env f now) h)) fs hf) in
      (
        n,
        rw
            (statement-up env
              (λ t rs. (ok (length (keep test rs)), update_where test (released t) rs)) w
              (up w.statements))
            (rw s.0 f.0),
        rw
            (statement-up env
              (λ t rs. (ok (length (keep test rs)), update_where test (released t) rs)) w
              (up w.statements))
            (rw s.0 (f.1 ∙ s.1)),
      )

-- Where the database answers throughout and the same follows are due, a second tick at any later
-- instant whose keys are those of a tick that returned queues nothing: it reports no job and no
-- follow, and of the rows it only releases the stale locks.
pub tick_again :
    (env : Env) (config : SchedulerConfig) (fs : List Follow) (w : World) (report : TickReport)
    (t : ℕ)
    → ((n : ℕ) → env.outage n ≡ none)
    → (tick env config (λ b. ok fs) w).0 ≡ ok report
    → All (λ p. periodic_key p (pos t) ≡ periodic_key p (pos w.now)) config.schedule
    → All (λ f. follow_key env f (pos t) ≡ follow_key env f (pos w.now)) fs
    → let w' = record (tick env config (λ b. ok fs) w).1 { now = t } in
      (n : ℕ) × ((tick env config (λ b. ok fs) w').0
        ≡ ok (record { enqueued = []; follows = 0; recovered = n }))
      × ((tick env config (λ b. ok fs) w').1.rows
          ≡ update_where (is_stale (t - stale_age env config.stale_after)) (released t) w'.rows)
unfolding tick ◌>>=◌
tick_again env config fs w report t up done same_period same_follows =
    let w1 : World = (tick_at env config (λ b. ok fs) (pos w.now) w).1 in
    tick_at-again env up config fs (pos t) (record w1 { now = t })
      (All_both (λ p h e. subst (λ k. Held k w1.rows) (sym e) (h.after w report done))
        config.schedule (tick_at-schedule env (pos w.now) config fs) same_period)
      (All_both (λ f h e. subst (λ k. Held k w1.rows) (sym e) (h.after w report done)) fs
        (tick_at-follows env (pos w.now) config fs) same_follows)
