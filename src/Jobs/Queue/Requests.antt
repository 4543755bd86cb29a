-- ===== src/Jobs/Queue/Requests.antt =====
-- The calls of the queue as requests, and the predicates on the rows that every call but a pruning
-- keeps.
use nyuka.Common.{
  ℕ, suc, ◌+◌, Bool, true, false, not, ◌||◌, [], Text, Option, none, some, List, [], ◌∷◌, ◌≡◌, ◌≢◌,
  refl, inl, inr, Option-cases, leb,
}
use nyuka.Domain.Enums.{JobKind, JobState}
use nyuka.Domain.Payload.{Json}
use nyuka.Jobs.Exec.{Row, Env, World}
use nyuka.Jobs.Exec.Keeps.{
  Keeps, Keeps-pure, Keeps-lift, Keeps-clock, Keeps-if, Keeps-bind, Keeps-statement,
}
use nyuka.Jobs.Queue.{
  insert_row, new_row, update_where, enqueue, key_exists, claimed, claim_rows, next_runnable, claim,
  ended, set_terminal, complete, cancel, get, requeued, retry_at, fail_with, fail,
}
use nyuka.Jobs.Queue.Upkeep.{recover_stale, released, list, prune}
use nyuka.Jobs.Queue.Rows.{LockMatches, KeepsIdentity}

claimed-same : (worker : Text) (now : ℕ) → KeepsIdentity (claimed worker now)
unfolding claimed
claimed-same worker now = record { id_same = λ r. refl; key_same = λ r. refl }

claimed-locks : (worker : Text) (now : ℕ) (r : Row) → LockMatches (claimed worker now r)
unfolding claimed
claimed-locks worker now r = (λ e. (refl, refl), λ n. absurd (n refl))

ended-same : (s : JobState) (e : Option Text) (now : ℕ) → KeepsIdentity (ended s e now)
unfolding ended
ended-same s e now = record { id_same = λ r. refl; key_same = λ r. refl }

ended-locks :
    (s : JobState) (e : Option Text) (now : ℕ) (r : Row)
    → s ≢ JobState.running
    → LockMatches (ended s e now r)
unfolding ended
ended-locks s e now r n = (λ p. absurd (n p), λ p. (refl, refl))

requeued-same : (next : ℕ) (e : Text) (now : ℕ) → KeepsIdentity (requeued next e now)
unfolding requeued
requeued-same next e now = record { id_same = λ r. refl; key_same = λ r. refl }

requeued-locks : (next : ℕ) (e : Text) (now : ℕ) (r : Row) → LockMatches (requeued next e now r)
unfolding requeued
requeued-locks next e now r = (λ p. absurd (queued-ne p), λ p. (refl, refl))
  where
    queued-ne : JobState.queued ≢ JobState.running
    queued-ne = λ p. cc

released-same : (now : ℕ) → KeepsIdentity (released now)
unfolding released
released-same now = record { id_same = λ r. refl; key_same = λ r. refl }

released-locks : (now : ℕ) (r : Row) → LockMatches (released now r)
unfolding released
released-locks now r = (λ p. absurd (queued-ne p), λ p. (refl, refl))
  where
    queued-ne : JobState.queued ≢ JobState.running
    queued-ne = λ p. cc

-- One call of the queue, or the passing of time.
pub data Request : Type 0 where
  wait : ℕ → Request
  enqueue_job : JobKind → Json → Option ℕ → Option Text → ℕ → ℕ → Request
  ask_key : Text → Request
  claim_for : Text → Request
  complete_job cancel_job get_job : ℕ → Request
  fail_job : ℕ → Text → Bool → Request
  recover prune_older : ℕ → Request
  list_jobs : Option JobState → ℕ → Request

abbrev pub serve : Env → World → Request → World
serve env w (wait t) = record w { now = w.now + t }
serve env w (enqueue_job kind payload run_at key priority most) =
    (enqueue env kind payload run_at key priority most w).1
serve env w (ask_key key) = (key_exists env key w).1
serve env w (claim_for worker) = (claim env worker w).1
serve env w (complete_job id) = (complete env id w).1
serve env w (cancel_job id) = (cancel env id w).1
serve env w (get_job id) = (get env id w).1
serve env w (fail_job id e retryable) = (fail env id e retryable w).1
serve env w (recover age) = (recover_stale env age w).1
serve env w (prune_older age) = (prune env age w).1
serve env w (list_jobs state limit) = (list env state limit w).1

abbrev pub serve_all : Env → World → List Request → World
serve_all env w [] = w
serve_all env w (q ∷ qs) = serve_all env (serve env w q) qs

-- Whether a request prunes nothing.
abbrev pub spares : Request → Bool
spares (prune_older age) = false
spares _ = true

queued-locks :
    (r : Row) → r.state ≡ JobState.queued → r.locked_by ≡ none → r.locked_at ≡ none → LockMatches r
queued-locks r e b t = (λ p. cc, λ p. (b, t))

module _ {P : List Row → Type 0}
    (updates : (test : Row → Bool) (f : Row → Row)
      → KeepsIdentity f
      → ((r : Row) → LockMatches (f r))
      → (rows : List Row) → P rows
      → P (update_where test f rows))
    (inserts : (env : Env) (r : Row) (rows : List Row)
      → LockMatches r
      → P rows
      → P (insert_row env r rows).1) where
  enqueue-Keeps :
      (env : Env) (kind : JobKind) (payload : Json) (run_at : Option ℕ) (key : Option Text)
      (priority most : ℕ)
      → Keeps P (enqueue env kind payload run_at key priority most)
  unfolding enqueue
  enqueue-Keeps env kind payload run_at key priority most = record {
    at = λ w h.
        (Keeps-statement env
            (λ now.
              insert_row env (new_row (env.uuid w.uuids) kind payload run_at key priority most now))
            (λ now rows.
              inserts env (new_row (env.uuid w.uuids) kind payload run_at key priority most now)
                rows
                (queued-locks (new_row (env.uuid w.uuids) kind payload run_at key priority most now)
                  refl refl refl))).at
          (record w { uuids = suc w.uuids }) h;
  }

  set_terminal-Keeps :
      (env : Env) (id : ℕ) (s : JobState) (e : Option Text)
      → s ≢ JobState.running
      → Keeps P (set_terminal env id s e)
  unfolding set_terminal
  set_terminal-Keeps env id s e n =
      Keeps-statement env _ (λ now. updates _ _ (ended-same s e now) (λ r. ended-locks s e now r n))

  claim_rows-kept :
      (worker : Text) (now : ℕ) (rows : List Row) → P rows → P (claim_rows worker now rows).1
  unfolding claim_rows
  claim_rows-kept worker now rows h = elim (Option-cases (next_runnable now rows)) [
    | inl e ↦ rw (e, claim_rows) h
    | inr (r, e) ↦
        rw (e, claim_rows) (updates _ _ (claimed-same worker now) (claimed-locks worker now) rows h)
  ]

  claim-Keeps : (env : Env) (worker : Text) → Keeps P (claim env worker)
  unfolding claim
  claim-Keeps env worker =
      Keeps-bind _ _ (Keeps-statement env (claim_rows worker) (claim_rows-kept worker))
        (λ row. Keeps-lift _)

  get-Keeps : (env : Env) (id : ℕ) → Keeps P (get env id)
  unfolding get
  get-Keeps env id = Keeps-bind _ _ (Keeps-statement env _ (λ now rows h. h)) (λ row. Keeps-lift _)

  retry_at-Keeps : (env : Env) (id : ℕ) (e : Text) (next : ℕ) → Keeps P (retry_at env id e next)
  unfolding retry_at
  retry_at-Keeps env id e next =
      Keeps-bind _ _
        (Keeps-statement env _
          (λ now. updates _ _ (requeued-same next e now) (requeued-locks next e now)))
        (λ u. Keeps-pure _)

  fail-Keeps :
      (env : Env) (id : ℕ) (e : Text) (retryable : Bool) → Keeps P (fail env id e retryable)
  unfolding fail fail_with
  fail-Keeps env id e retryable = Keeps-bind _ _ (get-Keeps env id) λ j.
      Keeps-if (not retryable || leb j.max_attempts j.attempts) _ _
        (Keeps-bind _ _ (set_terminal-Keeps env id JobState.failed (some e) (λ p. cc))
          (λ u. Keeps-pure _))
        (Keeps-bind _ _ Keeps-clock (λ now. retry_at-Keeps env id e _))

  recover-Keeps : (env : Env) (age : ℕ) → Keeps P (recover_stale env age)
  unfolding recover_stale
  recover-Keeps env age = record {
    at = λ w.
        (Keeps-statement env _ (λ now. updates _ _ (released-same now) (released-locks now))).at w;
  }

  reads-Keeps :
      (env : Env) (key : Text) (state : Option JobState) (limit : ℕ)
      → Keeps P (key_exists env key) × Keeps P (list env state limit)
  unfolding key_exists list
  reads-Keeps env key state limit = (
    Keeps-statement env _ (λ now rows h. h),
    Keeps-bind _ _ (Keeps-statement env _ (λ now rows h. h)) (λ rows. Keeps-lift _),
  )

  -- One request that prunes nothing.
  pub serve-kept :
      (env : Env) (q : Request) (w : World) → spares q ≡ true → P w.rows → P (serve env w q).rows
  unfolding complete cancel
  serve-kept env (wait t) w e h = h
  serve-kept env (enqueue_job kind payload run_at key priority most) w e h =
      (enqueue-Keeps env kind payload run_at key priority most).at w h
  serve-kept env (ask_key key) w e h = (reads-Keeps env key none 0).0.at w h
  serve-kept env (claim_for worker) w e h = (claim-Keeps env worker).at w h
  serve-kept env (complete_job id) w e h =
      (set_terminal-Keeps env id JobState.succeeded none (λ p. cc)).at w h
  serve-kept env (cancel_job id) w e h =
      (set_terminal-Keeps env id JobState.cancelled none (λ p. cc)).at w h
  serve-kept env (get_job id) w e h = (get-Keeps env id).at w h
  serve-kept env (fail_job id m retryable) w e h = (fail-Keeps env id m retryable).at w h
  serve-kept env (recover age) w e h = (recover-Keeps env age).at w h
  serve-kept env (prune_older age) w e h = absurd (pruned e)
    where
      pruned : false ≡ true → ⊥
      pruned q = cc
  serve-kept env (list_jobs state limit) w e h = (reads-Keeps env [] state limit).1.at w h
