-- ===== src/Jobs/Queue/Claim/Distinct.antt =====
-- No job is claimed twice.
use nyuka.Common.{
  ℕ, ◌+◌, false, Text, Option, none, some, List, [], ◌∷◌, ◌++◌, ◌≡◌, ◌≢◌, refl, arith, All,
  All-member, All-append,
}
use nyuka.Common.Pairs.{Pairwise}
use nyuka.Domain.Enums.{JobState}
use nyuka.Domain.Errors.{Result, ok, err}
use nyuka.Jobs.Exec.{Row, Env, World}
use nyuka.Jobs.Queue.{Job, runnable, has_id, claimed, update_where, claim}
use nyuka.Jobs.Queue.Claim.{outcome, claim-outcome, claim-IsPicked}

-- The ids that a series of workers claims, each after some time has passed.
id_claimed : Result (Option Job) → List ℕ
id_claimed (ok (some j)) = j.id ∷ []
id_claimed (ok none) = []
id_claimed (err e) = []

abbrev later : World → ℕ → World
later w t = record w { now = w.now + t }

unfoldable pub claimed_ids : Env → List (Text × ℕ) → World → List ℕ
unfolding id_claimed
claimed_ids env [] w = []
claimed_ids env ((worker, t) ∷ rest) w =
    id_claimed (claim env worker (later w t)).0
    ++ claimed_ids env rest (claim env worker (later w t)).1

-- Every row with this id runs.
abbrev Busy : ℕ → List Row → Type 0
Busy id = All (λ r. r.id ≡ id → r.state ≡ JobState.running)

Busy-claimed_rows :
    (id : ℕ) (worker : Text) (now other : ℕ) (rows : List Row)
    → Busy id rows
    → Busy id (update_where (has_id other) (claimed worker now) rows)
unfolding update_where claimed
Busy-claimed_rows id worker now other [] h = tt
Busy-claimed_rows id worker now other (r ∷ rows) h =
    (ground (arith, h.0), Busy-claimed_rows id worker now other rows h.1)

Busy-claimed :
    (id : ℕ) (worker : Text) (now : ℕ) (rows : List Row)
    → Busy id (update_where (has_id id) (claimed worker now) rows)
unfolding update_where claimed
Busy-claimed id worker now [] = tt
Busy-claimed id worker now (r ∷ rows) = (ground arith, Busy-claimed id worker now rows)

Busy-outcome :
    (id : ℕ) (env : Env) (worker : Text) (w : World) (o : Option Text) (best : Option Row)
    → Busy id w.rows
    → Busy id (outcome env worker w o best).1.rows
unfolding outcome
Busy-outcome id env worker w (some m) best h = h
Busy-outcome id env worker w none none h = h
Busy-outcome id env worker w none (some r) h = Busy-claimed_rows id worker w.now r.id w.rows h

Busy-claim :
    (id : ℕ) (env : Env) (worker : Text) (w : World)
    → Busy id w.rows
    → Busy id (claim env worker w).1.rows
Busy-claim id env worker w h = rw claim-outcome (Busy-outcome id env worker w _ _ h)

running-not_runnable : (now : ℕ) (r : Row) → r.state ≡ JobState.running → runnable now r ≡ false
unfolding runnable
running-not_runnable now r e = rw (e, runnable)

-- A busy id is not claimed.
Busy-ne-claimed :
    (id : ℕ) (env : Env) (worker : Text) (w : World)
    → Busy id w.rows
    → All (λ k. id ≢ k) (id_claimed (claim env worker w).0)
unfolding id_claimed
Busy-ne-claimed id env worker w h = go (claim env worker w).0 refl
  where
    differs : (j : Job) → (claim env worker w).0 ≡ ok (some j) → id ≢ j.id
    differs j e q =
        let (r, next, same, counted, runs, written) = (claim-IsPicked env worker w).0 j e in
        cc (next.can_run, running-not_runnable w.now r (All-member _ next.member h (cc (q, same))))

    go : (r : Result (Option Job)) → (claim env worker w).0 ≡ r → All (λ k. id ≢ k) (id_claimed r)
    go (err x) e = tt
    go (ok none) e = tt
    go (ok (some j)) e = (differs j e, tt)

Busy-ne-claimed_ids :
    (id : ℕ) (env : Env) (calls : List (Text × ℕ)) (w : World)
    → Busy id w.rows
    → All (λ k. id ≢ k) (claimed_ids env calls w)
unfolding claimed_ids
Busy-ne-claimed_ids id env [] w h = tt
Busy-ne-claimed_ids id env ((worker, t) ∷ rest) w h =
    All-append _ _ _ (Busy-ne-claimed id env worker (later w t) h) (
      Busy-ne-claimed_ids id env rest (claim env worker (later w t)).1
        (Busy-claim id env worker (later w t) h))

-- What a claim returns is busy from then on.
claim-Busy :
    (env : Env) (worker : Text) (w : World) (j : Job)
    → (claim env worker w).0 ≡ ok (some j)
    → Busy j.id (claim env worker w).1.rows
claim-Busy env worker w j e =
    let (r, next, same, counted, runs, written) = (claim-IsPicked env worker w).0 j e in
    rw (written, same) (Busy-claimed r.id worker w.now w.rows)

distinct_step :
    (env : Env) (worker : Text) (rest : List (Text × ℕ)) (w : World) (r : Result (Option Job))
    → (claim env worker w).0 ≡ r
    → Pairwise ◌≢◌ (claimed_ids env rest (claim env worker w).1)
    → Pairwise ◌≢◌ (id_claimed r ++ claimed_ids env rest (claim env worker w).1)
unfolding id_claimed
distinct_step env worker rest w (err x) e h = h
distinct_step env worker rest w (ok none) e h = h
distinct_step env worker rest w (ok (some j)) e h =
    (Busy-ne-claimed_ids j.id env rest (claim env worker w).1 (claim-Busy env worker w j e), h)

-- However many workers claim one after the other, with time passing between and statements
-- failing, no job is handed out twice.
pub claimed_ids-distinct :
    (env : Env) (calls : List (Text × ℕ)) (w : World) → Pairwise ◌≢◌ (claimed_ids env calls w)
unfolding claimed_ids
claimed_ids-distinct env [] w = tt
claimed_ids-distinct env ((worker, t) ∷ rest) w =
    distinct_step env worker rest (later w t) (claim env worker (later w t)).0 refl
      (claimed_ids-distinct env rest (claim env worker (later w t)).1)
