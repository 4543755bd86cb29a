-- ===== src/Jobs/Scheduler/Retention.antt =====
-- Why `check_retention` is enough: pruning keeps the rows whose keys still name a current period.
use nyuka.Common.{
  ℕ, ◌+◌, ◌-◌, ◌*◌, ◌/◌, ◌≤◌, ◌<◌, max, pos, Bool, true, not, Option, some, List, [], ◌∷◌, ◌≡◌, ap,
  inl, inr, arith, keep, Member, here, there, Bool-cases, Option-cases, div_euclid,
}
use native.Mathlib.Nat.{div-add-mod, mod-lt}
use nyuka.Domain.Errors.{ok}
use nyuka.Jobs.Exec.{Row, Env, World, statement-up, statement-down}
use nyuka.Jobs.Queue.{second}
use nyuka.Jobs.Queue.Upkeep.{prune, prunable}
use nyuka.Jobs.Scheduler.{Periodic, bucket, longest, check_retention}

longest-le : (ps : List Periodic) {p : Periodic} → Member p ps → p.every ≤ longest ps
unfolding longest
longest-le [] m = elim m [ ]
longest-le (p ∷ ps) here = omega arith
longest-le (p ∷ ps) (there m) = omega (arith, longest-le ps m)

check_retention-ok :
    (from_std : ℕ → Option ℕ) (retention : ℕ) (ps : List Periodic)
    → check_retention from_std retention ps ≡ ok tt
    → from_std (longest ps) ≡ some (longest ps)
    → longest ps < retention
unfolding check_retention
check_retention-ok from_std retention ps h fits = ground arith

pos-injective : (m n : ℕ) → pos m ≡ pos n → m ≡ n
pos-injective m n h = cc

-- Two numbers with one quotient are less than the divisor apart.
same_quotient : (a b s : ℕ) → 0 < s → a / s ≡ b / s → b < a + s
same_quotient a b s h e =
    omega (arith, div-add-mod a s, div-add-mod b s, mod-lt b h, ap (λ t. s * t) e)

-- Two instants of one period are less than the period apart.
bucket_near :
    (every u now : ℕ)
    → second ≤ every
    → bucket every (pos u) ≡ bucket every (pos now)
    → now < u + every
unfolding bucket div_euclid
bucket_near every u now h e =
    let s : ℕ = max (every / second) 1 in
    let near : now / second < u / second + s =
      same_quotient (u / second) (now / second) s (omega arith) (pos-injective _ _ e) in
    omega arith

Member-keep :
    (p : Row → Bool) (rows : List Row) {r : Row}
    → Member r rows
    → p r ≡ true
    → Member r (keep p rows)
Member-keep p [] m e = elim m [ ]
Member-keep p (x ∷ rows) here e = rw e here
Member-keep p (x ∷ rows) (there m) e = elim (Bool-cases (p x)) [
  | inl q ↦ rw q (there (Member-keep p rows m e))
  | inr q ↦ rw q (Member-keep p rows m e)
]

fresh_stays : (cutoff : ℕ) (r : Row) → cutoff ≤ r.updated_at → not (prunable cutoff r) ≡ true
unfolding prunable
fresh_stays cutoff r h = ground arith

-- Where `check_retention` accepts a schedule and a duration can hold its longest period, pruning with
-- that retention keeps every row that was last written in the current period of one of its entries,
-- of a second or more.
pub prune-keeps_period :
    (env : Env) (schedule : List Periodic) (retention : ℕ) (p : Periodic) (r : Row) (w : World)
    → check_retention env.from_std retention schedule ≡ ok tt
    → env.from_std (longest schedule) ≡ some (longest schedule)
    → Member p schedule
    → second ≤ p.every
    → Member r w.rows
    → bucket p.every (pos r.updated_at) ≡ bucket p.every (pos w.now)
    → Member r (prune env retention w).1.rows
unfolding prune
prune-keeps_period env schedule retention p r w accepted fits listed long stored same =
    elim (Option-cases (env.outage w.statements)) [
      | inl up ↦ rw (statement-up env _ w up) (Member-keep _ w.rows stored stays)
      | inr (m, down) ↦ rw (statement-down env _ w m down) stored
    ]
  where
    stays : not (prunable (w.now - retention) r) ≡ true
    stays = fresh_stays (w.now - retention) r (
        omega (
          arith,
          bucket_near p.every r.updated_at w.now long same,
          longest-le schedule listed,
          check_retention-ok env.from_std retention schedule accepted fits,
        ))
