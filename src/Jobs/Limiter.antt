-- ===== src/Jobs/Limiter.antt =====
-- crates/jobs/src/limiter.rs: one semaphore for each source, and who holds its permits.
pub mod Slots
pub mod Steps
pub mod Invariant
pub mod Progress
pub mod Permits
pub mod OneSemaphore
use nyuka.Common.{
  ℕ, zero, suc, ◌+◌, ◌-◌, min, max, Bool, Option, none, some, List, [], ◌∷◌, ◌++◌, ◌==◌, length,
  get_elem?, unwrap_or, if◌then◌else◌,
}
use nyuka.Domain.RateLimit.{RateLimit}

-- tokio's `Semaphore`: the permits it was made with and those that are free.
pub record Semaphore : Type 0 where
  pub permits : ℕ
  pub free : ℕ

pub record Entry : Type 0 where
  pub source : ℕ
  pub semaphore : ℕ

-- Semaphores are shared behind `Arc`s: they stand in a store, and the map names them by place. Of
-- two entries for a source the first is the one in force.
pub record SourceLimiter : Type 0 where
  pub default_permits : ℕ
  pub limits : List Entry
  pub semaphores : List Semaphore

unfoldable pub new : ℕ → SourceLimiter
new default_permits = record {
  default_permits = max default_permits 1;
  limits = [];
  semaphores = [];
}

unfoldable pub permits_for : SourceLimiter → Option RateLimit → ℕ
permits_for l (some limit) = max (min limit.permits l.default_permits) 1
permits_for l none = l.default_permits

-- `insert(source, Arc::new(Semaphore::new(permits)))`
unfoldable pub insert : ℕ → ℕ → SourceLimiter → SourceLimiter
insert source permits l = record l {
  limits = (record { source = source; semaphore = length l.semaphores }) ∷ l.limits;
  semaphores = l.semaphores ++ ((record { permits = permits; free = permits }) ∷ []);
}

unfoldable pub register : ℕ → Option RateLimit → SourceLimiter → SourceLimiter
register source declared l = insert source (permits_for l declared) l

unfoldable pub lookup : ℕ → List Entry → Option ℕ
lookup source [] = none
lookup source (e ∷ es) =
    let rest = lookup source es in if e.source == source then some e.semaphore else rest

-- `entry(source).or_insert_with(…).clone()`: the semaphore to wait on.
unfoldable pub enter : ℕ → SourceLimiter → ℕ × SourceLimiter
enter source l = elim (lookup source l.limits) [
  | some id ↦ (id, l)
  | none ↦ (length l.semaphores, insert source l.default_permits l)
]

unfoldable pub update_at : (Semaphore → Semaphore) → ℕ → List Semaphore → List Semaphore
update_at f i [] = []
update_at f zero (s ∷ ss) = f s ∷ ss
update_at f (suc i) (s ∷ ss) = s ∷ update_at f i ss

abbrev pub take_one : Semaphore → Semaphore
take_one s = record s { free = s.free - 1 }

abbrev pub give_one : Semaphore → Semaphore
give_one s = record s { free = s.free + 1 }

-- `available`
unfoldable pub free_at : List Semaphore → Option ℕ → ℕ → ℕ
free_at ss none default_permits = default_permits
free_at ss (some id) default_permits = elim (get_elem? ss id) [
  | none ↦ default_permits
  | some s ↦ s.free
]

unfoldable pub available : ℕ → SourceLimiter → ℕ
available source l = free_at l.semaphores (lookup source l.limits) l.default_permits
