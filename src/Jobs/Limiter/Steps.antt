-- ===== src/Jobs/Limiter/Steps.antt =====
-- The tasks that use a limiter, each move of theirs one step: `register`, `acquire`, which asks for a
-- semaphore under the lock of the map and then waits for a permit of it, and the drop of a permit.
use nyuka.Common.{
  ℕ, ◌+◌, ◌<◌, Bool, true, Option, some, List, [], ◌∷◌, ◌++◌, ◌==◌, ◌≡◌, get_elem?, if◌then◌else◌,
}
use nyuka.Domain.RateLimit.{RateLimit}
use nyuka.Jobs.Limiter.{
  Semaphore, SourceLimiter, new, register, enter, update_at, take_one, give_one,
}

-- A task's place with a semaphore, and the source that it asked for.
pub record Ticket : Type 0 where
  pub source : ℕ
  pub semaphore : ℕ

pub record System : Type 0 where
  pub limiter : SourceLimiter
  pub waiting : List Ticket
  pub held : List Ticket

abbrev pub start : ℕ → System
start default_permits = record { limiter = new default_permits; waiting = []; held = [] }

abbrev pub asked : ℕ → System → System
asked source s =
    let entered = enter source s.limiter in
    record s {
      limiter = entered.1;
      waiting = s.waiting ++ ((record { source = source; semaphore = entered.0 }) ∷ []);
    }

abbrev pub changed : (Semaphore → Semaphore) → Ticket → SourceLimiter → SourceLimiter
changed f t l = record l { semaphores = update_at f t.semaphore l.semaphores }

-- `may_register` says whether anything calls `register`.
pub data Step (may_register : Bool) : System → System → Type 0 where
  registers :
      {s : System} (source : ℕ) (declared : Option RateLimit)
      → may_register ≡ true
      → Step may_register s (record s { limiter = register source declared s.limiter })
  asks : {s : System} (source : ℕ) → Step may_register s (asked source s)
  gives_up :
      {s : System} (before : List Ticket) (t : Ticket) (after : List Ticket)
      → s.waiting ≡ before ++ (t ∷ after)
      → Step may_register s (record s { waiting = before ++ after })
  is_granted :
      {s : System} (before : List Ticket) (t : Ticket) (after : List Ticket) (m : Semaphore)
      → s.waiting ≡ before ++ (t ∷ after)
      → get_elem? s.limiter.semaphores t.semaphore ≡ some m
      → 0 < m.free
      → Step may_register s (record s {
        limiter = changed take_one t s.limiter;
        waiting = before ++ after;
        held = t ∷ s.held;
      })
  releases :
      {s : System} (before : List Ticket) (t : Ticket) (after : List Ticket)
      → s.held ≡ before ++ (t ∷ after)
      → Step may_register s
          (record s { limiter = changed give_one t s.limiter; held = before ++ after })

pub data Reach (may_register : Bool) (s : System) : System → Type 0 where
  here : Reach may_register s s
  next : {t u : System} → Reach may_register s t → Step may_register t u → Reach may_register s u

-- Permits held of a semaphore, and for a source.
abbrev pub count_of : ℕ → List Ticket → ℕ
count_of id [] = 0
count_of id (t ∷ ts) = (if t.semaphore == id then 1 else 0) + count_of id ts

abbrev pub in_flight : ℕ → List Ticket → ℕ
in_flight source [] = 0
in_flight source (t ∷ ts) = (if t.source == source then 1 else 0) + in_flight source ts
