-- ===== src/Jobs/Limiter/Permits.antt =====
-- The permits of a semaphore are those that it was made with, for as long as it is used.
use nyuka.Common.{
  ℕ, ◌+◌, ◌≤◌, max, Bool, true, false, Option, none, some, List, ◌==◌, ◌≡◌, length, get_elem?, refl,
  ◌∙◌, inl, inr, Option-cases, if◌then◌else◌,
}
use nyuka.Domain.RateLimit.{RateLimit}
use nyuka.Jobs.Limiter.{
  Semaphore, SourceLimiter, permits_for, insert, register, lookup, enter, take_one, give_one,
  free_at, available,
}
use nyuka.Jobs.Limiter.Slots.{appended-at, appended-last, updated-at}
use nyuka.Jobs.Limiter.Steps.{
  Ticket, System, start, asked, changed, Step, registers, asks, gives_up, is_granted, releases,
  Reach, here, next, count_of,
}
use nyuka.Jobs.Limiter.Invariant.{
  Inv, Reach-Inv, Reach-kept, Inv-register, Inv-enter, permits_for_bounds,
}

-- The semaphore with this id has so many permits.
abbrev Made : ℕ → ℕ → SourceLimiter → Type 0
Made id permits l = (m : Semaphore) × (get_elem? l.semaphores id ≡ some m) × (m.permits ≡ permits)

-- What was made stays.
module _ (id permits : ℕ) where
  Made-insert :
      (source n : ℕ) (l : SourceLimiter) → Made id permits l → Made id permits (insert source n l)
  unfolding insert
  Made-insert source n l (m, at, p) = (m, appended-at l.semaphores _ id m at, p)

  Made-enter :
      (source : ℕ) (l : SourceLimiter) → Made id permits l → Made id permits (enter source l).1
  unfolding enter
  Made-enter source l h = elim (Option-cases (lookup source l.limits)) [
    | inl e ↦ rw (e, enter) (Made-insert source l.default_permits l h)
    | inr (i, e) ↦ rw (e, enter) h
  ]

  Made-changed :
      (f : Semaphore → Semaphore) (t : Ticket) (l : SourceLimiter)
      → ((m : Semaphore) → (f m).permits ≡ m.permits)
      → Made id permits l
      → Made id permits (changed f t l)
  Made-changed f t l same (m, at, p) =
      (_, updated-at f l.semaphores t.semaphore id m at, as_before (t.semaphore == id))
    where
      as_before : (b : Bool) → (if b then f m else m).permits ≡ permits
      as_before true = same m ∙ p
      as_before false = p

  Step-Made :
      {r : Bool} {s u : System} → Step r s u → Made id permits s.limiter → Made id permits u.limiter
  unfolding register
  Step-Made {s = s} (registers source declared may) h =
      Made-insert source (permits_for s.limiter declared) s.limiter h
  Step-Made {s = s} (asks source) h = Made-enter source s.limiter h
  Step-Made (gives_up before t after split) h = h
  Step-Made {s = s} (is_granted before t after m split at free) h =
      Made-changed take_one t s.limiter (λ k. refl) h
  Step-Made {s = s} (releases before t after split) h =
      Made-changed give_one t s.limiter (λ k. refl) h

  Reach-Made :
      {r : Bool} {s u : System}
      → Reach r s u
      → Made id permits s.limiter
      → Made id permits u.limiter
  Reach-Made here h = h
  Reach-Made (next run st) h = Step-Made st (Reach-Made run h)

-- Free permits and held ones are all there are.
all_there :
    {limit : ℕ} (source id permits : ℕ) (l : SourceLimiter) (held : List Ticket)
    → Inv limit l held
    → Made id permits l
    → lookup source l.limits ≡ some id
    → available source l + count_of id held ≡ permits
unfolding available free_at
all_there source id permits l held inv (m, at, p) e =
    rw (e, at, available, free_at) ((inv.balanced id m at).counted ∙ p)

register-Made :
    (source : ℕ) (declared : Option RateLimit) (l : SourceLimiter)
    → Made (length l.semaphores) (permits_for l declared) (register source declared l)
unfolding register insert
register-Made source declared l = (_, appended-last l.semaphores _, refl)

enter-Made :
    (source : ℕ) (l : SourceLimiter)
    → lookup source l.limits ≡ none
    → Made (length l.semaphores) l.default_permits (enter source l).1
unfolding enter insert
enter-Made source l e = rw (e, enter) (_, appended-last l.semaphores _, refl)

-- A semaphore is made when a source is registered, with the permits that its declared limit and the
-- operator's cap give, between one and the cap; or when a source that has none is first asked for,
-- with the whole cap. From then on, whatever tasks ask, give up, are served and let go, and whatever
-- sources are registered, the permits that `available` reports while the source still has that
-- semaphore, and those that tasks hold of it, are as many as it was made with.
pub available-in_flight :
    (d source : ℕ) {r : Bool} {s u : System}
    → Reach r (start d) s
    → let id = length s.limiter.semaphores in
      ((declared : Option RateLimit)
        → Reach r (record s { limiter = register source declared s.limiter }) u
        → lookup source u.limiter.limits ≡ some id
        → (available source u.limiter + count_of id u.held ≡ permits_for s.limiter declared)
          × (1 ≤ permits_for s.limiter declared)
          × (permits_for s.limiter declared ≤ max d 1))
      × (lookup source s.limiter.limits ≡ none
          → Reach r (asked source s) u
          → lookup source u.limiter.limits ≡ some id
          → available source u.limiter + count_of id u.held ≡ max d 1)
available-in_flight d source {r} {s} {u} run =
    let inv = Reach-Inv d run in
    let id = length s.limiter.semaphores in
    (
      λ declared more e.
          let b = permits_for_bounds (max d 1) s.limiter declared inv.same_cap inv.positive in
          (
            all_there source id (permits_for s.limiter declared) u.limiter u.held
                (Reach-kept more (Inv-register source declared inv))
                (Reach-Made id _ more (register-Made source declared s.limiter)) e,
            b.0,
            b.1,
          ),
      λ new more e.
          all_there source id s.limiter.default_permits u.limiter u.held
            (Reach-kept more (Inv-enter source inv))
            (Reach-Made id _ more (enter-Made source s.limiter new)) e
          ∙ inv.same_cap,
    )
