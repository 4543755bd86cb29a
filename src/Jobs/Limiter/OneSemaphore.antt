-- ===== src/Jobs/Limiter/OneSemaphore.antt =====
-- Where nothing calls `register`, a source has one semaphore, so that its cap bounds all its fetches.
use nyuka.Common.{
  ℕ, ◌≤◌, max, true, false, Option, none, some, List, [], ◌∷◌, ◌++◌, ◌==◌, ◌≡◌, refl, subst, inl,
  inr, Bool-cases, Option-cases, length, All, All-append, All-append_left, All-append_right,
  All-impl, arith,
}
use nyuka.Jobs.Limiter.{SourceLimiter, Entry, insert, lookup, enter}
use nyuka.Jobs.Limiter.Steps.{
  Ticket, System, start, Step, registers, asks, gives_up, is_granted, releases, Reach, here, next,
  count_of, in_flight,
}
use nyuka.Jobs.Limiter.Progress.{available-bounds}

-- The ticket names the semaphore that the map has for its source.
abbrev IsCurrent : List Entry → Ticket → Type 0
IsCurrent limits t = lookup t.source limits ≡ some t.semaphore

pub record AreCurrent (s : System) : Type 0 where
  pub waited : All (IsCurrent s.limiter.limits) s.waiting
  pub taken : All (IsCurrent s.limiter.limits) s.held

module _ (source : ℕ) (l : SourceLimiter) where
  none-ne : {A : Type 0} (a : A) (o : Option A) → o ≡ none → o ≡ some a → ⊥
  none-ne a o p q = cc

  -- A new entry stands for a source that had none, so that it hides no ticket's.
  IsCurrent-insert :
      (permits : ℕ) (t : Ticket)
      → lookup source l.limits ≡ none
      → IsCurrent l.limits t
      → IsCurrent (insert source permits l).limits t
  unfolding insert lookup
  IsCurrent-insert permits t fresh h = elim (Bool-cases (source == t.source)) [
    | inl e ↦ absurd (hidden t (ground arith) fresh h)
    | inr e ↦ rw e h
  ]
    where
      hidden :
          (t : Ticket)
          → source ≡ t.source
          → lookup source l.limits ≡ none
          → lookup t.source l.limits ≡ some t.semaphore
          → ⊥
      hidden t same p q = cc

  IsCurrent-enter : (t : Ticket) → IsCurrent l.limits t → IsCurrent (enter source l).1.limits t
  unfolding enter
  IsCurrent-enter t h = elim (Option-cases (lookup source l.limits)) [
    | inl e ↦ rw (e, enter) (IsCurrent-insert l.default_permits t e h)
    | inr (id, e) ↦ rw (e, enter) h
  ]

  inserted :
      (permits : ℕ) → lookup source (insert source permits l).limits ≡ some (length l.semaphores)
  unfolding insert lookup
  inserted permits = ground arith

  entered : lookup source (enter source l).1.limits ≡ some (enter source l).0
  unfolding enter
  entered = elim (Option-cases (lookup source l.limits)) [
    | inl e ↦ rw (e, enter) (inserted l.default_permits)
    | inr (id, e) ↦ rw (e, enter) e
  ]

without :
    (P : Ticket → Type 0) (all before : List Ticket) (t : Ticket) (after : List Ticket)
    → all ≡ before ++ (t ∷ after)
    → All P all
    → All P (before ++ after) × P t
without P all before t after split h =
    let k = subst (All P) split h in
    let r = All-append_right P before (t ∷ after) k in
    (All-append P before after (All-append_left P before (t ∷ after) k) r.1, r.0)

Step-AreCurrent : {s u : System} → Step false s u → AreCurrent s → AreCurrent u
Step-AreCurrent (registers source declared may) h = absurd (never may)
  where
    never : false ≡ true → ⊥
    never q = cc
Step-AreCurrent {s} (asks source) h = record {
  waited =
      All-append (IsCurrent (enter source s.limiter).1.limits) s.waiting _
        (All-impl _ _ (IsCurrent-enter source s.limiter) s.waiting h.waited)
        (entered source s.limiter, tt);
  taken = All-impl _ _ (IsCurrent-enter source s.limiter) s.held h.taken;
}
Step-AreCurrent {s} (gives_up before t after split) h = record {
  waited = (without (IsCurrent s.limiter.limits) s.waiting before t after split h.waited).0;
  taken = h.taken;
}
Step-AreCurrent {s} (is_granted before t after m split at free) h =
    let w = without (IsCurrent s.limiter.limits) s.waiting before t after split h.waited in
    record { waited = w.0; taken = (w.1, h.taken) }
Step-AreCurrent {s} (releases before t after split) h = record {
  waited = h.waited;
  taken = (without (IsCurrent s.limiter.limits) s.held before t after split h.taken).0;
}

Reach-AreCurrent : (d : ℕ) {s : System} → Reach false (start d) s → AreCurrent s
Reach-AreCurrent d here = record { waited = tt; taken = tt }
Reach-AreCurrent d (next run st) = Step-AreCurrent st (Reach-AreCurrent d run)

in_flight-le :
    (source id : ℕ) (limits : List Entry) (held : List Ticket)
    → lookup source limits ≡ some id
    → All (IsCurrent limits) held
    → in_flight source held ≤ count_of id held
in_flight-le source id limits [] e h = omega arith
in_flight-le source id limits (t ∷ ts) e h = elim (Bool-cases (t.source == source)) [
  | inl f ↦
      let same : t.semaphore ≡ id = one t.source t.semaphore (ground arith) h.0 in
      let hit : (t.semaphore == id) ≡ true = ground arith in
      rw (f, hit) (omega (arith, in_flight-le source id limits ts e h.1))
  | inr f ↦ rw f (omega (arith, in_flight-le source id limits ts e h.1))
]
  where
    one : (a b : ℕ) → a ≡ source → lookup a limits ≡ some b → b ≡ id
    one a b p q = cc

none-in_flight :
    (source : ℕ) (limits : List Entry) (held : List Ticket)
    → lookup source limits ≡ none
    → All (IsCurrent limits) held
    → in_flight source held ≡ 0
none-in_flight source limits [] e h = refl
none-in_flight source limits (t ∷ ts) e h = elim (Bool-cases (t.source == source)) [
  | inl f ↦ absurd (one t.source t.semaphore (ground arith) h.0)
  | inr f ↦ rw f (omega (arith, none-in_flight source limits ts e h.1))
]
  where
    one : (a b : ℕ) → a ≡ source → lookup a limits ≡ some b → ⊥
    one a b p q = cc

-- Where nothing registers a limit, at no time do the tasks hold more permits for a source than the
-- operator's cap, or one if the cap is zero.
pub in_flight-capped :
    (d source : ℕ) {s : System} → Reach false (start d) s → in_flight source s.held ≤ max d 1
in_flight-capped d source {s} run =
    let current = Reach-AreCurrent d run in
    elim (available-bounds d source run) [
      | inl (e, whole) ↦
          omega (arith, none-in_flight source s.limiter.limits s.held e current.taken)
      | inr (id, permits, e, sum, lo, hi) ↦
          omega (arith, in_flight-le source id s.limiter.limits s.held e current.taken)
    ]
