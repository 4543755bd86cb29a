-- ===== src/Jobs/Limiter/Progress.antt =====
-- The map and the tasks name semaphores that exist, and a task that waits can be served.
use nyuka.Common.{
  ℕ, zero, suc, ◌+◌, ◌≤◌, ◌<◌, max, Bool, false, none, some, List, [], ◌∷◌, ◌++◌, ◌==◌, ◌≡◌, ◌⊎◌,
  length, get_elem?, length-append, refl, ap, subst, ◌∙◌, inl, inr, Bool-cases, Option-cases, All,
  All-append, All-append_left, All-append_right, All-impl, arith, ltb,
}
use nyuka.Jobs.Limiter.{
  Semaphore, SourceLimiter, new, insert, register, lookup, enter, update_at, take_one, give_one,
  free_at, available, permits_for,
}
use nyuka.Jobs.Limiter.Slots.{length-update_at, update_at-at}
use nyuka.Jobs.Limiter.Steps.{
  Ticket, System, start, changed, Step, registers, asks, gives_up, is_granted, releases, Reach,
  here, next, count_of,
}
use nyuka.Jobs.Limiter.Invariant.{Reach-Inv}

abbrev IsStored : SourceLimiter → ℕ → Type 0
IsStored l id = id < length l.semaphores

pub record IsPlaced (l : SourceLimiter) (waiting : List Ticket) : Type 0 where
  pub pointed : (source id : ℕ) → lookup source l.limits ≡ some id → IsStored l id
  pub waited : All (λ t. IsStored l t.semaphore) waiting

longer :
    (l l' : SourceLimiter) (waiting : List Ticket)
    → length l.semaphores ≤ length l'.semaphores
    → All (λ t. IsStored l t.semaphore) waiting
    → All (λ t. IsStored l' t.semaphore) waiting
longer l l' waiting h = All-impl _ _ (λ t lt. omega arith) waiting

module _ (source permits : ℕ) (l : SourceLimiter) where
  longer-insert : length (insert source permits l).semaphores ≡ length l.semaphores + 1
  unfolding insert
  longer-insert =
      omega (
        arith,
        length-append {0} l.semaphores ((record { permits = permits; free = permits }) ∷ []),
      )

  pointed-insert :
      ((source' id : ℕ) → lookup source' l.limits ≡ some id → IsStored l id)
      → (source' id : ℕ) → lookup source' (insert source permits l).limits ≡ some id
      → IsStored (insert source permits l) id
  unfolding insert lookup
  pointed-insert old source' id h = elim (Bool-cases (source == source')) [
    | inl e ↦ omega (arith, longer-insert, same id (rw e at h))
    | inr e ↦ omega (arith, longer-insert, old source' id (rw e at h))
  ]
    where
      same : (i : ℕ) → some (length l.semaphores) ≡ some i → length l.semaphores ≡ i
      same i q = cc

  IsPlaced-insert :
      (waiting : List Ticket) → IsPlaced l waiting → IsPlaced (insert source permits l) waiting
  IsPlaced-insert waiting h = record {
    pointed = pointed-insert h.pointed;
    waited = longer l (insert source permits l) waiting (omega (arith, longer-insert)) h.waited;
  }

IsStored-enter :
    (source : ℕ) (l : SourceLimiter) (waiting : List Ticket)
    → IsPlaced l waiting
    → IsStored (enter source l).1 (enter source l).0
unfolding enter
IsStored-enter source l waiting h = elim (Option-cases (lookup source l.limits)) [
  | inl e ↦ rw (e, enter) (omega (arith, longer-insert source l.default_permits l))
  | inr (id, e) ↦ rw (e, enter) (h.pointed source id e)
]

IsPlaced-enter :
    (source : ℕ) (l : SourceLimiter) (waiting : List Ticket)
    → IsPlaced l waiting
    → IsPlaced (enter source l).1 waiting
unfolding enter
IsPlaced-enter source l waiting h = elim (Option-cases (lookup source l.limits)) [
  | inl e ↦ rw (e, enter) (IsPlaced-insert source l.default_permits l waiting h)
  | inr (id, e) ↦ rw (e, enter) h
]

IsPlaced-changed :
    (f : Semaphore → Semaphore) (t : Ticket) (l : SourceLimiter) (waiting : List Ticket)
    → IsPlaced l waiting
    → IsPlaced (changed f t l) waiting
IsPlaced-changed f t l waiting h = record {
  pointed = λ source id e.
      omega (arith, h.pointed source id e, length-update_at f t.semaphore l.semaphores);
  waited =
      longer l (changed f t l) waiting (omega (arith, length-update_at f t.semaphore l.semaphores))
        h.waited;
}

-- One fewer waits.
left_out :
    (l : SourceLimiter) (waiting before : List Ticket) (t : Ticket) (after : List Ticket)
    → waiting ≡ before ++ (t ∷ after)
    → IsPlaced l waiting
    → IsPlaced l (before ++ after)
left_out l waiting before t after split h =
    let P = λ (k : Ticket). IsStored l k.semaphore in
    let all = subst (All P) split h.waited in
    record {
      pointed = h.pointed;
      waited =
          All-append P before after (All-append_left P before (t ∷ after) all)
            (All-append_right P before (t ∷ after) all).1;
    }

Step-IsPlaced :
    {r : Bool} {s u : System}
    → Step r s u
    → IsPlaced s.limiter s.waiting
    → IsPlaced u.limiter u.waiting
unfolding register
Step-IsPlaced {r} {s} (registers source declared may) h =
    IsPlaced-insert source (permits_for s.limiter declared) s.limiter s.waiting h
Step-IsPlaced {r} {s} (asks source) h =
    let k = IsPlaced-enter source s.limiter s.waiting h in
    record {
      pointed = k.pointed;
      waited =
          All-append (λ (t : Ticket). IsStored (enter source s.limiter).1 t.semaphore) s.waiting _
            k.waited (IsStored-enter source s.limiter s.waiting h, tt);
    }
Step-IsPlaced {r} {s} (gives_up before t after split) h =
    left_out s.limiter s.waiting before t after split h
Step-IsPlaced {r} {s} (is_granted before t after m split at free) h =
    IsPlaced-changed take_one t s.limiter (before ++ after)
      (left_out s.limiter s.waiting before t after split h)
Step-IsPlaced {r} {s} (releases before t after split) h =
    IsPlaced-changed give_one t s.limiter s.waiting h

IsPlaced-new : (d : ℕ) → IsPlaced (new d) []
unfolding new lookup
IsPlaced-new d = record { pointed = λ source id h. absurd (bad id h); waited = tt }
  where
    bad : (id : ℕ) → none ≡ some id → ⊥
    bad id q = cc

Reach-IsPlaced :
    (d : ℕ) {r : Bool} {s : System} → Reach r (start d) s → IsPlaced s.limiter s.waiting
Reach-IsPlaced d here = IsPlaced-new d
Reach-IsPlaced d (next run st) = Step-IsPlaced st (Reach-IsPlaced d run)

pub stored_slot :
    (ss : List Semaphore) (id : ℕ) → id < length ss → (m : Semaphore) × (get_elem? ss id ≡ some m)
stored_slot [] id h = absurd (omega arith)
stored_slot (s ∷ ss) zero h = (s, refl)
stored_slot (s ∷ ss) (suc id) h = stored_slot ss id (omega arith)

-- What is free of the source's semaphore now, with what is held of it, is between one and the cap.
pub available-bounds :
    (d source : ℕ) {r : Bool} {s : System}
    → Reach r (start d) s
    → ((lookup source s.limiter.limits ≡ none) × (available source s.limiter ≡ max d 1))
      ⊎ ((id : ℕ) × (permits : ℕ) × (lookup source s.limiter.limits ≡ some id)
          × (available source s.limiter + count_of id s.held ≡ permits)
          × (1 ≤ permits)
          × (permits ≤ max d 1))
unfolding available free_at
available-bounds d source {r} {s} run =
    let inv = Reach-Inv d run in
    elim (Option-cases (lookup source s.limiter.limits)) [
      | inl e ↦ inl (e, rw (e, available, free_at) inv.same_cap)
      | inr (id, e) ↦
          let (m, at) =
            stored_slot s.limiter.semaphores id ((Reach-IsPlaced d run).pointed source id e) in
          let b = inv.balanced id m at in
          inr (id, m.permits, e, rw (e, at, available, free_at) b.counted, b.some_permit, b.capped)
    ]

-- A holder of the semaphore, if any permit of it is held.
holder :
    (id : ℕ) (held : List Ticket)
    → 0 < count_of id held
    → (before : List Ticket) × (t : Ticket) × (after : List Ticket) × (held ≡ before ++ (t ∷ after))
      × (t.semaphore ≡ id)
holder id [] h = absurd (omega arith)
holder id (t ∷ ts) h = elim (Bool-cases (t.semaphore == id)) [
  | inl e ↦ ([], t, ts, refl, ground arith)
  | inr e ↦
      let (before, k, after, split, same) = holder id ts (ground arith) in
      (t ∷ before, k, after, ap (λ l. t ∷ l) split, same)
]

freed :
    (ss : List Semaphore) (k t : Ticket) (m : Semaphore)
    → k.semaphore ≡ t.semaphore
    → get_elem? ss t.semaphore ≡ some m
    → get_elem? (update_at give_one k.semaphore ss) t.semaphore ≡ some (give_one m)
freed ss k t m same at =
    ap (λ i. get_elem? (update_at give_one i ss) t.semaphore) same
    ∙ update_at-at give_one ss t.semaphore m at

-- A task that waits for a permit can get one: from every state that the limiter reaches, some
-- further steps, none of which is a registration, lead to a state in which it holds a permit of the
-- semaphore that it waits on and its ticket alone has left the queue. For that at most one permit of
-- the same semaphore was given back, and no other ticket was served.
pub waiting-is_served :
    (d : ℕ) {r : Bool} {s : System} (before : List Ticket) (t : Ticket) (after : List Ticket)
    → Reach r (start d) s
    → s.waiting ≡ before ++ (t ∷ after)
    → (u : System) × Reach false s u
      × (u.waiting ≡ before ++ after)
      × ((u.held ≡ t ∷ s.held)
          ⊎ ((front : List Ticket) × (k : Ticket) × (back : List Ticket) × (s.held
                ≡ front ++ (k ∷ back))
              × (k.semaphore ≡ t.semaphore)
              × (u.held ≡ t ∷ (front ++ back))))
waiting-is_served d {r} {s} before t after run split =
    let P = λ (k : Ticket). IsStored s.limiter k.semaphore in
    let stored =
      (All-append_right P before (t ∷ after)
        (subst (All P) split (Reach-IsPlaced d run).waited)).0 in
    let (m, at) = stored_slot s.limiter.semaphores t.semaphore stored in
    let b = (Reach-Inv d run).balanced t.semaphore m at in
    elim (Bool-cases (ltb 0 m.free)) [
      | inl e ↦ (_, next here (is_granted before t after m split at (ground arith)), refl, inl refl)
      | inr e ↦
          let (front, k, back, cut, same) =
            holder t.semaphore s.held (omega (arith, b.counted, b.some_permit, zero_of m.free e)) in
          let at' = freed s.limiter.semaphores k t m same at in
          (
            _,
            next (next here (releases front k back cut))
                (is_granted before t after (give_one m) split at' (omega arith)),
            refl,
            inr (front, k, back, cut, same, refl),
          )
    ]
  where
    zero_of : (n : ℕ) → ltb 0 n ≡ false → n ≡ 0
    zero_of n h = ground arith
