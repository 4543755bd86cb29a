-- ===== src/Jobs/Limiter/Invariant.antt =====
-- No permit is lost or made up, and no semaphore allows more than the operator's cap.
use nyuka.Common.{
  ℕ, ◌+◌, ◌≤◌, ◌<◌, max, Bool, Option, none, some, List, [], ◌∷◌, ◌++◌, ◌==◌, ◌≡◌, length,
  get_elem?, length-append, refl, sym, ap, subst, ◌∙◌, inl, inr, Bool-cases, Option-cases,
  if◌then◌else◌, arith,
}
use nyuka.Domain.RateLimit.{RateLimit}
use nyuka.Jobs.Limiter.{
  Semaphore, SourceLimiter, new, permits_for, insert, register, lookup, enter, take_one, give_one,
}
use nyuka.Jobs.Limiter.Slots.{get_elem?-lt, appended, updated, length-update_at}
use nyuka.Jobs.Limiter.Steps.{
  Ticket, System, start, changed, Step, registers, asks, gives_up, is_granted, releases, Reach,
  here, next, count_of,
}

pub record IsBalanced (limit : ℕ) (held : List Ticket) (id : ℕ) (m : Semaphore) : Type 0 where
  pub counted : m.free + count_of id held ≡ m.permits
  pub some_permit : 1 ≤ m.permits
  pub capped : m.permits ≤ limit

pub record Inv (limit : ℕ) (l : SourceLimiter) (held : List Ticket) : Type 0 where
  pub same_cap : l.default_permits ≡ limit
  pub positive : 1 ≤ limit
  pub balanced :
      (id : ℕ) (m : Semaphore) → get_elem? l.semaphores id ≡ some m → IsBalanced limit held id m
  pub fresh : (id : ℕ) → length l.semaphores ≤ id → count_of id held ≡ 0

some-injective {ℓ} : {A : Type ℓ} (a b : A) → some a ≡ some b → a ≡ b
some-injective a b h = cc

Inv-new : (d : ℕ) → Inv (max d 1) (new d) []
unfolding new
Inv-new d = record {
  same_cap = refl;
  positive = omega arith;
  balanced = λ id m h. cc;
  fresh = λ id h. refl;
}

-- A semaphore of its own, nobody holding a permit of it.
Inv-insert :
    (limit source permits : ℕ) (l : SourceLimiter) (held : List Ticket)
    → 1 ≤ permits
    → permits ≤ limit
    → Inv limit l held
    → Inv limit (insert source permits l) held
unfolding insert
Inv-insert limit source permits l held lo hi inv = record {
  same_cap = inv.same_cap;
  positive = inv.positive;
  balanced = λ id m h. elim (appended l.semaphores _ id m h) [
    | inl (last, made) ↦ subst (IsBalanced limit held id) made (record {
      counted = rw (inv.fresh id (omega arith)) (omega arith);
      some_permit = lo;
      capped = hi;
    })
    | inr old ↦ inv.balanced id m old
  ];
  fresh = λ id h. inv.fresh id (omega (arith, length-append {0} l.semaphores _));
}

pub permits_for_bounds :
    (limit : ℕ) (l : SourceLimiter) (declared : Option RateLimit)
    → l.default_permits ≡ limit
    → 1 ≤ limit
    → (1 ≤ permits_for l declared) × (permits_for l declared ≤ limit)
unfolding permits_for
permits_for_bounds limit l none e h = omega arith
permits_for_bounds limit l (some r) e h = omega arith

pub Inv-register :
    {limit : ℕ} {l : SourceLimiter} {held : List Ticket} (source : ℕ) (declared : Option RateLimit)
    → Inv limit l held
    → Inv limit (register source declared l) held
unfolding register
Inv-register {limit} {l} {held} source declared inv =
    let b = permits_for_bounds limit l declared inv.same_cap inv.positive in
    Inv-insert limit source (permits_for l declared) l held b.0 b.1 inv

pub Inv-enter :
    {limit : ℕ} {l : SourceLimiter} {held : List Ticket} (source : ℕ)
    → Inv limit l held
    → Inv limit (enter source l).1 held
unfolding enter
Inv-enter {limit} {l} {held} source inv = elim (Option-cases (lookup source l.limits)) [
  | inl e ↦
      rw (e, enter)
        (Inv-insert limit source l.default_permits l held
          (omega (arith, inv.positive, inv.same_cap)) (omega (arith, inv.same_cap)) inv)
  | inr (id, e) ↦ rw (e, enter) inv
]

count_of-append :
    (id : ℕ) (before after : List Ticket) (t : Ticket)
    → count_of id (before ++ (t ∷ after))
      ≡ (if t.semaphore == id then 1 else 0) + count_of id (before ++ after)
count_of-append id [] after t = refl
count_of-append id (b ∷ bs) after t = omega (arith, count_of-append id bs after t)

-- What a permit more, or less, makes of a semaphore, its own or another.
module _ (limit : ℕ) (held : List Ticket) (t : Ticket) (id : ℕ) where
  taken :
      (m old m' : Semaphore)
      → (t.semaphore ≡ id → m ≡ old)
      → 0 < m.free
      → m' ≡ (if t.semaphore == id then take_one old else old)
      → IsBalanced limit held id old
      → IsBalanced limit (t ∷ held) id m'
  taken m old m' same free q b = elim (Bool-cases (t.semaphore == id)) [
    | inl e ↦
        let here : m' ≡ take_one old = rw e at q in
        let positive : m.free ≡ old.free = ap (λ s. s.free) (same (ground arith)) in
        subst (IsBalanced limit (t ∷ held) id) (sym here) (record {
          counted = rw e (omega (arith, b.counted));
          some_permit = b.some_permit;
          capped = b.capped;
        })
    | inr e ↦
        let there : m' ≡ old = rw e at q in
        subst (IsBalanced limit (t ∷ held) id) (sym there) (record {
          counted = rw e (omega (arith, b.counted));
          some_permit = b.some_permit;
          capped = b.capped;
        })
  ]

  given :
      (before after : List Ticket) (old m' : Semaphore)
      → held ≡ before ++ (t ∷ after)
      → m' ≡ (if t.semaphore == id then give_one old else old)
      → IsBalanced limit held id old
      → IsBalanced limit (before ++ after) id m'
  given before after old m' split q b =
      let count = ap (count_of id) split ∙ count_of-append id before after t in
      elim (Bool-cases (t.semaphore == id)) [
        | inl e ↦
            let here : m' ≡ give_one old = rw e at q in
            let less : count_of id held ≡ 1 + count_of id (before ++ after) = rw e at count in
            subst (IsBalanced limit (before ++ after) id) (sym here) (record {
              counted = omega (arith, b.counted);
              some_permit = b.some_permit;
              capped = b.capped;
            })
        | inr e ↦
            let there : m' ≡ old = rw e at q in
            let as_many : count_of id held ≡ 0 + count_of id (before ++ after) = rw e at count in
            subst (IsBalanced limit (before ++ after) id) (sym there) (record {
              counted = omega (arith, b.counted);
              some_permit = b.some_permit;
              capped = b.capped;
            })
      ]

same_slot :
    (ss : List Semaphore) {i j : ℕ} {m old : Semaphore}
    → i ≡ j
    → get_elem? ss i ≡ some m
    → get_elem? ss j ≡ some old
    → m ≡ old
same_slot ss e p q = cc

Inv-take :
    {limit : ℕ} {l : SourceLimiter} {held : List Ticket} (t : Ticket) (m : Semaphore)
    → get_elem? l.semaphores t.semaphore ≡ some m
    → 0 < m.free
    → Inv limit l held
    → Inv limit (changed take_one t l) (t ∷ held)
Inv-take {limit} {l} {held} t m at free inv = record {
  same_cap = inv.same_cap;
  positive = inv.positive;
  balanced = λ id m' h.
      let (old, e, q) = updated take_one t.semaphore id l.semaphores m' h in
      let b = inv.balanced id old e in
      taken limit held t id m old m' (λ eq. same_slot l.semaphores eq at e) free q b;
  fresh = λ id h.
      let len = length-update_at take_one t.semaphore l.semaphores in
      let lt = get_elem?-lt l.semaphores t.semaphore m at in
      let none_held = inv.fresh id (omega arith) in ground arith;
}

Inv-give :
    {limit : ℕ} {l : SourceLimiter} {held : List Ticket} (before : List Ticket) (t : Ticket)
    (after : List Ticket)
    → held ≡ before ++ (t ∷ after)
    → Inv limit l held
    → Inv limit (changed give_one t l) (before ++ after)
Inv-give {limit} {l} {held} before t after split inv = record {
  same_cap = inv.same_cap;
  positive = inv.positive;
  balanced = λ id m' h.
      let (old, e, q) = updated give_one t.semaphore id l.semaphores m' h in
      given limit held t id before after old m' split q (inv.balanced id old e);
  fresh = λ id h.
      let len = length-update_at give_one t.semaphore l.semaphores in
      let none_held = inv.fresh id (omega arith) in
      let count = ap (count_of id) split ∙ count_of-append id before after t in omega arith;
}

Step-Inv :
    {limit : ℕ} {r : Bool} {s u : System}
    → Step r s u
    → Inv limit s.limiter s.held
    → Inv limit u.limiter u.held
Step-Inv (registers source declared may) inv = Inv-register source declared inv
Step-Inv (asks source) inv = Inv-enter source inv
Step-Inv (gives_up before t after split) inv = inv
Step-Inv (is_granted before t after m split at free) inv = Inv-take t m at free inv
Step-Inv (releases before t after split) inv = Inv-give before t after split inv

pub Reach-kept :
    {limit : ℕ} {r : Bool} {s u : System}
    → Reach r s u
    → Inv limit s.limiter s.held
    → Inv limit u.limiter u.held
Reach-kept here inv = inv
Reach-kept (next run st) inv = Step-Inv st (Reach-kept run inv)

pub Reach-Inv :
    (d : ℕ) {r : Bool} {s : System} → Reach r (start d) s → Inv (max d 1) s.limiter s.held
Reach-Inv d run = Reach-kept run (Inv-new d)
