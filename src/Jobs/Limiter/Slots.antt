-- ===== src/Jobs/Limiter/Slots.antt =====
-- The store of semaphores, read after it is written.
use nyuka.Common.{
  ℕ, zero, suc, ◌<◌, none, some, List, [], ◌∷◌, ◌++◌, ◌==◌, ◌≡◌, length, get_elem?, refl, ap, ◌⊎◌,
  inl, inr, if◌then◌else◌, arith,
}
use nyuka.Jobs.Limiter.{Semaphore, update_at}

pub get_elem?-lt {ℓ} :
    {A : Type ℓ} (xs : List A) (i : ℕ) (a : A) → get_elem? xs i ≡ some a → i < length xs
get_elem?-lt [] i a h = absurd (bad h)
  where
    bad : none ≡ some a → ⊥
    bad q = cc
get_elem?-lt (x ∷ xs) zero a h = omega arith
get_elem?-lt (x ∷ xs) (suc i) a h = omega (arith, get_elem?-lt xs i a h)

pub length-update_at :
    (f : Semaphore → Semaphore) (i : ℕ) (ss : List Semaphore)
    → length (update_at f i ss) ≡ length ss
unfolding update_at
length-update_at f i [] = refl
length-update_at f zero (s ∷ ss) = refl
length-update_at f (suc i) (s ∷ ss) = ap suc (length-update_at f i ss)

-- What stands in a list with one more at its end.
pub appended :
    (xs : List Semaphore) (x : Semaphore) (i : ℕ) (m : Semaphore)
    → get_elem? (xs ++ (x ∷ [])) i ≡ some m
    → ((i ≡ length xs) × (x ≡ m)) ⊎ (get_elem? xs i ≡ some m)
appended [] x zero m h = inl (refl, cc)
appended [] x (suc i) m h = inr h
appended (y ∷ xs) x zero m h = inr h
appended (y ∷ xs) x (suc i) m h = elim (appended xs x i m h) [
  | inl (e, f) ↦ inl (ap suc e, f)
  | inr e ↦ inr e
]

-- What stands in a list after one of it was changed.
pub updated :
    (f : Semaphore → Semaphore) (i j : ℕ) (ss : List Semaphore) (m : Semaphore)
    → get_elem? (update_at f i ss) j ≡ some m
    → (old : Semaphore) × (get_elem? ss j ≡ some old) × (m ≡ (if i == j then f old else old))
unfolding update_at
updated f i j [] m h = absurd (bad h)
  where
    bad : none ≡ some m → ⊥
    bad q = cc
updated f zero zero (s ∷ ss) m h = (s, refl, cc)
updated f zero (suc j) (s ∷ ss) m h = (m, h, ground arith)
updated f (suc i) zero (s ∷ ss) m h = (s, refl, ground arith)
updated f (suc i) (suc j) (s ∷ ss) m h =
    let (old, e, q) = updated f i j ss m h in (old, e, ground arith)

pub appended-at :
    (xs : List Semaphore) (x : Semaphore) (i : ℕ) (m : Semaphore)
    → get_elem? xs i ≡ some m
    → get_elem? (xs ++ (x ∷ [])) i ≡ some m
appended-at [] x i m h = absurd (bad h)
  where
    bad : none ≡ some m → ⊥
    bad q = cc
appended-at (y ∷ xs) x zero m h = h
appended-at (y ∷ xs) x (suc i) m h = appended-at xs x i m h

pub appended-last :
    (xs : List Semaphore) (x : Semaphore) → get_elem? (xs ++ (x ∷ [])) (length xs) ≡ some x
appended-last [] x = refl
appended-last (y ∷ xs) x = appended-last xs x

pub updated-at :
    (f : Semaphore → Semaphore) (ss : List Semaphore) (i j : ℕ) (m : Semaphore)
    → get_elem? ss j ≡ some m
    → get_elem? (update_at f i ss) j ≡ some (if i == j then f m else m)
unfolding update_at
updated-at f [] i j m h = absurd (bad h)
  where
    bad : none ≡ some m → ⊥
    bad q = cc
updated-at f (s ∷ ss) zero zero m h = cc
updated-at f (s ∷ ss) zero (suc j) m h = ground arith
updated-at f (s ∷ ss) (suc i) zero m h = ground arith
updated-at f (s ∷ ss) (suc i) (suc j) m h = ground (arith, updated-at f ss i j m h)

pub update_at-at :
    (f : Semaphore → Semaphore) (ss : List Semaphore) (i : ℕ) (m : Semaphore)
    → get_elem? ss i ≡ some m
    → get_elem? (update_at f i ss) i ≡ some (f m)
unfolding update_at
update_at-at f [] i m h = absurd (bad h)
  where
    bad : none ≡ some m → ⊥
    bad q = cc
update_at-at f (s ∷ ss) zero m h = cc
update_at-at f (s ∷ ss) (suc i) m h = update_at-at f ss i m h
