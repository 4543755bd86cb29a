-- ===== src/Jobs/Metrics/Percentile.antt =====
-- The percentiles of a snapshot are samples in order, and at least the stated share lies below.
use nyuka.Common.{
  ℕ, suc, zero, ◌+◌, ◌-◌, ◌*◌, ◌/◌, ◌≤◌, ◌<◌, min, max, none, some, List, [], ◌∷◌, ◌≡◌, refl, inl,
  inr, arith, leb, ltb, leb→le, length, get_elem?, All, All-impl, All-member, Member, here, there,
  Bool-cases, keep, subst, sym,
}
use nyuka.Common.Pairs.{Pairwise}
use nyuka.Jobs.Metrics.{insert_sorted, sort, percentile}

abbrev IsSorted : List ℕ → Type 0
IsSorted = Pairwise ◌≤◌

All-insert_sorted :
    (P : ℕ → Type 0) (x : ℕ) (ys : List ℕ) → P x → All P ys → All P (insert_sorted x ys)
unfolding insert_sorted
All-insert_sorted P x [] h k = (h, tt)
All-insert_sorted P x (y ∷ ys) h k = elim (Bool-cases (leb x y)) [
  | inl e ↦ rw e (h, k)
  | inr e ↦ rw e (k.0, All-insert_sorted P x ys h k.1)
]

insert_sorted-IsSorted : (x : ℕ) (ys : List ℕ) → IsSorted ys → IsSorted (insert_sorted x ys)
unfolding insert_sorted
insert_sorted-IsSorted x [] h = (tt, tt)
insert_sorted-IsSorted x (y ∷ ys) h = elim (Bool-cases (leb x y)) [
  | inl e ↦
      rw e ((leb→le x y e, All-impl _ _ (λ z (k : y ≤ z). omega (arith, leb→le x y e)) ys h.0), h)
  | inr e ↦ rw e (All-insert_sorted _ x ys (ground arith) h.0, insert_sorted-IsSorted x ys h.1)
]

pub sort-IsSorted : (xs : List ℕ) → IsSorted (sort xs)
unfolding sort
sort-IsSorted [] = tt
sort-IsSorted (x ∷ xs) = insert_sorted-IsSorted x (sort xs) (sort-IsSorted xs)

length-insert_sorted : (x : ℕ) (ys : List ℕ) → length (insert_sorted x ys) ≡ suc (length ys)
unfolding insert_sorted
length-insert_sorted x [] = refl
length-insert_sorted x (y ∷ ys) = ground (arith, length-insert_sorted x ys)

pub length-sort : (xs : List ℕ) → length (sort xs) ≡ length xs
unfolding sort
length-sort [] = refl
length-sort (x ∷ xs) = omega (arith, length-insert_sorted x (sort xs), length-sort xs)

abbrev pub count_le : ℕ → List ℕ → ℕ
count_le v xs = length (keep (λ x. leb x v) xs)

-- How many members are below a number.
abbrev pub count_lt : ℕ → List ℕ → ℕ
count_lt v xs = length (keep (λ x. ltb x v) xs)

All-count_lt : (v : ℕ) (xs : List ℕ) → All (λ x. v ≤ x) xs → count_lt v xs ≡ 0
All-count_lt v [] h = refl
All-count_lt v (x ∷ xs) h = ground (arith, All-count_lt v xs h.1)

All-count_le : (v : ℕ) (xs : List ℕ) → All (λ x. x ≤ v) xs → count_le v xs ≡ length xs
All-count_le v [] h = refl
All-count_le v (x ∷ xs) h = ground (arith, All-count_le v xs h.1)

-- At index `i` of a sorted list stands a member that at least `i + 1` members do not exceed, and that
-- at most `i` are below.
ranked :
    (xs : List ℕ) (i v : ℕ)
    → IsSorted xs
    → get_elem? xs i ≡ some v
    → Member v xs × (suc i ≤ count_le v xs) × (count_lt v xs ≤ i)
ranked [] i v h e = absurd (none-ne e)
  where
    none-ne : none ≡ some v → ⊥
    none-ne p = cc
ranked (x ∷ xs) zero v h e =
    let q : x ≡ v = cc in
    let above : All (λ y. v ≤ y) xs = rw q at h.0 in
    rw q (here, ground arith, ground (arith, All-count_lt v xs above))
ranked (x ∷ xs) (suc i) v h e =
    let (m, c, l) = ranked xs i v h.1 e in
    let below : x ≤ v = All-member (λ y. x ≤ y) m h.0 in (there m, ground arith, ground arith)

in_range : (xs : List ℕ) (i : ℕ) → i < length xs → (v : ℕ) × (get_elem? xs i ≡ some v)
in_range [] i h = absurd (omega arith)
in_range (x ∷ xs) zero h = (x, refl)
in_range (x ∷ xs) (suc i) h = in_range xs i (omega arith)

mul_mono : (p n : ℕ) → p ≤ 100 → p * n ≤ 100 * n
mul_mono p n h = grind arith

rank_index : ℕ → ℕ → ℕ
rank_index p n = min (max ((p * n + 99) / 100) 1) n - 1

rank_share : (p n c : ℕ) → p ≤ 100 → suc (rank_index p n) ≤ c → p * n ≤ 100 * c
unfolding rank_index
rank_share p n c h k = omega (arith, mul_mono p n h)

-- Where a share is asked for, the members below are fewer than it.
rank_under : (p n c : ℕ) → 0 < p → 0 < n → c ≤ rank_index p n → 100 * c < p * n
unfolding rank_index
rank_under p n c h k l = let positive : 0 < p * n = grind arith in omega arith

rank_index-lt : (p n : ℕ) → 0 < n → rank_index p n < n
unfolding rank_index
rank_index-lt p n h = omega arith

percentile-at :
    (x : ℕ) (xs : List ℕ) (p v : ℕ)
    → get_elem? (x ∷ xs) (rank_index p (length (x ∷ xs))) ≡ some v
    → percentile (x ∷ xs) p ≡ v
unfolding percentile rank_index
percentile-at x xs p v found = rw found refl

-- The least member that at least the stated share of the members does not exceed.
pub record IsPercentile (p : ℕ) (xs : List ℕ) (v : ℕ) : Type 0 where
  pub member : Member v xs
  pub enough : p * length xs ≤ 100 * count_le v xs
  pub no_more : 100 * count_lt v xs < p * length xs

share_of :
    (x : ℕ) (xs : List ℕ) (p v : ℕ)
    → IsSorted (x ∷ xs)
    → 0 < p
    → p ≤ 100
    → get_elem? (x ∷ xs) (rank_index p (length (x ∷ xs))) ≡ some v
    → IsPercentile p (x ∷ xs) (percentile (x ∷ xs) p)
share_of x xs p v s some_share k found =
    let r = ranked (x ∷ xs) _ v s found in
    subst (IsPercentile p (x ∷ xs)) (sym (percentile-at x xs p v found)) (record {
      member = r.0;
      enough = rank_share p (length (x ∷ xs)) (count_le v (x ∷ xs)) k r.1;
      no_more = rank_under p (length (x ∷ xs)) (count_lt v (x ∷ xs)) some_share (omega arith) r.2;
    })

-- The percentile of a sorted sample that is not empty is one of its members, at least the stated
-- share of the members does not exceed it, and less than that share is below it: of the members it is
-- the least that will do.
pub percentile_share :
    (xs : List ℕ) (p : ℕ)
    → IsSorted xs
    → 0 < length xs
    → 0 < p
    → p ≤ 100
    → IsPercentile p xs (percentile xs p)
percentile_share [] p s h some_share k = absurd (omega arith)
percentile_share (x ∷ xs) p s h some_share k =
    let (v, found) = in_range (x ∷ xs) (rank_index p (length (x ∷ xs))) (rank_index-lt p _ h) in
    share_of x xs p v s some_share k found
