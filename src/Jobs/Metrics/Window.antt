-- ===== src/Jobs/Metrics/Window.antt =====
-- What a window counts: every outcome once, and the first times to a page.
use nyuka.Common.{
  sym, subst, ◌∙◌, ◌-◌, ◌<◌, ◌++◌, ◌||◌, ◌⊎◌, Bool, true, false, min, take, keep, ap, zero, suc,
  Member, here, there, ℕ, ◌+◌, ◌*◌, ◌≤◌, ltb, List, [], ◌∷◌, ◌≡◌, refl, inl, inr, arith, leb,
  length, length-append, Bool-cases,
}
use nyuka.Jobs.Metrics.{
  Outcome, succeeded, service_fault, source_fault, Metrics, fresh, max_samples, record_outcome,
  record_time_to_first_page, take_window, percentile, sort, insert_sorted, Snapshot,
}
use nyuka.Jobs.Metrics.Percentile.{IsPercentile, sort-IsSorted, length-sort, percentile_share}

-- What reaches the counters between two snapshots.
pub data Event : Type 0 where
  finished : Outcome → Event
  shown_after : ℕ → Event

abbrev pub observe : List Event → Metrics → Metrics
observe [] m = m
observe (finished o ∷ es) m = observe es (record_outcome o m)
observe (shown_after t ∷ es) m = observe es (record_time_to_first_page t m)

abbrev pub outcomes : (Outcome → ℕ) → List Event → ℕ
outcomes one [] = 0
outcomes one (finished o ∷ es) = one o + outcomes one es
outcomes one (shown_after t ∷ es) = outcomes one es

abbrev pub is_succeeded : Outcome → ℕ
is_succeeded succeeded = 1
is_succeeded _ = 0

abbrev pub is_service_fault : Outcome → ℕ
is_service_fault service_fault = 1
is_service_fault _ = 0

abbrev pub is_source_fault : Outcome → ℕ
is_source_fault source_fault = 1
is_source_fault _ = 0

time_keeps :
    (t : ℕ) (m : Metrics)
    → let m' = record_time_to_first_page t m in
      (m'.succeeded ≡ m.succeeded)
      × (m'.failed_service ≡ m.failed_service)
      × (m'.failed_source ≡ m.failed_source)
unfolding record_time_to_first_page
time_keeps t m = ground arith

counts :
    (es : List Event) (m : Metrics)
    → ((observe es m).succeeded ≡ m.succeeded + outcomes is_succeeded es)
      × ((observe es m).failed_service ≡ m.failed_service + outcomes is_service_fault es)
      × ((observe es m).failed_source ≡ m.failed_source + outcomes is_source_fault es)
unfolding record_outcome
counts [] m = (omega arith, omega arith, omega arith)
counts (finished succeeded ∷ es) m =
    let c = counts es (record_outcome succeeded m) in
    (omega (arith, c.0), omega (arith, c.1), omega (arith, c.2))
counts (finished service_fault ∷ es) m =
    let c = counts es (record_outcome service_fault m) in
    (omega (arith, c.0), omega (arith, c.1), omega (arith, c.2))
counts (finished source_fault ∷ es) m =
    let c = counts es (record_outcome source_fault m) in
    (omega (arith, c.0), omega (arith, c.1), omega (arith, c.2))
counts (shown_after t ∷ es) m =
    let c = counts es (record_time_to_first_page t m) in
    let k = time_keeps t m in
    (omega (arith, c.0, k.0), omega (arith, c.1, k.1), omega (arith, c.2, k.2))

-- The times to the first page of a window, each as the `u64` that is stored.
abbrev pub times : List Event → List ℕ
times [] = []
times (finished o ∷ es) = times es
times (shown_after t ∷ es) = min t 18_446_744_073_709_551_615 ∷ times es

-- What a window that has taken its samples takes of the times that come.
record Samples (es : List Event) (m m' : Metrics) : Type 0 where
  kept : m'.ttfp ≡ m.ttfp ++ take (max_samples - length m.ttfp) (times es)
  marked : m'.truncated ≡ (m.truncated || ltb (max_samples - length m.ttfp) (length (times es)))

append_nil : (xs : List ℕ) → xs ++ [] ≡ xs
append_nil [] = refl
append_nil (x ∷ xs) = ap (λ l. x ∷ l) (append_nil xs)

append_assoc : (xs ys zs : List ℕ) → (xs ++ ys) ++ zs ≡ xs ++ (ys ++ zs)
append_assoc [] ys zs = refl
append_assoc (x ∷ xs) ys zs = ap (λ l. x ∷ l) (append_assoc xs ys zs)

take_nil : (n : ℕ) → take {A = ℕ} n [] ≡ []
take_nil zero = refl
take_nil (suc n) = refl

never_below : (n : ℕ) → ltb n 0 ≡ false
never_below n = ground arith

length-take : (n : ℕ) (xs : List ℕ) → length (take n xs) ≡ min (length xs) n
length-take zero xs = omega arith
length-take (suc n) [] = omega arith
length-take (suc n) (x ∷ xs) = omega (arith, length-take n xs)

or_false : (b : Bool) → b ≡ (b || false)
or_false true = refl
or_false false = refl

or_true : (b : Bool) → true ≡ (b || true)
or_true true = refl
or_true false = refl

full_already :
    (es : List Event) (m : Metrics) (t : ℕ)
    → max_samples - length m.ttfp ≡ 0
    → (true || ltb (max_samples - length m.ttfp) (length (times es)))
      ≡ (m.truncated || ltb (max_samples - length m.ttfp) (length (times (shown_after t ∷ es))))
full_already es m t e =
    let more : ltb (max_samples - length m.ttfp) (suc (length (times es))) ≡ true = ground arith in
    or_true m.truncated ∙ ap (λ b. m.truncated || b) (sym more)

sampled :
    (es : List Event) (m : Metrics) → length m.ttfp ≤ max_samples → Samples es m (observe es m)
unfolding record_outcome record_time_to_first_page
sampled [] m h = record {
  kept =
      sym (append_nil m.ttfp)
      ∙ ap (λ l. m.ttfp ++ l) (sym (take_nil (max_samples - length m.ttfp)));
  marked =
      or_false m.truncated
      ∙ ap (λ b. m.truncated || b) (sym (never_below (max_samples - length m.ttfp)));
}
sampled (finished succeeded ∷ es) m h =
    let s = sampled es (record_outcome succeeded m) h in record { kept = s.kept; marked = s.marked }
sampled (finished service_fault ∷ es) m h =
    let s = sampled es (record_outcome service_fault m) h in
    record { kept = s.kept; marked = s.marked }
sampled (finished source_fault ∷ es) m h =
    let s = sampled es (record_outcome source_fault m) h in
    record { kept = s.kept; marked = s.marked }
sampled (shown_after t ∷ es) m h = elim (Bool-cases (leb max_samples (length m.ttfp))) [
  | inl full ↦
      let none_left : max_samples - length m.ttfp ≡ 0 = ground arith in
      let m' : Metrics = record m { truncated = true } in
      let same : record_time_to_first_page t m ≡ m' = rw (full, record_time_to_first_page) refl in
      let s = sampled es m' h in
      subst (λ n. Samples (shown_after t ∷ es) m (observe es n)) (sym same)
        (record {
          kept = s.kept ∙ (rw none_left refl);
          marked = s.marked ∙ full_already es m t none_left;
        })
  | inr room ↦
      let x = min t 18_446_744_073_709_551_615 in
      let m' : Metrics = record m { ttfp = m.ttfp ++ (x ∷ []) } in
      let same : record_time_to_first_page t m ≡ m' = rw (room, record_time_to_first_page) refl in
      let longer : length (m.ttfp ++ (x ∷ [])) ≡ length m.ttfp + 1 =
        length-append {0} m.ttfp (x ∷ []) in
      let left = max_samples - length (m.ttfp ++ (x ∷ [])) in
      let one_less : max_samples - length m.ttfp ≡ suc left = ground arith in
      let s = sampled es m' (ground arith) in
      subst (λ n. Samples (shown_after t ∷ es) m (observe es n)) (sym same)
        (record {
          kept =
              s.kept
              ∙ append_assoc m.ttfp (x ∷ []) (take left (times es))
              ∙ ap (λ n. m.ttfp ++ take n (x ∷ times es)) (sym one_less);
          marked = s.marked ∙ ap (λ b. m.truncated || b) (one_more left one_less);
        })
]
  where
    one_more :
        (left : ℕ)
        → max_samples - length m.ttfp ≡ suc left
        → ltb left (length (times es))
          ≡ ltb (max_samples - length m.ttfp) (length (times (shown_after t ∷ es)))
    one_more left e = ground arith

-- Sorting changes no count.
counted_insert :
    (p : ℕ → Bool) (x : ℕ) (ys : List ℕ)
    → length (keep p (insert_sorted x ys)) ≡ length (keep p (x ∷ ys))
unfolding insert_sorted
counted_insert p x [] = refl
counted_insert p x (y ∷ ys) = ground (arith, counted_insert p x ys)

counted_sort : (p : ℕ → Bool) (xs : List ℕ) → length (keep p (sort xs)) ≡ length (keep p xs)
unfolding sort
counted_sort p [] = refl
counted_sort p (x ∷ xs) = ground (arith, counted_insert p x (sort xs), counted_sort p xs)

behind : {v : ℕ} (x y : ℕ) (ys : List ℕ) → Member v (x ∷ ys) → Member v (x ∷ y ∷ ys)
behind x y ys here = here
behind x y ys (there k) = there (there k)

past :
    {v : ℕ} (x y : ℕ) (ys zs : List ℕ)
    → (Member v zs → Member v (x ∷ ys))
    → Member v (y ∷ zs)
    → Member v (x ∷ y ∷ ys)
past x y ys zs f here = there here
past x y ys zs f (there m) = behind x y ys (f m)

pull :
    {v : ℕ} (x : ℕ) (ys zs : List ℕ)
    → (Member v ys → Member v zs)
    → Member v (x ∷ ys)
    → Member v (x ∷ zs)
pull x ys zs f here = here
pull x ys zs f (there m) = there (f m)

Member-insert_sorted : (v x : ℕ) (ys : List ℕ) → Member v (insert_sorted x ys) → Member v (x ∷ ys)
unfolding insert_sorted
Member-insert_sorted v x [] m = m
Member-insert_sorted v x (y ∷ ys) m = elim (Bool-cases (leb x y)) [
  | inl e ↦ rw e at m
  | inr e ↦ past x y ys (insert_sorted x ys) (Member-insert_sorted v x ys) (rw e at m)
]

Member-sort : (v : ℕ) (xs : List ℕ) → Member v (sort xs) → Member v xs
unfolding sort
Member-sort v [] m = m
Member-sort v (x ∷ xs) m =
    pull x (sort xs) xs (Member-sort v xs) (Member-insert_sorted v x (sort xs) m)

IsPercentile-sort :
    (p : ℕ) (xs : List ℕ)
    → 0 < p
    → p ≤ 100
    → 0 < length xs
    → IsPercentile p xs (percentile (sort xs) p)
IsPercentile-sort p xs some_share k filled =
    let v = percentile (sort xs) p in
    let s =
      percentile_share (sort xs) p (sort-IsSorted xs) (omega (arith, length-sort xs)) some_share
        k in
    record {
      member = Member-sort v xs s.member;
      enough =
          omega (arith, s.enough, ap (λ n. p * n) (length-sort xs), counted_sort (λ x. leb x v) xs);
      no_more =
          omega
            (arith, s.no_more, ap (λ n. p * n) (length-sort xs), counted_sort (λ x. ltb x v) xs);
    }

-- What a snapshot says of the samples.
abbrev pub IsSummary : List ℕ → Snapshot → Type 0
IsSummary samples s =
    ((samples ≡ []) × (s.ttfp_p50_ms ≡ 0) × (s.ttfp_p95_ms ≡ 0))
    ⊎ (IsPercentile 50 samples s.ttfp_p50_ms × IsPercentile 95 samples s.ttfp_p95_ms)

summary :
    (samples : List ℕ)
    → ((samples ≡ []) × (percentile (sort samples) 50 ≡ 0) × (percentile (sort samples) 95 ≡ 0))
      ⊎ (IsPercentile 50 samples (percentile (sort samples) 50)
          × IsPercentile 95 samples (percentile (sort samples) 95))
unfolding sort percentile
summary [] = inl (refl, refl, refl)
summary (x ∷ xs) = inr (
  IsPercentile-sort 50 (x ∷ xs) (omega arith) (omega arith) (omega arith),
  IsPercentile-sort 95 (x ∷ xs) (omega arith) (omega arith) (omega arith),
)

-- The snapshot of a window reports how often each outcome was recorded in it. Its samples are the
-- first 4096 times, and it is marked as truncated exactly where there were more. With no sample the
-- two percentiles are zero, and else each is the least of the samples that at least the half, or 95
-- of 100, do not exceed. The next window starts empty.
pub snapshot_counts :
    (es : List Event) (secs : ℕ)
    → let taken = take_window secs (observe es fresh) in
      (taken.0.jobs_succeeded ≡ outcomes is_succeeded es)
      × (taken.0.jobs_failed_service ≡ outcomes is_service_fault es)
      × (taken.0.jobs_failed_source ≡ outcomes is_source_fault es)
      × (taken.0.ttfp_samples ≡ min (length (times es)) max_samples)
      × (taken.0.ttfp_truncated ≡ ltb max_samples (length (times es)))
      × IsSummary (take max_samples (times es)) taken.0
      × (taken.1 ≡ fresh)
unfolding take_window
snapshot_counts es secs =
    let c = counts es fresh in
    let s = sampled es fresh (omega arith) in
    let samples : (observe es fresh).ttfp ≡ take max_samples (times es) = s.kept in
    (
      omega (arith, c.0),
      omega (arith, c.1),
      omega (arith, c.2),
      omega (
        arith,
        length-sort (observe es fresh).ttfp,
        ap length samples,
        length-take max_samples (times es),
      ),
      s.marked,
      rw samples (summary (take max_samples (times es))),
      refl,
    )
