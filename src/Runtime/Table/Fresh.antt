-- ===== src/Runtime/Table/Fresh.antt =====
-- A handle that was given out and destroyed does not come back to life.
use nyuka.Common.{
  ℕ, suc, ◌+◌, ◌%◌, ◌^◌, ◌≤◌, ◌<◌, ◌==◌, false, none, some, List, [], ◌∷◌, ◌≡◌, refl, inl, inr,
  arith, Bool-cases,
}
use nyuka.Runtime.Table.{Resource, Table, lookup, without, insert, get, remove, changed, change}

module _ (Document NodeId : Type 0) where
  -- What a guest does to the table.
  pub data Op : Type 0 where
    store : Resource Document NodeId → Op
    destroy : ℕ → Op
    mutate : ℕ → (Resource Document NodeId → Resource Document NodeId) → Op

  abbrev pub run_op : Op → Table Document NodeId → Table Document NodeId
  run_op (store r) t = (insert Document NodeId r t).1
  run_op (destroy id) t = remove Document NodeId id t
  run_op (mutate id f) t = change Document NodeId id f t

  abbrev pub run_ops : List Op → Table Document NodeId → Table Document NodeId
  run_ops [] t = t
  run_ops (op ∷ ops) t = run_ops ops (run_op op t)

  abbrev pub stores : List Op → ℕ
  stores [] = 0
  stores (store r ∷ ops) = suc (stores ops)
  stores (_ ∷ ops) = stores ops

  gone :
      (id : ℕ) (es : List (ℕ × Resource Document NodeId))
      → lookup Document NodeId id (without Document NodeId id es) ≡ none
  unfolding lookup without
  gone id [] = refl
  gone id (e ∷ es) = elim (Bool-cases (e.0 == id)) [
    | inl q ↦ rw q (gone id es)
    | inr q ↦ rw (q, lookup, q) (gone id es)
  ]

  -- An absent handle stays absent when another is taken out, and when objects change.
  still_gone :
      (id other : ℕ) (es : List (ℕ × Resource Document NodeId))
      → lookup Document NodeId id es ≡ none
      → lookup Document NodeId id (without Document NodeId other es) ≡ none
  unfolding lookup without
  still_gone id other [] h = refl
  still_gone id other (e ∷ es) h = elim (Bool-cases (e.0 == id)) [
    | inl q ↦ absurd (some-ne (rw (lookup, q) at h))
    | inr q ↦ elim (Bool-cases (e.0 == other)) [
      | inl k ↦ rw k (still_gone id other es (rw (lookup, q) at h))
      | inr k ↦ rw (k, lookup, q) (still_gone id other es (rw (lookup, q) at h))
    ]
  ]
    where
      some-ne : {r : Resource Document NodeId} → some r ≡ none → ⊥
      some-ne e = cc

  unchanged_gone :
      (id other : ℕ) (f : Resource Document NodeId → Resource Document NodeId)
      (es : List (ℕ × Resource Document NodeId))
      → lookup Document NodeId id es ≡ none
      → lookup Document NodeId id (changed Document NodeId other f es) ≡ none
  unfolding lookup changed
  unchanged_gone id other f [] h = refl
  unchanged_gone id other f (e ∷ es) h = elim (Bool-cases (e.0 == id)) [
    | inl q ↦ absurd (some-ne (rw (lookup, q) at h))
    | inr q ↦ elim (Bool-cases (e.0 == other)) [
      | inl k ↦ rw k (rw q (unchanged_gone id other f es (rw (lookup, q) at h)))
      | inr k ↦ rw k (rw q (unchanged_gone id other f es (rw (lookup, q) at h)))
    ]
  ]
    where
      some-ne : {r : Resource Document NodeId} → some r ≡ none → ⊥
      some-ne e = cc

  stays_gone :
      (ops : List Op) (t : Table Document NodeId) (id : ℕ)
      → id ≤ t.next
      → t.next + stores ops < 2 ^ 32
      → get Document NodeId id t ≡ none
      → get Document NodeId id (run_ops ops t) ≡ none
  unfolding get insert remove change lookup
  stays_gone [] t id le small h = h
  stays_gone (destroy other ∷ ops) t id le small h =
      stays_gone ops (remove Document NodeId other t) id le small (still_gone id other t.entries h)
  stays_gone (mutate other f ∷ ops) t id le small h =
      stays_gone ops (change Document NodeId other f t) id le small
        (unchanged_gone id other f t.entries h)
  stays_gone (store r ∷ ops) t id le small h =
      let next : (t.next + 1) % 2 ^ 32 ≡ t.next + 1 = omega arith in
      let new_id : ((t.next + 1) % 2 ^ 32 == id) ≡ false = ground arith in
      stays_gone ops (insert Document NodeId r t).1 id (omega arith) (omega arith)
        (opened r t id new_id (still_gone id ((t.next + 1) % 2 ^ 32) t.entries h))
    where
      opened :
          (r : Resource Document NodeId) (t : Table Document NodeId) (id : ℕ)
          → ((t.next + 1) % 2 ^ 32 == id) ≡ false
          → lookup Document NodeId id (without Document NodeId ((t.next + 1) % 2 ^ 32) t.entries)
            ≡ none
          → lookup Document NodeId id (
              ((t.next + 1) % 2 ^ 32, r)
              ∷ without Document NodeId ((t.next + 1) % 2 ^ 32) t.entries)
            ≡ none
      opened r t id e k = rw (lookup, e) k

  -- A handle that was given out and destroyed is never resolved again, whatever the guest stores,
  -- changes and destroys, as long as the counter has not run through the 2^32 values of an `i32`.
  pub destroyed_stays :
      (ops : List Op) (t : Table Document NodeId) (id : ℕ)
      → id ≤ t.next
      → t.next + stores ops < 2 ^ 32
      → get Document NodeId id (run_ops ops (remove Document NodeId id t)) ≡ none
  unfolding get remove
  destroyed_stays ops t id le small =
      stays_gone ops (remove Document NodeId id t) id le small (gone id t.entries)
