-- ===== src/Jobs/Queue/Rows.antt =====
-- What the statements do to the whole table: no two rows share an id or a key, and a row holds a
-- lock exactly while it runs.
use nyuka.Common.{
  Bool, true, false, Text, text_eq_iff, Option, none, some, List, [], ◌∷◌, ◌≡◌, ◌≢◌, refl, sym, ◌∙◌,
  inl, inr, arith, ◌==◌, ==_iff, any, keep, All, All-keep, All-append, All-impl, All-of, find-none,
  Bool-cases, Option-cases, is_some, if◌then◌else◌,
}
use nyuka.Common.Pairs.{Pairwise, Pairwise-concat, Pairwise-keep}
use nyuka.Domain.Enums.{JobState}
use nyuka.Jobs.Exec.{Row, Env}
use nyuka.Jobs.Queue.{has_key, holder, insert_row, update_where}

-- Two rows with their own ids and, where both have a key, their own keys.
pub record Apart (r s : Row) : Type 0 where
  pub ids : r.id ≢ s.id
  pub keys : (k : Text) → r.idempotency_key ≡ some k → s.idempotency_key ≢ some k

-- The lock columns are set exactly while the row runs.
abbrev pub LockMatches : Row → Type 0
LockMatches r =
    (r.state ≡ JobState.running → (is_some r.locked_by ≡ true) × (is_some r.locked_at ≡ true))
    × (r.state ≢ JobState.running → (r.locked_by ≡ none) × (r.locked_at ≡ none))

pub record IsConsistent (rows : List Row) : Type 0 where
  pub apart : Pairwise Apart rows
  pub locks : All LockMatches rows

-- An update that keeps the identity of rows.
pub record KeepsIdentity (f : Row → Row) : Type 0 where
  pub id_same : (r : Row) → (f r).id ≡ r.id
  pub key_same : (r : Row) → (f r).idempotency_key ≡ r.idempotency_key

module _ (test : Row → Bool) {f : Row → Row} (same : KeepsIdentity f) where
  pub updated_id : (r : Row) → (if test r then f r else r).id ≡ r.id
  updated_id r = elim (Bool-cases (test r)) [ inl e ↦ rw e (same.id_same r) | inr e ↦ rw e ]

  pub updated_key : (r : Row) → (if test r then f r else r).idempotency_key ≡ r.idempotency_key
  updated_key r = elim (Bool-cases (test r)) [ inl e ↦ rw e (same.key_same r) | inr e ↦ rw e ]

  Apart-updated :
      (r s : Row) → Apart r s → Apart (if test r then f r else r) (if test s then f s else s)
  Apart-updated r s a = record {
    ids = λ e. a.ids (sym (updated_id r) ∙ e ∙ updated_id s);
    keys = λ k p q. a.keys k (sym (updated_key r) ∙ p) (sym (updated_key s) ∙ q);
  }

  All-Apart-updated :
      (r : Row) (rows : List Row)
      → All (Apart r) rows
      → All (Apart (if test r then f r else r)) (update_where test f rows)
  unfolding update_where
  All-Apart-updated r [] h = tt
  All-Apart-updated r (s ∷ rows) h = (Apart-updated r s h.0, All-Apart-updated r rows h.1)

  Pairwise-update_where :
      (rows : List Row) → Pairwise Apart rows → Pairwise Apart (update_where test f rows)
  unfolding update_where
  Pairwise-update_where [] h = tt
  Pairwise-update_where (r ∷ rows) h =
      (All-Apart-updated r rows h.0, Pairwise-update_where rows h.1)

  locks-update_where :
      ((r : Row) → LockMatches (f r))
      → (rows : List Row) → All LockMatches rows
      → All LockMatches (update_where test f rows)
  unfolding update_where
  locks-update_where sound [] h = tt
  locks-update_where sound (r ∷ rows) h = elim (Bool-cases (test r)) [
    | inl e ↦ rw e (sound r, locks-update_where sound rows h.1)
    | inr e ↦ rw e (h.0, locks-update_where sound rows h.1)
  ]

  pub update_where-IsConsistent :
      ((r : Row) → LockMatches (f r))
      → (rows : List Row) → IsConsistent rows
      → IsConsistent (update_where test f rows)
  update_where-IsConsistent sound rows h = record {
    apart = Pairwise-update_where rows h.apart;
    locks = locks-update_where sound rows h.locks;
  }

pub keep-IsConsistent :
    (p : Row → Bool) (rows : List Row) → IsConsistent rows → IsConsistent (keep p rows)
keep-IsConsistent p rows h = record {
  apart = Pairwise-keep Apart p rows h.apart;
  locks = All-keep LockMatches p rows h.locks;
}

any-false {ℓ} :
    {A : Type ℓ} (p : A → Bool) (xs : List A) → any p xs ≡ false → All (λ x. p x ≡ false) xs
any-false p [] h = tt
any-false p (x ∷ xs) h = (ground arith, any-false p xs (ground arith))

has_key-false : (k : Text) (s : Row) → has_key k s ≡ false → s.idempotency_key ≢ some k
unfolding has_key
has_key-false k s e q = ground (arith, text_eq_iff k k)

abbrev KeysDiffer : Row → Row → Type 0
KeysDiffer s r = (k : Text) → s.idempotency_key ≡ some k → r.idempotency_key ≢ some k

Apart-rows :
    (r : Row) (rows : List Row)
    → All (λ s. (s.id == r.id) ≡ false) rows
    → All (λ s. KeysDiffer s r) rows
    → All (λ s. Apart s r) rows
Apart-rows r [] h k = tt
Apart-rows r (s ∷ rows) h k =
    (record { ids = λ q. cc (h.0, (==_iff s.id r.id).1 q); keys = k.0 }, Apart-rows r rows h.1 k.1)

free_keys :
    (r : Row) (rows : List Row) (o : Option Text)
    → r.idempotency_key ≡ o
    → holder o rows ≡ none
    → All (λ s. KeysDiffer s r) rows
unfolding holder
free_keys r rows none e free = All-of (λ s. KeysDiffer s r) (λ s k p q. cc (e, q)) rows
free_keys r rows (some j) e free =
    All-impl (λ s. has_key j s ≡ false) (λ s. KeysDiffer s r)
      (λ s miss k p q. has_key-false j s miss (cc (p, q, e))) rows (find-none (has_key j) rows free)

pub insert_row-IsConsistent :
    (env : Env) (r : Row) (rows : List Row)
    → LockMatches r
    → IsConsistent rows
    → IsConsistent (insert_row env r rows).1
unfolding insert_row
insert_row-IsConsistent env r rows l h = elim (Option-cases (holder r.idempotency_key rows)) [
  | inr (held, e) ↦ rw (e, insert_row) h
  | inl free ↦ elim (Bool-cases (any (λ s. s.id == r.id) rows)) [
    | inl taken ↦ rw (free, insert_row) (rw taken h)
    | inr fresh ↦
        rw (free, insert_row)
          (rw fresh (record {
            apart =
                Pairwise-concat Apart rows r h.apart
                  (Apart-rows r rows (any-false _ rows fresh) (free_keys r rows _ refl free));
            locks = All-append LockMatches rows (r ∷ []) h.locks (l, tt);
          }))
  ]
]
