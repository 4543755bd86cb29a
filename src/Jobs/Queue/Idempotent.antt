-- ===== src/Jobs/Queue/Idempotent.antt =====
-- A repeated enqueue under one key is one job.
use nyuka.Common.{
  ℕ, suc, Bool, true, Text, Option, none, some, List, [], ◌∷◌, ◌++◌, ◌≡◌, ◌≢◌, refl, ap, inl, inr,
  arith, any, find, text_eq_iff, Option-cases,
}
use nyuka.Domain.Enums.{JobKind}
use nyuka.Domain.Errors.{storage, ok, err}
use nyuka.Domain.Payload.{Json}
use nyuka.Jobs.Exec.{Row, Env, World, statement, statement-up, statement-down}
use nyuka.Jobs.Queue.{has_key, holder, insert_row, new_row, enqueue, key_exists}

find-append {ℓ} :
    {A : Type ℓ} (p : A → Bool) (xs : List A) (y : A)
    → find p xs ≡ none
    → p y ≡ true
    → find p (xs ++ (y ∷ [])) ≡ some y
find-append p [] y h e = rw e
find-append p (x ∷ xs) y h e = ground (arith, find-append p xs y)

pub any-find {ℓ} :
    {A : Type ℓ} (p : A → Bool) (xs : List A) (a : A) → find p xs ≡ some a → any p xs ≡ true
any-find p [] a h = cc
any-find p (x ∷ xs) a h = ground (arith, any-find p xs a)

-- The key is held by the row with this id.
abbrev pub Holds : Text → ℕ → List Row → Type 0
Holds k id rows = (h : Row) × (find (has_key k) rows ≡ some h) × (h.id ≡ id)

own_key : (k : Text) (r : Row) → r.idempotency_key ≡ some k → has_key k r ≡ true
unfolding has_key
own_key k r e = ground (arith, text_eq_iff k k)

-- After an insert under a key that succeeded, the key is held by the row whose id was returned.
pub insert_row-Holds :
    (env : Env) (r : Row) (k : Text) (rows : List Row) (id : ℕ)
    → r.idempotency_key ≡ some k
    → (insert_row env r rows).0 ≡ ok id
    → Holds k id (insert_row env r rows).1
unfolding insert_row holder
insert_row-Holds env r k rows id e h = elim (Option-cases (find (has_key k) rows)) [
  | inr (held, old) ↦ (held, ground arith, ground arith)
  | inl free ↦
      (r, ground (arith, find-append (has_key k) rows r free (own_key k r e)), ground arith)
]

insert_row-held :
    (env : Env) (r : Row) (k : Text) (rows : List Row) (id : ℕ)
    → r.idempotency_key ≡ some k
    → Holds k id rows
    → insert_row env r rows ≡ (ok id, rows)
unfolding insert_row holder
insert_row-held env r k rows id e (held, old, same) = ground arith

refused : (m : Text) (id : ℕ) → err (storage m) ≢ ok id
refused m id h = cc

module _ (env : Env) (kind : JobKind) (payload : Json) (run_at : Option ℕ) (k : Text)
    (priority most : ℕ) (w : World) where
  row : ℕ → Row
  row = new_row (env.uuid w.uuids) kind payload run_at (some k) priority most

  drawn : World
  drawn = record w { uuids = suc w.uuids }

  pub enqueue-Holds :
      (id : ℕ)
      → (enqueue env kind payload run_at (some k) priority most w).0 ≡ ok id
      → Holds k id (enqueue env kind payload run_at (some k) priority most w).1.rows
  unfolding enqueue row drawn new_row
  enqueue-Holds id h = elim (Option-cases (env.outage w.statements)) [
    | inr (m, down) ↦
        absurd (
          refused m id
            (rw (statement-down env (λ now. insert_row env (row now)) drawn m down) at h))
    | inl up ↦ rw (statement-up env (λ now. insert_row env (row now)) drawn up) (
        insert_row-Holds env (row w.now) k w.rows id refl
          (rw (statement-up env (λ now. insert_row env (row now)) drawn up) at h))
  ]

  pub enqueue-held :
      (id : ℕ)
      → env.outage w.statements ≡ none
      → Holds k id w.rows
      → ((enqueue env kind payload run_at (some k) priority most w).0 ≡ ok id)
        × ((enqueue env kind payload run_at (some k) priority most w).1.rows ≡ w.rows)
  unfolding enqueue row drawn new_row
  enqueue-held id up held = rw (statement-up env (λ now. insert_row env (row now)) drawn up) (
      let same = insert_row-held env (row w.now) k w.rows id refl held in
      (ap (λ p. p.0) same, ap (λ p. p.1) same))

  pub key_exists-held :
      (id : ℕ)
      → env.outage w.statements ≡ none
      → Holds k id w.rows
      → (key_exists env k w).0 ≡ ok true
  unfolding key_exists statement
  key_exists-held id up held = ground (arith, any-find (has_key k) w.rows held.0 held.1)
