-- ===== src/Jobs/Queue/Held.antt =====
-- A key stays with its row until the row is pruned, so that a later enqueue under it is no new job.
use nyuka.Common.{
  ℕ, Bool, true, ◌==◌, Text, Option, none, some, List, [], ◌∷◌, ◌++◌, ◌≡◌, refl, ap, ◌∙◌, inl, inr,
  arith, any, find, All, Bool-cases, Option-cases, if◌then◌else◌,
}
use nyuka.Domain.Enums.{JobKind}
use nyuka.Domain.Errors.{ok}
use nyuka.Domain.Payload.{Json}
use nyuka.Jobs.Exec.{Row, Env, World}
use nyuka.Jobs.Queue.{has_key, holder, insert_row, enqueue, update_where}
use nyuka.Jobs.Queue.Rows.{KeepsIdentity, LockMatches, updated_id, updated_key}
use nyuka.Jobs.Queue.Requests.{Request, serve, serve_all, spares, serve-kept}
use nyuka.Jobs.Queue.Idempotent.{Holds, enqueue-Holds, enqueue-held}

has_key-same :
    (k : Text) (r s : Row) → r.idempotency_key ≡ s.idempotency_key → has_key k r ≡ has_key k s
unfolding has_key
has_key-same k r s e = rw e refl

find-append_left {ℓ} :
    {A : Type ℓ} (p : A → Bool) (xs ys : List A) (a : A)
    → find p xs ≡ some a
    → find p (xs ++ ys) ≡ some a
find-append_left p [] ys a h = absurd (bad h)
  where
    bad : none ≡ some a → ⊥
    bad q = cc
find-append_left p (x ∷ xs) ys a h = ground (arith, find-append_left p xs ys a)

module _ (k : Text) (id : ℕ) where
  update_where-Holds :
      (test : Row → Bool) (f : Row → Row)
      → KeepsIdentity f
      → ((r : Row) → LockMatches (f r))
      → (rows : List Row) → Holds k id rows
      → Holds k id (update_where test f rows)
  unfolding update_where
  update_where-Holds test f same locks [] (held, found, owner) = absurd (bad found)
    where
      bad : none ≡ some held → ⊥
      bad q = cc
  update_where-Holds test f same locks (r ∷ rows) (held, found, owner) =
      let r' : Row = if test r then f r else r in
      let as_before : has_key k r' ≡ has_key k r = has_key-same k r' r (updated_key test same r) in
      elim (Bool-cases (has_key k r)) [
        | inl e ↦
            let first : some r ≡ some held = rw e at found in
            let whole : r ≡ held = cc in
            (r', rw (as_before ∙ e) refl, updated_id test same r ∙ ap (λ s. s.id) whole ∙ owner)
        | inr e ↦
            let later : find (has_key k) rows ≡ some held = rw e at found in
            let rest = update_where-Holds test f same locks rows (held, later, owner) in
            (rest.0, rw (as_before ∙ e) rest.1, rest.2)
      ]

  insert_row-keeps :
      (env : Env) (r : Row) (rows : List Row)
      → LockMatches r
      → Holds k id rows
      → Holds k id (insert_row env r rows).1
  unfolding insert_row
  insert_row-keeps env r rows l h = elim (Option-cases (holder r.idempotency_key rows)) [
    | inr (held, e) ↦ rw (e, insert_row) h
    | inl free ↦ elim (Bool-cases (any (λ s. s.id == r.id) rows)) [
      | inl taken ↦ rw (free, insert_row) (rw taken h)
      | inr fresh ↦
          rw (free, insert_row)
            (rw fresh (h.0, find-append_left (has_key k) rows (r ∷ []) h.0 h.1, h.2))
    ]
  ]

  serve_all-Holds :
      (env : Env) (qs : List Request) (w : World)
      → All (λ q. spares q ≡ true) qs
      → Holds k id w.rows
      → Holds k id (serve_all env w qs).rows
  serve_all-Holds env [] w e h = h
  serve_all-Holds env (q ∷ qs) w e h =
      serve_all-Holds env qs (serve env w q) e.1
        (serve-kept update_where-Holds insert_row-keeps env q w e.0 h)

-- Once an enqueue under a key has returned an id, a later enqueue under that key, of whatever else,
-- returns the same id and changes no row, if its statement runs: whatever other calls of the queue
-- come in between, whichever of their statements fail and however much time passes, so long as none
-- of them prunes.
pub enqueue_twice :
    (env : Env) (kind other : JobKind) (payload payload' : Json) (run_at run_at' : Option ℕ)
    (k : Text) (priority priority' most most' : ℕ) (w : World) (id : ℕ) (between : List Request)
    → (enqueue env kind payload run_at (some k) priority most w).0 ≡ ok id
    → All (λ q. spares q ≡ true) between
    → let w' = serve_all env (enqueue env kind payload run_at (some k) priority most w).1 between in
      env.outage w'.statements ≡ none
      → ((enqueue env other payload' run_at' (some k) priority' most' w').0 ≡ ok id)
        × ((enqueue env other payload' run_at' (some k) priority' most' w').1.rows ≡ w'.rows)
enqueue_twice env kind other payload payload' run_at run_at' k priority priority' most most' w id
      between h spared up =
    let first = (enqueue env kind payload run_at (some k) priority most w).1 in
    enqueue-held env other payload' run_at' k priority' most' (serve_all env first between) id up (
      serve_all-Holds k id env between first spared
        (enqueue-Holds env kind payload run_at k priority most w id h))
