-- ===== src/Jobs/Queue/Invariant.antt =====
-- Every operation of the queue keeps the table consistent, whichever statements fail.
use nyuka.Common.{ℕ, List, [], ◌∷◌, refl}
use nyuka.Jobs.Exec.{Env, World}
use nyuka.Jobs.Exec.Keeps.{Keeps, Keeps-statement}
use nyuka.Jobs.Queue.Upkeep.{prune}
use nyuka.Jobs.Queue.Rows.{
  IsConsistent, update_where-IsConsistent, keep-IsConsistent, insert_row-IsConsistent,
}
use nyuka.Jobs.Queue.Requests.{Request, prune_older, serve, serve_all, serve-kept}

prune-Keeps : (env : Env) (age : ℕ) → Keeps IsConsistent (prune env age)
unfolding prune
prune-Keeps env age = record { at = λ w. (Keeps-statement env _ (λ now. keep-IsConsistent _)).at w }

serve-IsConsistent :
    (env : Env) (q : Request) (w : World) → IsConsistent w.rows → IsConsistent (serve env w q).rows
serve-IsConsistent env (prune_older age) w h = (prune-Keeps env age).at w h
serve-IsConsistent env other w h =
    serve-kept (λ test f. update_where-IsConsistent test {f = f}) insert_row-IsConsistent env other
      w refl h

-- Whatever calls arrive and whichever statements fail, no two rows come to share an id or a key,
-- and a row has its lock columns set exactly while it runs.
pub serve_all-IsConsistent :
    (env : Env) (qs : List Request) (w : World)
    → IsConsistent w.rows
    → IsConsistent (serve_all env w qs).rows
serve_all-IsConsistent env [] w h = h
serve_all-IsConsistent env (q ∷ qs) w h =
    serve_all-IsConsistent env qs (serve env w q) (serve-IsConsistent env q w h)
