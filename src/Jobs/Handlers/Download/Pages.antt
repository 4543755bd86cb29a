-- ===== src/Jobs/Handlers/Download/Pages.antt =====
-- The pages that a download fetches: each that the source listed, once, within the limit of bytes.
use mathlib.Core.List.{Perm, append_assoc, append-nil}
use mathlib.Core.List.Perm
use nyuka.Common.{
  ℕ, zero, suc, ◌+◌, ◌≤◌, ◌%◌, min, max, ltb, List, [], ◌∷◌, ◌++◌, length, ◌≡◌, refl, sym, ap,
  subst, ◌∙◌, inl, inr, Bool-cases, All, All-append, arith,
}
use nyuka.Domain.Errors.{ok}
use nyuka.Domain.Library.{PageRef}
use nyuka.Jobs.Queue.{Job}
use nyuka.Jobs.Handlers.{Ports, History, call, publish, with_permit, lift, acquired, fetched}
use nyuka.Jobs.Handlers.Outcome.{err-ne-ok, ok-injective, >>=-ok}
use nyuka.Jobs.Handlers.Download.{DownloadConfig, Image, pull, fetch_page, fetch_rest, fetch_all}

pull-length : (i : ℕ) (p : PageRef) (ps : List PageRef) → length (pull i p ps).1 ≡ length ps
unfolding pull
pull-length zero p ps = refl
pull-length (suc i) p [] = refl
pull-length (suc i) p (q ∷ qs) = ap suc (pull-length i q qs)

pull-Perm :
    (i : ℕ) (p : PageRef) (ps : List PageRef) → Perm ((pull i p ps).0 ∷ (pull i p ps).1) (p ∷ ps)
unfolding pull
pull-Perm zero p ps = Perm.refl (p ∷ ps)
pull-Perm (suc i) p [] = Perm.refl (p ∷ [])
pull-Perm (suc i) p (q ∷ qs) =
    Perm.trans (Perm.swap p (pull i q qs).0 (pull i q qs).1) (Perm.cons p (pull-Perm i q qs))

abbrev pub pages_of : List Image → List PageRef
pages_of [] = []
pages_of (i ∷ is) = i.0 ∷ pages_of is

abbrev pub bytes_of : List Image → ℕ
bytes_of [] = 0
bytes_of (i ∷ is) = length i.1 + bytes_of is

pages_of-append :
    (xs : List Image) (i : Image) → pages_of (xs ++ (i ∷ [])) ≡ pages_of xs ++ (i.0 ∷ [])
pages_of-append [] i = refl
pages_of-append (x ∷ xs) i = ap (λ l. x.0 ∷ l) (pages_of-append xs i)

bytes_of-append :
    (xs : List Image) (i : Image) → bytes_of (xs ++ (i ∷ [])) ≡ bytes_of xs + length i.1
bytes_of-append [] i = omega arith
bytes_of-append (x ∷ xs) i = omega (arith, bytes_of-append xs i)

module _ (ports : Ports) (config : DownloadConfig) where
  -- The image is what the fetcher answered for its page.
  abbrev pub IsAnswer : Image → Type 0
  IsAnswer image = (h : History) × (ports.fetch h image.0 ≡ ok image.1)

  fetch_page-ok :
      (source_id : ℕ) (page : PageRef) (h : History) (image : Image)
      → (fetch_page ports config source_id page h).0 ≡ ok image
      → (image.0 ≡ page) × IsAnswer image
  unfolding fetch_page with_permit call
  fetch_page-ok source_id page h image e =
      let (bytes, answer, step, same) =
        >>=-ok (call (fetched page) (λ g. ports.fetch g page)) (λ b. lift (ok (page, b)))
          (acquired source_id ∷ h) image e in
      let whole : (page, bytes) ≡ image = ok-injective same in
      (sym (ap (λ i. i.0) whole), subst IsAnswer whole (acquired source_id ∷ h, answer))

  -- What the loop ends with, from the pages that are left and the images taken.
  abbrev Fetched : List PageRef → List Image → List Image → Type 0
  Fetched waiting taken images =
      Perm (pages_of images) (pages_of taken ++ waiting)
      × (bytes_of images ≤ config.max_chapter_bytes)
      × All IsAnswer images

  none_left :
      (taken images : List Image)
      → bytes_of taken ≤ config.max_chapter_bytes
      → All IsAnswer taken
      → taken ≡ images
      → Fetched [] taken images
  none_left taken images fits all same =
      subst (λ l. Fetched [] taken l) same
        (rw (append-nil (pages_of taken)) (Perm.refl (pages_of taken), fits, all))

  -- One image more stands for the page that was pulled out.
  moved :
      (i : ℕ) (p : PageRef) (ps : List PageRef) (taken images : List Image) (image : Image)
      → image.0 ≡ (pull i p ps).0
      → Fetched (pull i p ps).1 (taken ++ (image ∷ [])) images
      → Fetched (p ∷ ps) taken images
  moved i p ps taken images image same (perm, fits, all) = (
    Perm.trans perm (
        subst (λ l. Perm l (pages_of taken ++ (p ∷ ps))) (sym (regrouped (pull i p ps).0 same))
          (Perm.append_left (pages_of taken) (pull-Perm i p ps))),
    fits,
    all,
  )
    where
      regrouped :
          (q : PageRef)
          → image.0 ≡ q
          → pages_of (taken ++ (image ∷ [])) ++ (pull i p ps).1
            ≡ pages_of taken ++ (q ∷ (pull i p ps).1)
      regrouped q e =
          ap (λ l. l ++ (pull i p ps).1) (pages_of-append taken image)
          ∙ append_assoc (pages_of taken) (image.0 ∷ []) (pull i p ps).1
          ∙ ap (λ r. pages_of taken ++ (r ∷ (pull i p ps).1)) e

  fetch_rest-Fetched :
      (job : Job) (source_id total n : ℕ) (waiting : List PageRef) (bytes : ℕ) (taken : List Image)
      (h : History) (images : List Image)
      → n ≡ length waiting
      → bytes ≡ bytes_of taken
      → bytes ≤ config.max_chapter_bytes
      → All IsAnswer taken
      → (fetch_rest ports config job source_id total n waiting bytes taken h).0 ≡ ok images
      → Fetched waiting taken images
  unfolding fetch_rest
  fetch_rest-Fetched job source_id total zero [] bytes taken h images len sum fits all e =
      none_left taken images (omega arith) all (ok-injective e)
  fetch_rest-Fetched job source_id total (suc n) [] bytes taken h images len sum fits all e =
      absurd (omega arith)
  fetch_rest-Fetched job source_id total zero (p ∷ ps) bytes taken h images len sum fits all e =
      absurd (omega arith)
  fetch_rest-Fetched job source_id total (suc n) (p ∷ ps) bytes taken h images len sum fits all e =
      let i = ports.arrival h % min (max config.page_concurrency 1) (suc (length ps)) in
      let next = pull i p ps in
      let (image, got, step, more) =
        >>=-ok (fetch_page ports config source_id next.0) _ h images e in
      let (same, answer) = fetch_page-ok source_id next.0 h image got in
      let now_taken = taken ++ (image ∷ []) in
      elim (Bool-cases (ltb config.max_chapter_bytes (bytes + length image.1))) [
        | inl over ↦ absurd (err-ne-ok (rw over at more))
        | inr under ↦
            let goes_on = rw under at more in
            let (u, told, step', rest) = >>=-ok (publish _) _ _ images goes_on in
            let done =
              fetch_rest-Fetched job source_id total n next.1 (bytes + length image.1) now_taken _
                images (omega (arith, pull-length i p ps))
                (omega (arith, bytes_of-append taken image)) (ground arith)
                (All-append IsAnswer taken (image ∷ []) all (answer, tt)) rest in
            moved i p ps taken images image same done
      ]

  -- The images that `fetch_all` returns are those of the pages listed, each page once, in the order
  -- of arrival, which may be any; each is what the fetcher answered for its page, and together they
  -- are within the limit of bytes.
  pub fetch_all-Perm :
      (job : Job) (source_id : ℕ) (refs : List PageRef) (h : History) (images : List Image)
      → (fetch_all ports config job source_id refs h).0 ≡ ok images
      → Perm (pages_of images) refs
        × (bytes_of images ≤ config.max_chapter_bytes)
        × All IsAnswer images
  unfolding fetch_all
  fetch_all-Perm job source_id refs h images e =
      fetch_rest-Fetched job source_id (length refs) (length refs) refs 0 [] h images refl refl
        (omega arith) tt e
