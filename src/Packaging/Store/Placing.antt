-- ===== src/Packaging/Store/Placing.antt =====
-- An archive is placed whole or not at all.
use nyuka.Common.{
  ℕ, Text, text_eq, text_eq_iff, text_eq_refl, Option, none, some, List, length, ◌≡◌, ◌≢◌, ◌⊎◌, inl,
  inr, refl, ap, ◌∙◌, Bool-cases, Option-cases, arith,
}
use nyuka.Packaging.Paths.{Float}
use nyuka.Packaging.Paths as Paths
use nyuka.Packaging.Cbz.{PageImage}
use nyuka.Packaging.Store.{
  StoreError, Result, ok, err, Placed, ChapterSpec, Disk, Outside, io_error, Act, continue, ◌>>=◌,
  lift, of_path, put, called, create_dir_all, write_and_sync, remove_staged, rename, write_cbz,
  relative_of, placed_as, move, make_parent, place, pack, stage, check, write_chapter,
}

-- The library as a client sees it: which paths have which content.
abbrev pub Same : Disk → Disk → Type 0
Same d d' = (p : Text) → d'.library p ≡ d.library p

>>=-cases :
    {A B : Type 0} (m : Act A) (f : A → Act B) (d : Disk)
    → ((e : StoreError) × ((m d).0 ≡ err e) × ((m >>= f) d ≡ (err e, (m d).1)))
      ⊎ ((a : A) × ((m d).0 ≡ ok a) × ((m >>= f) d ≡ f a (m d).1))
unfolding ◌>>=◌
>>=-cases {A} {B} m f d = go (m d).0
  where
    go :
        (r : Result A)
        → ((e : StoreError) × (r ≡ err e) × (continue r f (m d).1 ≡ (err e, (m d).1)))
          ⊎ ((a : A) × (r ≡ ok a) × (continue r f (m d).1 ≡ f a (m d).1))
    go (ok a) = inr (a, refl, refl)
    go (err x) = inl (x, refl, refl)

module _ (out : Outside) where
  create_dir_all-staging :
      (d : Disk)
      → ((create_dir_all out d).1.library ≡ d.library)
        × ((create_dir_all out d).1.staging ≡ d.staging)
  unfolding create_dir_all
  create_dir_all-staging d = elim (Option-cases (out.fault d.calls)) [
    | inl e ↦ rw (e, create_dir_all) (refl, refl)
    | inr (x, e) ↦ rw (e, create_dir_all) (refl, refl)
  ]

  write_and_sync-library :
      (id : ℕ) (bytes : List ℕ) (d : Disk) → (write_and_sync out id bytes d).1.library ≡ d.library
  unfolding write_and_sync
  write_and_sync-library id bytes d = elim (Option-cases (out.fault d.calls)) [
    | inl e ↦ rw (e, write_and_sync) refl
    | inr (x, e) ↦ rw (e, write_and_sync) refl
  ]

  err-ne-ok : {A : Type 0} {e : StoreError} {a : A} → Result.err e ≡ ok a → ⊥
  err-ne-ok h = cc

  write_and_sync-staged :
      (id : ℕ) (bytes : List ℕ) (d : Disk)
      → (write_and_sync out id bytes d).0 ≡ ok tt
      → (write_and_sync out id bytes d).1.staging id ≡ some bytes
  unfolding write_and_sync
  write_and_sync-staged id bytes d h = elim (Option-cases (out.fault d.calls)) [
    | inl e ↦ rw (e, write_and_sync) (ground arith)
    | inr (x, e) ↦ absurd (err-ne-ok (rw (e, write_and_sync) at h))
  ]

  remove_staged-library : (id : ℕ) (d : Disk) → (remove_staged out id d).library ≡ d.library
  unfolding remove_staged
  remove_staged-library id d = elim (Option-cases (out.fault d.calls)) [
    | inl e ↦ rw (e, remove_staged) refl
    | inr (x, e) ↦ rw (e, remove_staged) refl
  ]

  rename-cases :
      (id : ℕ) (destination : Text) (d : Disk)
      → ((e : StoreError) × ((rename out id destination d).0 ≡ err e)
          × ((rename out id destination d).1.library ≡ d.library))
        ⊎ (((rename out id destination d).0 ≡ ok tt)
            × ((rename out id destination d).1.library ≡ put destination (d.staging id) d.library)
            × ((rename out id destination d).1.staging id ≡ none))
  unfolding rename
  rename-cases id destination d = elim (Option-cases (out.fault d.calls)) [
    | inl e ↦ inr (rw (e, rename) (refl, refl, ground arith))
    | inr (x, e) ↦
        inl (io_error x, rw (e, rename) refl, rw (e, rename) (remove_staged-library id (called d)))
  ]

  -- What a call that succeeds has added.
  pub record IsPlaced {F : Type 0} (f : Float F) (spec : ChapterSpec F) (pages : List PageImage)
      (before : Disk) (r : Result Placed × Disk) : Type 0 where
    pub placed : Placed
    pub bytes : List ℕ
    pub returned : r.0 ≡ ok placed
    pub named : relative_of out f spec ≡ Paths.ok placed.relative_path
    pub below_root : out.resolve_within placed.relative_path ≡ Paths.ok tt
    pub archive : write_cbz out f spec.info pages ≡ ok bytes
    pub whole : r.1.library placed.relative_path ≡ some bytes
    pub size : placed.size_bytes ≡ length bytes
    pub digest : placed.checksum ≡ out.digest bytes
    pub others : (p : Text) → p ≢ placed.relative_path → r.1.library p ≡ before.library p
    pub nothing_staged : r.1.staging out.uuid ≡ none

  -- It fails and the library is as it was.
  abbrev pub FailsUnchanged : Disk → Result Placed × Disk → Type 0
  FailsUnchanged before r = (e : StoreError) × (r.0 ≡ err e) × (r.1.library ≡ before.library)

  of_path-ok : {A : Type 0} (r : Paths.Result A) (a : A) → of_path r ≡ ok a → r ≡ Paths.ok a
  of_path-ok (Paths.ok b) a h = cc
  of_path-ok (Paths.err e) a h = absurd (err-ne-ok h)

  put-at :
      (p : Text) (content : Option (List ℕ)) (files : Text → Option (List ℕ))
      → put p content files p ≡ content
  put-at p content files = rw (text_eq_refl p) refl

  put-other :
      (p q : Text) (content : Option (List ℕ)) (files : Text → Option (List ℕ))
      → q ≢ p
      → put p content files q ≡ files q
  put-other p q content files ne = elim (Bool-cases (text_eq q p)) [
    | inl e ↦ absurd (ne ((text_eq_iff q p).0 e))
    | inr e ↦ rw e refl
  ]

  module _ {F : Type 0} (f : Float F) (spec : ChapterSpec F) (pages : List PageImage) where
    -- The archive's path and content are known, and the library is as it was.
    record IsReady (relative : Text) (bytes : List ℕ) (before d : Disk) : Type 0 where
      same : d.library ≡ before.library
      named : relative_of out f spec ≡ Paths.ok relative
      below : out.resolve_within relative ≡ Paths.ok tt
      archive : write_cbz out f spec.info pages ≡ ok bytes

    abbrev Either : Disk → Result Placed × Disk → Type 0
    Either before r = FailsUnchanged before r ⊎ IsPlaced f spec pages before r

    move-Either :
        (relative : Text) (bytes : List ℕ) (before d : Disk)
        → IsReady relative bytes before d
        → d.staging out.uuid ≡ some bytes
        → Either before (move out relative bytes d)
    unfolding move
    move-Either relative bytes before d ready staged =
        elim (>>=-cases (rename out out.uuid relative)
          (λ u. lift (ok (placed_as out relative bytes))) d) [
            | inl (e, failed, step) ↦ elim (rename-cases out.uuid relative d) [
              | inl (e', failed', kept) ↦
                  inl (e, ap (λ r. r.0) step, ap (λ r. r.1.library) step ∙ kept ∙ ready.same)
              | inr (done, rest, gone) ↦ absurd (ok_and_err failed done)
            ]
            | inr (u, renamed, step) ↦ elim (rename-cases out.uuid relative d) [
              | inl (e', failed', kept) ↦ absurd (ok_and_err failed' renamed)
              | inr (done, library, gone) ↦
                  let now = ap (λ r. r.1.library) step ∙ library in
                  inr (record {
                    placed = placed_as out relative bytes;
                    bytes = bytes;
                    returned = ap (λ r. r.0) step;
                    named = ready.named;
                    below_root = ready.below;
                    archive = ready.archive;
                    whole =
                        ap (λ l. l relative) now
                        ∙ put-at relative (d.staging out.uuid) d.library
                        ∙ staged;
                    size = refl;
                    digest = refl;
                    others = λ p ne.
                        ap (λ l. l p) now
                        ∙ put-other relative p (d.staging out.uuid) d.library ne
                        ∙ ap (λ l. l p) ready.same;
                    nothing_staged = ap (λ r. r.1.staging out.uuid) step ∙ gone;
                  })
            ]
          ]
      where
        ok_and_err : {A : Type 0} {r : Result A} {e : StoreError} {a : A} → r ≡ err e → r ≡ ok a → ⊥
        ok_and_err p q = cc

    make_parent-Either :
        (relative : Text) (bytes : List ℕ) (before d : Disk)
        → IsReady relative bytes before d
        → d.staging out.uuid ≡ some bytes
        → Either before (make_parent out relative bytes d)
    unfolding make_parent
    make_parent-Either relative bytes before d ready staged =
        let d1 = (create_dir_all out d).1 in
        let made = create_dir_all-staging d in
        elim (>>=-cases (create_dir_all out) (λ u. move out relative bytes) d) [
          | inl (e, failed, step) ↦
              inl (e, ap (λ r. r.0) step, ap (λ r. r.1.library) step ∙ made.0 ∙ ready.same)
          | inr (u, done, step) ↦ rw step (
              move-Either relative bytes before d1
                (record {
                  same = made.0 ∙ ready.same;
                  named = ready.named;
                  below = ready.below;
                  archive = ready.archive;
                })
                (ap (λ l. l out.uuid) made.1 ∙ staged))
        ]

    place-Either :
        (relative : Text) (bytes : List ℕ) (before d : Disk)
        → IsReady relative bytes before d
        → Either before (place out relative bytes d)
    unfolding place
    place-Either relative bytes before d ready =
        let d1 = (write_and_sync out out.uuid bytes d).1 in
        let same = write_and_sync-library out.uuid bytes d ∙ ready.same in
        elim (>>=-cases (write_and_sync out out.uuid bytes) (λ u. make_parent out relative bytes)
          d) [
            | inl (e, failed, step) ↦ inl (e, ap (λ r. r.0) step, ap (λ r. r.1.library) step ∙ same)
            | inr (u, written, step) ↦ rw step (
                make_parent-Either relative bytes before d1
                  (record {
                    same = same;
                    named = ready.named;
                    below = ready.below;
                    archive = ready.archive;
                  })
                  (write_and_sync-staged out.uuid bytes d written))
          ]

    pack-Either :
        (relative : Text) (before d : Disk)
        → d.library ≡ before.library
        → relative_of out f spec ≡ Paths.ok relative
        → out.resolve_within relative ≡ Paths.ok tt
        → Either before (pack out f spec pages relative d)
    unfolding pack
    pack-Either relative before d same named below =
        elim (>>=-cases (lift (write_cbz out f spec.info pages)) (place out relative) d) [
          | inl (e, failed, step) ↦ inl (e, ap (λ r. r.0) step, ap (λ r. r.1.library) step ∙ same)
          | inr (bytes, archive, step) ↦ rw step (
              place-Either relative bytes before d
                (record { same = same; named = named; below = below; archive = archive }))
        ]

    check-Either :
        (relative : Text) (d : Disk)
        → relative_of out f spec ≡ Paths.ok relative
        → Either d (check out f spec pages relative d)
    unfolding check stage
    check-Either relative d named =
        elim (>>=-cases (lift (of_path (out.resolve_within relative)))
          (λ u. stage out f spec pages relative) d) [
            | inl (e, failed, step) ↦ inl (e, ap (λ r. r.0) step, ap (λ r. r.1.library) step)
            | inr (u, below, step) ↦
                let made = create_dir_all-staging d in
                elim (>>=-cases (create_dir_all out) (λ v. pack out f spec pages relative) d) [
                  | inl (e, failed, step') ↦ inl (
                    e,
                    ap (λ r. r.0) (step ∙ step'),
                    ap (λ r. r.1.library) (step ∙ step') ∙ made.0,
                  )
                  | inr (v, done, step') ↦ rw (step ∙ step') (
                      pack-Either relative d (create_dir_all out d).1 made.0 named
                        (of_path-ok (out.resolve_within relative) tt below))
                ]
          ]

    -- Whichever calls to the file system fail, packaging a chapter either fails and leaves every file
    -- of the library as it was, or returns a path that is below the root and made of the chapter's
    -- names, at which the whole archive now stands, with its size and digest; every other file is as
    -- it was, and nothing of it is left in staging.
    pub write_chapter-either :
        (d : Disk)
        → FailsUnchanged d (write_chapter out f spec pages d)
          ⊎ IsPlaced f spec pages d (write_chapter out f spec pages d)
    unfolding write_chapter
    write_chapter-either d =
        elim (>>=-cases (lift (of_path (relative_of out f spec))) (check out f spec pages) d) [
          | inl (e, failed, step) ↦ inl (e, ap (λ r. r.0) step, ap (λ r. r.1.library) step)
          | inr (relative, named, step) ↦
              rw step (check-Either relative d (of_path-ok (relative_of out f spec) relative named))
        ]
