-- ===== src/Packaging/Store.antt =====
-- crates/packaging/src/store.rs: placing an archive in the library.
-- The disk has the files of the library, by their paths below its root, and those of the staging
-- directory, by their uuids. Any call to it may fail; a failed write may leave any part behind.
pub mod Placing
use nyuka.Common.{
  ℕ, zero, suc, ◌+◌, Bool, true, false, ◌==◌, Text, txt, text_eq, Option, none, some, List, [], ◌∷◌,
  ◌++◌, length, if◌then◌else◌, ◌⊎◌, inl, inr,
}
use nyuka.Packaging.Paths.{PathError, Float, series_dir, chapter_stem}
use nyuka.Packaging.Paths as Paths
use nyuka.Packaging.ComicInfo.{ComicInfo}
use nyuka.Packaging.Cbz.{CbzError, PageImage, Entry, entries}
use nyuka.Packaging.Cbz as Cbz

pub data StoreError : Type 0 where
  path : PathError → StoreError
  cbz : CbzError → StoreError
  out_of_space : StoreError
  io : Text → StoreError

pub data Result (A : Type 0) : Type 0 where
  ok : A → Result A
  err : StoreError → Result A

pub record Placed : Type 0 where
  pub relative_path : Text
  pub size_bytes : ℕ
  pub checksum : Text

pub record ChapterSpec (F : Type 0) : Type 0 where
  pub series_title : Text
  pub disambiguator : Option Text
  pub volume : Option F
  pub number : Option F
  pub info : ComicInfo F

-- How the n-th call to the file system fails: its error, and what a write has written by then.
pub record Fault : Type 0 where
  pub storage_full : Bool
  pub message : Text
  pub part : List ℕ

pub record Disk : Type 0 where
  pub library : Text → Option (List ℕ)
  pub staging : ℕ → Option (List ℕ)
  pub calls : ℕ

-- What the store takes from outside: the faults, the uuids, whether a path stays below the root
-- (`resolve_within`, which asks the file system about links), the zip writer and the digest.
pub record Outside : Type 0 where
  pub fault : ℕ → Option Fault
  pub uuid : ℕ
  pub nfc : Text → Text
  pub resolve_within : Text → Paths.Result (Unit {0})
  pub zip : List Entry → List ℕ ⊎ Text
  pub digest : List ℕ → Text

-- `io`
unfoldable pub io_error : Fault → StoreError
io_error f = if f.storage_full then out_of_space else io f.message

abbrev pub Act : Type 0 → Type 0
Act A = Disk → Result A × Disk

abbrev pub continue : {A B : Type 0} → Result A → (A → Act B) → Disk → Result B × Disk
continue (ok a) f d = f a d
continue (err e) f d = (err e, d)

infixl 5 ◌>>=◌ ◌>>◌
unfoldable pub ◌>>=◌ : {A B : Type 0} → Act A → (A → Act B) → Disk → Result B × Disk
◌>>=◌ m f d = continue (m d).0 f (m d).1

abbrev pub ◌>>◌ : {A B : Type 0} → Act A → Act B → Disk → Result B × Disk
m >> n = m >>= λ _. n

abbrev pub lift : {A : Type 0} → Result A → Disk → Result A × Disk
lift r d = (r, d)

abbrev pub of_path : {A : Type 0} → Paths.Result A → Result A
of_path (Paths.ok a) = ok a
of_path (Paths.err e) = err (path e)

abbrev pub put : Text → Option (List ℕ) → (Text → Option (List ℕ)) → Text → Option (List ℕ)
put p content files q = if text_eq q p then content else files q

abbrev pub put_staged : ℕ → Option (List ℕ) → (ℕ → Option (List ℕ)) → ℕ → Option (List ℕ)
put_staged id content files j = if j == id then content else files j

abbrev pub called : Disk → Disk
called d = record d { calls = d.calls + 1 }

module _ (out : Outside) where
  -- Directories hold no content of their own.
  unfoldable pub create_dir_all : Disk → Result (Unit {0}) × Disk
  create_dir_all d = elim (out.fault d.calls) [
    | some f ↦ (err (io_error f), called d)
    | none ↦ (ok tt, called d)
  ]

  unfoldable pub write_and_sync : ℕ → List ℕ → Disk → Result (Unit {0}) × Disk
  write_and_sync id bytes d = elim (out.fault d.calls) [
    | some f ↦
        (err (io_error f), record (called d) { staging = put_staged id (some f.part) d.staging })
    | none ↦ (ok tt, record (called d) { staging = put_staged id (some bytes) d.staging })
  ]

  -- `rename` moves a file whole or not at all; where it fails the staged file is removed, and a
  -- failure of that is passed over.
  unfoldable pub remove_staged : ℕ → Disk → Disk
  remove_staged id d = elim (out.fault d.calls) [
    | some f ↦ called d
    | none ↦ record (called d) { staging = put_staged id none d.staging }
  ]

  unfoldable pub rename : ℕ → Text → Disk → Result (Unit {0}) × Disk
  rename id destination d = elim (out.fault d.calls) [
    | some f ↦ (err (io_error f), remove_staged id (called d))
    | none ↦ (
      ok tt,
      record (called d) {
        library = put destination (d.staging id) d.library;
        staging = put_staged id none d.staging;
      },
    )
  ]

  abbrev pub zipped : List ℕ ⊎ Text → Result (List ℕ)
  zipped (inl bytes) = ok bytes
  zipped (inr message) = err (cbz (CbzError.write message))

  -- `write_cbz` into memory
  unfoldable pub write_cbz : {F : Type 0} → Float F → ComicInfo F → List PageImage → Result (List ℕ)
  write_cbz f info [] = err (cbz CbzError.no_pages)
  write_cbz f info (p ∷ ps) = zipped (out.zip (entries f info (p ∷ ps)))

  unfoldable pub relative_of : {F : Type 0} → Float F → ChapterSpec F → Paths.Result Text
  relative_of f spec = Paths.◌>>=◌ (series_dir out.nfc spec.series_title spec.disambiguator) (λ dir.
      Paths.◌>>=◌ (chapter_stem out.nfc f spec.series_title spec.volume spec.number)
        (λ stem. Paths.ok (dir ++ (b'/' ∷ (stem ++ txt ".cbz")))))

  abbrev pub placed_as : Text → List ℕ → Placed
  placed_as relative bytes = record {
    relative_path = relative;
    size_bytes = length bytes;
    checksum = out.digest bytes;
  }

  -- The steps of `write_chapter` from the last to the first.
  unfoldable pub move : Text → List ℕ → Disk → Result Placed × Disk
  move relative bytes = rename out.uuid relative >> lift (ok (placed_as relative bytes))

  unfoldable pub make_parent : Text → List ℕ → Disk → Result Placed × Disk
  make_parent relative bytes = create_dir_all >> move relative bytes

  unfoldable pub place : Text → List ℕ → Disk → Result Placed × Disk
  place relative bytes = write_and_sync out.uuid bytes >> make_parent relative bytes

  module _ {F : Type 0} (f : Float F) (spec : ChapterSpec F) (pages : List PageImage) where
    unfoldable pub pack : Text → Disk → Result Placed × Disk
    pack relative = lift (write_cbz f spec.info pages) >>= place relative

    unfoldable pub stage : Text → Disk → Result Placed × Disk
    stage relative = create_dir_all >> pack relative

    unfoldable pub check : Text → Disk → Result Placed × Disk
    check relative = lift (of_path (out.resolve_within relative)) >> stage relative

    unfoldable pub write_chapter : Disk → Result Placed × Disk
    write_chapter = lift (of_path (relative_of f spec)) >>= check
