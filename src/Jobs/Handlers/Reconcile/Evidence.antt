-- ===== src/Jobs/Handlers/Reconcile/Evidence.antt =====
-- What a pass over the library has seen before it forgets: the root read, the files not found.
use nyuka.Common.{ℕ, false, some, List, [], ◌∷◌, ◌≡◌, inl, inr, subst, All, All-impl}
use nyuka.Domain.Errors.{DomainError, Result, ok, err}
use nyuka.Domain.Library.{DownloadedChapter}
use nyuka.Jobs.Handlers.{Ports, Call, History, call, ◌>>=◌, downloaded, forgot, exists, free_bytes}
use nyuka.Jobs.Handlers.Outcome.{err-ne-ok, ok-injective, >>=-cases}

module _ (ports : Ports) where
  -- The chapter had a download, and the library answered that its file is not there.
  pub data IsMissing (id : ℕ) : History → Type 0 where
    looked :
        {older : History} (d : DownloadedChapter)
        → ports.find_download older id ≡ ok (some d)
        → ports.file_exists (downloaded id ∷ older) d.relative_path ≡ ok false
        → IsMissing id (exists d.relative_path ∷ downloaded id ∷ older)
    earlier : {older : History} (c : Call) → IsMissing id older → IsMissing id (c ∷ older)

  -- The library root answered how much space it has.
  pub data IsRead : History → Type 0 where
    read : {older : History} (n : ℕ) → ports.free_space older ≡ ok n → IsRead (free_bytes ∷ older)
    earlier : {older : History} (c : Call) → IsRead older → IsRead (c ∷ older)

  -- So it is of each chapter of each `forget_downloads` of the history.
  abbrev pub ForgetsMissing : History → Type 0
  ForgetsMissing [] = Unit
  ForgetsMissing (forgot ids ∷ older) =
      All (λ id. IsMissing id older) ids × IsRead older × ForgetsMissing older
  ForgetsMissing (other ∷ older) = ForgetsMissing older

  abbrev pub AllMissing : List ℕ → History → Type 0
  AllMissing ids h = All (λ id. IsMissing id h) ids

  all_earlier : (c : Call) (ids : List ℕ) (h : History) → AllMissing ids h → AllMissing ids (c ∷ h)
  all_earlier c ids h = All-impl _ _ (λ id m. IsMissing.earlier c m) ids

  pub record Good (h : History) : Type 0 where
    pub forgets : ForgetsMissing h
    pub root : IsRead h

  -- With the chapters found missing so far.
  pub record Found (ids : List ℕ) (h : History) : Type 0 where
    pub good : Good h
    pub all : AllMissing ids h

  pub quiet :
      (c : Call) (h : History) → (ForgetsMissing h → ForgetsMissing (c ∷ h)) → Good h → Good (c ∷ h)
  quiet c h keeps g = record { forgets = keeps g.forgets; root = IsRead.earlier c g.root }

  pub quiet-Found :
      (c : Call) (ids : List ℕ) (h : History)
      → (ForgetsMissing h → ForgetsMissing (c ∷ h))
      → Found ids h
      → Found ids (c ∷ h)
  quiet-Found c ids h keeps f = record {
    good = quiet c h keeps f.good;
    all = all_earlier c ids h f.all;
  }

  -- What holds of an action's end: always `Good`, and more of what it returns.
  pub record After {A : Type 0} (Q : A → History → Type 0) (r : Result A × History) : Type 0 where
    pub ends_well : Good r.1
    pub returns : (a : A) → r.0 ≡ ok a → Q a r.1

  pub After-ok :
      {A : Type 0} (Q : A → History → Type 0) (a : A) (h : History)
      → Good h
      → Q a h
      → After Q (ok a, h)
  After-ok Q a h g q = record {
    ends_well = g;
    returns = λ b e. subst (λ x. Q x h) (ok-injective e) q;
  }

  pub After-err :
      {A : Type 0} (Q : A → History → Type 0) (e : DomainError) (h : History)
      → Good h
      → After Q (err e, h)
  After-err Q e h g = record { ends_well = g; returns = λ b q. absurd (err-ne-ok q) }

  pub After-bind :
      {A B : Type 0} (P : A → History → Type 0) (Q : B → History → Type 0)
      (m : History → Result A × History) (f : A → History → Result B × History) (h : History)
      → After P (m h)
      → ((a : A) (g : History) → Good g → P a g → After Q (f a g))
      → After Q ((m >>= f) h)
  After-bind P Q m f h am af = elim (>>=-cases m f h) [
    | inl (e, failed, step) ↦ rw step (After-err Q e (m h).1 am.ends_well)
    | inr (a, done, step) ↦ rw step (af a (m h).1 am.ends_well (am.returns a done))
  ]

  pub After-call :
      {A : Type 0} (Q : A → History → Type 0) (c : Call) (answer : History → Result A) (h : History)
      → Good (c ∷ h)
      → ((a : A) → answer h ≡ ok a → Q a (c ∷ h))
      → After Q (call c answer h)
  unfolding call
  After-call Q c answer h g q = record { ends_well = g; returns = q }
