-- ===== src/Api/Access/Permitted.antt =====
-- Who is let in, and which requests reach the service.
use nyuka.Common.{
  Bool, true, false, ◌||◌, List, [], ◌∷◌, any, if◌then◌else◌, Text, text_eq, text_eq_iff, ◌≡◌, ◌↔◌,
  ◌⊎◌, inl, inr, refl, arith, Member, here, there, Bool-cases,
}
use nyuka.Api.Access.{AuthMode, oidc, disabled, AuthConfig, is_disabled, permits}

any-Member : (t : Text) (ts : List Text) → (any (λ s. text_eq s t) ts ≡ true) ↔ Member t ts
any-Member t ts = (found ts, listed)
  where
    found : (ts : List Text) → any (λ s. text_eq s t) ts ≡ true → Member t ts
    found [] h = absurd (false-ne h)
      where
        false-ne : false ≡ true → ⊥
        false-ne e = cc
    found (s ∷ ts) h = elim (Bool-cases (text_eq s t)) [
      | inl e ↦ let q : s ≡ t = (text_eq_iff s t).0 e in rw q here
      | inr e ↦ there (found ts (rw e at h))
    ]

    listed : {ts : List Text} → Member t ts → any (λ s. text_eq s t) ts ≡ true
    listed here = rw ((text_eq_iff t t).1 refl) refl
    listed (there m) = ground (arith, listed m)

any-group :
    (allowed gs : List Text)
    → (any (λ g. any (λ a. text_eq a g) allowed) gs ≡ true)
      ↔ ((g : Text) × Member g gs × Member g allowed)
any-group allowed gs = (found gs, λ (g, m, n). listed m n)
  where
    found :
        (gs : List Text)
        → any (λ g. any (λ a. text_eq a g) allowed) gs ≡ true
        → (g : Text) × Member g gs × Member g allowed
    found [] h = absurd (false-ne h)
      where
        false-ne : false ≡ true → ⊥
        false-ne e = cc
    found (g ∷ gs) h = elim (Bool-cases (any (λ a. text_eq a g) allowed)) [
      | inl e ↦ (g, here, (any-Member g allowed).0 e)
      | inr e ↦ let (k, m, n) = found gs (rw e at h) in (k, there m, n)
    ]

    listed :
        {g : Text} {gs : List Text}
        → Member g gs
        → Member g allowed
        → any (λ g. any (λ a. text_eq a g) allowed) gs ≡ true
    listed here n = rw ((any-Member _ allowed).1 n) refl
    listed (there m) n = ground (arith, listed m n)

by_mode :
    {A B : Type 0} (mode : AuthMode) (p q : Bool)
    → (p ≡ true) ↔ A
    → (q ≡ true) ↔ B
    → ((if is_disabled mode then true else p || q) ≡ true) ↔ ((mode ≡ disabled) ⊎ A ⊎ B)
unfolding is_disabled
by_mode disabled p q h k = (λ e. inl refl, λ w. refl)
by_mode oidc true q h k = (λ e. inr (inl (h.0 refl)), λ w. refl)
by_mode oidc false q h k = (
  λ e. inr (inr (k.0 e)),
  λ w. elim w [ inl e ↦ cc | inr r ↦ elim r [ inl a ↦ cc (h.1 a) | inr b ↦ k.1 b ] ],
)

-- A caller is let in exactly when sign-in is off, or the subject is on the list of subjects, or one
-- of the caller's groups is on the list of groups.
pub permits_lem :
    (config : AuthConfig) (subject : Text) (groups : List Text)
    → (permits config subject groups ≡ true) ↔ (
        (config.mode ≡ disabled)
        ⊎ Member subject config.allowed_subjects
        ⊎ ((g : Text) × Member g groups × Member g config.allowed_groups))
unfolding permits
permits_lem config subject groups =
    let subjects = any-Member subject config.allowed_subjects in
    let shared = any-group config.allowed_groups groups in
    by_mode config.mode (any (λ s. text_eq s subject) config.allowed_subjects)
      (any (λ g. any (λ a. text_eq a g) config.allowed_groups) groups) subjects shared
