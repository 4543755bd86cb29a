-- ===== src/Api/Config/SignIn.antt =====
-- What signing in takes: the part of `validate` on the mode, the provider and the session key.
use nyuka.Common.{
  ◌≤◌, true, Text, text_eq, some, [], ◌∷◌, ltb, ◌≡◌, ◌≢◌, ◌⊎◌, ◌↔◌, inl, inr, refl, Option-cases,
  arith,
}
use nyuka.Common.Trim.{trim}
use nyuka.Packaging.Paths.{byte_len}
use nyuka.Api.Access.{AuthMode, oidc, disabled, parse_mode}
use nyuka.Api.Config.{
  RawConfig, Libraries, is_blank, list, session_key_bytes, mode_problems, mode_of, oidc_problems,
  key_problems, auth_problems, session_key_short,
}
use nyuka.Api.Config.Clauses.{
  IsGiven, append-nil_iff, when-nil_iff, not-IsGiven, cons-nil, none-some, url_only, nobody_in,
  below-test, both, absent,
}

module _ (lib : Libraries) (raw : RawConfig) where
  -- What signing in through a provider takes.
  pub record IsOidcUsable : Type 0 where
    pub issuer : IsGiven raw.oidc_issuer_url × (lib.is_url raw.oidc_issuer_url ≡ true)
    pub client : IsGiven raw.oidc_client_id × IsGiven raw.oidc_client_secret
    pub redirect : IsGiven raw.oidc_redirect_url × (lib.is_url raw.oidc_redirect_url ≡ true)
    pub somebody : (list raw.auth_allowed_subjects ≢ []) ⊎ (list raw.auth_allowed_groups ≢ [])
    pub key : session_key_bytes ≤ byte_len (trim raw.session_key)

  abbrev pub IsModeUsable : Type 0
  IsModeUsable =
      ((parse_mode raw.auth_mode ≡ some oidc) × IsOidcUsable)
      ⊎ ((parse_mode raw.auth_mode ≡ some disabled)
          × ((trim raw.session_key ≡ []) ⊎ (session_key_bytes ≤ byte_len (trim raw.session_key))))

  mode-nil_iff : (mode_problems raw ≡ []) ↔ ((m : AuthMode) × (parse_mode raw.auth_mode ≡ some m))
  unfolding mode_problems
  mode-nil_iff = elim (Option-cases (parse_mode raw.auth_mode)) [
    | inl e ↦
        (λ h. absurd (cons-nil (rw (e, mode_problems) at h)), λ h. absurd (none-some h.0 e h.1))
    | inr (a, e) ↦ (λ h. (a, e), λ h. rw (e, mode_problems) refl)
  ]

  oidc_key-nil_iff :
      (key : Text) → (key_problems oidc key ≡ []) ↔ (session_key_bytes ≤ byte_len key)
  unfolding key_problems text_eq byte_len
  oidc_key-nil_iff [] = (λ h. cc, λ h. absurd (omega arith))
  oidc_key-nil_iff (c ∷ cs) =
      let t = below-test (byte_len (c ∷ cs)) session_key_bytes in
      let w =
        when-nil_iff (ltb (byte_len (c ∷ cs)) session_key_bytes)
          (session_key_short (byte_len (c ∷ cs))) in
      (λ h. t.0 (w.0 h), λ h. w.1 (t.1 h))

  disabled_key-nil_iff :
      (key : Text)
      → (key_problems disabled key ≡ []) ↔ ((key ≡ []) ⊎ (session_key_bytes ≤ byte_len key))
  unfolding key_problems text_eq
  disabled_key-nil_iff [] = (λ h. inl refl, λ h. refl)
  disabled_key-nil_iff (c ∷ cs) =
      let t = below-test (byte_len (c ∷ cs)) session_key_bytes in
      let w =
        when-nil_iff (ltb (byte_len (c ∷ cs)) session_key_bytes)
          (session_key_short (byte_len (c ∷ cs))) in
      (λ h. inr (t.0 (w.0 h)), λ h. elim h [ inl e ↦ absurd (filled e) | inr k ↦ w.1 (t.1 k) ])
    where
      filled : c ∷ cs ≡ [] → ⊥
      filled e = cc

  oidc-nil_iff :
      ((oidc_problems lib raw ≡ []) × (key_problems oidc (trim raw.session_key) ≡ []))
      ↔ IsOidcUsable
  unfolding oidc_problems
  oidc-nil_iff =
      let i = not-IsGiven raw.oidc_issuer_url in
      let c = not-IsGiven raw.oidc_client_id in
      let s = not-IsGiven raw.oidc_client_secret in
      let r = not-IsGiven raw.oidc_redirect_url in
      let k = oidc_key-nil_iff (trim raw.session_key) in
      let n = nobody_in (list raw.auth_allowed_subjects) (list raw.auth_allowed_groups) in
      let raws = both _ _ (when-nil_iff (is_blank raw.oidc_issuer_url) _) (
        both _ _ (when-nil_iff (is_blank raw.oidc_client_id) _) (
          both _ _ (when-nil_iff (is_blank raw.oidc_client_secret) _) (
            both _ _ (when-nil_iff (is_blank raw.oidc_redirect_url) _)
              (both _ _ (when-nil_iff _ _) (both _ _ (when-nil_iff _ _) (absent _ _ n)))))) in
      (
        λ h.
            let (bi, bc, bs, br, ui, ur, some_one) = flat (raws.0 h.0) in
            record {
              issuer = (i.0 bi, (url_only _ (lib.is_url raw.oidc_issuer_url) bi).0 ui);
              client = (c.0 bc, s.0 bs);
              redirect = (r.0 br, (url_only _ (lib.is_url raw.oidc_redirect_url) br).0 ur);
              somebody = some_one;
              key = k.0 h.1;
            },
        λ u.
            let bi = i.1 u.issuer.0 in
            let br = r.1 u.redirect.0 in
            (
              raws.1 (
                bi,
                (
                  c.1 u.client.0,
                  (
                    s.1 u.client.1,
                    (
                      br,
                      (
                        (url_only _ (lib.is_url raw.oidc_issuer_url) bi).1 u.issuer.1,
                        (
                          (url_only _ (lib.is_url raw.oidc_redirect_url) br).1 u.redirect.1,
                          u.somebody,
                        ),
                      ),
                    ),
                  ),
                ),
              ),
              k.1 u.key,
            ),
      )
    where
      flat :
          {A B C D E F G : Type 0} → A × (B × (C × (D × (E × (F × G))))) → A × B × C × D × E × F × G
      flat t = (t.0, t.1.0, t.1.1.0, t.1.1.1.0, t.1.1.1.1.0, t.1.1.1.1.1.0, t.1.1.1.1.1.1)

  same_mode :
      (m n : AuthMode)
      → parse_mode raw.auth_mode ≡ some m
      → parse_mode raw.auth_mode ≡ some n
      → m ≡ n
  same_mode m n p q = cc

  oidc-ne-disabled : oidc ≡ disabled → ⊥
  oidc-ne-disabled q = cc

  mode_known : (m : AuthMode) → parse_mode raw.auth_mode ≡ some m → mode_problems raw ≡ []
  unfolding mode_problems
  mode_known m e = rw (e, mode_problems) refl

  mode_of-known : (m : AuthMode) → parse_mode raw.auth_mode ≡ some m → mode_of raw ≡ m
  unfolding mode_of
  mode_of-known m e = rw e refl

  pub auth-nil_iff :
      ((mode_problems raw ≡ []) × (auth_problems lib (mode_of raw) raw ≡ [])) ↔ IsModeUsable
  unfolding auth_problems
  auth-nil_iff = elim (Option-cases (parse_mode raw.auth_mode)) [
    | inl e ↦ (
      λ h. let k = mode-nil_iff.0 h.0 in absurd (none-some k.0 e k.1),
      λ h. elim h [
        | inl o ↦ absurd (none-some oidc e o.0)
        | inr d ↦ absurd (none-some disabled e d.0)
      ],
    )
    | inr (m, e) ↦ known m e
  ]
    where
      known :
          (m : AuthMode)
          → parse_mode raw.auth_mode ≡ some m
          → ((mode_problems raw ≡ []) × (auth_problems lib (mode_of raw) raw ≡ [])) ↔ IsModeUsable
      known oidc e =
          let parts =
            append-nil_iff (oidc_problems lib raw) (key_problems oidc (trim raw.session_key)) in
          rw (mode_of-known oidc e) (
            λ h. inl (e, oidc-nil_iff.0 (parts.0 h.1)),
            λ h. elim h [
              | inl o ↦ (mode_known oidc e, parts.1 (oidc-nil_iff.1 o.1))
              | inr d ↦ absurd (oidc-ne-disabled (same_mode oidc disabled e d.0))
            ],
          )
      known disabled e =
          let key = disabled_key-nil_iff (trim raw.session_key) in
          rw (mode_of-known disabled e) (
            λ h. inr (e, key.0 h.1),
            λ h. elim h [
              | inl o ↦ absurd (oidc-ne-disabled (same_mode oidc disabled o.0 e))
              | inr d ↦ (mode_known disabled e, key.1 d.1)
            ],
          )
