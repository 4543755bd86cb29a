-- ===== src/Api/Config/Refusals.antt =====
-- When the other parts of `validate` refuse nothing.
use nyuka.Common.{
  ℕ, ◌<◌, true, false, Text, txt, some, List, [], ◌∷◌, leb, ◌≡◌, ◌↔◌, inl, inr, refl, All,
  Bool-cases, Option-cases, arith,
}
use nyuka.Common.Trim.{trim}
use nyuka.Jobs.Scheduler.{longest, default_schedule, check_retention}
use nyuka.Net.Address.{SocketAddr}
use nyuka.Net.Cidr.{Cidr, Parsed, parse}
use nyuka.Packaging.Paths.{eq_ignore_ascii_case}
use nyuka.Api.Directories.{paths_overlap}
use nyuka.Api.Config.{
  RawConfig, Problem, Libraries, is_blank, when, refusal, database_problems, bind_problems,
  directory_problems, limit_problems, proxy_problems, report,
}
use nyuka.Api.Config.Clauses.{
  IsGiven, append-nil_iff, when-nil_iff, not-IsGiven, cons-nil, none-some, first_or_second,
  nested_only, zero-test, not-test, both, absent,
}

module _ (lib : Libraries) (raw : RawConfig) where
  pub database-nil_iff :
      (database_problems lib raw ≡ [])
      ↔ (IsGiven raw.database_url × (lib.is_url raw.database_url ≡ true))
  unfolding database_problems
  database-nil_iff =
      let b = first_or_second (is_blank raw.database_url) (lib.is_url raw.database_url) _ _ in
      let g = not-IsGiven raw.database_url in
      (λ h. (g.0 (b.0 h).0, (b.0 h).1), λ h. b.1 (g.1 h.0, h.1))

  pub bind-nil_iff :
      (bind_problems lib raw ≡ [])
      ↔ ((addr : SocketAddr) × (lib.parse_socket raw.bind_addr ≡ some addr))
  unfolding bind_problems
  bind-nil_iff = elim (Option-cases (lib.parse_socket raw.bind_addr)) [
    | inl e ↦
        (λ h. absurd (cons-nil (rw (e, bind_problems) at h)), λ h. absurd (none-some h.0 e h.1))
    | inr (a, e) ↦ (λ h. (a, e), λ h. rw (e, bind_problems) refl)
  ]

  pub directory-nil_iff : (directory_problems raw ≡ []) ↔ (
      (IsGiven raw.library_root × IsGiven raw.data_dir)
      × (paths_overlap raw.library_root raw.data_dir ≡ false))
  unfolding directory_problems
  directory-nil_iff =
      let a = append-nil_iff (when (is_blank raw.library_root) _) _ in
      let b = append-nil_iff (when (is_blank raw.data_dir) _) _ in
      let gl = not-IsGiven raw.library_root in
      let gd = not-IsGiven raw.data_dir in
      let overlap = paths_overlap raw.library_root raw.data_dir in
      (
        λ h.
            let l = (when-nil_iff (is_blank raw.library_root) _).0 (a.0 h).0 in
            let d = (when-nil_iff (is_blank raw.data_dir) _).0 (b.0 (a.0 h).1).0 in
            let n = (when-nil_iff _ _).0 (b.0 (a.0 h).1).1 in
            ((gl.0 l, gd.0 d), (nested_only _ _ overlap l d).0 n),
        λ h.
            let l = gl.1 h.0.0 in
            let d = gd.1 h.0.1 in
            a.1 (
              (when-nil_iff (is_blank raw.library_root) _).1 l,
              b.1 (
                (when-nil_iff (is_blank raw.data_dir) _).1 d,
                (when-nil_iff _ _).1 ((nested_only _ _ overlap l d).1 h.1),
              ),
            ),
      )

  pub limits-nil_iff : (limit_problems raw ≡ []) ↔ (
      (0 < raw.session_ttl_hours)
      × ((0 < raw.job_workers)
          × ((0 < raw.source_max_concurrency)
              × ((0 < raw.job_poll_interval_ms)
                  × ((eq_ignore_ascii_case (trim raw.log_format) (txt "json") ≡ true)
                      × ((0 < raw.wasm_max_memory_mb) × (0 < raw.wasm_epoch_timeout_ms)))))))
  unfolding limit_problems
  limits-nil_iff = both _ _ (absent _ _ (zero-test raw.session_ttl_hours)) (
      both _ _ (absent _ _ (zero-test raw.job_workers)) (
        both _ _ (absent _ _ (zero-test raw.source_max_concurrency)) (
          both _ _ (absent _ _ (zero-test raw.job_poll_interval_ms)) (
            both _ _ (absent _ _ (not-test _)) (
              both _ _ (absent _ _ (zero-test raw.wasm_max_memory_mb))
                (absent _ _ (zero-test raw.wasm_epoch_timeout_ms)))))))

  report-nil_iff :
      {P : Type 0} (r : Parsed) (ps : List Problem)
      → (ps ≡ []) ↔ P
      → (report r ps ≡ []) ↔ (((c : Cidr) × (r ≡ Parsed.ok c)) × P)
  report-nil_iff (Parsed.ok c) ps ih = (λ h. ((c, refl), ih.0 h), λ h. ih.1 h.1)
  report-nil_iff (Parsed.err x) ps ih = (λ h. absurd (cons-nil h), λ h. absurd (failed h.0.0 h.0.1))
    where
      failed : (c : Cidr) → Parsed.err x ≡ Parsed.ok c → ⊥
      failed c q = cc

  pub proxy-nil_iff :
      (es : List Text)
      → (proxy_problems lib es ≡ [])
        ↔ All (λ e. (c : Cidr) × (parse lib.parse_ip e ≡ Parsed.ok c)) es
  unfolding proxy_problems
  proxy-nil_iff [] = (λ h. tt, λ h. refl)
  proxy-nil_iff (e ∷ es) =
      report-nil_iff (parse lib.parse_ip e) (proxy_problems lib es) (proxy-nil_iff es)

  pub retention-nil_iff :
      (retention : ℕ)
      → lib.from_std (longest default_schedule) ≡ some (longest default_schedule)
      → (refusal (check_retention lib.from_std retention default_schedule) ≡ [])
        ↔ (longest default_schedule < retention)
  unfolding check_retention
  retention-nil_iff retention fits = elim (Bool-cases (leb retention (longest default_schedule))) [
    | inl e ↦ rw (fits, e, check_retention) (λ h. absurd (cons-nil h), λ h. absurd (ground arith))
    | inr e ↦ rw (fits, e, check_retention) (λ h. ground arith, λ h. refl)
  ]
