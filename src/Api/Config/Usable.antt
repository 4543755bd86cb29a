-- ===== src/Api/Config/Usable.antt =====
-- What a configuration that `validate` accepts is like.
use nyuka.Common.{ℕ, ◌<◌, pos_part, true, false, txt, some, List, [], ◌∷◌, ◌≡◌, ◌≢◌, ◌↔◌, refl, All}
use nyuka.Common.Trim.{trim}
use nyuka.Jobs.Scheduler.{longest, default_schedule}
use nyuka.Net.Address.{SocketAddr}
use nyuka.Net.Cidr.{Cidr, Parsed, parse}
use nyuka.Packaging.Paths.{eq_ignore_ascii_case}
use nyuka.Api.Directories.{paths_overlap}
use nyuka.Api.Config.{
  RawConfig, Config, Problem, Libraries, Outcome, valid, panics, build, list, database_problems,
  bind_problems, directory_problems, mode_problems, mode_of, auth_problems, limit_problems,
  problems, config_of, settle, validate,
}
use nyuka.Api.Config.Clauses.{IsGiven, append-nil_iff, both}
use nyuka.Api.Config.SignIn.{IsModeUsable, auth-nil_iff}
use nyuka.Api.Config.Refusals.{
  database-nil_iff, bind-nil_iff, directory-nil_iff, limits-nil_iff, proxy-nil_iff,
  retention-nil_iff,
}

module _ (lib : Libraries) (raw : RawConfig) where
  pub record IsUsable (retention : ℕ) : Type 0 where
    pub database : IsGiven raw.database_url × (lib.is_url raw.database_url ≡ true)
    pub bind : (addr : SocketAddr) × (lib.parse_socket raw.bind_addr ≡ some addr)
    pub directories : IsGiven raw.library_root × IsGiven raw.data_dir
    pub apart : paths_overlap raw.library_root raw.data_dir ≡ false
    pub mode : IsModeUsable lib raw
    pub limits :
        (0 < raw.session_ttl_hours)
        × (0 < raw.job_workers)
        × (0 < raw.source_max_concurrency)
        × (0 < raw.job_poll_interval_ms)
        × (0 < raw.wasm_max_memory_mb)
        × (0 < raw.wasm_epoch_timeout_ms)
    pub logs : eq_ignore_ascii_case (trim raw.log_format) (txt "json") ≡ true
    pub kept : longest default_schedule < retention
    pub trusted :
        All (λ e. (c : Cidr) × (parse lib.parse_ip e ≡ Parsed.ok c)) (list raw.trusted_proxies)

  problems-nil_iff :
      (retention : ℕ)
      → lib.from_std (longest default_schedule) ≡ some (longest default_schedule)
      → (problems lib raw retention ≡ []) ↔ IsUsable retention
  unfolding problems
  problems-nil_iff retention fits =
      let m = append-nil_iff (mode_problems raw) _ in
      let a = append-nil_iff (auth_problems lib (mode_of raw) raw) _ in
      let tail = both (limit_problems raw) _ (limits-nil_iff lib raw) (
        both _ _ (retention-nil_iff lib raw retention fits)
          ((proxy-nil_iff lib raw) (list raw.trusted_proxies))) in
      let front = both (database_problems lib raw) _ (database-nil_iff lib raw) (
        both (bind_problems lib raw) _ (bind-nil_iff lib raw)
          (both (directory_problems raw) _ (directory-nil_iff lib raw) (λ h. h, λ h. h))) in
      (
        λ h.
            let f = front.0 h in
            let f3 = f.1.1.1 in
            let t = tail.0 (a.0 (m.0 f3).1).1 in
            record {
              database = f.0;
              bind = f.1.0;
              directories = f.1.1.0.0;
              apart = f.1.1.0.1;
              mode = (auth-nil_iff lib raw).0 ((m.0 f3).0, (a.0 (m.0 f3).1).0);
              limits = (t.0.0, t.0.1.0, t.0.1.1.0, t.0.1.1.1.0, t.0.1.1.1.1.1.0, t.0.1.1.1.1.1.1);
              logs = t.0.1.1.1.1.0;
              kept = t.1.0;
              trusted = t.1.1;
            },
        λ u.
            let auth = (auth-nil_iff lib raw).1 u.mode in
            let l = u.limits in
            let t =
              tail.1 ((l.0, (l.1, (l.2, (l.3, (u.logs, (l.4, l.5)))))), (u.kept, u.trusted)) in
            front.1
              (u.database, (u.bind, ((u.directories, u.apart), m.1 (auth.0, a.1 (auth.1, t))))),
      )

  settled :
      (retention : ℕ) (ps : List Problem) (c : Config)
      → settle lib raw retention ps ≡ valid c
      → ps ≡ []
  settled retention [] c h = refl
  settled retention (p ∷ ps) c h = absurd (refused h)
    where
      refused : Outcome.invalid (p ∷ ps) ≡ valid c → ⊥
      refused q = cc

  built : (retention : ℕ) (addr : SocketAddr) → build lib raw retention (some addr) ≢ panics
  built retention addr h = cc

  settle-ends :
      (retention : ℕ) (ps : List Problem)
      → (ps ≡ [] → (addr : SocketAddr) × (lib.parse_socket raw.bind_addr ≡ some addr))
      → settle lib raw retention ps ≢ panics
  settle-ends retention [] bound h =
      let (addr, read) = bound refl in built retention addr (rw read at h)
  settle-ends retention (p ∷ ps) bound h = cc

  -- Where a duration can hold the days of retention and the longest period of the schedule, `validate`
  -- accepts a configuration exactly if it is usable, and it does not panic, so that the `expect` on
  -- the address never fails. Usable means: the url of the database is one, the address to bind can be read, the two directories are
  -- given and apart, the mode is known and what it needs is there (a session key of 64 bytes or more,
  -- or none at all without sign-in; with sign-in also the provider's settings and somebody who may
  -- sign in), the limits are positive, the log format is JSON, the retention exceeds every period of
  -- the schedule and every trusted proxy is a network.
  pub validate-valid_iff :
      (retention : ℕ)
      → lib.days (pos_part raw.job_retention_days) ≡ some retention
      → lib.from_std (longest default_schedule) ≡ some (longest default_schedule)
      → (((c : Config) × (validate lib raw ≡ valid c)) ↔ IsUsable retention)
        × (validate lib raw ≢ panics)
  unfolding validate
  validate-valid_iff retention e fits =
      rw (e, validate)
        (
          (
            λ h.
                (problems-nil_iff retention fits).0
                  (settled retention (problems lib raw retention) h.0 h.1),
            λ u.
                let (addr, read) = u.bind in
                rw ((problems-nil_iff retention fits).1 u)
                  (rw read (config_of lib raw retention addr, refl)),
          ),
          settle-ends retention (problems lib raw retention)
              (λ none_left. ((problems-nil_iff retention fits).0 none_left).bind),
        )
