-- ===== src/Api/Config.antt =====
-- crates/api/src/config.rs: the settings as they are read, their defaults, and `validate`. Durations
-- are microseconds, as in the scheduler. The messages of the problems are kept by what they tell.
pub mod Clauses
pub mod SignIn
pub mod Refusals
pub mod Usable
use nyuka.Common.{
  ℕ, zero, suc, ◌+◌, ◌*◌, ℤ, pos, pos_part, Bool, true, false, not, ◌&&◌, ◌||◌, Text, txt, text_eq,
  Option, none, some, List, [], ◌∷◌, ◌++◌, ◌==◌, ltb, leb, length, take, map, if◌then◌else◌,
  unwrap_or,
}
use nyuka.Common.Trim.{trim}
use nyuka.Domain.Errors.{DomainError}
use nyuka.Domain.Errors as Errors
use nyuka.Jobs.Queue.{second}
use nyuka.Jobs.Scheduler.{default_schedule, check_retention}
use nyuka.Net.Address.{IpAddr, SocketAddr}
use nyuka.Net.Cidr.{Cidr, CidrError, Parsed, parse}
use nyuka.Net.ClientIp.{split_commas}
use nyuka.Packaging.Paths.{byte_len, eq_ignore_ascii_case}
use nyuka.Api.Access.{AuthMode, oidc, disabled, AuthConfig, parse_mode}
use nyuka.Api.Directories.{paths_overlap}

pub record RawConfig : Type 0 where
  pub database_url : Text
  pub bind_addr : Text
  pub library_root : Text
  pub data_dir : Text
  pub auth_mode : Text
  pub oidc_issuer_url : Text
  pub oidc_client_id : Text
  pub oidc_client_secret : Text
  pub oidc_redirect_url : Text
  pub auth_allowed_subjects : Text
  pub auth_allowed_groups : Text
  pub session_key : Text
  pub session_ttl_hours : ℕ
  pub job_workers : ℕ
  pub job_poll_interval_ms : ℕ
  pub source_max_concurrency : ℕ
  pub job_stale_lock_secs : ℕ
  pub job_retention_days : ℤ
  pub job_drain_timeout_secs : ℕ
  pub flaresolverr_url : Text
  pub wasm_max_memory_mb : ℕ
  pub wasm_epoch_timeout_ms : ℕ
  pub db_slow_statement_ms : ℕ
  pub otel_service_name : Text
  pub log_format : Text
  pub telemetry_ingest_enabled : Bool
  pub telemetry_ingest_max_body_bytes : ℕ
  pub trusted_proxies : Text
  pub sse_retry_ms : ℕ

abbrev pub default : RawConfig
default = record {
  database_url = [];
  bind_addr = txt "0.0.0.0:8080";
  library_root = [];
  data_dir = [];
  auth_mode = txt "oidc";
  oidc_issuer_url = [];
  oidc_client_id = [];
  oidc_client_secret = [];
  oidc_redirect_url = [];
  auth_allowed_subjects = [];
  auth_allowed_groups = [];
  session_key = [];
  session_ttl_hours = 720;
  job_workers = 4;
  job_poll_interval_ms = 1000;
  source_max_concurrency = 4;
  job_stale_lock_secs = 900;
  job_retention_days = pos 30;
  job_drain_timeout_secs = 30;
  flaresolverr_url = [];
  wasm_max_memory_mb = 128;
  wasm_epoch_timeout_ms = 30_000;
  db_slow_statement_ms = 250;
  otel_service_name = txt "nyuka-api";
  log_format = txt "json";
  telemetry_ingest_enabled = true;
  telemetry_ingest_max_body_bytes = 262_144;
  trusted_proxies = [];
  sse_retry_ms = 5_000;
}

abbrev pub is_blank : Text → Bool
is_blank t = text_eq (trim t) []

unfoldable pub trimmed_entries : List Text → List Text
trimmed_entries [] = []
trimmed_entries (e ∷ es) =
    let rest = trimmed_entries es in if is_blank e then rest else trim e ∷ rest

unfoldable pub list : Text → List Text
unfolding split_commas
list raw = trimmed_entries (split_commas raw)

-- `AuthConfig` with its secrets; `permits` reads the part `access`.
pub record AuthSettings : Type 0 where
  pub access : AuthConfig
  pub issuer_url : Text
  pub client_id : Text
  pub client_secret : Text
  pub redirect_url : Text
  pub session_key : Text
  pub session_ttl : ℕ

pub record JobsConfig : Type 0 where
  pub workers : ℕ
  pub poll_interval : ℕ
  pub source_max_concurrency : ℕ
  pub stale_lock : ℕ
  pub retention : ℕ
  pub drain_timeout : ℕ

pub record SourcesConfig : Type 0 where
  pub flaresolverr_url : Option Text
  pub wasm_max_memory_bytes : ℕ
  pub wasm_timeout : ℕ

pub record TelemetryConfig : Type 0 where
  pub service_name : Text
  pub service_version : Text
  pub ingest_enabled : Bool
  pub ingest_max_body_bytes : ℕ
  pub db_slow_statement : ℕ

pub record Config : Type 0 where
  pub database_url : Text
  pub bind_addr : SocketAddr
  pub library_root : Text
  pub data_dir : Text
  pub auth : AuthSettings
  pub jobs : JobsConfig
  pub sources : SourcesConfig
  pub telemetry : TelemetryConfig
  pub trusted_proxies : List Cidr
  pub sse_retry : ℕ

pub data Problem : Type 0 where
  database_url_missing database_url_not_url : Problem
  bind_addr_unreadable : Text → Problem
  library_root_missing data_dir_missing directories_nested : Problem
  auth_mode_unknown : Text → Problem
  oidc_missing oidc_not_url : Text → Problem
  nobody_allowed session_key_missing : Problem
  session_key_short : ℕ → Problem
  session_ttl_zero workers_zero concurrency_zero poll_interval_zero : Problem
  log_format_unknown : Text → Problem
  memory_zero timeout_zero : Problem
  retention_short : DomainError → Problem
  proxy_unreadable : CidrError → Problem

abbrev pub session_key_bytes : ℕ
session_key_bytes = 64

-- What the code takes from its libraries: whether `Url::parse` succeeds, the parsers of addresses,
-- `chrono::Duration::days`, which panics where a duration cannot hold them, `from_std`, the digits of the n-th
-- `Uuid::new_v4`, and the version that the build sets.
pub record Libraries : Type 0 where
  pub is_url : Text → Bool
  pub parse_socket : Text → Option SocketAddr
  pub parse_ip : Text → Option IpAddr
  pub days : ℕ → Option ℕ
  pub from_std : ℕ → Option ℕ
  pub simple_uuid : ℕ → Text
  pub version : Text

pub data Outcome : Type 0 where
  valid : Config → Outcome
  invalid : List Problem → Outcome
  panics : Outcome

-- `if test { problems.push(problem) }`
abbrev pub when : Bool → Problem → List Problem
when true p = p ∷ []
when false p = []

-- `while key.len() < SESSION_KEY_BYTES * 2 { key.push_str(…) }`, with rounds enough where no uuid
-- prints as nothing.
unfoldable pub draw_key : ℕ → (ℕ → Text) → ℕ → Text → Text
draw_key zero uuid n key = key
draw_key (suc rounds) uuid n key =
    let more = draw_key rounds uuid (suc n) (key ++ uuid n) in
    if ltb (length key) (session_key_bytes * 2) then more else key

unfoldable pub ephemeral_session_key : (ℕ → Text) → Text
unfolding draw_key
ephemeral_session_key uuid =
    take (session_key_bytes * 2) (draw_key (session_key_bytes * 2) uuid 0 [])

-- `if let Err(e) = check_retention(…)`
abbrev pub refusal : Errors.Result (Unit {0}) → List Problem
refusal (Errors.ok u) = []
refusal (Errors.err e) = retention_short e ∷ []

unfoldable pub directory_problems : RawConfig → List Problem
directory_problems raw =
    when (is_blank raw.library_root) library_root_missing
    ++ (when (is_blank raw.data_dir) data_dir_missing
        ++ when
            (not (is_blank raw.library_root)
              && (not (is_blank raw.data_dir) && paths_overlap raw.library_root raw.data_dir))
            directories_nested)

unfoldable pub mode_problems : RawConfig → List Problem
mode_problems raw = elim (parse_mode raw.auth_mode) [
  | some mode ↦ []
  | none ↦ auth_mode_unknown raw.auth_mode ∷ []
]

-- With a mode that is not recognised the secure one is assumed.
unfoldable pub mode_of : RawConfig → AuthMode
mode_of raw = unwrap_or (parse_mode raw.auth_mode) oidc

abbrev pub required : Text → Text → List Problem
required name value = when (is_blank value) (oidc_missing name)

abbrev pub nothing_in : List Text → Bool
nothing_in [] = true
nothing_in (e ∷ es) = false

unfoldable pub key_problems : AuthMode → Text → List Problem
key_problems oidc key =
    if text_eq key []
    then session_key_missing ∷ []
    else when (ltb (byte_len key) session_key_bytes) (session_key_short (byte_len key))
key_problems disabled key =
    when (not (text_eq key []) && ltb (byte_len key) session_key_bytes)
      (session_key_short (byte_len key))

unfoldable pub limit_problems : RawConfig → List Problem
limit_problems raw =
    when (raw.session_ttl_hours == 0) session_ttl_zero
    ++ (when (raw.job_workers == 0) workers_zero
        ++ (when (raw.source_max_concurrency == 0) concurrency_zero
            ++ (when (raw.job_poll_interval_ms == 0) poll_interval_zero
                ++ (when (not (eq_ignore_ascii_case (trim raw.log_format) (txt "json")))
                      (log_format_unknown raw.log_format)
                    ++ (when (raw.wasm_max_memory_mb == 0) memory_zero
                        ++ when (raw.wasm_epoch_timeout_ms == 0) timeout_zero)))))

abbrev pub given : Text → Option Text
given u = if is_blank u then none else some u

abbrev pub report : Parsed → List Problem → List Problem
report (Parsed.ok c) ps = ps
report (Parsed.err x) ps = proxy_unreadable x ∷ ps

abbrev pub accept : Parsed → List Cidr → List Cidr
accept (Parsed.ok c) cs = c ∷ cs
accept (Parsed.err x) cs = cs

module _ (lib : Libraries) where
  unfoldable pub database_problems : RawConfig → List Problem
  database_problems raw =
      if is_blank raw.database_url
      then database_url_missing ∷ []
      else when (not (lib.is_url raw.database_url)) database_url_not_url

  unfoldable pub bind_problems : RawConfig → List Problem
  bind_problems raw = elim (lib.parse_socket raw.bind_addr) [
    | some addr ↦ []
    | none ↦ bind_addr_unreadable raw.bind_addr ∷ []
  ]

  abbrev pub url_if_given : Text → Text → List Problem
  url_if_given name value =
      when (not (is_blank value) && not (lib.is_url value)) (oidc_not_url name)

  unfoldable pub oidc_problems : RawConfig → List Problem
  oidc_problems raw =
      required (txt "OIDC_ISSUER_URL") raw.oidc_issuer_url
      ++ (required (txt "OIDC_CLIENT_ID") raw.oidc_client_id
          ++ (required (txt "OIDC_CLIENT_SECRET") raw.oidc_client_secret
              ++ (required (txt "OIDC_REDIRECT_URL") raw.oidc_redirect_url
                  ++ (url_if_given (txt "OIDC_ISSUER_URL") raw.oidc_issuer_url
                      ++ (url_if_given (txt "OIDC_REDIRECT_URL") raw.oidc_redirect_url
                          ++ when
                              (nothing_in (list raw.auth_allowed_subjects)
                                && nothing_in (list raw.auth_allowed_groups))
                              nobody_allowed)))))

  unfoldable pub auth_problems : AuthMode → RawConfig → List Problem
  auth_problems oidc raw = oidc_problems raw ++ key_problems oidc (trim raw.session_key)
  auth_problems disabled raw = key_problems disabled (trim raw.session_key)

  -- The entries that parse, and the problems of those that do not, each in their order.
  unfoldable pub proxy_problems : List Text → List Problem
  proxy_problems [] = []
  proxy_problems (e ∷ es) = report (parse lib.parse_ip e) (proxy_problems es)

  unfoldable pub proxies : List Text → List Cidr
  proxies [] = []
  proxies (e ∷ es) = accept (parse lib.parse_ip e) (proxies es)

  unfoldable pub problems : RawConfig → ℕ → List Problem
  problems raw retention =
      database_problems raw
      ++ (bind_problems raw
          ++ (directory_problems raw
              ++ (mode_problems raw
                  ++ (auth_problems (mode_of raw) raw
                      ++ (limit_problems raw
                          ++ (refusal (check_retention lib.from_std retention default_schedule)
                              ++ proxy_problems (list raw.trusted_proxies)))))))

  unfoldable pub config_of : RawConfig → ℕ → SocketAddr → Config
  config_of raw retention addr = record {
    database_url = raw.database_url;
    bind_addr = addr;
    library_root = raw.library_root;
    data_dir = raw.data_dir;
    auth = record {
      access = record {
        mode = mode_of raw;
        allowed_subjects = list raw.auth_allowed_subjects;
        allowed_groups = list raw.auth_allowed_groups;
      };
      issuer_url = raw.oidc_issuer_url;
      client_id = raw.oidc_client_id;
      client_secret = raw.oidc_client_secret;
      redirect_url = raw.oidc_redirect_url;
      session_key =
          if text_eq (trim raw.session_key) []
          then ephemeral_session_key lib.simple_uuid
          else trim raw.session_key;
      session_ttl = raw.session_ttl_hours * 3600 * second;
    };
    jobs = record {
      workers = raw.job_workers;
      poll_interval = raw.job_poll_interval_ms * 1000;
      source_max_concurrency = raw.source_max_concurrency;
      stale_lock = raw.job_stale_lock_secs * second;
      retention = retention;
      drain_timeout = raw.job_drain_timeout_secs * second;
    };
    sources = record {
      flaresolverr_url = given raw.flaresolverr_url;
      wasm_max_memory_bytes = raw.wasm_max_memory_mb * 1024 * 1024;
      wasm_timeout = raw.wasm_epoch_timeout_ms * 1000;
    };
    telemetry = record {
      service_name = raw.otel_service_name;
      service_version = lib.version;
      ingest_enabled = raw.telemetry_ingest_enabled;
      ingest_max_body_bytes = raw.telemetry_ingest_max_body_bytes;
      db_slow_statement = raw.db_slow_statement_ms * 1000;
    };
    trusted_proxies = proxies (list raw.trusted_proxies);
    sse_retry = raw.sse_retry_ms * 1000;
  }

  -- `bind_addr.expect("checked above")`
  abbrev pub build : RawConfig → ℕ → Option SocketAddr → Outcome
  build raw retention none = panics
  build raw retention (some addr) = valid (config_of raw retention addr)

  abbrev pub settle : RawConfig → ℕ → List Problem → Outcome
  settle raw retention [] = build raw retention (lib.parse_socket raw.bind_addr)
  settle raw retention (p ∷ ps) = invalid (p ∷ ps)

  unfoldable pub validate : RawConfig → Outcome
  validate raw = elim (lib.days (pos_part raw.job_retention_days)) [
    | none ↦ panics
    | some retention ↦ settle raw retention (problems raw retention)
  ]
