-- ===== src/Api/Problem.antt =====
-- crates/api/src/error.rs: problem+json, and the failure of the domain that each one reports.
pub mod Reports
use nyuka.Common.{
  ℕ, Bool, true, false, Option, none, some, List, [], ◌∷◌, ◌++◌, leb, within, if◌then◌else◌, Text,
  txt,
}
use nyuka.Common.Decimal.{decimal}
use nyuka.Domain.Errors.{
  DomainError, not_found, conflict, invalid, source, unsupported_capability, storage,
  insufficient_storage, internal,
}

pub record FieldError : Type 0 where
  pub field : Text
  pub message : Text

pub record Problem : Type 0 where
  pub kind : Text
  pub title : Text
  pub status : ℕ
  pub detail : Option Text
  pub instance_path : Option Text
  pub errors : List FieldError
  pub trace_id : Option Text
  pub retry_after : Option ℕ

unfoldable pub new : ℕ → Text → Text → Problem
new status kind title = record {
  kind = txt "/problems/" ++ kind;
  title = title;
  status = status;
  detail = none;
  instance_path = none;
  errors = [];
  trace_id = none;
  retry_after = none;
}

abbrev pub with_detail : Problem → Text → Problem
with_detail p d = record p { detail = some d }

abbrev pub with_instance : Problem → Text → Problem
with_instance p i = record p { instance_path = some i }

abbrev pub with_errors : Problem → List FieldError → Problem
with_errors p es = record p { errors = es }

abbrev pub with_trace_id : Problem → Text → Problem
with_trace_id p t = record p { trace_id = some t }

abbrev pub with_retry_after : Problem → ℕ → Problem
with_retry_after p seconds = record p { retry_after = some seconds }

-- `StatusCode::from_u16` accepts 100 to 999.
unfoldable pub status_code : Problem → ℕ
status_code p = if within 100 999 p.status then p.status else 500

unfoldable pub is_server_fault : Problem → Bool
is_server_fault p = leb 500 p.status

abbrev pub not_found_problem : Text → Problem
not_found_problem what =
    with_detail (new 404 (txt "not-found") (txt "Not found"))
      (txt "No " ++ what ++ txt " matches that identifier.")

abbrev pub no_such_endpoint : Problem
no_such_endpoint =
    with_detail (new 404 (txt "no-such-endpoint") (txt "No such endpoint"))
      (txt "This URL is not part of the API.")

abbrev pub invalid_problem : Text → Problem
invalid_problem = with_detail (new 400 (txt "invalid-request") (txt "Invalid request"))

abbrev pub conflict_problem : Text → Problem
conflict_problem = with_detail (new 409 (txt "conflict") (txt "Conflict"))

abbrev pub unauthenticated : Problem
unauthenticated =
    with_detail (new 401 (txt "unauthenticated") (txt "Authentication required"))
      (txt "Sign in and try again.")

abbrev pub forbidden : Problem
forbidden =
    with_detail (new 403 (txt "forbidden") (txt "Forbidden"))
      (txt "This account is not permitted to use this server.")

abbrev pub csrf_required : Text → Problem
csrf_required header =
    with_detail (new 403 (txt "csrf-required") (txt "Missing CSRF header"))
      (txt "State-changing requests must carry the " ++ header ++ txt " header.")

abbrev pub too_many_requests : ℕ → Problem
too_many_requests retry_after =
    with_retry_after
      (with_detail (new 429 (txt "rate-limited") (txt "Too many requests"))
        (txt "Slow down and retry after the interval given."))
      retry_after

abbrev pub payload_too_large : ℕ → Problem
payload_too_large limit =
    with_detail (new 413 (txt "payload-too-large") (txt "Request body too large"))
      (txt "The limit is " ++ decimal limit ++ txt " bytes.")

abbrev pub internal_problem : Problem
internal_problem =
    with_detail (new 500 (txt "internal") (txt "Internal server error"))
      (txt "Something went wrong on the server. The failure has been logged.")

-- `impl From<DomainError> for Problem`
unfoldable pub problem_of : DomainError → Problem
unfolding new
problem_of not_found = not_found_problem (txt "resource")
problem_of (conflict detail) = conflict_problem detail
problem_of (invalid detail) = invalid_problem detail
problem_of (source message retryable) =
    let problem =
      with_detail (new 502 (txt "source-unavailable") (txt "The source could not be reached"))
        message in
    if retryable then with_retry_after problem 60 else problem
problem_of (unsupported_capability capability) =
    with_detail (new 501 (txt "unsupported-capability") (txt "Unsupported source capability"))
      (txt "This build does not provide " ++ capability ++ txt ", which the source requires.")
problem_of insufficient_storage =
    with_detail (new 507 (txt "insufficient-storage") (txt "The library has no space left"))
      (txt "Free space on the library volume and retry.")
problem_of (storage m) = internal_problem
problem_of (internal m) = internal_problem

-- What the response is built from: the status line, two headers, and the problem that is the body.
pub record Response : Type 0 where
  pub status : ℕ
  pub content_type : Text
  pub retry_after_header : Option Text
  pub body : Problem

unfoldable pub into_response : Problem → Response
into_response p = record {
  status = status_code p;
  content_type = txt "application/problem+json";
  retry_after_header = elim p.retry_after [ none ↦ none | some seconds ↦ some (decimal seconds) ];
  body = p;
}
