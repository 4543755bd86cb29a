-- ===== src/Api/Problem/Reports.antt =====
-- What a response says of a failure, and what it keeps to itself.
use nyuka.Common.{Bool, true, false, not, [], ◌≡◌, refl, is_some}
use nyuka.Domain.Errors.{
  DomainError, is_retryable, not_found, conflict, invalid, source, unsupported_capability, storage,
  insufficient_storage, internal,
}
use nyuka.Api.Problem.{new, status_code, is_server_fault, problem_of, into_response}

-- A failure without the text that is meant for the log alone.
abbrev pub redacted : DomainError → DomainError
redacted (storage m) = storage []
redacted (internal m) = storage []
redacted e = e

-- The caller is at fault.
abbrev pub is_callers : DomainError → Bool
is_callers not_found = true
is_callers (conflict m) = true
is_callers (invalid m) = true
is_callers _ = false

-- The response's status line is the status of its body, and it is a server fault's exactly where
-- the caller is not at fault; a retry is suggested only where the failure is retryable; and the
-- response does not depend on the text of a storage or internal failure.
pub reported :
    (e : DomainError)
    → ((into_response (problem_of e)).status ≡ (problem_of e).status)
      × (is_server_fault (problem_of e) ≡ not (is_callers e))
      × (is_some (into_response (problem_of e)).retry_after_header ≡ true → is_retryable e ≡ true)
      × (into_response (problem_of e) ≡ into_response (problem_of (redacted e)))
unfolding problem_of into_response status_code is_server_fault is_retryable new
reported not_found = (refl, refl, λ h. cc, refl)
reported (conflict m) = (refl, refl, λ h. cc, refl)
reported (invalid m) = (refl, refl, λ h. cc, refl)
reported (source m true) = (refl, refl, λ h. refl, refl)
reported (source m false) = (refl, refl, λ h. cc, refl)
reported (unsupported_capability m) = (refl, refl, λ h. cc, refl)
reported insufficient_storage = (refl, refl, λ h. cc, refl)
reported (storage m) = (refl, refl, λ h. refl, refl)
reported (internal m) = (refl, refl, λ h. cc, refl)
