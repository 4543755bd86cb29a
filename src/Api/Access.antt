-- ===== src/Api/Access.antt =====
-- crates/api/src/config.rs and csrf.rs: who may sign in, and which requests must carry the header.
pub mod Permitted
use nyuka.Common.{
  ℕ, ◌+◌, Bool, true, false, not, ◌&&◌, ◌||◌, Option, none, some, List, [], ◌∷◌, any, map, within,
  if◌then◌else◌, Text, txt, text_eq,
}
use nyuka.Common.Trim.{trim}
use nyuka.Api.Problem.{Response, into_response, csrf_required, with_instance}

pub data AuthMode : Type 0 where
  oidc disabled : AuthMode

abbrev pub to_ascii_lowercase : Text → Text
to_ascii_lowercase = map (λ c. if within b'A' b'Z' c then c + 32 else c)

unfoldable pub parse_mode : Text → Option AuthMode
parse_mode value =
    let v = to_ascii_lowercase (trim value) in
    if text_eq v (txt "oidc")
    then some oidc
    else if text_eq v (txt "none")
    then some disabled
    else none

unfoldable pub is_disabled : AuthMode → Bool
is_disabled oidc = false
is_disabled disabled = true

-- What `permits` reads of the settings.
pub record AuthConfig : Type 0 where
  pub mode : AuthMode
  pub allowed_subjects : List Text
  pub allowed_groups : List Text

unfoldable pub permits : AuthConfig → Text → List Text → Bool
permits config subject groups =
    if is_disabled config.mode
    then true
    else any (λ s. text_eq s subject) config.allowed_subjects
      || any (λ g. any (λ a. text_eq a g) config.allowed_groups) groups

-- The names of HTTP methods are case-sensitive.
unfoldable pub requires_csrf_header : Text → Bool
requires_csrf_header method = not (
    text_eq method (txt "GET")
    || text_eq method (txt "HEAD")
    || text_eq method (txt "OPTIONS")
    || text_eq method (txt "TRACE"))

-- Header names are in lower case.
pub record HttpRequest : Type 0 where
  pub method : Text
  pub path : Text
  pub header_names : List Text

-- `next` is the rest of the service.
unfoldable pub require_csrf_header : (HttpRequest → Response) → HttpRequest → Response
require_csrf_header next request =
    if requires_csrf_header request.method
      && not (any (text_eq (txt "x-requested-with")) request.header_names)
    then into_response (with_instance (csrf_required (txt "x-requested-with")) request.path)
    else next request
