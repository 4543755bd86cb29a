-- ===== src/Tests/Runtime.antt =====
-- A package that loads, a handle that is destroyed, and a failure that is reported.
use nyuka.Common.{
  ℕ, true, false, not, none, some, List, [], ◌∷◌, ◌≡◌, refl, arith, Text, txt, text_eq, All,
  is_some,
}
use nyuka.Domain.Errors.{DomainError, is_retryable}
use nyuka.Domain.Enums.{std}
use nyuka.Runtime.Provided.{provided}
use nyuka.Runtime.Package.{
  Import, Manifest, Fallible, ok, Archive, Package, load, load_archive, load_wasm, load_module,
  admit, required_capabilities, required_onto, push_new, capability_for_import, unprovided_imports,
  unprovided_onto, push_unprovided, is_supported, supported_capabilities, qualified, starts_with,
}
use nyuka.Runtime.Package.Admission.{IsRunnable, load_lem}
use nyuka.Runtime.Table.{buffer, Table, get, remove}
use nyuka.Runtime.Table.Fresh.{Op, store, destroy, mutate, run_ops, destroyed_stays}
use nyuka.Api.Problem.{problem_of, into_response, is_server_fault}
use nyuka.Api.Problem.Reports.{is_callers, redacted, reported}

abbrev found : Manifest
found = record {
  info = record {
    id = txt "en.example";
    name = txt "Example";
    version = 1;
    url = none;
    languages = [];
    content_rating = 0;
    min_app_version = none;
  };
  listings = [];
}

abbrev zip : Archive
zip = record {
  source_json = some (ok found);
  main_wasm = some (ok (0 ∷ 97 ∷ []));
  filters_json = none;
  settings_json = none;
}

abbrev open_archive : List ℕ → Fallible Text Archive
open_archive bytes = ok zip

abbrev module_imports : List ℕ → Fallible Text (List Import)
module_imports wasm = ok ((txt "std", txt "destroy") ∷ [])

abbrev loaded : Package
loaded = record {
  manifest = found;
  wasm = 0 ∷ 97 ∷ [];
  filters = none;
  settings = none;
  required = std ∷ [];
}

loads : load open_archive module_imports false [] ≡ ok loaded
unfolding load load_archive load_wasm load_module admit required_capabilities required_onto push_new
    capability_for_import unprovided_imports unprovided_onto push_unprovided is_supported
    supported_capabilities text_eq provided qualified starts_with
loads = refl

load_lem_example :
    (archive : Archive) × (imports : List Import) × (open_archive [] ≡ ok archive)
    × (archive.main_wasm ≡ some (ok loaded.wasm))
    × (module_imports loaded.wasm ≡ ok imports)
    × (loaded.required ≡ required_capabilities imports)
    × All (IsRunnable false) imports
load_lem_example = load_lem open_archive module_imports false [] loaded loads

abbrev full : Table ℕ ℕ
full = record { entries = (1, buffer (7 ∷ [])) ∷ (2, buffer []) ∷ []; next = 2 }

abbrev later : List (Op ℕ ℕ)
later = store (buffer (5 ∷ [])) ∷ destroy 2 ∷ mutate 3 (λ r. r) ∷ []

destroyed_stays_example : get ℕ ℕ 1 (run_ops ℕ ℕ later (remove ℕ ℕ 1 full)) ≡ none
destroyed_stays_example = destroyed_stays ℕ ℕ later full 1 (omega arith) (omega arith)

abbrev unreachable : DomainError
unreachable = DomainError.storage (txt "postgres://u:p@db")

reported_example :
    ((into_response (problem_of unreachable)).status ≡ (problem_of unreachable).status)
    × (is_server_fault (problem_of unreachable) ≡ not (is_callers unreachable))
    × (is_some (into_response (problem_of unreachable)).retry_after_header ≡ true
        → is_retryable unreachable ≡ true)
    × (into_response (problem_of unreachable) ≡ into_response (problem_of (redacted unreachable)))
reported_example = reported unreachable
