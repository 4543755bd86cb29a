-- ===== src/Runtime/Package.antt =====
-- crates/aidoku-runtime/src/package.rs: loading a package, and the check of what it imports.
pub mod Admission
use nyuka.Common.{
  ℕ, ℤ, Bool, true, false, not, ◌&&◌, ◌||◌, Option, none, some, List, [], ◌∷◌, ◌++◌, any, keep,
  Text, txt, text_eq, if◌then◌else◌,
}
use nyuka.Runtime.Provided.{provided}
use nyuka.Domain.Enums.{Capability, net, html, defaults, std, js_context, js_web_view, canvas}
use nyuka.Domain.Payload.{Json}

-- `PartialEq` of the enum.
abbrev pub same_capability : Capability → Capability → Bool
same_capability net net = true
same_capability html html = true
same_capability defaults defaults = true
same_capability std std = true
same_capability js_context js_context = true
same_capability js_web_view js_web_view = true
same_capability canvas canvas = true
same_capability _ _ = false

abbrev pub contains_capability : List Capability → Capability → Bool
contains_capability cs c = any (same_capability c) cs

-- `js` is the build's feature of that name.
unfoldable pub supported_capabilities : Bool → List Capability
supported_capabilities js =
    (net ∷ html ∷ defaults ∷ std ∷ []) ++ (if js then js_context ∷ [] else [])

unfoldable pub starts_with : Text → Text → Bool
starts_with [] t = true
starts_with (p ∷ ps) [] = false
starts_with (p ∷ ps) (c ∷ cs) = text_eq (p ∷ []) (c ∷ []) && starts_with ps cs

unfoldable pub capability_for_import : Text → Text → Option Capability
capability_for_import m name =
    if text_eq m (txt "net") && text_eq name (txt "get_image")
    then some canvas
    else if text_eq m (txt "net")
    then some net
    else if text_eq m (txt "html")
    then some html
    else if text_eq m (txt "defaults")
    then some defaults
    else if text_eq m (txt "std") || text_eq m (txt "env")
    then some std
    else if text_eq m (txt "canvas")
    then some canvas
    else if text_eq m (txt "js") && starts_with (txt "webview_") name
    then some js_web_view
    else if text_eq m (txt "js")
    then some js_context
    else none

abbrev pub Import : Type 0
Import = Text × Text

-- `if !out.contains(&cap) { out.push(cap) }`
unfoldable pub push_new : List Capability → Option Capability → List Capability
push_new out none = out
push_new out (some c) = if contains_capability out c then out else out ++ (c ∷ [])

unfoldable pub required_onto : List Capability → List Import → List Capability
required_onto out [] = out
required_onto out (i ∷ is) = required_onto (push_new out (capability_for_import i.0 i.1)) is

unfoldable pub required_capabilities : List Import → List Capability
required_capabilities imports = required_onto [] imports

abbrev pub same_import : Import → Import → Bool
same_import i j = text_eq i.0 j.0 && text_eq i.1 j.1

abbrev pub is_provided : Import → Bool
is_provided i = any (same_import i) provided

unfoldable pub is_supported : Bool → Option Capability → Bool
is_supported js none = false
is_supported js (some c) = contains_capability (supported_capabilities js) c

unfoldable pub qualified : Import → Text
qualified i = i.0 ++ txt "::" ++ i.1

-- One round of the loop: its two `continue`s, and the push.
unfoldable pub push_unprovided : Bool → List Text → Import → List Text
push_unprovided js out i =
    if not (is_supported js (capability_for_import i.0 i.1))
    then out
    else if is_provided i
    then out
    else if any (text_eq (qualified i)) out
    then out
    else out ++ (qualified i ∷ [])

unfoldable pub unprovided_onto : Bool → List Text → List Import → List Text
unprovided_onto js out [] = out
unprovided_onto js out (i ∷ is) = unprovided_onto js (push_unprovided js out i) is

unfoldable pub unprovided_imports : Bool → List Import → List Text
unprovided_imports js imports = unprovided_onto js [] imports

pub record Info : Type 0 where
  pub id : Text
  pub name : Text
  pub version : ℕ
  pub url : Option Text
  pub languages : List Text
  pub content_rating : ℕ
  pub min_app_version : Option Text

pub record Listing : Type 0 where
  pub id : Text
  pub kind : ℤ

pub record Manifest : Type 0 where
  pub info : Info
  pub listings : List Listing

pub data LoadError : Type 0 where
  archive : Text → LoadError
  missing : Text → LoadError
  manifest : Text → LoadError
  unreadable : Text → LoadError
  unsupported_capabilities : Text → List Capability → LoadError
  unsupported_imports : Text → List Text → LoadError

pub data Fallible (E A : Type 0) : Type 0 where
  ok : A → Fallible E A
  err : E → Fallible E A

-- What the archive reader finds under the four names: an entry, or a message where it cannot be
-- read or parsed.
pub record Archive : Type 0 where
  pub source_json : Option (Fallible Text Manifest)
  pub main_wasm : Option (Fallible Text (List ℕ))
  pub filters_json : Option Json
  pub settings_json : Option Json

pub record Package : Type 0 where
  pub manifest : Manifest
  pub wasm : List ℕ
  pub filters : Option Json
  pub settings : Option Json
  pub required : List Capability

unfoldable pub admit : Bool → Archive → Manifest → List ℕ → List Import → Fallible LoadError Package
admit js zip found wasm imports =
    let required = required_capabilities imports in
    let unknown = unprovided_imports js imports in
    elim (keep (λ c. not (contains_capability (supported_capabilities js) c)) required) [
      | c ∷ cs ↦ err (unsupported_capabilities found.info.id (c ∷ cs))
      | [] ↦ (elim unknown [
        | n ∷ ns ↦ err (unsupported_imports found.info.id (n ∷ ns))
        | [] ↦ ok (record {
          manifest = found;
          wasm = wasm;
          filters = zip.filters_json;
          settings = zip.settings_json;
          required = required;
        })
      ])
    ]

-- The archive reader, and the reader of a module's imports.
module _ (open_archive : List ℕ → Fallible Text Archive)
    (module_imports : List ℕ → Fallible Text (List Import)) where
  unfoldable pub load_module : Bool → Archive → Manifest → List ℕ → Fallible LoadError Package
  load_module js zip found wasm = elim (module_imports wasm) [
    | err e ↦ err (unreadable e)
    | ok imports ↦ admit js zip found wasm imports
  ]

  unfoldable pub load_wasm : Bool → Archive → Manifest → Fallible LoadError Package
  load_wasm js zip found = elim zip.main_wasm [
    | none ↦ err (missing (txt "Payload/main.wasm"))
    | some entry ↦ (elim entry [
      | err e ↦ err (unreadable e)
      | ok wasm ↦ load_module js zip found wasm
    ])
  ]

  unfoldable pub load_archive : Bool → Archive → Fallible LoadError Package
  load_archive js zip = elim zip.source_json [
    | none ↦ err (missing (txt "Payload/source.json"))
    | some entry ↦ (elim entry [
      | err e ↦ err (LoadError.manifest e)
      | ok found ↦ load_wasm js zip found
    ])
  ]

  unfoldable pub load : Bool → List ℕ → Fallible LoadError Package
  load js bytes = elim (open_archive bytes) [
    | err e ↦ err (archive e)
    | ok zip ↦ load_archive js zip
  ]
