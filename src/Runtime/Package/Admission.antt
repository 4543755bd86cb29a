-- ===== src/Runtime/Package/Admission.antt =====
-- What the imports of an accepted package are.
use nyuka.Common.{
  ℕ, ◌≤◌, ◌<◌, Bool, true, not, Option, none, some, List, [], ◌∷◌, ◌++◌, any, keep, length,
  length-append, All, Text, text_eq, ◌≡◌, ◌⊎◌, inl, inr, refl, sym, ap, ◌∙◌, arith, Bool-cases,
  Option-cases,
}
use nyuka.Domain.Enums.{Capability, net, html, defaults, std, js_context, js_web_view, canvas}
use nyuka.Runtime.Package.{
  same_capability, contains_capability, supported_capabilities, capability_for_import, Import,
  push_new, required_onto, required_capabilities, is_provided, is_supported, qualified,
  push_unprovided, unprovided_onto, unprovided_imports, Manifest, LoadError, Fallible, ok, err,
  Archive, Package, admit, load_module, load_wasm, load_archive, load,
}

same_capability_refl : (c : Capability) → same_capability c c ≡ true
same_capability_refl net = refl
same_capability_refl html = refl
same_capability_refl defaults = refl
same_capability_refl std = refl
same_capability_refl js_context = refl
same_capability_refl js_web_view = refl
same_capability_refl canvas = refl

same_capability→eq : (c d : Capability) → same_capability c d ≡ true → c ≡ d
same_capability→eq net net h = refl
same_capability→eq html html h = refl
same_capability→eq defaults defaults h = refl
same_capability→eq std std h = refl
same_capability→eq js_context js_context h = refl
same_capability→eq js_web_view js_web_view h = refl
same_capability→eq canvas canvas h = refl
same_capability→eq _ _ h = ground arith

any-append_left :
    (p : Capability → Bool) (xs ys : List Capability) → any p xs ≡ true → any p (xs ++ ys) ≡ true
any-append_left p [] ys h = ground arith
any-append_left p (x ∷ xs) ys h = ground (arith, any-append_left p xs ys)

any-append_last :
    (p : Capability → Bool) (xs : List Capability) (y : Capability)
    → p y ≡ true
    → any p (xs ++ (y ∷ [])) ≡ true
any-append_last p [] y h = ground arith
any-append_last p (x ∷ xs) y h = ground (arith, any-append_last p xs y)

pushed :
    (out : List Capability) (c : Capability) → contains_capability (push_new out (some c)) c ≡ true
unfolding push_new
pushed out c = elim (Bool-cases (contains_capability out c)) [
  | inl e ↦ rw (push_new, e) e
  | inr e ↦ rw (push_new, e) (any-append_last (same_capability c) out c (same_capability_refl c))
]

kept_by_push :
    (out : List Capability) (o : Option Capability) (c : Capability)
    → contains_capability out c ≡ true
    → contains_capability (push_new out o) c ≡ true
unfolding push_new
kept_by_push out none c h = h
kept_by_push out (some d) c h = elim (Bool-cases (contains_capability out d)) [
  | inl e ↦ rw (push_new, e) h
  | inr e ↦ rw (push_new, e) (any-append_left (same_capability c) out (d ∷ []) h)
]

still_required :
    (out : List Capability) (is : List Import) (c : Capability)
    → contains_capability out c ≡ true
    → contains_capability (required_onto out is) c ≡ true
unfolding required_onto
still_required out [] c h = h
still_required out (i ∷ is) c h =
    still_required (push_new out (capability_for_import i.0 i.1)) is c (kept_by_push out _ c h)

-- The capability of an import, where it has one, is among those.
abbrev pub Covers : List Capability → Import → Type 0
Covers cs i =
    (capability_for_import i.0 i.1 ≡ none)
    ⊎ ((c : Capability) × (capability_for_import i.0 i.1 ≡ some c)
        × (contains_capability cs c ≡ true))

covered : (out : List Capability) (is : List Import) → All (Covers (required_onto out is)) is
unfolding required_onto
covered out [] = tt
covered out (i ∷ is) = elim (Option-cases (capability_for_import i.0 i.1)) [
  | inl e ↦ (inl e, covered (push_new out (capability_for_import i.0 i.1)) is)
  | inr (c, e) ↦ (
    inr (c, e, still_required _ is c (rw e (pushed out c))),
    covered (push_new out (capability_for_import i.0 i.1)) is,
  )
]

nothing_kept :
    (p : Capability → Bool) (cs : List Capability)
    → keep (λ c. not (p c)) cs ≡ []
    → All (λ c. p c ≡ true) cs
nothing_kept p [] h = tt
nothing_kept p (c ∷ cs) h = elim (Bool-cases (p c)) [
  | inl e ↦ (e, nothing_kept p cs (rw e at h))
  | inr e ↦ absurd (cons-ne (rw e at h))
]
  where
    cons-ne : {x : Capability} {xs : List Capability} → x ∷ xs ≡ [] → ⊥
    cons-ne e = cc

supported_member :
    (p : Capability → Bool) (cs : List Capability) (c : Capability)
    → All (λ d. p d ≡ true) cs
    → contains_capability cs c ≡ true
    → p c ≡ true
supported_member p [] c h k = ground arith
supported_member p (d ∷ cs) c h k = elim (Bool-cases (same_capability c d)) [
  | inl e ↦ rw (same_capability→eq c d e) h.0
  | inr e ↦ supported_member p cs c h.1 (rw e at k)
]

longer : (js : Bool) (out : List Text) (i : Import) → length out ≤ length (push_unprovided js out i)
unfolding push_unprovided
longer js out i = ground (arith, length-append out (qualified i ∷ []))

still_unprovided :
    (js : Bool) (out : List Text) (is : List Import)
    → length out ≤ length (unprovided_onto js out is)
unfolding unprovided_onto
still_unprovided js out [] = omega arith
still_unprovided js out (i ∷ is) =
    omega (arith, longer js out i, still_unprovided js (push_unprovided js out i) is)

-- A supported import is provided.
abbrev pub Provides : Bool → Import → Type 0
Provides js i = is_supported js (capability_for_import i.0 i.1) ≡ true → is_provided i ≡ true

found-nonempty : (t : Text) (out : List Text) → any (text_eq t) out ≡ true → 0 < length out
found-nonempty t [] h = ground arith
found-nonempty t (x ∷ out) h = omega arith

push_lem :
    (js : Bool) (out : List Text) (i : Import)
    → length (push_unprovided js out i) ≡ 0
    → Provides js i
unfolding push_unprovided
push_lem js out i h k = elim (Bool-cases (is_provided i)) [
  | inl e ↦ e
  | inr e ↦ elim (Bool-cases (any (text_eq (qualified i)) out)) [
    | inl f ↦
        let z : length out ≡ 0 = rw (push_unprovided, k, e, f) at h in
        absurd (omega (arith, found-nonempty (qualified i) out f))
    | inr f ↦
        let z : length (out ++ (qualified i ∷ [])) ≡ 0 = rw (push_unprovided, k, e, f) at h in
        absurd (omega (arith, length-append out (qualified i ∷ [])))
  ]
]

provides :
    (js : Bool) (out : List Text) (is : List Import)
    → length (unprovided_onto js out is) ≡ 0
    → All (Provides js) is
unfolding unprovided_onto
provides js out [] h = tt
provides js out (i ∷ is) h = (
  push_lem js out i (omega (arith, still_unprovided js (push_unprovided js out i) is)),
  provides js (push_unprovided js out i) is h,
)

-- What holds of each import: it belongs to no known module, or its capability is supported and the
-- host defines it.
abbrev pub IsRunnable : Bool → Import → Type 0
IsRunnable js i =
    (capability_for_import i.0 i.1 ≡ none)
    ⊎ ((is_supported js (capability_for_import i.0 i.1) ≡ true) × (is_provided i ≡ true))

runnable :
    (js : Bool) (cs : List Capability) (is : List Import)
    → All (λ c. contains_capability (supported_capabilities js) c ≡ true) cs
    → All (Covers cs) is
    → All (Provides js) is
    → All (IsRunnable js) is
unfolding is_supported
runnable js cs [] h k l = tt
runnable js cs (i ∷ is) h k l = (
  elim k.0 [
    | inl e ↦ inl e
    | inr (c, e, has) ↦
        let ok_c = supported_member (contains_capability (supported_capabilities js)) cs c h has in
        let s : is_supported js (capability_for_import i.0 i.1) ≡ true = rw e ok_c in inr (s, l.0 s)
  ],
  runnable js cs is h k.1 l.1,
)

ok-ne-err : {E A : Type 0} {e : E} {a : A} → err e ≡ ok a → ⊥
ok-ne-err q = cc

abbrev Admitted : Bool → Package → List ℕ → List Import → Type 0
Admitted js p wasm imports =
    (p.wasm ≡ wasm) × (p.required ≡ required_capabilities imports) × All (IsRunnable js) imports

ok-injective : {p q : Package} → ◌≡◌ {A = Fallible LoadError Package} (ok p) (ok q) → p ≡ q
ok-injective h = cc

Fallible-cases :
    {E A : Type 0} (r : Fallible E A) → ((a : A) × (r ≡ ok a)) ⊎ ((e : E) × (r ≡ err e))
Fallible-cases (ok a) = inl (a, refl)
Fallible-cases (err e) = inr (e, refl)

List-cases : {A : Type 0} (xs : List A) → (xs ≡ []) ⊎ ((y : A) × (ys : List A) × (xs ≡ y ∷ ys))
List-cases [] = inl refl
List-cases (y ∷ ys) = inr (y, ys, refl)

admit_lem :
    (js : Bool) (zip : Archive) (found : Manifest) (wasm : List ℕ) (imports : List Import)
    (p : Package)
    → admit js zip found wasm imports ≡ ok p
    → Admitted js p wasm imports
unfolding admit required_capabilities unprovided_imports
admit_lem js zip found wasm imports p h =
    elim (List-cases (
      keep (λ c. not (contains_capability (supported_capabilities js) c))
        (required_capabilities imports))) [
          | inr (c, cs, e) ↦ absurd (ok-ne-err (rw (admit, e) at h))
          | inl e ↦ elim (List-cases (unprovided_imports js imports)) [
            | inr (n, ns, f) ↦ absurd (ok-ne-err (rw (admit, e, f) at h))
            | inl f ↦
                let made = rw (admit, e, f) at h in
                (
                  sym (ap (λ q. q.wasm) (ok-injective made)),
                  sym (ap (λ q. q.required) (ok-injective made)),
                  runnable js (required_capabilities imports) imports
                      (nothing_kept (contains_capability (supported_capabilities js)) _ e)
                      (covered [] imports) (provides js [] imports (ap length f)),
                )
          ]
        ]

module _ (open_archive : List ℕ → Fallible Text Archive)
    (module_imports : List ℕ → Fallible Text (List Import)) where
  Loaded : Bool → Archive → Package → Type 0
  Loaded js zip p =
      (imports : List Import) × (zip.main_wasm ≡ some (ok p.wasm))
      × (module_imports p.wasm ≡ ok imports)
      × (p.required ≡ required_capabilities imports)
      × All (IsRunnable js) imports

  in_module :
      (js : Bool) (zip : Archive) (found : Manifest) (wasm : List ℕ) (p : Package)
      → load_module open_archive module_imports js zip found wasm ≡ ok p
      → zip.main_wasm ≡ some (ok wasm)
      → Loaded js zip p
  unfolding load_module Loaded
  in_module js zip found wasm p h k = elim (Fallible-cases (module_imports wasm)) [
    | inr (e, q) ↦ absurd (ok-ne-err (rw (load_module, q) at h))
    | inl (imports, q) ↦
        let (w, r, all) = admit_lem js zip found wasm imports p (rw (load_module, q) at h) in
        (imports, k ∙ ap (λ b. some (ok b)) (sym w), ap module_imports w ∙ q, r, all)
  ]

  archived :
      (js : Bool) (zip : Archive) (p : Package)
      → load_archive open_archive module_imports js zip ≡ ok p
      → Loaded js zip p
  unfolding load_archive load_wasm
  archived js zip p h = elim (Option-cases zip.source_json) [
    | inl e ↦ absurd (ok-ne-err (rw (load_archive, e) at h))
    | inr (entry, e) ↦ elim (Fallible-cases entry) [
      | inr (m, f) ↦ absurd (ok-ne-err (rw (load_archive, e, f) at h))
      | inl (found, f) ↦ elim (Option-cases zip.main_wasm) [
        | inl g ↦ absurd (ok-ne-err (rw (load_archive, e, f, load_wasm, g) at h))
        | inr (file, g) ↦ elim (Fallible-cases file) [
          | inr (m, i) ↦ absurd (ok-ne-err (rw (load_archive, e, f, load_wasm, g, i) at h))
          | inl (wasm, i) ↦
              in_module js zip found wasm p (rw (load_archive, e, f, load_wasm, g, i) at h)
                (g ∙ ap some i)
        ]
      ]
    ]
  ]

  -- Where a package loads, its module was in the archive under the right name, it requires the
  -- capabilities of its module's imports, and each import either belongs to no known module or is
  -- defined by the host under a supported capability.
  pub load_lem :
      (js : Bool) (bytes : List ℕ) (p : Package)
      → load open_archive module_imports js bytes ≡ ok p
      → (zip : Archive) × (imports : List Import) × (open_archive bytes ≡ ok zip)
        × (zip.main_wasm ≡ some (ok p.wasm))
        × (module_imports p.wasm ≡ ok imports)
        × (p.required ≡ required_capabilities imports)
        × All (IsRunnable js) imports
  unfolding load Loaded
  load_lem js bytes p h = elim (Fallible-cases (open_archive bytes)) [
    | inr (e, q) ↦ absurd (ok-ne-err (rw (load, q) at h))
    | inl (zip, q) ↦
        let (imports, w, m, r, all) = archived js zip p (rw (load, q) at h) in
        (zip, imports, q, w, m, r, all)
  ]
