-- ===== src/Net/Egress/Vetted.antt =====
-- What passes the policy, and that both places that apply it agree.
use nyuka.Common.{
  ℕ, length, ◌↔◌, ◌⊎◌, sym, ◌<◌, ◌≡◌, inl, inr, refl, arith, Bool, true, false, ◌||◌, Option, none,
  some, List, [], ◌∷◌, All, Text, txt, text_eq, text_eq_iff, unwrap_or, Bool-cases, Option-cases,
}
use nyuka.Net.Address.{IpAddr, SocketAddr}
use nyuka.Net.Egress.{
  Blocked, Denial, ok, denied, Url, classify, first_blocked, vet_resolved, vet_literal, vet_host,
  vet_named, vet, vetted,
}

-- Every address passes.
abbrev pub Passes : SocketAddr → Type 0
Passes addr = classify addr.ip ≡ none

passing : (addrs : List SocketAddr) → first_blocked addrs ≡ none → All Passes addrs
unfolding first_blocked
passing [] h = tt
passing (a ∷ rest) h = elim (Option-cases (classify a.ip)) [
  | inl e ↦ (e, passing rest (rw (first_blocked, e) at h))
  | inr (r, e) ↦ absurd (some-ne (rw (first_blocked, e) at h))
]
  where
    some-ne : {r : Blocked} → some r ≡ none → ⊥
    some-ne e = cc

ok-ne-denied : {addrs : List SocketAddr} {d : Denial} → denied d ≡ ok addrs → ⊥
ok-ne-denied e = cc

unblocked : (addrs : List SocketAddr) → All Passes addrs → first_blocked addrs ≡ none
unfolding first_blocked
unblocked [] h = refl
unblocked (a ∷ rest) h = rw (first_blocked, h.0) (unblocked rest h.1)

-- What the answer of the resolver must be.
abbrev pub IsAnswer : Option (List SocketAddr) → List SocketAddr → Type 0
IsAnswer found addrs = (found ≡ some addrs) × (0 < length addrs) × All Passes addrs

resolved :
    (host : Text) (found : Option (List SocketAddr)) (addrs : List SocketAddr)
    → vet_resolved host found ≡ ok addrs
    → IsAnswer found addrs
unfolding vet_resolved
resolved host none addrs h = absurd (ok-ne-denied h)
resolved host (some []) addrs h = absurd (ok-ne-denied h)
resolved host (some (a ∷ rest)) addrs h = elim (Option-cases (first_blocked (a ∷ rest))) [
  | inl e ↦
      let k : ok (a ∷ rest) ≡ ok addrs = rw (vet_resolved, e) at h in
      let q : a ∷ rest ≡ addrs = cc in rw (sym q) (refl, omega arith, passing (a ∷ rest) e)
  | inr (r, e) ↦ absurd (ok-ne-denied (rw (vet_resolved, e) at h))
]

answered :
    (host : Text) (found : Option (List SocketAddr)) (addrs : List SocketAddr)
    → IsAnswer found addrs
    → vet_resolved host found ≡ ok addrs
unfolding vet_resolved
answered host found [] h = absurd (omega (arith, h.1))
answered host found (a ∷ rest) h = rw (h.0, vet_resolved, unblocked (a ∷ rest) h.2) refl

-- The resolver approves exactly a name's full answer, where it has one, it is not empty, and the
-- policy lets every address of it through.
pub vetted_lem :
    (resolve : Text → ℕ → Option (List SocketAddr)) (host : Text) (port : ℕ)
    (addrs : List SocketAddr)
    → (vetted resolve host port ≡ ok addrs) ↔ IsAnswer (resolve host port) addrs
unfolding vetted
vetted_lem resolve host port addrs =
    (resolved host (resolve host port) addrs, answered host (resolve host port) addrs)

module _ (parse_ip : Text → Option IpAddr) (resolve : Text → ℕ → Option (List SocketAddr)) where
  -- The host is an address that passes, or a name whose full answer does.
  abbrev pub IsApproved : Text → ℕ → List SocketAddr → Type 0
  IsApproved host port addrs =
      ((ip : IpAddr) × (parse_ip host ≡ some ip)
        × (classify ip ≡ none)
        × (addrs ≡ record { ip = ip; port = port } ∷ []))
      ⊎ ((parse_ip host ≡ none) × IsAnswer (resolve host port) addrs)

  literal :
      (host : Text) (ip : IpAddr) (port : ℕ) (addrs : List SocketAddr)
      → (vet_literal host ip port ≡ ok addrs)
        ↔ ((classify ip ≡ none) × (addrs ≡ record { ip = ip; port = port } ∷ []))
  unfolding vet_literal
  literal host ip port addrs = elim (Option-cases (classify ip)) [
    | inl e ↦ rw (vet_literal, e) (λ h. (refl, cc), λ h. cc)
    | inr (r, e) ↦ rw (vet_literal, e) (λ h. absurd (ok-ne-denied h), λ h. cc)
  ]

  on_host :
      (host : Text) (port : ℕ) (addrs : List SocketAddr)
      → (vet_host parse_ip resolve host port ≡ ok addrs) ↔ IsApproved host port addrs
  unfolding vet_host
  on_host host port addrs = elim (Option-cases (parse_ip host)) [
    | inl e ↦
        rw (vet_host, e)
          (
            λ h. inr (refl, resolved host (resolve host port) addrs h),
            λ h. elim h [
              | inl (ip, q, k, l) ↦ cc
              | inr k ↦ answered host (resolve host port) addrs k.1
            ],
          )
    | inr (ip, e) ↦
        rw (vet_host, e)
          (
            λ h. let k = (literal host ip port addrs).0 h in inl (ip, refl, k.0, k.1),
            λ h. elim h [
              | inl (ip', q, k, l) ↦
                  (literal host ip port addrs).1 (let same : ip ≡ ip' = cc in rw same (k, l))
              | inr k ↦ cc
            ],
          )
  ]

  named :
      (host? : Option Text) (port : ℕ) (addrs : List SocketAddr)
      → (vet_named parse_ip resolve host? port ≡ ok addrs)
        ↔ ((host : Text) × (host? ≡ some host) × IsApproved host port addrs)
  unfolding vet_named
  named none port addrs = (λ h. absurd (ok-ne-denied h), λ h. absurd (cc_none h.1))
    where
      cc_none : {t : Text} → none ≡ some t → ⊥
      cc_none e = cc
  named (some host) port addrs = (
    λ h. (host, refl, (on_host host port addrs).0 h),
    λ (host', e, k). (on_host host port addrs).1 (let same : host ≡ host' = cc in rw same k),
  )

  -- The policy returns addresses exactly when the scheme is http or https, there is a host, and
  -- the host is an address the policy lets through, which is then the one returned, or a name
  -- whose full, nonempty answer passes.
  pub vet_lem :
      (url : Url) (addrs : List SocketAddr)
      → (vet parse_ip resolve url ≡ ok addrs) ↔ (
          ((url.scheme ≡ txt "http") ⊎ (url.scheme ≡ txt "https"))
          × ((host : Text) × (url.host ≡ some host)
              × IsApproved host (unwrap_or url.port 443) addrs))
  unfolding vet
  vet_lem url addrs =
      let h = text_eq_iff url.scheme (txt "http") in
      let s = text_eq_iff url.scheme (txt "https") in
      let n = named url.host (unwrap_or url.port 443) addrs in
      elim (Bool-cases (text_eq url.scheme (txt "http") || text_eq url.scheme (txt "https"))) [
        | inl e ↦ rw (vet, e) (λ k. (either _ _ h.0 s.0 e, n.0 k), λ k. n.1 k.1)
        | inr e ↦
            rw (vet, e) (λ k. absurd (ok-ne-denied k), λ k. absurd (neither _ _ h.1 s.1 e k.0))
      ]
    where
      either :
          {A B : Type 0} (p q : Bool) → (p ≡ true → A) → (q ≡ true → B) → (p || q) ≡ true → A ⊎ B
      either true q f g e = inl (f refl)
      either false q f g e = inr (g e)

      neither :
          {A B : Type 0} (p q : Bool)
          → (A → p ≡ true)
          → (B → q ≡ true)
          → (p || q) ≡ false
          → A ⊎ B
          → ⊥
      neither p q f g e (inl a) = let t = f a in cc
      neither p q f g e (inr b) = let t = g b in ground arith
