-- ===== src/Net/ClientIp/Hops.antt =====
-- The hop that is believed: the rightmost that no trusted network contains.
use nyuka.Common.{
  true, false, Option, none, some, List, [], ◌∷◌, ◌++◌, Text, ◌≡◌, ◌⊎◌, inl, inr, refl, sym, ap,
  ◌∙◌, All, Option-cases, Bool-cases,
}
use nyuka.Common.Trim.{trim}
use nyuka.Net.Address.{IpAddr, SocketAddr, IsAddress}
use nyuka.Net.Cidr.{Cidr}
use nyuka.Net.Cidr.Prefix.{IsCidr, contains_lem}
use nyuka.Net.ClientIp.{
  is_trusted, split_commas, reverse_onto, first_untrusted, entries, read_forwarded, client_ip,
}

abbrev pub Trusted : List Cidr → IpAddr → Type 0
Trusted nets addr = is_trusted addr nets ≡ some true

abbrev pub Untrusted : List Cidr → IpAddr → Type 0
Untrusted nets addr = is_trusted addr nets ≡ some false

decided :
    (addr : IpAddr) (nets : List Cidr)
    → IsAddress addr
    → All IsCidr nets
    → Trusted nets addr ⊎ Untrusted nets addr
unfolding is_trusted
decided addr [] h k = inr refl
decided addr (net ∷ nets) h k =
    let (t, run, iff) = contains_lem net addr k.0 h in
    elim (Bool-cases t) [
      | inl e ↦ rw (is_trusted, run, e) (inl refl)
      | inr e ↦ rw (is_trusted, run, e) (decided addr nets h k.1)
    ]

module _ (nets : List Cidr) where
  -- The first untrusted of a list, with the trusted ones before it, or that there is none.
  abbrev First : List IpAddr → Type 0
  First xs =
      ((first_untrusted nets xs ≡ some none) × All (Trusted nets) xs)
      ⊎ ((before : List IpAddr) × (a : IpAddr) × (after : List IpAddr) × (first_untrusted nets xs
            ≡ some (some a))
          × (xs ≡ before ++ (a ∷ after))
          × All (Trusted nets) before
          × Untrusted nets a)

  first : (xs : List IpAddr) → All IsCidr nets → All IsAddress xs → First xs
  unfolding first_untrusted
  first [] h k = inl (refl, tt)
  first (x ∷ xs) h k =
      let next = first xs h k.1 in
      elim (decided x nets k.0 h) [
        | inl t ↦ elim next [
          | inl (e, all) ↦ inl (rw (first_untrusted, t) e, (t, all))
          | inr (before, a, after, e, split, all, u) ↦
              inr (
                x ∷ before,
                a,
                after,
                rw (first_untrusted, t) e,
                ap (λ l. x ∷ l) split,
                (t, all),
                u,
              )
        ]
        | inr u ↦ inr ([], x, xs, rw (first_untrusted, u) refl, refl, tt, u)
      ]

append-nil : (xs : List IpAddr) → xs ++ [] ≡ xs
append-nil [] = refl
append-nil (x ∷ xs) = ap (λ l. x ∷ l) (append-nil xs)

reverse-append :
    (xs ys acc : List IpAddr) → reverse_onto (xs ++ ys) acc ≡ reverse_onto ys (reverse_onto xs acc)
unfolding reverse_onto
reverse-append [] ys acc = refl
reverse-append (x ∷ xs) ys acc = reverse-append xs ys (x ∷ acc)

reverse-reverse :
    (xs ys acc : List IpAddr) → reverse_onto (reverse_onto xs ys) acc ≡ reverse_onto ys (xs ++ acc)
unfolding reverse_onto
reverse-reverse [] ys acc = refl
reverse-reverse (x ∷ xs) ys acc = reverse-reverse xs (x ∷ ys) acc

reverse-onto : (xs acc : List IpAddr) → reverse_onto xs acc ≡ reverse_onto xs [] ++ acc
unfolding reverse_onto
reverse-onto [] acc = refl
reverse-onto (x ∷ xs) acc =
    reverse-onto xs (x ∷ acc)
    ∙ sym (append-assoc (reverse_onto xs []) (x ∷ []) acc)
    ∙ ap (λ l. l ++ acc) (sym (reverse-onto xs (x ∷ [])))
  where
    append-assoc : (as' bs cs : List IpAddr) → (as' ++ bs) ++ cs ≡ as' ++ (bs ++ cs)
    append-assoc [] bs cs = refl
    append-assoc (a ∷ rest) bs cs = ap (λ l. a ∷ l) (append-assoc rest bs cs)

All-reverse :
    (P : IpAddr → Type 0) (xs acc : List IpAddr)
    → All P xs
    → All P acc
    → All P (reverse_onto xs acc)
unfolding reverse_onto
All-reverse P [] acc h k = k
All-reverse P (x ∷ xs) acc h k = All-reverse P xs (x ∷ acc) h.1 (h.0, k)

All-unreverse : (P : IpAddr → Type 0) (xs : List IpAddr) → All P (reverse_onto xs []) → All P xs
unfolding reverse_onto
All-unreverse P xs h =
    let back : reverse_onto (reverse_onto xs []) [] ≡ xs =
      reverse-reverse xs [] [] ∙ append-nil xs in
    rw back at (All-reverse P (reverse_onto xs []) [] h tt)

unreversed :
    (xs before after : List IpAddr) (a : IpAddr)
    → reverse_onto xs [] ≡ before ++ (a ∷ after)
    → xs ≡ reverse_onto after [] ++ (a ∷ reverse_onto before [])
unfolding reverse_onto
unreversed xs before after a h =
    sym (reverse-reverse xs [] [] ∙ append-nil xs)
    ∙ ap (λ l. reverse_onto l []) h
    ∙ reverse-append before (a ∷ after) []
    ∙ reverse-onto after (a ∷ reverse_onto before [])

module _ (parse_ip : Text → Option IpAddr) where
  -- What the parser returns is an address.
  abbrev pub Parses : Type 0
  Parses = (t : Text) (ip : IpAddr) → parse_ip t ≡ some ip → IsAddress ip

  entries-IsAddress : Parses → (es : List Text) → All IsAddress (entries parse_ip es)
  unfolding entries
  entries-IsAddress h [] = tt
  entries-IsAddress h (e ∷ es) = elim (Option-cases (parse_ip (trim e))) [
    | inl n ↦ rw (entries, n) (entries-IsAddress h es)
    | inr (ip, s) ↦ rw (entries, s) (h (trim e) ip s, entries-IsAddress h es)
  ]

  -- The rightmost untrusted hop of a header, or the peer where there is none.
  abbrev pub IsHop : List Cidr → IpAddr → Text → IpAddr → Type 0
  IsHop nets peer header ip =
      (All (Trusted nets) (entries parse_ip (split_commas header)) × (ip ≡ peer))
      ⊎ ((left : List IpAddr) × (right : List IpAddr) × (entries parse_ip (split_commas header)
            ≡ left ++ (ip ∷ right))
          × Untrusted nets ip
          × All (Trusted nets) right)

  hop :
      Parses
      → (nets : List Cidr) → All IsCidr nets
      → (peer : IpAddr) (header : Text)
      → (ip : IpAddr) × (read_forwarded parse_ip peer header nets ≡ some ip)
        × IsHop nets peer header ip
  unfolding read_forwarded
  hop p nets h peer header =
      let es = entries parse_ip (split_commas header) in
      elim (first nets (reverse_onto es []) h
        (All-reverse IsAddress es [] (entries-IsAddress p _) tt)) [
          | inl (e, all) ↦
              (peer, rw (read_forwarded, e) refl, inl (All-unreverse (Trusted nets) es all, refl))
          | inr (before, a, after, e, split, all, u) ↦ (
            a,
            rw (read_forwarded, e) refl,
            inr (
              reverse_onto after [],
              reverse_onto before [],
              unreversed es before after a split,
              u,
              All-reverse (Trusted nets) before [] all tt,
            ),
          )
        ]

  -- Behind networks of valid prefix lengths the client's address is always found: it is the
  -- peer's where the peer is in none of them or sends no header, and otherwise the rightmost
  -- address of the header that is in none of them, all to the right of it being trusted, or the
  -- peer's where all are.
  pub client_ip_lem :
      Parses
      → (peer : SocketAddr) (forwarded : Option Text) (nets : List Cidr) → IsAddress peer.ip
      → All IsCidr nets
      → (ip : IpAddr) × (client_ip parse_ip peer forwarded nets ≡ some ip)
        × ((Untrusted nets peer.ip × (ip ≡ peer.ip))
            ⊎ (Trusted nets peer.ip × (forwarded ≡ none) × (ip ≡ peer.ip))
            ⊎ (Trusted nets peer.ip
                × ((header : Text) × (forwarded ≡ some header) × IsHop nets peer.ip header ip)))
  unfolding client_ip is_trusted
  client_ip_lem p peer forwarded [] h k = (peer.ip, refl, inl (refl, refl))
  client_ip_lem p peer none (net ∷ nets) h k = elim (decided peer.ip (net ∷ nets) h k) [
    | inl t ↦ (peer.ip, rw (client_ip, t) refl, inr (inl (t, refl, refl)))
    | inr u ↦ (peer.ip, rw (client_ip, u) refl, inl (u, refl))
  ]
  client_ip_lem p peer (some header) (net ∷ nets) h k = elim (decided peer.ip (net ∷ nets) h k) [
    | inl t ↦
        let (ip, run, is) = hop p (net ∷ nets) k peer.ip header in
        (ip, rw (client_ip, t) run, inr (inr (t, (header, refl, is))))
    | inr u ↦ (peer.ip, rw (client_ip, u) refl, inl (u, refl))
  ]
