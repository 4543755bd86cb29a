-- ===== src/Persistence/Pages/Falling.antt =====
-- Fewer rows stand below the last row of a page than below the row that the page began after.
use nyuka.Common.{
  ℕ, zero, suc, ◌+◌, ◌≤◌, ◌<◌, Bool, true, false, ◌&&◌, Text, Option, none, some, List, [], ◌∷◌,
  ◌==◌, ltb, length, take, keep, find, get_last?, ◌≡◌, refl, sym, ap, subst, ◌∙◌, inl, inr, arith,
  Bool-cases, Member, here, there, length-keep_le, if◌then◌else◌,
}
use nyuka.Domain.Errors.{ok}
use nyuka.Domain.Library.{Page}
use nyuka.Jobs.Handlers.Outcome.{err-ne-ok, ok-injective}
use nyuka.Persistence.Pages.{
  Values, Listing, parse_cursor, uuid_or, insert_by, order_by, rows_below, rows_after, cursor_of,
  page_of, answer, page_size,
}

some-injective : {A : Type 0} (a b : A) → some a ≡ some b → a ≡ b
some-injective a b h = cc

module _ {A : Type 0} (s : Listing A) where
  Member-take : {a : A} (n : ℕ) (xs : List A) → Member a (take n xs) → Member a xs
  Member-take zero xs m = elim m [ ]
  Member-take (suc n) [] m = elim m [ ]
  Member-take (suc n) (x ∷ xs) here = here
  Member-take (suc n) (x ∷ xs) (there m) = there (Member-take n xs m)

  Member-last : (a : A) (xs : List A) → get_last? xs ≡ some a → Member a xs
  Member-last a [] h = absurd (bad h)
    where
      bad : none ≡ some a → ⊥
      bad q = cc
  Member-last a (x ∷ []) h = subst (λ y. Member a (y ∷ [])) (sym (some-injective x a h)) here
  Member-last a (x ∷ y ∷ xs) h = there (Member-last a (y ∷ xs) h)

  second_place : {a : A} (r x : A) (xs : List A) → Member a (r ∷ xs) → Member a (r ∷ x ∷ xs)
  second_place r x xs here = here
  second_place r x xs (there m) = there (there m)

  swapped :
      {a : A} (r x : A) (xs ys : List A)
      → (Member a ys → Member a (r ∷ xs))
      → Member a (x ∷ ys)
      → Member a (r ∷ x ∷ xs)
  swapped r x xs ys f here = there here
  swapped r x xs ys f (there m) = second_place r x xs (f m)

  Member-insert_by : {a : A} (r : A) (xs : List A) → Member a (insert_by s r xs) → Member a (r ∷ xs)
  unfolding insert_by
  Member-insert_by r [] m = m
  Member-insert_by r (x ∷ xs) m = elim (Bool-cases (s.first r x)) [
    | inl e ↦ rw e at m
    | inr e ↦ swapped r x xs (insert_by s r xs) (Member-insert_by r xs) (rw e at m)
  ]

  behind_head :
      {a : A} (r : A) (ys xs : List A)
      → (Member a ys → Member a xs)
      → Member a (r ∷ ys)
      → Member a (r ∷ xs)
  behind_head r ys xs f here = here
  behind_head r ys xs f (there m) = there (f m)

  Member-order_by : {a : A} (xs : List A) → Member a (order_by s xs) → Member a xs
  unfolding order_by
  Member-order_by [] m = m
  Member-order_by (x ∷ xs) m =
      behind_head x (order_by s xs) xs (Member-order_by xs) (Member-insert_by x (order_by s xs) m)

  head_kept :
      {a : A} (p : A → Bool) (x : A) (ys xs : List A)
      → p x ≡ true
      → (Member a ys → Member a xs × (p a ≡ true))
      → Member a (x ∷ ys)
      → Member a (x ∷ xs) × (p a ≡ true)
  head_kept p x ys xs e f here = (here, e)
  head_kept p x ys xs e f (there m) = let k = f m in (there k.0, k.1)

  Member-keep :
      (p : A → Bool) {a : A} (xs : List A) → Member a (keep p xs) → Member a xs × (p a ≡ true)
  Member-keep p [] m = elim m [ ]
  Member-keep p (x ∷ xs) m = elim (Bool-cases (p x)) [
    | inl e ↦ head_kept p x (keep p xs) xs e (Member-keep p xs) (rw e at m)
    | inr e ↦ let k = Member-keep p xs (rw e at m) in (there k.0, k.1)
  ]

  -- A test that holds of no more, and of fewer.
  no_more :
      (p q : A → Bool) (xs : List A)
      → ((r : A) → p r ≡ true → q r ≡ true)
      → length (keep p xs) ≤ length (keep q xs)
  no_more p q [] h = omega arith
  no_more p q (x ∷ xs) h = elim (Bool-cases (p x)) [
    | inl e ↦ rw (e, h x e) (omega (arith, no_more p q xs h))
    | inr e ↦ rw e (at_least (q x) (no_more p q xs h))
  ]
    where
      at_least :
          (b : Bool)
          → length (keep p xs) ≤ length (keep q xs)
          → length (keep p xs) ≤ length (if b then x ∷ keep q xs else keep q xs)
      at_least true le = omega arith
      at_least false le = le

  fewer :
      (p q : A → Bool) (xs : List A) {a : A}
      → ((r : A) → p r ≡ true → q r ≡ true)
      → Member a xs
      → q a ≡ true
      → p a ≡ false
      → length (keep p xs) < length (keep q xs)
  fewer p q [] h m yes_q no_p = elim m [ ]
  fewer p q (x ∷ xs) h here yes_q no_p = rw (yes_q, no_p) (omega (arith, no_more p q xs h))
  fewer p q (x ∷ xs) h (there m) yes_q no_p = elim (Bool-cases (p x)) [
    | inl e ↦ rw (e, h x e) (omega (arith, fewer p q xs h m yes_q no_p))
    | inr e ↦ rw e (below (q x) (fewer p q xs h m yes_q no_p))
  ]
    where
      below :
          (b : Bool)
          → length (keep p xs) < length (keep q xs)
          → length (keep p xs) < length (if b then x ∷ keep q xs else keep q xs)
      below true lt = omega arith
      below false lt = lt

-- A row is found by its id, as by a primary key.
pub record IsKeyed {A : Type 0} (s : Listing A) (table : List A) : Type 0 where
  pub by_id : (r : A) → Member r table → find (λ x. s.id_of x == s.id_of r) table ≡ some r

-- To stand below is an order.
pub record IsOrder {A : Type 0} (s : Listing A) : Type 0 where
  pub onward : (a b c : A) → s.below a b ≡ true → s.below b c ≡ true → s.below a c ≡ true
  pub never_itself : (a b : A) → s.below a b ≡ true → s.below a a ≡ false

module _ {A : Type 0} (s : Listing A) (v : Values) (table : List A) where
  abbrev pub stand_below : Option A → ℕ
  stand_below none = 0
  stand_below (some c) = length (keep (λ r. s.below r c) table)

  abbrev pub left_below : Option ℕ → ℕ
  left_below none = 0
  left_below (some id) = stand_below (find (λ r. s.id_of r == id) table)

  -- How many rows stand below that of a cursor, and one more than there are where there is no cursor.
  abbrev pub rows_left : Option Text → ℕ
  rows_left none = suc (length table)
  rows_left (some c) = left_below (v.parse_uuid c)

  page_last :
      (rows : List A) (next : Text)
      → (page_of s v rows).next ≡ some next
      → (a : A) × Member a rows × (next ≡ v.uuid_text (s.id_of a))
  unfolding page_of
  page_last rows next h = elim (Bool-cases (ltb page_size (length rows))) [
    | inl e ↦
        named (get_last? (take page_size rows)) (λ a. Member-last s a (take page_size rows))
          (rw e at h)
    | inr e ↦ absurd (nothing (rw e at h))
  ]
    where
      nothing : none ≡ some next → ⊥
      nothing q = cc

      named :
          (o : Option A)
          → ((a : A) → o ≡ some a → Member a (take page_size rows))
          → cursor_of s v o ≡ some next
          → (a : A) × Member a rows × (next ≡ v.uuid_text (s.id_of a))
      named none f q = absurd (nothing q)
      named (some a) f q = (a, Member-take s page_size rows (f a refl), cc)

  module _ (keyed : IsKeyed s table) (order : IsOrder s)
      (read : (id : ℕ) → v.parse_uuid (v.uuid_text id) ≡ some id) where
    left_of :
        (a : A) (next : Text)
        → Member a table
        → next ≡ v.uuid_text (s.id_of a)
        → rows_left (some next) ≡ length (keep (λ r. s.below r a) table)
    left_of a next m e =
        ap left_below (ap v.parse_uuid e ∙ read (s.id_of a)) ∙ ap stand_below (keyed.by_id a m)

    Member-fetched :
        {a : A} (n : ℕ) (rows : List A) → Member a (take n (order_by s rows)) → Member a rows
    Member-fetched n rows m = Member-order_by s rows (Member-take s n (order_by s rows) m)

    below_row :
        (o : Option A) (a : A)
        → Member a (rows_below s o table)
        → length (keep (λ r. s.below r a) table) < stand_below o
    below_row none a m = elim m [ ]
    below_row (some c) a m =
        let k = Member-keep s (λ r. s.concerns r && s.below r c) table m in
        let under : s.below a c ≡ true = ground (arith, k.1) in
        fewer s (λ r. s.below r a) (λ r. s.below r c) table (λ r h. order.onward r a c h under) k.0
          under (order.never_itself a c under)

    in_table : (o : Option A) {a : A} → Member a (rows_below s o table) → Member a table
    in_table none m = elim m [ ]
    in_table (some c) m = (Member-keep s (λ r. s.concerns r && s.below r c) table m).0

    answered :
        (after : Option ℕ) (page : Page A) (next : Text)
        → answer s v table (ok after) ≡ ok page
        → page.next ≡ some next
        → (a : A) × Member a (rows_after s after table) × (next ≡ v.uuid_text (s.id_of a))
    answered after page next h e =
        let rows = rows_after s after table in
        let same : page_of s v (take (page_size + 1) (order_by s rows)) ≡ page = ok-injective h in
        let (a, m, named) =
          page_last (take (page_size + 1) (order_by s rows)) next (ap (λ p. p.next) same ∙ e) in
        (a, Member-fetched (page_size + 1) rows m, named)

    pub answer-falls :
        (cursor : Option Text) (what : Text) (page : Page A) (next : Text)
        → answer s v table (parse_cursor v cursor what) ≡ ok page
        → page.next ≡ some next
        → rows_left (some next) < rows_left cursor
    unfolding parse_cursor rows_after
    answer-falls none what page next h e =
        let (a, m, named) = answered none page next h e in
        let stored = (Member-keep s s.concerns table m).0 in
        omega (arith, left_of a next stored named, length-keep_le (λ r. s.below r a) table)
    answer-falls (some c) what page next h e = from (v.parse_uuid c) h
      where
        from :
            (o : Option ℕ)
            → answer s v table (uuid_or what o) ≡ ok page
            → rows_left (some next) < left_below o
        from none q = absurd (err-ne-ok q)
        from (some id) q =
            let (a, m, named) = answered (some id) page next q e in
            let holder = find (λ r. s.id_of r == id) table in
            let less = below_row holder a m in
            subst (λ n. n < stand_below holder) (sym (left_of a next (in_table holder m) named))
              less
