-- ===== src/Paging/Cuts.antt =====
-- A list of rows that is cut into pages (packages/service-kit/src/cursor.ts).
use xitter.Prelude.{
  ℕ, zero, suc, ◌≤◌, ◌<◌, ◌≡◌, refl, sym, ◌∙◌, Bool, true, false, Option, none, some, List, [], ◌∷◌,
  ◌++◌, ltb, ◌==◌, keep, All, take, drop, length, if◌then◌else◌, arith, Bool-cases, inl, inr,
}
use xitter.Database.{sort, insert_sorted}
use xitter.Paging.{Position, is_newer, comes_first, is_after, last, cut}
use xitter.Paging.Sorted.{Sorted, Distinct, All-keep}

module _ {A : Type 0} where
  pub append-drop : (n : ℕ) (xs : List A) → take n xs ++ drop n xs ≡ xs
  append-drop zero xs = refl
  append-drop (suc n) [] = refl
  append-drop (suc n) (x ∷ xs) = ground (arith, append-drop n xs)

  pub length-keep : (p : A → Bool) (xs : List A) → length (keep p xs) ≤ length xs
  unfolding keep
  length-keep p [] = omega arith
  length-keep p (x ∷ xs) = ground (arith, length-keep p xs)

  pub keep_all : (p : A → Bool) (xs : List A) → All (λ y. p y ≡ true) xs → keep p xs ≡ xs
  unfolding keep
  keep_all p [] a = refl
  keep_all p (x ∷ xs) a = ground (arith, a.0, keep_all p xs a.1)

  All-kept : (p : A → Bool) (xs : List A) → All (λ y. p y ≡ true) (keep p xs)
  unfolding keep
  All-kept p [] = tt
  All-kept p (x ∷ xs) = elim (Bool-cases (p x)) [
    | inl e ↦ rw e (e, All-kept p xs)
    | inr e ↦ rw e (All-kept p xs)
  ]

  pub All-true : (xs : List A) → All (λ y. true ≡ true) xs
  All-true [] = tt
  All-true (x ∷ xs) = (refl, All-true xs)

  keep_narrow :
      (p q : A → Bool) (xs : List A)
      → ((y : A) → q y ≡ true → p y ≡ true)
      → keep q (keep p xs) ≡ keep q xs
  unfolding keep
  keep_narrow p q [] h = refl
  keep_narrow p q (x ∷ xs) h = ground (arith, h x, keep_narrow p q xs h)

  pub length-drop-lt : (n : ℕ) (xs : List A) → n < length xs → length (drop (suc n) xs) < length xs
  length-drop-lt zero (x ∷ xs) h = omega arith
  length-drop-lt (suc n) (x ∷ xs) h = omega (arith, length-drop-lt n xs (omega (arith, h)))
  length-drop-lt n [] h = omega (arith, h)

  pub last-some : (n : ℕ) (xs : List A) → n < length xs → (r : A) × last (take (suc n) xs) ≡ some r
  last-some n [] h = absurd (omega (arith, h))
  last-some zero (x ∷ xs) h = (x, refl)
  last-some (suc n) (x ∷ []) h = (x, refl)
  last-some (suc n) (x ∷ y ∷ ys) h = last-some n (y ∷ ys) (omega (arith, h))

  All-last :
      (p : A → Bool) (n : ℕ) (xs : List A) (r : A)
      → All (λ y. p y ≡ true) xs
      → last (take (suc n) xs) ≡ some r
      → p r ≡ true
  All-last p n [] r a e = absurd (cc e)
  All-last p zero (x ∷ xs) r a e = ground (arith, a.0, e)
  All-last p (suc n) (x ∷ []) r a e = ground (arith, a.0, e)
  All-last p (suc n) (x ∷ y ∷ ys) r a e = All-last p n (y ∷ ys) r a.1 e

  pub take-take : (n : ℕ) (xs : List A) → take n (take (suc n) xs) ≡ take n xs
  take-take zero xs = refl
  take-take (suc n) [] = refl
  take-take (suc n) (x ∷ xs) = ground (arith, take-take n xs)

  pub ltb-length-take : (n : ℕ) (xs : List A) → ltb n (length (take (suc n) xs)) ≡ ltb n (length xs)
  ltb-length-take n [] = refl
  ltb-length-take zero (x ∷ xs) = ground arith
  ltb-length-take (suc n) (x ∷ xs) = ground (arith, ltb-length-take n xs)

  pub take_all : (n : ℕ) (xs : List A) → length xs ≤ n → take n xs ≡ xs
  take_all zero [] h = refl
  take_all (suc n) [] h = refl
  take_all zero (x ∷ xs) h = absurd (omega (arith, h))
  take_all (suc n) (x ∷ xs) h = ground (arith, take_all n xs, h)

  pub cut_lem :
      (position : A → Position) (n : ℕ) (xs : List A)
      → cut position n (take (suc n) xs) ≡ (
          if ltb n (length xs)
          then (take n xs, elim (last (take n xs)) [ none ↦ none | some r ↦ some (position r) ])
          else (xs, none))
  unfolding cut
  cut_lem position n xs = ground (arith, ltb-length-take n xs, take-take n xs, take_all (suc n) xs)

module _ {A : Type 0} (before : A → A → Bool) where
  pub length-insert : (r : A) (xs : List A) → length (insert_sorted before r xs) ≡ suc (length xs)
  unfolding insert_sorted
  length-insert r [] = refl
  length-insert r (x ∷ xs) = ground (arith, length-insert r xs)

  pub length-sort : (xs : List A) → length (sort before xs) ≡ length xs
  unfolding sort
  length-sort [] = refl
  length-sort (x ∷ xs) = omega (arith, length-insert x (sort before xs), length-sort xs)

module _ {Row : Type 0} (position : Row → Position) where
  abbrev pub after : Row → Row → Bool
  after r y = is_newer (position r) (position y)

  -- In order, the rows after the last of a page are the rows that the page leaves.
  keep-after :
      (n : ℕ) (rest : List Row) (r : Row)
      → Sorted position rest
      → last (take (suc n) rest) ≡ some r
      → keep (after r) rest ≡ drop (suc n) rest
  unfolding keep
  keep-after n [] r s e = absurd (cc e)
  keep-after zero (x ∷ xs) r s e = ground (arith, e, keep_all (after x) xs s.0)
  keep-after (suc n) (x ∷ []) r s e = ground (arith, e)
  keep-after (suc n) (x ∷ y ∷ ys) r s e = ground (
    arith,
    All-last (λ z. comes_first position x z) n (y ∷ ys) r s.0 e,
    keep-after n (y ∷ ys) r s.1 e,
  )

  pub Distinct-keep :
      (p : Row → Bool) (xs : List Row) → Distinct position xs → Distinct position (keep p xs)
  unfolding keep
  Distinct-keep p [] d = tt
  Distinct-keep p (x ∷ xs) d = elim (Bool-cases (p x)) [
    | inl e ↦ rw e (
      All-keep position (λ y. ((position x).id == (position y).id) ≡ false) p xs d.0,
      Distinct-keep p xs d.1,
    )
    | inr e ↦ rw e (Distinct-keep p xs d.1)
  ]

  Sorted-keep : (p : Row → Bool) (xs : List Row) → Sorted position xs → Sorted position (keep p xs)
  unfolding keep
  Sorted-keep p [] s = tt
  Sorted-keep p (x ∷ xs) s = elim (Bool-cases (p x)) [
    | inl e ↦
        rw e
          (All-keep position (λ y. comes_first position x y ≡ true) p xs s.0, Sorted-keep p xs s.1)
    | inr e ↦ rw e (Sorted-keep p xs s.1)
  ]

  narrower :
      (cursor : Option Position) (r y : Row)
      → is_after position cursor r ≡ true
      → after r y ≡ true
      → is_after position cursor y ≡ true
  narrower none r y h k = refl
  narrower (some p) r y h k = ground (arith, h, k)

  -- What a cursor has left of rows in order, after a page that is not the last.
  pub left :
      (all : List Row)
      → Sorted position all
      → (m : ℕ) (cursor : Option Position) (r : Row)
      → last (take (suc m) (keep (is_after position cursor) all)) ≡ some r
      → keep (after r) all ≡ drop (suc m) (keep (is_after position cursor) all)
  left all sorted m cursor r e =
      let rest = keep (is_after position cursor) all in
      let seen =
        All-last (is_after position cursor) m rest r (All-kept (is_after position cursor) all) e in
      sym (keep_narrow (is_after position cursor) (after r) all (λ y. narrower cursor r y seen))
      ∙ keep-after m rest r (Sorted-keep (is_after position cursor) all sorted) e
