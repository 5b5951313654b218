-- ===== src/Paging/Sorted.antt =====
-- The order of a page, newest first, on rows with different positions.
use xitter.Prelude.{
  ◌≡◌, refl, Bool, true, false, ◌&&◌, List, [], ◌∷◌, ◌==◌, keep, All, if◌then◌else◌, arith,
  Bool-cases, inl, inr,
}
use xitter.Database.Counts.{All-mono}
use xitter.Database.{sort, insert_sorted}
use xitter.Paging.{Position, comes_first}

module _ {Row : Type 0} (position : Row → Position) where
  -- Each row comes before all that follow it.
  abbrev pub Sorted : List Row → Type 0
  Sorted [] = Unit
  Sorted (x ∷ xs) = All (λ y. comes_first position x y ≡ true) xs × Sorted xs

  -- The ids are unique.
  abbrev pub Distinct : List Row → Type 0
  Distinct [] = Unit
  Distinct (x ∷ xs) = All (λ y. ((position x).id == (position y).id) ≡ false) xs × Distinct xs

  module _ (P : Row → Type 0) where
    pub All-keep : (p : Row → Bool) (xs : List Row) → All P xs → All P (keep p xs)
    unfolding keep
    All-keep p [] a = tt
    All-keep p (x ∷ xs) a = elim (Bool-cases (p x)) [
      | inl e ↦ rw e (a.0, All-keep p xs a.1)
      | inr e ↦ rw e (All-keep p xs a.1)
    ]

    All-insert :
        (before : Row → Row → Bool) (r : Row) (xs : List Row)
        → P r
        → All P xs
        → All P (insert_sorted before r xs)
    unfolding insert_sorted
    All-insert before r [] h a = (h, tt)
    All-insert before r (x ∷ xs) h a = elim (Bool-cases (before r x)) [
      | inl e ↦ rw e (h, a)
      | inr e ↦ rw e (a.0, All-insert before r xs h a.1)
    ]

    pub All-sort : (before : Row → Row → Bool) (xs : List Row) → All P xs → All P (sort before xs)
    unfolding sort
    All-sort before [] a = tt
    All-sort before (x ∷ xs) a = All-insert before x (sort before xs) a.0 (All-sort before xs a.1)

  abbrev first : Row → Row → Bool
  first = comes_first position

  first_trans : (a b c : Row) → first a b ≡ true → first b c ≡ true → first a c ≡ true
  first_trans a b c h k = ground (arith, h, k)

  first_total :
      (a b : Row)
      → ((position a).id == (position b).id) ≡ false
      → first a b ≡ false
      → first b a ≡ true
  first_total a b differ h = ground (arith, differ, h)

  All-first_trans :
      (a b : Row) (xs : List Row)
      → first a b ≡ true
      → All (λ y. first b y ≡ true) xs
      → All (λ y. first a y ≡ true) xs
  All-first_trans a b xs h =
      All-mono (λ y. first b y ≡ true) (λ y. first a y ≡ true) xs (λ y. first_trans a b y h)

  insert-Sorted :
      (r : Row) (xs : List Row)
      → All (λ y. ((position r).id == (position y).id) ≡ false) xs
      → Sorted xs
      → Sorted (insert_sorted first r xs)
  unfolding insert_sorted
  insert-Sorted r [] d s = (tt, tt)
  insert-Sorted r (x ∷ xs) d s = elim (Bool-cases (first r x)) [
    | inl e ↦ rw e ((e, All-first_trans r x xs e s.0), s)
    | inr e ↦ rw e (
      All-insert (λ y. first x y ≡ true) first r xs (first_total r x d.0 e) s.0,
      insert-Sorted r xs d.1 s.1,
    )
  ]

  pub sort-Sorted : (xs : List Row) → Distinct xs → Sorted (sort first xs)
  unfolding sort
  sort-Sorted [] d = tt
  sort-Sorted (x ∷ xs) d =
      insert-Sorted x (sort first xs)
        (All-sort (λ y. ((position x).id == (position y).id) ≡ false) first xs d.0)
        (sort-Sorted xs d.1)

  insert-head :
      (r : Row) (xs : List Row) → All (λ y. first r y ≡ true) xs → insert_sorted first r xs ≡ r ∷ xs
  unfolding insert_sorted
  insert-head r [] a = refl
  insert-head r (x ∷ xs) a = rw a.0 refl

  keep-insert :
      (q : Row → Bool) (r : Row) (xs : List Row)
      → Sorted xs
      → keep q (insert_sorted first r xs)
        ≡ (if q r then insert_sorted first r (keep q xs) else keep q xs)
  unfolding keep insert_sorted
  keep-insert q r [] s = refl
  keep-insert q r (x ∷ xs) s = elim (Bool-cases (first r x)) [
    | inl e ↦ ground (
      arith,
      e,
      insert-head r (keep q (x ∷ xs))
          (All-keep (λ y. first r y ≡ true) q (x ∷ xs) (e, All-first_trans r x xs e s.0)),
    )
    | inr e ↦ ground (arith, e, keep-insert q r xs s.1)
  ]

  pub keep-sort :
      (q : Row → Bool) (xs : List Row)
      → Distinct xs
      → sort first (keep q xs) ≡ keep q (sort first xs)
  unfolding sort keep
  keep-sort q [] d = refl
  keep-sort q (x ∷ xs) d =
      ground (arith, keep-insert q x (sort first xs) (sort-Sorted xs d.1), keep-sort q xs d.1)

pub keep-and :
    {A : Type 0} → (p q : A → Bool) (xs : List A) → keep (λ r. p r && q r) xs ≡ keep q (keep p xs)
unfolding keep
keep-and p q [] = refl
keep-and p q (x ∷ xs) = ground (arith, keep-and p q xs)
