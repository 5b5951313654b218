-- ===== src/Database/Rows.antt =====
-- Tests of the rows of a table after a read, an insert and a delete.
use xitter.Prelude.{
  ◌≡◌, refl, Bool, true, false, not, ◌&&◌, ◌||◌, List, [], ◌∷◌, reject, ltb, count, find?, any,
  map_where, is_some, arith,
}

module _ {ℓ} {Row : Type ℓ} where
  pub is_some-find? : (p : Row → Bool) (rows : List Row) → is_some (find? p rows) ≡ any p rows
  unfolding find? any
  is_some-find? p [] = refl
  is_some-find? p (x ∷ xs) = ground (arith, is_some-find? p xs)

  pub count-pos : (p : Row → Bool) (rows : List Row) → ltb 0 (count p rows) ≡ any p rows
  unfolding count any
  count-pos p [] = refl
  count-pos p (x ∷ xs) = ground (arith, count-pos p xs)

  pub any-reject :
      (p q : Row → Bool) (rows : List Row)
      → any q (reject p rows) ≡ any (λ r. q r && not (p r)) rows
  unfolding reject any
  any-reject p q [] = refl
  any-reject p q (x ∷ xs) = ground (arith, any-reject p q xs)

  pub count-reject :
      (p q : Row → Bool) (rows : List Row)
      → count q (reject p rows) ≡ count (λ r. q r && not (p r)) rows
  unfolding reject count
  count-reject p q [] = refl
  count-reject p q (x ∷ xs) = ground (arith, count-reject p q xs)

  -- A test that always fails finds nothing, and tests that agree find the same.
  pub any-none : (p : Row → Bool) (rows : List Row) → ((r : Row) → p r ≡ false) → any p rows ≡ false
  unfolding any
  any-none p [] h = refl
  any-none p (x ∷ xs) h = ground (arith, h x, any-none p xs h)

  pub any-agree :
      (p q : Row → Bool) (rows : List Row) → ((r : Row) → p r ≡ q r) → any p rows ≡ any q rows
  unfolding any
  any-agree p q [] h = refl
  any-agree p q (x ∷ xs) h = ground (arith, h x, any-agree p q xs h)

  pub reject-or :
      (p q : Row → Bool) (rows : List Row)
      → reject (λ r. p r || q r) rows ≡ reject q (reject p rows)
  unfolding reject
  reject-or p q [] = refl
  reject-or p q (x ∷ xs) = ground (arith, reject-or p q xs)

  pub reject_all : (rows : List Row) → reject (λ r. true) rows ≡ []
  unfolding reject
  reject_all [] = refl
  reject_all (x ∷ xs) = reject_all xs

  -- An update that the test does not see changes no answer of it.
  pub any-map_where :
      (p q : Row → Bool) (f : Row → Row) (rows : List Row)
      → ((r : Row) → q (f r) ≡ q r)
      → any q (map_where p f rows) ≡ any q rows
  unfolding any map_where
  any-map_where p q f [] h = refl
  any-map_where p q f (x ∷ xs) h = ground (arith, h x, any-map_where p q f xs h)
