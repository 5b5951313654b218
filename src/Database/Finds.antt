-- ===== src/Database/Finds.antt =====
-- Whether a table has a row that passes a test: what a selection, a count and a unique key say of it.
use xitter.Prelude.{
  ◌≤◌, ◌≡◌, refl, Bool, true, false, ◌&&◌, some, List, [], ◌∷◌, is_empty, any, count, keep, find?,
  arith, Bool-cases, inl, inr,
}
use xitter.Database.Counts.{any-count, count-any}

module _ {Row : Type 0} where
  pub any-keep :
      (p q : Row → Bool) (rows : List Row) → any q (keep p rows) ≡ any (λ x. p x && q x) rows
  unfolding any keep
  any-keep p q [] = refl
  any-keep p q (x ∷ xs) = ground (arith, any-keep p q xs)

  pub any_empty : (p : Row → Bool) (rows : List Row) → is_empty rows ≡ true → any p rows ≡ false
  unfolding any
  any_empty p [] h = refl
  any_empty p (x ∷ xs) h = absurd (cc h)

  pub same_any :
      (p q : Row → Bool) (xs ys : List Row) → count p xs ≡ count q ys → any p xs ≡ any q ys
  same_any p q xs ys e = elim (Bool-cases (any p xs)) [
    | inr h ↦ ground (arith, any-count p xs h, count-any q ys)
    | inl h ↦ ground (arith, count-any p xs, any-count q ys)
  ]

  -- A test of rows of which none fits, and of the one that fits.
  pub any_none :
      (p l m : Row → Bool) (rows : List Row)
      → count p rows ≡ 0
      → any (λ x. l x && (m x && p x)) rows ≡ false
  unfolding any count
  any_none p l m [] e = refl
  any_none p l m (x ∷ xs) e = ground (arith, any_none p l m xs)

  pub any_one :
      (p l m : Row → Bool) (rows : List Row) (r : Row)
      → count p rows ≤ 1
      → find? p rows ≡ some r
      → any (λ x. l x && (m x && p x)) rows ≡ l r && m r
  unfolding any count find?
  any_one p l m [] r one e = absurd (cc e)
  any_one p l m (x ∷ xs) r one e = elim (Bool-cases (p x)) [
    | inl here ↦ let same : x ≡ r = ground arith in ground (arith, any_none p l m xs (ground arith))
    | inr other ↦ ground (arith, any_one p l m xs r)
  ]
