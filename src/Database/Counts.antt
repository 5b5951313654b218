-- ===== src/Database/Counts.antt =====
-- How many rows pass a test, before and after a write that touches at most one of them.
use xitter.Prelude.{
  ℕ, ◌+◌, ◌≤◌, ◌≡◌, refl, Bool, true, false, ◌&&◌, none, some, List, [], ◌∷◌, reject, count, find?,
  any, map_where, if◌then◌else◌, All, Bool-cases, inl, inr, arith,
}
use mathlib.Core.Path.{subst}

abbrev pub one_if : Bool → ℕ
one_if true = 1
one_if false = 0

module _ {ℓ} {Row : Type ℓ} where
  pub any-count : (p : Row → Bool) (rows : List Row) → any p rows ≡ false → count p rows ≡ 0
  unfolding any count
  any-count p [] h = refl
  any-count p (x ∷ xs) h = ground (arith, any-count p xs)

  pub count-any : (p : Row → Bool) (rows : List Row) → count p rows ≡ 0 → any p rows ≡ false
  unfolding any count
  count-any p [] h = refl
  count-any p (x ∷ xs) h = ground (arith, count-any p xs)

  pub map_where_none :
      (p : Row → Bool) (f : Row → Row) (rows : List Row)
      → count p rows ≡ 0
      → map_where p f rows ≡ rows
  unfolding count map_where
  map_where_none p f [] h = refl
  map_where_none p f (x ∷ xs) h = ground (arith, map_where_none p f xs)

  pub reject_none : (p : Row → Bool) (rows : List Row) → count p rows ≡ 0 → reject p rows ≡ rows
  unfolding count reject
  reject_none p [] h = refl
  reject_none p (x ∷ xs) h = ground (arith, reject_none p xs)

  -- An update that a test does not see.
  pub count-map_where_same :
      (p q : Row → Bool) (f : Row → Row) (rows : List Row)
      → ((r : Row) → q (f r) ≡ q r)
      → count q (map_where p f rows) ≡ count q rows
  unfolding count map_where
  count-map_where_same p q f [] h = refl
  count-map_where_same p q f (x ∷ xs) h = ground (arith, h x, count-map_where_same p q f xs h)

  -- An update of the one row that passes a test.
  pub count-map_where_one :
      (p q : Row → Bool) (f : Row → Row) (rows : List Row) (r : Row)
      → count p rows ≤ 1
      → find? p rows ≡ some r
      → count q (map_where p f rows) + one_if (q r) ≡ count q rows + one_if (q (f r))
  unfolding count map_where find?
  count-map_where_one p q f [] r h e = ground arith
  count-map_where_one p q f (x ∷ xs) r h e =
      ground (arith, count-map_where_one p q f xs r, map_where_none p f xs)

  -- The delete of the one row that passes a test.
  pub count-reject_one :
      (p q : Row → Bool) (rows : List Row) (r : Row)
      → count p rows ≤ 1
      → find? p rows ≡ some r
      → count q (reject p rows) + one_if (q r) ≡ count q rows
  unfolding count reject find?
  count-reject_one p q [] r h e = ground arith
  count-reject_one p q (x ∷ xs) r h e = ground (arith, count-reject_one p q xs r, reject_none p xs)

  find?-none :
      (p l : Row → Bool) (rows : List Row) → count p rows ≡ 0 → find? (λ x. p x && l x) rows ≡ none
  unfolding count find?
  find?-none p l [] h = refl
  find?-none p l (x ∷ xs) h = ground (arith, find?-none p l xs)

  -- What is found among the rows of a key.
  pub find?-of :
      (p l : Row → Bool) (rows : List Row) (r : Row)
      → count p rows ≤ 1
      → find? (λ x. p x && l x) rows ≡ some r
      → (find? p rows ≡ some r) × (p r ≡ true) × (l r ≡ true)
  unfolding count find?
  find?-of p l [] r h e = ground arith
  find?-of p l (x ∷ xs) r h e = ground (arith, find?-of p l xs r, find?-none p l xs)

  pub find?-any :
      (p : Row → Bool) (rows : List Row) (r : Row)
      → find? p rows ≡ some r
      → (any p rows ≡ true) × (p r ≡ true)
  unfolding find? any
  find?-any p [] r e = ground arith
  find?-any p (x ∷ xs) r e = ground (arith, find?-any p xs r)

module _ {ℓ κ μ} {Row : Type ℓ} (P : Row → Type κ) (Q : Row → Type μ) where
  pub All-mono : (rows : List Row) → ((r : Row) → P r → Q r) → All P rows → All Q rows
  All-mono [] h a = tt
  All-mono (x ∷ xs) h a = (h x a.0, All-mono xs h a.1)

  pub All-map_where :
      (p : Row → Bool) (f : Row → Row) (rows : List Row)
      → ((r : Row) → P r → Q (if p r then f r else r))
      → All P rows
      → All Q (map_where p f rows)
  unfolding map_where
  All-map_where p f [] h a = tt
  All-map_where p f (x ∷ xs) h a = (h x a.0, All-map_where p f xs h a.1)

  pub All-reject :
      (p : Row → Bool) (rows : List Row)
      → ((r : Row) → p r ≡ false → P r → Q r)
      → All P rows
      → All Q (reject p rows)
  unfolding reject
  All-reject p [] h a = tt
  All-reject p (x ∷ xs) h a = elim (Bool-cases (p x)) [
    | inl gone ↦ rw gone (All-reject p xs h a.1)
    | inr stays ↦ rw stays (h x stays a.0, All-reject p xs h a.1)
  ]

pub All-find? {ℓ κ} :
    {Row : Type ℓ} (P : Row → Type κ) (p : Row → Bool) (rows : List Row) (r : Row)
    → find? p rows ≡ some r
    → All P rows
    → P r
unfolding find?
All-find? P p [] r e a = absurd (cc e)
All-find? P p (x ∷ xs) r e a = elim (Bool-cases (p x)) [
  | inl here ↦ let found : x ≡ r = ground arith in subst P found a.0
  | inr other ↦ All-find? P p xs r (rw other at e) a.1
]
