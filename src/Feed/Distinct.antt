-- ===== src/Feed/Distinct.antt =====
-- The ids of a list without repetitions, `[...new Set(ids)]`.
use xitter.Prelude.{ℕ, ◌≡◌, refl, true, ◌||◌, List, [], ◌∷◌, ◌==◌, any, arith, Bool-cases, inl, inr}
use xitter.Feed.{distinct_from, distinct}

seen_twice :
    (i j : ℕ) (seen : List ℕ)
    → any (λ x. x == j) seen ≡ true
    → i == j ≡ true
    → any (λ x. x == i) seen ≡ true
unfolding any
seen_twice i j [] h e = absurd (cc h)
seen_twice i j (x ∷ xs) h e = ground (arith, seen_twice i j xs)

distinct_from-any :
    (i : ℕ) (seen ids : List ℕ)
    → (any (λ x. x == i) seen || any (λ x. x == i) (distinct_from seen ids))
      ≡ (any (λ x. x == i) seen || any (λ x. x == i) ids)
unfolding distinct_from any
distinct_from-any i seen [] = refl
distinct_from-any i seen (j ∷ js) = elim (Bool-cases (any (λ x. x == j) seen)) [
  | inl known ↦ ground (arith, distinct_from-any i seen js, seen_twice i j seen known)
  | inr new ↦ ground (arith, distinct_from-any i (j ∷ seen) js)
]

-- It has the same ids.
pub distinct-any : (i : ℕ) (ids : List ℕ) → any (λ x. x == i) (distinct ids) ≡ any (λ x. x == i) ids
unfolding any
distinct-any i ids = distinct_from-any i [] ids
