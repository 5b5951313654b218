-- ===== src/Prelude/Lists.antt =====
-- Lists under Boolean tests, measured by native numbers.
use Prim.Native.Nat.{ℕ, zero, suc, ◌+◌, ◌≤◌}
use mathlib.Core.Path.{◌≡◌}
use mathlib.Core.Bool.{Bool, true, false, ◌&&◌, ◌||◌}
use mathlib.Core.Option.{Option, none, some}
use mathlib.Core.List.{List, [], ◌∷◌, ◌++◌}
use native.Mathlib.Omega.{arith}
use xitter.Prelude.Tests.{if◌then◌else◌}

module _ {ℓ} {A : Type ℓ} where
  abbrev pub length : List A → ℕ
  length [] = 0
  length (x ∷ xs) = suc (length xs)

  abbrev pub take : ℕ → List A → List A
  take zero xs = []
  take (suc n) [] = []
  take (suc n) (x ∷ xs) = x ∷ take n xs

  abbrev pub drop : ℕ → List A → List A
  drop zero xs = xs
  drop (suc n) [] = []
  drop (suc n) (x ∷ xs) = drop n xs

  abbrev pub is_empty : List A → Bool
  is_empty [] = true
  is_empty (x ∷ xs) = false

  -- The elements that pass a test, and those that fail it.
  unfoldable pub keep : (A → Bool) → List A → List A
  keep p [] = []
  keep p (x ∷ xs) = if p x then x ∷ keep p xs else keep p xs

  unfoldable pub reject : (A → Bool) → List A → List A
  reject p [] = []
  reject p (x ∷ xs) = if p x then reject p xs else x ∷ reject p xs

  unfoldable pub count : (A → Bool) → List A → ℕ
  count p [] = 0
  count p (x ∷ xs) = if p x then suc (count p xs) else count p xs

  unfoldable pub find? : (A → Bool) → List A → Option A
  find? p [] = none
  find? p (x ∷ xs) = if p x then some x else find? p xs

  unfoldable pub any : (A → Bool) → List A → Bool
  any p [] = false
  any p (x ∷ xs) = p x || any p xs

  unfoldable pub all : (A → Bool) → List A → Bool
  all p [] = true
  all p (x ∷ xs) = p x && all p xs

  -- The elements that pass the test are replaced.
  unfoldable pub map_where : (A → Bool) → (A → A) → List A → List A
  map_where p f [] = []
  map_where p f (x ∷ xs) = (if p x then f x else x) ∷ map_where p f xs

  pub length-append : (xs ys : List A) → length (xs ++ ys) ≡ length xs + length ys
  length-append [] ys = omega arith
  length-append (x ∷ xs) ys = omega (arith, length-append xs ys)

  pub length-take-le : (n : ℕ) (xs : List A) → length (take n xs) ≤ n
  length-take-le zero xs = omega arith
  length-take-le (suc n) [] = omega arith
  length-take-le (suc n) (x ∷ xs) = omega (arith, length-take-le n xs)

module _ {ℓ κ} {A : Type ℓ} (P : A → Type κ) where
  abbrev pub All : List A → Type κ
  All [] = Unit
  All (x ∷ xs) = P x × All xs

  pub All-take-le : (q p : ℕ) (xs : List A) → q ≤ p → All (take p xs) → All (take q xs)
  All-take-le zero p xs le h = tt
  All-take-le (suc q) zero xs le h = absurd (omega arith)
  All-take-le (suc q) (suc p) [] le h = tt
  All-take-le (suc q) (suc p) (x ∷ xs) le h = (h.0, All-take-le q p xs (omega arith) h.1)

  pub All-take : (k : ℕ) (xs : List A) → All xs → All (take k xs)
  All-take zero xs h = tt
  All-take (suc k) [] h = tt
  All-take (suc k) (x ∷ xs) h = (h.0, All-take k xs h.1)

  All-take-take : (k n : ℕ) (xs : List A) → k ≤ n → All (take k (take n xs)) → All (take k xs)
  All-take-take zero n xs h a = tt
  All-take-take (suc k) zero xs h a = absurd (omega arith)
  All-take-take (suc k) (suc n) [] h a = tt
  All-take-take (suc k) (suc n) (x ∷ xs) h a = (a.0, All-take-take k n xs (omega arith) a.1)

  -- The next `k` elements after the first `p`.
  pub All-take-add :
      (p k n q : ℕ) (xs : List A)
      → q ≤ p + k
      → k ≤ n
      → All (take p xs)
      → All (take k (take n (drop p xs)))
      → All (take q xs)
  All-take-add p k n zero xs e le h a = tt
  All-take-add p k n (suc q) [] e le h a = tt
  All-take-add zero k n (suc q) (x ∷ xs) e le h a =
      All-take-le (suc q) k (x ∷ xs) (omega arith) (All-take-take k n (x ∷ xs) le a)
  All-take-add (suc p) k n (suc q) (x ∷ xs) e le h a =
      (h.0, All-take-add p k n q xs (omega arith) le h.1 a)
