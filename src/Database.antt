-- ===== src/Database.antt =====
-- What the services rely on of Prisma over Postgres, which is not part of the repository: a record
-- of the client's calls on one table, with the documented behaviour of each as a law. The rows of a
-- table are a list whose order means nothing. The `where` of a call is a Boolean test of a row, its
-- `orderBy` a Boolean test of two rows (the orders of the code end in a unique id, so they are
-- total), and a unique key of a prisma/schema.prisma a test of two rows that conflict.
pub mod Rows
pub mod Counts
pub mod Finds
pub mod Sample
use xitter.Prelude.{
  ℕ, suc, ◌≡◌, Bool, ◌&&◌, Option, none, some, List, [], ◌∷◌, take, keep, reject, count, find?, any,
  map_where, if◌then◌else◌,
}

module _ {ℓ} {Row : Type ℓ} where
  -- `createMany` with `skipDuplicates`: a row whose unique key is taken is skipped.
  unfoldable pub insert_all : (Row → Row → Bool) → List Row → List Row → ℕ × List Row
  insert_all conflict [] rows = (0, rows)
  insert_all conflict (r ∷ rs) rows =
      let (n, all) = insert_all conflict rs (if any (conflict r) rows then rows else r ∷ rows) in
      (if any (conflict r) rows then n else suc n, all)

  -- The rows in order.
  unfoldable pub insert_sorted : (Row → Row → Bool) → Row → List Row → List Row
  insert_sorted before r [] = r ∷ []
  insert_sorted before r (x ∷ xs) = if before r x then r ∷ x ∷ xs else x ∷ insert_sorted before r xs

  unfoldable pub sort : (Row → Row → Bool) → List Row → List Row
  unfolding insert_sorted
  sort before [] = []
  sort before (x ∷ xs) = insert_sorted before x (sort before xs)

pub record Client (Row : Type 0) : Type 0 where
  -- `findUnique` and `findFirst`
  pub find_first : (Row → Bool) → List Row → Option Row
  -- `findMany` with no order
  pub find_many : (Row → Bool) → List Row → List Row
  -- `findMany` with `orderBy` and `take`
  pub find_page : (Row → Bool) → (Row → Row → Bool) → ℕ → List Row → List Row
  pub count_rows : (Row → Bool) → List Row → ℕ
  -- `create`, which is rejected where a unique key is taken
  pub create : (Row → Row → Bool) → Row → List Row → Option (List Row)
  pub create_many : (Row → Row → Bool) → List Row → List Row → ℕ × List Row
  -- `update`, which is rejected where no row fits
  pub update : (Row → Bool) → (Row → Row) → List Row → Option (List Row)
  pub delete_many : (Row → Bool) → List Row → ℕ × List Row
  pub find_first_lem : (p : Row → Bool) (rows : List Row) → find_first p rows ≡ find? p rows
  pub find_many_lem :
      (p q : Row → Bool) (rows : List Row)
      → count q (find_many p rows) ≡ count (λ r. p r && q r) rows
  pub find_page_lem :
      (p : Row → Bool) (before : Row → Row → Bool) (n : ℕ) (rows : List Row)
      → find_page p before n rows ≡ take n (sort before (keep p rows))
  pub count_rows_lem : (p : Row → Bool) (rows : List Row) → count_rows p rows ≡ count p rows
  pub create_lem :
      (conflict : Row → Row → Bool) (r : Row) (rows : List Row)
      → create conflict r rows ≡ (if any (conflict r) rows then none else some (r ∷ rows))
  pub create_many_lem :
      (conflict : Row → Row → Bool) (rs rows : List Row)
      → create_many conflict rs rows ≡ insert_all conflict rs rows
  pub update_lem :
      (p : Row → Bool) (f : Row → Row) (rows : List Row)
      → update p f rows ≡ (if any p rows then some (map_where p f rows) else none)
  pub delete_many_lem :
      (p : Row → Bool) (rows : List Row) → delete_many p rows ≡ (count p rows, reject p rows)
