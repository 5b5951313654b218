-- ===== src/Paging.antt =====
-- The pages of the repositories: rows newest first from a cursor, which is the position of the last
-- row of the page before (packages/service-kit/src/cursor.ts; the moderation list of
-- apps/services/media/src/modules/media.repository.ts). A cursor is opaque to a client: its text is not
-- modelled, only whether it decodes.
pub mod Sorted
pub mod Cuts
pub mod Walk
mod Tests
use xitter.Prelude.{
  ℕ, zero, suc, ◌≡◌, Bool, true, false, ◌&&◌, ◌||◌, Option, none, some, List, [], ◌∷◌, ◌++◌, ltb,
  ◌==◌, take, length, if◌then◌else◌,
}
use xitter.Http.{bad_request, Action, throw_if}
use xitter.Database.{Client}

pub record Position : Type 0 where
  pub created_at : ℕ
  pub id : ℕ

abbrev pub is_newer : Position → Position → Bool
is_newer a b = ltb b.created_at a.created_at || (a.created_at == b.created_at && ltb b.id a.id)

-- A cursor as a client gives it: none, one that does not decode to a position, or a position.
pub data Cursor : Type 0 where
  start garbage : Cursor
  from : Position → Cursor

-- The position that a cursor names.
abbrev pub place : Cursor → Option Position
place start = none
place garbage = none
place (from p) = some p

unfoldable pub assert_valid_cursor : {S : Type 0} → Cursor → Action S (Unit {0})
assert_valid_cursor start = throw_if false bad_request
assert_valid_cursor garbage = throw_if true bad_request
assert_valid_cursor (from p) = throw_if false bad_request

module _ {Row : Type 0} where
  abbrev pub last : List Row → Option Row
  last [] = none
  last (x ∷ []) = some x
  last (x ∷ y ∷ ys) = last (y ∷ ys)

module _ {Row : Type 0} (position : Row → Position) where
  abbrev pub comes_first : Row → Row → Bool
  comes_first a b = is_newer (position a) (position b)

  abbrev pub is_after : Option Position → Row → Bool
  is_after none r = true
  is_after (some p) r = is_newer p (position r)

  -- One row more than the limit tells whether there is a next page.
  unfoldable pub cut : ℕ → List Row → List Row × Option Position
  cut limit rows =
      if ltb limit (length rows)
      then (
        take limit rows,
        elim (last (take limit rows)) [ none ↦ none | some r ↦ some (position r) ],
      )
      else (rows, none)

  unfoldable pub keyset_page :
      Client Row → (Row → Bool) → Option Position → ℕ → List Row → List Row × Option Position
  keyset_page client wanted cursor limit rows =
      cut limit (client.find_page (λ r. wanted r && is_after cursor r) comes_first (suc limit) rows)

  -- A client that asks for page after page, `n` at most: the rows that it sees, and its last cursor.
  unfoldable pub walk :
      Client Row → (Row → Bool) → ℕ → ℕ → Option Position → List Row → List Row × Option Position
  walk client wanted limit zero cursor rows = ([], cursor)
  walk client wanted limit (suc n) cursor rows =
      let (items, next) = keyset_page client wanted cursor limit rows in
      elim next [
        | none ↦ (items, none)
        | some p ↦
            let (others, end) = walk client wanted limit n (some p) rows in (items ++ others, end)
      ]
