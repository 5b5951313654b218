-- ===== src/Paging/Walk.antt =====
-- What a client sees that asks for page after page
-- (apps/services/media/src/modules/media.repository.ts, adminMedia).
use xitter.Prelude.{
  ℕ, zero, suc, ◌≤◌, ◌<◌, ◌≡◌, refl, ◌∙◌, Bool, true, ◌&&◌, Option, none, some, List, ◌++◌, ltb,
  keep, take, length, arith, Bool-cases, inl, inr,
}
use xitter.Database.{Client, sort}
use xitter.Paging.{Position, comes_first, is_after, last, cut, keyset_page, walk}
use xitter.Paging.Sorted.{Sorted, Distinct, sort-Sorted, keep-sort, keep-and}
use xitter.Paging.Cuts.{
  length-sort, append-drop, length-keep, keep_all, All-true, length-drop-lt, last-some, cut_lem,
  Distinct-keep, left,
}

module _ {Row : Type 0} (position : Row → Position) where
  module _ (client : Client Row) (wanted : Row → Bool) (n : ℕ) (rows : List Row)
      (unique : Distinct position rows) where
    abbrev wanted_rows : List Row
    wanted_rows = sort (comes_first position) (keep wanted rows)

    wanted_rows-Sorted : Sorted position wanted_rows
    wanted_rows-Sorted =
        sort-Sorted position (keep wanted rows) (Distinct-keep position wanted rows unique)

    page_lem :
        (cursor : Option Position)
        → keyset_page position client wanted cursor n rows
          ≡ cut position n (take (suc n) (keep (is_after position cursor) wanted_rows))
    unfolding keyset_page
    page_lem cursor =
        rw
          (
            client.find_page_lem (λ r. wanted r && is_after position cursor r)
                (comes_first position) (suc n) rows,
            keep-and wanted (is_after position cursor) rows,
            keep-sort position (is_after position cursor) (keep wanted rows)
                (Distinct-keep position wanted rows unique),
          )
          refl

    -- A page that is the last, and one that is not.
    last_page :
        (m : ℕ) (cursor : Option Position)
        → length (keep (is_after position cursor) wanted_rows) ≤ n
        → walk position client wanted n (suc m) cursor rows
          ≡ (keep (is_after position cursor) wanted_rows, none)
    unfolding walk
    last_page m cursor h = ground (
      arith,
      h,
      page_lem cursor,
      cut_lem position n (keep (is_after position cursor) wanted_rows),
    )

    more_pages :
        (m : ℕ) (cursor : Option Position) (r : Row)
        → n < length (keep (is_after position cursor) wanted_rows)
        → last (take n (keep (is_after position cursor) wanted_rows)) ≡ some r
        → walk position client wanted n (suc m) cursor rows ≡ (
            let (others, end) = walk position client wanted n m (some (position r)) rows in
            (take n (keep (is_after position cursor) wanted_rows) ++ others, end))
    unfolding walk
    more_pages m cursor r h e = ground (
      arith,
      h,
      e,
      page_lem cursor,
      cut_lem position n (keep (is_after position cursor) wanted_rows),
    )

  module _ (client : Client Row) (wanted : Row → Bool) (limit : ℕ) (rows : List Row)
      (unique : Distinct position rows) where
    walk_from :
        (fuel : ℕ) (cursor : Option Position)
        → length
            (keep (is_after position cursor) (wanted_rows client wanted (suc limit) rows unique))
          < fuel
        → walk position client wanted (suc limit) fuel cursor rows ≡ (
          keep (is_after position cursor) (wanted_rows client wanted (suc limit) rows unique),
          none,
        )
    walk_from zero cursor h = absurd (omega (arith, h))
    walk_from (suc fuel) cursor h =
        let rest =
          keep (is_after position cursor) (wanted_rows client wanted (suc limit) rows unique) in
        elim (Bool-cases (ltb (suc limit) (length rest))) [
          | inr short ↦
              last_page client wanted (suc limit) rows unique fuel cursor (ground (arith, short))
          | inl long ↦
              let (r, e) = last-some limit rest (ground (arith, long)) in
              let others =
                left position (wanted_rows client wanted (suc limit) rows unique)
                  (wanted_rows-Sorted client wanted (suc limit) rows unique) limit cursor r e in
              let fewer = length-drop-lt limit rest (ground (arith, long)) in
              more_pages client wanted (suc limit) rows unique fuel cursor r (ground (arith, long))
                e
              ∙ rw
                  (
                    walk_from fuel (some (position r)) (rw others (omega (arith, fewer, h))),
                    others,
                    append-drop (suc limit) rest,
                  )
                  refl
        ]

    -- For rows with different ids and pages of at least one row: a client that follows the cursors from
    -- the first page on sees just the rows that it wants, newest first, and comes to the end within as
    -- many pages as there are rows and one.
    pub walk-all :
        walk position client wanted (suc limit) (suc (length rows)) none rows
        ≡ (sort (comes_first position) (keep wanted rows), none)
    walk-all =
        let all = wanted_rows client wanted (suc limit) rows unique in
        let same = keep_all (λ y. true) all (All-true all) in
        walk_from (suc (length rows)) none (
          rw same (
            omega (
              arith,
              length-sort (comes_first position) (keep wanted rows),
              length-keep wanted rows,
            )))
        ∙ rw same refl
