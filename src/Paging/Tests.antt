-- ===== src/Paging/Tests.antt =====
-- A walk through three pages, and the theorem of walks at a concrete table.
use xitter.Prelude.{ℕ, suc, ◌≡◌, refl, Bool, none, List, [], ◌∷◌, length, keep, ltb}
use xitter.Database.{sort, insert_sorted}
use xitter.Database.Sample.{sample_client}
use xitter.Paging
use xitter.Paging.{Position, comes_first}
use xitter.Paging.Sorted.{Distinct}
use xitter.Paging.Walk.{walk-all}

abbrev position : Position → Position
position p = p

abbrev at : ℕ → ℕ → Position
at time id = record { created_at = time; id = id }

abbrev rows : List Position
rows = at 5 1 ∷ at 9 2 ∷ at 5 3 ∷ at 7 4 ∷ at 2 5 ∷ at 8 6 ∷ []

abbrev wanted : Position → Bool
wanted p = ltb 2 p.created_at

rows-Distinct : Distinct position rows
rows-Distinct = (
  (refl, (refl, (refl, (refl, (refl, tt))))),
  (
    (refl, (refl, (refl, (refl, tt)))),
    ((refl, (refl, (refl, tt))), ((refl, (refl, tt)), ((refl, tt), (tt, tt)))),
  ),
)

walk-all_example :
    Paging.walk position (sample_client Position) wanted 2 (suc (length rows)) none rows
    ≡ (sort (comes_first position) (keep wanted rows), none)
walk-all_example = walk-all position (sample_client Position) wanted 1 rows rows-Distinct

walked :
    Paging.walk position (sample_client Position) wanted 2 3 none rows
    ≡ (at 9 2 ∷ at 8 6 ∷ at 7 4 ∷ at 5 3 ∷ at 5 1 ∷ [], none)
unfolding Paging.walk Paging.keyset_page Paging.cut sort insert_sorted keep
walked = refl
