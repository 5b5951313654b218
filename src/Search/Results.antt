-- ===== src/Search/Results.antt =====
-- The results of a search, and the hits that one call of the engine gives of them
-- (apps/services/search/src/modules/posts-index.ts, search).
use mathlib.Core.Path.{subst}
use xitter.Prelude.{
  ℕ, zero, suc, ◌≤◌, ◌<◌, ◌≡◌, refl, ◌∙◌, inl, inr, Option, none, some, List, [], ◌∷◌, ◌++◌, map,
  take, length, keep, ltb, Bool-cases, if◌then◌else◌, arith,
}
use xitter.Database.{sort}
use xitter.Paging.{Position, comes_first, is_after, last}
use xitter.Paging.Sorted.{Sorted, Distinct, sort-Sorted, keep-sort, keep-and}
use xitter.Paging.Cuts.{
  append-drop, last-some, take_all, take-take, ltb-length-take, Distinct-keep, left,
}
use xitter.SearchIndex.{Document}
use xitter.Feed.Page.{Content}
use xitter.Search.{
  Text, Engine, Answer, found, index_missing, failed, SearchOptions, PostHit, hit_of, hit_position,
  position_of, search, build_search_body,
}
use xitter.Search.Matching.{wanted, search_body-found}

last-map :
    (ds : List Document)
    → last (map hit_of ds) ≡ elim (last ds) [ none ↦ none | some d ↦ some (hit_of d) ]
last-map [] = refl
last-map (x ∷ []) = refl
last-map (x ∷ y ∷ ys) = last-map (y ∷ ys)

module _ (engine : Engine) (index : engine.Index) (q : Text) (blocked : List ℕ) where
  -- The documents that the viewer may see, newest first.
  abbrev pub results : List Document
  results = sort (comes_first position_of) (keep (wanted engine q blocked) (engine.documents index))

  abbrev pub results_after : Option Position → List Document
  results_after position = keep (is_after position_of position) results

  -- After a page with no next cursor nothing is left.
  abbrev pub remaining : Option Position → List Document
  remaining none = []
  remaining (some p) = results_after (some p)

module _ (engine : Engine) (content : Content) (index : engine.Index)
    (unique : Distinct position_of (engine.documents index)) (q : Text) (blocked : List ℕ) where
  results-Sorted : Sorted position_of (results engine index q blocked)
  results-Sorted =
      sort-Sorted position_of (keep (wanted engine q blocked) (engine.documents index))
        (Distinct-keep position_of (wanted engine q blocked) (engine.documents index) unique)

  abbrev pub options : ℕ → Option Position → SearchOptions
  options limit position = record {
    q = q;
    limit = limit;
    after = position;
    exclude_author_ids = blocked;
  }

  found_rows :
      (limit : ℕ) (position : Option Position) (rows : List Document)
      → engine.run (build_search_body (options limit position)) index ≡ found rows
      → rows ≡ take (suc limit) (results_after engine index q blocked position)
  found_rows limit position rows h =
      search_body-found engine (options limit position) index rows h
      ∙ rw
          (
            keep-and (wanted engine q blocked) (is_after position_of position)
                (engine.documents index),
            keep-sort position_of (is_after position_of position)
                (keep (wanted engine q blocked) (engine.documents index))
                (Distinct-keep position_of (wanted engine q blocked) (engine.documents index)
                  unique),
          )
          refl

  -- The hits of one search, and where it goes on.
  pub data Hits (limit : ℕ) (position : Option Position)
      : Option (List PostHit × Option Position) → Type 0 where
    outage : Hits limit position none
    all_hits :
        length (results_after engine index q blocked position) ≤ limit
        → Hits limit position
            (some (map hit_of (results_after engine index q blocked position), none))
    some_hits :
        (r : Document)
        → limit < length (results_after engine index q blocked position)
        → last (take limit (results_after engine index q blocked position)) ≡ some r
        → Hits limit position (
            some (
              map hit_of (take limit (results_after engine index q blocked position)),
              some (position_of r),
            ))

  search_rows :
      (limit : ℕ) (position : Option Position) (rows : List Document)
      → rows ≡ take (suc (suc limit)) (results_after engine index q blocked position)
      → Hits (suc limit) position (
          some (
            map hit_of (take (suc limit) rows),
            if ltb (suc limit) (length rows)
                then elim (last (map hit_of (take (suc limit) rows))) [
                  | none ↦ none
                  | some h ↦ some (hit_position h)
                ]
                else none,
          ))
  search_rows limit position rows e =
      let rest = results_after engine index q blocked position in
      rw (e, ltb-length-take (suc limit) rest, take-take (suc limit) rest)
        (elim (Bool-cases (ltb (suc limit) (length rest))) [
          | inl long ↦
              let (r, at_end) = last-some limit rest (ground (arith, long)) in
              rw (long, last-map (take (suc limit) rest), at_end)
                (some_hits r (ground (arith, long)) at_end)
          | inr short ↦
              let fits : length rest ≤ suc limit = ground (arith, short) in
              rw (short, take_all (suc limit) rest fits) (all_hits fits)
        ])

  no_results :
      (position : Option Position)
      → engine.documents index ≡ []
      → results_after engine index q blocked position ≡ []
  unfolding keep sort
  no_results position e = rw e refl

  pub search_lem :
      (limit : ℕ) (position : Option Position)
      → Hits (suc limit) position (search engine content index (options (suc limit) position))
  unfolding search
  search_lem limit position = answered (engine.run _ index) refl
    where
      answered :
          (a : Answer)
          → engine.run (build_search_body (options (suc limit) position)) index ≡ a
          → Hits (suc limit) position (search engine content index (options (suc limit) position))
      answered failed e = rw (search, e) outage
      answered index_missing e =
          let nothing = no_results position (engine.run-missing _ index e) in
          rw (search, e)
            (subst (λ ds. Hits (suc limit) position (some (map hit_of ds, none))) nothing
              (all_hits (rw nothing (omega arith))))
      answered (found rows) e =
          rw (search, e) (search_rows limit position rows (found_rows (suc limit) position rows e))

  -- The hits of a search that leaves some, with the results after them.
  pub resume_point :
      (limit : ℕ) (position : Option Position) (r : Document)
      → 0 < limit
      → last (take limit (results_after engine index q blocked position)) ≡ some r
      → take limit (results_after engine index q blocked position)
          ++ results_after engine index q blocked (some (position_of r))
        ≡ results_after engine index q blocked position
  resume_point zero position r h e = absurd (omega arith)
  resume_point (suc k) position r h e =
      rw (left position_of (results engine index q blocked) results-Sorted k position r e)
        (append-drop (suc k) (results_after engine index q blocked position))
