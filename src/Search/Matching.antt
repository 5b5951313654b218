-- ===== src/Search/Matching.antt =====
-- What the body of a search asks for (apps/services/search/src/modules/posts-index.ts, buildSearchBody).
use mathlib.Core.Path.{fun_ext}
use xitter.Prelude.{
  ℕ, suc, ◌≡◌, refl, Bool, not, ◌&&◌, ◌||◌, Option, none, some, List, [], ◌∷◌, map, any, keep, take,
  ◌==◌, is_some, arith,
}
use xitter.Database.{sort}
use xitter.Paging.{Position, comes_first, is_after}
use xitter.SearchIndex.{Document, lower, has_text}
use xitter.Search.{
  Text, Engine, SearchOptions, position_of, text_clause, excluded_clause, after_clause, none_of,
  terms_author_id, exists_deleted_at, match_text, term_keywords, created_at_lt, created_at_lte,
  post_id_lt, all_of, build_search_body, found,
}

module _ (engine : Engine) where
  -- A live document with the text or the hashtag, by an author who is not blocked.
  abbrev pub wanted : Text → List ℕ → Document → Bool
  wanted q blocked d =
      (engine.matches q d || has_text (map lower q) d.keywords)
      && (not (is_some d.deleted_at) && not (any (λ a. a == d.author_id) blocked))

  holds-text :
      (q : Text) (d : Document)
      → engine.holds (text_clause q) d ≡ (engine.matches q d || has_text (map lower q) d.keywords)
  holds-text q d =
      rw
        (
          engine.holds-any (match_text q) (term_keywords (map lower q)) d,
          engine.holds-match q d,
          engine.holds-keywords (map lower q) d,
        )
        refl

  holds-excluded :
      (ids : List ℕ) (d : Document)
      → engine.holds (excluded_clause ids) d ≡ not (any (λ a. a == d.author_id) ids)
  unfolding any
  holds-excluded [] d = engine.holds-everything d
  holds-excluded (x ∷ xs) d =
      rw (engine.holds-none (terms_author_id (x ∷ xs)) d, engine.holds-terms (x ∷ xs) d) refl

  holds-after :
      (after : Option Position) (d : Document)
      → (engine.holds (after_clause after) d && is_after position_of after d)
        ≡ is_after position_of after d
  holds-after none d = rw (engine.holds-everything d) refl
  holds-after (some p) d = ground (
    arith,
    engine.holds-any (created_at_lt p.created_at)
        (all_of (created_at_lte p.created_at) (post_id_lt p.id)) d,
    engine.holds-lt p.created_at d,
    engine.holds-all (created_at_lte p.created_at) (post_id_lt p.id) d,
    engine.holds-lte p.created_at d,
    engine.holds-post p.id d,
  )

  holds-body :
      (options : SearchOptions) (d : Document)
      → (engine.holds (build_search_body options).query d
          && is_after position_of (build_search_body options).search_after d)
        ≡ (wanted options.q options.exclude_author_ids d && is_after position_of options.after d)
  unfolding build_search_body
  holds-body options d =
      let live = all_of (none_of exists_deleted_at) (after_clause options.after) in
      let rest = all_of live (excluded_clause options.exclude_author_ids) in
      ground (
        arith,
        engine.holds-all (text_clause options.q) rest d,
        holds-text options.q d,
        engine.holds-all live (excluded_clause options.exclude_author_ids) d,
        engine.holds-all (none_of exists_deleted_at) (after_clause options.after) d,
        engine.holds-none exists_deleted_at d,
        engine.holds-exists d,
        holds-after options.after d,
        holds-excluded options.exclude_author_ids d,
      )

  -- What a search finds: of the live documents that have the text or the hashtag, by authors who are
  -- not excluded, and that stand after the position, the newest first, one more than the limit.
  pub search_body-found :
      (options : SearchOptions) (index : engine.Index) (rows : List Document)
      → engine.run (build_search_body options) index ≡ found rows
      → rows
        ≡ take (suc options.limit) (
            sort (comes_first position_of) (
              keep
                (λ d.
                  wanted options.q options.exclude_author_ids d
                  && is_after position_of options.after d)
                (engine.documents index)))
  unfolding build_search_body
  search_body-found options index rows h =
      rw (fun_ext (holds-body options)) at (engine.run_lem (build_search_body options) index rows h)
