-- ===== src/Search.antt =====
-- Searching posts (apps/services/search/src/modules: search.service.ts over posts-index.ts). OpenSearch is
-- not part of the repository: a record of its query language and its search with their documented
-- behaviour as laws. What the posts and the social service answer is a parameter, `none` where they
-- fail; their maps are functions of an id. A query is a text of code units, in ASCII letters where it
-- is put in lower case.
pub mod Matching
pub mod Results
pub mod Hydrated
pub mod Continues
mod Tests
use xitter.Prelude.{
  ℕ, zero, suc, ◌+◌, ◌-◌, min, ◌≡◌, Bool, true, false, not, ◌&&◌, ◌||◌, Option, none, some, List,
  [], ◌∷◌, ◌++◌, map, take, length, keep, any, ltb, leb, ◌==◌, if◌then◌else◌, is_empty, is_some,
}
use xitter.Http.{Result, ok, err, bad_request, internal}
use xitter.Database.{sort}
use xitter.Paging.{Position, Cursor, start, garbage, from, comes_first, is_after, last}
use xitter.SearchIndex.{Document, lower, has_text}
use xitter.Feed.{distinct}
use xitter.Feed.Page.{
  Post, ProfileView, Content, opt_list, profile_or_placeholder, reply_targets, authors_of,
}

abbrev pub Text : Type 0
Text = List ℕ

-- The clauses of a query body. A `bool` query is written with `all_of` for `must` and `filter`,
-- `any_of` for `should` with `minimum_should_match: 1`, and `none_of` for `must_not`.
pub data Query : Type 0 where
  everything exists_deleted_at : Query
  match_text : Text → Query
  term_keywords : Text → Query
  terms_author_id : List ℕ → Query
  created_at_lt created_at_lte post_id_lt : ℕ → Query
  all_of any_of : Query → Query → Query
  none_of : Query → Query

pub record Body : Type 0 where
  pub size : ℕ
  pub query : Query
  pub search_after : Option Position

abbrev pub position_of : Document → Position
position_of d = record { created_at = d.created_at; id = d.post_id }

-- What a search comes to: the documents of the hits, no such index, or an outage.
pub data Answer : Type 0 where
  found : List Document → Answer
  index_missing failed : Answer

pub record Engine : Type 1 where
  pub Index : Type 0
  pub documents : Index → List Document
  pub holds : Query → Document → Bool
  pub run : Body → Index → Answer
  -- The analysed match, which is the engine's own.
  pub matches : Text → Document → Bool
  pub holds-everything : (d : Document) → holds everything d ≡ true
  pub holds-match : (t : Text) (d : Document) → holds (match_text t) d ≡ matches t d
  pub holds-keywords : (t : Text) (d : Document) → holds (term_keywords t) d ≡ has_text t d.keywords
  pub holds-exists : (d : Document) → holds exists_deleted_at d ≡ is_some d.deleted_at
  pub holds-terms :
      (ids : List ℕ) (d : Document)
      → holds (terms_author_id ids) d ≡ any (λ a. a == d.author_id) ids
  pub holds-lt : (at : ℕ) (d : Document) → holds (created_at_lt at) d ≡ ltb d.created_at at
  pub holds-lte : (at : ℕ) (d : Document) → holds (created_at_lte at) d ≡ leb d.created_at at
  pub holds-post : (id : ℕ) (d : Document) → holds (post_id_lt id) d ≡ ltb d.post_id id
  pub holds-all : (p q : Query) (d : Document) → holds (all_of p q) d ≡ (holds p d && holds q d)
  pub holds-any : (p q : Query) (d : Document) → holds (any_of p q) d ≡ (holds p d || holds q d)
  pub holds-none : (p : Query) (d : Document) → holds (none_of p) d ≡ not (holds p d)
  -- Sorted by `createdAt` and `_id`, both descending, from `search_after` on.
  pub run_lem :
      (body : Body) (index : Index) (rows : List Document)
      → run body index ≡ found rows
      → rows
        ≡ take body.size (
            sort (comes_first position_of) (
              keep
                (λ d. holds body.query d && is_after position_of body.search_after d)
                (documents index)))
  -- An index that is not there holds nothing.
  pub run-missing :
      (body : Body) (index : Index) → run body index ≡ index_missing → documents index ≡ []

pub record SearchOptions : Type 0 where
  pub q : Text
  pub limit : ℕ
  pub after : Option Position
  pub exclude_author_ids : List ℕ

pub record PostHit : Type 0 where
  pub post_id : ℕ
  pub author_id : ℕ
  pub created_at : ℕ

-- Text or hashtag.
abbrev pub text_clause : Text → Query
text_clause q = any_of (match_text q) (term_keywords (map lower q))

abbrev pub excluded_clause : List ℕ → Query
excluded_clause ids = if is_empty ids then everything else none_of (terms_author_id ids)

abbrev pub after_clause : Option Position → Query
after_clause none = everything
after_clause (some p) =
    any_of (created_at_lt p.created_at) (all_of (created_at_lte p.created_at) (post_id_lt p.id))

unfoldable pub build_search_body : SearchOptions → Body
build_search_body options = record {
  size = suc options.limit;
  query = all_of (text_clause options.q) (
      all_of (all_of (none_of exists_deleted_at) (after_clause options.after))
        (excluded_clause options.exclude_author_ids));
  search_after = options.after;
}

abbrev pub hit_of : Document → PostHit
hit_of d = record { post_id = d.post_id; author_id = d.author_id; created_at = d.created_at }

abbrev pub hit_position : PostHit → Position
hit_position h = record { created_at = h.created_at; id = h.post_id }

pub record SearchItem : Type 0 where
  pub post : Post
  pub author : ProfileView
  pub reply_to_author : Option ProfileView

pub record SearchPage : Type 0 where
  pub items : List SearchItem
  pub next_cursor : Option Position

abbrev pub search_page_max : ℕ
search_page_max = 50

abbrev pub max_walks : ℕ
max_walks = 4

abbrev pub reply_author : (ℕ → Option Post) → (ℕ → Bool) → Option ℕ → Option ProfileView
reply_author parents profiles none = none
reply_author parents profiles (some id) = elim (parents id) [
  | none ↦ none
  | some parent ↦ some (profile_or_placeholder profiles parent.author_id)
]

-- A hit whose post is gone is dropped.
unfoldable pub render_hits :
    (ℕ → Option Post) → (ℕ → Option Post) → (ℕ → Bool) → List PostHit → List SearchItem
render_hits posts parents profiles [] = []
render_hits posts parents profiles (h ∷ hs) =
    let rest = render_hits posts parents profiles hs in
    elim (posts h.post_id) [
      | none ↦ rest
      | some post ↦
          record {
            post = post;
            author = profile_or_placeholder profiles h.author_id;
            reply_to_author = reply_author parents profiles post.reply_to_id;
          }
          ∷ rest
    ]

module _ (engine : Engine) (content : Content) (index : engine.Index) where
  -- A missing index reads as no results; `none` is an outage.
  unfoldable pub search : SearchOptions → Option (List PostHit × Option Position)
  search options = elim (engine.run (build_search_body options) index) [
    | failed ↦ none
    | index_missing ↦ some ([], none)
    | found rows ↦
        let hits = map hit_of (take options.limit rows) in
        some (
          hits,
          if ltb options.limit (length rows)
              then elim (last hits) [ none ↦ none | some h ↦ some (hit_position h) ]
              else none,
        )
  ]

  unfoldable pub hydrate : List PostHit → Option (List SearchItem)
  hydrate [] = some []
  hydrate (x ∷ xs) =
      let hits = x ∷ xs in
      let ids = distinct (map (λ h. h.post_id) hits) in
      elim (content.posts ids) [
        | none ↦ none
        | some posts ↦
            let targets = distinct (reply_targets posts ids) in
            elim (if is_empty targets then some (λ id. none) else content.posts targets) [
              | none ↦ none
              | some parents ↦
                  elim (content.profiles
                    (distinct (map (λ h. h.author_id) hits ++ authors_of parents targets))) [
                      | none ↦ none
                      | some profiles ↦ some (render_hits posts parents profiles hits)
                    ]
            ]
      ]

  -- The walks that are left, and the page so far.
  unfoldable pub walk :
      ℕ
      → Text
      → ℕ
      → List ℕ
      → Option Position
      → Option Position
      → List SearchItem
      → Option SearchPage
  walk zero q limit blocked after next items =
      some (record { items = take limit items; next_cursor = next })
  walk (suc n) q limit blocked after next items =
      if not (ltb (length items) limit)
      then some (record { items = take limit items; next_cursor = next })
      else elim (search (record {
        q = q;
        limit = limit - length items;
        after = after;
        exclude_author_ids = blocked;
      })) [
        | none ↦ none
        | some (hits, next_after) ↦ elim (hydrate hits) [
          | none ↦ none
          | some shown ↦ elim next_after [
            | none ↦ some (record { items = take limit (items ++ shown); next_cursor = none })
            | some p ↦ walk n q limit blocked (some p) (some p) (items ++ shown)
          ]
        ]
      ]

  abbrev pub or_unavailable : Option SearchPage → Result SearchPage
  or_unavailable none = err internal
  or_unavailable (some page) = ok page

  unfoldable pub search_from : ℕ → Text → Option Position → ℕ → Result SearchPage
  search_from user q position limit = elim (content.blocked_author_ids user) [
    | none ↦ err internal
    | some blocked ↦
        or_unavailable (walk max_walks q (min limit search_page_max) blocked position none [])
  ]

  unfoldable pub search_posts : ℕ → Text → Cursor → ℕ → Result SearchPage
  search_posts user q garbage limit = err bad_request
  search_posts user q start limit = search_from user q none limit
  search_posts user q (from p) limit = search_from user q (some p) limit
