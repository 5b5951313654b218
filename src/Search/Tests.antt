-- ===== src/Search/Tests.antt =====
-- An engine that meets the laws, and a search over a few documents
-- (apps/services/search/src/modules).
use xitter.Prelude.{
  if◌then◌else◌, ℕ, min, ◌≤◌, ◌≡◌, inr, refl, Bool, true, false, not, ◌&&◌, ◌||◌, Option, none,
  some, List, [], ◌∷◌, ◌++◌, take, keep, any, ltb, leb, ◌==◌, same_text, length, is_some, arith,
}
use xitter.Http.{ok}
use xitter.Database.{sort, insert_sorted}
use xitter.Paging.{start, comes_first, is_after}
use xitter.SearchIndex.{Document, has_text}
use xitter.Feed.{distinct_from}
use xitter.Feed.Page
use xitter.Feed.Page.{Post, Content, authors_of, reply_targets}
use xitter.Search.{
  Query, everything, exists_deleted_at, match_text, term_keywords, terms_author_id, created_at_lt,
  created_at_lte, post_id_lt, all_of, any_of, none_of, Body, found, index_missing, Engine,
  position_of, SearchPage, search_posts, search_from, walk, search, hydrate, render_hits,
  build_search_body,
}
use xitter.Search.Results.{results_after, remaining}
use xitter.Search.Hydrated.{posts_of, visible}
use xitter.Search.Continues.{search_posts-continues}

abbrev holds : Query → Document → Bool
holds everything d = true
holds exists_deleted_at d = is_some d.deleted_at
holds (match_text t) d = same_text t d.text
holds (term_keywords t) d = has_text t d.keywords
holds (terms_author_id ids) d = any (λ a. a == d.author_id) ids
holds (created_at_lt at) d = ltb d.created_at at
holds (created_at_lte at) d = leb d.created_at at
holds (post_id_lt id) d = ltb d.post_id id
holds (all_of p q) d = holds p d && holds q d
holds (any_of p q) d = holds p d || holds q d
holds (none_of p) d = not (holds p d)

abbrev hits : Body → List Document → List Document
hits body documents = take body.size (
    sort (comes_first position_of)
      (keep (λ d. holds body.query d && is_after position_of body.search_after d) documents))

hits_lem :
    (body : Body) (documents rows : List Document)
    → found (hits body documents) ≡ found rows
    → rows ≡ hits body documents
hits_lem body documents rows h = cc

never_missing :
    (body : Body) (documents : List Document)
    → found (hits body documents) ≡ index_missing
    → documents ≡ []
never_missing body documents h = absurd (cc h)

abbrev engine : Engine
engine = record {
  Index = List Document;
  documents = λ i. i;
  holds = holds;
  run = λ body i. found (hits body i);
  matches = λ t d. same_text t d.text;
  holds-everything = λ d. refl;
  holds-match = λ t d. refl;
  holds-keywords = λ t d. refl;
  holds-exists = λ d. refl;
  holds-terms = λ ids d. refl;
  holds-lt = λ at d. refl;
  holds-lte = λ at d. refl;
  holds-post = λ id d. refl;
  holds-all = λ p q d. refl;
  holds-any = λ p q d. refl;
  holds-none = λ p d. refl;
  run_lem = hits_lem;
  run-missing = never_missing;
}

abbrev document : ℕ → ℕ → ℕ → Document
document id author at = record {
  post_id = id;
  author_id = author;
  author_name = 0;
  text = 1 ∷ [];
  keywords = [];
  created_at = at;
  deleted_at = none;
}

-- The post of the second document is gone, and the author of the third is blocked.
abbrev documents : List Document
documents = document 1 7 10 ∷ document 2 7 30 ∷ document 3 8 40 ∷ document 4 7 20 ∷ []

abbrev post : ℕ → Option Post
post id = elim (id == 2) [
  | true ↦ none
  | false ↦ some (record { id = id; author_id = 7; reply_to_id = none })
]

abbrev content : Content
content = record {
  blocked_author_ids = λ user. some (8 ∷ []);
  posts = λ ids. some (λ id. if any (λ i. i == id) ids then post id else none);
  profiles = λ ids. some (λ id. true);
  viewer_state = λ user ids id. none;
}

abbrev first_page : SearchPage
first_page = record {
  items =
      record {
        post = record { id = 4; author_id = 7; reply_to_id = none };
        author = Page.known 7;
        reply_to_author = none;
      }
      ∷ [];
  next_cursor = some (record { created_at = 20; id = 4 });
}

first_page_lem : search_posts engine content documents 5 (1 ∷ []) start 1 ≡ ok first_page
unfolding search_posts search_from walk search hydrate render_hits build_search_body sort
    insert_sorted keep any distinct_from authors_of reply_targets
first_page_lem = refl

search_posts-continues_example :
    (posts_of first_page.items
        ++ visible post (remaining engine documents (1 ∷ []) (8 ∷ []) first_page.next_cursor)
      ≡ visible post (results_after engine documents (1 ∷ []) (8 ∷ []) none))
    × (length first_page.items ≤ min 1 50)
search_posts-continues_example =
    search_posts-continues engine content documents
      ((refl, (refl, (refl, tt))), ((refl, (refl, tt)), ((refl, tt), (tt, tt)))) post
      (λ ids. inr (_, refl, λ id. refl)) (1 ∷ []) (8 ∷ []) 5 start 1 first_page refl (omega arith)
      first_page_lem
