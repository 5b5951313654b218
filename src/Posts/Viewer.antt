-- ===== src/Posts/Viewer.antt =====
-- The flags that a user sees on a batch of posts (apps/services/posts/src/modules/viewer-state.ts).
-- A set is the list of what was added to it.
use xitter.Prelude.{ℕ, ◌≡◌, refl, Bool, ◌&&◌, ◌||◌, List, [], ◌∷◌, map, ◌==◌, any, arith}
use xitter.Posts.{Kind, like, repost, bookmark, same_kind, InteractionRow}

pub record PostViewerState : Type 0 where
  pub post_id : ℕ
  pub liked : Bool
  pub reposted : Bool
  pub bookmarked : Bool

pub record Sets : Type 0 where
  pub liked : List ℕ
  pub reposted : List ℕ
  pub bookmarked : List ℕ

abbrev pub add_row : InteractionRow → Sets → Sets
add_row row s = elim row.kind [
  | like ↦ record s { liked = row.post_id ∷ s.liked }
  | repost ↦ record s { reposted = row.post_id ∷ s.reposted }
  | bookmark ↦ record s { bookmarked = row.post_id ∷ s.bookmarked }
]

unfoldable pub add_rows : List InteractionRow → Sets → Sets
add_rows [] s = s
add_rows (row ∷ rows) s = add_rows rows (add_row row s)

abbrev pub has : ℕ → List ℕ → Bool
has id ids = any (λ i. i == id) ids

abbrev pub flags_of : Sets → ℕ → PostViewerState
flags_of s id = record {
  post_id = id;
  liked = has id s.liked;
  reposted = has id s.reposted;
  bookmarked = has id s.bookmarked;
}

unfoldable pub derive_viewer_state : List ℕ → List InteractionRow → List PostViewerState
derive_viewer_state ids rows =
    map (flags_of (add_rows rows (record { liked = []; reposted = []; bookmarked = [] }))) ids

-- Whether a row of this kind is about the post.
abbrev pub is_about : Kind → ℕ → InteractionRow → Bool
is_about k id row = same_kind row.kind k && row.post_id == id

add_rows-has :
    (id : ℕ) (rows : List InteractionRow) (s : Sets)
    → (has id (add_rows rows s).liked ≡ (has id s.liked || any (is_about like id) rows))
      × (has id (add_rows rows s).reposted ≡ (has id s.reposted || any (is_about repost id) rows))
      × (has id (add_rows rows s).bookmarked
          ≡ (has id s.bookmarked || any (is_about bookmark id) rows))
unfolding add_rows any
add_rows-has id [] s = ground arith
add_rows-has id (row ∷ rows) s = ground (arith, add_rows-has id rows (add_row row s))

-- Each post of the batch, in its order, has the flag of a kind exactly where a row of that kind is
-- about it, whatever the order of the rows.
pub derive_viewer_state_lem :
    (ids : List ℕ) (rows : List InteractionRow)
    → derive_viewer_state ids rows
      ≡ map
          (λ id. record {
            post_id = id;
            liked = any (is_about like id) rows;
            reposted = any (is_about repost id) rows;
            bookmarked = any (is_about bookmark id) rows;
          })
          ids
unfolding derive_viewer_state any
derive_viewer_state_lem [] rows = refl
derive_viewer_state_lem (id ∷ ids) rows = ground (
  arith,
  derive_viewer_state_lem ids rows,
  add_rows-has id rows (record { liked = []; reposted = []; bookmarked = [] }),
)
