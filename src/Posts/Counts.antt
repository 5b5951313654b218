-- ===== src/Posts/Counts.antt =====
-- The counters of the posts table are the numbers of rows that they count: the invariant, and the
-- writes that keep it (apps/services/posts/src/modules/posts.repository.ts).
use xitter.Prelude.{
  ℕ, ◌≤◌, ◌≡◌, sym, ◌∙◌, Bool, false, ◌&&◌, some, List, [], ◌∷◌, ◌==◌, same, any, count, All, arith,
}
use xitter.Prelude.Int.{pos}
use xitter.Database.Counts.{any-count, count-any}
use xitter.Posts.{
  Kind, like, repost, same_kind, PostRow, InteractionRow, is_post, is_live, is_interaction,
}

abbrev pub replies_to : ℕ → PostRow → Bool
replies_to id r = same r.reply_to_id (some id)

abbrev pub live_reply : ℕ → PostRow → Bool
live_reply id r = replies_to id r && is_live r

abbrev pub of_kind : Kind → ℕ → InteractionRow → Bool
of_kind k id x = same_kind x.kind k && x.post_id == id

abbrev pub HasReplies : (ℕ → ℕ) → PostRow → Type 0
HasReplies n r = r.reply_count ≡ pos (n r.id)

abbrev pub HasLikes : List InteractionRow → PostRow → Type 0
HasLikes interactions r =
    (r.like_count ≡ pos (count (of_kind like r.id) interactions))
    × (r.repost_count ≡ pos (count (of_kind repost r.id) interactions))

-- The keys are unique and the foreign keys point to rows; `replyCount` is the number of live
-- replies, `likeCount` and `repostCount` the numbers of likes and reposts.
pub record IsCounted (posts : List PostRow) (interactions : List InteractionRow) : Type 0 where
  pub ids : (i : ℕ) → count (is_post i) posts ≤ 1
  pub parents : (i : ℕ) → any (is_post i) posts ≡ false → count (replies_to i) posts ≡ 0
  pub targets :
      (i : ℕ) (k : Kind) → any (is_post i) posts ≡ false → count (of_kind k i) interactions ≡ 0
  pub keys : (k : Kind) (i u : ℕ) → count (is_interaction k i u) interactions ≤ 1
  pub replies : All (HasReplies (λ i. count (live_reply i) posts)) posts
  pub likes : All (HasLikes interactions) posts

pub live-le-replies :
    (i : ℕ) (rows : List PostRow) → count (live_reply i) rows ≤ count (replies_to i) rows
unfolding count
live-le-replies i [] = omega arith
live-le-replies i (x ∷ xs) = ground (arith, live-le-replies i xs)

-- Two lists of posts with the same keys, and as many replies to each post.
pub record SameKeys (posts posts' : List PostRow) : Type 0 where
  pub ids : (i : ℕ) → count (is_post i) posts' ≡ count (is_post i) posts
  pub parents : (i : ℕ) → count (replies_to i) posts' ≡ count (replies_to i) posts

module _ (posts posts' : List PostRow) (interactions : List InteractionRow) where
  any-SameKeys :
      SameKeys posts posts'
      → (i : ℕ) → any (is_post i) posts' ≡ false
      → any (is_post i) posts ≡ false
  any-SameKeys k i e = count-any (is_post i) posts (sym (k.ids i) ∙ any-count (is_post i) posts' e)

  -- Such a change keeps the invariant, if the counters follow.
  pub SameKeys-IsCounted :
      SameKeys posts posts'
      → IsCounted posts interactions
      → All (HasReplies (λ i. count (live_reply i) posts')) posts'
      → All (HasLikes interactions) posts'
      → IsCounted posts' interactions
  SameKeys-IsCounted k h replies likes = record {
    ids = λ i. rw (k.ids i) (h.ids i);
    parents = λ i e. k.parents i ∙ h.parents i (any-SameKeys k i e);
    targets = λ i kind e. h.targets i kind (any-SameKeys k i e);
    keys = h.keys;
    replies = replies;
    likes = likes;
  }
