-- ===== src/Posts/Interactions.antt =====
-- Likes, reposts and bookmarks, and the counters that they move
-- (apps/services/posts/src/modules/posts.repository.ts, createInteraction, deleteInteraction).
use xitter.Prelude.{
  ℕ, ◌≤◌, ◌≡◌, refl, sym, ◌∙◌, ap, Bool, true, false, some, List, [], ◌∷◌, if◌then◌else◌, count,
  find?, any, map_where, reject, arith,
}
use xitter.Prelude.Int.{ℤ, increment, decrement, increment-pos, decrement-pos}
use xitter.Database.Counts.{
  any-count, count-any, count-map_where_same, count-reject_one, find?-any, All-map_where,
}
use xitter.Posts.{
  Kind, like, repost, bookmark, same_kind, PostRow, InteractionRow, is_post, is_interaction,
  same_interaction, one_more, one_less,
}
use xitter.Posts.Counts.{replies_to, live_reply, of_kind, HasReplies, HasLikes, IsCounted}

pub same_kind_refl : (k : Kind) → same_kind k k ≡ true
same_kind_refl like = refl
same_kind_refl repost = refl
same_kind_refl bookmark = refl

pub map_where_id :
    (p : PostRow → Bool) (rows : List PostRow) → map_where p (one_more bookmark) rows ≡ rows
unfolding map_where
map_where_id p [] = refl
map_where_id p (x ∷ xs) = ground (arith, map_where_id p xs)

-- A step of the counters of likes and reposts is seen by no test of keys or replies.
one_more-same :
    (k : Kind) (q : PostRow → Bool) (id : ℕ) (rows : List PostRow)
    → ((x : PostRow) (a b : ℤ) → q (record x { like_count = a; repost_count = b }) ≡ q x)
    → count q (map_where (is_post id) (one_more k) rows) ≡ count q rows
one_more-same like q id rows e =
    count-map_where_same (is_post id) q (one_more like) rows
      (λ x. e x (increment x.like_count) x.repost_count)
one_more-same repost q id rows e =
    count-map_where_same (is_post id) q (one_more repost) rows
      (λ x. e x x.like_count (increment x.repost_count))
one_more-same bookmark q id rows e = ap (count q) (map_where_id (is_post id) rows)

one_less-same :
    (k : Kind) (q : PostRow → Bool) (id : ℕ) (rows : List PostRow)
    → ((x : PostRow) (a b : ℤ) → q (record x { like_count = a; repost_count = b }) ≡ q x)
    → count q (map_where (is_post id) (one_less k) rows) ≡ count q rows
one_less-same like q id rows e =
    count-map_where_same (is_post id) q (one_less like) rows
      (λ x. e x (decrement x.like_count) x.repost_count)
one_less-same repost q id rows e =
    count-map_where_same (is_post id) q (one_less repost) rows
      (λ x. e x x.like_count (decrement x.repost_count))
one_less-same bookmark q id rows e = ap (count q) (map_where_id (is_post id) rows)

-- The counters of one row after an interaction with it lands.
likes-landed :
    (new : InteractionRow) (interactions : List InteractionRow) (x : PostRow)
    → HasLikes interactions x
    → HasLikes (new ∷ interactions) (if is_post new.post_id x then one_more new.kind x else x)
unfolding count
likes-landed new interactions x h = ground (
  arith,
  increment-pos (count (of_kind like x.id) interactions),
  increment-pos (count (of_kind repost x.id) interactions),
)

likes-gone :
    (k : Kind) (post user : ℕ) (row : InteractionRow) (interactions : List InteractionRow)
    (x : PostRow)
    → count (is_interaction k post user) interactions ≤ 1
    → find? (is_interaction k post user) interactions ≡ some row
    → HasLikes interactions x
    → HasLikes
        (reject (is_interaction k post user) interactions)
        (if is_post post x then one_less k x else x)
likes-gone k post user row interactions x u found h =
    let rest = reject (is_interaction k post user) interactions in
    let same_row = find?-any (is_interaction k post user) interactions row found in
    ground (
      arith,
      decrement-pos (count (of_kind like x.id) rest),
      decrement-pos (count (of_kind repost x.id) rest),
      count-reject_one (is_interaction k post user) (of_kind like x.id) interactions row u found,
      count-reject_one (is_interaction k post user) (of_kind repost x.id) interactions row u found,
    )

module _ (posts : List PostRow) (interactions : List InteractionRow)
    (h : IsCounted posts interactions) where
  -- The steps of the counters keep what the keys and the replies say.
  any-same :
      (f : List PostRow) (i : ℕ)
      → count (is_post i) f ≡ count (is_post i) posts
      → any (is_post i) f ≡ false
      → any (is_post i) posts ≡ false
  any-same f i e gone = count-any (is_post i) posts (sym e ∙ any-count (is_post i) f gone)

  pub landed-IsCounted :
      (new : InteractionRow)
      → any (is_post new.post_id) posts ≡ true
      → any (same_interaction new) interactions ≡ false
      → IsCounted (map_where (is_post new.post_id) (one_more new.kind) posts) (new ∷ interactions)
  unfolding count
  landed-IsCounted new here absent =
      let posts' = map_where (is_post new.post_id) (one_more new.kind) posts in
      let ids : (i : ℕ) → count (is_post i) posts' ≡ count (is_post i) posts =
        λ i. one_more-same new.kind (is_post i) new.post_id posts (λ x a b. refl) in
      let parents : (i : ℕ) → count (replies_to i) posts' ≡ count (replies_to i) posts =
        λ i. one_more-same new.kind (replies_to i) new.post_id posts (λ x a b. refl) in
      let live : (i : ℕ) → count (live_reply i) posts' ≡ count (live_reply i) posts =
        λ i. one_more-same new.kind (live_reply i) new.post_id posts (λ x a b. refl) in
      record {
        ids = λ i. rw (ids i) (h.ids i);
        parents = λ i e. parents i ∙ h.parents i (any-same posts' i (ids i) e);
        targets = λ i kind e.
            let gone = any-same posts' i (ids i) e in ground (arith, h.targets i kind gone);
        keys = λ k i u.
            ground (arith, h.keys k i u, any-count (same_interaction new) interactions absent);
        replies =
            All-map_where (HasReplies (λ i. count (live_reply i) posts))
              (HasReplies (λ i. count (live_reply i) posts')) (is_post new.post_id)
              (one_more new.kind) posts (λ x e. ground (arith, live x.id)) h.replies;
        likes =
            All-map_where (HasLikes interactions) (HasLikes (new ∷ interactions))
              (is_post new.post_id) (one_more new.kind) posts (likes-landed new interactions)
              h.likes;
      }

  pub gone-IsCounted :
      (k : Kind) (post user : ℕ) (row : InteractionRow)
      → find? (is_interaction k post user) interactions ≡ some row
      → IsCounted
          (map_where (is_post post) (one_less k) posts)
          (reject (is_interaction k post user) interactions)
  gone-IsCounted k post user row found =
      let posts' = map_where (is_post post) (one_less k) posts in
      let rest = reject (is_interaction k post user) interactions in
      let fewer : (q : InteractionRow → Bool) → count q rest ≤ count q interactions = λ q. omega (
        arith,
        count-reject_one (is_interaction k post user) q interactions row (h.keys k post user) found,
      ) in
      let ids : (i : ℕ) → count (is_post i) posts' ≡ count (is_post i) posts =
        λ i. one_less-same k (is_post i) post posts (λ x a b. refl) in
      let parents : (i : ℕ) → count (replies_to i) posts' ≡ count (replies_to i) posts =
        λ i. one_less-same k (replies_to i) post posts (λ x a b. refl) in
      let live : (i : ℕ) → count (live_reply i) posts' ≡ count (live_reply i) posts =
        λ i. one_less-same k (live_reply i) post posts (λ x a b. refl) in
      record {
        ids = λ i. rw (ids i) (h.ids i);
        parents = λ i e. parents i ∙ h.parents i (any-same posts' i (ids i) e);
        targets = λ i kind e.
            let gone = h.targets i kind (any-same posts' i (ids i) e) in
            omega (arith, fewer (of_kind kind i));
        keys = λ k' i u. omega (arith, fewer (is_interaction k' i u), h.keys k' i u);
        replies =
            All-map_where (HasReplies (λ i. count (live_reply i) posts))
              (HasReplies (λ i. count (live_reply i) posts')) (is_post post) (one_less k) posts
              (λ x e. ground (arith, live x.id)) h.replies;
        likes =
            All-map_where (HasLikes interactions) (HasLikes rest) (is_post post) (one_less k) posts
              (λ x e. likes-gone k post user row interactions x (h.keys k post user) found e)
              h.likes;
      }
