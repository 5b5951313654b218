-- ===== src/Posts/Creation.antt =====
-- A new post, and the counter of the post that it replies to
-- (apps/services/posts/src/modules/posts.repository.ts, createPost).
use xitter.Prelude.{
  ℕ, suc, ◌≡◌, refl, sym, ap, Bool, true, false, not, ◌&&◌, Option, none, some, List, ◌∷◌, ◌==◌,
  if◌then◌else◌, count, any, All, arith, Bool-cases, inl, inr,
}
use xitter.Prelude.Int.{pos, increment, increment-pos}
use xitter.Database.Counts.{any-count, count-any}
use xitter.Posts.{
  PostRow, InteractionRow, PostsDb, Posts, Env, NewPost, ok, err, internal, is_post, like, repost,
  one_more_reply, post_of, create_post, has_parent, bump_parent,
}
use xitter.Posts.Queries.{update_post_lem, insert_post_lem, has_parent_lem}
use xitter.Posts.Counts.{replies_to, live_reply, HasReplies, HasLikes, IsCounted, live-le-replies}
use xitter.Posts.Marks.{with_replies, parent_step, count-parent_step, All-parent_step}
use xitter.Posts.Moderation.{Counted}

abbrev pub is_parent_there : Option ℕ → List PostRow → Bool
is_parent_there none posts = true
is_parent_there (some id) posts = any (is_post id) posts

module _ (posts : List PostRow) (interactions : List InteractionRow)
    (h : IsCounted posts interactions) where
  module _ (env : Env) (input : NewPost) (fresh : any (is_post env.fresh_id) posts ≡ false)
      (there : is_parent_there input.reply_to_id posts ≡ true) where
    abbrev row : PostRow
    row = post_of env input

    abbrev added : List PostRow
    added = parent_step input.reply_to_id increment (row ∷ posts)

    added-count :
        (q : PostRow → Bool)
        → ((x : PostRow) → q (with_replies increment x) ≡ q x)
        → count q added ≡ (if q row then suc (count q posts) else count q posts)
    unfolding count
    added-count q e = count-parent_step input.reply_to_id increment q (row ∷ posts) e

    -- Nothing refers to an id before it is given.
    unreferred : count (replies_to env.fresh_id) posts ≡ 0
    unreferred = h.parents env.fresh_id fresh

    before :
        (i : ℕ)
        → any (is_post i) added ≡ false
        → (any (is_post i) posts ≡ false) × ((env.fresh_id == i) ≡ false)
    before i e = ground (
      arith,
      any-count (is_post i) added e,
      added-count (is_post i) (λ x. refl),
      count-any (is_post i) posts,
    )

    added-replies : All (HasReplies (λ i. count (live_reply i) added)) added
    added-replies =
        All-parent_step (HasReplies (λ i. count (live_reply i) posts))
          (HasReplies (λ i. count (live_reply i) added)) input.reply_to_id increment (row ∷ posts)
          (λ x e. ground (
            arith,
            added-count (live_reply x.id) (λ y. refl),
            increment-pos (count (live_reply x.id) posts),
          ))
          (ap pos (omega (arith, live-le-replies env.fresh_id posts, unreferred)), h.replies)

    added-likes : All (HasLikes interactions) added
    added-likes =
        All-parent_step (HasLikes interactions) (HasLikes interactions) input.reply_to_id increment
          (row ∷ posts) (λ x e. ground arith)
          (
            (
              ap pos (sym (h.targets env.fresh_id like fresh)),
              ap pos (sym (h.targets env.fresh_id repost fresh)),
            ),
            h.likes,
          )

    pub added-IsCounted : IsCounted added interactions
    added-IsCounted = record {
      ids = λ i. ground (
        arith,
        h.ids i,
        added-count (is_post i) (λ x. refl),
        any-count (is_post env.fresh_id) posts fresh,
      );
      parents =
          λ i e. ground (arith, before i e, h.parents i, added-count (replies_to i) (λ x. refl));
      targets = λ i k e. h.targets i k (before i e).0;
      keys = h.keys;
      replies = added-replies;
      likes = added-likes;
    }

there_still :
    (parent : Option ℕ) (row : PostRow) (posts : List PostRow)
    → is_parent_there parent posts ≡ true
    → is_parent_there parent (row ∷ posts) ≡ true
unfolding any
there_still none row posts e = refl
there_still (some id) row posts e = ground arith

module _ (db : PostsDb) where
  has_parent-there :
      (parent : Option ℕ) (s : Posts) → has_parent db parent s ≡ is_parent_there parent s.posts
  unfolding has_parent
  has_parent-there none s = refl
  has_parent-there (some id) s = has_parent_lem db id s

  bump_parent_lem :
      (parent : Option ℕ) (s : Posts)
      → bump_parent db parent s ≡ (
          if is_parent_there parent s.posts
          then (ok tt, record s { posts = parent_step parent increment s.posts })
          else (err internal, s))
  bump_parent_lem none s = refl
  bump_parent_lem (some id) s = ground (arith, update_post_lem db id one_more_reply s)

  -- `createPost` on every branch: it is rejected, and leaves no trace, where the parent is no row or
  -- the id is taken; otherwise the row lands and the parent's counter goes up in the same transaction.
  pub create_post_lem :
      (env : Env) (input : NewPost) (s : Posts)
      → create_post db env input s ≡ (
          if is_parent_there input.reply_to_id s.posts && not (any (is_post env.fresh_id) s.posts)
          then (
            ok (post_of env input),
            record s {
              posts = parent_step input.reply_to_id increment (post_of env input ∷ s.posts);
            },
          )
          else (err internal, s))
  unfolding create_post
  create_post_lem env input s =
      let s₁ = record s { posts = post_of env input ∷ s.posts } in
      ground (
        arith,
        insert_post_lem db (post_of env input) s,
        has_parent-there input.reply_to_id s,
        there_still input.reply_to_id (post_of env input) s.posts,
        bump_parent_lem input.reply_to_id s₁,
      )

  pub create_post-Counted :
      (env : Env) (input : NewPost) (s : Posts) → Counted s → Counted (create_post db env input s).1
  create_post-Counted env input s h =
      rw (create_post_lem env input s)
        (elim (Bool-cases
          (is_parent_there input.reply_to_id s.posts && not (any (is_post env.fresh_id) s.posts))) [
            | inr refused ↦ rw refused h
            | inl accepted ↦
                rw accepted
                  (added-IsCounted s.posts s.interactions h env input (ground arith) (ground arith))
          ])
