-- ===== src/Posts/Threads/Tree.antt =====
-- The replies below a post (apps/services/posts/src/modules/posts.service.ts, buildThreadNodes).
use mathlib.Core.Path.{subst}
use xitter.Prelude.{
  ℕ, zero, suc, ◌≡◌, refl, sym, ap, ◌∙◌, inl, inr, Bool, true, ◌&&◌, Option, none, some, List, [],
  ◌∷◌, length, ltb, take, keep, count, All, All-take, Bool-cases, Option-cases, arith,
}
use xitter.Prelude.Int.{pos}
use xitter.Database.{sort}
use xitter.Paging.{Position, Cursor, start, garbage, from, place}
use xitter.Paging.Sorted.{All-keep, All-sort}
use xitter.Paging.Cuts.{cut_lem, take_all, length-sort}
use xitter.Posts.{PostRow, PostsDb, Posts, ok, find_visible_post}
use xitter.Posts.Counts.{live_reply, HasReplies, IsCounted}
use xitter.Posts.Threads.{
  thread_node, ThreadNodes, nil, cons, ThreadResponse, exceeds, post_position, older, is_past,
  is_live_reply, replies, build_thread_nodes, get_thread, get_thread_from, thread_of,
  ancestor_chain,
}

-- The posts at the roots.
abbrev pub roots : ThreadNodes → List PostRow
roots nil = []
roots (cons (thread_node r children truncated) rest) = r ∷ roots rest

module _ (s : Posts) where
  -- The live replies to a post, oldest first.
  abbrev pub live_replies : ℕ → List PostRow
  live_replies post = sort older (keep (is_live_reply post) s.posts)

  abbrev pub live_replies_past : Option Position → ℕ → List PostRow
  live_replies_past cursor post =
      sort older (keep (λ r. is_live_reply post r && is_past cursor r) s.posts)

  abbrev pub live_count : ℕ → ℕ
  live_count post = count (is_live_reply post) s.posts

  -- With so many levels to go, each post has its two oldest live replies below it, and is marked
  -- exactly if it has more; at the last level it has none below it, and is marked if it has any.
  abbrev pub Shows : ℕ → ThreadNodes → Type 0
  Shows levels nil = Unit {0}
  Shows zero (cons (thread_node r children truncated) rest) =
      (children ≡ nil) × (truncated ≡ ltb 0 (live_count r.id)) × Shows zero rest
  Shows (suc levels) (cons (thread_node r children truncated) rest) =
      (roots children ≡ take 2 (live_replies r.id))
      × (truncated ≡ ltb 2 (live_count r.id))
      × Shows levels children
      × Shows (suc levels) rest

  length-keep-count : (p : PostRow → Bool) (xs : List PostRow) → length (keep p xs) ≡ count p xs
  unfolding keep count
  length-keep-count p [] = refl
  length-keep-count p (x ∷ xs) = ground (arith, length-keep-count p xs)

  length-live_replies : (post : ℕ) → length (live_replies post) ≡ live_count post
  length-live_replies post =
      length-sort older (keep (is_live_reply post) s.posts)
      ∙ length-keep-count (is_live_reply post) s.posts

  module _ (db : PostsDb) where
    keep-true : (p : PostRow → Bool) (xs : List PostRow) → keep (λ r. p r && true) xs ≡ keep p xs
    unfolding keep
    keep-true p [] = refl
    keep-true p (x ∷ xs) = ground (arith, keep-true p xs)

    page_replies :
        (post limit : ℕ) (cursor : Option Position)
        → (replies db s post cursor limit).0 ≡ take limit (live_replies_past cursor post)
    unfolding replies
    page_replies post limit cursor =
        let rows = live_replies_past cursor post in
        rw
          (
            db.post.find_page_lem (λ r. is_live_reply post r && is_past cursor r) older (suc limit)
                s.posts,
            cut_lem post_position limit rows,
          )
          (elim (Bool-cases (ltb limit (length rows))) [
            | inl more ↦ rw more refl
            | inr all ↦ rw (all, take_all limit rows (ground (arith, all))) refl
          ])

    first_replies :
        (post limit : ℕ) → (replies db s post none limit).0 ≡ take limit (live_replies post)
    first_replies post limit =
        page_replies post limit none
        ∙ ap (λ rows. take limit (sort older rows)) (keep-true (is_live_reply post) s.posts)

    roots-build_thread_nodes :
        (levels : ℕ) (rows : List PostRow) → roots (build_thread_nodes db s levels rows) ≡ rows
    unfolding build_thread_nodes
    roots-build_thread_nodes levels [] = refl
    roots-build_thread_nodes zero (r ∷ rs) = ap (◌∷◌ r) (roots-build_thread_nodes zero rs)
    roots-build_thread_nodes (suc levels) (r ∷ rs) =
        ap (◌∷◌ r) (roots-build_thread_nodes (suc levels) rs)

    exceeds_lem :
        (n limit : ℕ) (rows : List PostRow)
        → length rows ≡ n
        → exceeds (pos n) (length (take limit rows)) ≡ ltb limit n
    exceeds_lem n zero rows h = refl
    exceeds_lem n (suc limit) [] h = ground (arith, h)
    exceeds_lem zero (suc limit) (x ∷ xs) h = absurd (omega (arith, h))
    exceeds_lem (suc n) (suc limit) (x ∷ xs) h =
        ground (arith, exceeds_lem n limit xs (omega (arith, h)))

    module _ (counted : All (HasReplies (λ i. count (live_reply i) s.posts)) s.posts) where
      Counted : PostRow → Type 0
      Counted = HasReplies (λ i. count (live_reply i) s.posts)

      replies-Counted :
          (post limit : ℕ) (cursor : Option Position)
          → All Counted (replies db s post cursor limit).0
      unfolding Counted
      replies-Counted post limit cursor =
          let wanted = λ (r : PostRow). is_live_reply post r && is_past cursor r in
          rw (page_replies post limit cursor) (
            All-take Counted limit (live_replies_past cursor post) (
              All-sort post_position Counted older (keep wanted s.posts)
                (All-keep post_position Counted wanted s.posts counted)))

      marked :
          (r : PostRow) (limit : ℕ)
          → Counted r
          → exceeds r.reply_count (length (replies db s r.id none limit).0)
            ≡ ltb limit (live_count r.id)
      unfolding Counted
      marked r limit h =
          rw (h, first_replies r.id limit)
            (exceeds_lem (live_count r.id) limit (live_replies r.id) (length-live_replies r.id))

      marked_last : (r : PostRow) → Counted r → exceeds r.reply_count 0 ≡ ltb 0 (live_count r.id)
      unfolding Counted
      marked_last r h = rw h refl

      build-Shows :
          (levels : ℕ) (rows : List PostRow)
          → All Counted rows
          → Shows levels (build_thread_nodes db s levels rows)
      unfolding build_thread_nodes
      build-Shows levels [] a = tt
      build-Shows zero (r ∷ rs) a = (refl, marked_last r a.0, build-Shows zero rs a.1)
      build-Shows (suc levels) (r ∷ rs) a = (
        roots-build_thread_nodes levels (replies db s r.id none 2).0 ∙ first_replies r.id 2,
        marked r 2 a.0,
        build-Shows levels (replies db s r.id none 2).0 (replies-Counted r.id 2 none),
        build-Shows (suc levels) rs a.1,
      )

    thread_lem :
        (post : ℕ) (position : Option Position) (limit : ℕ) (thread : ThreadResponse)
        → IsCounted s.posts s.interactions
        → get_thread_from db s post position limit ≡ ok thread
        → (find_visible_post db post s ≡ some thread.focus)
          × (roots thread.replies ≡ take limit (live_replies_past position post))
          × Shows 2 thread.replies
    unfolding get_thread_from
    thread_lem post position limit thread c h = elim (Option-cases (find_visible_post db post s)) [
      | inl gone ↦ absurd (cc (rw (gone, get_thread_from) at h))
      | inr (focus, seen) ↦
          let same : thread_of db s focus (ancestor_chain db s focus)
                (replies db s post position limit)
              ≡ thread =
            cc (rw (seen, get_thread_from) at h) in
          let rows = (replies db s post position limit).0 in
          (
            seen ∙ ap (λ t. some t.focus) same,
            ap (λ t. roots t.replies) (sym same)
                ∙ roots-build_thread_nodes 2 rows
                ∙ page_replies post limit position,
            subst (λ t. Shows 2 t.replies) same
                (build-Shows c.replies 2 rows (replies-Counted c.replies post limit position)),
          )
    ]

    -- A thread from tables whose counters are right. Its focus is the visible post that was asked for.
    -- The roots of its tree are as many of the live replies to it as were asked for, those after the
    -- cursor, the oldest first. Below each post, down to the third level, stand its two oldest live
    -- replies, and it is called truncated exactly if it has more; a post of the third level has none
    -- below it, and is called truncated exactly if it has any.
    pub get_thread-Shows :
        (post : ℕ) (cursor : Cursor) (limit : ℕ) (thread : ThreadResponse)
        → IsCounted s.posts s.interactions
        → get_thread db s post cursor limit ≡ ok thread
        → (find_visible_post db post s ≡ some thread.focus)
          × (roots thread.replies ≡ take limit (live_replies_past (place cursor) post))
          × Shows 2 thread.replies
    unfolding get_thread
    get_thread-Shows post start limit thread c h = thread_lem post none limit thread c h
    get_thread-Shows post garbage limit thread c h = absurd (cc h)
    get_thread-Shows post (from p) limit thread c h = thread_lem post (some p) limit thread c h
