-- ===== src/Posts/HardDelete.antt =====
-- The rows that a hard delete leaves, and their counts
-- (apps/services/posts/src/modules/posts.repository.ts, adminHardDelete; the foreign keys are those
-- of apps/services/posts/prisma/migrations/20260817000000_init/migration.sql).
use xitter.Prelude.{
  ℕ, ◌+◌, ◌≤◌, ◌≡◌, refl, Bool, true, false, not, ◌&&◌, Option, none, some, List, [], ◌∷◌, ◌==◌,
  map, if◌then◌else◌, count, find?, any, map_where, reject, All, arith, Option-cases, inl, inr,
}
use xitter.Prelude.Int.{ℤ, pos, decrement, decrement-pos}
use xitter.Database.Counts.{
  one_if, any-count, count-any, count-reject_one, find?-any, All-reject, All-mono, All-find?,
}
use xitter.Posts.{
  Kind, like, repost, PostRow, InteractionRow, PostsDb, Posts, hard_deleted, ok, is_post, is_live,
  is_interaction, admin_hard_delete, write_audit, orphan,
}
use xitter.Posts.Queries.{find_post_lem, delete_post_row_lem, delete_interactions_of_lem}
use xitter.Posts.Counts.{replies_to, live_reply, of_kind, HasReplies, HasLikes, IsCounted}
use xitter.Posts.Marks.{parent_step, is_target, count-parent_step, All-parent_step}
use xitter.Posts.Moderation.{Counted, skip_parent}

All-map {κ μ} :
    (P : PostRow → Type κ) (Q : PostRow → Type μ) (f : PostRow → PostRow) (rows : List PostRow)
    → ((x : PostRow) → P x → Q (f x))
    → All P rows
    → All Q (map f rows)
All-map P Q f [] e a = tt
All-map P Q f (x ∷ xs) e a = (e x a.0, All-map P Q f xs e a.1)

count-orphan :
    (db : PostsDb) (id i : ℕ) (rows : List PostRow)
    → (count (is_post i) (map (orphan db id) rows) ≡ count (is_post i) rows)
      × (count (replies_to i) (map (orphan db id) rows)
          ≡ (if i == id then 0 else count (replies_to i) rows))
      × (count (live_reply i) (map (orphan db id) rows)
          ≡ (if i == id then 0 else count (live_reply i) rows))
unfolding count
count-orphan db id i [] = ground arith
count-orphan db id i (x ∷ xs) = ground (arith, count-orphan db id i xs)

count-without :
    (k : Kind) (id i : ℕ) (xs : List InteractionRow)
    → count (of_kind k i) (reject (λ r. r.post_id == id) xs)
      ≡ (if i == id then 0 else count (of_kind k i) xs)
unfolding count reject
count-without k id i [] = ground arith
count-without k id i (x ∷ xs) = ground (arith, count-without k id i xs)

count-without-le :
    (k : Kind) (id i u : ℕ) (xs : List InteractionRow)
    → count (is_interaction k i u) (reject (λ r. r.post_id == id) xs)
      ≤ count (is_interaction k i u) xs
unfolding count reject
count-without-le k id i u [] = omega arith
count-without-le k id i u (x ∷ xs) = ground (arith, count-without-le k id i u xs)

reject-parent_step :
    (id : ℕ) (target : Option ℕ) (g : ℤ → ℤ) (rows : List PostRow)
    → reject (is_post id) (parent_step target g rows)
      ≡ parent_step target g (reject (is_post id) rows)
unfolding reject map_where
reject-parent_step id none g rows = refl
reject-parent_step id (some p) g [] = refl
reject-parent_step id (some p) g (x ∷ xs) = ground (arith, reject-parent_step id (some p) g xs)

-- What a counter of replies reads once the row `r` is gone: one too little on the parent of a row
-- that was deleted before.
abbrev pub left_over : PostRow → (ℕ → ℕ) → ℕ → ℤ
left_over r n i =
    if is_target r.reply_to_id i && not (is_live r) then decrement (pos (n i)) else pos (n i)

-- The posts and the interactions without the row `r` of that id.
abbrev pub without_post : PostsDb → ℕ → List PostRow → PostRow → List PostRow
without_post db id posts r =
    map (orphan db id) (parent_step r.reply_to_id decrement (reject (is_post id) posts))

abbrev pub without_interactions : ℕ → List InteractionRow → List InteractionRow
without_interactions id interactions = reject (λ x. x.post_id == id) interactions

module _ (db : PostsDb) (id : ℕ) (posts : List PostRow) (interactions : List InteractionRow)
    (h : IsCounted posts interactions) (r : PostRow)
    (found : find? (is_post id) posts ≡ some r) where
  abbrev others : List PostRow
  others = reject (is_post id) posts

  abbrev left : List PostRow
  left = without_post db id posts r

  abbrev left_interactions : List InteractionRow
  left_interactions = without_interactions id interactions

  same_id : (r.id == id) ≡ true
  same_id = (find?-any (is_post id) posts r found).1

  others-count : (q : PostRow → Bool) → count q others + one_if (q r) ≡ count q posts
  others-count q = count-reject_one (is_post id) q posts r (h.ids id) found

  left-post : (i : ℕ) → count (is_post i) left + one_if (r.id == i) ≡ count (is_post i) posts
  left-post i = ground (
    arith,
    (count-orphan db id i (parent_step r.reply_to_id decrement others)).0,
    count-parent_step r.reply_to_id decrement (is_post i) others (λ x. refl),
    others-count (is_post i),
  )

  left-replies_to :
      (i : ℕ) → count (replies_to i) left ≡ (if i == id then 0 else count (replies_to i) others)
  left-replies_to i = ground (
    arith,
    (count-orphan db id i (parent_step r.reply_to_id decrement others)).1,
    count-parent_step r.reply_to_id decrement (replies_to i) others (λ x. refl),
  )

  left-live :
      (i : ℕ) → count (live_reply i) left ≡ (if i == id then 0 else count (live_reply i) others)
  left-live i = ground (
    arith,
    (count-orphan db id i (parent_step r.reply_to_id decrement others)).2,
    count-parent_step r.reply_to_id decrement (live_reply i) others (λ x. refl),
  )

  -- An id that no row has any more.
  gone_before :
      (i : ℕ) → any (is_post i) left ≡ false → (i == id) ≡ false → any (is_post i) posts ≡ false
  gone_before i e other =
      count-any (is_post i) posts
        (ground (arith, any-count (is_post i) left e, left-post i, same_id))

  abbrev Kept : PostRow → Type 0
  Kept x = ((x.id == id) ≡ false) × HasReplies (λ i. count (live_reply i) posts) x

  pub left-replies :
      All (λ x. x.reply_count ≡ left_over r (λ i. count (live_reply i) left) x.id) left
  left-replies =
      let kept =
        All-reject (HasReplies (λ i. count (live_reply i) posts)) Kept (is_post id) posts
          (λ x e p. (e, p)) h.replies in
      All-map (λ x. x.reply_count ≡ left_over r (λ i. count (live_reply i) left) x.id)
        (λ x. x.reply_count ≡ left_over r (λ i. count (live_reply i) left) x.id) (orphan db id)
        (parent_step r.reply_to_id decrement others) (λ x p. p)
        (All-parent_step Kept
          (λ x. x.reply_count ≡ left_over r (λ i. count (live_reply i) left) x.id) r.reply_to_id
          decrement others
          (λ x p. ground (
            arith,
            p.0,
            p.1,
            left-live x.id,
            others-count (live_reply x.id),
            decrement-pos (count (live_reply x.id) others),
          ))
          kept)

  pub left-likes : All (HasLikes left_interactions) left
  left-likes =
      All-map (λ x. ((x.id == id) ≡ false) × HasLikes interactions x) (HasLikes left_interactions)
        (orphan db id) (parent_step r.reply_to_id decrement others)
        (λ x p. ground (
          arith,
          p.0,
          p.1,
          count-without like id x.id interactions,
          count-without repost id x.id interactions,
        ))
        (All-parent_step (λ x. ((x.id == id) ≡ false) × HasLikes interactions x)
          (λ x. ((x.id == id) ≡ false) × HasLikes interactions x) r.reply_to_id decrement others
          (λ x p. ground (arith, p.0, p.1))
          (All-reject (HasLikes interactions)
            (λ x. ((x.id == id) ≡ false) × HasLikes interactions x) (is_post id) posts
            (λ x e p. (e, p)) h.likes))

  pub left-IsCounted : is_live r ≡ true → IsCounted left left_interactions
  left-IsCounted live = record {
    ids = λ i. ground (arith, left-post i, h.ids i);
    parents = λ i e. ground (
      arith,
      left-replies_to i,
      others-count (replies_to i),
      (λ (other : (i == id) ≡ false). h.parents i (gone_before i e other)),
    );
    targets = λ i k e. ground (
      arith,
      count-without k id i interactions,
      (λ (other : (i == id) ≡ false). h.targets i k (gone_before i e other)),
    );
    keys = λ k i u. ground (arith, count-without-le k id i u interactions, h.keys k i u);
    replies =
        All-mono (λ x. x.reply_count ≡ left_over r (λ i. count (live_reply i) left) x.id)
          (HasReplies (λ i. count (live_reply i) left)) left (λ x e. ground (arith, e, live))
          left-replies;
    likes = left-likes;
  }

module _ (db : PostsDb) (actor id : ℕ) (s : Posts) where
  -- The tables once the row `r` is gone.
  abbrev pub hard_gone : PostRow → Posts
  hard_gone r = record s {
    posts = without_post db id s.posts r;
    interactions = without_interactions id s.interactions;
    audit =
        record { actor_id = actor; action = hard_deleted; target_id = id; hard = true } ∷ s.audit;
  }

  -- `adminHardDelete` on both branches.
  admin_hard_delete_lem : admin_hard_delete db actor id s ≡ elim (find? (is_post id) s.posts) [
    | none ↦ (ok none, s)
    | some r ↦ (ok (some r), hard_gone r)
  ]
  unfolding admin_hard_delete write_audit
  admin_hard_delete_lem = elim (Option-cases (find? (is_post id) s.posts)) [
    | inl e ↦ ground (arith, find_post_lem db id s)
    | inr (r, e) ↦
        let s₁ = record s { posts = parent_step r.reply_to_id decrement s.posts } in
        let s₂ = record s₁ { interactions = without_interactions id s.interactions } in
        ground (
          arith,
          find_post_lem db id s,
          skip_parent db r.reply_to_id decrement s,
          delete_interactions_of_lem db id s₁,
          delete_post_row_lem db id s₂,
          reject-parent_step id r.reply_to_id decrement s.posts,
        )
  ]

  -- From tables whose counters are right, a moderator's hard delete of a post that is live, or of
  -- none, keeps every counter equal to what it counts.
  pub admin_hard_delete-Counted :
      Counted s
      → ((r : PostRow) → find? (is_post id) s.posts ≡ some r → is_live r ≡ true)
      → Counted (admin_hard_delete db actor id s).1
  admin_hard_delete-Counted h live =
      rw admin_hard_delete_lem (elim (Option-cases (find? (is_post id) s.posts)) [
        | inl e ↦ rw e h
        | inr (r, e) ↦ rw e (left-IsCounted db id s.posts s.interactions h r e (live r e))
      ])

  -- From tables whose counters are right, a hard delete of a reply that was deleted softly before takes
  -- one from the counter of its parent for the second time: the parent reads one less than the number of its live replies.
  pub admin_hard_delete-twice :
      (parent : ℕ) (r q : PostRow)
      → Counted s
      → find? (is_post id) s.posts ≡ some r
      → is_live r ≡ false
      → r.reply_to_id ≡ some parent
      → let s' = (admin_hard_delete db actor id s).1 in
        find? (is_post parent) s'.posts ≡ some q
        → q.reply_count ≡ decrement (pos (count (live_reply parent) s'.posts))
  admin_hard_delete-twice parent r q h found deleted reply there =
      let e : (admin_hard_delete db actor id s).1 ≡ hard_gone r =
        rw (admin_hard_delete_lem, found) refl in
      let rows = without_post db id s.posts r in
      let there' : find? (is_post parent) rows ≡ some q = rw e at there in
      rw e (
        let reads =
          All-find? _ (is_post parent) rows q there'
            (left-replies db id s.posts s.interactions h r found) in
        ground (arith, reads, find?-any (is_post parent) rows q there'))
