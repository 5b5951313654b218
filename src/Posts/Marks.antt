-- ===== src/Posts/Marks.antt =====
-- The deletion mark of a post and the counter of its parent, on the list of posts
-- (apps/services/posts/src/modules/posts.repository.ts, softDelete, adminSoftDelete, adminRestore).
use xitter.Prelude.{
  ℕ, ◌+◌, ◌≡◌, refl, ◌∙◌, Bool, true, false, not, ◌&&◌, Option, none, some, List, ◌==◌,
  if◌then◌else◌, is_some, count, find?, map_where, All, arith,
}
use xitter.Prelude.Int.{ℤ, pos, increment, decrement, increment-pos, decrement-pos}
use xitter.Database.Counts.{
  one_if, count-map_where_same, count-map_where_one, All-mono, All-map_where,
}
use xitter.Posts.{PostRow, InteractionRow, is_post, is_live}
use xitter.Posts.Counts.{
  replies_to, live_reply, HasReplies, HasLikes, IsCounted, SameKeys, SameKeys-IsCounted,
}

abbrev pub with_replies : (ℤ → ℤ) → PostRow → PostRow
with_replies g r = record r { reply_count = g r.reply_count }

abbrev pub parent_step : Option ℕ → (ℤ → ℤ) → List PostRow → List PostRow
parent_step none g posts = posts
parent_step (some id) g posts = map_where (is_post id) (with_replies g) posts

abbrev pub set_deleted : Option ℕ → PostRow → PostRow
set_deleted d r = record r { deleted_at = d }

abbrev pub is_target : Option ℕ → ℕ → Bool
is_target none id = false
is_target (some parent) id = id == parent

pub count-parent_step :
    (target : Option ℕ) (g : ℤ → ℤ) (q : PostRow → Bool) (rows : List PostRow)
    → ((x : PostRow) → q (with_replies g x) ≡ q x)
    → count q (parent_step target g rows) ≡ count q rows
count-parent_step none g q rows e = refl
count-parent_step (some id) g q rows e = count-map_where_same (is_post id) q (with_replies g) rows e

pub All-parent_step {κ μ} :
    (P : PostRow → Type κ) (Q : PostRow → Type μ) (target : Option ℕ) (g : ℤ → ℤ)
    (rows : List PostRow)
    → ((x : PostRow) → P x → Q (if is_target target x.id then with_replies g x else x))
    → All P rows
    → All Q (parent_step target g rows)
All-parent_step P Q none g rows e a = All-mono P Q rows e a
All-parent_step P Q (some id) g rows e a = All-map_where P Q (is_post id) (with_replies g) rows e a

module _ (posts : List PostRow) (interactions : List InteractionRow)
    (h : IsCounted posts interactions) where
  -- A step of one parent's counter on rows whose counters still read `n`.
  pub parent_step-IsCounted :
      (target : Option ℕ) (g : ℤ → ℤ) (n : ℕ → ℕ) (rows : List PostRow)
      → SameKeys posts rows
      → All (HasReplies n) rows
      → All (HasLikes interactions) rows
      → ((i : ℕ)
          → (if is_target target i then g (pos (n i)) else pos (n i))
            ≡ pos (count (live_reply i) rows))
      → IsCounted (parent_step target g rows) interactions
  parent_step-IsCounted target g n rows keys replies likes moved =
      SameKeys-IsCounted posts (parent_step target g rows) interactions
        (record {
          ids = λ i. count-parent_step target g (is_post i) rows (λ x. refl) ∙ keys.ids i;
          parents =
              λ i. count-parent_step target g (replies_to i) rows (λ x. refl) ∙ keys.parents i;
        })
        h
        (All-parent_step (HasReplies n)
          (HasReplies (λ i. count (live_reply i) (parent_step target g rows))) target g rows
          (λ x e.
            ground
              (arith, moved x.id, count-parent_step target g (live_reply x.id) rows (λ x. refl)))
          replies)
        (All-parent_step (HasLikes interactions) (HasLikes interactions) target g rows
          (λ x e. ground arith) likes)

  module _ (id : ℕ) (d : Option ℕ) (r : PostRow) (found : find? (is_post id) posts ≡ some r) where
    abbrev marked : List PostRow
    marked = map_where (is_post id) (set_deleted d) posts

    marked-live :
        (i : ℕ)
        → count (live_reply i) marked + one_if (live_reply i r)
          ≡ count (live_reply i) posts + one_if (replies_to i r && not (is_some d))
    marked-live i =
        count-map_where_one (is_post id) (live_reply i) (set_deleted d) posts r (h.ids id) found

    marked-keys : SameKeys posts marked
    marked-keys = record {
      ids = λ i. count-map_where_same (is_post id) (is_post i) (set_deleted d) posts (λ x. refl);
      parents =
          λ i. count-map_where_same (is_post id) (replies_to i) (set_deleted d) posts (λ x. refl);
    }

    marked-replies : All (HasReplies (λ i. count (live_reply i) posts)) marked
    marked-replies =
        All-map_where (HasReplies (λ i. count (live_reply i) posts))
          (HasReplies (λ i. count (live_reply i) posts)) (is_post id) (set_deleted d) posts
          (λ x e. ground arith) h.replies

    marked-likes : All (HasLikes interactions) marked
    marked-likes =
        All-map_where (HasLikes interactions) (HasLikes interactions) (is_post id) (set_deleted d)
          posts (λ x e. ground arith) h.likes

    -- The reply that goes takes one from its parent's counter.
    pub soft_deleted-IsCounted :
        is_some d ≡ true
        → is_live r ≡ true
        → IsCounted (parent_step r.reply_to_id decrement marked) interactions
    soft_deleted-IsCounted gone live =
        parent_step-IsCounted r.reply_to_id decrement (λ i. count (live_reply i) posts) marked
          marked-keys marked-replies marked-likes
          (λ i. ground (arith, marked-live i, decrement-pos (count (live_reply i) marked)))

    -- The reply that comes back gives it one.
    pub restored-IsCounted :
        is_some d ≡ false
        → is_live r ≡ false
        → IsCounted (parent_step r.reply_to_id increment marked) interactions
    restored-IsCounted back gone =
        parent_step-IsCounted r.reply_to_id increment (λ i. count (live_reply i) posts) marked
          marked-keys marked-replies marked-likes
          (λ i. ground (arith, marked-live i, increment-pos (count (live_reply i) posts)))
