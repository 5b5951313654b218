-- ===== src/Posts/Writes.antt =====
-- Runs of the transactions that write the posts tables
-- (apps/services/posts/src/modules/posts.repository.ts).

use xitter.Prelude.{
  ℕ, all, Bool, false, not, ◌||◌, ◌≡◌, refl, true, List, [], ◌∷◌, reject, count, arith,
}
use xitter.Posts.{
  err, internal, Kind, PostsDb, Posts, Env, NewPost, create_post, soft_delete, admin_soft_delete,
  admin_restore, create_interaction, delete_interaction, truncate, delete_all_interactions,
  delete_all_posts,
}
use xitter.Posts.Counts.{IsCounted}
use xitter.Posts.Moderation.{Counted, marks-Counted}
use xitter.Posts.Creation.{create_post-Counted}
use xitter.Posts.Reactions.{create_interaction-Counted, delete_interaction-Counted}

-- Every write of the repository except the hard delete.
pub data Write : Type 0 where
  created : NewPost → Write
  soft_deleted : ℕ → Write
  admin_soft_deleted restored : ℕ → ℕ → Write
  interacted withdrawn : Kind → ℕ → ℕ → Write
  truncated : Bool → Bool → Write

-- A truncation is not cut off between its two deletes.
abbrev pub is_whole : Write → Bool
is_whole (created input) = true
is_whole (soft_deleted id) = true
is_whole (admin_soft_deleted actor id) = true
is_whole (restored actor id) = true
is_whole (interacted k post user) = true
is_whole (withdrawn k post user) = true
is_whole (truncated first second) = not first || second

module _ (db : PostsDb) where
  unfoldable pub write : Env → Write → Posts → Posts
  write env (created input) s = (create_post db env input s).1
  write env (soft_deleted id) s = (soft_delete db env id s).1
  write env (admin_soft_deleted actor id) s = (admin_soft_delete db env actor id s).1
  write env (restored actor id) s = (admin_restore db actor id s).1
  write env (interacted k post user) s = (create_interaction db env k post user s).1
  write env (withdrawn k post user) s = (delete_interaction db k post user s).1
  write env (truncated first second) s = (truncate db first second s).1

  unfoldable pub run : List (Env × Write) → Posts → Posts
  run [] s = s
  run ((env, w) ∷ rest) s = run rest (write env w s)

  empty-IsCounted : IsCounted [] []
  unfolding count
  empty-IsCounted = record {
    ids = λ i. omega arith;
    parents = λ i e. refl;
    targets = λ i k e. refl;
    keys = λ k i u. omega arith;
    replies = tt;
    likes = tt;
  }

  reject_all : {Row : Type 0} → (rows : List Row) → reject (λ r. true) rows ≡ []
  unfolding reject
  reject_all [] = refl
  reject_all (x ∷ xs) = reject_all xs

  truncate-Counted :
      (first second : Bool) (s : Posts)
      → (not first || second) ≡ true
      → Counted s
      → Counted (truncate db first second s).1
  unfolding truncate delete_all_interactions delete_all_posts
  truncate-Counted false second s e h = h
  truncate-Counted true false s e h = absurd (cc e)
  truncate-Counted true true s e h =
      rw
        (
          db.post.delete_many_lem (λ r. true) s.posts,
          db.interaction.delete_many_lem (λ r. true) s.interactions,
          reject_all s.posts,
          reject_all s.interactions,
        )
        empty-IsCounted

  write-Counted :
      (env : Env) (w : Write) (s : Posts) → is_whole w ≡ true → Counted s → Counted (write env w s)
  unfolding write
  write-Counted env (created input) s e h = create_post-Counted db env input s h
  write-Counted env (soft_deleted id) s e h = (marks-Counted db id s h env 0).0
  write-Counted env (admin_soft_deleted actor id) s e h = (marks-Counted db id s h env actor).1
  write-Counted env (restored actor id) s e h = (marks-Counted db id s h env actor).2
  write-Counted env (interacted k post user) s e h =
      create_interaction-Counted db env k post user s h
  write-Counted env (withdrawn k post user) s e h = delete_interaction-Counted db k post user s h
  write-Counted env (truncated first second) s e h = truncate-Counted first second s e h

  -- From tables whose counters are right, through any run of creations, soft deletes by authors and
  -- moderators, restores, interactions, their undoing and truncations, in any order, whether each is
  -- carried out or throws, if no truncation throws between its two deletes: every counter of every
  -- post stays the number of rows that it counts, the keys stay unique and the foreign keys point to
  -- rows.
  pub run-Counted :
      (writes : List (Env × Write)) (s : Posts)
      → all (λ w. is_whole w.1) writes ≡ true
      → Counted s
      → Counted (run writes s)
  unfolding run all
  run-Counted [] s e h = h
  run-Counted ((env, w) ∷ rest) s e h =
      run-Counted rest (write env w s) (ground arith) (write-Counted env w s (ground arith) h)

  -- A truncation whose second delete is rejected leaves every post with its counters and no
  -- interaction.
  pub truncate-cut_off :
      (s : Posts) → truncate db true false s ≡ (err internal, record s { interactions = [] })
  unfolding truncate delete_all_interactions
  truncate-cut_off s =
      rw (db.interaction.delete_many_lem (λ r. true) s.interactions, reject_all s.interactions) refl
