-- ===== src/Posts/Queries.antt =====
-- The queries of the posts repository on the lists of rows
-- (apps/services/posts/src/modules/posts.repository.ts).
use xitter.Prelude.{
  ℕ, ◌≡◌, true, false, not, ◌&&◌, some, [], ◌∷◌, map, ◌==◌, if◌then◌else◌, any, find?, map_where,
  reject, arith, inl, inr, Bool-cases,
}
use xitter.Database.{insert_all}
use xitter.Database.Rows.{is_some-find?}
use xitter.Database.Counts.{any-count, map_where_none}
use xitter.Posts.{
  Kind, PostRow, InteractionRow, PostsDb, Posts, ok, err, internal, is_post, is_live,
  is_interaction, same_interaction, same_post, find_post, find_visible_post, find_deleted_post,
  update_post, update_or_skip, has_parent, insert_post, delete_post_row, delete_interactions_of,
  orphan, insert_interaction, find_interaction,
}

module _ (db : PostsDb) where
  pub find_post_lem : (id : ℕ) (s : Posts) → find_post db id s ≡ find? (is_post id) s.posts
  unfolding find_post
  find_post_lem id s = rw db.post.find_first_lem

  pub find_visible_post_lem :
      (id : ℕ) (s : Posts)
      → find_visible_post db id s ≡ find? (λ r. is_post id r && is_live r) s.posts
  unfolding find_visible_post
  find_visible_post_lem id s = rw db.post.find_first_lem

  pub find_deleted_post_lem :
      (id : ℕ) (s : Posts)
      → find_deleted_post db id s ≡ find? (λ r. is_post id r && not (is_live r)) s.posts
  unfolding find_deleted_post
  find_deleted_post_lem id s = rw db.post.find_first_lem

  pub update_post_lem :
      (id : ℕ) (f : PostRow → PostRow) (s : Posts)
      → update_post db id f s ≡ (
          if any (is_post id) s.posts
          then (ok true, record s { posts = map_where (is_post id) f s.posts })
          else (ok false, s))
  unfolding update_post
  update_post_lem id f s = ground (arith, db.post.update_lem (is_post id) f s.posts)

  -- An update whose rejection is caught.
  pub update_or_skip_lem :
      (id : ℕ) (f : PostRow → PostRow) (s : Posts)
      → update_or_skip db (some id) f s
        ≡ (ok tt, record s { posts = map_where (is_post id) f s.posts })
  update_or_skip_lem id f s = elim (Bool-cases (any (is_post id) s.posts)) [
    | inl here ↦ ground (arith, update_post_lem id f s)
    | inr gone ↦ ground (
      arith,
      update_post_lem id f s,
      map_where_none (is_post id) f s.posts,
      any-count (is_post id) s.posts gone,
    )
  ]

  pub has_parent_lem : (id : ℕ) (s : Posts) → has_parent db (some id) s ≡ any (is_post id) s.posts
  unfolding has_parent
  has_parent_lem id s = rw (find_post_lem id s) (is_some-find? (is_post id) s.posts)

  pub insert_post_lem :
      (row : PostRow) (s : Posts)
      → insert_post db row s ≡ (
          if has_parent db row.reply_to_id s && not (any (is_post row.id) s.posts)
          then (ok tt, record s { posts = row ∷ s.posts })
          else (err internal, s))
  unfolding insert_post
  insert_post_lem row s = ground (arith, db.post.create_lem same_post row s.posts)

  pub delete_post_row_lem :
      (id : ℕ) (s : Posts)
      → delete_post_row db id s
        ≡ (ok tt, record s { posts = map (orphan db id) (reject (is_post id) s.posts) })
  unfolding delete_post_row
  delete_post_row_lem id s = simp db.post.delete_many_lem

  pub delete_interactions_of_lem :
      (id : ℕ) (s : Posts)
      → delete_interactions_of db id s
        ≡ (ok tt, record s { interactions = reject (λ r. r.post_id == id) s.interactions })
  unfolding delete_interactions_of
  delete_interactions_of_lem id s = simp db.interaction.delete_many_lem

  pub insert_interaction_lem :
      (row : InteractionRow) (s : Posts)
      → insert_interaction db row s ≡ (
          if any (is_post row.post_id) s.posts
          then (if any (same_interaction row) s.interactions
              then (ok 0, s)
              else (ok 1, record s { interactions = row ∷ s.interactions }))
          else (err internal, s))
  unfolding insert_interaction insert_all
  insert_interaction_lem row s = ground (
    arith,
    find_post_lem row.post_id s,
    is_some-find? (is_post row.post_id) s.posts,
    db.interaction.create_many_lem same_interaction (row ∷ []) s.interactions,
  )

  pub find_interaction_lem :
      (k : Kind) (post user : ℕ) (s : Posts)
      → find_interaction db k post user s ≡ find? (is_interaction k post user) s.interactions
  unfolding find_interaction
  find_interaction_lem k post user s = rw db.interaction.find_first_lem
