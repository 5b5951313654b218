-- ===== src/Posts.antt =====
-- The tables of the posts service and the queries on them
-- (apps/services/posts/src/modules/posts.repository.ts). A transaction that a rejected query ends is
-- rolled back. The state also holds what the service above it publishes, newest first.
pub mod Queries
pub mod Counts
pub mod Marks
pub mod Moderation
pub mod Interactions
pub mod Reactions
pub mod Creation
pub mod HardDelete
pub mod Viewer
pub mod Writes
pub mod Service
pub mod Requests
pub mod Drafts
pub mod Threads
pub mod Attachments
mod Tests
mod Tables
use xitter.Prelude.{
  ℕ, ◌≡◌, Bool, true, false, not, ◌&&◌, ◌||◌, Option, none, some, List, [], ◌∷◌, map, ltb, ◌==◌,
  same, if◌then◌else◌, is_some, is_empty, any,
}
use xitter.Prelude.Int.{ℤ, pos, increment, decrement}
use xitter.Database.{Client}
unfoldable pub use Tables.*

module _ (db : PostsDb) where
  unfoldable pub find_post : ℕ → Posts → Option PostRow
  find_post id s = db.post.find_first (is_post id) s.posts

  unfoldable pub find_visible_post : ℕ → Posts → Option PostRow
  find_visible_post id s = db.post.find_first (λ r. is_post id r && is_live r) s.posts

  unfoldable pub find_deleted_post : ℕ → Posts → Option PostRow
  find_deleted_post id s = db.post.find_first (λ r. is_post id r && not (is_live r)) s.posts

  unfoldable pub visible_posts : List ℕ → Posts → List PostRow
  visible_posts ids s =
      if is_empty ids
      then []
      else db.post.find_many (λ r. any (λ id. is_post id r) ids && is_live r) s.posts

  -- `update` by id; `false` where no row has it, which rejects the query.
  unfoldable pub update_post : ℕ → (PostRow → PostRow) → Action Bool
  update_post id f s = elim (db.post.update (is_post id) f s.posts) [
    | none ↦ (ok false, s)
    | some rows ↦ (ok true, record s { posts = rows })
  ]

  -- The rejection ends the transaction, or it is caught.
  abbrev pub update_or_throw : ℕ → (PostRow → PostRow) → Action (Unit {0})
  update_or_throw id f = do throw_if (not (← update_post id f)) internal

  abbrev pub update_or_skip : Option ℕ → (PostRow → PostRow) → Action (Unit {0})
  update_or_skip none f = pure tt
  update_or_skip (some id) f = update_post id f >>= λ _. pure tt

  abbrev pub bump_parent : Option ℕ → Action (Unit {0})
  bump_parent none = pure tt
  bump_parent (some id) = update_or_throw id one_more_reply

  -- The foreign key of a reply: its parent is a row.
  unfoldable pub has_parent : Option ℕ → Posts → Bool
  has_parent none s = true
  has_parent (some id) s = is_some (find_post id s)

  unfoldable pub insert_post : PostRow → Action (Unit {0})
  insert_post row = do
    throw_if (not (← gets (has_parent row.reply_to_id))) internal
    rows ← gets (λ s. db.post.create same_post row s.posts)
    elim rows [ none ↦ throw internal | some posts ↦ modify (λ s. record s { posts = posts }) ]

  unfoldable pub create_post : Env → NewPost → Action PostRow
  create_post env input =
      transaction (do
        insert_post (post_of env input)
        bump_parent input.reply_to_id
        pure (post_of env input))

  -- The steps that the deletes and the restore share: the deletion mark of a row that was found,
  -- and the counter of its parent.
  unfoldable pub mark_deleted : Option ℕ → (PostRow → PostRow) → PostRow → Action PostRow
  mark_deleted deleted_at count_reply r = do
    update_or_throw r.id (λ x. record x { deleted_at = deleted_at })
    update_or_skip r.reply_to_id count_reply
    pure (record r { deleted_at = deleted_at })

  unfoldable pub write_audit : AuditRow → Action (Unit {0})
  write_audit row = modify (λ s. record s { audit = row ∷ s.audit })

  unfoldable pub soft_delete : Env → ℕ → Action (Option PostRow)
  soft_delete env id = transaction (do
    existing ← gets (find_visible_post id)
    elim existing [
      | none ↦ pure none
      | some r ↦ do deleted ← mark_deleted (some env.now) one_less_reply r; pure (some deleted)
    ])

  unfoldable pub admin_soft_delete : Env → ℕ → ℕ → Action (Option PostRow)
  admin_soft_delete env actor id = transaction (do
    existing ← gets (find_visible_post id)
    elim existing [
      | none ↦ pure none
      | some r ↦ do
        deleted ← mark_deleted (some env.now) one_less_reply r
        write_audit
            (record { actor_id = actor; action = soft_deleted; target_id = id; hard = false })
        pure (some deleted)
    ])

  unfoldable pub admin_restore : ℕ → ℕ → Action (Option PostRow)
  admin_restore actor id = transaction (do
    existing ← gets (find_deleted_post id)
    elim existing [
      | none ↦ pure none
      | some r ↦ do
        row ← mark_deleted none one_more_reply r
        write_audit (record { actor_id = actor; action = restored; target_id = id; hard = false })
        pure (some row)
    ])

  -- A delete of the row, whose replies keep no parent (ON DELETE SET NULL).
  abbrev pub orphan : ℕ → PostRow → PostRow
  orphan id r = record r {
    reply_to_id = if same r.reply_to_id (some id) then none else r.reply_to_id;
  }

  unfoldable pub delete_post_row : ℕ → Action (Unit {0})
  delete_post_row id =
      modify
        (λ s. record s { posts = map (orphan id) (db.post.delete_many (is_post id) s.posts).1 })

  unfoldable pub delete_interactions_of : ℕ → Action (Unit {0})
  delete_interactions_of id = modify (λ s. record s {
    interactions = (db.interaction.delete_many (λ r. r.post_id == id) s.interactions).1;
  })

  -- The post is looked up whether it is deleted or not.
  unfoldable pub admin_hard_delete : ℕ → ℕ → Action (Option PostRow)
  admin_hard_delete actor id = transaction (do
    existing ← gets (find_post id)
    elim existing [
      | none ↦ pure none
      | some r ↦ do
        update_or_skip r.reply_to_id one_less_reply
        delete_interactions_of id
        delete_post_row id
        write_audit
            (record { actor_id = actor; action = hard_deleted; target_id = id; hard = true })
        pure (some r)
    ])

  unfoldable pub find_interaction : Kind → ℕ → ℕ → Posts → Option InteractionRow
  find_interaction k post user s =
      db.interaction.find_first (is_interaction k post user) s.interactions

  -- `createMany`, which is rejected where the post is no row: the number of rows that landed.
  unfoldable pub insert_interaction : InteractionRow → Action ℕ
  insert_interaction row = do
    throw_if (not (is_some (← gets (find_post row.post_id)))) internal
    (n, rows) ← gets (λ s. db.interaction.create_many same_interaction (row ∷ []) s.interactions)
    modify (λ s. record s { interactions = rows })
    pure n

  unfoldable pub create_interaction : Env → Kind → ℕ → ℕ → Action (InteractionRow × Bool)
  create_interaction env k post user = transaction (do
    n ← insert_interaction (record {
      id = env.fresh_id;
      kind = k;
      post_id = post;
      user_id = user;
      created_at = env.now;
    })
    found ← gets (find_interaction k post user)
    elim found [
      | none ↦ throw internal
      | some row ↦ do
        when (ltb 0 n && is_counted k) (update_or_throw post (one_more k))
        pure (row, ltb 0 n)
    ])

  unfoldable pub delete_interaction : Kind → ℕ → ℕ → Action Bool
  delete_interaction k post user = transaction (do
    (n, rows) ← gets (λ s. db.interaction.delete_many (is_interaction k post user) s.interactions)
    modify (λ s. record s { interactions = rows })
    when (ltb 0 n && is_counted k) (update_or_skip (some post) (one_less k))
    pure (ltb 0 n))

  unfoldable pub delete_all_interactions : Action (Unit {0})
  delete_all_interactions =
      modify
        (λ s. record s { interactions = (db.interaction.delete_many (λ r. true) s.interactions).1 })

  unfoldable pub delete_all_posts : Action (Unit {0})
  delete_all_posts = modify (λ s. record s { posts = (db.post.delete_many (λ r. true) s.posts).1 })

  -- Two queries in no transaction, each of which the database answers or rejects.
  unfoldable pub truncate : Bool → Bool → Action (Unit {0})
  unfolding delete_all_interactions delete_all_posts
  truncate first second = do
    throw_if (not first) internal
    delete_all_interactions
    throw_if (not second) internal
    delete_all_posts
