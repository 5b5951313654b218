-- ===== src/Posts/Reactions.antt =====
-- The two transactions on interactions, and the counters under them
-- (apps/services/posts/src/modules/posts.repository.ts, createInteraction, deleteInteraction).
use xitter.Prelude.{
  ℕ, ◌≡◌, true, false, none, some, List, ◌∷◌, if◌then◌else◌, find?, any, map_where, reject, arith,
  Option-cases, Bool-cases, inl, inr,
}
use xitter.Database.Rows.{count-pos, is_some-find?}
use xitter.Database.Counts.{any-count, reject_none}
use xitter.Posts.{
  Kind, like, repost, bookmark, PostRow, InteractionRow, PostsDb, Posts, Env, ok, err, internal,
  is_post, is_interaction, one_more, one_less, is_counted, create_interaction, delete_interaction,
}
use xitter.Posts.Queries.{
  update_post_lem, update_or_skip_lem, insert_interaction_lem, find_interaction_lem,
}
use xitter.Posts.Moderation.{Counted}
use xitter.Posts.Interactions.{map_where_id, same_kind_refl, landed-IsCounted, gone-IsCounted}

abbrev pub interaction_of : Env → Kind → ℕ → ℕ → InteractionRow
interaction_of env k post user = record {
  id = env.fresh_id;
  kind = k;
  post_id = post;
  user_id = user;
  created_at = env.now;
}

-- The tables after an interaction landed, and after one went.
abbrev pub landed : InteractionRow → Posts → Posts
landed new s = record s {
  interactions = new ∷ s.interactions;
  posts = map_where (is_post new.post_id) (one_more new.kind) s.posts;
}

abbrev pub gone : Kind → ℕ → ℕ → Posts → Posts
gone k post user s = record s {
  interactions = reject (is_interaction k post user) s.interactions;
  posts = map_where (is_post post) (one_less k) s.posts;
}

-- A kind with no counter moves none.
bookmark_step :
    (k : Kind) (post : ℕ) (posts : List PostRow)
    → is_counted k ≡ false
    → (map_where (is_post post) (one_more k) posts ≡ posts)
      × (map_where (is_post post) (one_less k) posts ≡ posts)
bookmark_step like post posts e = cc e
bookmark_step repost post posts e = cc e
bookmark_step bookmark post posts e =
    (map_where_id (is_post post) posts, map_where_id (is_post post) posts)

module _ (db : PostsDb) where
  -- `createInteraction` on every branch: it is rejected where the post is no row; it gives the stored
  -- row and changes nothing where the user has that interaction with the post already; otherwise the
  -- new row lands and the counter of its kind goes up by one in the same transaction.
  pub create_interaction_lem :
      (env : Env) (k : Kind) (post user : ℕ) (s : Posts)
      → create_interaction db env k post user s ≡ (
          if any (is_post post) s.posts
          then elim (find? (is_interaction k post user) s.interactions) [
            | some row ↦ (ok (row, false), s)
            | none ↦ (
              ok (interaction_of env k post user, true),
              landed (interaction_of env k post user) s,
            )
          ]
          else (err internal, s))
  unfolding create_interaction find?
  create_interaction_lem env k post user s =
      let new = interaction_of env k post user in
      let s₁ = record s { interactions = new ∷ s.interactions } in
      elim (Option-cases (find? (is_interaction k post user) s.interactions)) [
        | inl fresh ↦ ground (
          arith,
          insert_interaction_lem db new s,
          find_interaction_lem db k post user s₁,
          is_some-find? (is_interaction k post user) s.interactions,
          update_post_lem db post (one_more k) s₁,
          same_kind_refl k,
          bookmark_step k post s.posts,
        )
        | inr (row, stored) ↦ ground (
          arith,
          insert_interaction_lem db new s,
          find_interaction_lem db k post user s,
          is_some-find? (is_interaction k post user) s.interactions,
        )
      ]

  pub delete_interaction_lem :
      (k : Kind) (post user : ℕ) (s : Posts)
      → delete_interaction db k post user s ≡ (
          if any (is_interaction k post user) s.interactions
          then (ok true, gone k post user s)
          else (ok false, s))
  unfolding delete_interaction
  delete_interaction_lem k post user s =
      let s₁ = record s { interactions = reject (is_interaction k post user) s.interactions } in
      ground (
        arith,
        db.interaction.delete_many_lem (is_interaction k post user) s.interactions,
        count-pos (is_interaction k post user) s.interactions,
        any-count (is_interaction k post user) s.interactions,
        reject_none (is_interaction k post user) s.interactions,
        update_or_skip_lem db post (one_less k) s₁,
        bookmark_step k post s.posts,
      )

  pub create_interaction-Counted :
      (env : Env) (k : Kind) (post user : ℕ) (s : Posts)
      → Counted s
      → Counted (create_interaction db env k post user s).1
  create_interaction-Counted env k post user s h =
      rw (create_interaction_lem env k post user s)
        (elim (Bool-cases (any (is_post post) s.posts)) [
          | inr missing ↦ rw missing h
          | inl here ↦
              rw here (elim (Option-cases (find? (is_interaction k post user) s.interactions)) [
                | inl fresh ↦
                    let absent : any (is_interaction k post user) s.interactions ≡ false =
                      ground (arith, is_some-find? (is_interaction k post user) s.interactions) in
                    rw fresh (
                      landed-IsCounted s.posts s.interactions h (interaction_of env k post user)
                        here absent)
                | inr (row, stored) ↦ rw stored h
              ])
        ])

  pub delete_interaction-Counted :
      (k : Kind) (post user : ℕ) (s : Posts)
      → Counted s
      → Counted (delete_interaction db k post user s).1
  delete_interaction-Counted k post user s h =
      rw (delete_interaction_lem k post user s)
        (elim (Bool-cases (any (is_interaction k post user) s.interactions)) [
          | inr none_there ↦ rw none_there h
          | inl there ↦
              rw there (elim (Option-cases (find? (is_interaction k post user) s.interactions)) [
                | inl e ↦
                    absurd
                      (ground (arith, is_some-find? (is_interaction k post user) s.interactions))
                | inr (row, found) ↦ gone-IsCounted s.posts s.interactions h k post user row found
              ])
        ])
