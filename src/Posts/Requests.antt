-- ===== src/Posts/Requests.antt =====
-- What the requests on posts promise: who may interact, what an interaction writes, that a repeated
-- one writes nothing (apps/services/posts/src/modules/posts.service.ts).
use xitter.Prelude.{
  ℕ, ◌≡◌, refl, Bool, true, false, not, ◌&&◌, Option, none, some, List, [], ◌∷◌, ◌==◌,
  if◌then◌else◌, is_some, find?, any, map_where, ◌⊎◌, arith, Option-cases, inl, inr,
}
use xitter.Posts.{
  Kind, like, repost, bookmark, PostRow, InteractionRow, interaction_created, PostsDb, Posts, Env,
  ok, err, Error, not_found, forbidden, unavailable, is_post, is_live, one_more, is_interaction,
  find_visible_post,
}
use xitter.Posts.Service.{
  Peers, Interaction, emit_safe, notify_author, require_unblocked, require_visible, interact,
  may_ping,
}
use xitter.Posts.Queries.{find_visible_post_lem}
use xitter.Posts.Interactions.{same_kind_refl}
use xitter.Posts.Reactions.{interaction_of, landed, create_interaction_lem}

-- Why a user may not act on a post.
abbrev pub refusal : Peers → ℕ → PostRow → Option Error
refusal peers user post =
    if post.author_id == user then none else elim (peers.blocked user post.author_id) [
      | none ↦ some unavailable
      | some blocked ↦ if blocked then some forbidden else none
    ]

-- The tables, events and pings after a new interaction.
abbrev pub interacted : Env → Kind → ℕ → ℕ → PostRow → Posts → Posts
interacted env k caller id post s =
    let s₁ = landed (interaction_of env k id caller) s in
    record s₁ {
      events =
          if env.accepts (interaction_created k id caller)
          then interaction_created k id caller ∷ s.events
          else s.events;
      pings =
          if may_ping k && not (post.author_id == caller)
          then post.author_id ∷ s.pings
          else s.pings;
    }

find-any :
    (p l : PostRow → Bool) (rows : List PostRow) (r : PostRow)
    → find? (λ x. p x && l x) rows ≡ some r
    → any p rows ≡ true
unfolding find? any
find-any p l [] r e = ground arith
find-any p l (x ∷ xs) r e = ground (arith, find-any p l xs r)

visible-any :
    (db : PostsDb) (id : ℕ) (s : Posts) (post : PostRow)
    → find_visible_post db id s ≡ some post
    → any (is_post id) s.posts ≡ true
visible-any db id s post e =
    find-any (is_post id) is_live s.posts post (rw (find_visible_post_lem db id s) at e)

-- The post is still seen once its counter has moved.
find-one_more :
    (id : ℕ) (k : Kind) (rows : List PostRow) (r : PostRow)
    → find? (λ x. is_post id x && is_live x) rows ≡ some r
    → find? (λ x. is_post id x && is_live x) (map_where (is_post id) (one_more k) rows)
      ≡ some (one_more k r)
unfolding find? map_where
find-one_more id k [] r e = ground arith
find-one_more id like (x ∷ xs) r e = ground (arith, find-one_more id like xs r)
find-one_more id repost (x ∷ xs) r e = ground (arith, find-one_more id repost xs r)
find-one_more id bookmark (x ∷ xs) r e = ground (arith, find-one_more id bookmark xs r)

refusal-one_more :
    (peers : Peers) (user : ℕ) (k : Kind) (r : PostRow)
    → refusal peers user (one_more k r) ≡ refusal peers user r
refusal-one_more peers user like r = refl
refusal-one_more peers user repost r = refl
refusal-one_more peers user bookmark r = refl

find-new :
    (new : InteractionRow) (k : Kind) (post user : ℕ) (rows : List InteractionRow)
    → is_interaction k post user new ≡ true
    → find? (is_interaction k post user) (new ∷ rows) ≡ some new
unfolding find?
find-new new k post user rows e = ground arith

unblocked :
    (peers : Peers) (user : ℕ) (post : PostRow)
    → refusal peers user post ≡ none
    → (post.author_id ≡ user) ⊎ (peers.blocked user post.author_id ≡ some false)
unblocked peers user post e = ground arith

module _ (db : PostsDb) (peers : Peers) where
  pub require_unblocked_lem :
      (user : ℕ) (post : PostRow) (s : Posts)
      → require_unblocked db peers user post s
        ≡ elim (refusal peers user post) [ none ↦ (ok tt, s) | some e ↦ (err e, s) ]
  unfolding require_unblocked
  require_unblocked_lem user post s = ground arith

  pub interact_lem :
      (env : Env) (caller id : ℕ) (k : Kind) (s : Posts)
      → interact db peers env caller id k s ≡ elim (find_visible_post db id s) [
        | none ↦ (err not_found, s)
        | some post ↦ elim (refusal peers caller post) [
          | some e ↦ (err e, s)
          | none ↦ elim (find? (is_interaction k id caller) s.interactions) [
            | some row ↦ (
              ok (record { kind = k; post_id = id; user_id = caller; created_at = row.created_at }),
              s,
            )
            | none ↦ (
              ok (record { kind = k; post_id = id; user_id = caller; created_at = env.now }),
              interacted env k caller id post s,
            )
          ]
        ]
      ]
  unfolding interact require_visible emit_safe notify_author
  interact_lem env caller id k s = elim (Option-cases (find_visible_post db id s)) [
    | inl e ↦ ground arith
    | inr (post, e) ↦ elim (Option-cases (refusal peers caller post)) [
      | inr (why, refused) ↦ ground (arith, require_unblocked_lem caller post s)
      | inl allowed ↦
          let here : any (is_post id) s.posts ≡ true = visible-any db id s post e in
          elim (Option-cases (find? (is_interaction k id caller) s.interactions)) [
            | inl fresh ↦ ground (
              arith,
              require_unblocked_lem caller post s,
              create_interaction_lem db env k id caller s,
            )
            | inr (row, stored) ↦ ground (
              arith,
              require_unblocked_lem caller post s,
              create_interaction_lem db env k id caller s,
            )
          ]
    ]
  ]

  -- A request to interact either answers the interaction that it asks for or throws. Where it answers,
  -- the post was visible, the user is its author or the social service said that no block exists, and
  -- the interaction is a row afterwards. Where it throws, it has changed nothing.
  pub interact_effect :
      (env : Env) (caller id : ℕ) (k : Kind) (s : Posts)
      → let (r, s') = interact db peers env caller id k s in
        ((post : PostRow) × (i : Interaction) × (r ≡ ok i)
          × ((i.kind ≡ k) × (i.post_id ≡ id) × (i.user_id ≡ caller))
          × (find_visible_post db id s ≡ some post)
          × ((post.author_id ≡ caller) ⊎ (peers.blocked caller post.author_id ≡ some false))
          × ((is_some (find? (is_interaction k id caller) s'.interactions)) ≡ true))
        ⊎ ((e : Error) × (r ≡ err e) × (s' ≡ s))
  interact_effect env caller id k s =
      rw (interact_lem env caller id k s) (elim (Option-cases (find_visible_post db id s)) [
        | inl e ↦ rw e (inr (not_found, refl, refl))
        | inr (post, e) ↦ rw e (elim (Option-cases (refusal peers caller post)) [
          | inr (why, refused) ↦ rw refused (inr (why, refl, refl))
          | inl allowed ↦
              rw allowed (elim (Option-cases (find? (is_interaction k id caller) s.interactions)) [
                | inr (row, stored) ↦ rw stored (
                    inl (
                      post,
                      record {
                        kind = k;
                        post_id = id;
                        user_id = caller;
                        created_at = row.created_at;
                      },
                      refl,
                      (refl, refl, refl),
                      refl,
                      unblocked peers caller post allowed,
                      rw stored refl,
                    ))
                | inl fresh ↦ rw fresh (
                    inl (
                      post,
                      record { kind = k; post_id = id; user_id = caller; created_at = env.now },
                      refl,
                      (refl, refl, refl),
                      refl,
                      unblocked peers caller post allowed,
                      rw
                          (find-new (interaction_of env k id caller) k id caller s.interactions
                            (ground (arith, same_kind_refl k)))
                          refl,
                    ))
              ])
        ])
      ])

  -- After an interaction that succeeded, the same one gives the same answer and writes nothing: no row, no counter, no event and
  -- no ping, whatever time the repetition comes at.
  pub interact-again :
      (env later : Env) (caller id : ℕ) (k : Kind) (s : Posts) (i : Interaction)
      → (interact db peers env caller id k s).0 ≡ ok i
      → let s' = (interact db peers env caller id k s).1 in
        interact db peers later caller id k s' ≡ (ok i, s')
  interact-again env later caller id k s i done = elim (Option-cases (find_visible_post db id s)) [
    | inl e ↦ absurd (ground (arith, interact_lem env caller id k s))
    | inr (post, e) ↦ elim (Option-cases (refusal peers caller post)) [
      | inr (why, refused) ↦ absurd (ground (arith, interact_lem env caller id k s))
      | inl allowed ↦ elim (Option-cases (find? (is_interaction k id caller) s.interactions)) [
        | inr (row, stored) ↦
            ground (arith, interact_lem env caller id k s, interact_lem later caller id k s)
        | inl fresh ↦
            let s₁ = interacted env k caller id post s in
            ground (
              arith,
              interact_lem env caller id k s,
              interact_lem later caller id k s₁,
              find_visible_post_lem db id s,
              find_visible_post_lem db id s₁,
              find-one_more id k s.posts post,
              refusal-one_more peers caller k post,
              same_kind_refl k,
              find-new (interaction_of env k id caller) k id caller s.interactions,
            )
      ]
    ]
  ]
