-- ===== src/Posts/Service.antt =====
-- The requests on posts (apps/services/posts/src/modules/posts.service.ts). The social and the media
-- service are asked over the network: what they answer is a parameter, `none` where they do not
-- answer. Times are milliseconds. A request is parsed: ids are ids, and alternative texts are
-- trimmed and within their bounds.
use xitter.Prelude.{
  ℕ, ◌+◌, ◌*◌, Bool, true, false, not, ◌&&◌, Option, none, some, List, [], ◌∷◌, map, ltb, leb, ◌==◌,
  if◌then◌else◌, is_some, is_empty, any, all, find?, length,
}
use xitter.Posts.{
  is_live, Kind, bookmark, Asset, PostRow, PostsEvent, post_created, post_deleted,
  interaction_created, interaction_deleted, PostsDb, Env, bad_request, forbidden, not_found,
  unavailable, Action, ◌>>=◌, ◌>>◌, pure, throw, throw_if, gets, modify, when, find_post,
  find_visible_post, create_post, soft_delete, admin_soft_delete, admin_restore, admin_hard_delete,
  create_interaction, delete_interaction,
}

pub record Peers : Type 0 where
  -- `blockedEitherWay`
  pub blocked : ℕ → ℕ → Option Bool
  -- `resolveForAttach`: the assets among these that exist and that the user owns
  pub resolve : ℕ → List ℕ → List (ℕ × List ℕ) → Option (List Asset)

-- An attached image, with its alternative text.
pub record Entry : Type 0 where
  pub media_id : ℕ
  pub alt_text : Option (List ℕ)

pub record Draft : Type 0 where
  pub text : List ℕ
  pub media_ids : List Entry
  pub reply_to_id : Option ℕ

-- What an interaction answers.
pub record Interaction : Type 0 where
  pub kind : Kind
  pub post_id : ℕ
  pub user_id : ℕ
  pub created_at : ℕ

-- `createPostRequestSchema` (packages/api-contracts/src/schemas/http.ts).
abbrev pub is_draft : Draft → Bool
is_draft d = leb 1 (length d.text) && leb (length d.text) 512 && leb (length d.media_ids) 4

abbrev pub media_ids_of : List Entry → List ℕ
media_ids_of entries = map (λ e. e.media_id) entries

abbrev pub alt_texts_of : List Entry → List (ℕ × List ℕ)
alt_texts_of [] = []
alt_texts_of (e ∷ es) = elim e.alt_text [
  | none ↦ alt_texts_of es
  | some t ↦ (e.media_id, t) ∷ alt_texts_of es
]

-- `[...new Set(ids)]`: the first of each.
unfoldable pub distinct_from : List ℕ → List ℕ → List ℕ
distinct_from seen [] = []
distinct_from seen (i ∷ is) =
    let rest = distinct_from (i ∷ seen) is in
    if any (λ j. j == i) seen then distinct_from seen is else i ∷ rest

abbrev pub distinct : List ℕ → List ℕ
distinct ids = distinct_from [] ids

unfoldable pub is_ready : List Asset → ℕ → Bool
is_ready resolved id = any (λ a. a.ready && a.id == id) resolved

-- The assets in the order of the request.
unfoldable pub pick : List Asset → List ℕ → List Asset
pick resolved [] = []
pick resolved (id ∷ ids) = elim (find? (λ a. a.id == id) resolved) [
  | none ↦ pick resolved ids
  | some a ↦ a ∷ pick resolved ids
]

abbrev pub window : ℕ
window = 30 * (24 * (60 * (60 * 1000)))

abbrev pub skew : ℕ
skew = 60 * 1000

-- An explicit time of creation: not in the future, and not before the window.
abbrev pub is_backdate : ℕ → ℕ → Bool
is_backdate now at = not (ltb (now + skew) at) && not (ltb (at + window) now)

unfoldable pub parse_backdate : Env → Option ℕ → Action (Unit {0})
parse_backdate env none = pure tt
parse_backdate env (some at) = throw_if (not (is_backdate env.now at)) bad_request

unfoldable pub emit_safe : Env → PostsEvent → Action (Unit {0})
emit_safe env e = when (env.accepts e) (modify (λ s. record s { events = e ∷ s.events }))

-- The ping of an author over the realtime channel.
unfoldable pub notify_author : ℕ → Action (Unit {0})
notify_author author = modify (λ s. record s { pings = author ∷ s.pings })

-- Bookmarks are private.
abbrev pub may_ping : Kind → Bool
may_ping bookmark = false
may_ping _ = true

module _ (db : PostsDb) (peers : Peers) where
  -- Anyone but the author is asked for a block first; no answer is a refusal.
  unfoldable pub require_unblocked : ℕ → PostRow → Action (Unit {0})
  require_unblocked user post =
      if post.author_id == user then pure tt else elim (peers.blocked user post.author_id) [
        | none ↦ throw unavailable
        | some blocked ↦ throw_if blocked forbidden
      ]

  unfoldable pub require_visible : ℕ → Action PostRow
  require_visible id = do
    found ← gets (find_visible_post db id)
    elim found [ none ↦ throw not_found | some r ↦ pure r ]

  unfoldable pub require_reply_target : Option ℕ → ℕ → Action (Unit {0})
  require_reply_target none replier = pure tt
  require_reply_target (some id) replier = do
    parent ← require_visible id
    require_unblocked replier parent

  unfoldable pub require_attachable : ℕ → List ℕ → List (ℕ × List ℕ) → Action (List Asset)
  require_attachable author ids alt_texts = elim (peers.resolve author ids alt_texts) [
    | none ↦ throw unavailable
    | some resolved ↦ do
      throw_if (not (all (is_ready resolved) ids)) bad_request
      pure (pick resolved ids)
  ]

  unfoldable pub attach : ℕ → List Entry → Action (List Asset)
  attach author entries =
      if is_empty (distinct (media_ids_of entries))
      then pure []
      else require_attachable author (distinct (media_ids_of entries)) (alt_texts_of entries)

  unfoldable pub create : Env → ℕ → Draft → Option ℕ → Action PostRow
  create env author d created_at = do
    throw_if (not (is_draft d)) bad_request
    parse_backdate env created_at
    require_reply_target d.reply_to_id author
    media ← attach author d.media_ids
    row ← create_post db env (record {
      author_id = author;
      text = d.text;
      media_ids = media_ids_of d.media_ids;
      media = media;
      reply_to_id = d.reply_to_id;
      created_at = created_at;
    })
    emit_safe env (post_created row.id author row.reply_to_id)
    pure row

  unfoldable pub remove : Env → ℕ → ℕ → Action (Unit {0})
  remove env caller id = do
    found ← gets (find_post db id)
    elim found [
      | none ↦ throw not_found
      | some row ↦ do
        throw_if (not (is_live row)) not_found
        throw_if (not (row.author_id == caller)) forbidden
        deleted ← soft_delete db env id
        when (is_some deleted) (emit_safe env (post_deleted id caller))
    ]

  unfoldable pub interact : Env → ℕ → ℕ → Kind → Action Interaction
  interact env caller id kind = do
    post ← require_visible id
    require_unblocked caller post
    (row, created) ← create_interaction db env kind id caller
    when created (do
      emit_safe env (interaction_created kind id caller)
      when (may_ping kind && not (post.author_id == caller)) (notify_author post.author_id))
    pure (record { kind = kind; post_id = id; user_id = caller; created_at = row.created_at })

  unfoldable pub remove_interaction : Env → ℕ → ℕ → Kind → Action (Unit {0})
  remove_interaction env caller id kind = do
    post ← gets (find_post db id)
    throw_if (not (is_some post)) not_found
    removed ← delete_interaction db kind id caller
    when removed (emit_safe env (interaction_deleted kind id caller))

  unfoldable pub admin_remove_post : Env → ℕ → ℕ → Bool → Action (Unit {0})
  admin_remove_post env actor id hard = do
    deleted ← if hard then admin_hard_delete db actor id else admin_soft_delete db env actor id
    elim deleted [ none ↦ throw not_found | some r ↦ emit_safe env (post_deleted id r.author_id) ]

  unfoldable pub admin_restore_post : Env → ℕ → ℕ → Action PostRow
  admin_restore_post env actor id = do
    restored ← admin_restore db actor id
    elim restored [
      | none ↦ throw not_found
      | some r ↦ do emit_safe env (post_created r.id r.author_id r.reply_to_id); pure r
    ]
