-- ===== src/Posts/Drafts.antt =====
-- What a request to create a post promises (apps/services/posts/src/modules/posts.service.ts,
-- create, parseBackdate, requireReplyTarget, requireAttachable).
use xitter.Prelude.{ℕ, Bool, true, Option, none, some, List, [], ◌∷◌, if◌then◌else◌, is_empty, all}
use xitter.Posts.{
  Asset, PostRow, post_created, PostsDb, Posts, Env, NewPost, Result, ok, err, Error, bad_request,
  not_found, unavailable, post_of, find_visible_post, create_post,
}
use xitter.Posts.Service.{
  Peers, Draft, Entry, media_ids_of, alt_texts_of, distinct, is_ready, pick, is_backdate,
}
use xitter.Prelude.Int.{increment}
use xitter.Posts.Marks.{parent_step}
use xitter.Posts.Requests.{refusal}

abbrev pub in_window : Env → Option ℕ → Bool
in_window env none = true
in_window env (some at) = is_backdate env.now at

-- Why a reply is refused.
abbrev pub reply_refusal : PostsDb → Peers → Option ℕ → ℕ → Posts → Option Error
reply_refusal db peers none user s = none
reply_refusal db peers (some id) user s = elim (find_visible_post db id s) [
  | none ↦ some not_found
  | some parent ↦ refusal peers user parent
]

abbrev pub new_post : ℕ → Draft → List Asset → Option ℕ → NewPost
new_post author d media created_at = record {
  author_id = author;
  text = d.text;
  media_ids = media_ids_of d.media_ids;
  media = media;
  reply_to_id = d.reply_to_id;
  created_at = created_at;
}

-- The assets that go with a post, or why they do not.
abbrev pub attached : Peers → ℕ → List Entry → Result (List Asset)
attached peers author entries =
    let ids = distinct (media_ids_of entries) in
    if is_empty ids then ok [] else elim (peers.resolve author ids (alt_texts_of entries)) [
      | none ↦ err unavailable
      | some resolved ↦
          if all (is_ready resolved) ids then ok (pick resolved ids) else err bad_request
    ]

module _ (db : PostsDb) (peers : Peers) where
  after_media : Env → ℕ → Draft → Option ℕ → Posts → Result (List Asset) → Result PostRow × Posts
  after_media env author d at s media = elim media [
    | err e ↦ (err e, s)
    | ok media ↦
        (let (r, s') = create_post db env (new_post author d media at) s in
          elim r [
            | err e ↦ (err e, s')
            | ok row ↦ (
              ok row,
              record s' {
                events =
                    if env.accepts (post_created row.id author row.reply_to_id)
                    then post_created row.id author row.reply_to_id ∷ s'.events
                    else s'.events;
              },
            )
          ])
  ]

  abbrev landed_post : Env → ℕ → Draft → Option ℕ → Posts → List Asset → Posts
  landed_post env author d at s media =
      let row = post_of env (new_post author d media at) in
      record s {
        posts = parent_step d.reply_to_id increment (row ∷ s.posts);
        events =
            if env.accepts (post_created row.id author row.reply_to_id)
            then post_created row.id author row.reply_to_id ∷ s.events
            else s.events;
      }
