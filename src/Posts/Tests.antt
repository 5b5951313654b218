-- ===== src/Posts/Tests.antt =====
-- Runs of the posts service, and its theorems at concrete tables.
use xitter.Prelude.{
  ℕ, ◌≡◌, refl, true, false, Option, none, some, List, [], ◌∷◌, map, arith, ◌⊎◌, is_some, any, all,
  reject, count, find?, map_where,
}
use xitter.Prelude.Int.{ℤ, pos, negsuc, decrement}
use xitter.Database.{insert_all}
use xitter.Database.Sample.{sample_client}
use xitter.Posts
use xitter.Posts.{
  Kind, like, repost, bookmark, Asset, PostRow, InteractionRow, PostsDb, PostsEvent,
  interaction_created, NewPost, Env, Result, ok, err, Error, not_found, internal, is_live,
  is_interaction, find_visible_post, post_of,
}
use xitter.Posts.Counts.{live_reply}
use xitter.Posts.Moderation.{Counted}
use xitter.Posts.HardDelete.{admin_hard_delete-Counted, admin_hard_delete-twice}
use xitter.Posts.Writes
use xitter.Posts.Writes.{Write, run-Counted}
use xitter.Posts.Service
use xitter.Posts.Service.{Peers, Draft, Entry, Interaction, distinct, media_ids_of}
use xitter.Posts.Requests.{interact_effect}
use xitter.Posts.Drafts.{attached}

abbrev db : PostsDb
db = record { post = sample_client PostRow; interaction = sample_client InteractionRow }

abbrev env : Env
env = record { fresh_id = 90; now = 5000000000; accepts = λ e. true }

abbrev post : ℕ → ℕ → Option ℕ → ℤ → ℤ → PostRow
post id author reply_to replies likes = record {
  id = id;
  author_id = author;
  text = 104 ∷ 105 ∷ [];
  media_ids = [];
  media = [];
  reply_to_id = reply_to;
  repost_of_id = none;
  created_at = 4999999000;
  deleted_at = none;
  reply_count = replies;
  like_count = likes;
  repost_count = pos 0;
}

-- A post of user 10 with a reply of user 11, who also likes it.
abbrev conversation : Posts.Posts
conversation = record {
  posts = post 1 10 none (pos 1) (pos 1) ∷ post 2 11 (some 1) (pos 0) (pos 0) ∷ [];
  interactions = record { id = 5; kind = like; post_id = 1; user_id = 11; created_at = 7 } ∷ [];
  audit = [];
  events = [];
  pings = [];
}

-- The reply is deleted softly.
abbrev tombstone : Posts.Posts
tombstone = record conversation {
  posts =
      post 1 10 none (pos 0) (pos 1)
      ∷ record (post 2 11 (some 1) (pos 0) (pos 0)) { deleted_at = some 8 }
      ∷ [];
}

conversation-Counted : Counted conversation
unfolding count any
conversation-Counted = record {
  ids = λ i. ground arith;
  parents = λ i e. ground arith;
  targets = λ i k e. ground arith;
  keys =
      λ k i u. (elim k [ like ↦ ground arith | repost ↦ ground arith | bookmark ↦ ground arith ]);
  replies = (refl, (refl, tt));
  likes = ((refl, refl), ((refl, refl), tt));
}

tombstone-Counted : Counted tombstone
unfolding count any
tombstone-Counted = record {
  ids = λ i. ground arith;
  parents = λ i e. ground arith;
  targets = λ i k e. ground arith;
  keys =
      λ k i u. (elim k [ like ↦ ground arith | repost ↦ ground arith | bookmark ↦ ground arith ]);
  replies = (refl, (refl, tt));
  likes = ((refl, refl), ((refl, refl), tt));
}

abbrev reply : NewPost
reply = record {
  author_id = 12;
  text = 104 ∷ [];
  media_ids = [];
  media = [];
  reply_to_id = some 1;
  created_at = none;
}

abbrev writes : List (Env × Write)
writes =
    (env, Write.created reply)
    ∷ (env, Write.soft_deleted 2)
    ∷ (env, Write.interacted repost 1 12)
    ∷ (env, Write.restored 3 2)
    ∷ (env, Write.withdrawn like 1 11)
    ∷ (env, Write.truncated false true)
    ∷ []

run-Counted_example : Counted (Writes.run db writes conversation)
unfolding all
run-Counted_example = run-Counted db writes conversation refl conversation-Counted

admin_hard_delete-Counted_example : Counted (Posts.admin_hard_delete db 3 2 conversation).1
unfolding find?
admin_hard_delete-Counted_example =
    admin_hard_delete-Counted db 3 2 conversation conversation-Counted (λ r e. ground arith)

admin_hard_delete-twice_example :
    negsuc 0
    ≡ decrement (pos (count (live_reply 1) (Posts.admin_hard_delete db 3 2 tombstone).1.posts))
unfolding find? Posts.admin_hard_delete Posts.find_post Posts.update_post map_where any
    Posts.delete_interactions_of Posts.delete_post_row reject Posts.write_audit decrement
admin_hard_delete-twice_example =
    admin_hard_delete-twice db 3 2 tombstone 1
      (record (post 2 11 (some 1) (pos 0) (pos 0)) { deleted_at = some 8 })
      (post 1 10 none (negsuc 0) (pos 1)) tombstone-Counted refl refl refl refl

-- No one is blocked, and every image is ready.
abbrev peers : Peers
peers = record {
  blocked = λ a b. some false;
  resolve =
      λ author ids texts. some (map (λ id. record { id = id; ready = true; alt_text = none }) ids);
}

abbrev answer : Interaction
answer = record { kind = repost; post_id = 1; user_id = 12; created_at = 5000000000 }

interact_run : (Service.interact db peers env 12 1 repost conversation).0 ≡ ok answer
unfolding Service.interact Service.require_visible Service.require_unblocked find_visible_post
    Posts.create_interaction Posts.insert_interaction Posts.find_post Posts.find_interaction
    Posts.update_post find? any insert_all map_where Service.emit_safe Service.notify_author
interact_run = refl

interact_effect_example :
    let (r, s') = Service.interact db peers env 12 1 repost conversation in
    ((row : PostRow) × (i : Interaction) × (r ≡ ok i)
      × ((i.kind ≡ repost) × (i.post_id ≡ 1) × (i.user_id ≡ 12))
      × (find_visible_post db 1 conversation ≡ some row)
      × ((row.author_id ≡ 12) ⊎ (some false ≡ some false))
      × (is_some (find? (is_interaction repost 1 12) s'.interactions) ≡ true))
    ⊎ ((e : Error) × (r ≡ err e) × (s' ≡ conversation))
interact_effect_example = interact_effect db peers env 12 1 repost conversation

abbrev draft : Draft
draft = record {
  text = 104 ∷ [];
  media_ids =
      record { media_id = 7; alt_text = none } ∷ record { media_id = 6; alt_text = none } ∷ [];
  reply_to_id = some 1;
}

abbrev images : List Asset
images =
    record { id = 7; ready = true; alt_text = none }
    ∷ record { id = 6; ready = true; alt_text = none }
    ∷ []

attached_run : attached peers 12 draft.media_ids ≡ ok images
unfolding Service.distinct_from any Service.is_ready all Service.pick find?
attached_run = refl
