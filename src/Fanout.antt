-- ===== src/Fanout.antt =====
-- The fanout worker (apps/workers/fanout/src/handlers.ts and entries.ts), which turns events into
-- calls of the feed service. A call over the network is carried out and answered, refused, or carried
-- out with its answer lost: a script says which, and where it ends every call is answered. What the
-- social and the posts service answer is a parameter, `none` where they fail.
pub mod Calls
pub mod Redelivery
pub mod Carried
pub mod Positions
mod Tests
use xitter.Prelude.{
  ℕ, zero, suc, ◌+◌, ◌≡◌, Bool, true, false, not, ◌&&◌, Option, none, some, List, [], ◌∷◌, ◌++◌,
  map, ltb, take, drop, length, if◌then◌else◌,
}
use xitter.Posts.{Kind, like, repost, bookmark}
use xitter.Feed.{
  posted, reposted, FeedEntryInput, CheckpointRow, FeedDb, Feed, distinct, upsert_entries,
  delete_entries, delete_post_entries, delete_repost_entries, delete_author_entries,
  report_checkpoint,
}

pub data Outcome : Type 0 where
  answered refused lost : Outcome

pub record World : Type 0 where
  pub feed : Feed
  pub fresh_id : ℕ
  pub script : List Outcome

pub record PostRef : Type 0 where
  pub post_id : ℕ
  pub author_id : ℕ
  pub created_at : ℕ

-- An event that the schemas reject is `unparsed`; `other` has a type that no feed is concerned with.
pub data Event : Type 0 where
  post_created : PostRef → Event
  interaction_created : Kind → ℕ → ℕ → ℕ → Event
  interaction_deleted : Kind → ℕ → ℕ → Event
  follow_created follow_deleted : ℕ → ℕ → Event
  post_deleted : ℕ → Event
  unparsed other : Event

pub record Sources : Type 0 where
  -- `internalFollowerIds`
  pub followers : ℕ → Option (List ℕ)
  -- `internalGetAuthorPosts`, a page of 20 from a cursor, with the next cursor
  pub author_posts : ℕ → Option ℕ → Option (List PostRef × Option ℕ)

-- The entries of one surface author in the feeds of a post's recipients.
abbrev pub entries_for_new_post : PostRef → List ℕ → List FeedEntryInput
entries_for_new_post event followers =
    map
      (λ user. record {
        user_id = user;
        post_id = event.post_id;
        author_id = event.author_id;
        reason = posted;
        reposted_by_id = none;
        post_created_at = event.created_at;
      })
      (distinct (event.author_id ∷ followers))

abbrev pub entries_for_repost : ℕ → ℕ → ℕ → List ℕ → List FeedEntryInput
entries_for_repost post reposter at followers =
    map
      (λ user. record {
        user_id = user;
        post_id = post;
        author_id = reposter;
        reason = reposted;
        reposted_by_id = some reposter;
        post_created_at = at;
      })
      (distinct (reposter ∷ followers))

abbrev pub entries_for_backfill : ℕ → List PostRef → List FeedEntryInput
entries_for_backfill follower posts =
    map
      (λ post. record {
        user_id = follower;
        post_id = post.post_id;
        author_id = post.author_id;
        reason = posted;
        reposted_by_id = none;
        post_created_at = post.created_at;
      })
      (take 20 posts)

-- One call: whether it was answered, and the world after it.
unfoldable pub call : (ℕ → Feed → Feed) → World → Bool × World
call f w =
    let done = f w.fresh_id w.feed in
    elim w.script [
      | [] ↦ (true, record w { feed = done })
      | answered ∷ rest ↦ (true, record w { feed = done; script = rest })
      | refused ∷ rest ↦ (false, record w { script = rest })
      | lost ∷ rest ↦ (false, record w { feed = done; script = rest })
    ]

-- The rows of a call take their ids from `fresh_id` on.
abbrev pub use_ids : ℕ → World → World
use_ids n w = record w { fresh_id = w.fresh_id + n }

module _ (db : FeedDb) (sources : Sources) where
  -- Batches of 1000, one after another; the fuel is the number of entries.
  unfoldable pub upsert_batches : ℕ → List FeedEntryInput → World → Bool × World
  upsert_batches zero entries w = (true, w)
  upsert_batches (suc n) [] w = (true, w)
  upsert_batches (suc n) (e ∷ es) w =
      let (ok, w') = call (λ fresh s. (upsert_entries db fresh (take 1000 (e ∷ es)) s).1) w in
      let rest = upsert_batches n (drop 1000 (e ∷ es)) (use_ids (length (take 1000 (e ∷ es))) w') in
      if ok then rest else (false, w')

  abbrev pub upsert_in_batches : List FeedEntryInput → World → Bool × World
  upsert_in_batches entries w = upsert_batches (length entries) entries w

  -- At most five pages, until 20 posts are collected.
  unfoldable pub collect_pages : ℕ → ℕ → Option ℕ → List PostRef → Option (List PostRef)
  collect_pages zero followee cursor collected = some collected
  collect_pages (suc n) followee cursor collected =
      if not (ltb (length collected) 20)
      then some collected
      else elim (sources.author_posts followee cursor) [
        | none ↦ none
        | some (items, next) ↦ elim next [
          | none ↦ some (collected ++ items)
          | some c ↦ collect_pages n followee (some c) (collected ++ items)
        ]
      ]

  abbrev pub collect_recent_posts : ℕ → Option (List PostRef)
  collect_recent_posts followee = collect_pages 5 followee none []

  -- A read that fails ends the handler before it writes.
  abbrev pub after_read {ℓ} :
      {A : Type ℓ} → Option A → (A → World → Bool × World) → World → Bool × World
  after_read none k w = (false, w)
  after_read (some a) k w = k a w

  unfoldable pub handle_event : Event → World → Bool × World
  handle_event (post_created p) w =
      after_read (sources.followers p.author_id)
        (λ ids. upsert_in_batches (entries_for_new_post p ids)) w
  handle_event (interaction_created repost post user at) w =
      after_read (sources.followers user)
        (λ ids. upsert_in_batches (entries_for_repost post user at ids)) w
  handle_event (interaction_created like post user at) w = (true, w)
  handle_event (interaction_created bookmark post user at) w = (true, w)
  handle_event (interaction_deleted repost post user) w =
      call (λ fresh s. (delete_repost_entries db post user s).1) w
  handle_event (interaction_deleted like post user) w = (true, w)
  handle_event (interaction_deleted bookmark post user) w = (true, w)
  handle_event (follow_created follower followee) w =
      after_read (collect_recent_posts followee)
        (λ posts. upsert_in_batches (entries_for_backfill follower posts)) w
  handle_event (post_deleted post) w = call (λ fresh s. (delete_post_entries db post s).1) w
  handle_event (follow_deleted follower followee) w =
      call (λ fresh s. (delete_author_entries db follower followee s).1) w
  handle_event unparsed w = (true, w)
  handle_event other w = (true, w)

  -- The position is reported once the handler is through; a failure leaves the event to be delivered
  -- again.
  unfoldable pub handle_consumed_event : Event → CheckpointRow → World → Bool × World
  handle_consumed_event e position w =
      let (ok, w') = handle_event e w in
      let reported = call (λ fresh s. report_checkpoint db position s) w' in
      if ok then reported else (false, w')
