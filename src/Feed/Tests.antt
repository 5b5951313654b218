-- ===== src/Feed/Tests.antt =====
-- Runs of the feed service, and its theorems at concrete tables.
use xitter.Prelude.{
  ℕ, ◌≤◌, ◌≡◌, refl, true, Option, none, some, List, [], ◌∷◌, ◌==◌, if◌then◌else◌, any, all, keep,
  count,
}
use xitter.Database.{insert_all, sort, insert_sorted}
use xitter.Database.Sample.{sample_client}
use xitter.Feed
use xitter.Feed.{
  posted, reposted, FeedEntryInput, FeedEntryRow, CheckpointRow, FeedDb, post_key, repost_key,
  is_entry,
}
use xitter.Feed.Page
use xitter.Feed.Page.{Content, Item, Viewer, known, placeholder}
use xitter.Feed.Shown.{is_shown, get_feed-shown}

abbrev db : FeedDb
db = record { entry = sample_client FeedEntryRow; checkpoint = sample_client CheckpointRow }

abbrev input : ℕ → ℕ → ℕ → FeedEntryInput
input user post at = record {
  user_id = user;
  post_id = post;
  author_id = 10;
  reason = posted;
  reposted_by_id = none;
  post_created_at = at;
}

abbrev repost_input : FeedEntryInput
repost_input = record {
  user_id = 1;
  post_id = 7;
  author_id = 11;
  reason = reposted;
  reposted_by_id = some 11;
  post_created_at = 50;
}

abbrev inputs : List FeedEntryInput
inputs = input 1 5 20 ∷ input 2 5 20 ∷ input 1 5 20 ∷ repost_input ∷ input 1 6 30 ∷ []

abbrev empty : Feed.Feed
empty = record { entries = []; checkpoints = []; notified = [] }

program : Unit {0}
unfolding Feed.upsert_entries Feed.insert_entries insert_all any Feed.distinct_from keep sort
    insert_sorted Page.get_feed Page.walk Page.page Page.hydrate Page.render Page.parents_of
    Page.profiles_of Page.authors_of Page.reposters Page.reply_targets Page.last_position all count
program = tt

upsert_run : (Feed.upsert_entries db 100 inputs empty).0 ≡ 4
unfolding program
upsert_run = refl

notify_run : (Feed.upsert_entries db 100 inputs empty).1.notified ≡ (1 ∷ 2 ∷ []) ∷ []
unfolding program
notify_run = refl

abbrev filled : Feed.Feed
filled = (Feed.upsert_entries db 100 inputs empty).1

-- Post 7 is by user 12, whom user 1 has blocked; post 5 replies to it.
abbrev content : Content
content = record {
  blocked_author_ids = λ user. some (12 ∷ []);
  posts = λ ids. some (λ id. some (record {
    id = id;
    author_id = if id == 7 then 12 else 10;
    reply_to_id = if id == 5 then some 7 else none;
  }));
  profiles = λ ids. some (λ id. id == 10);
  viewer_state = λ user ids id. none;
}

abbrev card : ℕ → Option Page.ProfileView → Item
card id reply_to_author = record {
  post = record { id = id; author_id = 10; reply_to_id = if id == 5 then some 7 else none };
  author = known 10;
  reason = posted;
  reposted_by = none;
  reply_to_author = reply_to_author;
  viewer = none;
}

-- The repost of the blocked author's post is left out, and the walk goes on behind it.
abbrev cards : List Item
cards = card 6 none ∷ card 5 (some (placeholder 12)) ∷ []

get_feed_run : Page.get_feed db content filled 1 none 2 ≡ some (cards, none)
unfolding program
get_feed_run = refl

get_feed-shown_example : (2 ≤ 2) × (all (is_shown (12 ∷ [])) cards ≡ true)
get_feed-shown_example =
    get_feed-shown db content filled 1 none 2 (12 ∷ []) cards none refl get_feed_run
