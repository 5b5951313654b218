-- ===== src/Fanout/Tests.antt =====
-- Runs of the fanout worker, and its theorems at concrete worlds.
use xitter.Prelude.{◌≤◌, count, arith, ◌≡◌, refl, true, none, some, List, [], ◌∷◌, any}
use xitter.Database.{insert_all}
use xitter.Database.Sample.{sample_client}
use xitter.Feed
use xitter.Feed.{FeedEntryRow, CheckpointRow, FeedDb, post_key, is_entry}
use xitter.Feed.Entries.{has_entry}
use xitter.Fanout
use xitter.Fanout.{Outcome, answered, refused, lost, World, PostRef, Event, post_created, Sources}
use xitter.Fanout.Calls.{calm}
use xitter.Fanout.Redelivery.{deliver, deliver-converges}

abbrev db : FeedDb
db = record { entry = sample_client FeedEntryRow; checkpoint = sample_client CheckpointRow }

-- User 10 is followed by the users 1 and 2.
abbrev sources : Sources
sources = record { followers = λ user. some (1 ∷ 2 ∷ []); author_posts = λ user cursor. none }

abbrev event : Event
event = post_created (record { post_id = 5; author_id = 10; created_at = 20 })

abbrev world : World
world = record {
  feed = record { entries = []; checkpoints = []; notified = [] };
  fresh_id = 100;
  script = [];
}

-- The first delivery is refused, and the answer of the second is lost.
abbrev deliveries : List (List Outcome)
deliveries = (refused ∷ []) ∷ (lost ∷ []) ∷ []

fanned : has_entry 2 (post_key 5) (Fanout.handle_event db sources event world).1.feed ≡ true
unfolding Fanout.handle_event Fanout.upsert_batches Fanout.call Feed.upsert_entries
    Feed.insert_entries Feed.distinct_from insert_all any
fanned = refl

deliver-converges_example :
    let last =
      Fanout.handle_event db sources event (calm (deliver db sources event deliveries world)) in
    let once = Fanout.handle_event db sources event (calm world) in
    (last.0 ≡ once.0)
    × (count (is_entry 2 (post_key 5)) last.1.feed.entries
        ≡ count (is_entry 2 (post_key 5)) once.1.feed.entries)
    × (count (is_entry 2 (post_key 5)) last.1.feed.entries ≤ 1)
unfolding count
deliver-converges_example =
    deliver-converges db sources 2 (post_key 5) event deliveries world (omega arith)

abbrev position : CheckpointRow
position = record {
  consumer_key = 1;
  topic_partition = 3;
  last_offset = 17;
  last_event_id = 8;
  last_event_at = 20;
}
