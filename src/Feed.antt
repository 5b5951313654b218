-- ===== src/Feed.antt =====
-- The home feeds (apps/services/feed/src/modules/feed.service.ts over feed.repository.ts and
-- checkpoint.repository.ts): the entries of every feed, the resume positions of the fanout worker,
-- and the users that were notified, newest first.
pub mod Distinct
pub mod Entries
pub mod Page
pub mod Shown
mod Tests
use xitter.Prelude.{
  ℕ, suc, ◌+◌, ◌≡◌, Bool, true, false, not, ◌&&◌, ◌||◌, Option, none, some, List, [], ◌∷◌, map, ltb,
  ◌==◌, same, if◌then◌else◌, is_empty, is_some, any,
}
use xitter.Database.{Client}

pub data Reason : Type 0 where
  posted reposted : Reason

pub record FeedEntryInput : Type 0 where
  pub user_id : ℕ
  pub post_id : ℕ
  pub author_id : ℕ
  pub reason : Reason
  pub reposted_by_id : Option ℕ
  pub post_created_at : ℕ

-- `post:<post>` and `repost:<post>:<user>`; an id has no colon.
pub data EntryKey : Type 0 where
  post_key : ℕ → EntryKey
  repost_key : ℕ → ℕ → EntryKey

abbrev pub same_key : EntryKey → EntryKey → Bool
same_key (post_key a) (post_key b) = a == b
same_key (repost_key a r) (repost_key b s) = a == b && r == s
same_key (post_key a) (repost_key b s) = false
same_key (repost_key a r) (post_key b) = false

abbrev pub feed_entry_key : ℕ → Reason → Option ℕ → EntryKey
feed_entry_key post reposted (some by) = repost_key post by
feed_entry_key post reposted none = post_key post
feed_entry_key post posted by = post_key post

pub record FeedEntryRow : Type 0 where
  pub id : ℕ
  pub user_id : ℕ
  pub entry_key : EntryKey
  pub post_id : ℕ
  pub author_id : ℕ
  pub reason : Reason
  pub reposted_by_id : Option ℕ
  pub post_created_at : ℕ

-- A topic and its partition are one number here.
pub record CheckpointRow : Type 0 where
  pub consumer_key : ℕ
  pub topic_partition : ℕ
  pub last_offset : ℕ
  pub last_event_id : ℕ
  pub last_event_at : ℕ

pub record FeedDb : Type 0 where
  pub entry : Client FeedEntryRow
  pub checkpoint : Client CheckpointRow

pub record Feed : Type 0 where
  pub entries : List FeedEntryRow
  pub checkpoints : List CheckpointRow
  pub notified : List (List ℕ)

abbrev pub is_reposted : Reason → Bool
is_reposted posted = false
is_reposted reposted = true

-- The unique key of an entry: its user and its source.
abbrev pub is_entry : ℕ → EntryKey → FeedEntryRow → Bool
is_entry user key r = r.user_id == user && same_key r.entry_key key

abbrev pub same_entry : FeedEntryRow → FeedEntryRow → Bool
same_entry r x = is_entry r.user_id r.entry_key x

abbrev pub is_position : ℕ → ℕ → CheckpointRow → Bool
is_position consumer partition r = r.consumer_key == consumer && r.topic_partition == partition

abbrev pub to_new_entry : ℕ → FeedEntryInput → FeedEntryRow
to_new_entry id i = record {
  id = id;
  user_id = i.user_id;
  entry_key = feed_entry_key i.post_id i.reason i.reposted_by_id;
  post_id = i.post_id;
  author_id = i.author_id;
  reason = i.reason;
  reposted_by_id = i.reposted_by_id;
  post_created_at = i.post_created_at;
}

-- The new rows are numbered from a fresh id on.
abbrev pub to_new_entries : ℕ → List FeedEntryInput → List FeedEntryRow
to_new_entries fresh [] = []
to_new_entries fresh (i ∷ is) = to_new_entry fresh i ∷ to_new_entries (suc fresh) is

unfoldable pub distinct_from : List ℕ → List ℕ → List ℕ
distinct_from seen [] = []
distinct_from seen (i ∷ is) =
    let fresh = i ∷ distinct_from (i ∷ seen) is in
    let rest = distinct_from seen is in if any (λ j. j == i) seen then rest else fresh

abbrev pub distinct : List ℕ → List ℕ
distinct ids = distinct_from [] ids

module _ (db : FeedDb) where
  -- The repository's insert: entries whose key is taken are skipped.
  unfoldable pub insert_entries : ℕ → List FeedEntryInput → Feed → ℕ × Feed
  insert_entries fresh [] s = (0, s)
  insert_entries fresh (i ∷ is) s =
      let (n, rows) = db.entry.create_many same_entry (to_new_entries fresh (i ∷ is)) s.entries in
      (n, record s { entries = rows })

  unfoldable pub upsert_entries : ℕ → List FeedEntryInput → Feed → ℕ × Feed
  unfolding insert_entries
  upsert_entries fresh inputs s =
      let (n, s') = insert_entries fresh inputs s in
      (
        n,
        if ltb 0 n
            then record s' { notified = distinct (map (λ i. i.user_id) inputs) ∷ s'.notified }
            else s',
      )

  unfoldable pub delete_entries : (FeedEntryRow → Bool) → Feed → ℕ × Feed
  delete_entries p s =
      let (n, rows) = db.entry.delete_many p s.entries in (n, record s { entries = rows })

  abbrev pub delete_post_entries : ℕ → Feed → ℕ × Feed
  delete_post_entries post s = delete_entries (λ r. r.post_id == post) s

  abbrev pub delete_repost_entries : ℕ → ℕ → Feed → ℕ × Feed
  delete_repost_entries post by s =
      delete_entries
        (λ r. r.post_id == post && is_reposted r.reason && same r.reposted_by_id (some by)) s

  abbrev pub delete_author_entries : ℕ → ℕ → Feed → ℕ × Feed
  delete_author_entries user author s =
      delete_entries (λ r. r.user_id == user && r.author_id == author) s

  abbrev pub reset_user : ℕ → Feed → ℕ × Feed
  reset_user user s = delete_entries (λ r. r.user_id == user) s

  -- `upsert` of the position: updated where it is there, created otherwise.
  unfoldable pub report_checkpoint : CheckpointRow → Feed → Feed
  report_checkpoint c s =
      elim (db.checkpoint.update (is_position c.consumer_key c.topic_partition) (λ r. c)
        s.checkpoints) [
          | some rows ↦ record s { checkpoints = rows }
          | none ↦ record s { checkpoints = c ∷ s.checkpoints }
        ]

  unfoldable pub checkpoint_positions : ℕ → Feed → List CheckpointRow
  checkpoint_positions consumer s =
      db.checkpoint.find_many (λ r. r.consumer_key == consumer) s.checkpoints

  unfoldable pub reseed : Feed → ℕ × Feed
  unfolding delete_entries
  reseed s =
      let (n, s') = delete_entries (λ r. true) s in
      let (m, rows) = db.checkpoint.delete_many (λ r. true) s'.checkpoints in
      (n + m, record s' { checkpoints = rows })
