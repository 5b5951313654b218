-- ===== src/Fanout/Redelivery.antt =====
-- An event that is delivered again after any failures (apps/workers/fanout/src/handlers.ts,
-- handleEvent, handleConsumedEvent).
use xitter.Prelude.{
  ℕ, ◌≡◌, refl, ◌∙◌, sym, ap, Bool, Option, none, some, List, [], ◌∷◌, any, ◌≤◌, count, reject,
  length, arith, Bool-cases, inl, inr,
}
use xitter.Database.Counts.{any-count, count-any}
use xitter.Posts.{like, repost, bookmark}
use xitter.Feed.{FeedEntryInput, EntryKey, FeedEntryRow, FeedDb, is_entry, delete_entries}
use xitter.Feed.Entries.{has_entry, delete_entries_lem}
use xitter.Fanout.{
  Outcome, World, Event, Sources, post_created, interaction_created, interaction_deleted,
  follow_created, follow_deleted, post_deleted, unparsed, other, call, upsert_in_batches,
  handle_event, entries_for_new_post, entries_for_repost, entries_for_backfill,
  collect_recent_posts, after_read,
}
use xitter.Fanout.Calls.{
  calm, upsert_batches-Brings, upsert_in_batches-calm, upsert_in_batches-again, delete-again,
}

count_by_any :
    (p : FeedEntryRow → Bool) (xs ys : List FeedEntryRow)
    → any p xs ≡ any p ys
    → count p xs ≤ 1
    → count p ys ≤ 1
    → count p xs ≡ count p ys
count_by_any p xs ys e h k = elim (Bool-cases (any p xs)) [
  | inl there ↦ ground (arith, count-any p xs, count-any p ys)
  | inr gone ↦ ground (arith, any-count p xs, any-count p ys)
]

count-reject-le :
    (q p : FeedEntryRow → Bool) (rows : List FeedEntryRow) → count q (reject p rows) ≤ count q rows
unfolding count reject
count-reject-le q p [] = omega arith
count-reject-le q p (x ∷ xs) = ground (arith, count-reject-le q p xs)

module _ (db : FeedDb) (sources : Sources) where
  -- Deliveries of one event, each with its own failures.
  pub deliver : Event → List (List Outcome) → World → World
  deliver e [] w = w
  deliver e (script ∷ scripts) w =
      deliver e scripts (handle_event db sources e (record w { script = script })).1

  module _ (user : ℕ) (key : EntryKey) where
    -- Two runs that end alike, for one entry.
    abbrev Agree : Bool × World → Bool × World → Type 0
    Agree a b = (a.0 ≡ b.0) × (has_entry user key a.1.feed ≡ has_entry user key b.1.feed)

    upserts-again :
        {A : Type 0}
        → (read : Option A) (entries : A → List FeedEntryInput) (w : World)
        → let run = λ (v : World).
          after_read db sources read (λ a. upsert_in_batches db sources (entries a)) v in
          Agree (run (calm (run w).1)) (run (calm w))
    upserts-again none entries w = (refl, refl)
    upserts-again (some a) entries w =
        let now = upsert_in_batches-again db sources user key (entries a) w in
        (now.0 ∙ sym (upsert_in_batches-calm db sources user key (entries a) w), now.1)

    deletes-again :
        (p : FeedEntryRow → Bool) (w : World)
        → let run = λ (v : World). call (λ fresh s. (delete_entries db p s).1) v in
          Agree (run (calm (run w).1)) (run (calm w))
    unfolding call
    deletes-again p w = (refl, ap (any (is_entry user key)) (delete-again db p w).1)

    again :
        (e : Event) (w : World)
        → Agree
            (handle_event db sources e (calm (handle_event db sources e w).1))
            (handle_event db sources e (calm w))
    unfolding handle_event
    again (post_created p) w =
        upserts-again (sources.followers p.author_id) (entries_for_new_post p) w
    again (interaction_created like post by at) w = (refl, refl)
    again (interaction_created bookmark post by at) w = (refl, refl)
    again (interaction_created repost post by at) w =
        upserts-again (sources.followers by) (entries_for_repost post by at) w
    again (interaction_deleted like post by) w = (refl, refl)
    again (interaction_deleted bookmark post by) w = (refl, refl)
    again (interaction_deleted repost post by) w = deletes-again _ w
    again (follow_created follower followee) w =
        upserts-again (collect_recent_posts db sources followee) (entries_for_backfill follower) w
    again (follow_deleted follower followee) w = deletes-again _ w
    again (post_deleted post) w = deletes-again _ w
    again unparsed w = (refl, refl)
    again other w = (refl, refl)

    abbrev amount : World → ℕ
    amount w = count (is_entry user key) w.feed.entries

    upserts-once :
        {A : Type 0}
        → (read : Option A) (entries : A → List FeedEntryInput) (w : World) → amount w ≤ 1
        → amount (after_read db sources read (λ a. upsert_in_batches db sources (entries a)) w).1
          ≤ 1
    upserts-once none entries w h = h
    upserts-once (some a) entries w h =
        (upsert_batches-Brings db sources user key (length (entries a)) (entries a) w
            (omega arith)).once
          h

    deletes-once :
        (p : FeedEntryRow → Bool) (w : World)
        → amount w ≤ 1
        → amount (call (λ fresh s. (delete_entries db p s).1) w).1 ≤ 1
    unfolding call
    deletes-once p w h = ground (
      arith,
      delete_entries_lem db p w.feed,
      count-reject-le (is_entry user key) p w.feed.entries,
    )

    -- A feed never gets a second entry of a source.
    handle_event-once :
        (e : Event) (w : World) → amount w ≤ 1 → amount (handle_event db sources e w).1 ≤ 1
    unfolding handle_event
    handle_event-once (post_created p) w h = upserts-once _ _ w h
    handle_event-once (interaction_created like post by at) w h = h
    handle_event-once (interaction_created bookmark post by at) w h = h
    handle_event-once (interaction_created repost post by at) w h = upserts-once _ _ w h
    handle_event-once (interaction_deleted like post by) w h = h
    handle_event-once (interaction_deleted bookmark post by) w h = h
    handle_event-once (interaction_deleted repost post by) w h = deletes-once _ w h
    handle_event-once (follow_created follower followee) w h = upserts-once _ _ w h
    handle_event-once (follow_deleted follower followee) w h = deletes-once _ w h
    handle_event-once (post_deleted post) w h = deletes-once _ w h
    handle_event-once unparsed w h = h
    handle_event-once other w h = h

    deliver-once :
        (e : Event) (scripts : List (List Outcome)) (w : World)
        → amount w ≤ 1
        → amount (deliver e scripts w) ≤ 1
    unfolding deliver
    deliver-once e [] w h = h
    deliver-once e (script ∷ scripts) w h =
        deliver-once e scripts _ (handle_event-once e (record w { script = script }) h)

    deliver-agrees :
        (e : Event) (scripts : List (List Outcome)) (w : World)
        → Agree
            (handle_event db sources e (calm (deliver e scripts w)))
            (handle_event db sources e (calm w))
    unfolding deliver
    deliver-agrees e [] w = (refl, refl)
    deliver-agrees e (script ∷ scripts) w =
        let w' = record w { script = script } in
        let rest = deliver-agrees e scripts (handle_event db sources e w').1 in
        let first = again e w' in (rest.0 ∙ first.0, rest.1 ∙ first.1)

    -- Take feeds with at most one entry of a source, and other services that answer the same each
    -- time. However often an event is delivered, and wherever each delivery fails, one more delivery
    -- whose calls are all answered ends like a single undisturbed one, and leaves in every feed as many
    -- entries of each source as that one: the same ones are there, and none is there twice.
    pub deliver-converges :
        (e : Event) (scripts : List (List Outcome)) (w : World)
        → count (is_entry user key) w.feed.entries ≤ 1
        → let last = handle_event db sources e (calm (deliver e scripts w)) in
          let once = handle_event db sources e (calm w) in
          (last.0 ≡ once.0)
          × (count (is_entry user key) last.1.feed.entries
              ≡ count (is_entry user key) once.1.feed.entries)
          × (count (is_entry user key) last.1.feed.entries ≤ 1)
    deliver-converges e scripts w h =
        let both = deliver-agrees e scripts w in
        let last = handle_event-once e (calm (deliver e scripts w)) (deliver-once e scripts w h) in
        let once = handle_event-once e (calm w) h in
        (both.0, count_by_any (is_entry user key) _ _ both.1 last once, last)
