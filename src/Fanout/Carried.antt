-- ===== src/Fanout/Carried.antt =====
-- What an event stands for in the feeds, once its handler is through
-- (apps/workers/fanout/src/handlers.ts, handleEvent).
use xitter.Prelude.{
  ℕ, ◌≡◌, refl, ◌∙◌, Bool, true, false, ◌&&◌, Option, none, some, List, [], ◌∷◌, map, ◌==◌, same,
  any, reject, take, length, arith,
}
use xitter.Posts.{like, repost, bookmark}
use xitter.Feed.{
  post_key, repost_key, FeedEntryInput, FeedEntryRow, FeedDb, is_entry, is_reposted, delete_entries,
}
use xitter.Feed.Distinct.{distinct-any}
use xitter.Feed.Entries.{asks_for, delete_entries_lem}
use xitter.Fanout.{
  World, PostRef, Event, Sources, post_created, interaction_created, interaction_deleted,
  follow_created, follow_deleted, post_deleted, unparsed, other, call, upsert_in_batches,
  handle_event, entries_for_new_post, entries_for_repost, entries_for_backfill,
  collect_recent_posts, after_read,
}
use xitter.Fanout.Calls.{upsert_batches-Brings}

any-map :
    {A B : Type 0}
    → (p : B → Bool) (f : A → B) (xs : List A) → any p (map f xs) ≡ any (λ x. p (f x)) xs
unfolding any
any-map p f [] = refl
any-map p f (x ∷ xs) = ground (arith, any-map p f xs)

any-same :
    {A : Type 0} → (p q : A → Bool) (xs : List A) → ((x : A) → p x ≡ q x) → any p xs ≡ any q xs
unfolding any
any-same p q [] h = refl
any-same p q (x ∷ xs) h = ground (arith, h x, any-same p q xs h)

rejected : (p : FeedEntryRow → Bool) (rows : List FeedEntryRow) → any p (reject p rows) ≡ false
unfolding any reject
rejected p [] = refl
rejected p (x ∷ xs) = ground (arith, rejected p xs)

-- A post is in the feeds of its author and the followers, a repost in those of the reposter and the
-- followers, the 20 latest posts of a followed author in the feed of the follower; what is undone has
-- no entry.
module _ (db : FeedDb) (sources : Sources) where
  abbrev pub IsCarried : Event → List FeedEntryRow → Type 0
  IsCarried (post_created p) rows =
      (ids : List ℕ) × (sources.followers p.author_id ≡ some ids)
      × ((user : ℕ)
          → any (λ u. u == user) (p.author_id ∷ ids) ≡ true
          → any (is_entry user (post_key p.post_id)) rows ≡ true)
  IsCarried (interaction_created repost post by at) rows =
      (ids : List ℕ) × (sources.followers by ≡ some ids)
      × ((user : ℕ)
          → any (λ u. u == user) (by ∷ ids) ≡ true
          → any (is_entry user (repost_key post by)) rows ≡ true)
  IsCarried (interaction_created like post by at) rows = Unit {0}
  IsCarried (interaction_created bookmark post by at) rows = Unit {0}
  IsCarried (interaction_deleted repost post by) rows =
      any (λ r. r.post_id == post && is_reposted r.reason && same r.reposted_by_id (some by)) rows
      ≡ false
  IsCarried (interaction_deleted like post by) rows = Unit {0}
  IsCarried (interaction_deleted bookmark post by) rows = Unit {0}
  IsCarried (follow_created follower followee) rows =
      (posts : List PostRef) × (collect_recent_posts db sources followee ≡ some posts)
      × ((id : ℕ)
          → any (λ p. p.post_id == id) (take 20 posts) ≡ true
          → any (is_entry follower (post_key id)) rows ≡ true)
  IsCarried (follow_deleted follower followee) rows =
      any (λ r. r.user_id == follower && r.author_id == followee) rows ≡ false
  IsCarried (post_deleted post) rows = any (λ r. r.post_id == post) rows ≡ false
  IsCarried unparsed rows = Unit {0}
  IsCarried other rows = Unit {0}

  abbrev upserted : {A : Type 0} → Option A → (A → List FeedEntryInput) → World → Bool × World
  upserted read entries w =
      after_read db sources read (λ a. upsert_in_batches db sources (entries a)) w

  brought :
      {A : Type 0}
      → (read : Option A) (entries : A → List FeedEntryInput) (w : World)
      → (upserted read entries w).0 ≡ true
      → (a : A) × (read ≡ some a)
        × ((user : ℕ) (key : _)
            → any (asks_for user key) (entries a) ≡ true
            → any (is_entry user key) (upserted read entries w).1.feed.entries ≡ true)
  brought none entries w h = absurd (cc h)
  brought (some a) entries w h = (
    a,
    refl,
    λ user key asked.
        (upsert_batches-Brings db sources user key (length (entries a)) (entries a) w
            (omega arith)).all
          h asked,
  )

  post_asked :
      (p : PostRef) (ids : List ℕ) (user : ℕ)
      → any (asks_for user (post_key p.post_id)) (entries_for_new_post p ids)
        ≡ any (λ u. u == user) (p.author_id ∷ ids)
  post_asked p ids user =
      any-map _ _ _
      ∙ any-same _ (λ u. u == user) _ (λ u. ground arith)
      ∙ distinct-any user (p.author_id ∷ ids)

  repost_asked :
      (post by at : ℕ) (ids : List ℕ) (user : ℕ)
      → any (asks_for user (repost_key post by)) (entries_for_repost post by at ids)
        ≡ any (λ u. u == user) (by ∷ ids)
  repost_asked post by at ids user =
      any-map _ _ _
      ∙ any-same _ (λ u. u == user) _ (λ u. ground arith)
      ∙ distinct-any user (by ∷ ids)

  backfill_asked :
      (follower id : ℕ) (posts : List PostRef)
      → any (asks_for follower (post_key id)) (entries_for_backfill follower posts)
        ≡ any (λ p. p.post_id == id) (take 20 posts)
  backfill_asked follower id posts =
      any-map _ _ _ ∙ any-same _ (λ p. p.post_id == id) (take 20 posts) (λ p. ground arith)

  removed :
      (p : FeedEntryRow → Bool) (w : World)
      → let (r, w') = call (λ fresh s. (delete_entries db p s).1) w in
        r ≡ true → any p w'.feed.entries ≡ false
  unfolding call
  removed p w h = ground (arith, delete_entries_lem db p w.feed, rejected p w.feed.entries)

  -- A handler that is through has done what its event stands for.
  pub handle_event-IsCarried :
      (e : Event) (w : World)
      → (handle_event db sources e w).0 ≡ true
      → IsCarried e (handle_event db sources e w).1.feed.entries
  unfolding handle_event
  handle_event-IsCarried (post_created p) w h =
      let (ids, read, has) = brought _ (entries_for_new_post p) w h in
      (ids, read, λ user there. has user _ (post_asked p ids user ∙ there))
  handle_event-IsCarried (interaction_created repost post by at) w h =
      let (ids, read, has) = brought _ (entries_for_repost post by at) w h in
      (ids, read, λ user there. has user _ (repost_asked post by at ids user ∙ there))
  handle_event-IsCarried (interaction_created like post by at) w h = tt
  handle_event-IsCarried (interaction_created bookmark post by at) w h = tt
  handle_event-IsCarried (interaction_deleted repost post by) w h = removed _ w h
  handle_event-IsCarried (interaction_deleted like post by) w h = tt
  handle_event-IsCarried (interaction_deleted bookmark post by) w h = tt
  handle_event-IsCarried (follow_created follower followee) w h =
      let (posts, read, has) = brought _ (entries_for_backfill follower) w h in
      (posts, read, λ id there. has follower _ (backfill_asked follower id posts ∙ there))
  handle_event-IsCarried (follow_deleted follower followee) w h = removed _ w h
  handle_event-IsCarried (post_deleted post) w h = removed _ w h
  handle_event-IsCarried unparsed w h = tt
  handle_event-IsCarried other w h = tt
