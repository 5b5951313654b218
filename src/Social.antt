-- ===== src/Social.antt =====
-- Profiles, follows and blocks (apps/services/social/src/modules/social/social.service.ts over
-- social.repository.ts). The three tables and the events that were published, newest first, are the
-- state; a method returns its result, or the HTTP error that it throws, with the new state. The
-- table clients, the clock, the fresh row id and which events the broker accepts are parameters.
pub mod Graph
pub mod Effects
pub mod Profiles
pub mod Requests
pub mod Replay
pub mod Race
mod Tests
mod Tables
use xitter.Prelude.{
  ℕ, ◌≡◌, Bool, true, false, not, ◌&&◌, ◌||◌, Option, none, some, List, [], ◌∷◌, ltb, ◌==◌,
  if◌then◌else◌, is_some,
}
use xitter.Database.{Client}
unfoldable pub use Tables.*

module _ (db : SocialDb) where
  unfoldable pub find_profile : ℕ → Social → Option ProfileRow
  find_profile id s = db.profile.find_first (is_profile id) s.profiles

  unfoldable pub find_follow : ℕ → ℕ → Social → Option FollowRow
  find_follow a b s = db.follow.find_first (is_follow a b) s.follows

  unfoldable pub find_block : ℕ → ℕ → Social → Option BlockRow
  find_block a b s = db.block.find_first (is_block a b) s.blocks

  -- `createMany` is rejected where a foreign key has no profile.
  unfoldable pub create_follow : Env → ℕ → ℕ → Action Bool
  create_follow env a b = do
    throw_if (not (is_some (← gets (find_profile a)) && is_some (← gets (find_profile b)))) internal
    (n, rows) ← gets (λ s.
        db.follow.create_many same_follow
          (record { id = env.fresh_id; follower_id = a; followee_id = b; created_at = env.now }
            ∷ [])
          s.follows)
    modify (λ s. record s { follows = rows })
    pure (ltb 0 n)

  unfoldable pub create_block : Env → ℕ → ℕ → Action Bool
  create_block env a b = do
    throw_if (not (is_some (← gets (find_profile a)) && is_some (← gets (find_profile b)))) internal
    (n, rows) ← gets (λ s.
        db.block.create_many same_block
          (record { id = env.fresh_id; blocker_id = a; blocked_id = b; created_at = env.now } ∷ [])
          s.blocks)
    modify (λ s. record s { blocks = rows })
    pure (ltb 0 n)

  unfoldable pub delete_follow : ℕ → ℕ → Action Bool
  delete_follow a b = do
    (n, rows) ← gets (λ s. db.follow.delete_many (is_follow a b) s.follows)
    modify (λ s. record s { follows = rows })
    pure (ltb 0 n)

  unfoldable pub delete_block : ℕ → ℕ → Action Bool
  delete_block a b = do
    (n, rows) ← gets (λ s. db.block.delete_many (is_block a b) s.blocks)
    modify (λ s. record s { blocks = rows })
    pure (ltb 0 n)

  unfoldable pub delete_follows_between : ℕ → ℕ → Action (Unit {0})
  delete_follows_between a b = modify (λ s. record s {
    follows = (db.follow.delete_many (λ r. is_follow a b r || is_follow b a r) s.follows).1;
  })

  unfoldable pub require_target : ℕ → Action (Unit {0})
  require_target id = do throw_if (not (is_some (← gets (find_profile id)))) not_found

  -- `follow` up to its insert: the answer says whether there is one to make. Other requests run
  -- between the two parts, at the awaits.
  unfoldable pub follow_checks : ℕ → ℕ → Action Bool
  follow_checks viewer target = do
    reject_self viewer target
    require_target target
    known ← gets (find_follow viewer target)
    mine ← gets (find_block viewer target)
    theirs ← gets (find_block target viewer)
    throw_if (not (is_some known) && (is_some mine || is_some theirs)) forbidden
    pure (not (is_some known))

  unfoldable pub follow_commit : Env → ℕ → ℕ → Action (Unit {0})
  follow_commit env viewer target = do
    created ← create_follow env viewer target
    when created (emit_safe env (follow_created viewer target))

  unfoldable pub follow : Env → ℕ → ℕ → Action (Unit {0})
  follow env viewer target = do
    absent ← follow_checks viewer target
    when absent (follow_commit env viewer target)

  unfoldable pub unfollow : Env → ℕ → ℕ → Action (Unit {0})
  unfollow env viewer target = do
    reject_self viewer target
    require_target target
    removed ← delete_follow viewer target
    when removed (emit_safe env (follow_deleted viewer target))

  -- `block` from its reads of the follows to the emissions of their deletion.
  unfoldable pub part_ways : Env → ℕ → ℕ → Action (Unit {0})
  part_ways env viewer target = do
    mine ← gets (find_follow viewer target)
    theirs ← gets (find_follow target viewer)
    delete_follows_between viewer target
    when (is_some mine) (emit_safe env (follow_deleted viewer target))
    when (is_some theirs) (emit_safe env (follow_deleted target viewer))

  unfoldable pub block_commit : Env → ℕ → ℕ → Action (Unit {0})
  block_commit env viewer target = do
    created ← create_block env viewer target
    when created (emit_safe env (block_created viewer target))

  unfoldable pub block : Env → ℕ → ℕ → Action (Unit {0})
  block env viewer target = do
    reject_self viewer target
    require_target target
    part_ways env viewer target
    block_commit env viewer target

  unfoldable pub unblock : Env → ℕ → ℕ → Action (Unit {0})
  unblock env viewer target = do
    reject_self viewer target
    require_target target
    removed ← delete_block viewer target
    when removed (emit_safe env (block_deleted viewer target))
