-- ===== src/Social/Replay.antt =====
-- The published events as a record of the graph: what a consumer of the topic rebuilds
-- (apps/services/social/src/modules/social/social.service.ts, social-events.ts).
use xitter.Prelude.{ℕ, ◌≡◌, Bool, true, false, ◌&&◌, List, [], ◌∷◌, ◌==◌, if◌then◌else◌, All, arith}
use xitter.Social.{
  SocialDb, Social, SocialEvent, profile_updated, follow_created, follow_deleted, block_created,
  block_deleted, Env, follow, unfollow, block, unblock,
}
use xitter.Social.Graph.{has_follow, has_block}
use xitter.Social.Effects.{follow_effect, unfollow_effect, block_effect, unblock_effect}

-- Whether a consumer that has read the events, newest first, holds a follow or a block.
abbrev pub replay_follow : ℕ → ℕ → List SocialEvent → Bool
replay_follow a b [] = false
replay_follow a b (follow_created x y ∷ es) =
    if x == a && y == b then true else replay_follow a b es
replay_follow a b (follow_deleted x y ∷ es) =
    if x == a && y == b then false else replay_follow a b es
replay_follow a b (profile_updated x ∷ es) = replay_follow a b es
replay_follow a b (block_created x y ∷ es) = replay_follow a b es
replay_follow a b (block_deleted x y ∷ es) = replay_follow a b es

abbrev pub replay_block : ℕ → ℕ → List SocialEvent → Bool
replay_block a b [] = false
replay_block a b (block_created x y ∷ es) = if x == a && y == b then true else replay_block a b es
replay_block a b (block_deleted x y ∷ es) = if x == a && y == b then false else replay_block a b es
replay_block a b (profile_updated x ∷ es) = replay_block a b es
replay_block a b (follow_created x y ∷ es) = replay_block a b es
replay_block a b (follow_deleted x y ∷ es) = replay_block a b es

pub record IsReplayed (s : Social) : Type 0 where
  pub follows : (a b : ℕ) → replay_follow a b s.events ≡ has_follow a b s
  pub blocks : (a b : ℕ) → replay_block a b s.events ≡ has_block a b s

pub data Edge : Type 0 where
  followed unfollowed blocked unblocked : ℕ → ℕ → Edge

module _ (db : SocialDb) where
  pub change : Env → Edge → Social → Social
  change env (followed v t) s = (follow db env v t s).1
  change env (unfollowed v t) s = (unfollow db env v t s).1
  change env (blocked v t) s = (block db env v t s).1
  change env (unblocked v t) s = (unblock db env v t s).1

  pub change_all : List (Env × Edge) → Social → Social
  change_all [] s = s
  change_all ((env, e) ∷ es) s = change_all es (change env e s)

  change-IsReplayed :
      (env : Env) (e : Edge) (s : Social)
      → ((x : SocialEvent) → env.accepts x ≡ true)
      → IsReplayed s
      → IsReplayed (change env e s)
  unfolding change has_follow has_block
  change-IsReplayed env (followed v t) s up h = record {
    follows = λ a b.
        ground (arith, follow_effect db env v t a b s, up (follow_created v t), h.follows a b);
    blocks = λ a b.
        ground (arith, follow_effect db env v t a b s, up (follow_created v t), h.blocks a b);
  }
  change-IsReplayed env (unfollowed v t) s up h = record {
    follows = λ a b.
        ground (arith, unfollow_effect db env v t a b s, up (follow_deleted v t), h.follows a b);
    blocks = λ a b.
        ground (arith, unfollow_effect db env v t a b s, up (follow_deleted v t), h.blocks a b);
  }
  change-IsReplayed env (blocked v t) s up h = record {
    follows = λ a b. ground (
      arith,
      block_effect db env v t a b s,
      up (follow_deleted v t),
      up (follow_deleted t v),
      up (block_created v t),
      h.follows a b,
    );
    blocks = λ a b. ground (
      arith,
      block_effect db env v t a b s,
      up (follow_deleted v t),
      up (follow_deleted t v),
      up (block_created v t),
      h.blocks a b,
    );
  }
  change-IsReplayed env (unblocked v t) s up h = record {
    follows = λ a b.
        ground (arith, unblock_effect db env v t a b s, up (block_deleted v t), h.follows a b);
    blocks = λ a b.
        ground (arith, unblock_effect db env v t a b s, up (block_deleted v t), h.blocks a b);
  }

  abbrev pub AllAccepted : List (Env × Edge) → Type 0
  AllAccepted = All (λ r. (x : SocialEvent) → r.0.accepts x ≡ true)

  -- While the broker accepts every event, the events are a faithful record: after any sequence of
  -- follows, unfollows, blocks and unblocks, whichever of them throw, a consumer that replays what
  -- was published holds exactly the follows and the blocks of the tables.
  pub change_all-IsReplayed :
      (es : List (Env × Edge)) (s : Social)
      → AllAccepted es
      → IsReplayed s
      → IsReplayed (change_all es s)
  unfolding change_all
  change_all-IsReplayed [] s up h = h
  change_all-IsReplayed ((env, e) ∷ es) s up h =
      change_all-IsReplayed es (change env e s) up.1 (change-IsReplayed env e s up.0 h)
