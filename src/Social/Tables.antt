-- ===== src/Social/Tables.antt =====
-- The tables of the social service and what a request does to them
-- (apps/services/social/src/modules/social): the rows, the errors and the monad.
use xitter.Prelude.{ℕ, Bool, true, false, ◌&&◌, Option, List, ◌∷◌, ◌==◌, if◌then◌else◌}
use xitter.Database.{Client}

pub record ProfileRow : Type 0 where
  pub id : ℕ
  pub username : List ℕ
  pub display_name : ℕ
  pub bio : Option ℕ
  pub created_at : ℕ

pub record FollowRow : Type 0 where
  pub id : ℕ
  pub follower_id : ℕ
  pub followee_id : ℕ
  pub created_at : ℕ

pub record BlockRow : Type 0 where
  pub id : ℕ
  pub blocker_id : ℕ
  pub blocked_id : ℕ
  pub created_at : ℕ

pub record SocialDb : Type 0 where
  pub profile : Client ProfileRow
  pub follow : Client FollowRow
  pub block : Client BlockRow

-- The events of the service, with the ids of their payload.
pub data SocialEvent : Type 0 where
  profile_updated : ℕ → SocialEvent
  follow_created follow_deleted block_created block_deleted : ℕ → ℕ → SocialEvent

pub record Social : Type 0 where
  pub profiles : List ProfileRow
  pub follows : List FollowRow
  pub blocks : List BlockRow
  pub events : List SocialEvent

-- What one request brings along: the id and the time that the database gives a new row, and which
-- events the broker accepts.
pub record Env : Type 0 where
  pub fresh_id : ℕ
  pub now : ℕ
  pub accepts : SocialEvent → Bool

-- `internal` is a rejected query, which the service does not catch.
pub data Error : Type 0 where
  bad_request forbidden not_found internal : Error

pub data Result (A : Type 0) : Type 0 where
  ok : A → Result A
  err : Error → Result A

abbrev pub Action : Type 0 → Type 0
Action A = Social → Result A × Social

infixl 5 ◌>>=◌ ◌>>◌
abbrev pub ◌>>=◌ : {A B : Type 0} → Action A → (A → Action B) → Action B
◌>>=◌ m f s = let (r, s') = m s in elim r [ ok a ↦ f a s' | err e ↦ (err e, s') ]

abbrev pub ◌>>◌ : {A B : Type 0} → Action A → Action B → Action B
m >> k = m >>= λ _. k

abbrev pub pure : {A : Type 0} → A → Action A
pure a s = (ok a, s)

abbrev pub gets : {A : Type 0} → (Social → A) → Action A
gets f s = (ok (f s), s)

abbrev pub throw_if : Bool → Error → Action (Unit {0})
throw_if true e s = (err e, s)
throw_if false e s = (ok tt, s)

abbrev pub modify : (Social → Social) → Action (Unit {0})
modify f s = (ok tt, f s)

abbrev pub when : Bool → Action (Unit {0}) → Action (Unit {0})
when true m = m
when false m = pure tt

abbrev pub is_profile : ℕ → ProfileRow → Bool
is_profile id r = r.id == id

-- The unique keys of prisma/schema.prisma.
abbrev pub is_follow : ℕ → ℕ → FollowRow → Bool
is_follow a b r = r.follower_id == a && r.followee_id == b

abbrev pub is_block : ℕ → ℕ → BlockRow → Bool
is_block a b r = r.blocker_id == a && r.blocked_id == b

abbrev pub same_follow : FollowRow → FollowRow → Bool
same_follow r x = is_follow r.follower_id r.followee_id x

abbrev pub same_block : BlockRow → BlockRow → Bool
same_block r x = is_block r.blocker_id r.blocked_id x

-- A best-effort emission after the commit: what the broker refuses is logged and lost.
unfoldable pub emit_safe : Env → SocialEvent → Action (Unit {0})
emit_safe env e =
    modify (λ s. record s { events = if env.accepts e then e ∷ s.events else s.events })

unfoldable pub reject_self : ℕ → ℕ → Action (Unit {0})
reject_self viewer target = throw_if (viewer == target) bad_request
