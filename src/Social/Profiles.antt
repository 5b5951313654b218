-- ===== src/Social/Profiles.antt =====
-- The operations on profiles, the reads of the graph, and the nightly wipe
-- (apps/services/social/src/modules/social/social.service.ts over social.repository.ts). The
-- name that faker generates for a profile that brings none is an argument.
use xitter.Prelude.{
  ℕ, ◌≡◌, Bool, true, false, not, ◌&&◌, ◌||◌, Option, none, some, List, [], ◌∷◌, map, ◌==◌,
  same_text, leb, length, if◌then◌else◌, is_some, arith,
}
use xitter.Social.{
  ProfileRow, SocialDb, Social, profile_updated, Env, Error, bad_request, forbidden, not_found,
  internal, ok, err, Action, ◌>>=◌, ◌>>◌, pure, gets, throw_if, modify, is_profile, emit_safe,
  find_profile, find_follow, find_block, require_target,
}
use xitter.Social.Graph.{has_follow, has_block, find_follow-has, find_block-has}

-- The keys of a profile: its id, and its username.
abbrev pub same_profile : ProfileRow → ProfileRow → Bool
same_profile r x = x.id == r.id || same_text x.username r.username

-- `usernameSchema` (packages/api-contracts/src/schemas/domain.ts).
unfoldable pub all_word : List ℕ → Bool
all_word [] = true
all_word (c ∷ cs) =
    (leb b'a' c && leb c b'z' || leb b'0' c && leb c b'9' || c == b'_') && all_word cs

unfoldable pub is_username : List ℕ → Bool
unfolding all_word
is_username cs = leb 3 (length cs) && leb (length cs) 20 && all_word cs

abbrev pub or_value {ℓ} : {A : Type ℓ} → Option A → A → A
or_value none d = d
or_value (some a) d = a

pub record Relationship : Type 0 where
  pub following : Bool
  pub followed_by : Bool
  pub blocking : Bool
  pub blocked_by : Bool

abbrev or_throw : {A : Type 0} → Option A → Error → Action A
or_throw none e s = (err e, s)
or_throw (some a) e s = (ok a, s)

abbrev pub new_profile : ℕ → Env → ℕ → List ℕ → Option ℕ → Option ℕ → ProfileRow
new_profile generated env id username display_name bio = record {
  id = id;
  username = username;
  display_name = or_value display_name generated;
  bio = bio;
  created_at = env.now;
}

module _ (db : SocialDb) where
  unfoldable pub create_profile : ProfileRow → Action (Unit {0})
  create_profile row s = elim (db.profile.create same_profile row s.profiles) [
    | none ↦ (err internal, s)
    | some rows ↦ (ok tt, record s { profiles = rows })
  ]

  -- The answer says whether the profile was created.
  unfoldable pub ensure_profile :
      ℕ → Env → ℕ → List ℕ → Option ℕ → Option ℕ → Action (ProfileRow × Bool)
  ensure_profile generated env id username display_name bio = do
    throw_if (not (is_username username)) bad_request
    existing ← gets (find_profile db id)
    let row = new_profile generated env id username display_name bio
    elim existing [
      | some old ↦ pure (old, false)
      | none ↦ do create_profile row; emit_safe env (profile_updated id); pure (row, true)
    ]

  abbrev pub edited : Option ℕ → Option (Option ℕ) → ProfileRow → ProfileRow
  edited display_name bio r = record r {
    display_name = or_value display_name r.display_name;
    bio = or_value bio r.bio;
  }

  unfoldable pub update_profile : Env → ℕ → ℕ → Option ℕ → Option (Option ℕ) → Action (Unit {0})
  update_profile env caller target display_name bio = do
    throw_if (not (caller == target)) forbidden
    require_target db target
    rows ← gets (λ s. db.profile.update (is_profile target) (edited display_name bio) s.profiles)
    updated ← or_throw rows internal
    modify (λ s. record s { profiles = updated })
    emit_safe env (profile_updated target)

  unfoldable pub get_profile : ℕ → Action (ProfileRow × ℕ × ℕ)
  get_profile id = do
    row ← gets (find_profile db id)
    following ← gets (λ s. db.follow.count_rows (λ r. r.follower_id == id) s.follows)
    followers ← gets (λ s. db.follow.count_rows (λ r. r.followee_id == id) s.follows)
    found ← or_throw row not_found
    pure (found, following, followers)

  unfoldable pub relationship : ℕ → ℕ → Social → Relationship
  relationship viewer target s =
      if viewer == target
      then record { following = false; followed_by = false; blocking = false; blocked_by = false }
      else record {
        following = is_some (find_follow db viewer target s);
        followed_by = is_some (find_follow db target viewer s);
        blocking = is_some (find_block db viewer target s);
        blocked_by = is_some (find_block db target viewer s);
      }

  unfoldable pub follower_ids : ℕ → Social → List ℕ
  follower_ids id s =
      map (λ r. r.follower_id) (db.follow.find_many (λ r. r.followee_id == id) s.follows)

  unfoldable pub blocked_ids : ℕ → Social → List ℕ
  blocked_ids id s = map (λ r. r.blocked_id) (db.block.find_many (λ r. r.blocker_id == id) s.blocks)

  -- The wipe of the nightly reset; it emits nothing.
  unfoldable pub reseed : Action (Unit {0})
  reseed s = (
    ok tt,
    record s {
      follows = (db.follow.delete_many (λ r. true) s.follows).1;
      blocks = (db.block.delete_many (λ r. true) s.blocks).1;
      profiles = (db.profile.delete_many (λ r. true) s.profiles).1;
    },
  )

  -- The flags that the two sides of a pair see are each other's mirror image, and an account sees
  -- none on itself; between two accounts they are what the follow and block tables hold.
  pub relationship_mirror :
      (a b : ℕ) (s : Social)
      → let mine = relationship a b s in
        let theirs = relationship b a s in
        (mine.following ≡ theirs.followed_by)
        × (mine.followed_by ≡ theirs.following)
        × (mine.blocking ≡ theirs.blocked_by)
        × (mine.blocked_by ≡ theirs.blocking)
        × (mine.following ≡ not (a == b) && has_follow a b s)
        × (mine.blocking ≡ not (a == b) && has_block a b s)
  unfolding relationship
  relationship_mirror a b s = ground (
    arith,
    find_follow-has db a b s,
    find_follow-has db b a s,
    find_block-has db a b s,
    find_block-has db b a s,
  )
