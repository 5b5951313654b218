-- ===== src/Social/Requests.antt =====
-- The invariant of the social graph over every sequence of requests
-- (apps/services/social/src/modules/social/social.service.ts).
use xitter.Prelude.{ℕ, ◌≡◌, refl, true, false, Option, List, [], ◌∷◌, if◌then◌else◌, any, arith}
use xitter.Database.Rows.{any-map_where, reject_all}
use xitter.Social.{
  ProfileRow, SocialDb, Social, Env, ok, err, internal, Action, ◌>>=◌, pure, is_profile, follow,
  unfollow, block, unblock, emit_safe,
}
use xitter.Social.Graph.{has_profile, has_follow, has_block, require_target_lem}
use xitter.Social.Effects.{follow_effect, unfollow_effect, block_effect, unblock_effect}
use xitter.Social.Profiles.{
  ensure_profile, update_profile, create_profile, edited, reseed, same_profile, new_profile,
}

-- No follow in either direction beside a block, none of oneself, and both ends of a follow are
-- profiles.
pub record IsValid (s : Social) : Type 0 where
  pub apart :
      (a b : ℕ) → has_block a b s ≡ true → (has_follow a b s ≡ false) × (has_follow b a s ≡ false)
  pub other : (a : ℕ) → has_follow a a s ≡ false
  pub known :
      (a b : ℕ) → has_follow a b s ≡ true → (has_profile a s ≡ true) × (has_profile b s ≡ true)

pub data Request : Type 0 where
  ensured : ℕ → List ℕ → Option ℕ → Option ℕ → ℕ → Request
  updated : ℕ → ℕ → Option ℕ → Option (Option ℕ) → Request
  followed unfollowed blocked unblocked : ℕ → ℕ → Request
  reseeded : Request

module _ (db : SocialDb) where
  pub handle : Env → Request → Action (Unit {0})
  handle env (ensured id username display_name bio generated) =
      ensure_profile db generated env id username display_name bio >>= λ _. pure tt
  handle env (updated caller target display_name bio) =
      update_profile db env caller target display_name bio
  handle env (followed v t) = follow db env v t
  handle env (unfollowed v t) = unfollow db env v t
  handle env (blocked v t) = block db env v t
  handle env (unblocked v t) = unblock db env v t
  handle env reseeded = reseed db

  -- One request after another; a request that throws leaves what it has written.
  pub run : List (Env × Request) → Social → Social
  run [] s = s
  run ((env, r) ∷ rs) s = run rs (handle env r s).1

  follow-IsValid : (env : Env) (v t : ℕ) (s : Social) → IsValid s → IsValid (follow db env v t s).1
  unfolding has_block has_profile
  follow-IsValid env v t s inv = record {
    apart = λ a b h. ground (
      arith,
      follow_effect db env v t a b s,
      follow_effect db env v t b a s,
      inv.apart a b,
      inv.apart v t,
      inv.apart t v,
    );
    other = λ a. ground (arith, follow_effect db env v t a a s, inv.other a);
    known = λ a b h. ground (arith, follow_effect db env v t a b s, inv.known a b, inv.known v t);
  }

  unfollow-IsValid :
      (env : Env) (v t : ℕ) (s : Social) → IsValid s → IsValid (unfollow db env v t s).1
  unfolding has_block has_profile
  unfollow-IsValid env v t s inv = record {
    apart = λ a b h.
        ground (
          arith,
          unfollow_effect db env v t a b s,
          unfollow_effect db env v t b a s,
          inv.apart a b,
        );
    other = λ a. ground (arith, unfollow_effect db env v t a a s, inv.other a);
    known = λ a b h. ground (arith, unfollow_effect db env v t a b s, inv.known a b);
  }

  block-IsValid : (env : Env) (v t : ℕ) (s : Social) → IsValid s → IsValid (block db env v t s).1
  unfolding has_profile
  block-IsValid env v t s inv = record {
    apart = λ a b h.
        ground (arith, block_effect db env v t a b s, block_effect db env v t b a s, inv.apart a b);
    other = λ a. ground (arith, block_effect db env v t a a s, inv.other a);
    known = λ a b h. ground (arith, block_effect db env v t a b s, inv.known a b);
  }

  unblock-IsValid :
      (env : Env) (v t : ℕ) (s : Social) → IsValid s → IsValid (unblock db env v t s).1
  unfolding has_follow has_profile
  unblock-IsValid env v t s inv = record {
    apart = λ a b h. ground (arith, unblock_effect db env v t a b s, inv.apart a b);
    other = λ a. ground (arith, unblock_effect db env v t a a s, inv.other a);
    known = λ a b h. ground (arith, unblock_effect db env v t a b s, inv.known a b);
  }

  -- A request that leaves the edges alone and loses no profile.
  record Grows (s t : Social) : Type 0 where
    follows : t.follows ≡ s.follows
    blocks : t.blocks ≡ s.blocks
    profiles : (a : ℕ) → has_profile a s ≡ true → has_profile a t ≡ true

  Grows-IsValid : {s t : Social} → Grows s t → IsValid s → IsValid t
  unfolding has_follow has_block
  Grows-IsValid g inv = record {
    apart = λ a b h. ground (arith, g.follows, g.blocks, inv.apart a b);
    other = λ a. ground (arith, g.follows, inv.other a);
    known = λ a b h. ground (arith, g.follows, inv.known a b, g.profiles a, g.profiles b);
  }

  create_profile_lem :
      (row : ProfileRow) (s : Social)
      → create_profile db row s ≡ (
          if any (same_profile row) s.profiles
          then (err internal, s)
          else (ok tt, record s { profiles = row ∷ s.profiles }))
  unfolding create_profile
  create_profile_lem row s = ground (arith, db.profile.create_lem same_profile row s.profiles)

  ensured-Grows :
      (env : Env) (id : ℕ) (name : List ℕ) (display_name bio : Option ℕ) (generated : ℕ)
      (s : Social)
      → Grows s (handle env (ensured id name display_name bio generated) s).1
  unfolding handle ensure_profile emit_safe has_profile any
  ensured-Grows env id name display_name bio generated s = record {
    follows =
        ground (arith, create_profile_lem (new_profile generated env id name display_name bio) s);
    blocks =
        ground (arith, create_profile_lem (new_profile generated env id name display_name bio) s);
    profiles = λ a h.
        ground (arith, create_profile_lem (new_profile generated env id name display_name bio) s);
  }

  updated-Grows :
      (env : Env) (caller target : ℕ) (display_name : Option ℕ) (bio : Option (Option ℕ))
      (s : Social)
      → Grows s (handle env (updated caller target display_name bio) s).1
  unfolding handle update_profile emit_safe has_profile
  updated-Grows env caller target display_name bio s = record {
    follows = ground (
      arith,
      require_target_lem db target s,
      db.profile.update_lem (is_profile target) (edited db display_name bio) s.profiles,
    );
    blocks = ground (
      arith,
      require_target_lem db target s,
      db.profile.update_lem (is_profile target) (edited db display_name bio) s.profiles,
    );
    profiles = λ a h. ground (
      arith,
      require_target_lem db target s,
      db.profile.update_lem (is_profile target) (edited db display_name bio) s.profiles,
      any-map_where (is_profile target) (is_profile a) (edited db display_name bio) s.profiles
          (λ r. refl),
    );
  }

  reseeded-IsValid : (env : Env) (s : Social) → IsValid (handle env reseeded s).1
  unfolding handle reseed has_follow has_block any
  reseeded-IsValid env s =
      simp (db.follow.delete_many_lem, db.block.delete_many_lem, reject_all)
        (record { apart = λ a b h. cc h; other = λ a. refl; known = λ a b h. cc h })

  -- Every request keeps the invariant.
  handle-IsValid : (env : Env) (r : Request) (s : Social) → IsValid s → IsValid (handle env r s).1
  unfolding handle
  handle-IsValid env (ensured id name display_name bio generated) s inv =
      Grows-IsValid (ensured-Grows env id name display_name bio generated s) inv
  handle-IsValid env (updated caller target display_name bio) s inv =
      Grows-IsValid (updated-Grows env caller target display_name bio s) inv
  handle-IsValid env (followed v t) s inv = follow-IsValid env v t s inv
  handle-IsValid env (unfollowed v t) s inv = unfollow-IsValid env v t s inv
  handle-IsValid env (blocked v t) s inv = block-IsValid env v t s inv
  handle-IsValid env (unblocked v t) s inv = unblock-IsValid env v t s inv
  handle-IsValid env reseeded s inv = reseeded-IsValid env s

  -- After any sequence of requests, each run whole, whatever they ask for and whichever of them
  -- throw: two accounts of which one blocks the other do not follow each other, none follows
  -- itself, and both ends of a follow have a profile.
  pub run-IsValid : (rs : List (Env × Request)) (s : Social) → IsValid s → IsValid (run rs s)
  unfolding run
  run-IsValid [] s inv = inv
  run-IsValid ((env, r) ∷ rs) s inv = run-IsValid rs (handle env r s).1 (handle-IsValid env r s inv)
