-- ===== src/Social/Graph.antt =====
-- The graph that the tables of the social service hold, and what each request does to it
-- (apps/services/social/src/modules/social/social.service.ts).
use xitter.Prelude.{
  ℕ, ◌≡◌, Bool, true, false, not, ◌&&◌, ◌||◌, List, [], ◌∷◌, ◌==◌, reject, any, if◌then◌else◌,
  is_some, arith,
}
use xitter.Database.{insert_all}
use xitter.Database.Rows.{is_some-find?, count-pos, reject-or}
use xitter.Social.{
  FollowRow, BlockRow, SocialDb, Social, Env, bad_request, forbidden, not_found, internal, ok, err,
  is_profile, is_follow, is_block, find_profile, find_follow, find_block, create_follow,
  create_block, delete_follow, delete_block, delete_follows_between, require_target, reject_self,
  follow_checks,
}

unfoldable pub has_profile : ℕ → Social → Bool
has_profile a s = any (is_profile a) s.profiles

unfoldable pub has_follow : ℕ → ℕ → Social → Bool
has_follow a b s = any (is_follow a b) s.follows

unfoldable pub has_block : ℕ → ℕ → Social → Bool
has_block a b s = any (is_block a b) s.blocks

pub any-unfollow :
    (a b c d : ℕ) (rows : List FollowRow)
    → any (is_follow c d) (reject (is_follow a b) rows)
      ≡ (if a == c && b == d then false else any (is_follow c d) rows)
unfolding any reject
any-unfollow a b c d [] = ground arith
any-unfollow a b c d (x ∷ xs) = ground (arith, any-unfollow a b c d xs)

pub any-unblock :
    (a b c d : ℕ) (rows : List BlockRow)
    → any (is_block c d) (reject (is_block a b) rows)
      ≡ (if a == c && b == d then false else any (is_block c d) rows)
unfolding any reject
any-unblock a b c d [] = ground arith
any-unblock a b c d (x ∷ xs) = ground (arith, any-unblock a b c d xs)

pub any-part :
    (a b c d : ℕ) (rows : List FollowRow)
    → any (is_follow c d) (reject (λ r. is_follow a b r || is_follow b a r) rows)
      ≡ (if a == c && b == d || b == c && a == d then false else any (is_follow c d) rows)
any-part a b c d rows =
    rw (reject-or (is_follow a b) (is_follow b a) rows, any-unfollow b a c d, any-unfollow a b c d)
      (ground arith)

module _ (db : SocialDb) where
  pub find_profile-has : (a : ℕ) (s : Social) → is_some (find_profile db a s) ≡ has_profile a s
  unfolding find_profile has_profile
  find_profile-has a s = rw db.profile.find_first_lem (is_some-find? (is_profile a) s.profiles)

  pub find_follow-has : (a b : ℕ) (s : Social) → is_some (find_follow db a b s) ≡ has_follow a b s
  unfolding find_follow has_follow
  find_follow-has a b s = rw db.follow.find_first_lem (is_some-find? (is_follow a b) s.follows)

  pub find_block-has : (a b : ℕ) (s : Social) → is_some (find_block db a b s) ≡ has_block a b s
  unfolding find_block has_block
  find_block-has a b s = rw db.block.find_first_lem (is_some-find? (is_block a b) s.blocks)

  -- The inserts and deletes, on the tables.
  pub create_follow_lem :
      (env : Env) (a b : ℕ) (s : Social)
      → create_follow db env a b s ≡ (
          if has_profile a s && has_profile b s
          then (if has_follow a b s then (ok false, s) else (
            ok true,
            record s {
              follows =
                  record {
                    id = env.fresh_id;
                    follower_id = a;
                    followee_id = b;
                    created_at = env.now;
                  }
                  ∷ s.follows;
            },
          ))
          else (err internal, s))
  unfolding create_follow has_follow insert_all
  create_follow_lem env a b s = simp (find_profile-has, db.follow.create_many_lem) (ground arith)

  pub create_block_lem :
      (env : Env) (a b : ℕ) (s : Social)
      → create_block db env a b s ≡ (
          if has_profile a s && has_profile b s
          then (if has_block a b s then (ok false, s) else (
            ok true,
            record s {
              blocks =
                  record { id = env.fresh_id; blocker_id = a; blocked_id = b; created_at = env.now }
                  ∷ s.blocks;
            },
          ))
          else (err internal, s))
  unfolding create_block has_block insert_all
  create_block_lem env a b s = simp (find_profile-has, db.block.create_many_lem) (ground arith)

  pub delete_follow_lem :
      (a b : ℕ) (s : Social)
      → delete_follow db a b s
        ≡ (ok (has_follow a b s), record s { follows = reject (is_follow a b) s.follows })
  unfolding delete_follow has_follow
  delete_follow_lem a b s = simp (db.follow.delete_many_lem, count-pos)

  pub delete_block_lem :
      (a b : ℕ) (s : Social)
      → delete_block db a b s
        ≡ (ok (has_block a b s), record s { blocks = reject (is_block a b) s.blocks })
  unfolding delete_block has_block
  delete_block_lem a b s = simp (db.block.delete_many_lem, count-pos)

  pub delete_follows_between_lem :
      (a b : ℕ) (s : Social)
      → delete_follows_between db a b s
        ≡ (ok tt, record s { follows = reject (λ r. is_follow a b r || is_follow b a r) s.follows })
  unfolding delete_follows_between
  delete_follows_between_lem a b s = simp db.follow.delete_many_lem

  pub require_target_lem :
      (a : ℕ) (s : Social)
      → require_target db a s ≡ ((if has_profile a s then ok tt else err not_found), s)
  unfolding require_target
  require_target_lem a s = simp find_profile-has (ground arith)

  -- What `follow` decides before its insert.
  pub follow_checks_lem :
      (v t : ℕ) (s : Social)
      → follow_checks db v t s ≡ (
        (if v == t
            then err bad_request
            else if not (has_profile t s)
            then err not_found
            else if has_follow v t s
            then ok false
            else if has_block v t s || has_block t v s
            then err forbidden
            else ok true),
        s,
      )
  unfolding follow_checks reject_self
  follow_checks_lem v t s = ground (
    arith,
    require_target_lem t s,
    find_follow-has v t s,
    find_block-has v t s,
    find_block-has t v s,
  )
