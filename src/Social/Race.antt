-- ===== src/Social/Race.antt =====
-- What the awaits of `follow` let in (apps/services/social/src/modules/social/social.service.ts).
use xitter.Prelude.{ℕ, ◌≡◌, ◌≢◌, true, false, any, arith}
use xitter.Social.{
  SocialDb, Social, Env, ok, follow_checks, follow_commit, follow, block, emit_safe,
}
use xitter.Social.Graph.{has_profile, has_follow, has_block, follow_checks_lem, create_follow_lem}
use xitter.Social.Effects.{follow_effect, block_effect}

module _ (db : SocialDb) (env : Env) where
  -- Run one after another, the two requests leave no follow: the block removes it.
  pub follow_then_block :
      (v t : ℕ) (s : Social)
      → v ≢ t
      → has_profile v s ≡ true
      → has_profile t s ≡ true
      → let (r, s') = block db env t v (follow db env v t s).1 in
        (r ≡ ok tt) × (has_block t v s' ≡ true) × (has_follow v t s' ≡ false)
  unfolding has_profile
  follow_then_block v t s ne hv ht = ground (
    arith,
    follow_effect db env v t v t s,
    block_effect db env t v v t (follow db env v t s).1,
    block_effect db env t v t v (follow db env v t s).1,
  )

  -- A block by the target that runs whole between the checks of a follow and its insert: where the
  -- two accounts differ, have profiles, and neither follow nor block stands between them, both
  -- requests succeed, and the follow stands beside the block.
  pub follow_races_block :
      (v t : ℕ) (s : Social)
      → v ≢ t
      → has_profile v s ≡ true
      → has_profile t s ≡ true
      → has_follow v t s ≡ false
      → has_block v t s ≡ false
      → has_block t v s ≡ false
      → let (go, s₁) = follow_checks db v t s in
        let (blocked, s₂) = block db env t v s₁ in
        let (followed, s₃) = follow_commit db env v t s₂ in
        (go ≡ ok true)
        × (blocked ≡ ok tt)
        × (followed ≡ ok tt)
        × (has_block t v s₃ ≡ true)
        × (has_follow v t s₃ ≡ true)
  unfolding follow_commit emit_safe has_follow has_block has_profile any
  follow_races_block v t s ne hv ht nf nb nb' = ground (
    arith,
    follow_checks_lem db v t s,
    block_effect db env t v t v s,
    block_effect db env t v v t s,
    create_follow_lem db env v t (block db env t v s).1,
  )
