-- ===== src/Social/Effects.antt =====
-- What each request does to the graph and to the events, on every branch
-- (apps/services/social/src/modules/social/social.service.ts).
use xitter.Prelude.{
  ℕ, ◌≡◌, Bool, true, false, not, ◌&&◌, ◌||◌, Option, none, some, List, ◌∷◌, ◌==◌, is_some, reject,
  any, if◌then◌else◌, arith,
}
use xitter.Social.{
  SocialDb, Social, SocialEvent, follow_created, follow_deleted, block_created, block_deleted, Env,
  Error, bad_request, forbidden, not_found, internal, Result, ok, err, is_follow, reject_self,
  follow_commit, follow, unfollow, part_ways, block_commit, block, unblock, emit_safe,
}
use xitter.Social.Graph.{
  has_profile, has_follow, has_block, any-unfollow, any-unblock, any-part, create_follow_lem,
  create_block_lem, delete_follow_lem, delete_block_lem, delete_follows_between_lem,
  require_target_lem, follow_checks_lem, find_follow-has,
}

abbrev pub is_ok : {A : Type 0} → Result A → Bool
is_ok (ok a) = true
is_ok (err e) = false

-- The error of a request that names itself, or a target with no profile.
abbrev pub target_error : ℕ → ℕ → Social → Option Error
target_error v t s =
    if v == t then some bad_request else if has_profile t s then none else some not_found

abbrev pub follow_result : ℕ → ℕ → Social → Result (Unit {0})
follow_result v t s = elim (target_error v t s) [
  | some e ↦ err e
  | none ↦
      if has_follow v t s
      then ok tt
      else if has_block v t s || has_block t v s
      then err forbidden
      else if has_profile v s && has_profile t s
      then ok tt
      else err internal
]

abbrev pub add_event : Bool → Env → SocialEvent → List SocialEvent → List SocialEvent
add_event moved env e events = if moved && env.accepts e then e ∷ events else events

module _ (db : SocialDb) (env : Env) where
  -- `follow` throws for oneself, for a target with no profile, and for a block in either direction
  -- unless the follow is there already. Where it does not throw the follow is there afterwards; no
  -- other follow and no block changes; and the event is emitted only if the follow is new.
  pub follow_effect :
      (v t c d : ℕ) (s : Social)
      → let (r, s') = follow db env v t s in
        (r ≡ follow_result v t s)
        × (has_follow c d s' ≡ (if is_ok r && (v == c && t == d) then true else has_follow c d s))
        × (s'.blocks ≡ s.blocks)
        × (s'.profiles ≡ s.profiles)
        × (s'.events
            ≡ add_event (is_ok r && not (has_follow v t s)) env (follow_created v t) s.events)
  unfolding follow follow_commit emit_safe has_follow any
  follow_effect v t c d s =
      ground (arith, follow_checks_lem db v t s, create_follow_lem db env v t s)

  -- `unfollow` throws for oneself and for a target with no profile. Where it does not throw the
  -- follow is gone afterwards; no other follow and no block changes; and the event is emitted only
  -- if there was a follow.
  pub unfollow_effect :
      (v t c d : ℕ) (s : Social)
      → let (r, s') = unfollow db env v t s in
        (r ≡ elim (target_error v t s) [ some e ↦ err e | none ↦ ok tt ])
        × (has_follow c d s' ≡ (if is_ok r && (v == c && t == d) then false else has_follow c d s))
        × (s'.blocks ≡ s.blocks)
        × (s'.profiles ≡ s.profiles)
        × (s'.events ≡ add_event (is_ok r && has_follow v t s) env (follow_deleted v t) s.events)
  unfolding unfollow reject_self emit_safe has_follow
  unfollow_effect v t c d s =
      ground (
        arith,
        require_target_lem db t s,
        delete_follow_lem db v t s,
        any-unfollow v t c d s.follows,
      )

  pub unblock_effect :
      (v t c d : ℕ) (s : Social)
      → let (r, s') = unblock db env v t s in
        (r ≡ elim (target_error v t s) [ some e ↦ err e | none ↦ ok tt ])
        × (has_block c d s' ≡ (if is_ok r && (v == c && t == d) then false else has_block c d s))
        × (s'.follows ≡ s.follows)
        × (s'.profiles ≡ s.profiles)
        × (s'.events ≡ add_event (is_ok r && has_block v t s) env (block_deleted v t) s.events)
  unfolding unblock reject_self emit_safe has_block
  unblock_effect v t c d s =
      ground
        (arith, require_target_lem db t s, delete_block_lem db v t s, any-unblock v t c d s.blocks)

  abbrev pub block_result : ℕ → ℕ → Social → Result (Unit {0})
  block_result v t s = elim (target_error v t s) [
    | some e ↦ err e
    | none ↦ if has_profile v s && has_profile t s then ok tt else err internal
  ]

  part_ways_lem :
      (v t : ℕ) (s : Social)
      → part_ways db env v t s ≡ (
        ok tt,
        record s {
          follows = reject (λ r. is_follow v t r || is_follow t v r) s.follows;
          events =
              add_event
                (has_follow t v s)
                env
                (follow_deleted t v)
                (add_event (has_follow v t s) env (follow_deleted v t) s.events);
        },
      )
  unfolding part_ways emit_safe
  part_ways_lem v t s = ground (
    arith,
    find_follow-has db v t s,
    find_follow-has db t v s,
    delete_follows_between_lem db v t s,
  )

  block_commit_lem :
      (v t : ℕ) (s : Social)
      → let (r, s') = block_commit db env v t s in
        (r ≡ (if has_profile v s && has_profile t s then ok tt else err internal))
        × (s'.follows ≡ s.follows)
        × (s'.profiles ≡ s.profiles)
        × ((c d : ℕ)
            → has_block c d s' ≡ (if is_ok r && (v == c && t == d) then true else has_block c d s))
        × (s'.events
            ≡ add_event (is_ok r && not (has_block v t s)) env (block_created v t) s.events)
  unfolding block_commit emit_safe has_block any
  block_commit_lem v t s = (
    ground (arith, create_block_lem db env v t s),
    ground (arith, create_block_lem db env v t s),
    ground (arith, create_block_lem db env v t s),
    λ c d. ground (arith, create_block_lem db env v t s),
    ground (arith, create_block_lem db env v t s),
  )

  -- `block` throws for oneself and for a target with no profile, and then changes nothing. Otherwise
  -- both follows between the two are gone, no other follow changes, and an event is emitted for each
  -- follow that was there. If the caller has a profile too the block is there afterwards, no other
  -- block changes, and its event is emitted only if the block is new; if not, no block changes.
  pub block_effect :
      (v t c d : ℕ) (s : Social)
      → let (r, s') = block db env v t s in
        let reached = not (is_some (target_error v t s)) in
        (r ≡ block_result v t s)
        × (has_follow c d s' ≡ (
            if reached && (v == c && t == d || t == c && v == d) then false else has_follow c d s))
        × (has_block c d s' ≡ (if is_ok r && (v == c && t == d) then true else has_block c d s))
        × (s'.profiles ≡ s.profiles)
        × (s'.events
            ≡ add_event (is_ok r && not (has_block v t s)) env (block_created v t) (
                add_event
                  (reached && has_follow t v s)
                  env
                  (follow_deleted t v)
                  (add_event (reached && has_follow v t s) env (follow_deleted v t) s.events)))
  unfolding block reject_self has_follow has_profile has_block
  block_effect v t c d s =
      let parted = record s {
        follows = reject (λ r. is_follow v t r || is_follow t v r) s.follows;
        events =
            add_event (has_follow t v s) env (follow_deleted t v)
              (add_event (has_follow v t s) env (follow_deleted v t) s.events);
      } in
      let done = block_commit_lem v t parted in
      ground (
        arith,
        require_target_lem db t s,
        part_ways_lem v t s,
        done.0,
        done.1,
        done.2,
        done.3 c d,
        done.4,
        any-part v t c d s.follows,
      )
