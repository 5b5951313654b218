-- ===== src/Social/Tests.antt =====
-- Runs of the social service, and its theorems at concrete tables.
use xitter.Prelude.{
  ℕ, ◌≡◌, refl, true, false, not, ◌&&◌, ◌||◌, none, List, [], ◌∷◌, ◌==◌, if◌then◌else◌, is_some,
  any, reject, count, find?, arith,
}
use xitter.Database.{insert_all}
use xitter.Database.Sample.{sample_client}
use xitter.Social
use xitter.Social.{
  ProfileRow, FollowRow, BlockRow, SocialDb, Social, SocialEvent, follow_created, follow_deleted,
  block_created, Env, Result, ok, err, bad_request, forbidden,
}
use xitter.Social.Graph.{has_profile, has_follow, has_block}
use xitter.Social.Effects.{
  follow_effect, block_effect, follow_result, block_result, is_ok, target_error, add_event,
}
use xitter.Social.Requests.{IsValid, run-IsValid, run, Request}
use xitter.Social.Replay.{IsReplayed, change_all-IsReplayed, change_all, Edge}
use xitter.Social.Race.{follow_races_block}

abbrev db : SocialDb
db = record {
  profile = sample_client ProfileRow;
  follow = sample_client FollowRow;
  block = sample_client BlockRow;
}

abbrev env : Env
env = record { fresh_id = 90; now = 1000; accepts = λ e. true }

abbrev profile : ℕ → ProfileRow
profile id = record { id = id; username = id ∷ []; display_name = id; bio = none; created_at = 1 }

abbrev three : Social
three = record {
  profiles = profile 1 ∷ profile 2 ∷ profile 3 ∷ [];
  follows = [];
  blocks = [];
  events = [];
}

abbrev followed : Social
followed = record three {
  follows = record { id = 90; follower_id = 1; followee_id = 2; created_at = 1000 } ∷ [];
  events = follow_created 1 2 ∷ [];
}

program : Unit {0}
unfolding Social.follow Social.follow_checks Social.follow_commit Social.create_follow
    Social.find_profile Social.find_follow Social.find_block Social.require_target
    Social.reject_self Social.emit_safe find? insert_all any count reject Social.block
    Social.part_ways Social.block_commit Social.create_block Social.delete_follows_between
program = tt

follow_run : Social.follow db env 1 2 three ≡ (ok tt, followed)
unfolding program
follow_run = refl

block_run :
    (Social.block db env 2 1 followed).1.events
    ≡ block_created 2 1 ∷ follow_deleted 1 2 ∷ follow_created 1 2 ∷ []
unfolding program
block_run = refl

three-IsValid : IsValid three
unfolding has_follow has_block any
three-IsValid = record { apart = λ a b h. cc h; other = λ a. refl; known = λ a b h. cc h }

three-IsReplayed : IsReplayed three
unfolding has_follow has_block any
three-IsReplayed = record { follows = λ a b. refl; blocks = λ a b. refl }

follow_effect_example :
    let (r, s') = Social.follow db env 1 2 three in
    (r ≡ follow_result 1 2 three)
    × (has_follow 1 2 s' ≡ (if is_ok r && (1 == 1 && 2 == 2) then true else has_follow 1 2 three))
    × (s'.blocks ≡ [])
    × (s'.profiles ≡ three.profiles)
    × (s'.events ≡ add_event (is_ok r && not (has_follow 1 2 three)) env (follow_created 1 2) [])
follow_effect_example = follow_effect db env 1 2 1 2 three

abbrev requests : List (Env × Request)
requests =
    (env, Request.followed 1 2) ∷ (env, Request.blocked 2 1) ∷ (env, Request.followed 1 2) ∷ []

run-IsValid_example : IsValid (run db requests three)
run-IsValid_example = run-IsValid db requests three three-IsValid

abbrev edges : List (Env × Edge)
edges = (env, Edge.followed 1 2) ∷ (env, Edge.blocked 2 1) ∷ (env, Edge.followed 3 1) ∷ []

change_all-IsReplayed_example : IsReplayed (change_all db edges three)
change_all-IsReplayed_example =
    change_all-IsReplayed db edges three ((λ x. refl), ((λ x. refl), ((λ x. refl), tt)))
      three-IsReplayed

follow_races_block_example :
    let (go, s₁) = Social.follow_checks db 1 2 three in
    let (blocked, s₂) = Social.block db env 2 1 s₁ in
    let (done, s₃) = Social.follow_commit db env 1 2 s₂ in
    (go ≡ ok true)
    × (blocked ≡ ok tt)
    × (done ≡ ok tt)
    × (has_block 2 1 s₃ ≡ true)
    × (has_follow 1 2 s₃ ≡ true)
unfolding has_profile has_follow has_block any
follow_races_block_example =
    follow_races_block db env 1 2 three (omega arith) refl refl refl refl refl

block_effect_example :
    let (r, s') = Social.block db env 2 1 followed in
    let reached = not (is_some (target_error 2 1 followed)) in
    (r ≡ block_result db env 2 1 followed)
    × (has_follow 1 2 s' ≡ (
        if reached && (2 == 1 && 1 == 2 || 1 == 1 && 2 == 2)
        then false
        else has_follow 1 2 followed))
    × (has_block 1 2 s' ≡ (if is_ok r && (2 == 1 && 1 == 2) then true else has_block 1 2 followed))
    × (s'.profiles ≡ followed.profiles)
    × (s'.events
        ≡ add_event (is_ok r && not (has_block 2 1 followed)) env (block_created 2 1) (
            add_event (reached && has_follow 1 2 followed) env (follow_deleted 1 2) (
              add_event
                (reached && has_follow 2 1 followed)
                env
                (follow_deleted 2 1)
                followed.events)))
block_effect_example = block_effect db env 2 1 1 2 followed
