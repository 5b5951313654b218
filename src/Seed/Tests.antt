-- ===== src/Seed/Tests.antt =====
-- A corpus of a post and a reply on a service that loses answers (packages/scripts/src/seed.ts).
use xitter.Prelude.{◌≡◌, refl, true, none, some, List, [], ◌∷◌, arith, keep, find?}
use xitter.Database.{sort, insert_sorted}
use xitter.Seed.{
  Server, ok, lost_before, lost_after, never_connected, CorpusPost, Slots, attempt_json,
  request_json, create, find_twin_post, create_post, seed_posts,
}
use xitter.Seed.Corpus.{quiet, seed_posts-quiet}
use xitter.Seed.Probe.{Reading, probe_state, fresh, probe_user, seen_of}

abbrev corpus : List CorpusPost
corpus =
    record { slot = 0; author_id = 7; text = 1 ∷ []; reply_to = none; age = 10 }
    ∷ record { slot = 1; author_id = 8; text = 2 ∷ []; reply_to = some 0; age = 5 }
    ∷ []

-- The first create arrives and its answer is lost; the second dies before it arrives.
abbrev shaky : Server
shaky = record {
  rows = [];
  next_id = 100;
  script = lost_after ∷ never_connected ∷ lost_before ∷ [];
}

abbrev ids : Slots
ids = (1, 101) ∷ (0, 100) ∷ []

abbrev seeded_service : Server
seeded_service = record {
  rows =
      record {
        id = 101;
        author_id = 8;
        text = 2 ∷ [];
        reply_to_id = some 100;
        created_at = 995;
        deleted_at = none;
      }
      ∷ record {
        id = 100;
        author_id = 7;
        text = 1 ∷ [];
        reply_to_id = none;
        created_at = 990;
        deleted_at = none;
      }
      ∷ [];
  next_id = 102;
  script = [];
}

shaky_run : seed_posts 1000 corpus [] shaky ≡ (ok ids, seeded_service)
unfolding seed_posts create_post create request_json attempt_json find_twin_post keep find? sort
    insert_sorted
shaky_run = refl

seed_posts-quiet_example : seed_posts 1000 corpus [] (quiet shaky) ≡ (ok ids, quiet seeded_service)
unfolding keep find?
seed_posts-quiet_example =
    seed_posts-quiet 1000 corpus [] ids shaky seeded_service
      ((refl, omega arith), ((refl, omega arith), tt)) shaky_run

abbrev unread : Reading
unread = record { profile = true; posts = none; expected = 25 }

taken_for_fresh : probe_state (unread ∷ unread ∷ []) ≡ fresh
unfolding probe_state seen_of probe_user
taken_for_fresh = refl
