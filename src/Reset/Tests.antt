-- ===== src/Reset/Tests.antt =====
-- Runs of the reset, and its theorems at concrete scripts.
use xitter.Prelude.{ℕ, zero, suc, ◌≡◌, refl, true, false, none, some, List, [], ◌∷◌, any, reject}
use xitter.Fanout.{Outcome, answered, refused}
use xitter.Reset
use xitter.Reset.{Env, Worker, fanout, media_process, search_index, Call, status_written}
use xitter.Reset.Acknowledged.{Acknowledged, run_reset_flow-Acknowledged}
use xitter.Reset.Released.{run_reset_flow-released, run_reset_flow-stranded}
use xitter.Reset.Answered.{seeded_steps, seeded_calls, run_reset_flow-answered}

-- The workers pause at the second poll.
abbrev env : Env
env = record {
  seeds = true;
  skips_cms = false;
  warms = false;
  heartbeat = λ poll w. elim poll [ zero ↦ none | suc n ↦ some 1 ];
  patience = 3;
  seed_fingerprint = 42;
  feed_items = 0;
  warm_count = 0;
}

abbrev prompt : Env
prompt = record env { heartbeat = λ poll w. some 1 }

abbrev with_script : List Outcome → Reset.Reset
with_script script = record {
  epoch = none;
  expires = false;
  status = none;
  epoch_active = false;
  fingerprint = none;
  steps = [];
  calls = [];
  script = script;
}

-- The wipe of the bucket is refused.
abbrev late_failure : List Outcome
late_failure =
    answered ∷ answered ∷ answered ∷ answered ∷ answered ∷ answered ∷ answered ∷ answered ∷ answered
    ∷ answered ∷ answered ∷ answered ∷ answered ∷ refused ∷ []

run_reset_flow-Acknowledged_example : (i : ℕ) × Acknowledged env 1 i
unfolding Reset.run_reset_flow Reset.all_steps Reset.pause_workers Reset.wipe_stores
    Reset.seed_or_verify Reset.warm_up Reset.finish Reset.clear_epoch Reset.set_epoch
    Reset.flush_all Reset.step Reset.call Reset.wait_for Reset.reseed_services Reset.reseed_service
    any reject
run_reset_flow-Acknowledged_example =
    run_reset_flow-Acknowledged env (with_script late_failure) refl

run_reset_flow-released_example :
    (Reset.run_reset_flow env (with_script late_failure)).1.epoch ≡ none
unfolding Reset.all_steps Reset.pause_workers Reset.wipe_stores Reset.seed_or_verify Reset.warm_up
    Reset.clear_epoch Reset.set_epoch Reset.flush_all Reset.step Reset.call Reset.wait_for
    Reset.reseed_services Reset.reseed_service any reject
run_reset_flow-released_example = run_reset_flow-released env (with_script late_failure) refl refl

run_reset_flow-stranded_example :
    let (success, end) =
      Reset.run_reset_flow env (with_script (answered ∷ answered ∷ refused ∷ [])) in
    (success ≡ false) × (end.epoch ≡ some 1) × (end.expires ≡ false)
run_reset_flow-stranded_example =
    run_reset_flow-stranded env (with_script (answered ∷ answered ∷ refused ∷ [])) refl

run_reset_flow-answered_example :
    let (success, end) = Reset.run_reset_flow prompt (with_script []) in
    (success ≡ true)
    × (end.epoch ≡ none)
    × (end.steps ≡ seeded_steps)
    × (end.calls ≡ status_written ∷ seeded_calls)
    × (end.status ≡ some (record { success = true; fingerprint = some 42; steps = seeded_steps }))
run_reset_flow-answered_example =
    run_reset_flow-answered prompt (λ w. refl) (with_script []) refl refl refl
