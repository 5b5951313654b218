-- ===== src/Reset/Answered.antt =====
-- A reset in which every call is answered, and what its reports say
-- (packages/scripts/src/reset-flow.ts).
use xitter.Prelude.{
  ℕ, zero, suc, ◌≡◌, refl, true, false, Option, none, some, List, [], ◌∷◌, reject, arith,
}
use xitter.Http.{ok}
use xitter.Reset.{
  Reset, Call, StepName, StepReport, Env, Worker, fanout, media_process, search_index, flushed,
  incremented, expired, polled, realm_reset, realm_init, reseeded, social, posts, media, feed,
  search, cms_reset, bucket_wiped, index_deleted, epoch_cleared, seeded, status_written, epoch_is,
  flush_valkey, set_reset_epoch, wait_workers_paused, recreate_keycloak_realm, truncate_service_dbs,
  reset_cms_content, wipe_media_bucket, delete_search_index, clear_reset_epoch, seed, Detail,
  worker_names, service_names, cms_counts, object_count, call, step, wait_for, flush_all, set_epoch,
  pause_workers, wipe_stores, reseed_services, reseed_service, seed_or_verify, warm_up, all_steps,
  finish, clear_epoch, begin, run_reset_flow,
}

abbrev pub fine : StepName → Option Detail → StepReport
fine name detail = record { name = name; is_fine = true; detail = detail }

-- The detail of a step stands on the step before it.
abbrev pub seeded_steps : List StepReport
seeded_steps =
    fine seed none
    ∷ fine clear_reset_epoch none
    ∷ fine delete_search_index none
    ∷ fine wipe_media_bucket none
    ∷ fine reset_cms_content (some object_count)
    ∷ fine truncate_service_dbs (some cms_counts)
    ∷ fine recreate_keycloak_realm (some service_names)
    ∷ fine wait_workers_paused none
    ∷ fine set_reset_epoch (some worker_names)
    ∷ fine flush_valkey none
    ∷ []

abbrev pub seeded_calls : List Call
seeded_calls =
    seeded
    ∷ epoch_cleared
    ∷ index_deleted
    ∷ bucket_wiped
    ∷ cms_reset
    ∷ reseeded search
    ∷ reseeded feed
    ∷ reseeded media
    ∷ reseeded posts
    ∷ reseeded social
    ∷ realm_init
    ∷ realm_reset
    ∷ polled
    ∷ expired
    ∷ incremented
    ∷ flushed
    ∷ []

module _ (env : Env) where
  -- What the last steps leave.
  abbrev after_wait : Reset → Reset
  after_wait s = record s {
    epoch = some 1;
    expires = true;
    status = none;
    epoch_active = true;
    fingerprint = none;
    steps =
        fine wait_workers_paused none
        ∷ fine set_reset_epoch (some worker_names)
        ∷ fine flush_valkey none
        ∷ [];
    calls = polled ∷ expired ∷ incremented ∷ flushed ∷ [];
  }

  abbrev after_wipes : Reset → Reset
  after_wipes s = record s {
    epoch = none;
    expires = false;
    status = none;
    epoch_active = false;
    fingerprint = none;
    steps =
        fine clear_reset_epoch none
        ∷ fine delete_search_index none
        ∷ fine wipe_media_bucket none
        ∷ fine reset_cms_content (some object_count)
        ∷ fine truncate_service_dbs (some cms_counts)
        ∷ fine recreate_keycloak_realm (some service_names)
        ∷ (after_wait s).steps;
    calls =
        epoch_cleared
        ∷ index_deleted
        ∷ bucket_wiped
        ∷ cms_reset
        ∷ reseeded search
        ∷ reseeded feed
        ∷ reseeded media
        ∷ reseeded posts
        ∷ reseeded social
        ∷ realm_init
        ∷ realm_reset
        ∷ (after_wait s).calls;
    script = [];
  }

  abbrev after_steps : Reset → Reset
  after_steps s = record (after_wipes s) {
    fingerprint = some env.seed_fingerprint;
    steps = seeded_steps;
    calls = seeded_calls;
  }

  module _ (acks : (w : Worker) → env.heartbeat 0 w ≡ some 1) where
    wait_for-answered :
        (n : ℕ) (s : Reset)
        → s.script ≡ []
        → wait_for env 1 0 n s ≡ (ok tt, record s { calls = polled ∷ s.calls })
    unfolding wait_for call reject
    wait_for-answered zero s h =
        ground (arith, h, acks fanout, acks media_process, acks search_index)
    wait_for-answered (suc n) s h =
        ground (arith, h, acks fanout, acks media_process, acks search_index)

    pause_workers-answered :
        (s : Reset)
        → pause_workers env (begin (record s { script = [] }))
          ≡ (ok tt, record (after_wait s) { script = [] })
    unfolding pause_workers flush_all set_epoch step call
    pause_workers-answered s = ground (
      arith,
      wait_for-answered env.patience
          (record s {
            epoch = some 1;
            expires = true;
            status = none;
            epoch_active = true;
            fingerprint = none;
            steps = fine set_reset_epoch (some (epoch_is 1)) ∷ fine flush_valkey none ∷ [];
            calls = expired ∷ incremented ∷ flushed ∷ [];
            script = [];
          })
          refl,
    )

    wipe_stores-answered :
        (s : Reset)
        → env.skips_cms ≡ false
        → wipe_stores env (record (after_wait s) { script = [] }) ≡ (ok tt, after_wipes s)
    unfolding wipe_stores reseed_services reseed_service clear_epoch step call
    wipe_stores-answered s h = rw h refl

    seed-answered :
        (s : Reset) → env.seeds ≡ true → seed_or_verify env (after_wipes s) ≡ (ok tt, after_steps s)
    unfolding seed_or_verify step call
    seed-answered s h = rw h refl

    warm_up-answered : (s : Reset) → env.warms ≡ false → warm_up env s ≡ (ok tt, s)
    unfolding warm_up
    warm_up-answered s h = rw h refl

    all_steps-answered :
        (s : Reset)
        → env.skips_cms ≡ false
        → env.seeds ≡ true
        → env.warms ≡ false
        → all_steps env (begin (record s { script = [] })) ≡ (ok tt, after_steps s)
    unfolding all_steps
    all_steps-answered s cms seeds warms = ground (
      arith,
      pause_workers-answered s,
      wipe_stores-answered s cms,
      seed-answered s seeds,
      warm_up-answered (after_steps s) warms,
    )

    -- With every call answered, the workers paused at the first poll, the content reset not skipped, the
    -- seed asked for and no pages to warm: a run succeeds, clears the epoch, records its success, and
    -- makes its calls in the order of the specification. In its reports, the detail of most steps stands
    -- on the step before.
    pub run_reset_flow-answered :
        (s : Reset)
        → env.skips_cms ≡ false
        → env.seeds ≡ true
        → env.warms ≡ false
        → let (success, end) = run_reset_flow env (record s { script = [] }) in
          (success ≡ true)
          × (end.epoch ≡ none)
          × (end.steps ≡ seeded_steps)
          × (end.calls ≡ status_written ∷ seeded_calls)
          × (end.status
              ≡ some (record {
                success = true;
                fingerprint = some env.seed_fingerprint;
                steps = seeded_steps;
              }))
    unfolding run_reset_flow finish call
    run_reset_flow-answered s cms seeds warms =
        rw (all_steps-answered s cms seeds warms) (refl, refl, refl, refl, refl)
