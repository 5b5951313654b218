-- ===== src/Reset/Released.antt =====
-- The end of a reset: whether the workers may go on
-- (packages/scripts/src/reset-flow.ts, the `finally` of runResetFlow).
use xitter.Prelude.{
  ℕ, zero, suc, ◌≡◌, refl, Bool, true, false, not, ◌||◌, none, some, is_some, [], ◌∷◌, any, ◌==◌,
  reject, arith, inl, inr, Bool-cases,
}
use xitter.Http.{ok, err, HttpError, internal, Action, ◌>>◌, modify, Result-cases, throw_if}
use xitter.Fanout.{answered, refused}
use xitter.Reset.{
  Reset, Call, StepReport, Env, Worker, services, fanout, media_process, search_index, polled,
  realm_reset, realm_init, cms_reset, bucket_wiped, index_deleted, seeded, counted, warmed,
  flush_valkey, set_reset_epoch, wait_workers_paused, recreate_keycloak_realm, truncate_service_dbs,
  reset_cms_content, wipe_media_bucket, delete_search_index, clear_reset_epoch, seed, verify_empty,
  warm_pages, epoch_is, worker_names, service_names, cms_counts, object_count, feed_is_empty,
  page_count, with_detail, call, tell, step, set_detail, wait_for, flush_all, set_epoch,
  pause_workers, wipe_stores, seed_or_verify, warm_up, all_steps, finish, clear_epoch, begin,
  run_reset_flow,
}
use xitter.Reset.Keeps.{
  Keeps, IsBlind, Keeps-seq, Keeps-or_else, Keeps-when, Keeps-throw_if, Keeps-pure, Keeps-modify,
  Keeps-step, Keeps-set_detail, Keeps-tell, Keeps-wait_for, Keeps-reseed_services,
}

-- If the epoch is set, then the run knows that it has to clear it.
abbrev held : Reset → Bool
held s = not (is_some s.epoch) || s.epoch_active

held-IsBlind : IsBlind (λ c. true) held
held-IsBlind = record { reports = λ s xs. refl; logs = λ c s xs may h. h }

-- The report of an epoch that was set.
abbrev pub is_set : StepReport → Bool
is_set x = elim x.name [ set_reset_epoch ↦ x.is_fine | _ ↦ false ]

abbrev clears : Action Reset (Unit {0})
clears = do clear_epoch; modify (λ s. record s { epoch_active = false })

clears-Keeps : Keeps held (Unit {0}) clears
unfolding clear_epoch call
clears-Keeps = record { keeps = λ s h. ground (arith, h) }

module _ (env : Env) where
  wipe_stores-Keeps : Keeps held (Unit {0}) (wipe_stores env)
  unfolding wipe_stores
  wipe_stores-Keeps =
      let told = λ (c : Call). Keeps-tell held-IsBlind c refl in
      let detailed = Keeps-set_detail held-IsBlind in
      Keeps-seq
        (Keeps-step held-IsBlind recreate_keycloak_realm
          (Keeps-seq (told realm_reset) (told realm_init)))
        (Keeps-seq
          (Keeps-step held-IsBlind truncate_service_dbs (
            Keeps-seq (Keeps-reseed_services held-IsBlind (λ x. refl) services)
              (detailed service_names)))
          (Keeps-seq
            (Keeps-step held-IsBlind reset_cms_content
              (Keeps-seq (Keeps-when (not env.skips_cms) (told cms_reset)) (detailed cms_counts)))
            (Keeps-seq
              (Keeps-step held-IsBlind wipe_media_bucket
                (Keeps-seq (told bucket_wiped) (detailed object_count)))
              (Keeps-seq (Keeps-step held-IsBlind delete_search_index (told index_deleted))
                (Keeps-step held-IsBlind clear_reset_epoch clears-Keeps)))))

  abbrev seed_part : Action Reset (Unit {0})
  seed_part = do
    step seed (tell seeded)
    modify (λ s. record s { fingerprint = some env.seed_fingerprint })

  abbrev verify_part : Action Reset (Unit {0})
  verify_part =
      step verify_empty
        (do tell counted; throw_if (not (env.feed_items == 0)) internal; set_detail feed_is_empty)

  seed_part-Keeps : Keeps held (Unit {0}) seed_part
  seed_part-Keeps =
      Keeps-seq (Keeps-step held-IsBlind seed (Keeps-tell held-IsBlind seeded refl))
        (Keeps-modify (λ s. record s { fingerprint = some env.seed_fingerprint }) (λ s h. h))

  verify_part-Keeps : Keeps held (Unit {0}) verify_part
  verify_part-Keeps = Keeps-step held-IsBlind verify_empty (
      Keeps-seq (Keeps-tell held-IsBlind counted refl) (
        Keeps-seq (Keeps-throw_if (not (env.feed_items == 0)) internal)
          (Keeps-set_detail held-IsBlind feed_is_empty)))

  seed_or_verify-Keeps : Keeps held (Unit {0}) (seed_or_verify env)
  unfolding seed_or_verify
  seed_or_verify-Keeps = elim (Bool-cases env.seeds) [
    | inl e ↦ record { keeps = λ s h. rw e (seed_part-Keeps.keeps s h) }
    | inr e ↦ record { keeps = λ s h. rw e (verify_part-Keeps.keeps s h) }
  ]

  warm_up-Keeps : Keeps held (Unit {0}) (warm_up env)
  unfolding warm_up
  warm_up-Keeps = Keeps-when env.warms (
      Keeps-or_else
        (Keeps-seq
          (Keeps-step held-IsBlind warm_pages (
            Keeps-seq (Keeps-tell held-IsBlind warmed refl)
              (Keeps-throw_if (env.warm_count == 0) internal)))
          (Keeps-set_detail held-IsBlind page_count))
        (Keeps-pure (ok tt)))

  abbrev after_epoch : ℕ → Action Reset (Unit {0})
  after_epoch epoch = do
    set_detail (epoch_is epoch)
    modify (λ s. record s { epoch_active = true })
    step wait_workers_paused (do wait_for env epoch 0 env.patience; set_detail worker_names)

  wait-Keeps :
      (epoch : ℕ)
      → Keeps held
          (Unit {0})
          (step wait_workers_paused (do wait_for env epoch 0 env.patience; set_detail worker_names))
  wait-Keeps epoch = Keeps-step held-IsBlind wait_workers_paused (
      Keeps-seq (Keeps-wait_for held-IsBlind env epoch 0 env.patience refl)
        (Keeps-set_detail held-IsBlind worker_names))

  after_epoch-held : (epoch : ℕ) (s : Reset) → held (after_epoch epoch s).1 ≡ true
  after_epoch-held epoch s =
      (wait-Keeps epoch).keeps
        (record s { steps = with_detail (epoch_is epoch) s.steps; epoch_active = true })
        (ground arith)

  flush-reports : (s : Reset) → any is_set (step flush_valkey flush_all (begin s)).1.steps ≡ false
  unfolding step flush_all call any
  flush-reports s = ground arith

  set_epoch-reports :
      (s : Reset) (e : HttpError)
      → (step set_reset_epoch set_epoch s).0 ≡ err e
      → any is_set s.steps ≡ false
      → any is_set (step set_reset_epoch set_epoch s).1.steps ≡ false
  unfolding step set_epoch call any
  set_epoch-reports s e failed h = ground (arith, failed, h)

  -- The first two steps either fail, with no report of a set epoch, or are followed by the wait.
  pause_workers-held :
      (s : Reset)
      → any is_set (pause_workers env (begin s)).1.steps ≡ true
      → held (pause_workers env (begin s)).1 ≡ true
  unfolding pause_workers
  pause_workers-held s h =
      let s₁ = (step flush_valkey flush_all (begin s)).1 in
      let s₂ = (step set_reset_epoch set_epoch s₁).1 in
      elim (Result-cases (step flush_valkey flush_all (begin s)).0) [
        | inl (e, failed) ↦ absurd (ground (arith, failed, h, flush-reports s))
        | inr (u, flushed_ok) ↦ elim (Result-cases (step set_reset_epoch set_epoch s₁).0) [
          | inl (e, failed) ↦ absurd (
              ground
                (arith, flushed_ok, failed, h, set_epoch-reports s₁ e failed (flush-reports s)))
          | inr (epoch, set_ok) ↦ ground (arith, flushed_ok, set_ok, after_epoch-held epoch s₂)
        ]
      ]

  after-Keeps : Keeps held (Unit {0}) (wipe_stores env >> (seed_or_verify env >> warm_up env))
  after-Keeps = Keeps-seq wipe_stores-Keeps (Keeps-seq seed_or_verify-Keeps warm_up-Keeps)

  -- The steps after the wait report no epoch.
  all_steps-held :
      (s : Reset)
      → any is_set (pause_workers env (begin s)).1.steps ≡ true
      → held (all_steps env (begin s)).1 ≡ true
  unfolding all_steps
  all_steps-held s h = elim (Result-cases (pause_workers env (begin s)).0) [
    | inl (e, failed) ↦ ground (arith, failed, pause_workers-held s h)
    | inr (u, worked) ↦
        ground (
          arith,
          worked,
          after-Keeps.keeps (pause_workers env (begin s)).1 (pause_workers-held s h),
        )
  ]

  -- If the epoch was set and reported so, and the stores answer from the end of the steps on, then no
  -- epoch is left after the run, whichever step failed: the workers go on.
  pub run_reset_flow-released :
      (s : Reset)
      → any is_set (pause_workers env (begin s)).1.steps ≡ true
      → (all_steps env (begin s)).1.script ≡ []
      → (run_reset_flow env s).1.epoch ≡ none
  unfolding run_reset_flow finish clear_epoch call
  run_reset_flow-released s h answers = ground (arith, all_steps-held s h, answers)

  -- If `EXPIRE` is refused after `INCR`, then the run fails and leaves the epoch set and without an
  -- expiry, although every later call is answered: the workers stay paused.
  pub run_reset_flow-stranded :
      (s : Reset)
      → s.script ≡ answered ∷ answered ∷ refused ∷ []
      → let (success, end) = run_reset_flow env s in
        (success ≡ false) × (end.epoch ≡ some 1) × (end.expires ≡ false)
  unfolding run_reset_flow all_steps pause_workers flush_all set_epoch clear_epoch finish step call
  run_reset_flow-stranded s h = ground (arith, h)

module _ (env : Env) (acks : (w : Worker) → env.heartbeat 0 w ≡ some 1) where
  wait_for-answered :
      (n : ℕ) (s : Reset)
      → s.script ≡ []
      → wait_for env 1 0 n s ≡ (ok tt, record s { calls = polled ∷ s.calls })
  unfolding wait_for call reject
  wait_for-answered zero s h = ground (arith, h, acks fanout, acks media_process, acks search_index)
  wait_for-answered (suc n) s h =
      ground (arith, h, acks fanout, acks media_process, acks search_index)
