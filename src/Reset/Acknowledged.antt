-- ===== src/Reset/Acknowledged.antt =====
-- The barrier of a reset: no store is wiped while a worker may still consume
-- (packages/scripts/src/reset-flow.ts, waitFor).
use xitter.Prelude.{
  ℕ, zero, suc, ◌≡◌, refl, Bool, true, false, not, none, some, any, is_empty, reject, arith, inl,
  inr, Bool-cases,
}
use xitter.Http.{ok, Action, ◌>>=◌, ◌>>◌, modify, Result-cases, is_ok}
use xitter.Reset.{
  Reset, Call, Env, Worker, fanout, media_process, search_index, flushed, incremented, expired,
  polled, realm_reset, reseeded, cms_reset, bucket_wiped, index_deleted, epoch_cleared,
  status_written, flush_valkey, set_reset_epoch, wait_workers_paused, epoch_is, worker_names,
  with_detail, call, tell, next_epoch, epoch_or_0, step, set_detail, wait_for, pending, flush_all,
  set_epoch, pause_workers, all_steps, finish, clear_epoch, begin, run_reset_flow,
}
use xitter.Reset.Keeps.{
  Keeps, IsBlind, Keeps-then, Keeps-seq, Keeps-pure, Keeps-gets, Keeps-modify, Keeps-step,
  Keeps-set_detail, Keeps-call, Keeps-wait_for,
}

-- The calls that take something from a store.
abbrev pub is_wipe : Call → Bool
is_wipe realm_reset = true
is_wipe (reseeded service) = true
is_wipe cms_reset = true
is_wipe bucket_wiped = true
is_wipe index_deleted = true
is_wipe _ = false

abbrev pub untouched : Reset → Bool
untouched s = not (any is_wipe s.calls)

abbrev harmless : Call → Bool
harmless c = not (is_wipe c)

blind : IsBlind harmless untouched
unfolding any
blind = record { reports = λ s xs. refl; logs = λ c s xs may h. ground (arith, may, h) }

-- Every worker's heartbeat at a poll is that of an epoch.
pub record Acknowledged (env : Env) (epoch poll : ℕ) : Type 0 where
  pub each : (w : Worker) → env.heartbeat poll w ≡ some epoch

set_epoch-Keeps : Keeps untouched ℕ set_epoch
unfolding set_epoch
set_epoch-Keeps =
    Keeps-seq
      (Keeps-call blind incremented (λ s. record s { epoch = some (next_epoch s.epoch) }) refl
        (λ s h. h))
      (Keeps-then (Keeps-gets (λ s. epoch_or_0 s.epoch)) (λ epoch.
        Keeps-seq (Keeps-call blind expired (λ s. record s { expires = true }) refl (λ s h. h))
          (Keeps-pure (ok epoch))))

clear_epoch-Keeps : Keeps untouched (Unit {0}) clear_epoch
unfolding clear_epoch
clear_epoch-Keeps =
    Keeps-call blind epoch_cleared (λ s. record s { epoch = none; expires = false }) refl (λ s h. h)

finish-untouched :
    (success : Bool) (s : Reset) → untouched s ≡ true → untouched (finish success s) ≡ true
unfolding finish
finish-untouched success s =
    (Keeps-call blind status_written
        (λ t. record t {
          status =
              some (record { success = success; fingerprint = t.fingerprint; steps = t.steps });
        })
        refl (λ t h. h)).keeps
      s

module _ (env : Env) where
  abbrev after_epoch : ℕ → Action Reset (Unit {0})
  after_epoch epoch = do
    set_detail (epoch_is epoch)
    modify (λ s. record s { epoch_active = true })
    step wait_workers_paused (do wait_for env epoch 0 env.patience; set_detail worker_names)

  after_epoch-Keeps : (epoch : ℕ) → Keeps untouched (Unit {0}) (after_epoch epoch)
  after_epoch-Keeps epoch = Keeps-seq (Keeps-set_detail blind (epoch_is epoch)) (
      Keeps-seq (Keeps-modify (λ s. record s { epoch_active = true }) (λ s h. h)) (
        Keeps-step blind wait_workers_paused (
          Keeps-seq (Keeps-wait_for blind env epoch 0 env.patience refl)
            (Keeps-set_detail blind worker_names))))

  pause_workers-Keeps : Keeps untouched (Unit {0}) (pause_workers env)
  unfolding pause_workers flush_all
  pause_workers-Keeps =
      Keeps-seq
        (Keeps-step blind flush_valkey (
          Keeps-call blind flushed (λ s. record s { epoch = none; expires = false; status = none })
            refl (λ s h. h)))
        (Keeps-then (Keeps-step blind set_reset_epoch set_epoch-Keeps) after_epoch-Keeps)

  pending-Acknowledged :
      (epoch poll : ℕ) → is_empty (pending env epoch poll) ≡ true → Acknowledged env epoch poll
  unfolding reject
  pending-Acknowledged epoch poll h = record {
    each = λ w. elim w as (λ w. env.heartbeat poll w ≡ some epoch) [
      | fanout ↦ ground (arith, h)
      | media_process ↦ ground (arith, h)
      | search_index ↦ ground (arith, h)
    ];
  }

  -- The wait is over only at a poll at which no worker is pending.
  wait_for-ok :
      (epoch poll n : ℕ) (s : Reset)
      → (wait_for env epoch poll n s).0 ≡ ok tt
      → (i : ℕ) × Acknowledged env epoch i
  unfolding wait_for
  wait_for-ok epoch poll zero s h = elim (Bool-cases (is_empty (pending env epoch poll))) [
    | inl e ↦ (poll, pending-Acknowledged epoch poll e)
    | inr e ↦ elim (Result-cases (tell polled s).0) [
      | inl (x, failed) ↦ absurd (ground (arith, e, h, failed))
      | inr (x, worked) ↦ absurd (ground (arith, e, h, worked))
    ]
  ]
  wait_for-ok epoch poll (suc n) s h = elim (Bool-cases (is_empty (pending env epoch poll))) [
    | inl e ↦ (poll, pending-Acknowledged epoch poll e)
    | inr e ↦ elim (Result-cases (tell polled s).0) [
      | inl (x, failed) ↦ absurd (ground (arith, e, h, failed))
      | inr (x, worked) ↦
          wait_for-ok epoch (suc poll) n (tell polled s).1 (ground (arith, e, h, worked))
    ]
  ]

  then-ok :
      {A B : Type 0}
      → (m : Action Reset A) (f : A → Action Reset B) (s : Reset) (b : B) → ((m >>= f) s).0 ≡ ok b
      → (a : A) × ((m s).0 ≡ ok a) × ((f a (m s).1).0 ≡ ok b)
  then-ok m f s b h = elim (Result-cases (m s).0) [
    | inl (e, failed) ↦ absurd (ground (arith, failed, h))
    | inr (a, worked) ↦ (a, worked, ground (arith, worked, h))
  ]

  flush-ok :
      (s : Reset)
      → (step flush_valkey flush_all s).0 ≡ ok tt
      → (step flush_valkey flush_all s).1.epoch ≡ none
  unfolding step flush_all call
  flush-ok s h = ground (arith, h)

  set_epoch-ok :
      (s : Reset) (epoch : ℕ)
      → s.epoch ≡ none
      → (step set_reset_epoch set_epoch s).0 ≡ ok epoch
      → epoch ≡ 1
  unfolding step set_epoch call
  set_epoch-ok s epoch fresh h = ground (arith, fresh, h)

  after_epoch-ok :
      (epoch : ℕ) (s : Reset) → (after_epoch epoch s).0 ≡ ok tt → (i : ℕ) × Acknowledged env epoch i
  unfolding step
  after_epoch-ok epoch s h =
      let marked = record s { steps = with_detail (epoch_is epoch) s.steps; epoch_active = true } in
      let waited =
        then-ok (wait_for env epoch 0 env.patience) (λ u. set_detail worker_names) marked tt h in
      wait_for-ok epoch 0 env.patience marked waited.1

  pause_workers-ok : (s : Reset) → (pause_workers env s).0 ≡ ok tt → (i : ℕ) × Acknowledged env 1 i
  unfolding pause_workers
  pause_workers-ok s h =
      let s₁ = (step flush_valkey flush_all s).1 in
      let s₂ = (step set_reset_epoch set_epoch s₁).1 in
      let (u, flushed_ok, rest) =
        then-ok (step flush_valkey flush_all) (λ v. step set_reset_epoch set_epoch >>= after_epoch)
          s tt h in
      let (epoch, set_ok, waited) =
        then-ok (step set_reset_epoch set_epoch) after_epoch s₁ tt rest in
      let first = set_epoch-ok s₁ epoch (flush-ok s flushed_ok) set_ok in
      rw first at (after_epoch-ok epoch s₂ waited)

  begin-untouched : (s : Reset) → untouched (begin s) ≡ true
  unfolding any
  begin-untouched s = refl

  -- Whatever fails in a run, and whatever the stores answered: if it made a call that wipes a store,
  -- then there was a poll at which the heartbeat of each worker was that of the run's epoch. That
  -- epoch is always 1, since the flush before has deleted the counter.
  pub run_reset_flow-Acknowledged :
      (s : Reset)
      → any is_wipe (run_reset_flow env s).1.calls ≡ true
      → (i : ℕ) × Acknowledged env 1 i
  unfolding run_reset_flow all_steps
  run_reset_flow-Acknowledged s h = elim (Result-cases (pause_workers env (begin s)).0) [
    | inr (u, worked) ↦ pause_workers-ok (begin s) worked
    | inl (e, failed) ↦
        let before = pause_workers-Keeps.keeps (begin s) (begin-untouched s) in
        let same_state : (all_steps env (begin s)).1 ≡ (pause_workers env (begin s)).1 =
          ground (arith, failed) in
        let finished =
          finish-untouched (is_ok (all_steps env (begin s)).0) (all_steps env (begin s)).1
            (rw same_state before) in
        let cleared =
          clear_epoch-Keeps.keeps
            (finish (is_ok (all_steps env (begin s)).0) (all_steps env (begin s)).1) finished in
        absurd (ground (arith, h, finished, cleared))
  ]
