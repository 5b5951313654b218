-- ===== src/Reset.antt =====
-- The nightly reset (packages/scripts/src/reset-flow.ts). A call of a store is carried out and
-- answered, refused, or carried out with its answer lost; where the script ends, every call is
-- answered. `calls` are the calls that were made, newest first, and `steps` the reports, newest first,
-- without their times. What the workers' heartbeats, the clock and the stores answer is a parameter.
pub mod Keeps
pub mod Acknowledged
pub mod Released
pub mod Answered
mod Tests
use xitter.Prelude.{
  ℕ, zero, suc, ◌+◌, ◌≡◌, Bool, true, false, not, ◌&&◌, ◌||◌, Option, none, some, List, [], ◌∷◌,
  ◌==◌, same, all, is_empty, reject, if◌then◌else◌,
}
use xitter.Http.{
  Result, ok, err, internal, is_ok, Action, ◌>>=◌, ◌>>◌, pure, throw, throw_if, gets, modify, when,
}
use xitter.Fanout.{Outcome, answered, refused, lost}

pub data Service : Type 0 where
  social posts media feed search : Service

-- `RESET_WORKERS`
pub data Worker : Type 0 where
  fanout media_process search_index : Worker

pub data Call : Type 0 where
  flushed incremented expired polled realm_reset realm_init : Call
  reseeded : Service → Call
  cms_reset bucket_wiped index_deleted epoch_cleared seeded counted warmed status_written : Call

pub data StepName : Type 0 where
  flush_valkey set_reset_epoch wait_workers_paused recreate_keycloak_realm : StepName
  truncate_service_dbs reset_cms_content wipe_media_bucket delete_search_index : StepName
  clear_reset_epoch seed verify_empty warm_pages : StepName

pub data Detail : Type 0 where
  epoch_is : ℕ → Detail
  worker_names service_names cms_counts object_count feed_is_empty page_count error_message : Detail

pub record StepReport : Type 0 where
  pub name : StepName
  pub is_fine : Bool
  pub detail : Option Detail

pub record ResetStatus : Type 0 where
  pub success : Bool
  pub fingerprint : Option ℕ
  pub steps : List StepReport

-- The keys that the reset writes in Valkey, and what a run keeps.
pub record Reset : Type 0 where
  pub epoch : Option ℕ
  pub expires : Bool
  pub status : Option ResetStatus
  pub epoch_active : Bool
  pub fingerprint : Option ℕ
  pub steps : List StepReport
  pub calls : List Call
  pub script : List Outcome

pub record Env : Type 0 where
  -- `--seed`, `XITTER_RESET_SKIP_CMS`, and whether the stores have a `warmPages`
  pub seeds : Bool
  pub skips_cms : Bool
  pub warms : Bool
  -- the heartbeat of a worker at each poll, and the polls that end before the deadline
  pub heartbeat : ℕ → Worker → Option ℕ
  pub patience : ℕ
  pub seed_fingerprint : ℕ
  pub feed_items : ℕ
  pub warm_count : ℕ

unfoldable pub call : Call → (Reset → Reset) → Action Reset (Unit {0})
call c effect s =
    let made = record s { calls = c ∷ s.calls } in
    elim s.script [
      | [] ↦ (ok tt, effect made)
      | answered ∷ rest ↦ (ok tt, effect (record made { script = rest }))
      | refused ∷ rest ↦ (err internal, record made { script = rest })
      | lost ∷ rest ↦ (err internal, effect (record made { script = rest }))
    ]

abbrev pub tell : Call → Action Reset (Unit {0})
tell c = call c (λ s. s)

-- `m`, and `k` where it throws.
abbrev pub or_else : Action Reset (Unit {0}) → Action Reset (Unit {0}) → Action Reset (Unit {0})
or_else m k s = let (r, s') = m s in elim r [ ok a ↦ (ok a, s') | err e ↦ k s' ]

-- `steps.at(-1)!.detail = ...`
abbrev pub with_detail : Detail → List StepReport → List StepReport
with_detail d [] = []
with_detail d (x ∷ xs) = record x { detail = some d } ∷ xs

abbrev pub set_detail : Detail → Action Reset (Unit {0})
set_detail d = modify (λ s. record s { steps = with_detail d s.steps })

abbrev pub report : {A : Type 0} → StepName → Result A → StepReport
report name (ok a) = record { name = name; is_fine = true; detail = none }
report name (err e) = record { name = name; is_fine = false; detail = some error_message }

-- The report follows the action.
unfoldable pub step : {A : Type 0} → StepName → Action Reset A → Action Reset A
step name m s = let (r, s') = m s in (r, record s' { steps = report name r ∷ s'.steps })

abbrev pub next_epoch : Option ℕ → ℕ
next_epoch none = 1
next_epoch (some n) = suc n

abbrev pub epoch_or_0 : Option ℕ → ℕ
epoch_or_0 none = 0
epoch_or_0 (some n) = n

-- `FLUSHALL`, `INCR`, `EXPIRE` and `DEL` on the keys.
unfoldable pub flush_all : Action Reset (Unit {0})
flush_all = call flushed (λ s. record s { epoch = none; expires = false; status = none })

unfoldable pub set_epoch : Action Reset ℕ
set_epoch = do
  call incremented (λ s. record s { epoch = some (next_epoch s.epoch) })
  epoch ← gets (λ s. epoch_or_0 s.epoch)
  call expired (λ s. record s { expires = true })
  pure epoch

unfoldable pub clear_epoch : Action Reset (Unit {0})
clear_epoch = call epoch_cleared (λ s. record s { epoch = none; expires = false })

abbrev pub reset_workers : List Worker
reset_workers = fanout ∷ media_process ∷ search_index ∷ []

-- The workers whose heartbeat is not that of the epoch.
abbrev pub pending : Env → ℕ → ℕ → List Worker
pending env epoch poll = reject (λ w. same (env.heartbeat poll w) (some epoch)) reset_workers

-- A poll, and the next ones while a worker is pending; the last is the first that ends after the
-- deadline.
unfoldable pub wait_for : Env → ℕ → ℕ → ℕ → Action Reset (Unit {0})
wait_for env epoch poll zero = do
  tell polled
  throw_if (not (is_empty (pending env epoch poll))) internal
wait_for env epoch poll (suc n) = do
  tell polled
  when (not (is_empty (pending env epoch poll))) (wait_for env epoch (suc poll) n)

-- At most four attempts.
unfoldable pub reseed_service : ℕ → Service → Action Reset (Unit {0})
reseed_service zero service = throw internal
reseed_service (suc n) service = or_else (tell (reseeded service)) (reseed_service n service)

unfoldable pub reseed_services : List Service → Action Reset (Unit {0})
reseed_services [] = pure tt
reseed_services (x ∷ xs) = do reseed_service 4 x; reseed_services xs

abbrev pub services : List Service
services = social ∷ posts ∷ media ∷ feed ∷ search ∷ []

-- The status and the last clear are best-effort.
unfoldable pub finish : Bool → Reset → Reset
finish success s =
    (call status_written
      (λ t. record t {
        status = some (record { success = success; fingerprint = t.fingerprint; steps = t.steps });
      })
      s).1

-- A run begins with nothing reported.
abbrev pub begin : Reset → Reset
begin s = record s { epoch_active = false; fingerprint = none; steps = []; calls = [] }

module _ (env : Env) where
  -- The steps from the first that wipes a store, up to the clear of the epoch.
  unfoldable pub wipe_stores : Action Reset (Unit {0})
  wipe_stores = do
    step recreate_keycloak_realm (do tell realm_reset; tell realm_init)
    step truncate_service_dbs (do reseed_services services; set_detail service_names)
    step reset_cms_content (do when (not env.skips_cms) (tell cms_reset); set_detail cms_counts)
    step wipe_media_bucket (do tell bucket_wiped; set_detail object_count)
    step delete_search_index (tell index_deleted)
    step clear_reset_epoch (do clear_epoch; modify (λ s. record s { epoch_active = false }))

  unfoldable pub seed_or_verify : Action Reset (Unit {0})
  seed_or_verify =
      if env.seeds
      then (do
        step seed (tell seeded)
        modify (λ s. record s { fingerprint = some env.seed_fingerprint }))
      else step verify_empty
          (do tell counted; throw_if (not (env.feed_items == 0)) internal; set_detail feed_is_empty)

  -- A failure is reported as a step and then forgotten.
  unfoldable pub warm_up : Action Reset (Unit {0})
  warm_up = when env.warms (
      or_else
        (do
          step warm_pages (do tell warmed; throw_if (env.warm_count == 0) internal)
          set_detail page_count)
        (pure tt))

  unfoldable pub pause_workers : Action Reset (Unit {0})
  pause_workers = do
    step flush_valkey flush_all
    epoch ← step set_reset_epoch set_epoch
    set_detail (epoch_is epoch)
    modify (λ s. record s { epoch_active = true })
    step wait_workers_paused (do wait_for env epoch 0 env.patience; set_detail worker_names)

  unfoldable pub all_steps : Action Reset (Unit {0})
  all_steps = do pause_workers; wipe_stores; seed_or_verify; warm_up

  unfoldable pub run_reset_flow : Reset → Bool × Reset
  run_reset_flow s =
      let (r, s') = all_steps (begin s) in
      let end = finish (is_ok r) s' in
      (is_ok r, if end.epoch_active then (clear_epoch end).1 else end)
