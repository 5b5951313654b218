-- ===== src/Gate/Tests.antt =====
-- Runs of the reset epoch gate, and its theorems at concrete workers.
use xitter.Prelude.{ℕ, ◌≡◌, inl, inr, refl, Option, none, some, List, [], ◌∷◌, true, false}
use xitter.Gate.{
  running, pausing, paused, pause, resume, seek_to_end, set_ex, Gate, reading, seeking, Answer,
  Worker, tick, handling, Reach, here, next, TopicPartitions, fresh_gate, on_assignment,
  fresh_boot_seek, hold_or_resume, track_begin, check, continue_poll, run_check,
}
use xitter.Gate.Invariant.{IsValid, Reach-IsValid}
use xitter.Gate.Liveness.{answer, poll_all, resumes_after_failures}
use xitter.Gate.Race.{stale_seek_resumes}

abbrev posts : List TopicPartitions
posts = record { topic = 1; partitions = 0 ∷ 1 ∷ [] } ∷ []

abbrev media : List TopicPartitions
media = record { topic = 2; partitions = 0 ∷ [] } ∷ []

abbrev worker_gate : Gate
worker_gate = record fresh_gate {
  assignment = posts;
  sought_fresh_boot = true;
  booted_fresh = true;
}

abbrev paused_gate : Gate
paused_gate = record worker_gate { state = paused; known_epoch = some 4; heartbeat_at = 100 }

abbrev pausing_gate : Gate
pausing_gate = record worker_gate { state = pausing; known_epoch = some 4; idle_polls = 1 }

-- A checkpoint covers partition 0 of topic 1, so that a fresh boot seeks only partition 1.
abbrev checkpoints : Option (ℕ → ℕ → Option ℕ)
checkpoints = some (λ t p. elim p [ ℕ.zero ↦ some 17 | ℕ.suc _ ↦ none ])

boot :
    (on_assignment checkpoints posts false (record fresh_gate { booted_fresh = true })).calls
    ≡ resume posts ∷ seek_to_end (record { topic = 1; partitions = 1 ∷ [] } ∷ []) ∷ []
unfolding on_assignment fresh_boot_seek hold_or_resume
boot = refl

worker-IsValid : IsValid (record { gate = paused_gate; poll = none })
worker-IsValid = record { knows = λ e. cc e; fits = tt }

polled :
    Reach 60000 none
      (record { gate = paused_gate; poll = none })
      (record { gate = track_begin paused_gate; poll = some (reading paused) })
unfolding check
polled = next (next here (tick refl refl)) (handling refl)

Reach-IsValid_example :
    IsValid (record { gate = track_begin paused_gate; poll = some (reading paused) })
Reach-IsValid_example = Reach-IsValid 60000 none worker-IsValid polled

abbrev draining_gate : Gate
draining_gate = record worker_gate { state = pausing; known_epoch = some 4 }

abbrev seeking_worker : Worker
seeking_worker = record { gate = paused_gate; poll = some seeking }

abbrev freed_worker : Worker
freed_worker = record {
  gate = record paused_gate { state = running; known_epoch = none; calls = resume posts ∷ [] };
  poll = none;
}

abbrev failures : List (Answer × Answer)
failures =
    (record { ok = false; epoch = none; throws = false; now = 1 }, answer none 1)
    ∷ (answer none 2, record { ok = false; epoch = none; throws = false; now = 3 })
    ∷ []

resumes_after_failures_example :
    let stuck = poll_all 60000 failures paused_gate in
    (stuck.state ≡ paused)
    × (stuck.known_epoch ≡ some 4)
    × (run_check 60000 (answer none 8) (answer none 9) stuck ≡ record stuck {
      state = running;
      known_epoch = none;
      idle_polls = 0;
      calls = resume posts ∷ seek_to_end posts ∷ stuck.calls;
    })
resumes_after_failures_example =
    resumes_after_failures 60000 8 9 failures paused_gate refl (λ e. cc e)
      (inl refl, (inr (refl, refl, refl), tt))

stale_seek_resumes_example :
    let first = (continue_poll 60000 (check paused_gate) (answer none 0) paused_gate).0 in
    let second = continue_poll 60000 (check paused_gate) (answer none 0) first in
    let back = (continue_poll 60000 seeking (answer none 0) second.0).0 in
    let poll = λ (a b : ℕ) (h : Gate). run_check 60000 (answer (some 5) a) (answer none b) h in
    let promised = poll 5 6 (poll 3 4 (poll 1 2 back)) in
    let stale = (continue_poll 60000 seeking (answer none 0) promised).0 in
    (second.1 ≡ some seeking)
    × (promised.state ≡ paused)
    × (stale.state ≡ running)
    × (stale.known_epoch ≡ none)
    × (stale.calls ≡ resume posts ∷ set_ex (some 5) ∷ pause posts ∷ back.calls)
stale_seek_resumes_example =
    stale_seek_resumes 60000 5 0 1 2 3 4 5 6 paused_gate refl refl (λ e. cc e)
