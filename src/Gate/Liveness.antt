-- ===== src/Gate/Liveness.antt =====
-- A worker that Valkey and the seeker answer acknowledges a reset and comes back after it
-- (packages/events/src/reset-epoch.ts, check).
use xitter.Prelude.{
  ℕ, ◌≡◌, ◌≢◌, ◌∙◌, ◌⊎◌, refl, Option, none, some, List, [], ◌∷◌, true, false, All, arith,
}
use xitter.Gate.{
  running, paused, pause, resume, seek_to_end, set_ex, Gate, Answer, TopicPartitions, run_check,
}

-- The answer of a call that succeeds, with a consumer that does not throw.
abbrev pub answer : Option ℕ → ℕ → Answer
answer epoch now = record { ok = true; epoch = epoch; throws = false; now = now }

-- Three polls that read a new epoch, with no handler in flight, take a running worker to `paused`:
-- the assignment is paused first, and the heartbeat that is written last carries the epoch.
pub acknowledges :
    (ttl e t₁ t₂ t₃ t₄ t₅ t₆ : ℕ) (g : Gate)
    → g.state ≡ running
    → g.known_epoch ≡ none
    → g.in_flight ≡ 0
    → g.assignment ≢ []
    → let poll = λ (a b : ℕ) (h : Gate). run_check ttl (answer (some e) a) (answer none b) h in
      poll t₅ t₆ (poll t₃ t₄ (poll t₁ t₂ g)) ≡ record g {
        state = paused;
        known_epoch = some e;
        idle_polls = 0;
        heartbeat_at = t₆;
        calls = set_ex (some e) ∷ pause g.assignment ∷ g.calls;
      }
unfolding run_check
acknowledges ttl e t₁ t₂ t₃ t₄ t₅ t₆ g running_now unknown drained held = ground arith

-- The two ways in which a poll of a paused worker fails once the epoch is cleared.
abbrev pub Fails : Answer × Answer → Type 0
Fails (read, sought) =
    (read.ok ≡ false) ⊎ ((read.ok ≡ true) × (read.epoch ≡ none) × (sought.ok ≡ false))

pub poll_all : ℕ → List (Answer × Answer) → Gate → Gate
poll_all ttl [] g = g
poll_all ttl ((read, sought) ∷ polls) g = poll_all ttl polls (run_check ttl read sought g)

failed_poll :
    (ttl : ℕ) (p : Answer × Answer) (g : Gate)
    → g.state ≡ paused
    → Fails p
    → let h = run_check ttl p.0 p.1 g in
      (h.state ≡ paused) × (h.known_epoch ≡ g.known_epoch) × (h.assignment ≡ g.assignment)
unfolding run_check
failed_poll ttl p g s f = ground arith

pub poll_all-paused :
    (ttl : ℕ) (polls : List (Answer × Answer)) (g : Gate)
    → g.state ≡ paused
    → All Fails polls
    → let h = poll_all ttl polls g in
      (h.state ≡ paused) × (h.known_epoch ≡ g.known_epoch) × (h.assignment ≡ g.assignment)
unfolding poll_all
poll_all-paused ttl [] g s f = (s, refl, refl)
poll_all-paused ttl ((read, sought) ∷ polls) g s f =
    let one = failed_poll ttl (read, sought) g s f.0 in
    let (st, known, assigned) = poll_all-paused ttl polls (run_check ttl read sought g) one.0 f.1 in
    (st, known ∙ one.1, assigned ∙ one.2)

resumed_poll :
    (ttl now then : ℕ) (tps : List TopicPartitions) (g : Gate)
    → g.state ≡ paused
    → g.assignment ≡ tps
    → tps ≢ []
    → run_check ttl (answer none now) (answer none then) g ≡ record g {
      state = running;
      known_epoch = none;
      idle_polls = 0;
      calls = resume tps ∷ seek_to_end tps ∷ g.calls;
    }
unfolding run_check
resumed_poll ttl now then tps g s e held = ground arith

-- Take a paused worker with an assignment that is not empty. Once the epoch is cleared, any number of
-- polls may fail, at the read or at the seek: the worker stays paused and keeps its epoch. The first
-- poll whose read and seek succeed, and whose resume the consumer does not reject, asks for the log
-- end of the assignment, then resumes that assignment and forgets the epoch.
pub resumes_after_failures :
    (ttl now then : ℕ) (polls : List (Answer × Answer)) (g : Gate)
    → g.state ≡ paused
    → g.assignment ≢ []
    → All Fails polls
    → let stuck = poll_all ttl polls g in
      (stuck.state ≡ paused)
      × (stuck.known_epoch ≡ g.known_epoch)
      × (run_check ttl (answer none now) (answer none then) stuck ≡ record stuck {
        state = running;
        known_epoch = none;
        idle_polls = 0;
        calls = resume g.assignment ∷ seek_to_end g.assignment ∷ stuck.calls;
      })
resumes_after_failures ttl now then polls g s held f =
    let (st, known, same_parts) = poll_all-paused ttl polls g s f in
    (st, known, resumed_poll ttl now then g.assignment (poll_all ttl polls g) st same_parts held)
