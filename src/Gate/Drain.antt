-- ===== src/Gate/Drain.antt =====
-- What lets a worker that is held consume again
-- (packages/events/src/reset-epoch.ts, checkPausing, checkPaused, onAssignment).
use xitter.Prelude.{ℕ, suc, ◌≡◌, ◌≢◌, ◌∙◌, ap, refl, Option, none, some, List, [], ◌∷◌, Bool, arith}
use xitter.Gate.{
  GateState, running, pausing, paused, Call, pause, resume, seek_to_end, set_ex, Gate, Wait,
  reading, acknowledging, refreshing, seeking, Answer, Worker, Step, tick, answered, assigned,
  handling, handled, TopicPartitions, on_assignment, hold_or_resume, fresh_boot_seek, track_begin,
  track_end, check, continue_poll,
}
use xitter.Gate.Invariant.{IsValid, on_assignment-IsHeld}

-- The number of times that the consumer was told to resume.
abbrev pub resumes : List Call → ℕ
resumes [] = 0
resumes (resume _ ∷ calls) = suc (resumes calls)
resumes (pause _ ∷ calls) = resumes calls
resumes (seek_to_end _ ∷ calls) = resumes calls
resumes (set_ex _ ∷ calls) = resumes calls

hold-resumes :
    (st : GateState) (throws : Bool) (g : Gate)
    → st ≢ running
    → resumes (hold_or_resume st throws g).calls ≡ resumes g.calls
unfolding hold_or_resume
hold-resumes running throws g h = absurd (h refl)
hold-resumes pausing throws g h = ground arith
hold-resumes paused throws g h = ground arith

module _ (ttl : ℕ) (resume_from : Option (ℕ → ℕ → Option ℕ)) where
  boot_seek-resumes : (g : Gate) → resumes (fresh_boot_seek resume_from g).calls ≡ resumes g.calls
  unfolding fresh_boot_seek
  boot_seek-resumes g = ground arith

  continue-resumes :
      (w : Wait) (a : Answer) (g : Gate)
      → IsValid (record { gate = g; poll = some w })
      → (continue_poll ttl w a g).0.state ≢ running
      → resumes (continue_poll ttl w a g).0.calls ≡ resumes g.calls
  unfolding continue_poll
  continue-resumes (reading running) a g v h = ground arith
  continue-resumes (reading pausing) a g v h = ground arith
  continue-resumes (reading paused) a g v h = ground arith
  continue-resumes acknowledging a g v h = ground arith
  continue-resumes refreshing a g v h = ground arith
  continue-resumes seeking a g v h = ground arith

  assigned-resumes :
      (tps : List TopicPartitions) (throws : Bool) (g : Gate)
      → (on_assignment resume_from tps throws g).state ≢ running
      → resumes (on_assignment resume_from tps throws g).calls ≡ resumes g.calls
  unfolding on_assignment
  assigned-resumes tps throws g h =
      hold-resumes g.state throws _
        (λ e. h ((on_assignment-IsHeld ttl resume_from tps throws g).state ∙ e))
      ∙ boot_seek-resumes (record g { assignment = tps })

  -- A step of a worker that leaves the gate outside `running` tells the consumer to resume
  -- nothing: neither a poll nor a rebalance frees a partition while an epoch holds the worker.
  pub Step-resumes :
      {s t : Worker}
      → IsValid s
      → Step ttl resume_from s t
      → t.gate.state ≢ running
      → resumes t.gate.calls ≡ resumes s.gate.calls
  unfolding track_begin track_end
  Step-resumes v (tick idle e) h = rw e
  Step-resumes {s} v (answered w a e e') h =
      rw e' (
        continue-resumes w a s.gate (record { knows = v.knows; fits = rw e at v.fits })
          (rw e' at h))
  Step-resumes {s} v (assigned tps throws e) h =
      rw e (assigned-resumes tps throws s.gate (rw e at h))
  Step-resumes v (handling e) h = rw e
  Step-resumes v (handled e) h = rw e

  continue-leaves :
      (w : Wait) (a : Answer) (g : Gate)
      → IsValid (record { gate = g; poll = some w })
      → g.state ≡ paused
      → (continue_poll ttl w a g).0.state ≡ running
      → (w ≡ seeking)
        × ((continue_poll ttl w a g).1 ≡ none)
        × ((continue_poll ttl w a g).0.known_epoch ≡ none)
  unfolding continue_poll
  continue-leaves (reading running) a g v p h = ground arith
  continue-leaves (reading pausing) a g v p h = ground arith
  continue-leaves (reading paused) a g v p h = ground arith
  continue-leaves acknowledging a g v p h = ground arith
  continue-leaves refreshing a g v p h = ground arith
  continue-leaves seeking a g v p h = ground arith

  continue-seeks :
      (w : Wait) (a : Answer) (g : Gate)
      → (continue_poll ttl w a g).1 ≡ some seeking
      → (continue_poll ttl w a g).0.calls ≡ seek_to_end g.assignment ∷ g.calls
  unfolding continue_poll
  continue-seeks (reading running) a g h = ground arith
  continue-seeks (reading pausing) a g h = ground arith
  continue-seeks (reading paused) a g h = ground arith
  continue-seeks acknowledging a g h = ground arith
  continue-seeks refreshing a g h = ground arith
  continue-seeks seeking a g h = ground arith

  -- The only way out of `paused` is the end of a seek that was not rejected, and it forgets the
  -- epoch; and a poll comes to wait for a seek only by asking for the log end of all that is
  -- assigned at that moment.
  pub Step-leaves_paused :
      {s t : Worker}
      → IsValid s
      → Step ttl resume_from s t
      → (s.gate.state ≡ paused
          → t.gate.state ≡ running
          → (s.poll ≡ some seeking) × (t.poll ≡ none) × (t.gate.known_epoch ≡ none))
        × (s.poll ≢ some seeking
            → t.poll ≡ some seeking
            → t.gate.calls ≡ seek_to_end s.gate.assignment ∷ s.gate.calls)
  unfolding track_begin track_end check
  Step-leaves_paused {s} v (tick idle e) = (λ p h. ground arith, λ n h. ground arith)
  Step-leaves_paused {s} v (answered w a e e') = (
    λ p h.
        let v' : IsValid (record { gate = s.gate; poll = some w }) = record {
          knows = v.knows;
          fits = rw e at v.fits;
        } in
        let leaves = continue-leaves w a s.gate v' p (rw e' at h) in
        (e ∙ ap some leaves.0, rw e' leaves.1, rw e' leaves.2),
    λ n h. rw e' (continue-seeks w a s.gate (rw e' at h)),
  )
  Step-leaves_paused {s} v (assigned tps throws e) = (
    λ p h. ground (arith, on_assignment-IsHeld ttl resume_from tps throws s.gate),
    λ n h. ground arith,
  )
  Step-leaves_paused v (handling e) = (λ p h. ground arith, λ n h. ground arith)
  Step-leaves_paused v (handled e) = (λ p h. ground arith, λ n h. ground arith)
