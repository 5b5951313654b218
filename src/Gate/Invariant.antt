-- ===== src/Gate/Invariant.antt =====
-- What holds of a worker's gate after every schedule of polls, assignments and handlers
-- (packages/events/src/reset-epoch.ts).
use xitter.Prelude.{ℕ, ◌≡◌, ◌≢◌, ◌∙◌, refl, Option, none, some, Bool, true, List, arith, is_some}
use xitter.Gate.{
  GateState, running, pausing, paused, Gate, Wait, reading, acknowledging, refreshing, seeking,
  Answer, Worker, Step, tick, answered, assigned, handling, handled, Reach, here, next,
  TopicPartitions, fresh_gate, initialize, on_assignment, hold_or_resume, fresh_boot_seek,
  track_begin, track_end, check, continue_poll,
}

-- No epoch is known exactly in `running`.
abbrev pub Knows : GateState → Option ℕ → Type 0
Knows running known = known ≡ none
Knows pausing known = known ≢ none
Knows paused known = known ≢ none

-- Where a poll waits, it does so in the state in which that wait began.
abbrev pub Fits : Option Wait → GateState → Type 0
Fits none st = Unit
Fits (some (reading r)) st = r ≡ st
Fits (some acknowledging) st = st ≡ pausing
Fits (some refreshing) st = st ≡ paused
Fits (some seeking) st = st ≡ paused

pub record IsValid (s : Worker) : Type 0 where
  pub knows : Knows s.gate.state s.gate.known_epoch
  pub fits : Fits s.poll s.gate.state

-- Neither the state nor the known epoch changes.
pub record IsHeld (g h : Gate) : Type 0 where
  pub state : h.state ≡ g.state
  pub known_epoch : h.known_epoch ≡ g.known_epoch

hold_or_resume-IsHeld :
    (st : GateState) (throws : Bool) (g : Gate) → IsHeld g (hold_or_resume st throws g)
unfolding hold_or_resume
hold_or_resume-IsHeld running throws g = ground arith
hold_or_resume-IsHeld pausing throws g = ground arith
hold_or_resume-IsHeld paused throws g = ground arith

module _ (ttl : ℕ) (resume_from : Option (ℕ → ℕ → Option ℕ)) where
  fresh_boot_seek-IsHeld : (g : Gate) → IsHeld g (fresh_boot_seek resume_from g)
  unfolding fresh_boot_seek
  fresh_boot_seek-IsHeld g = ground arith

  pub on_assignment-IsHeld :
      (tps : List TopicPartitions) (throws : Bool) (g : Gate)
      → IsHeld g (on_assignment resume_from tps throws g)
  unfolding on_assignment
  on_assignment-IsHeld tps throws g =
      let h = fresh_boot_seek resume_from (record g { assignment = tps }) in
      let sought = fresh_boot_seek-IsHeld (record g { assignment = tps }) in
      let held = hold_or_resume-IsHeld g.state throws h in
      record {
        state = held.state ∙ sought.state;
        known_epoch = held.known_epoch ∙ sought.known_epoch;
      }

  continue_poll-IsValid :
      (w : Wait) (a : Answer) (g : Gate)
      → IsValid (record { gate = g; poll = some w })
      → IsValid (record { gate = (continue_poll ttl w a g).0; poll = (continue_poll ttl w a g).1 })
  unfolding continue_poll
  continue_poll-IsValid (reading running) a g v = ground arith
  continue_poll-IsValid (reading pausing) a g v = ground arith
  continue_poll-IsValid (reading paused) a g v = ground arith
  continue_poll-IsValid acknowledging a g v = ground arith
  continue_poll-IsValid refreshing a g v = ground arith
  continue_poll-IsValid seeking a g v = ground arith

  IsHeld-IsValid :
      {g h : Gate} {poll : Option Wait}
      → IsHeld g h
      → IsValid (record { gate = g; poll = poll })
      → IsValid (record { gate = h; poll = poll })
  IsHeld-IsValid {poll = poll} held v = record {
    knows = rw (held.state, held.known_epoch) v.knows;
    fits = rw held.state v.fits;
  }

  Step-IsValid : {s t : Worker} → Step ttl resume_from s t → IsValid s → IsValid t
  unfolding check track_begin track_end
  Step-IsValid {s} (tick idle e) v = rw e (record { knows = v.knows; fits = refl })
  Step-IsValid {s} (answered w a e e') v =
      rw e' (continue_poll-IsValid w a s.gate (record { knows = v.knows; fits = rw e at v.fits }))
  Step-IsValid {s} (assigned tps throws e) v =
      rw e (IsHeld-IsValid (on_assignment-IsHeld tps throws s.gate) v)
  Step-IsValid (handling e) v = rw e (record { knows = v.knows; fits = v.fits })
  Step-IsValid (handled e) v = rw e (record { knows = v.knows; fits = v.fits })

  -- After every schedule of polls that do not overlap, rebalances and handlers, whatever Valkey,
  -- the seeker and the consumer answered: the gate of a booted worker knows an epoch exactly when
  -- it is not in `running`, and a poll that waits does so in the state in which its wait began.
  pub Reach-IsValid : {s t : Worker} → IsValid s → Reach ttl resume_from s t → IsValid t
  Reach-IsValid v here = v
  Reach-IsValid v (next r st) = Step-IsValid st (Reach-IsValid v r)

-- A boot whose read of the epoch key succeeds starts such a worker.
pub initialize-IsValid :
    (epoch : Option ℕ) {g : Gate} {held : Bool}
    → initialize true epoch fresh_gate ≡ some (g, held)
    → IsValid (record { gate = g; poll = none }) × (held ≡ is_some epoch)
unfolding initialize
initialize-IsValid none e = ground arith
initialize-IsValid (some n) e = ground arith
