-- ===== src/Gate.antt =====
-- The reset epoch gate of a worker (packages/events/src/reset-epoch.ts, createResetEpochGate).
-- The variables that the closure keeps are the fields of `Gate`; `calls` is the log of what the
-- gate has asked of the consumer, the seeker and Valkey, newest first. JavaScript runs a callback
-- up to its next `await`: each function below is one such stretch, and `Wait` names the place at
-- which a poll is suspended. Valkey, the seeker, kafkajs and the clock are the environment: what
-- they answer is an argument. An epoch is a text that is only compared, a number here; so is a
-- topic.
pub mod Invariant
pub mod Drain
pub mod Quiet
pub mod Liveness
pub mod Race
mod Tests
mod State
use xitter.Prelude.{
  ℕ, ◌+◌, ◌-◌, ◌*◌, Bool, true, false, not, ◌&&◌, Option, none, some, List, [], ◌∷◌, ◌≡◌, map, ltb,
  same, if◌then◌else◌, is_empty, is_some, reject,
}
unfoldable pub use State.*

unfoldable pub uncovered : Option (ℕ → ℕ → Option ℕ) → List TopicPartitions → List TopicPartitions
unfolding reject resume_covered
uncovered resume_from assignment =
    reject (λ t. is_empty t.partitions)
      (map
        (λ t. record {
          topic = t.topic;
          partitions = reject (resume_covered resume_from t.topic) t.partitions;
        })
        assignment)

unfoldable pub seek_uncovered_to_log_end : Option (ℕ → ℕ → Option ℕ) → Gate → Gate
unfolding uncovered
seek_uncovered_to_log_end resume_from g =
    let rest = uncovered resume_from g.assignment in
    if is_empty rest then g else record g { calls = seek_to_end rest ∷ g.calls }

-- The boot-time read: `none` where Valkey fails, which stops the boot.
unfoldable pub initialize : Bool → Option ℕ → Gate → Option (Gate × Bool)
initialize false epoch g = none
initialize true none g = some (record g { booted_fresh = true }, false)
initialize true (some e) g = some (record g { known_epoch = some e; state = pausing }, true)

unfoldable pub or_kept {ℓ} : {A : Type ℓ} → A → Option A → A
or_kept g none = g
or_kept g (some g') = g'

-- In `running` the assignment is resumed, otherwise it is held paused.
unfoldable pub hold_or_resume : GateState → Bool → Gate → Gate
unfolding or_kept pause_assigned resume_assigned
hold_or_resume running throws g = or_kept g (resume_assigned throws g)
hold_or_resume pausing throws g = or_kept g (pause_assigned throws g)
hold_or_resume paused throws g = or_kept g (pause_assigned throws g)

-- The fail-safe of a fresh boot, at the first assignment of the process.
unfoldable pub fresh_boot_seek : Option (ℕ → ℕ → Option ℕ) → Gate → Gate
unfolding seek_uncovered_to_log_end
fresh_boot_seek resume_from g =
    if g.booted_fresh && not g.sought_fresh_boot
    then seek_uncovered_to_log_end resume_from (record g { sought_fresh_boot = true })
    else g

unfoldable pub on_assignment : Option (ℕ → ℕ → Option ℕ) → List TopicPartitions → Bool → Gate → Gate
on_assignment resume_from assigned throws g =
    hold_or_resume g.state throws (fresh_boot_seek resume_from (record g { assignment = assigned }))

-- `track`, up to the call of the handler and after it.
unfoldable pub track_begin : Gate → Gate
track_begin g = record g { in_flight = g.in_flight + 1; idle_polls = 0 }

unfoldable pub track_end : Gate → Gate
track_end g = record g { in_flight = g.in_flight - 1 }

-- The stretch of `writeHeartbeat` before its `await`.
unfoldable pub write_heartbeat : Gate → Gate
write_heartbeat g = record g { calls = set_ex g.known_epoch ∷ g.calls }

unfoldable pub check_running : Option ℕ → Bool → Gate → Gate
unfolding pause_assigned or_kept
check_running none throws g = g
check_running (some e) throws g =
    if same (some e) g.known_epoch then g else elim (pause_assigned throws g) [
      | none ↦ g
      | some held ↦ record held { known_epoch = some e; idle_polls = 0; state = pausing }
    ]

-- The way back to `running`, in `checkPausing` and after the seek of `checkPaused`.
unfoldable pub resume_running : Bool → Gate → Gate
unfolding resume_assigned
resume_running throws g = elim (resume_assigned throws g) [
  | none ↦ g
  | some freed ↦ record freed { known_epoch = none; idle_polls = 0; state = running }
]

-- The rest of `checkPausing` once the epoch is known.
unfoldable pub drain : Gate → Gate × Option Wait
unfolding write_heartbeat
drain g =
    if ltb 0 g.in_flight
    then (record g { idle_polls = 0 }, none)
    else let counted = record g { idle_polls = g.idle_polls + 1 } in
      if ltb counted.idle_polls 2
      then (counted, none)
      else (write_heartbeat counted, some acknowledging)

unfoldable pub check_pausing : Option ℕ → Bool → Gate → Gate × Option Wait
unfolding resume_running drain
check_pausing none throws g = (resume_running throws g, none)
check_pausing (some e) throws g =
    drain (if same (some e) g.known_epoch then g else record g { known_epoch = some e })

unfoldable pub check_paused : ℕ → Option ℕ → ℕ → Gate → Gate × Option Wait
unfolding write_heartbeat
check_paused ttl none now g =
    (record g { calls = seek_to_end g.assignment ∷ g.calls }, some seeking)
check_paused ttl (some e) now g =
    if same (some e) g.known_epoch
    then if ltb ttl (3 * (now - g.heartbeat_at))
      then (write_heartbeat g, some refreshing)
      else (g, none)
    else (write_heartbeat (record g { known_epoch = some e }), some refreshing)

-- `check` up to its first `await`.
unfoldable pub check : Gate → Wait
check g = reading g.state

-- A poll goes on from where it waits, if what it awaited was not rejected.
unfoldable pub proceed : ℕ → Wait → Answer → Gate → Gate × Option Wait
unfolding check_running check_pausing check_paused resume_running
proceed ttl (reading running) a g = (check_running a.epoch a.throws g, none)
proceed ttl (reading pausing) a g = check_pausing a.epoch a.throws g
proceed ttl (reading paused) a g = check_paused ttl a.epoch a.now g
proceed ttl acknowledging a g =
    (record g { heartbeat_at = a.now; idle_polls = 0; state = paused }, none)
proceed ttl refreshing a g = (record g { heartbeat_at = a.now }, none)
proceed ttl seeking a g = (resume_running a.throws g, none)

-- A rejection is caught: the poll ends, and the gate stays as it is.
unfoldable pub continue_poll : ℕ → Wait → Answer → Gate → Gate × Option Wait
unfolding proceed
continue_poll ttl w a g = if a.ok then proceed ttl w a g else (g, none)

-- One whole poll that nothing interrupts: the first answer is for the read of the epoch key, the
-- second for the heartbeat or the seek that may follow.
unfoldable pub run_check : ℕ → Answer → Answer → Gate → Gate
unfolding continue_poll check
run_check ttl read then_answer g =
    let (g', w) = continue_poll ttl (check g) read g in
    elim w [ none ↦ g' | some w' ↦ (continue_poll ttl w' then_answer g').0 ]

-- A gate with the poll that is under way, if there is one.
pub record Worker : Type 0 where
  pub gate : Gate
  pub poll : Option Wait

-- The event loop, with each poll ended before the timer starts the next.
pub data Step (ttl : ℕ) (resume_from : Option (ℕ → ℕ → Option ℕ)) (s t : Worker) : Type 0 where
  tick : s.poll ≡ none → t ≡ record s { poll = some (check s.gate) } → Step ttl resume_from s t
  answered :
      (w : Wait) (a : Answer)
      → s.poll ≡ some w
      → t ≡ record {
        gate = (continue_poll ttl w a s.gate).0;
        poll = (continue_poll ttl w a s.gate).1;
      }
      → Step ttl resume_from s t
  assigned :
      (tps : List TopicPartitions) (throws : Bool)
      → t ≡ record s { gate = on_assignment resume_from tps throws s.gate }
      → Step ttl resume_from s t
  handling : t ≡ record s { gate = track_begin s.gate } → Step ttl resume_from s t
  handled : t ≡ record s { gate = track_end s.gate } → Step ttl resume_from s t

pub data Reach (ttl : ℕ) (resume_from : Option (ℕ → ℕ → Option ℕ)) (s : Worker)
    : Worker → Type 0 where
  here : Reach ttl resume_from s s
  next :
      {t u : Worker}
      → Reach ttl resume_from s t
      → Step ttl resume_from t u
      → Reach ttl resume_from s u
