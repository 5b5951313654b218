-- ===== src/Gate/State.antt =====
-- The variables of the reset epoch gate, its calls and what they answer
-- (packages/events/src/reset-epoch.ts, createResetEpochGate).
use xitter.Prelude.{
  ℕ, Bool, false, Option, none, some, List, [], ◌∷◌, if◌then◌else◌, is_empty, is_some,
}

pub data GateState : Type 0 where
  running pausing paused : GateState

pub record TopicPartitions : Type 0 where
  pub topic : ℕ
  pub partitions : List ℕ

pub data Call : Type 0 where
  pause resume seek_to_end : List TopicPartitions → Call
  set_ex : Option ℕ → Call

pub record Gate : Type 0 where
  pub state : GateState
  pub known_epoch : Option ℕ
  pub assignment : List TopicPartitions
  pub in_flight : ℕ
  pub idle_polls : ℕ
  pub heartbeat_at : ℕ
  pub booted_fresh : Bool
  pub sought_fresh_boot : Bool
  pub calls : List Call

-- Where a poll waits: for the read of the epoch key, which it began in the given state; for the
-- write of the heartbeat that ends a drain; for a later write of the heartbeat; for the seek.
pub data Wait : Type 0 where
  reading : GateState → Wait
  acknowledging refreshing seeking : Wait

-- What the awaited call answered: `ok` is false where it was rejected; `epoch` is the value of a
-- read. `throws` says whether a call of the consumer made in this stretch throws, `now` the clock.
pub record Answer : Type 0 where
  pub ok : Bool
  pub epoch : Option ℕ
  pub throws : Bool
  pub now : ℕ

abbrev pub fresh_gate : Gate
fresh_gate = record {
  state = running;
  known_epoch = none;
  assignment = [];
  in_flight = 0;
  idle_polls = 0;
  heartbeat_at = 0;
  booted_fresh = false;
  sought_fresh_boot = false;
  calls = [];
}

-- `none`: the consumer threw.
unfoldable pub pause_assigned : Bool → Gate → Option Gate
pause_assigned throws g =
    if is_empty g.assignment
    then some g
    else if throws
    then none
    else some (record g { calls = pause g.assignment ∷ g.calls })

unfoldable pub resume_assigned : Bool → Gate → Option Gate
resume_assigned throws g =
    if is_empty g.assignment
    then some g
    else if throws
    then none
    else some (record g { calls = resume g.assignment ∷ g.calls })

unfoldable pub resume_covered : Option (ℕ → ℕ → Option ℕ) → ℕ → ℕ → Bool
resume_covered none topic partition = false
resume_covered (some resume_from) topic partition = is_some (resume_from topic partition)
