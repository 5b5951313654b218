-- ===== src/Gate/Quiet.antt =====
-- The polls that come before a worker promises that it is quiet
-- (packages/events/src/reset-epoch.ts, checkPausing).
use xitter.Prelude.{ℕ, suc, ◌&&◌, Option, ◌==◌, is_some, if◌then◌else◌}
use xitter.Gate.{
  running, pausing, paused, Gate, Wait, reading, acknowledging, refreshing, seeking, Answer, Worker,
  tick, answered, assigned, handling, handled, Reach, here, next,
}

-- A poll of a pausing gate that reads an epoch is quiet where it finds no handler in flight.
unfoldable pub quiet_after : Wait → Answer → ℕ → ℕ → ℕ
quiet_after (reading running) a in_flight n = n
quiet_after (reading pausing) a in_flight n =
    if a.ok && is_some a.epoch then (if in_flight == 0 then suc n else 0) else n
quiet_after (reading paused) a in_flight n = n
quiet_after acknowledging a in_flight n = if a.ok then 0 else n
quiet_after refreshing a in_flight n = n
quiet_after seeking a in_flight n = n

module _ (ttl : ℕ) (resume_from : Option (ℕ → ℕ → Option ℕ)) where
  -- How many quiet polls the schedule has since the last handler began, the last poll found one in
  -- flight, or the last heartbeat of a drain was written.
  unfoldable pub quiet_polls : {s t : Worker} → Reach ttl resume_from s t → ℕ
  quiet_polls here = 0
  quiet_polls (next r (tick idle e)) = quiet_polls r
  quiet_polls (next {t = t} r (answered w a e e')) =
      quiet_after w a t.gate.in_flight (quiet_polls r)
  quiet_polls (next r (assigned tps throws e)) = quiet_polls r
  quiet_polls (next r (handling e)) = 0
  quiet_polls (next r (handled e)) = quiet_polls r
