-- ===== src/Gate/Race.antt =====
-- What the waits of a poll let in (packages/events/src/reset-epoch.ts, checkPaused and start).
use xitter.Prelude.{ℕ, ◌≡◌, ◌≢◌, refl, Option, none, some, List, [], ◌∷◌, false, not, ◌&&◌, arith}
use xitter.Gate.{
  running, paused, pause, resume, seek_to_end, set_ex, Gate, fresh_boot_seek, hold_or_resume,
  seeking, TopicPartitions, on_assignment, check, continue_poll, run_check,
}
use xitter.Gate.Liveness.{answer, acknowledges}

-- A rebalance while the seek of a paused worker is awaited: the gate is past its fresh boot, the
-- epoch is cleared, and the new assignment is not empty. When the seek ends the worker resumes
-- the new partitions, and the log end was only ever asked for the old ones.
pub rebalance_during_seek :
    (ttl now then : ℕ) (resume_from : Option (ℕ → ℕ → Option ℕ)) (tps : List TopicPartitions)
    (g : Gate)
    → g.state ≡ paused
    → (g.booted_fresh && not g.sought_fresh_boot) ≡ false
    → tps ≢ []
    → let (waiting, w) = continue_poll ttl (check g) (answer none now) g in
      let moved = on_assignment resume_from tps false waiting in
      let freed = (continue_poll ttl seeking (answer none then) moved).0 in
      (w ≡ some seeking)
      × (freed.state ≡ running)
      × (freed.calls ≡ resume tps ∷ pause tps ∷ seek_to_end g.assignment ∷ g.calls)
unfolding check continue_poll on_assignment fresh_boot_seek hold_or_resume
rebalance_during_seek ttl now then resume_from [] g p b ne = absurd (ne refl)
rebalance_during_seek ttl now then resume_from (tp ∷ tps) g p b ne = ground arith

-- The gate once the log end is asked for, once the worker is resumed, and once it has acknowledged
-- an epoch.
abbrev asked : Gate → Gate
asked g = record g { calls = seek_to_end g.assignment ∷ g.calls }

abbrev freed : Gate → Gate
freed g = record g {
  state = running;
  known_epoch = none;
  idle_polls = 0;
  calls = resume g.assignment ∷ g.calls;
}

abbrev promises : ℕ → ℕ → Gate → Gate
promises e now g = record g {
  state = paused;
  known_epoch = some e;
  idle_polls = 0;
  heartbeat_at = now;
  calls = set_ex (some e) ∷ pause g.assignment ∷ g.calls;
}

seek_begins :
    (ttl now : ℕ) (g h : Gate)
    → g.state ≡ paused
    → continue_poll ttl (check g) (answer none now) h ≡ (asked h, some seeking)
unfolding check continue_poll
seek_begins ttl now g h p = ground arith

seek_ends :
    (ttl now : ℕ) (g : Gate)
    → g.assignment ≢ []
    → continue_poll ttl seeking (answer none now) g ≡ (freed g, none)
unfolding continue_poll
seek_ends ttl now g held = ground arith

-- The timer starts a poll while another still waits. Two polls of a paused worker ask for the log
-- end; the first to be answered resumes the worker; a second reset then publishes its epoch, which
-- three polls acknowledge by a heartbeat. When the seek of the second old poll ends, the worker
-- resumes and forgets the epoch, while its heartbeat tells that reset that it is paused.
pub stale_seek_resumes :
    (ttl e now t₁ t₂ t₃ t₄ t₅ t₆ : ℕ) (g : Gate)
    → g.state ≡ paused
    → g.in_flight ≡ 0
    → g.assignment ≢ []
    → let first = (continue_poll ttl (check g) (answer none now) g).0 in
      let second = continue_poll ttl (check g) (answer none now) first in
      let back = (continue_poll ttl seeking (answer none now) second.0).0 in
      let poll = λ (a b : ℕ) (h : Gate). run_check ttl (answer (some e) a) (answer none b) h in
      let promised = poll t₅ t₆ (poll t₃ t₄ (poll t₁ t₂ back)) in
      let stale = (continue_poll ttl seeking (answer none now) promised).0 in
      (second.1 ≡ some seeking)
      × (promised.state ≡ paused)
      × (stale.state ≡ running)
      × (stale.known_epoch ≡ none)
      × (stale.calls ≡ resume g.assignment ∷ set_ex (some e) ∷ pause g.assignment ∷ back.calls)
stale_seek_resumes ttl e now t₁ t₂ t₃ t₄ t₅ t₆ g p drained held =
    let g₁ = asked g in
    let g₂ = asked g₁ in
    let back = freed g₂ in
    rw (seek_begins ttl now g g p, seek_begins ttl now g g₁ p, seek_ends ttl now g₂ held)
      (rw (acknowledges ttl e t₁ t₂ t₃ t₄ t₅ t₆ back refl refl drained held)
        (rw (seek_ends ttl now (promises e t₆ back) held) (refl, refl, refl, refl, refl)))
