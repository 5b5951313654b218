-- ===== src/Events/Worker.antt =====
-- A worker whose handler the reset epoch gate tracks (packages/events/src/worker.ts, consume). A world is
-- the gate and the rest, which the handler works on; polls of the gate fall into the pauses between
-- its attempts.
use xitter.Prelude.{
  ℕ, ◌≡◌, refl, ap, ◌∙◌, inl, inr, Bool, true, false, none, some, List, ◌∷◌, ◌==◌, if◌then◌else◌,
  arith,
}
use xitter.Gate.{Gate, pausing, paused, set_ex, track_begin, track_end, run_check}
use xitter.Gate.Liveness.{answer}
use xitter.Events.{run_with_inline_retry}
use xitter.Events.Resolved.{Event}
use xitter.Events.Retry.{second, third, run_with_inline_retry_lem, run_with_inline_retry-keeps}

-- `handle` is the handler with whatever goes on while it is awaited, such as polls of the gate.
module _ {S : Type 0} (handle : List Event → Gate × S → Bool × (Gate × S)) where
  -- `gate.track`, whether the handler resolves or throws.
  unfoldable pub tracked : List Event → Gate × S → Bool × (Gate × S)
  tracked xs (g, s) = let (ok, (g', s')) = handle xs (track_begin g, s) in (ok, (track_end g', s'))

  -- The gate is there where the worker is given one.
  unfoldable pub consume : Bool → List Event → Gate × S → Bool × (Gate × S)
  unfolding tracked
  consume true xs w = tracked xs w
  consume false xs w = handle xs w

  tracked_balanced :
      (n : ℕ) (xs : List Event)
      → ((w : Gate × S) → (handle xs w).1.0.in_flight ≡ w.0.in_flight)
      → (w : Gate × S) → w.0.in_flight ≡ n
      → (tracked xs w).1.0.in_flight ≡ n
  unfolding tracked track_begin track_end
  tracked_balanced n xs h (g, s) e = omega (arith, h (track_begin g, s))

  -- However many attempts a batch takes, and whether the last resolves or throws: where nothing
  -- else begins or ends a handler meanwhile, as many are in flight afterwards as before.
  pub consume-in_flight :
      (wait : ℕ → Gate × S → Gate × S) (xs : List Event)
      → ((w : Gate × S) → (handle xs w).1.0.in_flight ≡ w.0.in_flight)
      → ((ms : ℕ) (w : Gate × S) → (wait ms w).0.in_flight ≡ w.0.in_flight)
      → (w : Gate × S)
      → (run_with_inline_retry wait (consume true xs) w).1.0.in_flight ≡ w.0.in_flight
  unfolding consume
  consume-in_flight wait xs h k w =
      run_with_inline_retry-keeps wait (tracked xs) (λ v. v.0.in_flight ≡ w.0.in_flight)
        (tracked_balanced w.0.in_flight xs h) (λ ms v e. k ms v ∙ e) w refl

-- The two polls of the gate that a pause of one second can hold: the first has asked before the
-- handler threw and is answered after it.
abbrev pub two_polls : ℕ → ℕ → ℕ → ℕ → Gate → Gate
two_polls ttl e t₁ t₂ g =
    run_check ttl (answer (some e) t₁) (answer none t₂)
      (run_check ttl (answer (some e) t₁) (answer none t₂) g)

abbrev pub polled : {S : Type 0} → ℕ → ℕ → ℕ → ℕ → ℕ → Gate × S → Gate × S
polled ttl e t₁ t₂ ms (g, s) = (if ms == 1000 then two_polls ttl e t₁ t₂ g else g, s)

acknowledges_between :
    (ttl e t₁ t₂ : ℕ) (g : Gate)
    → g.state ≡ pausing
    → g.known_epoch ≡ some e
    → g.in_flight ≡ 0
    → g.idle_polls ≡ 0
    → let h = two_polls ttl e t₁ t₂ g in (h.state ≡ paused) × (h.calls ≡ set_ex (some e) ∷ g.calls)
unfolding run_check
acknowledges_between ttl e t₁ t₂ g p k d i = ground arith

abbrev drained : Gate → Gate
drained g = record g { idle_polls = 0 }

track_round : (g : Gate) → track_end (track_begin g) ≡ drained g
unfolding track_end track_begin
track_round g = ground arith

third_attempt :
    {S : Type 0} (wait : ℕ → S → S) (handle : S → Bool × S) (s : S)
    → (handle s).0 ≡ false
    → (handle (second wait handle s)).0 ≡ false
    → run_with_inline_retry wait handle s ≡ handle (third wait handle s)
third_attempt wait handle s a b = elim (run_with_inline_retry_lem wait handle s) [
  | inl (ok, e) ↦ cc
  | inr (inl (f, ok, e)) ↦ cc
  | inr (inr (f, g, e)) ↦ e
]

module _ {S : Type 0} (handle : List Event → Gate × S → Bool × (Gate × S)) (xs : List Event)
    (alone : (w : Gate × S) → (handle xs w).1.0 ≡ w.0) where
  tracked_gate : (w : Gate × S) → (tracked handle xs w).1.0 ≡ drained w.0
  unfolding tracked
  tracked_gate (g, s) = ap track_end (alone (track_begin g, s)) ∙ track_round g

  -- While a worker drains, a handler that does not touch the gate throws twice. In the pause before
  -- its third attempt two polls find nothing in flight and write the heartbeat; then the handler is
  -- called once more, by a worker that is paused, while the reset may wipe the stores.
  pub retried_while_paused :
      (ttl e t₁ t₂ : ℕ) (g : Gate) (s : S)
      → g.state ≡ pausing
      → g.known_epoch ≡ some e
      → g.in_flight ≡ 0
      → (tracked handle xs (g, s)).0 ≡ false
      → let wait = polled ttl e t₁ t₂ in
        (tracked handle xs (second wait (tracked handle xs) (g, s))).0 ≡ false
        → let wait = polled ttl e t₁ t₂ in
          let last = third wait (tracked handle xs) (g, s) in
          (last.0.state ≡ paused)
          × (last.0.calls ≡ set_ex (some e) ∷ g.calls)
          × (run_with_inline_retry wait (tracked handle xs) (g, s) ≡ tracked handle xs last)
  retried_while_paused ttl e t₁ t₂ g s p k f no₁ no₂ =
      let wait = polled {S = S} ttl e t₁ t₂ in
      let w₁ = (tracked handle xs (g, s)).1 in
      let w₂ = (tracked handle xs (wait 500 w₁)).1 in
      let e₁ : w₁.0 ≡ drained g = tracked_gate (g, s) in
      let e₂ : w₂.0 ≡ drained g = tracked_gate (wait 500 w₁) ∙ ap drained e₁ in
      let ack = acknowledges_between ttl e t₁ t₂ (drained g) p k f refl in
      (
        ap (λ h. (two_polls ttl e t₁ t₂ h).state) e₂ ∙ ack.0,
        ap (λ h. (two_polls ttl e t₁ t₂ h).calls) e₂ ∙ ack.1,
        third_attempt wait (tracked handle xs) (g, s) no₁ no₂,
      )
