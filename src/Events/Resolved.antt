-- ===== src/Events/Resolved.antt =====
-- At least once (packages/events/src/consumer.ts, run and runBatch): which calls of a handler resolved
-- is kept beside its world.
use xitter.Prelude.{
  ℕ, ◌≡◌, refl, Bool, true, ◌⊎◌, inl, inr, none, some, List, [], ◌∷◌, All, take, Bool-cases,
  if◌then◌else◌,
}
use xitter.Events.{Json, EventEnvelope, KafkaMessage, parse_envelope}
use xitter.Events.Partition.{Mode, Round, rounds}
use xitter.Events.Handled.{rounds-Handled}

abbrev pub Event : Type 0
Event = EventEnvelope × KafkaMessage

abbrev pub In : Event → List Event → Type 0
In x [] = ⊥
In x (y ∷ ys) = (x ≡ y) ⊎ In x ys

-- An event that one of the calls was given.
abbrev pub InSome : Event → List (List Event) → Type 0
InSome x [] = ⊥
InSome x (c ∷ cs) = In x c ⊎ InSome x cs

module _ (json : Json) {S : Type 0} (wait : ℕ → S → S) (handle : List Event → S → Bool × S) where
  -- The world, and the calls that resolved.
  abbrev pub recorded : List Event → S × List (List Event) → Bool × (S × List (List Event))
  recorded xs (s, calls) =
      let (ok, s') = handle xs s in (ok, (s', if ok then xs ∷ calls else calls))

  abbrev pub waits : ℕ → S × List (List Event) → S × List (List Event)
  waits ms (s, calls) = (wait ms s, calls)

  -- A message that is poison, or whose event was in a call that resolved.
  abbrev pub IsResolved : List (List Event) → KafkaMessage → Type 0
  IsResolved calls m = elim (parse_envelope json m) [
    | none ↦ Unit {0}
    | some e ↦ InSome (e, m) calls
  ]

  all_within : (xs ys : List Event) → ((x : Event) → In x xs → In x ys) → All (λ x. In x ys) xs
  all_within [] ys h = tt
  all_within (x ∷ xs) ys h = (h x (inl refl), all_within xs ys (λ z k. h z (inr k)))

  in_some :
      (xs ys : List Event) (cs : List (List Event))
      → All (λ x. In x ys) xs
      → All (λ x. InSome x (ys ∷ cs)) xs
  in_some [] ys cs a = tt
  in_some (x ∷ xs) ys cs a = (inl a.0, in_some xs ys cs a.1)

  resolved_now :
      (xs : List Event) (s : S × List (List Event))
      → (recorded xs s).0 ≡ true
      → All (λ x. InSome x (recorded xs s).1.1) xs
  resolved_now xs (s, calls) ok = rw ok (in_some xs xs calls (all_within xs xs (λ z k. k)))

  kept :
      (x : Event) (xs : List Event) (s : S × List (List Event))
      → InSome x s.1
      → InSome x (recorded xs s).1.1
  kept x xs (s, calls) i = elim (Bool-cases (handle xs s).0) [
    | inl e ↦ rw e (inr i)
    | inr e ↦ rw e i
  ]

  -- At least once, message by message or by whole batches: from the start of a log, whatever the
  -- handler does, whatever goes on in the pauses between its attempts, however the log is fetched and
  -- wherever the position falls back in between, every message before the position is poison or was
  -- given to a call of the handler that resolved.
  pub rounds-IsResolved :
      (mode : Mode) (log : List KafkaMessage) (rs : List Round) (s : S)
      → let q = rounds json waits recorded mode log rs (record { position = 0; world = (s, []) }) in
        All (IsResolved q.world.1) (take q.position log)
  rounds-IsResolved mode log rs s =
      rounds-Handled json waits recorded (λ x w. InSome x w.1) resolved_now kept (λ x ms w d. d)
        mode log rs (record { position = 0; world = (s, []) }) tt
