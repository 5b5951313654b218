-- ===== src/Events/Handled.antt =====
-- No event is passed over (packages/events/src/consumer.ts, run and runBatch).
use mathlib.Core.Path.{subst}
use xitter.Prelude.{
  ℕ, ◌+◌, ◌≡◌, sym, ap, ◌∙◌, min, Bool, true, inl, inr, none, some, List, [], ◌∷◌, All, take, drop,
  length, All-take, All-take-le, All-take-add, length-take-le, Bool-cases, Option-cases, is_empty,
  if◌then◌else◌, arith,
}
use xitter.Events.{
  Json, EventEnvelope, KafkaMessage, parse_envelope, parse_all, run_with_inline_retry, each_message,
  each_batch,
}
use xitter.Events.Retry.{run_with_inline_retry-keeps, run_with_inline_retry-resolved}
use xitter.Events.Partition.{
  Mode, run, run_batch, Round, fetched, reassigned, Partition, one, each_in_turn, deliver, round,
  rounds, deliver-le,
}

module _ (json : Json) {S : Type 0} (wait : ℕ → S → S)
    (handle : List (EventEnvelope × KafkaMessage) → S → Bool × S) where
  module _ (Done : EventEnvelope × KafkaMessage → S → Type 0)
      (does : (xs : List (EventEnvelope × KafkaMessage)) (s : S)
        → (handle xs s).0 ≡ true
        → All (λ x. Done x (handle xs s).1) xs)
      (keeps : (x : EventEnvelope × KafkaMessage) (xs : List (EventEnvelope × KafkaMessage)) (s : S)
        → Done x s
        → Done x (handle xs s).1)
      (waits : (x : EventEnvelope × KafkaMessage) (ms : ℕ) (s : S)
        → Done x s
        → Done x (wait ms s)) where
    -- A message that is poison, or whose event is done.
    abbrev Handled : S → KafkaMessage → Type 0
    Handled s m = elim (parse_envelope json m) [ none ↦ Unit {0} | some e ↦ Done (e, m) s ]

    each_message-keeps :
        (x : EventEnvelope × KafkaMessage) (m : KafkaMessage) (s : S)
        → Done x s
        → Done x (each_message json wait (one json wait handle) m s).1
    unfolding each_message
    each_message-keeps x m s d = elim (Option-cases (parse_envelope json m)) [
      | inl bad ↦ rw (bad, each_message) d
      | inr (e, good) ↦
          rw (good, each_message)
            (run_with_inline_retry-keeps wait (one json wait handle e m) (Done x)
              (keeps x ((e, m) ∷ [])) (waits x) s d)
    ]

    each_batch-keeps :
        (x : EventEnvelope × KafkaMessage) (ms : List KafkaMessage) (s : S)
        → Done x s
        → Done x (each_batch json wait handle ms s).1
    unfolding each_batch
    each_batch-keeps x ms s d = elim (Bool-cases (is_empty (parse_all json ms))) [
      | inl e ↦ rw (each_batch, e) d
      | inr e ↦
          rw (each_batch, e)
            (run_with_inline_retry-keeps wait (handle (parse_all json ms)) (Done x)
              (keeps x (parse_all json ms)) (waits x) s d)
    ]

    deliver-keeps :
        (mode : Mode) (x : EventEnvelope × KafkaMessage) (ms : List KafkaMessage) (s : S)
        → Done x s
        → Done x (deliver json wait handle mode ms s).1
    unfolding deliver each_in_turn
    deliver-keeps run x [] s d = d
    deliver-keeps run x (m ∷ ms) s d =
        let d' = each_message-keeps x m s d in
        elim (Bool-cases (each_message json wait (one json wait handle) m s).0) [
          | inl e ↦
              rw e (deliver-keeps run x ms (each_message json wait (one json wait handle) m s).1 d')
          | inr e ↦ rw e d'
        ]
    deliver-keeps run_batch x ms s d = each_batch-keeps x ms s d

    Handled-keeps :
        (mode : Mode) (m : KafkaMessage) (ms : List KafkaMessage) (s : S)
        → Handled s m
        → Handled (deliver json wait handle mode ms s).1 m
    Handled-keeps mode m ms s h = elim (Option-cases (parse_envelope json m)) [
      | inl bad ↦ rw (bad, Handled) tt
      | inr (e, good) ↦
          rw (good, Handled) (deliver-keeps mode (e, m) ms s (rw (good, Handled) at h))
    ]

    each_message-good :
        (m : KafkaMessage) (e : EventEnvelope) (s : S)
        → parse_envelope json m ≡ some e
        → each_message json wait (one json wait handle) m s
          ≡ run_with_inline_retry wait (one json wait handle e m) s
    unfolding each_message
    each_message-good m e s good = rw (good, each_message)

    each_message-Handled :
        (m : KafkaMessage) (s : S)
        → (each_message json wait (one json wait handle) m s).0 ≡ true
        → Handled (each_message json wait (one json wait handle) m s).1 m
    each_message-Handled m s ok = elim (Option-cases (parse_envelope json m)) [
      | inl bad ↦ rw (bad, Handled) tt
      | inr (e, good) ↦
          let same = each_message-good m e s good in
          rw (good, Handled)
            (subst (λ r. Done (e, m) r.1) (sym same)
              (run_with_inline_retry-resolved wait (one json wait handle e m) (Done (e, m))
                (λ t h. (does ((e, m) ∷ []) t h).0) s (sym (ap (λ r. r.0) same) ∙ ok)))
    ]

    parse_all-Handled :
        (ms : List KafkaMessage) (s : S)
        → All (λ x. Done x s) (parse_all json ms)
        → All (Handled s) ms
    unfolding parse_all
    parse_all-Handled [] s d = tt
    parse_all-Handled (m ∷ ms) s d = elim (Option-cases (parse_envelope json m)) [
      | inl bad ↦ (rw (bad, Handled) tt, parse_all-Handled ms s (rw (bad, parse_all) at d))
      | inr (e, good) ↦
          let (now, rest) = rw (good, parse_all) at d in
          (rw (good, Handled) now, parse_all-Handled ms s rest)
    ]

    each_batch-Handled :
        (ms : List KafkaMessage) (s : S)
        → (each_batch json wait handle ms s).0 ≡ true
        → All (Handled (each_batch json wait handle ms s).1) ms
    unfolding each_batch
    each_batch-Handled ms s ok = parse_all-Handled ms _ (done_by (parse_all json ms) ok)
      where
        done_by :
            (xs : List (EventEnvelope × KafkaMessage))
            → (if is_empty xs then (true, s) else run_with_inline_retry wait (handle xs) s).0 ≡ true
            → All
                (λ x.
                  Done x
                    (if is_empty xs then (true, s) else run_with_inline_retry wait (handle xs) s).1)
                xs
        done_by [] h = tt
        done_by (x ∷ xs) h =
            run_with_inline_retry-resolved wait (handle (x ∷ xs))
              (λ t. All (λ y. Done y t) (x ∷ xs)) (does (x ∷ xs)) s h

    deliver-Handled :
        (mode : Mode) (ms : List KafkaMessage) (s : S)
        → All
            (Handled (deliver json wait handle mode ms s).1)
            (take (deliver json wait handle mode ms s).0 ms)
    unfolding deliver each_in_turn
    deliver-Handled run [] s = tt
    deliver-Handled run (m ∷ ms) s =
        elim (Bool-cases (each_message json wait (one json wait handle) m s).0) [
          | inl e ↦
              let s' = (each_message json wait (one json wait handle) m s).1 in
              rw e
                (Handled-keeps run m ms s' (each_message-Handled m s e), deliver-Handled run ms s')
          | inr e ↦ rw e tt
        ]
    deliver-Handled run_batch ms s = elim (Bool-cases (each_batch json wait handle ms s).0) [
      | inl e ↦ rw e (All-take _ (length ms) ms (each_batch-Handled ms s e))
      | inr e ↦ rw e tt
    ]

    -- What was handled before the position is handled after any rounds, and all that the position
    -- has moved over since.
    pub rounds-Handled :
        (mode : Mode) (log : List KafkaMessage) (rs : List Round) (p : Partition S)
        → All (Handled p.world) (take p.position log)
        → let q = rounds json wait handle mode log rs p in
          All (Handled q.world) (take q.position log)
    unfolding rounds round deliver
    rounds-Handled mode log [] p h = h
    rounds-Handled mode log (r ∷ rs) p h =
        rounds-Handled mode log rs (round json wait handle mode log r p) (round-Handled r)
      where
        All-Handled :
            (ms : List KafkaMessage) (xs : List KafkaMessage)
            → All (Handled p.world) xs
            → All (Handled (deliver json wait handle mode ms p.world).1) xs
        All-Handled ms [] a = tt
        All-Handled ms (x ∷ xs) a = (Handled-keeps mode x ms p.world a.0, All-Handled ms xs a.1)

        round-Handled :
            (r : Round)
            → let q = round json wait handle mode log r p in
              All (Handled q.world) (take q.position log)
        round-Handled (reassigned k) =
            All-take-le _ (min k p.position) p.position log (omega arith) h
        round-Handled (fetched n) =
            let ms = take n (drop p.position log) in
            let k = (deliver json wait handle mode ms p.world).0 in
            All-take-add _ p.position k n (p.position + k) log (omega arith)
              (omega (
                arith,
                deliver-le json wait handle mode ms p.world,
                length-take-le n (drop p.position log),
              ))
              (All-Handled ms (take p.position log) h) (deliver-Handled mode ms p.world)
