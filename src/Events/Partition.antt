-- ===== src/Events/Partition.antt =====
-- A partition that is consumed (packages/events/src/consumer.ts, run and runBatch). kafkajs hands a
-- fetched stretch of the log to the consumer from its position on, moves the position over what is
-- resolved, stops at what throws, and fetches from the position again. When a partition is assigned
-- anew the position may fall back to an earlier one that was committed.
use xitter.Prelude.{
  ℕ, suc, ◌+◌, ◌≤◌, min, Bool, List, [], ◌∷◌, take, drop, length, if◌then◌else◌, arith,
}
use xitter.Events.{Json, EventEnvelope, KafkaMessage, each_message, each_batch}

pub data Mode : Type 0 where
  run run_batch : Mode

pub data Round : Type 0 where
  fetched reassigned : ℕ → Round

pub record Partition (S : Type 0) : Type 0 where
  pub position : ℕ
  pub world : S

module _ (json : Json) {S : Type 0} (wait : ℕ → S → S)
    (handle : List (EventEnvelope × KafkaMessage) → S → Bool × S) where
  abbrev pub one : EventEnvelope → KafkaMessage → S → Bool × S
  one e m s = handle ((e, m) ∷ []) s

  -- How many of the messages are resolved.
  unfoldable pub each_in_turn : List KafkaMessage → S → ℕ × S
  each_in_turn [] s = (0, s)
  each_in_turn (m ∷ ms) s =
      let (ok, s') = each_message json wait one m s in
      let rest = each_in_turn ms s' in if ok then (suc rest.0, rest.1) else (0, s')

  unfoldable pub deliver : Mode → List KafkaMessage → S → ℕ × S
  deliver run ms s = each_in_turn ms s
  deliver run_batch ms s =
      let (ok, s') = each_batch json wait handle ms s in (if ok then length ms else 0, s')

  unfoldable pub round : Mode → List KafkaMessage → Round → Partition S → Partition S
  round mode log (fetched n) p =
      let (k, w) = deliver mode (take n (drop p.position log)) p.world in
      record { position = p.position + k; world = w }
  round mode log (reassigned k) p = record p { position = min k p.position }

  unfoldable pub rounds : Mode → List KafkaMessage → List Round → Partition S → Partition S
  rounds mode log [] p = p
  rounds mode log (r ∷ rs) p = rounds mode log rs (round mode log r p)

  pub deliver-le :
      (mode : Mode) (ms : List KafkaMessage) (s : S) → (deliver mode ms s).0 ≤ length ms
  unfolding deliver each_in_turn
  deliver-le run [] s = omega arith
  deliver-le run (m ∷ ms) s = ground (arith, deliver-le run ms (each_message json wait one m s).1)
  deliver-le run_batch ms s = ground arith
