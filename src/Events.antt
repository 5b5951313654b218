-- ===== src/Events.antt =====
-- Producing and consuming events (packages/events/src: envelope.ts, producer.ts, consumer.ts). JSON, the
-- formats of zod and kafkajs are not part of the repository: JSON and the formats are a record with
-- their documented behaviour as laws, and what the broker answers is an argument. A text is the list of
-- its code units, a payload is only passed on.
pub mod Wire
pub mod Retry
pub mod Partition
pub mod Handled
pub mod Resolved
pub mod Worker
mod Tests
use xitter.Prelude.{
  ℕ, zero, suc, ◌+◌, ◌*◌, ◌≡◌, Bool, true, false, ◌&&◌, Option, none, some, List, [], ◌∷◌, ◌++◌,
  if◌then◌else◌, is_empty, not, ◌==◌,
}

abbrev pub Text : Type 0
Text = List ℕ

-- The members of an object that matter; `none` where one is missing or of another type.
pub record Fields : Type 0 where
  pub event_id : Option Text
  pub event_type : Option Text
  pub event_version : Option ℕ
  pub producer : Option Text
  pub occurred_at : Option Text
  pub payload : Option ℕ

-- '{}'
abbrev pub empty_object : Text
empty_object = 123 ∷ 125 ∷ []

abbrev pub no_fields : Fields
no_fields = record {
  event_id = none;
  event_type = none;
  event_version = none;
  producer = none;
  occurred_at = none;
  payload = none;
}

-- `parse` is `none` where `JSON.parse` throws or gives no object.
pub record Json : Type 0 where
  pub parse : Text → Option Fields
  pub stringify : Fields → Text
  pub is_uuid : Text → Bool
  pub is_datetime : Text → Bool
  pub parse-stringify : (f : Fields) → parse (stringify f) ≡ some f
  pub parse-empty_object : parse empty_object ≡ some no_fields

pub record EventEnvelope : Type 0 where
  pub event_id : Text
  pub event_type : Text
  pub event_version : ℕ
  pub producer : Text
  pub occurred_at : Text
  pub payload : Option ℕ

pub record KafkaMessage : Type 0 where
  pub offset : ℕ
  pub value : Option Text

pub record EmitInput : Type 0 where
  pub event_type : Text
  pub producer : Text
  pub occurred_at : Text
  pub payload : Option ℕ
  pub key : Option Text

-- What stands in the log: the key decides the partition.
pub record Sent : Type 0 where
  pub key : Text
  pub value : Text
  pub event_type : Text

-- What a send comes to. The producer of kafkajs repeats a request by itself and is not idempotent, so
-- that the log may get any number of copies: a send that resolves has added one and so many more; one
-- that rejects, because the producer is disconnected or for another reason, has added so many.
pub data SendOutcome : Type 0 where
  accepted failed disconnected : ℕ → SendOutcome

abbrev pub copies : ℕ → Sent → List Sent
copies zero m = []
copies (suc n) m = m ∷ copies n m

infixl 5 ◌>>=◌
abbrev ◌>>=◌ : {A B : Type 0} → Option A → (A → Option B) → Option B
none >>= f = none
some a >>= f = f a

-- A handler changes the world and resolves (`true`) or throws; `wait` is what goes on for the
-- milliseconds of a pause.
module _ {S : Type 0} (wait : ℕ → S → S) where
  -- From the given attempt, with so many more to come.
  unfoldable pub retry : ℕ → ℕ → (S → Bool × S) → S → Bool × S
  retry zero attempt handle s = handle s
  retry (suc n) attempt handle s =
      let (ok, s') = handle s in
      let again = retry n (suc attempt) handle (wait (500 * (attempt + 1)) s') in
      if ok then (true, s') else again

  unfoldable pub run_with_inline_retry : (S → Bool × S) → S → Bool × S
  run_with_inline_retry handle s = retry 2 0 handle s

module _ (json : Json) where
  -- A member that is a text with the given property.
  abbrev pub text_where : (Text → Bool) → Option Text → Option Text
  text_where p none = none
  text_where p (some t) = if p t then some t else none

  abbrev pub version_one : Option ℕ → Option ℕ
  version_one none = none
  version_one (some v) = if v == 1 then some v else none

  -- `eventEnvelopeSchema`
  unfoldable pub check_envelope : Fields → Option EventEnvelope
  check_envelope f = do
    event_id ← text_where json.is_uuid f.event_id
    event_type ← text_where (λ t. not (is_empty t)) f.event_type
    event_version ← version_one f.event_version
    producer ← text_where (λ t. not (is_empty t)) f.producer
    occurred_at ← text_where json.is_datetime f.occurred_at
    some (record {
      event_id = event_id;
      event_type = event_type;
      event_version = event_version;
      producer = producer;
      occurred_at = occurred_at;
      payload = f.payload;
    })

  abbrev pub or_empty : Option Text → Text
  or_empty none = empty_object
  or_empty (some t) = t

  unfoldable pub parse_envelope : KafkaMessage → Option EventEnvelope
  parse_envelope m = do fields ← json.parse (or_empty m.value); check_envelope fields

  -- The envelope of an event, with a fresh id, before it is checked.
  abbrev pub enveloped : Text → EmitInput → Fields
  enveloped id event = record {
    event_id = some id;
    event_type = some event.event_type;
    event_version = some 1;
    producer = some event.producer;
    occurred_at = some event.occurred_at;
    payload = event.payload;
  }

  abbrev pub fields_of : EventEnvelope → Fields
  fields_of e = record {
    event_id = some e.event_id;
    event_type = some e.event_type;
    event_version = some e.event_version;
    producer = some e.producer;
    occurred_at = some e.occurred_at;
    payload = e.payload;
  }

  abbrev pub envelope_messages : EmitInput → EventEnvelope → Sent
  envelope_messages event envelope = record {
    key = elim event.key [ none ↦ envelope.event_type | some k ↦ k ];
    value = json.stringify (fields_of envelope);
    event_type = envelope.event_type;
  }

  abbrev pub send : SendOutcome → Sent → List Sent → Bool × List Sent
  send (accepted n) m log = (true, log ++ copies (suc n) m)
  send (failed n) m log = (false, log ++ copies n m)
  send (disconnected n) m log = (false, log ++ copies n m)

  -- A send that finds the producer disconnected is repeated once, after a new connection.
  abbrev pub send_again : SendOutcome → Bool → SendOutcome → Sent → List Sent → Bool × List Sent
  send_again (disconnected n) true second m log = send second m (log ++ copies n m)
  send_again (disconnected n) false second m log = send (disconnected n) m log
  send_again (accepted n) connects second m log = send (accepted n) m log
  send_again (failed n) connects second m log = send (failed n) m log

  -- Whether `emit` resolves, and the log then.
  unfoldable pub emit :
      Text → SendOutcome → Bool → SendOutcome → EmitInput → List Sent → Bool × List Sent
  emit id first connects second event log = elim (check_envelope (enveloped id event)) [
    | none ↦ (false, log)
    | some envelope ↦ send_again first connects second (envelope_messages event envelope) log
  ]

  -- The messages of a batch that are no poison, in order.
  unfoldable pub parse_all : List KafkaMessage → List (EventEnvelope × KafkaMessage)
  parse_all [] = []
  parse_all (m ∷ ms) = elim (parse_envelope m) [
    | none ↦ parse_all ms
    | some e ↦ (e, m) ∷ parse_all ms
  ]

  module _ {S : Type 0} (wait : ℕ → S → S) where
    unfoldable pub each_message :
        (EventEnvelope → KafkaMessage → S → Bool × S) → KafkaMessage → S → Bool × S
    each_message handler m s = elim (parse_envelope m) [
      | none ↦ (true, s)
      | some e ↦ run_with_inline_retry wait (handler e m) s
    ]

    unfoldable pub each_batch :
        (List (EventEnvelope × KafkaMessage) → S → Bool × S) → List KafkaMessage → S → Bool × S
    each_batch handler messages s =
        let events = parse_all messages in
        if is_empty events then (true, s) else run_with_inline_retry wait (handler events) s
