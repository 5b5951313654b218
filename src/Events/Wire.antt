-- ===== src/Events/Wire.antt =====
-- What a producer writes is what a consumer reads (packages/events/src/producer.ts, emit;
-- packages/events/src/consumer.ts, parseEnvelope).
use mathlib.Core.Path.{subst}
use mathlib.Core.List.{append_assoc}
use xitter.Prelude.{
  ℕ, zero, suc, ◌+◌, ◌≤◌, ap, ◌∙◌, is_some, ◌≡◌, inl, inr, refl, sym, Bool, true, false, none, some,
  List, ◌∷◌, ◌++◌, Option-cases, arith,
}
use xitter.Events.{
  Text, Json, EventEnvelope, EmitInput, Sent, SendOutcome, accepted, failed, disconnected, copies,
  check_envelope, parse_envelope, enveloped, fields_of, envelope_messages, send_again, emit,
}

copies-append : (n k : ℕ) (m : Sent) → copies n m ++ copies k m ≡ copies (n + k) m
copies-append zero k m = let e : 0 + k ≡ k = omega arith in rw e refl
copies-append (suc n) k m =
    let e : suc n + k ≡ suc (n + k) = omega arith in rw e (ap (λ c. m ∷ c) (copies-append n k m))

copies-add :
    (n k : ℕ) (m : Sent) (log : List Sent)
    → (log ++ copies n m) ++ copies k m ≡ log ++ copies (n + k) m
copies-add n k m log =
    append_assoc log (copies n m) (copies k m) ∙ ap (λ c. log ++ c) (copies-append n k m)

module _ (json : Json) where
  -- The envelope that the event has if it is fit to be sent.
  abbrev pub envelope_of : Text → EmitInput → EventEnvelope
  envelope_of id event = record {
    event_id = id;
    event_type = event.event_type;
    event_version = 1;
    producer = event.producer;
    occurred_at = event.occurred_at;
    payload = event.payload;
  }

  -- A message with which the consumer gets that envelope back, under the key of the event.
  pub record Carries (id : Text) (event : EmitInput) (m : Sent) : Type 0 where
    pub reads :
        (offset : ℕ)
        → parse_envelope json (record { offset = offset; value = some m.value })
          ≡ some (envelope_of id event)
    pub key : m.key ≡ elim event.key [ none ↦ event.event_type | some k ↦ k ]

  check_enveloped :
      (id : Text) (event : EmitInput) {e : EventEnvelope}
      → check_envelope json (enveloped json id event) ≡ some e
      → e ≡ envelope_of id event
  unfolding check_envelope
  check_enveloped id event h = ground arith

  check_fields_of :
      (id : Text) (event : EmitInput) {e : EventEnvelope}
      → check_envelope json (enveloped json id event) ≡ some e
      → check_envelope json (fields_of json (envelope_of id event)) ≡ some (envelope_of id event)
  unfolding check_envelope
  check_fields_of id event h = ground arith

  message_Carries :
      (id : Text) (event : EmitInput) {e : EventEnvelope}
      → check_envelope json (enveloped json id event) ≡ some e
      → Carries id event (envelope_messages json event e)
  unfolding parse_envelope
  message_Carries id event h =
      subst (λ x. Carries id event (envelope_messages json event x))
        (sym (check_enveloped id event h))
        (record {
          reads = λ offset.
              rw (json.parse-stringify (fields_of json (envelope_of id event)))
                (check_fields_of id event h);
          key = refl;
        })

  -- What `emit` comes to: nothing was sent, or the log got copies of one message of the event, at
  -- least one where `emit` resolves.
  pub record IsEmitted (id : Text) (event : EmitInput) (log : List Sent) (r : Bool × List Sent)
      : Type 0 where
    pub message : Sent
    pub carried : Carries id event message
    pub count : ℕ
    pub log_after : r.1 ≡ log ++ copies count message
    pub sent : r.0 ≡ true → 1 ≤ count

  unsent :
      (n : ℕ) (id : Text) (event : EmitInput) (m : Sent) (log : List Sent)
      → Carries id event m
      → IsEmitted id event log (false, log ++ copies n m)
  unsent n id event m log c = record {
    message = m;
    carried = c;
    count = n;
    log_after = refl;
    sent = λ h. absurd (cc h);
  }

  repeated :
      (n k : ℕ) (id : Text) (event : EmitInput) (m : Sent) (log : List Sent)
      → Carries id event m
      → IsEmitted id event log (false, (log ++ copies n m) ++ copies k m)
  repeated n k id event m log c = rw (copies-add n k m log) (unsent (n + k) id event m log c)

  sent_lem :
      (a : SendOutcome) (connects : Bool) (b : SendOutcome) (id : Text) (event : EmitInput)
      (m : Sent) (log : List Sent)
      → Carries id event m
      → IsEmitted id event log (send_again json a connects b m log)
  sent_lem (accepted n) connects b id event m log c = record {
    message = m;
    carried = c;
    count = suc n;
    log_after = refl;
    sent = λ h. omega arith;
  }
  sent_lem (failed n) connects b id event m log c = unsent n id event m log c
  sent_lem (disconnected n) false b id event m log c = unsent n id event m log c
  sent_lem (disconnected n) true (accepted k) id event m log c = record {
    message = m;
    carried = c;
    count = n + suc k;
    log_after = copies-add n (suc k) m log;
    sent = λ h. omega arith;
  }
  sent_lem (disconnected n) true (failed k) id event m log c = repeated n k id event m log c
  sent_lem (disconnected n) true (disconnected k) id event m log c = repeated n k id event m log c

  -- Whatever becomes of the sends, and however many copies of a message each of them leaves: all that
  -- `emit` adds to the log are copies of one message, and a consumer that parses that message gets the
  -- envelope of the event, under its id and with version 1; so nothing that is sent is poison. Where
  -- `emit` resolves at least one copy is there. An event that the schema rejects is not sent, and
  -- `emit` throws.
  pub emit_lem :
      (id : Text) (first : SendOutcome) (connects : Bool) (second : SendOutcome) (event : EmitInput)
      (log : List Sent)
      → let fit = is_some (check_envelope json (enveloped json id event)) in
        let r = emit json id first connects second event log in
        (fit ≡ false → r ≡ (false, log)) × (fit ≡ true → IsEmitted id event log r)
  unfolding emit
  emit_lem id first connects second event log =
      elim (Option-cases (check_envelope json (enveloped json id event))) [
        | inl bad ↦ (λ h. rw (bad, emit) refl, λ h. absurd (cc (rw bad at h)))
        | inr (e, good) ↦ (
          λ h. absurd (cc (rw good at h)),
          λ h.
              rw (good, emit)
                (sent_lem first connects second id event (envelope_messages json event e) log
                  (message_Carries id event good)),
        )
      ]
