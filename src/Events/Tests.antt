-- ===== src/Events/Tests.antt =====
-- A format that meets the laws of JSON, and the events of a small log (packages/events/src).
use xitter.Prelude.{
  is_some, ℕ, zero, suc, ◌≡◌, refl, Bool, true, false, not, Option, none, some, List, [], ◌∷◌, All,
  take, length, ltb, ◌==◌, if◌then◌else◌, is_empty,
}
use xitter.Gate.{Gate, fresh_gate, pausing, paused, set_ex}
use xitter.Events.{
  Text, Fields, no_fields, Json, KafkaMessage, EmitInput, disconnected, accepted, enveloped, emit,
  check_envelope, parse_envelope, parse_all, run_with_inline_retry, retry, each_message, each_batch,
}
use xitter.Events.Wire.{IsEmitted, emit_lem}
use xitter.Events.Partition.{
  run, run_batch, Round, fetched, reassigned, Partition, rounds, round, deliver, each_in_turn,
}
use xitter.Events.Resolved.{Event, IsResolved, recorded, waits, rounds-IsResolved}
use xitter.Events.Retry.{third}
use xitter.Events.Worker.{tracked, polled, retried_while_paused}

-- A text is written with each code unit raised by one, up to a zero.
abbrev put_units : Text → Text → Text
put_units [] rest = 0 ∷ rest
put_units (c ∷ cs) rest = suc c ∷ put_units cs rest

abbrev put_text : Option Text → Text → Text
put_text none rest = 0 ∷ rest
put_text (some t) rest = 1 ∷ put_units t rest

abbrev put_number : Option ℕ → Text → Text
put_number none rest = 0 ∷ rest
put_number (some n) rest = suc n ∷ rest

abbrev get_units : Text → Text × Text
get_units [] = ([], [])
get_units (zero ∷ rest) = ([], rest)
get_units (suc c ∷ rest) = let (t, end) = get_units rest in (c ∷ t, end)

abbrev get_text : Text → Option Text × Text
get_text [] = (none, [])
get_text (zero ∷ rest) = (none, rest)
get_text (suc c ∷ rest) = let (t, end) = get_units rest in (some t, end)

abbrev get_number : Text → Option ℕ × Text
get_number [] = (none, [])
get_number (zero ∷ rest) = (none, rest)
get_number (suc n ∷ rest) = (some n, rest)

abbrev write_fields : Fields → Text
write_fields f = put_text f.event_id (
    put_text f.event_type (
      put_number f.event_version
        (put_text f.producer (put_text f.occurred_at (put_number f.payload [])))))

abbrev read_fields : Text → Fields
read_fields t₀ =
    let (id, t₁) = get_text t₀ in
    let (type, t₂) = get_text t₁ in
    let (version, t₃) = get_number t₂ in
    let (producer, t₄) = get_text t₃ in
    let (at, t₅) = get_text t₄ in
    record {
      event_id = id;
      event_type = type;
      event_version = version;
      producer = producer;
      occurred_at = at;
      payload = (get_number t₅).0;
    }

abbrev starts_low : Text → Bool
starts_low [] = false
starts_low (c ∷ cs) = ltb c 2

abbrev read_object : Text → Option Fields
read_object t = some (if starts_low t then read_fields t else no_fields)

get-put_units : (t rest : Text) → get_units (put_units t rest) ≡ (t, rest)
get-put_units [] rest = refl
get-put_units (c ∷ cs) rest = rw (get-put_units cs rest)

get-put_text : (t : Option Text) (rest : Text) → get_text (put_text t rest) ≡ (t, rest)
get-put_text none rest = refl
get-put_text (some t) rest = rw (get-put_units t rest)

get-put_number : (n : Option ℕ) (rest : Text) → get_number (put_number n rest) ≡ (n, rest)
get-put_number none rest = refl
get-put_number (some n) rest = refl

starts_low-put : (t : Option Text) (rest : Text) → starts_low (put_text t rest) ≡ true
starts_low-put none rest = refl
starts_low-put (some t) rest = refl

read_write : (f : Fields) → read_object (write_fields f) ≡ some f
read_write f = simp (starts_low-put, get-put_text, get-put_number)

abbrev json : Json
json = record {
  parse = read_object;
  stringify = write_fields;
  is_uuid = λ t. length t == 2;
  is_datetime = λ t. not (is_empty t);
  parse-stringify = read_write;
  parse-empty_object = refl;
}

abbrev followed : EmitInput
followed = record {
  event_type = 7 ∷ [];
  producer = 8 ∷ [];
  occurred_at = 9 ∷ [];
  payload = some 5;
  key = none;
}

abbrev id : Text
id = 1 ∷ 2 ∷ []

-- The first send finds the producer disconnected, and the second leaves two copies.
emit_lem_example :
    let r = emit json id (disconnected 0) true (accepted 1) followed [] in
    (is_some (check_envelope json (enveloped json id followed)) ≡ false → r ≡ (false, []))
    × (is_some (check_envelope json (enveloped json id followed)) ≡ true
        → IsEmitted json id followed [] r)
emit_lem_example = emit_lem json id (disconnected 0) true (accepted 1) followed []

reconnected : (emit json id (disconnected 0) true (accepted 1) followed []).0 ≡ true
unfolding emit check_envelope
reconnected = refl

unfit : emit json (1 ∷ []) (accepted 0) true (accepted 0) followed [] ≡ (false, [])
unfolding emit check_envelope
unfit = refl

abbrev good : ℕ → KafkaMessage
good offset = record {
  offset = offset;
  value = some (
      write_fields (record {
        event_id = some id;
        event_type = some (7 ∷ []);
        event_version = some 1;
        producer = some (8 ∷ []);
        occurred_at = some (9 ∷ []);
        payload = none;
      }));
}

abbrev poison : ℕ → KafkaMessage
poison offset = record { offset = offset; value = none }

abbrev small_log : List KafkaMessage
small_log = good 0 ∷ poison 1 ∷ good 2 ∷ []

-- The world counts the calls; the first three throw.
abbrev fourth_try : List Event → ℕ → Bool × ℕ
fourth_try xs calls = (not (ltb calls 3), suc calls)

abbrev no_wait : ℕ → ℕ → ℕ
no_wait ms s = s

abbrev some_rounds : List Round
some_rounds = fetched 3 ∷ fetched 2 ∷ reassigned 1 ∷ fetched 2 ∷ []

abbrev ends : Partition (ℕ × List (List Event))
ends =
    rounds json (waits json no_wait fourth_try) (recorded json no_wait fourth_try) run small_log
      some_rounds (record { position = 0; world = (0, []) })

rounds-IsResolved_example :
    All (IsResolved json no_wait fourth_try ends.world.1) (take ends.position small_log)
rounds-IsResolved_example = rounds-IsResolved json no_wait fourth_try run small_log some_rounds 0

-- The first message is resolved at the fourth call, the last one at the fifth.
at_the_end : (ends.position ≡ 3) × (ends.world.0 ≡ 5)
unfolding rounds round deliver each_in_turn each_message run_with_inline_retry retry parse_envelope
    check_envelope
at_the_end = (refl, refl)

abbrev poisoned : Partition ℕ
poisoned =
    round json no_wait fourth_try run_batch (poison 0 ∷ poison 1 ∷ []) (fetched 2)
      (record { position = 0; world = 0 })

batch_of_poison : (poisoned.position ≡ 2) × (poisoned.world ≡ 0)
unfolding round deliver parse_all parse_envelope check_envelope each_batch
batch_of_poison = (refl, refl)

abbrev draining : Gate
draining = record fresh_gate {
  state = pausing;
  known_epoch = some 1;
  assignment = record { topic = 0; partitions = 0 ∷ [] } ∷ [];
}

abbrev throws : List Event → Gate × ℕ → Bool × (Gate × ℕ)
throws xs (g, s) = (false, (g, suc s))

abbrev begins_last : Gate × ℕ
begins_last = third (polled 60000 1 5 6) (tracked throws []) (draining, 0)

retried_while_paused_example :
    (begins_last.0.state ≡ paused)
    × (begins_last.0.calls ≡ set_ex (some 1) ∷ [])
    × (run_with_inline_retry (polled 60000 1 5 6) (tracked throws []) (draining, 0)
        ≡ tracked throws [] begins_last)
unfolding tracked
retried_while_paused_example =
    retried_while_paused throws [] (λ w. refl) 60000 1 5 6 draining 0 refl refl refl refl refl
