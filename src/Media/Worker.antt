-- ===== src/Media/Worker.antt =====
-- The media worker (apps/workers/media-process/src/handlers.ts), which turns an upload into its
-- variants and tells the media service. A call of the service is carried out and answered, refused, or
-- carried out with its answer lost; where the script ends, every call is answered. What the object
-- storage and the image library do in one delivery is a parameter, `none` where they fail.
use xitter.Prelude.{ℕ, Bool, true, false, Option, none, some, List, [], ◌∷◌, find?, if◌then◌else◌}
use xitter.Http.{not_found, Result, ok, err, Action}
use xitter.Fanout.{Outcome, answered, refused, lost}
use xitter.Media.{
  MediaDb, MediaRow, Media, Env, Status, pending, ObjectKey, original, thumb, VariantRecord,
  require_existing, record_variants, report_failure, is_failed,
}

pub record World : Type 0 where
  pub media : Media
  pub script : List Outcome

-- Contents are numbered.
pub record Storage : Type 0 where
  pub get : ObjectKey → Option ℕ
  pub derive : ℕ → MediaRow → Option (List VariantRecord × ℕ)
  pub put : ObjectKey → ℕ → Bool

abbrev pub is_pending : Status → Bool
is_pending pending = true
is_pending _ = false

abbrev pub is_thumb : VariantRecord → Bool
is_thumb v = elim v.kind [ original ↦ false | thumb ↦ true ]

-- `none` where no answer arrives.
unfoldable pub call : {A : Type 0} → Action Media A → World → Option (Result A) × World
call m w =
    let (r, done) = m w.media in
    elim w.script [
      | [] ↦ (some r, record w { media = done })
      | answered ∷ rest ↦ (some r, record w { media = done; script = rest })
      | refused ∷ rest ↦ (none, record w { script = rest })
      | lost ∷ rest ↦ (none, record w { media = done; script = rest })
    ]

-- The original is read, its variants are derived, and the thumb is stored.
unfoldable pub process : Storage → MediaRow → Option (List VariantRecord)
process storage row = elim (storage.get row.object_key) [
  | none ↦ none
  | some content ↦ elim (storage.derive content row) [
    | none ↦ none
    | some (variants, thumb_bytes) ↦ elim (find? is_thumb variants) [
      | none ↦ some variants
      | some v ↦ if storage.put v.object_key thumb_bytes then some variants else none
    ]
  ]
]

module _ (db : MediaDb) (env : Env) where
  -- Whether the failure is the last that is allowed.
  unfoldable pub give_up : ℕ → World → Bool × World
  give_up id w =
      let (reply, w') = call (report_failure db id) w in
      elim reply [
        | none ↦ (false, w')
        | some (err e) ↦ (false, w')
        | some (ok r) ↦ (is_failed r.status, w')
      ]

  unfoldable pub finish : ℕ → Option (List VariantRecord) → World → Bool × World
  finish id none w = give_up id w
  finish id (some variants) w =
      let (reply, w') = call (record_variants db env id variants) w in
      elim reply [ none ↦ give_up id w' | some (err e) ↦ give_up id w' | some (ok r) ↦ (true, w') ]

  -- One delivery of the event of an upload: whether its offset is committed, and the world after it.
  unfoldable pub handle_event : Storage → ℕ → World → Bool × World
  handle_event storage id w =
      let (reply, w') = call (require_existing db id) w in
      elim reply [
        | none ↦ (false, w')
        | some (err not_found) ↦ (true, w')
        | some (err _) ↦ (false, w')
        | some (ok r) ↦ if is_pending r.status then finish id (process storage r) w' else (true, w')
      ]

  -- The event is delivered until its offset is committed, with what the storage does each time.
  unfoldable pub deliver : List Storage → ℕ → World → Bool × World
  deliver [] id w = (false, w)
  deliver (storage ∷ later) id w =
      let (done, w') = handle_event storage id w in
      let again = deliver later id w' in if done then (true, w') else again
