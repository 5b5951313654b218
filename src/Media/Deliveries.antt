-- ===== src/Media/Deliveries.antt =====
-- What the deliveries of one upload's event come to, whichever calls fail
-- (apps/workers/media-process/src/handlers.ts).
use xitter.Prelude.{
  ℕ, suc, ◌+◌, ◌≤◌, ◌<◌, ◌≡◌, refl, Bool, true, false, Option, none, some, List, [], ◌∷◌, length,
  find?, arith, Option-cases, inl, inr,
}
use xitter.Http.{ok, Result-cases}
use xitter.Fanout.{answered, lost}
use xitter.Media.{
  MediaDb, MediaRow, Media, Env, VariantRecord, is_media, processed, require_existing,
  record_variants, report_failure, max_process_attempts,
}
use xitter.Media.Rows.{find?-map_where, require_existing_lem}
use xitter.Media.Lifecycle.{
  ready_row, attempted_row, edit, publish, gone, record_variants_lem, report_failure_lem,
}
use xitter.Media.Worker.{
  World, Storage, is_pending, call, process, give_up, finish, handle_event, deliver,
}

-- The row of an image is there, and it waits for its variants.
abbrev pub waits : ℕ → Media → Bool
waits id s = elim (find? (is_media id) s.assets) [ none ↦ false | some r ↦ is_pending r.status ]

-- The failures that were counted.
abbrev pub attempts : ℕ → Media → ℕ
attempts id s = elim (find? (is_media id) s.assets) [ none ↦ 0 | some r ↦ r.attempts ]

module _ (db : MediaDb) (env : Env) where
  reported_waits :
      (id : ℕ) (s : Media) (r : MediaRow)
      → (report_failure db id s).0 ≡ ok r
      → waits id (report_failure db id s).1 ≡ is_pending r.status
  reported_waits id s r = ground (
    arith,
    report_failure_lem db id s,
    find?-map_where id (attempted_row true) s.assets (λ x. refl),
    find?-map_where id (attempted_row false) s.assets (λ x. refl),
  )

  recorded_waits :
      (id : ℕ) (variants : List VariantRecord) (s : Media) (r : MediaRow)
      → (record_variants db env id variants s).0 ≡ ok r
      → waits id (record_variants db env id variants s).1 ≡ false
  recorded_waits id variants s r = ground (
    arith,
    record_variants_lem db env id variants s,
    find?-map_where id (ready_row variants) s.assets (λ x. refl),
  )

  give_up_settles :
      (id : ℕ) (w : World)
      → let (done, w') = give_up db env id w in done ≡ true → waits id w'.media ≡ false
  unfolding give_up call
  give_up_settles id w = elim (Result-cases (report_failure db id w.media).0) [
    | inl (e, h) ↦ ground arith
    | inr (r, h) ↦ ground (arith, reported_waits id w.media r h)
  ]

  finish_settles :
      (id : ℕ) (variants : Option (List VariantRecord)) (w : World)
      → let (done, w') = finish db env id variants w in done ≡ true → waits id w'.media ≡ false
  unfolding finish call
  finish_settles id none w = give_up_settles id w
  finish_settles id (some variants) w =
      elim (Result-cases (record_variants db env id variants w.media).0) [
        | inl (e, h) ↦
            ground (arith, give_up_settles id (call (record_variants db env id variants) w).1)
        | inr (r, h) ↦ ground (
          arith,
          recorded_waits id variants w.media r h,
          give_up_settles id (call (record_variants db env id variants) w).1,
        )
      ]

  -- Calls that are all answered.
  give_up_calm :
      (id : ℕ) (w : World)
      → w.script ≡ []
      → waits id w.media ≡ true
      → let (done, w') = give_up db env id w in
        (w'.script ≡ [])
        × (done ≡ false
            → (waits id w'.media ≡ true)
              × (attempts id w'.media ≡ suc (attempts id w.media))
              × (attempts id w'.media < max_process_attempts))
  unfolding give_up call
  give_up_calm id w e h = ground (
    arith,
    report_failure_lem db id w.media,
    find?-map_where id (attempted_row true) w.media.assets (λ x. refl),
    find?-map_where id (attempted_row false) w.media.assets (λ x. refl),
  )

  pub handle_event_settles :
      (storage : Storage) (id : ℕ) (w : World)
      → let (done, w') = handle_event db env storage id w in done ≡ true → waits id w'.media ≡ false
  unfolding handle_event call
  handle_event_settles storage id w = elim (Option-cases (find? (is_media id) w.media.assets)) [
    | inl e ↦ ground (arith, require_existing_lem db id w.media)
    | inr (r, e) ↦ ground (
      arith,
      require_existing_lem db id w.media,
      finish_settles id (process storage r) (call (require_existing db id) w).1,
    )
  ]

  finish_calm :
      (id : ℕ) (variants : Option (List VariantRecord)) (w : World)
      → w.script ≡ []
      → waits id w.media ≡ true
      → let (done, w') = finish db env id variants w in
        (w'.script ≡ [])
        × (done ≡ false
            → (waits id w'.media ≡ true)
              × (attempts id w'.media ≡ suc (attempts id w.media))
              × (attempts id w'.media < max_process_attempts))
  unfolding finish call
  finish_calm id none w e h = give_up_calm id w e h
  finish_calm id (some variants) w e h =
      ground (arith, record_variants_lem db env id variants w.media)

  handle_event_calm :
      (storage : Storage) (id : ℕ) (w : World)
      → w.script ≡ []
      → let (done, w') = handle_event db env storage id w in
        (w'.script ≡ [])
        × (done ≡ false
            → (waits id w'.media ≡ true)
              × (attempts id w'.media ≡ suc (attempts id w.media))
              × (attempts id w'.media < max_process_attempts))
  unfolding handle_event call
  handle_event_calm storage id w e = elim (Option-cases (find? (is_media id) w.media.assets)) [
    | inl gone_already ↦ ground (arith, require_existing_lem db id w.media)
    | inr (r, there) ↦ ground (
      arith,
      require_existing_lem db id w.media,
      finish_calm id (process storage r) (record w { script = [] }),
    )
  ]

  settled :
      (storages : List Storage) (id : ℕ) (w : World)
      → w.script ≡ []
      → 1 ≤ length storages
      → max_process_attempts ≤ length storages + attempts id w.media
      → (deliver db env storages id w).0 ≡ true
  unfolding deliver
  settled [] id w e some_left enough = ground (arith, some_left)
  settled (storage ∷ []) id w e some_left enough = ground (arith, handle_event_calm storage id w e)
  settled (storage ∷ next ∷ later) id w e some_left enough = ground (
    arith,
    handle_event_calm storage id w e,
    settled (next ∷ later) id (handle_event db env storage id w).1,
  )

  deliver_settles :
      (storages : List Storage) (id : ℕ) (w : World)
      → let (done, w') = deliver db env storages id w in done ≡ true → waits id w'.media ≡ false
  unfolding deliver
  deliver_settles [] id w = ground arith
  deliver_settles (storage ∷ later) id w = ground (
    arith,
    handle_event_settles storage id w,
    deliver_settles later id (handle_event db env storage id w).1,
  )

  -- Whatever the storage does in each delivery, three deliveries of an upload's event are enough if the
  -- calls of the media service are answered: the offset is committed, and the image is then no longer
  -- waiting for its variants.
  pub deliver-enough :
      (storages : List Storage) (id : ℕ) (w : World)
      → w.script ≡ []
      → 3 ≤ length storages
      → let (done, w') = deliver db env storages id w in (done ≡ true) × (waits id w'.media ≡ false)
  deliver-enough storages id w e enough =
      let done = settled storages id w e (omega (arith, enough)) (omega (arith, enough)) in
      (done, deliver_settles storages id w done)

  -- Whichever calls of the media service are refused or lose their answer, and whatever the storage
  -- does: if an upload's event is committed, then the image is no longer waiting for its variants.
  pub deliver-committed :
      (storages : List Storage) (id : ℕ) (w : World)
      → (deliver db env storages id w).0 ≡ true
      → waits id (deliver db env storages id w).1.media ≡ false
  deliver-committed = deliver_settles

  -- For a waiting image that failed twice before and whose variants are derived this time: if they are
  -- recorded but the answer is lost, then the report that follows fails the image and has its original
  -- removed, and the event is committed.
  pub handle_event-lost :
      (storage : Storage) (id : ℕ) (w : World) (r : MediaRow) (variants : List VariantRecord)
      → find? (is_media id) w.media.assets ≡ some r
      → is_pending r.status ≡ true
      → 2 ≤ r.attempts
      → process storage r ≡ some variants
      → w.script ≡ answered ∷ lost ∷ []
      → let (done, w') = handle_event db env storage id w in
        (done ≡ true)
        × (w'.media
            ≡ gone r.object_key (
                edit id
                  (attempted_row true)
                  (publish env (processed id) (edit id (ready_row variants) w.media))))
  unfolding handle_event finish give_up call
  handle_event-lost storage id w r variants there wait twice derived script = ground (
    arith,
    require_existing_lem db id w.media,
    record_variants_lem db env id variants w.media,
    report_failure_lem db id (publish env (processed id) (edit id (ready_row variants) w.media)),
    find?-map_where id (ready_row variants) w.media.assets (λ x. refl),
  )
