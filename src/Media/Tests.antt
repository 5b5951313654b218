-- ===== src/Media/Tests.antt =====
-- Runs of the media service and its worker, and their theorems at concrete tables.
use xitter.Prelude.{
  ℕ, ◌≤◌, ◌&&◌, ◌==◌, if◌then◌else◌, ◌≡◌, refl, true, false, none, some, List, [], ◌∷◌, any, find?,
  map_where, count, reject, keep, map, arith,
}
use xitter.Database.Sample.{sample_client}
use xitter.Fanout.{answered, lost}
use xitter.Media
use xitter.Media.{
  MediaRow, MediaDb, Env, png, pending, ready, failed, ObjectKey, original, thumb, VariantRecord,
  found, absent, uploaded, processed, original_object_key, is_media,
}
use xitter.Media.Lifecycle.{ready_row, attempted_row, edit, publish, gone}
use xitter.Media.Invariant
use xitter.Media.Lookup
use xitter.Media.Titles.{retitled, lookup_effect}
use xitter.Http.{is_ok}
use xitter.Media.Valid.{IsValid}
use xitter.Media.Invariant.{
  Request, created, completed, recorded, reported, deleted, looked_up, reseeded,
  run_requests-IsValid,
}
use xitter.Media.Worker
use xitter.Media.Worker.{World, Storage}
use xitter.Media.Deliveries.{waits, deliver-enough, deliver-committed, handle_event-lost}

abbrev db : MediaDb
db = record { asset = sample_client MediaRow }

abbrev env : Env
env = record { fresh_id = 1; now = 50; accepts = λ e. true }

abbrev empty : Media.Media
empty = record { assets = []; audit = []; events = []; removed = [] }

abbrev variants : List VariantRecord
variants =
    record { kind = original; object_key = original_object_key 7 1 png; bytes = 900 }
    ∷ record {
      kind = thumb;
      object_key = record (original_object_key 7 1 png) { variant = thumb };
      bytes = 90;
    }
    ∷ []

abbrev requests : List Request
requests =
    created true 7 (some png) 1000
    ∷ completed 7 1 absent
    ∷ completed 7 1 (found (record { bytes = 900; content_type = some png }))
    ∷ completed 7 1 (found (record { bytes = 900; content_type = some png }))
    ∷ recorded 1 variants
    ∷ looked_up 7 (1 ∷ []) ((1, 44) ∷ (6, 45) ∷ [])
    ∷ created true 8 (some png) 10
    ∷ completed 8 6 (found (record { bytes = 0; content_type = some png }))
    ∷ deleted 3 1
    ∷ []

empty-IsValid : IsValid 1 empty
unfolding count
empty-IsValid = record { rows = tt; once = λ i. omega arith; unused = λ i h. refl }

run_requests-IsValid_example : (m : ℕ) × IsValid m (Invariant.run_requests db env 1 requests empty)
run_requests-IsValid_example = run_requests-IsValid db env 1 requests empty empty-IsValid

-- An upload that is asked for twice is published once.
run_once : (Invariant.run_requests db env 1 requests empty).events ≡ processed 1 ∷ uploaded 1 ∷ []
unfolding Invariant.run_requests Invariant.handle Media.create_upload Media.complete Lookup.lookup
    Lookup.apply_alt_texts Lookup.update_texts Media.find_by_ids keep Media.record_variants
    Media.admin_delete Media.validate_upload_request Media.insert_asset Media.update_asset
    Media.find Media.require_existing Media.require_owned Media.reject_upload Media.remove_object
    Media.remove_objects Media.emit_safe any find? map_where reject
run_once = refl

abbrev row : MediaRow
row = record {
  id = 1;
  owner_id = 7;
  status = pending;
  object_key = original_object_key 7 1 png;
  mime_type = png;
  bytes = 900;
  variants = [];
  attempts = 2;
  uploaded_at = some 40;
  alt_text = none;
  created_at = 30;
}

abbrev two_owners : Media.Media
two_owners = record empty { assets = record row { id = 2; owner_id = 8 } ∷ row ∷ [] }

two_owners_unique : (i : ℕ) → count (is_media i) two_owners.assets ≤ 1
unfolding count
two_owners_unique i = ground arith

lookup_effect_example :
    let (result, s') = Lookup.lookup db 7 (1 ∷ 2 ∷ []) ((1, 44) ∷ (2, 45) ∷ []) two_owners in
    (is_ok result ≡ true)
    × ((i : ℕ) (r : MediaRow)
        → find? (is_media i) two_owners.assets ≡ some r
        → find? (is_media i) s'.assets
          ≡ some (
              if any (λ id. r.id == id) (1 ∷ 2 ∷ []) && (r.owner_id == 7)
              then retitled ((1, 44) ∷ (2, 45) ∷ []) i r
              else r))
lookup_effect_example =
    lookup_effect db 7 (1 ∷ 2 ∷ []) ((1, 44) ∷ (2, 45) ∷ []) two_owners two_owners_unique

-- The alt texts of a lookup are written to the images of its caller, and to no other.
lookup_titles :
    map
      (λ r. r.alt_text)
      (Lookup.lookup db 7 (1 ∷ 2 ∷ []) ((1, 44) ∷ (2, 45) ∷ []) two_owners).1.assets
    ≡ none ∷ some 44 ∷ []
unfolding Lookup.lookup Lookup.apply_alt_texts Lookup.update_texts Media.find_by_ids Media.find
    Media.update_asset any find? map_where keep
lookup_titles = refl

abbrev stored : Media.Media
stored = record empty { assets = row ∷ [] }

abbrev broken_storage : Storage
broken_storage = record { get = λ k. none; derive = λ c r. none; put = λ k c. false }

abbrev storage : Storage
storage = record { get = λ k. some 1; derive = λ c r. some (variants, 2); put = λ k c. true }

abbrev fresh_row : MediaRow
fresh_row = record row { attempts = 0 }

deliver-enough_example :
    let (done, w') =
      Worker.deliver db env
        (broken_storage ∷ broken_storage ∷ broken_storage ∷ [])
        1
        (record { media = record empty { assets = fresh_row ∷ [] }; script = [] }) in
    (done ≡ true) × (waits 1 w'.media ≡ false)
deliver-enough_example =
    deliver-enough db env (broken_storage ∷ broken_storage ∷ broken_storage ∷ []) 1
      (record { media = record empty { assets = fresh_row ∷ [] }; script = [] }) refl (omega arith)

deliver-committed_example :
    waits 1
      (Worker.deliver db env (broken_storage ∷ storage ∷ []) 1 (record {
        media = record empty { assets = fresh_row ∷ [] };
        script = answered ∷ lost ∷ [];
      })).1.media
    ≡ false
unfolding Worker.deliver Worker.handle_event Worker.finish Worker.give_up Worker.process Worker.call
    Media.record_variants Media.report_failure Media.update_asset Media.find Media.require_existing
    Media.remove_object Media.emit_safe any find? map_where
deliver-committed_example =
    deliver-committed db env (broken_storage ∷ storage ∷ []) 1
      (record { media = record empty { assets = fresh_row ∷ [] }; script = answered ∷ lost ∷ [] })
      refl

handle_event-lost_example :
    let (done, w') =
      Worker.handle_event db env storage 1
        (record { media = stored; script = answered ∷ lost ∷ [] }) in
    (done ≡ true)
    × (w'.media
        ≡ gone row.object_key (
            edit 1
              (attempted_row true)
              (publish env (processed 1) (edit 1 (ready_row variants) stored))))
unfolding find? Worker.process
handle_event-lost_example =
    handle_event-lost db env storage 1 (record { media = stored; script = answered ∷ lost ∷ [] })
      row variants refl refl (omega arith) refl refl
