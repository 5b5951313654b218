-- ===== src/Media/Lifecycle.antt =====
-- The handlers of the media service on every branch
-- (apps/services/media/src/modules/media.service.ts).
use xitter.Prelude.{
  ℕ, ◌+◌, ◌≡◌, refl, Bool, true, false, not, Option, none, some, List, ◌∷◌, ◌==◌, leb, ltb,
  if◌then◌else◌, is_some, any, find?, map_where, arith,
}
use xitter.Http.{
  ok, err, bad_request, not_found, payload_too_large, unsupported_media_type, internal,
}
use xitter.Media.{
  MediaRow, MediaDb, Media, MimeType, ready, failed, ObjectKey, Head, broken, absent, found, Env,
  MediaEvent, uploaded, processed, VariantRecord, is_media, is_failed, owned_object_keys,
  admin_delete, remove_objects, is_ready, is_rejected, media_max_bytes, max_process_attempts,
  new_asset, validate_upload_request, create_upload, require_owned, reject_upload, complete,
  record_variants, report_failure, emit_safe, remove_object,
}
use xitter.Media.Rows.{insert_asset_lem, update_asset_lem, require_existing_lem}

-- The edits of a row.
abbrev pub uploaded_row : ℕ → ℕ → MediaRow → MediaRow
uploaded_row now bytes r = record r { uploaded_at = some now; bytes = bytes }

abbrev pub failed_row : MediaRow → MediaRow
failed_row r = record r { status = failed }

abbrev pub ready_row : List VariantRecord → MediaRow → MediaRow
ready_row variants r = record r { status = ready; variants = variants }

abbrev pub attempted_row : Bool → MediaRow → MediaRow
attempted_row fails r = record r {
  attempts = r.attempts + 1;
  status = if fails then failed else r.status;
}

abbrev pub edit : ℕ → (MediaRow → MediaRow) → Media → Media
edit id f s = record s { assets = map_where (is_media id) f s.assets }

abbrev pub publish : Env → MediaEvent → Media → Media
publish env e s = record s { events = if env.accepts e then e ∷ s.events else s.events }

abbrev pub gone : ObjectKey → Media → Media
gone key s = record s { removed = key ∷ s.removed }

-- Whether this failure is the last that is allowed.
abbrev pub gives_up : MediaRow → Bool
gives_up r = leb max_process_attempts (r.attempts + 1)

module _ (db : MediaDb) where
  pub create_upload_lem :
      (env : Env) (signs : Bool) (owner : ℕ) (mime : Option MimeType) (bytes : ℕ) (s : Media)
      → create_upload db env signs owner mime bytes s ≡ elim mime [
        | none ↦ (err unsupported_media_type, s)
        | some m ↦
            if ltb media_max_bytes bytes
            then (err payload_too_large, s)
            else if any (is_media env.fresh_id) s.assets
            then (err internal, s)
            else (
              if signs then ok env.fresh_id else err internal,
              record s { assets = new_asset env owner m bytes ∷ s.assets },
            )
      ]
  unfolding create_upload validate_upload_request
  create_upload_lem env signs owner none bytes s = refl
  create_upload_lem env signs owner (some m) bytes s =
      ground (arith, insert_asset_lem db (new_asset env owner m bytes) s)

  pub complete_lem :
      (env : Env) (owner id : ℕ) (head : Head) (s : Media)
      → complete db env owner id head s ≡ elim (find? (is_media id) s.assets) [
        | none ↦ (err not_found, s)
        | some r ↦
            if not (r.owner_id == owner)
            then (err not_found, s)
            else if is_failed r.status
            then (err bad_request, s)
            else elim head [
              | broken ↦ (err internal, s)
              | absent ↦ (err bad_request, s)
              | found stat ↦
                  if is_rejected stat
                  then (err bad_request, gone r.object_key (edit id failed_row s))
                  else if is_some r.uploaded_at
                  then (ok r, s)
                  else (
                    ok (uploaded_row env.now stat.bytes r),
                    publish env (uploaded id) (edit id (uploaded_row env.now stat.bytes) s),
                  )
            ]
      ]
  unfolding complete require_owned reject_upload remove_object emit_safe
  complete_lem env owner id broken s = ground (arith, require_existing_lem db id s)
  complete_lem env owner id absent s = ground (arith, require_existing_lem db id s)
  complete_lem env owner id (found stat) s = ground (
    arith,
    require_existing_lem db id s,
    update_asset_lem db id failed_row s (λ r. refl),
    update_asset_lem db id (uploaded_row env.now stat.bytes) s (λ r. refl),
  )

  pub record_variants_lem :
      (env : Env) (id : ℕ) (variants : List VariantRecord) (s : Media)
      → record_variants db env id variants s ≡ elim (find? (is_media id) s.assets) [
        | none ↦ (err not_found, s)
        | some r ↦ if is_ready r.status then (ok r, s) else (
          ok (ready_row variants r),
          publish env (processed id) (edit id (ready_row variants) s),
        )
      ]
  unfolding record_variants emit_safe
  record_variants_lem env id variants s = ground (
    arith,
    require_existing_lem db id s,
    update_asset_lem db id (ready_row variants) s (λ r. refl),
  )

  pub report_failure_lem :
      (id : ℕ) (s : Media)
      → report_failure db id s ≡ elim (find? (is_media id) s.assets) [
        | none ↦ (err not_found, s)
        | some r ↦
            if gives_up r
            then (ok (attempted_row true r), gone r.object_key (edit id (attempted_row true) s))
            else (ok (attempted_row false r), edit id (attempted_row false) s)
      ]
  unfolding report_failure remove_object
  report_failure_lem id s = ground (
    arith,
    require_existing_lem db id s,
    update_asset_lem db id (attempted_row true) s (λ r. refl),
    update_asset_lem db id (attempted_row false) s (λ r. refl),
  )

  -- The rows and the audit after a removal by an admin.
  abbrev pub deleted_from : ℕ → ℕ → Media → Media
  deleted_from actor id s = record s {
    assets = (db.asset.delete_many (is_media id) s.assets).1;
    audit = (actor, id) ∷ s.audit;
  }

  pub admin_delete_lem :
      (actor id : ℕ) (s : Media)
      → admin_delete db actor id s ≡ elim (find? (is_media id) s.assets) [
        | none ↦ (err not_found, s)
        | some r ↦ remove_objects (owned_object_keys r) (deleted_from actor id s)
      ]
  unfolding admin_delete
  admin_delete_lem actor id s = ground (arith, require_existing_lem db id s)
