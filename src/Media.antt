-- ===== src/Media.antt =====
-- Images (apps/services/media/src/modules/media.service.ts over media.repository.ts and keys.ts). The
-- state is the two tables, the events that were published and the object keys that the storage was
-- told to remove, newest first. What the storage and the broker answer is an argument.
pub mod Rows
pub mod Lifecycle
pub mod Valid
pub mod Lookup
pub mod Titles
pub mod Invariant
pub mod Worker
pub mod Deliveries
mod Tests
mod Tables
use xitter.Prelude.{
  ℕ, ◌+◌, ◌*◌, ◌≡◌, Bool, true, false, not, ◌&&◌, ◌||◌, Option, none, some, List, [], ◌∷◌, map, ltb,
  leb, ◌==◌, if◌then◌else◌, is_some, is_empty, any, keep, find?,
}
use xitter.Http.{
  HttpError, bad_request, not_found, payload_too_large, unsupported_media_type, internal, Result,
  ok, err, Action, ◌>>=◌, ◌>>◌, pure, throw, throw_if, gets, modify, when, or_throw,
}
use xitter.Database.{Client}
unfoldable pub use Tables.*

module _ (db : MediaDb) where
  unfoldable pub find : ℕ → Media → Option MediaRow
  find id s = db.asset.find_first (is_media id) s.assets

  unfoldable pub find_by_ids : List ℕ → Media → List MediaRow
  find_by_ids ids s = db.asset.find_many (λ r. any (λ id. r.id == id) ids) s.assets

  unfoldable pub insert_asset : MediaRow → Action Media (Unit {0})
  insert_asset row = do
    rows ← gets (λ s. db.asset.create same_media row s.assets)
    elim rows [ none ↦ throw internal | some assets ↦ modify (λ s. record s { assets = assets }) ]

  -- `update` by id, which answers the row as it is then.
  unfoldable pub update_asset : ℕ → (MediaRow → MediaRow) → Action Media MediaRow
  update_asset id f = do
    rows ← gets (λ s. db.asset.update (is_media id) f s.assets)
    elim rows [
      | none ↦ throw internal
      | some assets ↦ do
        modify (λ s. record s { assets = assets })
        row ← gets (λ s. find id s)
        or_throw row internal
    ]

  abbrev pub mark_uploaded : Env → ℕ → ℕ → Action Media MediaRow
  mark_uploaded env id bytes =
      update_asset id (λ r. record r { uploaded_at = some env.now; bytes = bytes })

  abbrev pub mark_failed : ℕ → Action Media MediaRow
  mark_failed id = update_asset id (λ r. record r { status = failed })

  abbrev pub mark_ready : ℕ → List VariantRecord → Action Media MediaRow
  mark_ready id variants = update_asset id (λ r. record r { status = ready; variants = variants })

  abbrev pub record_attempt : ℕ → Bool → Action Media MediaRow
  record_attempt id fails =
      update_asset id
        (λ r. record r { attempts = r.attempts + 1; status = if fails then failed else r.status })

  unfoldable pub require_existing : ℕ → Action Media MediaRow
  require_existing id = do row ← gets (find id); or_throw row not_found

  -- Someone else's image is indistinguishable from a missing one.
  unfoldable pub require_owned : ℕ → ℕ → Action Media MediaRow
  require_owned owner id = do
    row ← require_existing id
    throw_if (not (row.owner_id == owner)) not_found
    pure row

  -- A slot for an upload; the URL is signed after the row was made, which may fail.
  unfoldable pub create_upload : Env → Bool → ℕ → Option MimeType → ℕ → Action Media ℕ
  create_upload env signs owner mime bytes = do
    allowed ← validate_upload_request mime bytes
    insert_asset (new_asset env owner allowed bytes)
    throw_if (not signs) internal
    pure env.fresh_id

  unfoldable pub reject_upload : ℕ → ObjectKey → Action Media (Unit {0})
  reject_upload id key = do mark_failed id; remove_object key

  -- The client's call after its upload.
  unfoldable pub complete : Env → ℕ → ℕ → Head → Action Media MediaRow
  complete env owner id head = do
    row ← require_owned owner id
    throw_if (is_failed row.status) bad_request
    elim head [
      | broken ↦ throw internal
      | absent ↦ throw bad_request
      | found stat ↦
          if is_rejected stat
          then (do reject_upload id row.object_key; throw bad_request)
          else if is_some row.uploaded_at
          then pure row
          else (do
            updated ← mark_uploaded env id stat.bytes
            emit_safe env (uploaded id)
            pure updated)
    ]

  unfoldable pub record_variants : Env → ℕ → List VariantRecord → Action Media MediaRow
  record_variants env id variants = do
    row ← require_existing id
    if is_ready row.status
        then pure row
        else (do updated ← mark_ready id variants; emit_safe env (processed id); pure updated)

  unfoldable pub report_failure : ℕ → Action Media MediaRow
  report_failure id = do
    row ← require_existing id
    let fails = leb max_process_attempts (row.attempts + 1)
    updated ← record_attempt id fails
    when fails (remove_object row.object_key)
    pure updated

  -- The row and the audit entry go in one transaction, the objects after it.
  unfoldable pub admin_delete : ℕ → ℕ → Action Media (Unit {0})
  admin_delete actor id = do
    row ← require_existing id
    modify (λ s. record s {
      assets = (db.asset.delete_many (is_media id) s.assets).1;
      audit = (actor, id) ∷ s.audit;
    })
    remove_objects (owned_object_keys row)

  unfoldable pub reseed : Action Media (Unit {0})
  reseed = modify (λ s. record s { assets = (db.asset.delete_many (λ r. true) s.assets).1 })
