-- ===== src/Media/Tables.antt =====
-- The tables of the media service and what a request does to them
-- (apps/services/media/src/modules): the rows, the keys of the objects and the events.
use xitter.Prelude.{
  ℕ, ◌*◌, Bool, true, false, not, ◌||◌, Option, none, some, List, [], ◌∷◌, map, ltb, leb, ◌==◌,
  is_some,
}
use xitter.Http.{
  payload_too_large, unsupported_media_type, Action, ◌>>◌, pure, throw, throw_if, modify, when,
}
use xitter.Database.{Client}

-- The allowlist.
pub data MimeType : Type 0 where
  png jpeg webp gif : MimeType

-- `<owner>/<media>/original.<ext>` and `<owner>/<media>/thumb.<ext>`.
pub data Variant : Type 0 where
  original thumb : Variant

pub record ObjectKey : Type 0 where
  pub owner_id : ℕ
  pub media_id : ℕ
  pub variant : Variant
  pub mime_type : MimeType

pub data Status : Type 0 where
  pending ready failed : Status

-- The sizes in pixels and the type are not modelled.
pub record VariantRecord : Type 0 where
  pub kind : Variant
  pub object_key : ObjectKey
  pub bytes : ℕ

pub record MediaRow : Type 0 where
  pub id : ℕ
  pub owner_id : ℕ
  pub status : Status
  pub object_key : ObjectKey
  pub mime_type : MimeType
  pub bytes : ℕ
  pub variants : List VariantRecord
  pub attempts : ℕ
  pub uploaded_at : Option ℕ
  pub alt_text : Option ℕ
  pub created_at : ℕ

pub data MediaEvent : Type 0 where
  uploaded processed : ℕ → MediaEvent

pub record MediaDb : Type 0 where
  pub asset : Client MediaRow

pub record Media : Type 0 where
  pub assets : List MediaRow
  pub audit : List (ℕ × ℕ)
  pub events : List MediaEvent
  pub removed : List ObjectKey

-- What a HEAD of an object finds: its size, and its stored content type if that is on the allowlist.
pub record ObjectStat : Type 0 where
  pub bytes : ℕ
  pub content_type : Option MimeType

-- A HEAD of an object: the storage fails, has no such object, or has it.
pub data Head : Type 0 where
  broken absent : Head
  found : ObjectStat → Head

pub record Env : Type 0 where
  pub fresh_id : ℕ
  pub now : ℕ
  pub accepts : MediaEvent → Bool

abbrev pub media_max_bytes : ℕ
media_max_bytes = 5 * 1024 * 1024

abbrev pub max_process_attempts : ℕ
max_process_attempts = 3

abbrev pub is_media : ℕ → MediaRow → Bool
is_media id r = r.id == id

abbrev pub same_media : MediaRow → MediaRow → Bool
same_media r x = is_media r.id x

abbrev pub is_failed : Status → Bool
is_failed failed = true
is_failed _ = false

abbrev pub is_ready : Status → Bool
is_ready ready = true
is_ready _ = false

abbrev pub original_object_key : ℕ → ℕ → MimeType → ObjectKey
original_object_key owner id mime = record {
  owner_id = owner;
  media_id = id;
  variant = original;
  mime_type = mime;
}

-- `none` is a type that is not on the allowlist.
unfoldable pub validate_upload_request : Option MimeType → ℕ → Action Media MimeType
validate_upload_request none bytes = throw unsupported_media_type
validate_upload_request (some mime) bytes = do
  throw_if (ltb media_max_bytes bytes) payload_too_large
  pure mime

abbrev pub new_asset : Env → ℕ → MimeType → ℕ → MediaRow
new_asset env owner mime bytes = record {
  id = env.fresh_id;
  owner_id = owner;
  status = pending;
  object_key = original_object_key owner env.fresh_id mime;
  mime_type = mime;
  bytes = bytes;
  variants = [];
  attempts = 0;
  uploaded_at = none;
  alt_text = none;
  created_at = env.now;
}

unfoldable pub emit_safe : Env → MediaEvent → Action Media (Unit {0})
emit_safe env e = when (env.accepts e) (modify (λ s. record s { events = e ∷ s.events }))

-- A removal is told to the storage; that it may fail changes no table.
unfoldable pub remove_object : ObjectKey → Action Media (Unit {0})
remove_object key = modify (λ s. record s { removed = key ∷ s.removed })

unfoldable pub remove_objects : List ObjectKey → Action Media (Unit {0})
remove_objects [] = pure tt
remove_objects (k ∷ ks) = do remove_object k; remove_objects ks

abbrev pub owned_object_keys : MediaRow → List ObjectKey
owned_object_keys r = r.object_key ∷ map (λ v. v.object_key) r.variants

-- An upload that is not an image, is empty or is too large.
abbrev pub is_rejected : ObjectStat → Bool
is_rejected stat =
    not (is_some stat.content_type) || leb stat.bytes 0 || ltb media_max_bytes stat.bytes
