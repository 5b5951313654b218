-- ===== src/Media/Rows.antt =====
-- The queries of the media repository on the list of rows
-- (apps/services/media/src/modules/media.repository.ts).
use xitter.Prelude.{
  ℕ, ◌≡◌, refl, none, some, List, [], ◌∷◌, if◌then◌else◌, is_some, any, find?, map_where, arith,
}
use xitter.Http.{ok, err, internal, not_found}
use xitter.Media.{
  MediaRow, MediaDb, Media, ObjectKey, is_media, same_media, find, insert_asset, update_asset,
  require_existing, remove_object, remove_objects,
}

pub find?-map_where :
    (id : ℕ) (f : MediaRow → MediaRow) (rows : List MediaRow)
    → ((r : MediaRow) → (f r).id ≡ r.id)
    → find? (is_media id) (map_where (is_media id) f rows)
      ≡ elim (find? (is_media id) rows) [ none ↦ none | some r ↦ some (f r) ]
unfolding find? map_where
find?-map_where id f [] e = refl
find?-map_where id f (x ∷ xs) e = ground (arith, e x, find?-map_where id f xs e)

pub find?-any :
    (id : ℕ) (rows : List MediaRow) → is_some (find? (is_media id) rows) ≡ any (is_media id) rows
unfolding find? any
find?-any id [] = refl
find?-any id (x ∷ xs) = ground (arith, find?-any id xs)

module _ (db : MediaDb) where
  pub find_lem : (id : ℕ) (s : Media) → find db id s ≡ find? (is_media id) s.assets
  unfolding find
  find_lem id s = rw db.asset.find_first_lem

  pub insert_asset_lem :
      (row : MediaRow) (s : Media)
      → insert_asset db row s ≡ (
          if any (is_media row.id) s.assets
          then (err internal, s)
          else (ok tt, record s { assets = row ∷ s.assets }))
  unfolding insert_asset
  insert_asset_lem row s = ground (arith, db.asset.create_lem same_media row s.assets)

  pub update_asset_lem :
      (id : ℕ) (f : MediaRow → MediaRow) (s : Media)
      → ((r : MediaRow) → (f r).id ≡ r.id)
      → update_asset db id f s ≡ elim (find? (is_media id) s.assets) [
        | none ↦ (err internal, s)
        | some r ↦ (ok (f r), record s { assets = map_where (is_media id) f s.assets })
      ]
  unfolding update_asset
  update_asset_lem id f s e = ground (
    arith,
    db.asset.update_lem (is_media id) f s.assets,
    find_lem id (record s { assets = map_where (is_media id) f s.assets }),
    find?-map_where id f s.assets e,
    find?-any id s.assets,
  )

  pub require_existing_lem :
      (id : ℕ) (s : Media)
      → require_existing db id s
        ≡ elim (find? (is_media id) s.assets) [ none ↦ (err not_found, s) | some r ↦ (ok r, s) ]
  unfolding require_existing
  require_existing_lem id s = ground (arith, find_lem id s)

pub remove_objects_lem :
    (keys : List ObjectKey) (s : Media)
    → let (r, s') = remove_objects keys s in
      (r ≡ ok tt) × (s'.assets ≡ s.assets) × (s'.events ≡ s.events)
unfolding remove_objects remove_object
remove_objects_lem [] s = (refl, refl, refl)
remove_objects_lem (k ∷ ks) s = remove_objects_lem ks (record s { removed = k ∷ s.removed })
