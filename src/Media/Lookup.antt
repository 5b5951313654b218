-- ===== src/Media/Lookup.antt =====
-- The lookup of images for a post, which writes the author's alt texts
-- (apps/services/media/src/modules/media.service.ts over media.repository.ts). The alt texts are the
-- entries of an object, whose keys are distinct: an id and a text.
use xitter.Prelude.{
  ℕ, ◌≡◌, refl, ◌⊎◌, ◌||◌, none, some, List, [], ◌∷◌, map, arith, ◌==◌, if◌then◌else◌, is_empty,
  any, keep, find?, Option-cases, Bool-cases, inl, inr,
}
use xitter.Http.{ok, err, Action, ◌>>=◌, pure, gets, Result-cases}
use xitter.Media.{MediaRow, MediaDb, Media, is_media, find_by_ids, update_asset}
use xitter.Media.Rows.{update_asset_lem}
use xitter.Media.Lifecycle.{edit}
use xitter.Media.Valid.{IsValid, edit-rows, quiet}

abbrev pub titled_row : ℕ → MediaRow → MediaRow
titled_row text r = record r { alt_text = some text }

module _ (db : MediaDb) where
  unfoldable pub update_texts : List (ℕ × ℕ) → Action Media (List MediaRow)
  update_texts [] = pure []
  update_texts ((id, text) ∷ texts) = do
    row ← update_asset db id (titled_row text)
    rows ← update_texts texts
    pure (row ∷ rows)

  -- The updates go in one transaction.
  unfoldable pub apply_alt_texts : List (ℕ × ℕ) → Action Media (List MediaRow)
  apply_alt_texts texts s =
      let (r, s') = update_texts texts s in elim r [ ok rows ↦ (ok rows, s') | err e ↦ (err e, s) ]

  unfoldable pub lookup : ℕ → List ℕ → List (ℕ × ℕ) → Action Media (List MediaRow)
  lookup owner ids texts = do
    rows ← gets (find_by_ids db ids)
    let owned = keep (λ r. r.owner_id == owner) rows
    if is_empty owned || is_empty texts then pure owned else (do
      applied ← apply_alt_texts (keep (λ t. any (is_media t.0) owned) texts)
      pure (map (λ r. elim (find? (is_media r.id) applied) [ none ↦ r | some x ↦ x ]) owned))

  update_texts-∷ :
      (id text : ℕ) (texts : List (ℕ × ℕ)) (s : Media)
      → (update_texts ((id, text) ∷ texts) s).1 ≡ elim (find? (is_media id) s.assets) [
        | none ↦ s
        | some r ↦ (update_texts texts (edit id (titled_row text) s)).1
      ]
  unfolding update_texts
  update_texts-∷ id text texts s =
      ground (arith, update_asset_lem db id (titled_row text) s (λ r. refl))

  update_texts-IsValid :
      (n : ℕ) (texts : List (ℕ × ℕ)) (s : Media) → IsValid n s → IsValid n (update_texts texts s).1
  unfolding update_texts
  update_texts-IsValid n [] s v = v
  update_texts-IsValid n ((id, text) ∷ texts) s v =
      rw (update_texts-∷ id text texts s) (elim (Option-cases (find? (is_media id) s.assets)) [
        | inl e ↦ rw e v
        | inr (r, e) ↦ rw e (
            update_texts-IsValid n texts (edit id (titled_row text) s) (
              quiet n s _ v (λ i. refl)
                (edit-rows n id s (titled_row text) (λ x. refl) (λ x. refl) (λ x. refl) v.rows)))
      ])

  -- The texts that are written are those of the author's own images.
  unfoldable pub own_texts : ℕ → List ℕ → List (ℕ × ℕ) → Media → List (ℕ × ℕ)
  own_texts owner ids texts s =
      keep (λ t. any (is_media t.0) (keep (λ r. r.owner_id == owner) (find_by_ids db ids s))) texts

  lookup_writes :
      (owner : ℕ) (ids : List ℕ) (texts : List (ℕ × ℕ)) (s : Media)
      → ((lookup owner ids texts s).1 ≡ s)
        ⊎ ((lookup owner ids texts s).1 ≡ (update_texts (own_texts owner ids texts s) s).1)
  unfolding lookup apply_alt_texts own_texts
  lookup_writes owner ids texts s =
      let owned = keep (λ r. r.owner_id == owner) (find_by_ids db ids s) in
      elim (Bool-cases (is_empty owned || is_empty texts)) [
        | inl idle ↦ inl (ground arith)
        | inr asked ↦ elim (Result-cases (update_texts (own_texts owner ids texts s) s).0) [
          | inl (x, h) ↦ inl (ground arith)
          | inr (rows, h) ↦ inr (ground arith)
        ]
      ]

  pub lookup-IsValid :
      (n owner : ℕ) (ids : List ℕ) (texts : List (ℕ × ℕ)) (s : Media)
      → IsValid n s
      → IsValid n (lookup owner ids texts s).1
  lookup-IsValid n owner ids texts s v = elim (lookup_writes owner ids texts s) [
    | inl same ↦ rw same v
    | inr e ↦ rw e (update_texts-IsValid n (own_texts owner ids texts s) s v)
  ]
