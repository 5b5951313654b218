-- ===== src/Media/Titles.antt =====
-- What a lookup does to each image (apps/services/media/src/modules/media.service.ts).
use xitter.Prelude.{
  ℕ, ◌≤◌, ◌≡◌, refl, sym, ap, ◌∙◌, Bool, true, false, ◌&&◌, ◌||◌, some, List, [], ◌∷◌, ◌==◌,
  if◌then◌else◌, is_some, is_empty, any, count, keep, find?, map_where, arith, Option-cases,
  Bool-cases, inl, inr,
}
use xitter.Http.{ok, is_ok, Result-cases}
use xitter.Database.Finds.{any-keep, any_empty, same_any, any_none, any_one}
use xitter.Database.Counts.{any-count}
use xitter.Media.{MediaRow, MediaDb, Media, is_media, find_by_ids}
use xitter.Media.Rows.{update_asset_lem, find?-any}
use xitter.Media.Lifecycle.{edit}
use xitter.Media.Lookup.{titled_row, update_texts, apply_alt_texts, lookup, own_texts}

-- An image after the texts for it.
unfoldable pub retitled : List (ℕ × ℕ) → ℕ → MediaRow → MediaRow
retitled [] i r = r
retitled ((id, text) ∷ texts) i r = retitled texts i (if id == i then titled_row text r else r)

retitled-keep :
    (m : ℕ → Bool) (texts : List (ℕ × ℕ)) (i : ℕ) (r : MediaRow)
    → retitled (keep (λ t. m t.0) texts) i r ≡ (if m i then retitled texts i r else r)
unfolding retitled keep
retitled-keep m [] i r = ground arith
retitled-keep m ((id, text) ∷ texts) i r =
    ground (arith, retitled-keep m texts i r, retitled-keep m texts i (titled_row text r))

any_kept_key :
    (m : ℕ → Bool) (texts : List (ℕ × ℕ)) (i : ℕ)
    → any (λ t. t.0 == i) (keep (λ t. m t.0) texts) ≡ true
    → m i ≡ true
unfolding any keep
any_kept_key m [] i h = absurd (cc h)
any_kept_key m ((id, text) ∷ texts) i h = ground (arith, any_kept_key m texts i)

edited :
    (id text i : ℕ) (rows : List MediaRow) (r : MediaRow)
    → find? (is_media i) rows ≡ some r
    → find? (is_media i) (map_where (is_media id) (titled_row text) rows)
      ≡ some (if id == i then titled_row text r else r)
unfolding find? map_where
edited id text i [] r e = absurd (cc e)
edited id text i (x ∷ xs) r e = elim (Bool-cases (is_media i x)) [
  | inl here ↦ let same : x ≡ r = ground arith in ground arith
  | inr other ↦ ground (arith, edited id text i xs r)
]

module _ (db : MediaDb) where
  -- A text for an image that exists.
  update_texts-∷ :
      (id text : ℕ) (texts : List (ℕ × ℕ)) (s : Media) (r : MediaRow)
      → find? (is_media id) s.assets ≡ some r
      → let (x, s') = update_texts db ((id, text) ∷ texts) s in
        let (y, s'') = update_texts db texts (edit id (titled_row text) s) in
        (is_ok x ≡ is_ok y) × (s' ≡ s'')
  unfolding update_texts
  update_texts-∷ id text texts s r e =
      let found = update_asset_lem db id (titled_row text) s (λ r. refl) in
      elim (Result-cases (update_texts db texts (edit id (titled_row text) s)).0) [
        | inl (x, h) ↦ ground (arith, found)
        | inr (rows, h) ↦ ground (arith, found)
      ]

  update_texts_lem :
      (texts : List (ℕ × ℕ)) (s : Media)
      → ((i : ℕ) → any (λ t. t.0 == i) texts ≡ true → is_some (find? (is_media i) s.assets) ≡ true)
      → (is_ok (update_texts db texts s).0 ≡ true)
        × ((i : ℕ) (r : MediaRow)
            → find? (is_media i) s.assets ≡ some r
            → find? (is_media i) (update_texts db texts s).1.assets ≡ some (retitled texts i r))
  unfolding update_texts retitled any
  update_texts_lem [] s known = (refl, λ i r e. e)
  update_texts_lem ((id, text) ∷ texts) s known =
      elim (Option-cases (find? (is_media id) s.assets)) [
        | inl e ↦ absurd (ground (arith, known id))
        | inr (r0, e) ↦
            let s1 = edit id (titled_row text) s in
            let step = update_texts-∷ id text texts s r0 e in
            let rest = update_texts_lem texts s1 (λ i h.
              elim (Option-cases (find? (is_media i) s.assets)) [
                | inl none_there ↦ absurd (ground (arith, known i))
                | inr (x, there) ↦ rw (edited id text i s.assets x there) refl
              ]) in
            (step.0 ∙ rest.0, λ i r h. rw step.1 (rest.1 i _ (edited id text i s.assets r h)))
      ]

  unowned :
      (owner i : ℕ) (ids : List ℕ) (s : Media)
      → any (is_media i) s.assets ≡ false
      → any (is_media i) (keep (λ x. x.owner_id == owner) (find_by_ids db ids s)) ≡ false
  unfolding find_by_ids
  unowned owner i ids s gone =
      let l : MediaRow → Bool = λ x. any (λ id. x.id == id) ids in
      let q : MediaRow → Bool = λ x. (x.owner_id == owner) && is_media i x in
      any-keep (λ x. x.owner_id == owner) (is_media i) (db.asset.find_many l s.assets)
      ∙ same_any q (λ x. l x && q x) (db.asset.find_many l s.assets) s.assets
          (db.asset.find_many_lem l q s.assets)
      ∙ any_none (is_media i) l (λ x. x.owner_id == owner) s.assets
          (any-count (is_media i) s.assets gone)

  -- Whether an image is among those that the author may title.
  owned_lem :
      (owner i : ℕ) (ids : List ℕ) (s : Media) (r : MediaRow)
      → count (is_media i) s.assets ≤ 1
      → find? (is_media i) s.assets ≡ some r
      → any (is_media i) (keep (λ x. x.owner_id == owner) (find_by_ids db ids s))
        ≡ any (λ id. r.id == id) ids && (r.owner_id == owner)
  unfolding find_by_ids
  owned_lem owner i ids s r one e =
      let l : MediaRow → Bool = λ x. any (λ id. x.id == id) ids in
      let q : MediaRow → Bool = λ x. (x.owner_id == owner) && is_media i x in
      any-keep (λ x. x.owner_id == owner) (is_media i) (db.asset.find_many l s.assets)
      ∙ same_any q (λ x. l x && q x) (db.asset.find_many l s.assets) s.assets
          (db.asset.find_many_lem l q s.assets)
      ∙ any_one (is_media i) l (λ x. x.owner_id == owner) s.assets r one e

  own_texts_known :
      (owner i : ℕ) (ids : List ℕ) (texts : List (ℕ × ℕ)) (s : Media)
      → any (λ t. t.0 == i) (own_texts db owner ids texts s) ≡ true
      → is_some (find? (is_media i) s.assets) ≡ true
  unfolding own_texts
  own_texts_known owner i ids texts s h =
      let owned = keep (λ x. x.owner_id == owner) (find_by_ids db ids s) in
      let has = any_kept_key (λ id. any (is_media id) owned) texts i h in
      elim (Bool-cases (any (is_media i) s.assets)) [
        | inl there ↦ find?-any i s.assets ∙ there
        | inr gone ↦ absurd (ground (arith, has, unowned owner i ids s gone))
      ]

  own_texts_lem :
      (owner i : ℕ) (ids : List ℕ) (texts : List (ℕ × ℕ)) (s : Media) (r : MediaRow)
      → count (is_media i) s.assets ≤ 1
      → find? (is_media i) s.assets ≡ some r
      → retitled (own_texts db owner ids texts s) i r
        ≡ (if any (λ id. r.id == id) ids && (r.owner_id == owner) then retitled texts i r else r)
  unfolding own_texts
  own_texts_lem owner i ids texts s r one e =
      let owned = keep (λ x. x.owner_id == owner) (find_by_ids db ids s) in
      rw (retitled-keep (λ id. any (is_media id) owned) texts i r, owned_lem owner i ids s r one e)
        refl

  lookup_idle :
      (owner : ℕ) (ids : List ℕ) (texts : List (ℕ × ℕ)) (s : Media)
      → let owned = keep (λ x. x.owner_id == owner) (find_by_ids db ids s) in
        is_empty owned || is_empty texts ≡ true → lookup db owner ids texts s ≡ (ok owned, s)
  unfolding lookup
  lookup_idle owner ids texts s h = ground arith

  lookup_busy :
      (owner : ℕ) (ids : List ℕ) (texts : List (ℕ × ℕ)) (s : Media)
      → let kept = own_texts db owner ids texts s in
        is_empty (keep (λ x. x.owner_id == owner) (find_by_ids db ids s)) || is_empty texts ≡ false
        → is_ok (update_texts db kept s).0 ≡ true
        → let (result, s') = lookup db owner ids texts s in
          (is_ok result ≡ true) × (s' ≡ (update_texts db kept s).1)
  unfolding lookup apply_alt_texts own_texts
  lookup_busy owner ids texts s h fine =
      elim (Result-cases (update_texts db (own_texts db owner ids texts s) s).0) [
        | inl (x, e) ↦ absurd (ground arith)
        | inr (rows, e) ↦ ground arith
      ]

  own_texts_idle :
      (owner i : ℕ) (ids : List ℕ) (texts : List (ℕ × ℕ)) (s : Media) (r : MediaRow)
      → is_empty (keep (λ x. x.owner_id == owner) (find_by_ids db ids s)) || is_empty texts ≡ true
      → retitled (own_texts db owner ids texts s) i r ≡ r
  unfolding own_texts retitled keep
  own_texts_idle owner i ids [] s r h = refl
  own_texts_idle owner i ids (t ∷ texts) s r h =
      let owned = keep (λ x. x.owner_id == owner) (find_by_ids db ids s) in
      retitled-keep (λ id. any (is_media id) owned) (t ∷ texts) i r
      ∙ rw (any_empty (is_media i) owned (ground arith)) refl

  -- Where ids are unique, a lookup never fails, and it writes to the images that it asks for and that
  -- its caller owns the alt texts for them, the last one if there are more, and nothing to any other
  -- image.
  pub lookup_effect :
      (owner : ℕ) (ids : List ℕ) (texts : List (ℕ × ℕ)) (s : Media)
      → ((i : ℕ) → count (is_media i) s.assets ≤ 1)
      → let (result, s') = lookup db owner ids texts s in
        (is_ok result ≡ true)
        × ((i : ℕ) (r : MediaRow)
            → find? (is_media i) s.assets ≡ some r
            → find? (is_media i) s'.assets
              ≡ some (
                  if any (λ id. r.id == id) ids && (r.owner_id == owner)
                  then retitled texts i r
                  else r))
  lookup_effect owner ids texts s unique =
      let owned = keep (λ x. x.owner_id == owner) (find_by_ids db ids s) in
      let kept = own_texts db owner ids texts s in
      let written = update_texts_lem kept s (λ i. own_texts_known owner i ids texts s) in
      elim (Bool-cases (is_empty owned || is_empty texts)) [
        | inl idle ↦ rw (lookup_idle owner ids texts s idle) (
          refl,
          λ i r e.
              e
              ∙ ap some (sym (own_texts_idle owner i ids texts s r idle))
              ∙ ap some (own_texts_lem owner i ids texts s r (unique i) e),
        )
        | inr busy ↦
            let done = lookup_busy owner ids texts s busy written.0 in
            (
              done.0,
              λ i r e.
                  rw done.1
                    (written.1 i r e ∙ ap some (own_texts_lem owner i ids texts s r (unique i) e)),
            )
      ]
