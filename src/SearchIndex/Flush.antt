-- ===== src/SearchIndex/Flush.antt =====
-- What a batch leaves in the index, whichever calls fail
-- (apps/workers/search-index/src/handlers.ts, handleBatch).
use xitter.Prelude.{
  ℕ, zero, suc, ◌≤◌, ◌≡◌, refl, ◌∙◌, sym, ◌⊎◌, inl, inr, true, Option, none, List, [], ◌∷◌, ◌++◌,
  take, drop, length, arith, Option-cases, Bool-cases,
}
use xitter.SearchIndex.{Document, OpenSearch, BatchEvent, PendingBatch, override, collect_batch}
use xitter.SearchIndex.Batch.{
  shape_of, index_events, override-append, override-collect_from, override-map, index_events-append,
}
use xitter.SearchIndex.Worker.{
  World, slices, chunks, upsert_max, authors_refresh_max, call, upsert_chunks, update_authors,
  refresh_chunks, named_documents, name_document, flush_batch, checkpoint, handle_batch,
  resolve_author_names, author_ids_from,
}

module _ {A : Type 0} where
  abbrev concat : List (List A) → List A
  concat [] = []
  concat (x ∷ xs) = x ++ concat xs

  take-drop : (n : ℕ) (xs : List A) → take n xs ++ drop n xs ≡ xs
  take-drop zero xs = refl
  take-drop (suc n) [] = refl
  take-drop (suc n) (x ∷ xs) = ground (arith, take-drop n xs)

  length-drop : (n : ℕ) (xs : List A) → length (drop n xs) ≤ length xs
  length-drop zero xs = omega arith
  length-drop (suc n) [] = omega arith
  length-drop (suc n) (x ∷ xs) = omega (arith, length-drop n xs)

  concat-slices : (n max : ℕ) (xs : List A) → length xs ≤ n → concat (slices n (suc max) xs) ≡ xs
  unfolding slices
  concat-slices zero max [] h = refl
  concat-slices zero max (x ∷ xs) h = absurd (omega (arith, h))
  concat-slices (suc n) max [] h = refl
  concat-slices (suc n) max (x ∷ xs) h = ground (
    arith,
    concat-slices n max (drop max xs) (omega (arith, h, length-drop max xs)),
    take-drop max xs,
  )

module _ (engine : OpenSearch) (profiles : List ℕ → Option (List (ℕ × ℕ))) where
  abbrev pub shape_at : ℕ → World engine profiles → Option Document
  shape_at post w = shape_of (engine.get post w.index)

  upsert_chunks_lem :
      (post : ℕ) (cs : List (List Document)) (w : World engine profiles)
      → ((upsert_chunks engine profiles cs w).1.checkpoints ≡ w.checkpoints)
        × ((upsert_chunks engine profiles cs w).0 ≡ true
            → engine.get post (upsert_chunks engine profiles cs w).1.index
              ≡ override post (concat cs) (engine.get post w.index))
  unfolding upsert_chunks call override
  upsert_chunks_lem post [] w = (refl, λ h. refl)
  upsert_chunks_lem post (c ∷ cs) w =
      let next = (call engine profiles (λ v. record v { index = engine.bulk c v.index }) w).1 in
      ground (
        arith,
        upsert_chunks_lem post cs next,
        engine.get-bulk post c w.index,
        override-append post c (concat cs) (engine.get post w.index),
      )

  update_authors-shape :
      (post : ℕ) (rs : List (ℕ × ℕ)) (index : engine.Index)
      → shape_of (engine.get post (update_authors engine profiles rs index))
        ≡ shape_of (engine.get post index)
  update_authors-shape post [] index = refl
  update_authors-shape post (r ∷ rs) index = ground (
    arith,
    engine.get-update_author post r.0 r.1 index,
    update_authors-shape post rs (engine.update_author r.0 r.1 index),
  )

  refresh_chunks_lem :
      (post : ℕ) (cs : List (List (ℕ × ℕ))) (w : World engine profiles)
      → ((refresh_chunks engine profiles cs w).1.checkpoints ≡ w.checkpoints)
        × (shape_at post (refresh_chunks engine profiles cs w).1 ≡ shape_at post w)
  unfolding refresh_chunks call
  refresh_chunks_lem post [] w = (refl, refl)
  refresh_chunks_lem post (c ∷ cs) w =
      let next =
        (call engine profiles (λ v. record v { index = update_authors engine profiles c v.index })
          w).1 in
      ground (arith, refresh_chunks_lem post cs next, update_authors-shape post c w.index)

  named_documents-shape :
      (post : ℕ) (ds : List Document) (before : Option Document)
      → shape_of (override post (named_documents engine profiles ds) before)
        ≡ shape_of (override post ds before)
  named_documents-shape post ds before =
      override-map post (name_document (resolve_author_names profiles (author_ids_from [] ds))) ds
        before before (λ d. ground arith) (λ d. ground arith) refl

  flush_batch_lem :
      (post : ℕ) (b : PendingBatch) (w : World engine profiles)
      → ((flush_batch engine profiles b w).1.checkpoints ≡ w.checkpoints)
        × ((flush_batch engine profiles b w).0 ≡ true
            → shape_at post (flush_batch engine profiles b w).1
              ≡ shape_of (override post b.documents (engine.get post w.index)))
  unfolding flush_batch
  flush_batch_lem post b w =
      let named = named_documents engine profiles b.documents in
      let cs = chunks named upsert_max in
      let next = (upsert_chunks engine profiles cs w).1 in
      ground (
        arith,
        upsert_chunks_lem post cs w,
        concat-slices (length named) 999 named (omega arith),
        named_documents-shape post b.documents (engine.get post w.index),
        refresh_chunks_lem post (chunks b.renames authors_refresh_max) next,
      )

  collect_batch-shape :
      (post : ℕ) (events : List BatchEvent) (before : Option Document)
      → shape_of (override post (collect_batch events).documents before)
        ≡ index_events post events (shape_of before)
  unfolding override
  collect_batch-shape post events before =
      override-collect_from post events (record { documents = []; renames = []; last = none })
        before

  -- A batch whose handling is committed has left each post as its events say, one after another: as its
  -- last creation or deletion in the batch, and otherwise as it was, the author's name aside. This
  -- holds whatever the social service answers.
  pub handle_batch-indexed :
      (events : List BatchEvent) (partition post : ℕ) (w : World engine profiles)
      → (handle_batch engine profiles events partition w).0 ≡ true
      → shape_at post (handle_batch engine profiles events partition w).1
        ≡ index_events post events (shape_at post w)
  unfolding handle_batch checkpoint call
  handle_batch-indexed events partition post w h = elim (Option-cases (collect_batch events).last) [
    | inl e ↦ ground (
      arith,
      e,
      flush_batch_lem post (collect_batch events) w,
      collect_batch-shape post events (engine.get post w.index),
    )
    | inr (position, e) ↦ ground (
      arith,
      e,
      flush_batch_lem post (collect_batch events) w,
      collect_batch-shape post events (engine.get post w.index),
    )
  ]

  -- Whichever calls fail: either no checkpoint has changed, or every post is as the events of the batch
  -- say, the author's name aside. A checkpoint never points past work that was not done.
  pub handle_batch-checkpoint :
      (events : List BatchEvent) (partition : ℕ) (w : World engine profiles)
      → ((handle_batch engine profiles events partition w).1.checkpoints ≡ w.checkpoints)
        ⊎ ((post : ℕ)
            → shape_at post (handle_batch engine profiles events partition w).1
              ≡ index_events post events (shape_at post w))
  unfolding handle_batch checkpoint call
  handle_batch-checkpoint events partition w =
      elim (Bool-cases (flush_batch engine profiles (collect_batch events) w).0) [
        | inr failed ↦ inl (ground (arith, failed, flush_batch_lem 0 (collect_batch events) w))
        | inl landed ↦ inr (λ post. elim (Option-cases (collect_batch events).last) [
          | inl e ↦ ground (
            arith,
            e,
            landed,
            flush_batch_lem post (collect_batch events) w,
            collect_batch-shape post events (engine.get post w.index),
          )
          | inr (position, e) ↦ ground (
            arith,
            e,
            landed,
            flush_batch_lem post (collect_batch events) w,
            collect_batch-shape post events (engine.get post w.index),
          )
        ])
      ]

  -- Calls that are all answered.
  upsert_chunks_calm :
      (cs : List (List Document)) (w : World engine profiles)
      → w.script ≡ []
      → ((upsert_chunks engine profiles cs w).0 ≡ true)
        × ((upsert_chunks engine profiles cs w).1.script ≡ [])
  unfolding upsert_chunks call
  upsert_chunks_calm [] w e = (refl, e)
  upsert_chunks_calm (c ∷ cs) w e = ground (
    arith,
    e,
    upsert_chunks_calm cs
        (call engine profiles (λ v. record v { index = engine.bulk c v.index }) w).1,
  )

  refresh_chunks_calm :
      (cs : List (List (ℕ × ℕ))) (w : World engine profiles)
      → w.script ≡ []
      → ((refresh_chunks engine profiles cs w).0 ≡ true)
        × ((refresh_chunks engine profiles cs w).1.script ≡ [])
  unfolding refresh_chunks call
  refresh_chunks_calm [] w e = (refl, e)
  refresh_chunks_calm (c ∷ cs) w e = ground (
    arith,
    e,
    refresh_chunks_calm cs
        (call engine profiles (λ v. record v { index = update_authors engine profiles c v.index })
          w).1,
  )

  handle_batch_calm :
      (events : List BatchEvent) (partition : ℕ) (w : World engine profiles)
      → w.script ≡ []
      → ((handle_batch engine profiles events partition w).0 ≡ true)
        × ((handle_batch engine profiles events partition w).1.script ≡ [])
  unfolding handle_batch flush_batch checkpoint call
  handle_batch_calm events partition w e =
      let b = collect_batch events in
      let cs = chunks (named_documents engine profiles b.documents) upsert_max in
      let upserted = upsert_chunks_calm cs w e in
      let refreshed =
        refresh_chunks_calm (chunks b.renames authors_refresh_max)
          (upsert_chunks engine profiles cs w).1 upserted.1 in
      elim (Option-cases b.last) [
        | inl none_left ↦ ground (arith, none_left, upserted, refreshed)
        | inr (position, there) ↦ ground (arith, there, upserted, refreshed)
      ]

  -- With every call answered, two batches one after the other and the one batch of their events are all
  -- committed and leave each post alike, the author's name aside: how the log is cut into batches, down
  -- to single events, makes no difference.
  pub handle_batch-split :
      (xs ys : List BatchEvent) (partition post : ℕ) (w : World engine profiles)
      → w.script ≡ []
      → let (first, w₁) = handle_batch engine profiles xs partition w in
        let (second, w₂) = handle_batch engine profiles ys partition w₁ in
        let (whole, w₃) = handle_batch engine profiles (xs ++ ys) partition w in
        (first ≡ true) × (second ≡ true) × (whole ≡ true) × (shape_at post w₂ ≡ shape_at post w₃)
  handle_batch-split xs ys partition post w e =
      let middle = (handle_batch engine profiles xs partition w).1 in
      let first = handle_batch_calm xs partition w e in
      let second = handle_batch_calm ys partition middle first.1 in
      let whole = handle_batch_calm (xs ++ ys) partition w e in
      (
        first.0,
        second.0,
        whole.0,
        handle_batch-indexed ys partition post middle second.0
            ∙ rw (handle_batch-indexed xs partition post w first.0)
                (sym (index_events-append post xs ys (shape_at post w)))
            ∙ sym (handle_batch-indexed (xs ++ ys) partition post w whole.0),
      )
