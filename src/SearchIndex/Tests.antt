-- ===== src/SearchIndex/Tests.antt =====
-- An engine that meets the laws, and the theorems of the search worker at concrete batches.
use xitter.Prelude.{
  ℕ, ◌≡◌, refl, true, Option, none, some, List, [], ◌∷◌, ◌++◌, map, find?, any, map_where, ◌==◌,
  arith,
}
use xitter.Fanout.{answered, Outcome}
use xitter.SearchIndex.{
  Document, OpenSearch, BatchEvent, Position, override, rename_document, collect_from, tags_from,
  keywords_from_text, post_created, post_deleted, profile_updated, other,
}
use xitter.SearchIndex.Batch.{index_events}
use xitter.SearchIndex.Worker
use xitter.SearchIndex.Worker.{World}
use xitter.SearchIndex.Flush.{shape_at, handle_batch-indexed, handle_batch-split}

abbrev get : ℕ → List Document → Option Document
get post index = find? (λ d. d.post_id == post) index

abbrev bulk : List Document → List Document → List Document
bulk [] index = index
bulk (d ∷ ds) index = bulk ds (d ∷ index)

get-bulk :
    (post : ℕ) (ds index : List Document)
    → get post (bulk ds index) ≡ override post ds (get post index)
unfolding override find?
get-bulk post [] index = refl
get-bulk post (d ∷ ds) index = get-bulk post ds (d ∷ index)

get-map :
    (post author name : ℕ) (index : List Document)
    → get post (map (rename_document author name) index)
      ≡ elim (get post index) [ none ↦ none | some d ↦ some (rename_document author name d) ]
unfolding find?
get-map post author name [] = refl
get-map post author name (d ∷ ds) = ground (arith, get-map post author name ds)

abbrev engine : OpenSearch
engine = record {
  Index = List Document;
  get = get;
  bulk = bulk;
  update_author = λ author name index. map (rename_document author name) index;
  get-bulk = get-bulk;
  get-update_author = get-map;
}

abbrev profiles : List ℕ → Option (List (ℕ × ℕ))
profiles ids = some (map (λ id. (id, id)) ids)

abbrev at : ℕ → Position
at n = record { offset = n; event_id = n; event_at = n }

-- '#a #A' by author 4.
abbrev first_events : List BatchEvent
first_events =
    record {
      event = post_created (record {
        post_id = 1;
        author_id = 4;
        text = 35 ∷ 97 ∷ 32 ∷ 35 ∷ 65 ∷ [];
        created_at = 9;
      });
      position = at 1;
    }
    ∷ record { event = other; position = at 2 }
    ∷ []

abbrev second_events : List BatchEvent
second_events =
    record { event = profile_updated 4 7; position = at 3 }
    ∷ record {
      event = post_deleted (record { post_id = 1; author_id = 4; deleted_at = 12 });
      position = at 4;
    }
    ∷ []

abbrev empty : List Outcome → World engine profiles
empty script = record { index = []; checkpoints = []; script = script }

tags : keywords_from_text (35 ∷ 97 ∷ 32 ∷ 35 ∷ 65 ∷ 35 ∷ 98 ∷ []) ≡ (97 ∷ []) ∷ (98 ∷ []) ∷ []
unfolding tags_from any
tags = refl

handle_batch-indexed_example :
    shape_at engine profiles 1
      (Worker.handle_batch engine profiles
        (first_events ++ second_events)
        0
        (empty (answered ∷ []))).1
    ≡ index_events 1 (first_events ++ second_events) none
unfolding Worker.handle_batch Worker.flush_batch Worker.checkpoint Worker.upsert_chunks
    Worker.refresh_chunks Worker.call Worker.slices Worker.resolve_chunks Worker.author_ids_from
    collect_from find? any map_where
handle_batch-indexed_example =
    handle_batch-indexed engine profiles (first_events ++ second_events) 0 1 (empty (answered ∷ []))
      refl

handle_batch-split_example :
    let (first, w₁) = Worker.handle_batch engine profiles first_events 0 (empty []) in
    let (second, w₂) = Worker.handle_batch engine profiles second_events 0 w₁ in
    let (whole, w₃) =
      Worker.handle_batch engine profiles (first_events ++ second_events) 0 (empty []) in
    (first ≡ true)
    × (second ≡ true)
    × (whole ≡ true)
    × (shape_at engine profiles 1 w₂ ≡ shape_at engine profiles 1 w₃)
handle_batch-split_example =
    handle_batch-split engine profiles first_events second_events 0 1 (empty []) refl
