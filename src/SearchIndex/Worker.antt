-- ===== src/SearchIndex/Worker.antt =====
-- A batch is landed: the documents, then the renames, and only then its position
-- (apps/workers/search-index/src/handlers.ts). `engine` is OpenSearch behind the search service, and
-- `profiles` what the social service answers to a lookup of authors, `none` where it fails.
use xitter.Prelude.{
  ℕ, zero, suc, Bool, true, false, Option, none, some, List, [], ◌∷◌, map, take, drop, length, any,
  map_where, find?, ◌==◌, if◌then◌else◌, is_some,
}
use xitter.Fanout.{Outcome, answered, refused, lost}
use xitter.SearchIndex.{
  Document, OpenSearch, Position, BatchEvent, PendingBatch, unknown_author, collect_batch,
}

-- At most `n` slices of `max` elements, in order.
unfoldable pub slices {ℓ} : {A : Type ℓ} → ℕ → ℕ → List A → List (List A)
slices zero max xs = []
slices (suc n) max [] = []
slices (suc n) max (x ∷ xs) = take max (x ∷ xs) ∷ slices n max (drop max (x ∷ xs))

-- As many slices as there are elements are enough, where a slice has one at least.
abbrev pub chunks {ℓ} : {A : Type ℓ} → List A → ℕ → List (List A)
chunks xs max = slices (length xs) max xs

abbrev pub upsert_max : ℕ
upsert_max = 1000

abbrev pub profiles_lookup_max : ℕ
profiles_lookup_max = 100

abbrev pub authors_refresh_max : ℕ
authors_refresh_max = 100

-- The authors of the live documents, each once.
unfoldable pub author_ids_from : List ℕ → List Document → List ℕ
author_ids_from seen [] = []
author_ids_from seen (d ∷ ds) =
    let new = d.author_id ∷ author_ids_from (d.author_id ∷ seen) ds in
    let rest = author_ids_from seen ds in
    if is_some d.deleted_at then rest else if any (λ a. a == d.author_id) seen then rest else new

-- A later name of an author is found first.
abbrev pub push_names : List (ℕ × ℕ) → List (ℕ × ℕ) → List (ℕ × ℕ)
push_names [] names = names
push_names (x ∷ xs) names = push_names xs (x ∷ names)

-- The names that were found before a lookup failed are used.
unfoldable pub resolve_chunks :
    (List ℕ → Option (List (ℕ × ℕ))) → List (List ℕ) → List (ℕ × ℕ) → List (ℕ × ℕ)
resolve_chunks profiles [] names = names
resolve_chunks profiles (c ∷ cs) names = elim (profiles c) [
  | none ↦ names
  | some items ↦ resolve_chunks profiles cs (push_names items names)
]

abbrev pub resolve_author_names : (List ℕ → Option (List (ℕ × ℕ))) → List ℕ → List (ℕ × ℕ)
resolve_author_names profiles ids = resolve_chunks profiles (chunks ids profiles_lookup_max) []

abbrev pub name_of : List (ℕ × ℕ) → ℕ → ℕ
name_of names author = elim (find? (λ n. n.0 == author) names) [
  | none ↦ unknown_author
  | some n ↦ n.1
]

abbrev pub name_document : List (ℕ × ℕ) → Document → Document
name_document names d =
    if is_some d.deleted_at then d else record d { author_name = name_of names d.author_id }

abbrev pub put_checkpoint : ℕ → Position → List (ℕ × Position) → List (ℕ × Position)
put_checkpoint partition position rows =
    if any (λ r. r.0 == partition) rows
    then map_where (λ r. r.0 == partition) (λ r. (partition, position)) rows
    else (partition, position) ∷ rows

module _ (engine : OpenSearch) (profiles : List ℕ → Option (List (ℕ × ℕ))) where
  -- The index, the worker's checkpoint of each topic partition, and what the calls will come to.
  pub record World : Type 0 where
    pub index : engine.Index
    pub checkpoints : List (ℕ × Position)
    pub script : List Outcome

  unfoldable pub call : (World → World) → World → Bool × World
  call f w = elim w.script [
    | [] ↦ (true, f w)
    | answered ∷ rest ↦ (true, f (record w { script = rest }))
    | refused ∷ rest ↦ (false, record w { script = rest })
    | lost ∷ rest ↦ (false, f (record w { script = rest }))
  ]

  unfoldable pub upsert_chunks : List (List Document) → World → Bool × World
  upsert_chunks [] w = (true, w)
  upsert_chunks (c ∷ cs) w =
      let (ok, w') = call (λ v. record v { index = engine.bulk c v.index }) w in
      let rest = upsert_chunks cs w' in if ok then rest else (false, w')

  -- `refreshAuthors`: one update after another.
  abbrev pub update_authors : List (ℕ × ℕ) → engine.Index → engine.Index
  update_authors [] index = index
  update_authors (r ∷ rs) index = update_authors rs (engine.update_author r.0 r.1 index)

  unfoldable pub refresh_chunks : List (List (ℕ × ℕ)) → World → Bool × World
  refresh_chunks [] w = (true, w)
  refresh_chunks (c ∷ cs) w =
      let (ok, w') = call (λ v. record v { index = update_authors c v.index }) w in
      let rest = refresh_chunks cs w' in if ok then rest else (false, w')

  abbrev pub named_documents : List Document → List Document
  named_documents ds =
      map (name_document (resolve_author_names profiles (author_ids_from [] ds))) ds

  -- With no documents or no renames there is nothing to call.
  unfoldable pub flush_batch : PendingBatch → World → Bool × World
  flush_batch batch w =
      let (ok, w') = upsert_chunks (chunks (named_documents batch.documents) upsert_max) w in
      let renamed = refresh_chunks (chunks batch.renames authors_refresh_max) w' in
      if ok then renamed else (false, w')

  unfoldable pub checkpoint : Option Position → ℕ → World → Bool × World
  checkpoint none partition w = (true, w)
  checkpoint (some position) partition w =
      call (λ v. record v { checkpoints = put_checkpoint partition position v.checkpoints }) w

  unfoldable pub handle_batch : List BatchEvent → ℕ → World → Bool × World
  handle_batch events partition w =
      let batch = collect_batch events in
      let (ok, w') = flush_batch batch w in
      let reported = checkpoint batch.last partition w' in if ok then reported else (false, w')
