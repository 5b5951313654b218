-- ===== src/SearchIndex.antt =====
-- The search worker (apps/workers/search-index/src/handlers.ts and documents.ts), which turns a batch
-- of events into documents of the index, by calls of the search service
-- (apps/services/search/src/modules/search.service.ts over posts-index.ts and
-- checkpoint.repository.ts). A call is carried out and answered, refused, or carried out with its
-- answer lost; where the script ends, every call is answered. OpenSearch is not part of the
-- repository: a record of the calls with their documented behaviour as laws.
pub mod Batch
pub mod Worker
pub mod Flush
mod Tests
use xitter.Prelude.{
  ℕ, zero, suc, ◌+◌, ◌≡◌, Bool, true, false, not, ◌&&◌, ◌||◌, Option, none, some, List, [], ◌∷◌,
  ◌++◌, map, keep, take, drop, length, any, map_where, find?, leb, ◌==◌, same_text, if◌then◌else◌,
  is_some, is_empty, arith,
}
use xitter.Fanout.{Outcome, answered, refused, lost}

pub record Document : Type 0 where
  pub post_id : ℕ
  pub author_id : ℕ
  pub author_name : ℕ
  pub text : List ℕ
  pub keywords : List (List ℕ)
  pub created_at : ℕ
  pub deleted_at : Option ℕ

-- The last document of a post in a list, or what was there before.
unfoldable pub override : ℕ → List Document → Option Document → Option Document
override post [] before = before
override post (d ∷ ds) before = override post ds (if d.post_id == post then some d else before)

abbrev pub rename_document : ℕ → ℕ → Document → Document
rename_document author name d = if d.author_id == author then record d { author_name = name } else d

pub record OpenSearch : Type 1 where
  pub Index : Type 0
  -- the document of an id
  pub get : ℕ → Index → Option Document
  -- `bulk` with `index` actions, and `updateByQuery` on an author's documents
  pub bulk : List Document → Index → Index
  pub update_author : ℕ → ℕ → Index → Index
  pub get-bulk :
      (post : ℕ) (ds : List Document) (index : Index)
      → get post (bulk ds index) ≡ override post ds (get post index)
  pub get-update_author :
      (post author name : ℕ) (index : Index)
      → get post (update_author author name index)
        ≡ elim (get post index) [ none ↦ none | some d ↦ some (rename_document author name d) ]

-- `[A-Za-z0-9_]`, and a letter in lower case.
abbrev is_between : ℕ → ℕ → ℕ → Bool
is_between a b c = leb a c && leb c b

abbrev pub is_word : ℕ → Bool
is_word c = is_between 65 90 c || is_between 97 122 c || is_between 48 57 c || c == 95

abbrev pub lower : ℕ → ℕ
lower c = if is_between 65 90 c then c + 32 else c

abbrev pub has_text : List ℕ → List (List ℕ) → Bool
has_text t ts = any (same_text t) ts

abbrev pub add_tag : List ℕ → List (List ℕ) → List (List ℕ)
add_tag [] tags = tags
add_tag (c ∷ cs) tags = if has_text (c ∷ cs) tags then tags else tags ++ (c ∷ cs) ∷ []

-- The tags of a text, from left to right and each once; `tag` is the one that is being read.
unfoldable pub tags_from : Option (List ℕ) → List (List ℕ) → List ℕ → List (List ℕ)
tags_from none tags [] = tags
tags_from (some tag) tags [] = add_tag tag tags
tags_from none tags (c ∷ cs) = tags_from (if c == 35 then some [] else none) tags cs
tags_from (some tag) tags (c ∷ cs) =
    if is_word c
    then tags_from (some (tag ++ lower c ∷ [])) tags cs
    else tags_from (if c == 35 then some [] else none) (add_tag tag tags) cs

abbrev pub keywords_from_text : List ℕ → List (List ℕ)
keywords_from_text text = tags_from none [] text

-- 'Unknown'
abbrev pub unknown_author : ℕ
unknown_author = 0

pub record PostCreated : Type 0 where
  pub post_id : ℕ
  pub author_id : ℕ
  pub text : List ℕ
  pub created_at : ℕ

abbrev pub document_from_post_created : PostCreated → ℕ → Document
document_from_post_created event name = record {
  post_id = event.post_id;
  author_id = event.author_id;
  author_name = name;
  text = event.text;
  keywords = keywords_from_text event.text;
  created_at = event.created_at;
  deleted_at = none;
}

pub record PostDeleted : Type 0 where
  pub post_id : ℕ
  pub author_id : ℕ
  pub deleted_at : ℕ

abbrev pub tombstone_from_post_deleted : PostDeleted → Document
tombstone_from_post_deleted event = record {
  post_id = event.post_id;
  author_id = event.author_id;
  author_name = unknown_author;
  text = [];
  keywords = [];
  created_at = event.deleted_at;
  deleted_at = some event.deleted_at;
}

-- An event that the schemas reject is `unparsed`; `other` is not a concern of the search.
pub data Event : Type 0 where
  post_created : PostCreated → Event
  post_deleted : PostDeleted → Event
  profile_updated : ℕ → ℕ → Event
  unparsed other : Event

pub record Position : Type 0 where
  pub offset : ℕ
  pub event_id : ℕ
  pub event_at : ℕ

pub record BatchEvent : Type 0 where
  pub event : Event
  pub position : Position

pub record PendingBatch : Type 0 where
  pub documents : List Document
  pub renames : List (ℕ × ℕ)
  pub last : Option Position

-- `Map.set`: a key that is there keeps its place.
abbrev pub same_post : Document → Document → Bool
same_post d x = x.post_id == d.post_id

abbrev pub set_document : Document → List Document → List Document
set_document d ds =
    if any (same_post d) ds then map_where (same_post d) (λ x. d) ds else ds ++ d ∷ []

abbrev pub set_rename : ℕ → ℕ → List (ℕ × ℕ) → List (ℕ × ℕ)
set_rename author name rs =
    if any (λ r. r.0 == author) rs
    then map_where (λ r. r.0 == author) (λ r. (author, name)) rs
    else rs ++ (author, name) ∷ []

abbrev pub add_event : Event → PendingBatch → PendingBatch
add_event (post_created e) b = record b {
  documents = set_document (document_from_post_created e unknown_author) b.documents;
}
add_event (post_deleted e) b = record b {
  documents = set_document (tombstone_from_post_deleted e) b.documents;
}
add_event (profile_updated author name) b = record b { renames = set_rename author name b.renames }
add_event unparsed b = b
add_event other b = b

unfoldable pub collect_from : PendingBatch → List BatchEvent → PendingBatch
collect_from b [] = b
collect_from b (e ∷ es) = collect_from (record (add_event e.event b) { last = some e.position }) es

abbrev pub collect_batch : List BatchEvent → PendingBatch
collect_batch events = collect_from (record { documents = []; renames = []; last = none }) events
