-- ===== src/SearchIndex/Batch.antt =====
-- What a batch collects (apps/workers/search-index/src/handlers.ts, collectBatch).
use xitter.Prelude.{
  ℕ, ◌≡◌, refl, ◌∙◌, Bool, true, false, Option, none, some, List, [], ◌∷◌, ◌++◌, map, any,
  map_where, ◌==◌, if◌then◌else◌, arith, Bool-cases, inl, inr,
}
use xitter.SearchIndex.{
  Document, Event, post_created, post_deleted, profile_updated, unparsed, other, BatchEvent,
  PendingBatch, override, set_document, same_post, add_event, collect_from,
  document_from_post_created, tombstone_from_post_deleted, unknown_author,
}

-- A document without the name of its author, which the profile decides.
abbrev pub shape : Document → Document
shape d = record d { author_name = unknown_author }

abbrev pub shape_of : Option Document → Option Document
shape_of none = none
shape_of (some d) = some (shape d)

-- What one event says about a post, and what a list of events says, one after another.
abbrev pub index_event : ℕ → Event → Option Document → Option Document
index_event post (post_created e) before =
    if e.post_id == post then some (document_from_post_created e unknown_author) else before
index_event post (post_deleted e) before =
    if e.post_id == post then some (tombstone_from_post_deleted e) else before
index_event post (profile_updated author name) before = before
index_event post unparsed before = before
index_event post other before = before

unfoldable pub index_events : ℕ → List BatchEvent → Option Document → Option Document
index_events post [] before = before
index_events post (e ∷ es) before = index_events post es (index_event post e.event before)

pub override-append :
    (post : ℕ) (xs ys : List Document) (before : Option Document)
    → override post (xs ++ ys) before ≡ override post ys (override post xs before)
unfolding override
override-append post [] ys before = refl
override-append post (x ∷ xs) ys before = override-append post xs ys _

override_absent :
    (post : ℕ) (d : Document) (ds : List Document) (before : Option Document)
    → any (same_post d) ds ≡ false
    → d.post_id ≡ post
    → override post ds before ≡ before
unfolding override any
override_absent post d [] before h e = refl
override_absent post d (x ∷ xs) before h e = ground (arith, h, e, override_absent post d xs before)

map_where_absent :
    {A : Type 0}
    → (p : A → Bool) (f : A → A) (xs : List A) → any p xs ≡ false
    → map_where p f xs ≡ xs
unfolding any map_where
map_where_absent p f [] h = refl
map_where_absent p f (x ∷ xs) h = ground (arith, h, map_where_absent p f xs)

override_replaced :
    (post : ℕ) (d : Document) (ds : List Document) (before : Option Document)
    → any (same_post d) ds ≡ true
    → d.post_id ≡ post
    → override post (map_where (same_post d) (λ x. d) ds) before ≡ some d
unfolding override any map_where
override_replaced post d [] before h e = absurd (cc h)
override_replaced post d (x ∷ xs) before h e = elim (Bool-cases (any (same_post d) xs)) [
  | inl more ↦ override_replaced post d xs _ more e
  | inr no_more ↦ ground (
    arith,
    h,
    e,
    no_more,
    map_where_absent (same_post d) (λ y. d) xs,
    override_absent post d xs (some d) no_more e,
  )
]

override_other :
    (post : ℕ) (d : Document) (ds : List Document) (before : Option Document)
    → (d.post_id == post) ≡ false
    → override post (map_where (same_post d) (λ x. d) ds) before ≡ override post ds before
unfolding override map_where
override_other post d [] before e = refl
override_other post d (x ∷ xs) before e = elim (Bool-cases (same_post d x)) [
  | inl here ↦ rw here (ground (arith, e, here, override_other post d xs before))
  | inr elsewhere ↦ rw elsewhere (override_other post d xs _ e)
]

override-set_document :
    (post : ℕ) (d : Document) (ds : List Document) (before : Option Document)
    → override post (set_document d ds) before
      ≡ (if d.post_id == post then some d else override post ds before)
unfolding override
override-set_document post d ds before = elim (Bool-cases (any (same_post d) ds)) [
  | inl there ↦ elim (Bool-cases (d.post_id == post)) [
    | inl mine ↦ ground (arith, there, mine, override_replaced post d ds before)
    | inr other_post ↦ ground (arith, there, other_post, override_other post d ds before)
  ]
  | inr absent ↦ ground (arith, absent, override-append post ds (d ∷ []) before)
]

override-add_event :
    (post : ℕ) (e : Event) (b : PendingBatch) (before : Option Document)
    → shape_of (override post (add_event e b).documents before)
      ≡ index_event post e (shape_of (override post b.documents before))
override-add_event post (post_created e) b before = ground (
  arith,
  override-set_document post (document_from_post_created e unknown_author) b.documents before,
)
override-add_event post (post_deleted e) b before =
    ground (arith, override-set_document post (tombstone_from_post_deleted e) b.documents before)
override-add_event post (profile_updated author name) b before = refl
override-add_event post unparsed b before = refl
override-add_event post other b before = refl

-- A batch says of a post what its events say, one after another.
pub override-collect_from :
    (post : ℕ) (es : List BatchEvent) (b : PendingBatch) (before : Option Document)
    → shape_of (override post (collect_from b es).documents before)
      ≡ index_events post es (shape_of (override post b.documents before))
unfolding collect_from index_events
override-collect_from post [] b before = refl
override-collect_from post (e ∷ es) b before =
    override-collect_from post es (record (add_event e.event b) { last = some e.position }) before
    ∙ rw (override-add_event post e.event b before) refl

pub index_events-append :
    (post : ℕ) (xs ys : List BatchEvent) (before : Option Document)
    → index_events post (xs ++ ys) before ≡ index_events post ys (index_events post xs before)
unfolding index_events
index_events-append post [] ys before = refl
index_events-append post (x ∷ xs) ys before = index_events-append post xs ys _

-- Documents that differ in their authors' names alone have the same shapes.
pub override-map :
    (post : ℕ) (g : Document → Document) (ds : List Document) (before before' : Option Document)
    → ((d : Document) → (g d).post_id ≡ d.post_id)
    → ((d : Document) → shape (g d) ≡ shape d)
    → shape_of before' ≡ shape_of before
    → shape_of (override post (map g ds) before') ≡ shape_of (override post ds before)
unfolding override
override-map post g [] before before' ids shapes e = e
override-map post g (d ∷ ds) before before' ids shapes e =
    override-map post g ds _ _ ids shapes (ground (arith, ids d, shapes d, e))
