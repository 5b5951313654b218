-- ===== src/Posts/Attachments.antt =====
-- The images of a new post, in the order of the request and each once
-- (apps/services/posts/src/modules/posts.service.ts, create, requireAttachable).
use xitter.Prelude.{
  ℕ, ◌≡◌, refl, true, not, ◌&&◌, Option, none, some, List, [], ◌∷◌, map, arith, ◌==◌, count,
  if◌then◌else◌, is_some, is_empty, find?, any, all, Option-cases, inl, inr,
}
use xitter.Database.Counts.{one_if}
use xitter.Posts.{Asset, ok, err, bad_request, unavailable}
use xitter.Posts.Service.{
  Peers, Entry, media_ids_of, alt_texts_of, distinct_from, distinct, is_ready, pick,
}
use xitter.Posts.Drafts.{attached}

find-ready :
    (resolved : List Asset) (id : ℕ)
    → is_ready resolved id ≡ true
    → is_some (find? (λ a. a.id == id) resolved) ≡ true
unfolding is_ready find? any
find-ready [] id e = ground arith
find-ready (a ∷ rest) id e = ground (arith, find-ready rest id)

find-id :
    (resolved : List Asset) (id : ℕ) (a : Asset)
    → find? (λ x. x.id == id) resolved ≡ some a
    → a.id ≡ id
unfolding find?
find-id [] id a e = ground arith
find-id (x ∷ rest) id a e = ground (arith, find-id rest id a)

pick-ids :
    (resolved : List Asset) (ids : List ℕ)
    → all (is_ready resolved) ids ≡ true
    → map (λ a. a.id) (pick resolved ids) ≡ ids
unfolding pick all
pick-ids resolved [] e = refl
pick-ids resolved (id ∷ ids) e = elim (Option-cases (find? (λ a. a.id == id) resolved)) [
  | inl missing ↦ absurd (ground (arith, find-ready resolved id))
  | inr (a, found) ↦ ground (arith, pick-ids resolved ids, find-id resolved id a)
]

distinct_from-count :
    (seen ids : List ℕ) (i : ℕ)
    → count (λ j. j == i) (distinct_from seen ids)
      ≡ one_if (any (λ j. j == i) ids && not (any (λ j. j == i) seen))
unfolding distinct_from count any
distinct_from-count seen [] i = refl
distinct_from-count seen (j ∷ js) i =
    ground (arith, distinct_from-count seen js i, distinct_from-count (j ∷ seen) js i)

in_order :
    (ids : List ℕ) (answer : Option (List Asset)) (media : List Asset)
    → (if is_empty ids then ok [] else elim answer [
      | none ↦ err unavailable
      | some resolved ↦
          if all (is_ready resolved) ids then ok (pick resolved ids) else err bad_request
    ])
      ≡ ok media
    → map (λ a. a.id) media ≡ ids
in_order [] answer media e = ground arith
in_order (x ∷ xs) none media e = ground arith
in_order (x ∷ xs) (some resolved) media e = ground (arith, pick-ids resolved (x ∷ xs))

-- The images that go with a post are those of the request, in its order and each of them once,
-- whatever the media service answers.
pub attached-in_order :
    (peers : Peers) (author : ℕ) (entries : List Entry) (media : List Asset) (i : ℕ)
    → attached peers author entries ≡ ok media
    → (map (λ a. a.id) media ≡ distinct (media_ids_of entries))
      × (count (λ j. j == i) (map (λ a. a.id) media)
          ≡ one_if (any (λ j. j == i) (media_ids_of entries)))
unfolding any
attached-in_order peers author entries media i e =
    let ids : map (λ a. a.id) media ≡ distinct (media_ids_of entries) =
      in_order (distinct (media_ids_of entries))
        (peers.resolve author (distinct (media_ids_of entries)) (alt_texts_of entries)) media e in
    (ids, rw ids (ground (arith, distinct_from-count [] (media_ids_of entries) i)))
