-- ===== src/Search/Hydrated.antt =====
-- The posts of the hits, joined from the posts service
-- (apps/services/search/src/modules/search.service.ts, hydrate).
use xitter.Prelude.{
  ℕ, suc, ◌≤◌, ◌≡◌, refl, sym, ap, ◌∙◌, ◌⊎◌, inl, inr, Bool, Option, none, some, List, [], ◌∷◌,
  ◌++◌, any, true, ◌==◌, map, length, Option-cases, if◌then◌else◌, is_empty, arith,
}
use xitter.SearchIndex.{Document}
use xitter.Feed.{distinct}
use xitter.Feed.Distinct.{distinct-any}
use xitter.Feed.Page.{Post, Content, reply_targets, authors_of}
use xitter.Search.{Engine, hit_of, SearchItem, render_hits, hydrate}

abbrev pub posts_of : List SearchItem → List Post
posts_of items = map (λ i. i.post) items

module _ (posts : ℕ → Option Post) where
  -- The posts of documents, those that are gone left out.
  abbrev pub visible : List Document → List Post
  visible [] = []
  visible (d ∷ ds) = elim (posts d.post_id) [ none ↦ visible ds | some p ↦ p ∷ visible ds ]

module _ (engine : Engine) (content : Content) (index : engine.Index) (posts : ℕ → Option Post)
    (stable : (ids : List ℕ)
      → (content.posts ids ≡ none)
        ⊎ ((answer : ℕ → Option Post) × (content.posts ids ≡ some answer)
            × ((id : ℕ) → answer id ≡ (if any (λ i. i == id) ids then posts id else none)))) where
  pub visible-append :
      (xs ys : List Document) → visible posts (xs ++ ys) ≡ visible posts xs ++ visible posts ys
  visible-append [] ys = refl
  visible-append (x ∷ xs) ys = ground (arith, visible-append xs ys)

  -- Only the posts that were asked for are in the answer.
  render_posts :
      (answer parents : ℕ → Option Post) (profiles : ℕ → Bool) (ds : List Document)
      → ((id : ℕ) → any (λ d. d.post_id == id) ds ≡ true → answer id ≡ posts id)
      → posts_of (render_hits answer parents profiles (map hit_of ds)) ≡ visible posts ds
  unfolding render_hits any
  render_posts answer parents profiles [] h = refl
  render_posts answer parents profiles (d ∷ ds) h =
      let first = h d.post_id (ground arith) in
      let rest = render_posts answer parents profiles ds (λ id e. h id (ground arith)) in
      ground (arith, first, rest)

  asked :
      (id : ℕ) (ds : List Document)
      → any (λ i. i == id) (map (λ h. h.post_id) (map hit_of ds)) ≡ any (λ d. d.post_id == id) ds
  unfolding any
  asked id [] = refl
  asked id (d ∷ ds) = ground (arith, asked id ds)

  pub length-visible-le : (ds : List Document) → length (visible posts ds) ≤ length ds
  length-visible-le [] = omega arith
  length-visible-le (d ∷ ds) = ground (arith, length-visible-le ds)

  hydrate_lem :
      (ds : List Document) (shown : List SearchItem)
      → hydrate engine content index (map hit_of ds) ≡ some shown
      → posts_of shown ≡ visible posts ds
  unfolding hydrate
  hydrate_lem [] shown h = cc
  hydrate_lem (d ∷ ds) shown h =
      let hits = map hit_of (d ∷ ds) in
      let ids = distinct (map (λ h. h.post_id) hits) in
      elim (stable ids) [
        | inl no_posts ↦ absurd (cc (rw (no_posts, hydrate) at h))
        | inr (answer, answered, only) ↦
            let targets = distinct (reply_targets answer ids) in
            rendered answer
              (λ id there.
                only id
                ∙ rw (distinct-any id (map (λ h. h.post_id) hits) ∙ asked id (d ∷ ds) ∙ there) refl)
              (if is_empty targets then some (λ id. none) else content.posts targets)
              (λ parents.
                content.profiles
                  (distinct (map (λ h. h.author_id) hits ++ authors_of parents targets)))
              (rw (answered, hydrate) at h)
      ]
    where
      rendered :
          (answer : ℕ → Option Post)
          → ((id : ℕ) → any (λ d. d.post_id == id) (d ∷ ds) ≡ true → answer id ≡ posts id)
          → (read : Option (ℕ → Option Post)) (look_up : (ℕ → Option Post) → Option (ℕ → Bool))
          → elim read [
            | none ↦ none
            | some parents ↦ elim (look_up parents) [
              | none ↦ none
              | some profiles ↦ some (render_hits answer parents profiles (map hit_of (d ∷ ds)))
            ]
          ]
            ≡ some shown
          → posts_of shown ≡ visible posts (d ∷ ds)
      rendered answer known none look_up e = absurd (cc e)
      rendered answer known (some parents) look_up e = elim (Option-cases (look_up parents)) [
        | inl no_profiles ↦ absurd (cc (rw no_profiles at e))
        | inr (profiles, named) ↦
            let same : render_hits answer parents profiles (map hit_of (d ∷ ds)) ≡ shown =
              cc (rw named at e) in
            ap posts_of (sym same) ∙ render_posts answer parents profiles (d ∷ ds) known
      ]

  pub length-posts_of : (items : List SearchItem) → length (posts_of items) ≡ length items
  length-posts_of [] = refl
  length-posts_of (i ∷ is) = ap suc (length-posts_of is)

  pub hydrated :
      (ds : List Document)
      → (hydrate engine content index (map hit_of ds) ≡ none)
        ⊎ ((shown : List SearchItem) × (hydrate engine content index (map hit_of ds) ≡ some shown)
            × (posts_of shown ≡ visible posts ds))
  hydrated ds = elim (Option-cases (hydrate engine content index (map hit_of ds))) [
    | inl e ↦ inl e
    | inr (shown, e) ↦ inr (shown, e, hydrate_lem ds shown e)
  ]
