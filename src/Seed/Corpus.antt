-- ===== src/Seed/Corpus.antt =====
-- The posts of a whole corpus (packages/scripts/src/seed.ts, seedPosts).
use mathlib.Core.Path.{subst}
use xitter.Prelude.{
  ℕ, suc, ◌≡◌, refl, sym, ap, ◌∙◌, Option, none, some, List, [], ◌∷◌, Option-cases, inl, inr, arith,
}
use xitter.Seed.{
  Stored, Server, Answer, ok, failed, attempt_json, request_json, Body, row_of, insert_post, create,
  create_post, CorpusPost, Slots, reply_target, body_of, seed_posts,
}
use xitter.Seed.Once.{IsNew, Posted, create_post-Posted}

-- The service from here on without a disturbance.
abbrev pub quiet : Server → Server
quiet w = record w { script = [] }

quiet-create_post :
    (body : Body) (w : Server)
    → create_post body (quiet w) ≡ (ok w.next_id, (insert_post body (quiet w)).1)
unfolding create_post create request_json attempt_json
quiet-create_post body w = refl

module _ (seed_time : ℕ) where
  -- Along the undisturbed run, each post is new to its author, who has less than a page of posts.
  abbrev pub IsFresh : List CorpusPost → Slots → List Stored → ℕ → Type 0
  IsFresh [] slots rows next = Unit {0}
  IsFresh (p ∷ ps) slots rows next = elim (reply_target slots p.reply_to) [
    | none ↦ Unit {0}
    | some reply_to_id ↦
        IsNew (body_of seed_time p reply_to_id) rows
        × IsFresh ps ((p.slot, next) ∷ slots) (row_of next (body_of seed_time p reply_to_id) ∷ rows)
            (suc next)
  ]

  -- What a run does after the create of a post.
  abbrev after_create :
      CorpusPost → List CorpusPost → Slots → Answer ℕ × Server → Answer Slots × Server
  after_create p ps slots c = elim c.0 [
    | failed f ↦ (failed f, c.1)
    | ok id ↦ seed_posts seed_time ps ((p.slot, id) ∷ slots) c.1
  ]

  seed_cons :
      (p : CorpusPost) (ps : List CorpusPost) (slots : Slots) (w : Server) (r : Option ℕ)
      → reply_target slots p.reply_to ≡ some r
      → seed_posts seed_time (p ∷ ps) slots w
        ≡ after_create p ps slots (create_post (body_of seed_time p r) w)
  unfolding seed_posts
  seed_cons p ps slots w r there = rw (there, seed_posts) refl

  -- A corpus whose posts are each new to their author, who has fewer than 50 posts at that point of
  -- the undisturbed run (the page in which a twin is looked for), on a service where each request may be
  -- refused, not arrive, or lose its answer: a run that resolves leaves the rows, and answers the
  -- ids, of the undisturbed run. No post is created twice and none is missing.
  pub seed_posts-quiet :
      (ps : List CorpusPost) (slots ids : Slots) (w v : Server)
      → IsFresh ps slots w.rows w.next_id
      → seed_posts seed_time ps slots w ≡ (ok ids, v)
      → seed_posts seed_time ps slots (quiet w) ≡ (ok ids, quiet v)
  unfolding seed_posts
  seed_posts-quiet [] slots ids w v new h = ap (λ r. (r.0, quiet r.1)) h
  seed_posts-quiet (p ∷ ps) slots ids w v new h =
      elim (Option-cases (reply_target slots p.reply_to)) [
        | inl missing ↦ absurd (cc (rw (missing, seed_posts) at h))
        | inr (r, there) ↦
            let body = body_of seed_time p r in
            let fresh = rw (there, IsFresh) at new in
            seed_cons p ps slots (quiet w) r there
            ∙ ap (after_create p ps slots) (quiet-create_post body w)
            ∙ posted (seed_posts-quiet ps) r fresh.0 fresh.1 (create_post body w)
                (create_post-Posted body w fresh.0) (sym (seed_cons p ps slots w r there) ∙ h)
      ]
    where
      posted :
          ((slots' ids' : Slots) (w' v' : Server)
            → IsFresh ps slots' w'.rows w'.next_id
            → seed_posts seed_time ps slots' w' ≡ (ok ids', v')
            → seed_posts seed_time ps slots' (quiet w') ≡ (ok ids', quiet v'))
          → (r : Option ℕ) → IsNew (body_of seed_time p r) w.rows
          → IsFresh ps
              ((p.slot, w.next_id) ∷ slots)
              (row_of w.next_id (body_of seed_time p r) ∷ w.rows)
              (suc w.next_id)
          → (c : Answer ℕ × Server) → Posted (body_of seed_time p r) w c
          → after_create p ps slots c ≡ (ok ids, v)
          → seed_posts seed_time ps
              ((p.slot, w.next_id) ∷ slots)
              (insert_post (body_of seed_time p r) (quiet w)).1
            ≡ (ok ids, quiet v)
      posted rest r new_one fresh (failed f, u) done e = absurd (cc e)
      posted rest r new_one fresh (ok id, u) done e =
          let body = body_of seed_time p r in
          let same : quiet u ≡ (insert_post body (quiet w)).1 = ground (arith, done) in
          let slots' = (p.slot, id) ∷ slots in
          let tail = rest slots' ids u v (rw (done.0, done.1.0, done.1.1) fresh) e in
          subst (λ s. seed_posts seed_time ps ((p.slot, w.next_id) ∷ slots) s ≡ (ok ids, quiet v))
            same
            (subst
              (λ i. seed_posts seed_time ps ((p.slot, i) ∷ slots) (quiet u) ≡ (ok ids, quiet v))
              done.0 tail)
