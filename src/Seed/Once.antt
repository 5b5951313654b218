-- ===== src/Seed/Once.antt =====
-- Each post of the corpus is created once (packages/scripts/src/seed.ts, createPost and findTwinPost).
use xitter.Prelude.{
  ℕ, ◌≤◌, ◌<◌, ◌≡◌, refl, sym, ap, ◌∙◌, ◌⊎◌, inl, inr, Bool, true, false, ◌&&◌, Option, none, some,
  List, [], ◌∷◌, take, keep, length, same_text, Bool-cases, arith, ==_refl,
}
use xitter.Database.{sort, insert_sorted}
use xitter.Paging.{comes_first}
use xitter.Paging.Sorted.{keep-and}
use xitter.Paging.Cuts.{take_all, length-sort}
use xitter.Seed.{
  Stored, Server, refusal, unreached, ambiguous, Failure, Answer, ok, failed, any_transient,
  request_json, Body, row_of, stored_position, is_shown, timeline, read_timeline, is_twin,
  only_twin, twin_of, find_twin_post, create, adopt_or_create, reconcile, create_post,
}
use xitter.Seed.Requests.{Untouched, Landed, Created, Seen, request-Created, request-Seen}

abbrev pub Posted : Body → Server → Answer ℕ × Server → Type 0
Posted body w (ok id, v) = (id ≡ w.next_id) × Landed body w v
Posted body w (failed f, v) = Untouched w v ⊎ Landed body w v

same_text_refl : (t : List ℕ) → same_text t t ≡ true
same_text_refl [] = refl
same_text_refl (c ∷ cs) = ground (arith, same_text_refl cs)

module _ (q : Stored → Bool) (before : Stored → Stored → Bool) where
  keep-insert_none :
      (r : Stored) (xs : List Stored)
      → q r ≡ false
      → keep q xs ≡ []
      → keep q (insert_sorted before r xs) ≡ []
  unfolding keep insert_sorted
  keep-insert_none r [] h e = rw h refl
  keep-insert_none r (x ∷ xs) h e = elim (Bool-cases (q x)) [
    | inl yes' ↦ absurd (cc (rw yes' at e))
    | inr no' ↦ ground (arith, h, no', keep-insert_none r xs h (rw no' at e))
  ]

  keep-insert_one :
      (r : Stored) (xs : List Stored)
      → q r ≡ true
      → keep q xs ≡ []
      → keep q (insert_sorted before r xs) ≡ r ∷ []
  unfolding keep insert_sorted
  keep-insert_one r [] h e = rw h refl
  keep-insert_one r (x ∷ xs) h e = elim (Bool-cases (q x)) [
    | inl yes' ↦ absurd (cc (rw yes' at e))
    | inr no' ↦ ground (arith, h, no', e, keep-insert_one r xs h (rw no' at e))
  ]

  keep-sort_none : (xs : List Stored) → keep q xs ≡ [] → keep q (sort before xs) ≡ []
  unfolding keep sort
  keep-sort_none [] e = refl
  keep-sort_none (x ∷ xs) e = elim (Bool-cases (q x)) [
    | inl yes' ↦ absurd (cc (rw yes' at e))
    | inr no' ↦ keep-insert_none x (sort before xs) no' (keep-sort_none xs (rw no' at e))
  ]

abbrev pub is_own_twin : Body → Stored → Bool
is_own_twin body r = is_shown body.author_id r && is_twin body.text r

-- The author has no such post, and less than a page of posts.
abbrev pub IsNew : Body → List Stored → Type 0
IsNew body rows =
    (keep (is_own_twin body) rows ≡ []) × (length (keep (is_shown body.author_id) rows) < 50)

module _ (body : Body) where
  abbrev shown : List Stored → List Stored
  shown rows = keep (is_shown body.author_id) rows

  abbrev newest : List Stored → List Stored
  newest rows = sort (comes_first stored_position) (shown rows)

  whole_page : (rows : List Stored) → length (shown rows) ≤ 50 → take 50 (newest rows) ≡ newest rows
  whole_page rows h =
      take_all 50 (newest rows)
        (omega (arith, length-sort (comes_first stored_position) (shown rows)))

  no_twins :
      (rows : List Stored)
      → keep (is_own_twin body) rows ≡ []
      → keep (is_twin body.text) (shown rows) ≡ []
  no_twins rows e = sym (keep-and (is_shown body.author_id) (is_twin body.text) rows) ∙ e

  shown_row :
      (id : ℕ) (rows : List Stored) → shown (row_of id body ∷ rows) ≡ row_of id body ∷ shown rows
  unfolding keep
  shown_row id rows = rw (==_refl body.author_id) refl

  twin_row : (id : ℕ) → is_twin body.text (row_of id body) ≡ true
  twin_row id = same_text_refl body.text

  before_create :
      (rows : List Stored) → IsNew body rows → keep (is_twin body.text) (take 50 (newest rows)) ≡ []
  before_create rows h = rw (whole_page rows (omega (arith, h.1))) (
      keep-sort_none (is_twin body.text) (comes_first stored_position) (shown rows)
        (no_twins rows h.0))

  after_create :
      (id : ℕ) (rows : List Stored)
      → IsNew body rows
      → keep (is_twin body.text) (take 50 (newest (row_of id body ∷ rows))) ≡ row_of id body ∷ []
  unfolding sort
  after_create id rows h =
      let fits : length (shown (row_of id body ∷ rows)) ≤ 50 =
        rw (shown_row id rows) (omega (arith, h.1)) in
      rw (whole_page (row_of id body ∷ rows) fits, shown_row id rows)
        (keep-insert_one (is_twin body.text) (comes_first stored_position) (row_of id body)
          (newest rows) (twin_row id)
          (keep-sort_none (is_twin body.text) (comes_first stored_position) (shown rows)
            (no_twins rows h.0)))

  -- What the search for a twin answers.
  abbrev Searched : Server → List Stored → Answer (Option ℕ) × Server → Type 0
  Searched v twins r =
      Untouched v r.1 × (((f : Failure) × (r.0 ≡ failed f)) ⊎ (r.0 ≡ only_twin twins))

  twin_lem :
      (v : Server) (twins : List Stored)
      → keep (is_twin body.text) (timeline body.author_id v) ≡ twins
      → Searched v twins (find_twin_post body.author_id body.text v)
  unfolding find_twin_post
  twin_lem v twins e =
      judged (request_json 3 any_transient (read_timeline body.author_id) v)
        (request-Seen body.author_id 3 any_transient v)
    where
      judged :
          (a : Answer (List Stored) × Server)
          → Seen body.author_id v a
          → Searched v twins (twin_of body.text a)
      judged (failed f, u) s = (s, inl (f, refl))
      judged (ok items, u) s =
          (s.1, inr (ap (λ is. only_twin (keep (is_twin body.text) is)) s.0 ∙ ap only_twin e))

  Untouched-Posted :
      (w v : Server) (r : Answer ℕ × Server) → Untouched w v → Created body v r → Posted body w r
  Untouched-Posted w v (ok id, u) h c = ground (arith, h, c)
  Untouched-Posted w v (failed refusal, u) h c = ground (arith, h, c)
  Untouched-Posted w v (failed unreached, u) h c = ground (arith, h, c)
  Untouched-Posted w v (failed ambiguous, u) h c = ground (arith, h, c)

  -- The search after a create that died in flight, and what follows it.
  adopted :
      (w v : Server) (twins : List Stored) (found : Answer (Option ℕ) × Server)
      → (Untouched w v × (twins ≡ [])) ⊎ (Landed body w v × (twins ≡ row_of w.next_id body ∷ []))
      → Searched v twins found
      → Posted body w (adopt_or_create body found)
  unfolding create
  adopted w v twins (failed f, u) (inl (h, e)) (s, a) = inl (s.0 ∙ h.0, s.1 ∙ h.1)
  adopted w v twins (failed f, u) (inr (h, e)) (s, a) = inr (s.0 ∙ h.0, s.1 ∙ h.1)
  adopted w v twins (ok none, u) (inl (h, e)) (s, a) =
      Untouched-Posted w u (create body u) (s.0 ∙ h.0, s.1 ∙ h.1) (request-Created body 3 u)
  adopted w v twins (ok none, u) (inr (h, e)) (s, inl (f, none_failed)) = absurd (cc none_failed)
  adopted w v twins (ok none, u) (inr (h, e)) (s, inr only) = absurd (cc (only ∙ ap only_twin e))
  adopted w v twins (ok (some id), u) (inl (h, e)) (s, inl (f, some_failed)) =
      absurd (cc some_failed)
  adopted w v twins (ok (some id), u) (inl (h, e)) (s, inr only) =
      absurd (cc (only ∙ ap only_twin e))
  adopted w v twins (ok (some id), u) (inr (h, e)) (s, inl (f, some_failed)) =
      absurd (cc some_failed)
  adopted w v twins (ok (some id), u) (inr (h, e)) (s, inr only) =
      (cc (only ∙ ap only_twin e), (s.0 ∙ h.0, s.1 ∙ h.1))

  reconciled :
      (w : Server) (c : Answer ℕ × Server)
      → IsNew body w.rows
      → Created body w c
      → Posted body w (reconcile body c)
  reconciled w (ok id, v) new c = c
  reconciled w (failed refusal, v) new c = inl c
  reconciled w (failed unreached, v) new c = inl c
  reconciled w (failed ambiguous, v) new (inl h) =
      let none_yet : keep (is_twin body.text) (timeline body.author_id v) ≡ [] =
        ap (λ rows. keep (is_twin body.text) (take 50 (newest rows))) h.0
        ∙ before_create w.rows new in
      adopted w v [] (find_twin_post body.author_id body.text v) (inl (h, refl))
        (twin_lem v [] none_yet)
  reconciled w (failed ambiguous, v) new (inr h) =
      let own = row_of w.next_id body ∷ [] in
      let there : keep (is_twin body.text) (timeline body.author_id v) ≡ own =
        ap (λ rows. keep (is_twin body.text) (take 50 (newest rows))) h.0
        ∙ after_create w.next_id w.rows new in
      adopted w v own (find_twin_post body.author_id body.text v) (inr (h, refl))
        (twin_lem v own there)

  -- Whatever the requests come to, where the author has no such post and less than a page of posts:
  -- a create that resolves has added the post once, under the id that it answers, and nothing else;
  -- one that throws has added it once or not at all.
  pub create_post-Posted : (w : Server) → IsNew body w.rows → Posted body w (create_post body w)
  unfolding create_post create
  create_post-Posted w new = reconciled w (create body w) new (request-Created body 3 w)
