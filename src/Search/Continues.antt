-- ===== src/Search/Continues.antt =====
-- A page of a search and what is left after it (apps/services/search/src/modules/search.service.ts,
-- searchPosts).
use mathlib.Core.List.{append_assoc, append-nil, map-append}
use mathlib.Core.Path.{subst}
use xitter.Prelude.{
  ℕ, zero, suc, ◌-◌, ◌≤◌, ◌<◌, min, ◌≡◌, refl, ap, any, ◌==◌, if◌then◌else◌, ◌⊎◌, inl, inr, true,
  Option, none, some, List, [], ◌++◌, take, length, ltb, length-append, length-take-le, Bool-cases,
  Option-cases, arith,
}
use xitter.Http.{ok}
use xitter.Paging.{place, Position, Cursor, start, garbage, from}
use xitter.Paging.Sorted.{Distinct}
use xitter.Paging.Cuts.{take_all}
use xitter.SearchIndex.{Document}
use xitter.Feed.Page.{Post, Content}
use xitter.Search.{
  Text, Engine, PostHit, position_of, SearchItem, SearchPage, search, hydrate, walk, search_from,
  search_posts,
}
use xitter.Search.Results.{
  remaining, Hits, outage, all_hits, some_hits, results_after, options, search_lem, resume_point,
}
use xitter.Search.Hydrated.{
  posts_of, visible, visible-append, length-visible-le, length-posts_of, hydrated,
}

lt→ltb : (a b : ℕ) → a < b → ltb a b ≡ true
lt→ltb a b h = ground arith

module _ (engine : Engine) (content : Content) (index : engine.Index)
    (unique : Distinct position_of (engine.documents index)) (posts : ℕ → Option Post)
    (stable : (ids : List ℕ)
      → (content.posts ids ≡ none)
        ⊎ ((answer : ℕ → Option Post) × (content.posts ids ≡ some answer)
            × ((id : ℕ) → answer id ≡ (if any (λ i. i == id) ids then posts id else none))))
    (q : Text) (blocked : List ℕ) where
  -- The items of a page and what is left after it, within the limit.
  abbrev pub Continues : ℕ → List Post → SearchPage → Type 0
  Continues limit all page =
      (posts_of page.items ++ visible posts (remaining engine index q blocked page.next_cursor)
        ≡ all)
      × (length page.items ≤ limit)

  abbrev page_of : ℕ → List SearchItem → Option Position → SearchPage
  page_of limit items next = record { items = take limit items; next_cursor = next }

  page_lem :
      (limit : ℕ) (items : List SearchItem) (next : Option Position)
      → length items ≤ limit
      → Continues limit
          (posts_of items ++ visible posts (remaining engine index q blocked next))
          (page_of limit items next)
  page_lem limit items next h = rw (take_all limit items h) (refl, h)

  -- A walk that goes on from where the items end.
  abbrev Resumes : ℕ → ℕ → Type 0
  Resumes limit n =
      (p : Position) (items : List SearchItem) (page : SearchPage)
      → length items ≤ limit
      → walk engine content index n q limit blocked (some p) (some p) items ≡ some page
      → Continues limit
          (posts_of items ++ visible posts (results_after engine index q blocked (some p))) page

  -- What a walk does with the hits of its search.
  abbrev after_hits :
      ℕ → ℕ → List SearchItem → Option (List PostHit × Option Position) → Option SearchPage
  after_hits limit n items hits = elim hits [
    | none ↦ none
    | some (hs, next_after) ↦ elim (hydrate engine content index hs) [
      | none ↦ none
      | some shown ↦ elim next_after [
        | none ↦ some (page_of limit (items ++ shown) none)
        | some p ↦ walk engine content index n q limit blocked (some p) (some p) (items ++ shown)
      ]
    ]
  ]

  fits :
      (items shown : List SearchItem) (ds : List Document) (limit : ℕ)
      → posts_of shown ≡ visible posts ds
      → length ds ≤ limit - length items
      → length items < limit
      → length (items ++ shown) ≤ limit
  fits items shown ds limit e h k = omega (
    arith,
    length-append items shown,
    length-posts_of engine content index posts stable shown,
    ap length e,
    length-visible-le engine content index posts stable ds,
  )

  -- The items with those of the hits, then the rest of the results.
  regroup :
      (items shown : List SearchItem) (xs ys all : List Document)
      → posts_of shown ≡ visible posts xs
      → xs ++ ys ≡ all
      → posts_of (items ++ shown) ++ visible posts ys ≡ posts_of items ++ visible posts all
  regroup items shown xs ys all e h =
      rw (map-append, e, append_assoc, ← h, visible-append engine content index posts stable xs ys)
        refl

  walk_on :
      (limit n : ℕ) (position : Option Position) (items : List SearchItem) (page : SearchPage)
      (hits : Option (List PostHit × Option Position))
      → length items < limit
      → Resumes limit n
      → Hits engine content index unique q blocked (limit - length items) position hits
      → after_hits limit n items hits ≡ some page
      → Continues limit
          (posts_of items ++ visible posts (results_after engine index q blocked position))
          page
  walk_on limit n position items page hits room resumes outage h = absurd (cc h)
  walk_on limit n position items page hits room resumes (all_hits few) h =
      let ds = results_after engine index q blocked position in
      elim (hydrated engine content index posts stable ds) [
        | inl e ↦ absurd (cc (rw (e, after_hits) at h))
        | inr (shown, e, same) ↦
            let all = fits items shown ds limit same few room in
            let ends : page_of limit (items ++ shown) none ≡ page = cc (rw (e, after_hits) at h) in
            subst (Continues limit (posts_of items ++ visible posts ds)) ends (
              rw (← regroup items shown ds [] ds same (append-nil ds))
                (page_lem limit (items ++ shown) none all))
      ]
  walk_on limit n position items page hits room resumes (some_hits r many at_end) h =
      let ds = take (limit - length items) (results_after engine index q blocked position) in
      elim (hydrated engine content index posts stable ds) [
        | inl e ↦ absurd (cc (rw (e, after_hits) at h))
        | inr (shown, e, same) ↦
            let short =
              length-take-le (limit - length items)
                (results_after engine index q blocked position) in
            let all = fits items shown ds limit same short room in
            let more =
              resume_point engine content index unique q blocked (limit - length items) position r
                (omega arith) at_end in
            rw
              (← regroup items shown ds
                (results_after engine index q blocked (some (position_of r)))
                (results_after engine index q blocked position) same more)
              (resumes (position_of r) (items ++ shown) page all (rw (e, after_hits) at h))
      ]

  search_at :
      (limit : ℕ) (position : Option Position) (items : List SearchItem)
      → length items < limit
      → Hits engine content index unique q blocked (limit - length items) position (
          search engine content index
            (options engine content index unique q blocked (limit - length items) position))
  search_at limit position items room =
      let k = limit - length items - 1 in
      let e : limit - length items ≡ suc k = omega arith in
      rw e (search_lem engine content index unique q blocked k position)

  -- One walk, where there is room for more items.
  walk_once :
      (limit n : ℕ) (position next : Option Position) (items : List SearchItem) (page : SearchPage)
      → length items < limit
      → Resumes limit n
      → walk engine content index (suc n) q limit blocked position next items ≡ some page
      → Continues limit
          (posts_of items ++ visible posts (results_after engine index q blocked position))
          page
  unfolding walk
  walk_once limit n position next items page room resumes h =
      walk_on limit n position items page _ room resumes (search_at limit position items room)
        (rw (lt→ltb (length items) limit room) at h)

  resumes : (limit n : ℕ) → Resumes limit n
  unfolding walk
  resumes limit zero p items page fit h =
      let ends : page_of limit items (some p) ≡ page = cc h in
      subst
        (Continues limit
          (posts_of items ++ visible posts (results_after engine index q blocked (some p))))
        ends (page_lem limit items (some p) fit)
  resumes limit (suc n) p items page fit h = elim (Bool-cases (ltb (length items) limit)) [
    | inl room ↦
        walk_once limit n (some p) (some p) items page (ground (arith, room)) (resumes limit n) h
    | inr full ↦
        let ends : page_of limit items (some p) ≡ page = cc (rw full at h) in
        subst
          (Continues limit
            (posts_of items ++ visible posts (results_after engine index q blocked (some p))))
          ends (page_lem limit items (some p) fit)
  ]

  start_lem :
      (limit : ℕ) (position : Option Position) (page : SearchPage)
      → 0 < limit
      → walk engine content index 4 q limit blocked position none [] ≡ some page
      → Continues limit (visible posts (results_after engine index q blocked position)) page
  start_lem limit position page h e = walk_once limit 3 position none [] page h (resumes limit 3) e

  search_from_lem :
      (user : ℕ) (position : Option Position) (limit : ℕ) (page : SearchPage)
      → content.blocked_author_ids user ≡ some blocked
      → 0 < limit
      → search_from engine content index user q position limit ≡ ok page
      → Continues
          (min limit 50)
          (visible posts (results_after engine index q blocked position))
          page
  unfolding search_from
  search_from_lem user position limit page b h e =
      elim (Option-cases (walk engine content index 4 q (min limit 50) blocked position none [])) [
        | inl nothing ↦ absurd (cc (rw (b, nothing, search_from) at e))
        | inr (p, walked) ↦
            let same : p ≡ page = cc (rw (b, walked, search_from) at e) in
            subst
              (Continues (min limit 50)
                (visible posts (results_after engine index q blocked position)))
              same (start_lem (min limit 50) position p (omega arith) walked)
      ]

  -- Take an index in which the ids are unique and which does not change meanwhile, a posts service
  -- that answers each lookup with those of the ids asked for that it has, always alike, or fails, and a
  -- limit that is not zero. The posts on a page that
  -- is answered, followed by those that its cursor has left (none, where there is no cursor), are
  -- the posts that the cursor of the request has left: live, with the text or the hashtag, by
  -- authors whom the viewer has not blocked, not gone from the posts service, and newest first. So
  -- no page skips or repeats one. A page has no more than the limit, and never more than 50.
  pub search_posts-continues :
      (user : ℕ) (cursor : Cursor) (limit : ℕ) (page : SearchPage)
      → content.blocked_author_ids user ≡ some blocked
      → 0 < limit
      → search_posts engine content index user q cursor limit ≡ ok page
      → (posts_of page.items ++ visible posts (remaining engine index q blocked page.next_cursor)
          ≡ visible posts (results_after engine index q blocked (place cursor)))
        × (length page.items ≤ min limit 50)
  unfolding search_posts
  search_posts-continues user start limit page b h e = search_from_lem user none limit page b h e
  search_posts-continues user garbage limit page b h e = absurd (cc e)
  search_posts-continues user (from p) limit page b h e =
      search_from_lem user (some p) limit page b h e
