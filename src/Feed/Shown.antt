-- ===== src/Feed/Shown.antt =====
-- What a page of a home feed shows (apps/services/feed/src/modules/feed.service.ts, getFeed).
use xitter.Prelude.{
  ℕ, zero, suc, ◌-◌, ◌≤◌, ◌≡◌, refl, min, Bool, true, not, Option, none, some, List, [], ◌∷◌, ◌++◌,
  map, take, length, ◌==◌, all, ◌&&◌, arith, Option-cases, inl, inr, length-take-le,
}
use xitter.Feed.{distinct, FeedEntryRow, FeedDb, Feed}
use xitter.Feed.Page.{
  Post, ProfileView, known, placeholder, Viewer, Item, Content, Cursor, profile_or_placeholder,
  is_in, render, parents_of, profiles_of, page, hydrate, walk, get_feed,
}

abbrev pub view_id : ProfileView → ℕ
view_id (known id) = id
view_id (placeholder id) = id

-- The author of the post is not blocked, and it is the author that the card shows.
abbrev pub is_shown : List ℕ → Item → Bool
is_shown blocked i = not (is_in blocked i.post.author_id) && view_id i.author == i.post.author_id

all-append :
    {A : Type 0}
    → (p : A → Bool) (xs ys : List A) → all p xs ≡ true
    → all p ys ≡ true
    → all p (xs ++ ys) ≡ true
unfolding all
all-append p [] ys a b = b
all-append p (x ∷ xs) ys a b = ground (arith, all-append p xs ys)

all-take :
    {A : Type 0} → (p : A → Bool) (n : ℕ) (xs : List A) → all p xs ≡ true → all p (take n xs) ≡ true
unfolding all
all-take p zero xs a = refl
all-take p (suc n) [] a = refl
all-take p (suc n) (x ∷ xs) a = ground (arith, all-take p n xs)

view_id-or_placeholder :
    (profiles : ℕ → Bool) (id : ℕ) → view_id (profile_or_placeholder profiles id) ≡ id
view_id-or_placeholder profiles id = ground arith

render-shown :
    (blocked : List ℕ) (posts parents : ℕ → Option Post) (profiles : ℕ → Bool)
    (flags : ℕ → Option Viewer) (es : List FeedEntryRow)
    → all (is_shown blocked) (render blocked posts parents profiles flags es) ≡ true
unfolding render all
render-shown blocked posts parents profiles flags [] = refl
render-shown blocked posts parents profiles flags (e ∷ es) = elim (Option-cases (posts e.post_id)) [
  | inl gone ↦ ground (arith, render-shown blocked posts parents profiles flags es)
  | inr (post, here) ↦ ground (
    arith,
    render-shown blocked posts parents profiles flags es,
    view_id-or_placeholder profiles post.author_id,
  )
]

-- The same of the three reads that come before, each of which may fail.
joined-shown :
    (blocked : List ℕ) (flags : ℕ → Option Viewer) (es : List FeedEntryRow) (items : List Item)
    (posts : Option (ℕ → Option Post)) (parents_of : (ℕ → Option Post) → Option (ℕ → Option Post))
    (profiles_of : (ℕ → Option Post) → (ℕ → Option Post) → Option (ℕ → Bool))
    → elim posts [
      | none ↦ none
      | some posts ↦ elim (parents_of posts) [
        | none ↦ none
        | some parents ↦ elim (profiles_of posts parents) [
          | none ↦ none
          | some profiles ↦ some (render blocked posts parents profiles flags es)
        ]
      ]
    ]
      ≡ some items
    → all (is_shown blocked) items ≡ true
joined-shown blocked flags es items none parents_of profiles_of e = ground arith
joined-shown blocked flags es items (some posts) parents_of profiles_of e =
    elim (Option-cases (parents_of posts)) [
      | inl fails ↦ ground arith
      | inr (parents, there) ↦ elim (Option-cases (profiles_of posts parents)) [
        | inl fails ↦ ground arith
        | inr (profiles, read) ↦
            ground (arith, render-shown blocked posts parents profiles flags es)
      ]
    ]

module _ (db : FeedDb) (content : Content) (s : Feed) where
  hydrate-shown :
      (user : ℕ) (blocked : List ℕ) (es : List FeedEntryRow) (items : List Item)
      → hydrate db content s user blocked es ≡ some items
      → all (is_shown blocked) items ≡ true
  unfolding hydrate all
  hydrate-shown user blocked [] items e = ground arith
  hydrate-shown user blocked (x ∷ xs) items e =
      joined-shown blocked (content.viewer_state user (map (λ r. r.post_id) (x ∷ xs))) (x ∷ xs)
        items (content.posts (distinct (map (λ r. r.post_id) (x ∷ xs))))
        (parents_of db content s (map (λ r. r.post_id) (x ∷ xs)))
        (profiles_of db content s (x ∷ xs)) e

  walk-shown :
      (n user : ℕ) (blocked : List ℕ) (limit : ℕ) (cursor next : Cursor) (before items : List Item)
      (end : Cursor)
      → all (is_shown blocked) before ≡ true
      → walk db content s n user blocked limit cursor next before ≡ some (items, end)
      → (length items ≤ limit) × (all (is_shown blocked) items ≡ true)
  unfolding walk
  walk-shown zero user blocked limit cursor next before items end a e =
      ground (arith, length-take-le limit before, all-take (is_shown blocked) limit before a)
  walk-shown (suc n) user blocked limit cursor next before items end a e =
      let (entries, after) = page db content s user cursor (limit - length before) blocked in
      elim (Option-cases (hydrate db content s user blocked entries)) [
        | inl fails ↦
            ground (arith, length-take-le limit before, all-take (is_shown blocked) limit before a)
        | inr (shown, read) ↦
            let both =
              all-append (is_shown blocked) before shown a
                (hydrate-shown user blocked entries shown read) in
            elim (Option-cases after) [
              | inl ends ↦ ground (
                arith,
                length-take-le limit before,
                all-take (is_shown blocked) limit before a,
                length-take-le limit (before ++ shown),
                all-take (is_shown blocked) limit (before ++ shown) both,
              )
              | inr (at, more) ↦ ground (
                arith,
                length-take-le limit before,
                all-take (is_shown blocked) limit before a,
                walk-shown n user blocked limit (some at) (some at) (before ++ shown) items end
                    both,
              )
            ]
      ]

  -- Where the social service names the authors that the reader has blocked and the page is read, it
  -- has at most as many items as were asked for, and never more than 50; none of them is a post whose
  -- author the reader has blocked, not even as someone else's repost; and the author on each card is
  -- the author of its post.
  pub get_feed-shown :
      (user : ℕ) (cursor : Cursor) (limit : ℕ) (blocked : List ℕ) (items : List Item) (end : Cursor)
      → content.blocked_author_ids user ≡ some blocked
      → get_feed db content s user cursor limit ≡ some (items, end)
      → (length items ≤ min limit 50) × (all (is_shown blocked) items ≡ true)
  unfolding get_feed all
  get_feed-shown user cursor limit blocked items end b e =
      walk-shown 4 user blocked (min limit 50) cursor none [] items end refl (ground arith)
