-- ===== src/Feed/Page.antt =====
-- Reading a home feed (apps/services/feed/src/modules/feed.service.ts, getFeed, hydrate, over
-- feed.repository.ts, page). What the posts and the social service answer is a parameter, `none` where
-- they fail; their maps are functions of an id.
use xitter.Prelude.{
  ℕ, zero, suc, ◌+◌, ◌-◌, min, Bool, true, not, ◌&&◌, ◌||◌, Option, none, some, List, [], ◌∷◌, ◌++◌,
  map, take, length, ltb, ◌==◌, if◌then◌else◌, is_empty, any,
}
use xitter.Feed.{Reason, FeedEntryRow, FeedDb, Feed, distinct}

pub record Post : Type 0 where
  pub id : ℕ
  pub author_id : ℕ
  pub reply_to_id : Option ℕ

-- A profile, or what stands for one that the social service does not have.
pub data ProfileView : Type 0 where
  known placeholder : ℕ → ProfileView

pub record Viewer : Type 0 where
  pub liked : Bool
  pub has_reposted : Bool
  pub bookmarked : Bool

pub record Item : Type 0 where
  pub post : Post
  pub author : ProfileView
  pub reason : Reason
  pub reposted_by : Option ProfileView
  pub reply_to_author : Option ProfileView
  pub viewer : Option Viewer

pub record Content : Type 0 where
  pub blocked_author_ids : ℕ → Option (List ℕ)
  pub posts : List ℕ → Option (ℕ → Option Post)
  pub profiles : List ℕ → Option (ℕ → Bool)
  pub viewer_state : ℕ → List ℕ → ℕ → Option Viewer

abbrev pub Cursor : Type 0
Cursor = Option (ℕ × ℕ)

-- Newest first, by time and then by id.
abbrev pub newer : FeedEntryRow → FeedEntryRow → Bool
newer r x =
    ltb x.post_created_at r.post_created_at
    || r.post_created_at == x.post_created_at && ltb x.id r.id

abbrev pub is_after : Cursor → FeedEntryRow → Bool
is_after none r = true
is_after (some (at, id)) r = ltb r.post_created_at at || r.post_created_at == at && ltb r.id id

unfoldable pub last_position : List FeedEntryRow → Cursor
last_position [] = none
last_position (r ∷ []) = some (r.post_created_at, r.id)
last_position (r ∷ x ∷ xs) = last_position (x ∷ xs)

abbrev pub opt_list : Option ℕ → List ℕ
opt_list none = []
opt_list (some a) = a ∷ []

abbrev pub profile_or_placeholder : (ℕ → Bool) → ℕ → ProfileView
profile_or_placeholder profiles id = if profiles id then known id else placeholder id

-- The posts of a batch, and the posts that they reply to.
unfoldable pub reply_targets : (ℕ → Option Post) → List ℕ → List ℕ
reply_targets posts [] = []
reply_targets posts (id ∷ ids) =
    elim (posts id) [ none ↦ [] | some p ↦ opt_list p.reply_to_id ] ++ reply_targets posts ids

unfoldable pub authors_of : (ℕ → Option Post) → List ℕ → List ℕ
authors_of posts [] = []
authors_of posts (id ∷ ids) =
    elim (posts id) [ none ↦ [] | some p ↦ p.author_id ∷ [] ] ++ authors_of posts ids

unfoldable pub reposters : List FeedEntryRow → List ℕ
reposters [] = []
reposters (r ∷ rs) = opt_list r.reposted_by_id ++ reposters rs

abbrev pub hydrate_entry :
    FeedEntryRow → Post → (ℕ → Option Post) → (ℕ → Bool) → Option Viewer → Item
hydrate_entry entry post parents profiles viewer = record {
  post = post;
  author = profile_or_placeholder profiles post.author_id;
  reason = entry.reason;
  reposted_by = elim entry.reposted_by_id [
    | none ↦ none
    | some by ↦ some (profile_or_placeholder profiles by)
  ];
  reply_to_author = elim post.reply_to_id [
    | none ↦ none
    | some id ↦ elim (parents id) [
      | none ↦ none
      | some parent ↦ some (profile_or_placeholder profiles parent.author_id)
    ]
  ];
  viewer = viewer;
}

abbrev pub is_in : List ℕ → ℕ → Bool
is_in ids id = any (λ a. a == id) ids

-- Entries whose post is gone, or whose author is blocked, are dropped.
unfoldable pub render :
    List ℕ
    → (ℕ → Option Post)
    → (ℕ → Option Post)
    → (ℕ → Bool)
    → (ℕ → Option Viewer)
    → List FeedEntryRow
    → List Item
render blocked posts parents profiles flags [] = []
render blocked posts parents profiles flags (e ∷ es) =
    let rest = render blocked posts parents profiles flags es in
    elim (posts e.post_id) [
      | none ↦ rest
      | some post ↦
          if is_in blocked post.author_id
          then rest
          else hydrate_entry e post parents profiles (flags post.id) ∷ rest
    ]

module _ (db : FeedDb) (content : Content) (s : Feed) where
  unfoldable pub page : ℕ → Cursor → ℕ → List ℕ → List FeedEntryRow × Cursor
  page user cursor limit exclude =
      let rows =
        db.entry.find_page
          (λ r. r.user_id == user && not (is_in exclude r.author_id) && is_after cursor r) newer
          (limit + 1) s.entries in
      if ltb limit (length rows)
      then (take limit rows, last_position (take limit rows))
      else (rows, none)

  -- The posts that are replied to, if any, in one lookup; and the profiles of all that a card names.
  unfoldable pub parents_of : List ℕ → (ℕ → Option Post) → Option (ℕ → Option Post)
  parents_of ids posts =
      let targets = distinct (reply_targets posts (distinct ids)) in
      if is_empty targets then some (λ id. none) else content.posts targets

  unfoldable pub profiles_of :
      List FeedEntryRow → (ℕ → Option Post) → (ℕ → Option Post) → Option (ℕ → Bool)
  profiles_of entries posts parents =
      let ids = map (λ e. e.post_id) entries in
      let targets = distinct (reply_targets posts (distinct ids)) in
      content.profiles
        (distinct (authors_of posts ids ++ (reposters entries ++ authors_of parents targets)))

  unfoldable pub hydrate : ℕ → List ℕ → List FeedEntryRow → Option (List Item)
  hydrate user blocked [] = some []
  hydrate user blocked (x ∷ xs) =
      let entries = x ∷ xs in
      let ids = map (λ e. e.post_id) entries in
      elim (content.posts (distinct ids)) [
        | none ↦ none
        | some posts ↦ elim (parents_of ids posts) [
          | none ↦ none
          | some parents ↦ elim (profiles_of entries posts parents) [
            | none ↦ none
            | some profiles ↦
                some (render blocked posts parents profiles (content.viewer_state user ids) entries)
          ]
        ]
      ]

  -- At most four walks, until the page is full or the feed ends.
  unfoldable pub walk :
      ℕ → ℕ → List ℕ → ℕ → Cursor → Cursor → List Item → Option (List Item × Cursor)
  walk zero user blocked limit cursor next items = some (take limit items, next)
  walk (suc n) user blocked limit cursor next items =
      let (entries, after) = page user cursor (limit - length items) blocked in
      if not (ltb (length items) limit)
      then some (take limit items, next)
      else elim (hydrate user blocked entries) [
        | none ↦ none
        | some shown ↦ elim after [
          | none ↦ some (take limit (items ++ shown), none)
          | some at ↦ walk n user blocked limit (some at) (some at) (items ++ shown)
        ]
      ]

  unfoldable pub get_feed : ℕ → Cursor → ℕ → Option (List Item × Cursor)
  get_feed user cursor limit = elim (content.blocked_author_ids user) [
    | none ↦ none
    | some blocked ↦ walk 4 user blocked (min limit 50) cursor none []
  ]
