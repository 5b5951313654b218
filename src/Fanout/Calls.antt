-- ===== src/Fanout/Calls.antt =====
-- What the calls of the fanout worker leave in the feeds, whichever of them fail
-- (apps/workers/fanout/src/handlers.ts, upsertInBatches).
use xitter.Prelude.{
  ℕ, zero, suc, ◌≤◌, ◌≡◌, refl, Bool, true, false, ◌||◌, List, [], ◌∷◌, take, drop, length,
  if◌then◌else◌, any, count, reject, arith,
}
use xitter.Feed.{
  FeedEntryInput, EntryKey, FeedEntryRow, FeedDb, Feed, is_entry, upsert_entries, delete_entries,
}
use xitter.Feed.Entries.{
  has_entry, asks_for, upsert_entries-has, upsert_entries_unique, delete_entries_lem,
}
use xitter.Fanout.{World, Sources, call, use_ids, upsert_batches, upsert_in_batches}

length-drop : {A : Type 0} → (n : ℕ) (xs : List A) → length (drop n xs) ≤ length xs
length-drop zero xs = omega arith
length-drop (suc n) [] = omega arith
length-drop (suc n) (x ∷ xs) = omega (arith, length-drop n xs)

any-take-drop :
    {A : Type 0}
    → (p : A → Bool) (n : ℕ) (xs : List A) → (any p (take n xs) || any p (drop n xs)) ≡ any p xs
unfolding any
any-take-drop p zero xs = refl
any-take-drop p (suc n) [] = refl
any-take-drop p (suc n) (x ∷ xs) = ground (arith, any-take-drop p n xs)

-- What a write of the entries `es` that may fail does to one entry: it keeps it where it was there,
-- brings it only if it is asked for, and does bring it then if every call is answered.
pub record Brings (user : ℕ) (key : EntryKey) (es : List FeedEntryInput) (w : World)
    (r : Bool × World) : Type 0 where
  pub keeps : has_entry user key w.feed ≡ true → has_entry user key r.1.feed ≡ true
  pub only :
      has_entry user key r.1.feed ≡ true
      → (has_entry user key w.feed || any (asks_for user key) es) ≡ true
  pub all : r.0 ≡ true → any (asks_for user key) es ≡ true → has_entry user key r.1.feed ≡ true
  pub calm : w.script ≡ [] → (r.0 ≡ true) × (r.1.script ≡ [])
  pub once :
      count (is_entry user key) w.feed.entries ≤ 1 → count (is_entry user key) r.1.feed.entries ≤ 1

Brings-then :
    (user : ℕ) (key : EntryKey) (es₁ es₂ es : List FeedEntryInput) (w : World)
    (first : Bool × World) (w' : World) (r : Bool × World)
    → Brings user key es₁ w first
    → Brings user key es₂ w' r
    → w'.feed ≡ first.1.feed
    → w'.script ≡ first.1.script
    → (any (asks_for user key) es₁ || any (asks_for user key) es₂) ≡ any (asks_for user key) es
    → Brings user key es w (if first.0 then r else (false, first.1))
Brings-then user key es₁ es₂ es w first w' r one rest same_feed same_script both = record {
  keeps = λ h. ground (arith, one.keeps, rest.keeps, same_feed);
  only = λ h. ground (arith, one.only, rest.only, same_feed, both);
  all = λ ok h. ground (arith, one.all, rest.all, rest.keeps, same_feed, both);
  calm = λ e. ground (arith, one.calm, rest.calm, same_script);
  once = λ h. ground (arith, one.once, rest.once, same_feed);
}

-- Every call is answered from here on.
abbrev pub calm : World → World
calm w = record w { script = [] }

agree :
    (user : ℕ) (key : EntryKey) (es : List FeedEntryInput) (w : World) (r again once : Bool × World)
    → Brings user key es w r
    → Brings user key es (calm r.1) again
    → Brings user key es (calm w) once
    → has_entry user key again.1.feed ≡ has_entry user key once.1.feed
agree user key es w r again once one two undisturbed = ground (
  arith,
  one.only,
  one.keeps,
  two.keeps,
  two.only,
  two.all,
  (two.calm refl).0,
  undisturbed.keeps,
  undisturbed.only,
  undisturbed.all,
  (undisturbed.calm refl).0,
)

module _ (db : FeedDb) (sources : Sources) (user : ℕ) (key : EntryKey) where
  call-Brings :
      (es : List FeedEntryInput) (w : World)
      → Brings user key es w (call (λ fresh s. (upsert_entries db fresh es s).1) w)
  unfolding call
  call-Brings es w =
      let up = upsert_entries-has db w.fresh_id es w.feed user key in
      record {
        keeps = λ h. ground (arith, up);
        only = λ h. ground (arith, up);
        all = λ ok h. ground (arith, up);
        calm = λ e. ground arith;
        once = λ h. ground (arith, upsert_entries_unique db w.fresh_id es w.feed user key h);
      }

  pub upsert_batches-Brings :
      (n : ℕ) (es : List FeedEntryInput) (w : World)
      → length es ≤ n
      → Brings user key es w (upsert_batches db sources n es w)
  unfolding upsert_batches any
  upsert_batches-Brings zero [] w le = record {
    keeps = λ h. h;
    only = λ h. ground arith;
    all = λ ok h. ground arith;
    calm = λ e. (refl, e);
    once = λ h. h;
  }
  upsert_batches-Brings zero (e ∷ es) w le = absurd (omega arith)
  upsert_batches-Brings (suc n) [] w le = record {
    keeps = λ h. h;
    only = λ h. ground arith;
    all = λ ok h. ground arith;
    calm = λ e. (refl, e);
    once = λ h. h;
  }
  upsert_batches-Brings (suc n) (e ∷ es) w le =
      let first = call (λ fresh s. (upsert_entries db fresh (take 1000 (e ∷ es)) s).1) w in
      let one = call-Brings (take 1000 (e ∷ es)) w in
      let w' = use_ids (length (take 1000 (e ∷ es))) first.1 in
      let rest =
        upsert_batches-Brings n (drop 1000 (e ∷ es)) w' (omega (arith, length-drop 999 es)) in
      Brings-then user key (take 1000 (e ∷ es)) (drop 1000 (e ∷ es)) (e ∷ es) w first
        (use_ids (length (take 1000 (e ∷ es))) first.1)
        (upsert_batches db sources n (drop 1000 (e ∷ es)) w') one rest refl refl
        (any-take-drop (asks_for user key) 1000 (e ∷ es))

  pub upsert_in_batches-calm :
      (es : List FeedEntryInput) (w : World) → (upsert_in_batches db sources es (calm w)).0 ≡ true
  upsert_in_batches-calm es w =
      ((upsert_batches-Brings (length es) es (calm w) (omega arith)).calm refl).0

  -- A fanout of entries that fails anywhere, and is then made again with every call answered, leaves
  -- the entry exactly where one undisturbed fanout does.
  pub upsert_in_batches-again :
      (es : List FeedEntryInput) (w : World)
      → let again = upsert_in_batches db sources es (calm (upsert_in_batches db sources es w).1) in
        let once = upsert_in_batches db sources es (calm w) in
        (again.0 ≡ true) × (has_entry user key again.1.feed ≡ has_entry user key once.1.feed)
  upsert_in_batches-again es w =
      let one = upsert_batches-Brings (length es) es w (omega arith) in
      let w' = calm (upsert_in_batches db sources es w).1 in
      let two = upsert_batches-Brings (length es) es w' (omega arith) in
      let undisturbed = upsert_batches-Brings (length es) es (calm w) (omega arith) in
      (
        (two.calm refl).0,
        agree user key es w (upsert_in_batches db sources es w) (upsert_in_batches db sources es w')
            (upsert_in_batches db sources es (calm w)) one two undisturbed,
      )

reject-reject :
    (p : FeedEntryRow → Bool) (rows : List FeedEntryRow) → reject p (reject p rows) ≡ reject p rows
unfolding reject
reject-reject p [] = refl
reject-reject p (x ∷ xs) = ground (arith, reject-reject p xs)

-- The same of a delete.
pub delete-again :
    (db : FeedDb) (p : FeedEntryRow → Bool) (w : World)
    → let delete = λ (fresh : ℕ) (s : Feed). (delete_entries db p s).1 in
      let again = call delete (calm (call delete w).1) in
      let once = call delete (calm w) in
      (again.0 ≡ true) × (again.1.feed.entries ≡ once.1.feed.entries)
unfolding call
delete-again db p w = ground (
  arith,
  delete_entries_lem db p w.feed,
  delete_entries_lem db p (record w.feed { entries = reject p w.feed.entries }),
  reject-reject p w.feed.entries,
)
