-- ===== src/Feed/Entries.antt =====
-- What the writes of the feed service do to the entries, by user and source
-- (apps/services/feed/src/modules/feed.service.ts).
use xitter.Prelude.{
  ℕ, suc, ◌≤◌, ◌≡◌, refl, Bool, true, false, ◌&&◌, ◌||◌, List, [], ◌∷◌, ◌==◌, any, count, reject,
  arith, Bool-cases, inl, inr,
}
use xitter.Database.{insert_all}
use xitter.Database.Counts.{any-count}
use xitter.Feed.{
  FeedEntryInput, EntryKey, same_key, feed_entry_key, FeedEntryRow, FeedDb, Feed, is_entry,
  same_entry, to_new_entries, insert_entries, upsert_entries, delete_entries,
}

abbrev pub has_entry : ℕ → EntryKey → Feed → Bool
has_entry user key s = any (is_entry user key) s.entries

-- Whether the entries that are asked for include one of this user and source.
abbrev pub asks_for : ℕ → EntryKey → FeedEntryInput → Bool
asks_for user key i =
    i.user_id == user && same_key (feed_entry_key i.post_id i.reason i.reposted_by_id) key

same_key_sym_trans :
    (a b c : EntryKey) → same_key a b ≡ true → (same_key a c ≡ same_key b c) × (same_key b a ≡ true)
same_key_sym_trans a b c e = ground arith

-- A skipped row shares its key with one that is there.
any-same :
    (r : FeedEntryRow) (user : ℕ) (key : EntryKey) (rows : List FeedEntryRow)
    → any (same_entry r) rows ≡ true
    → is_entry user key r ≡ true
    → any (is_entry user key) rows ≡ true
unfolding any
any-same r user key [] e f = ground arith
any-same r user key (x ∷ xs) e f =
    ground (arith, any-same r user key xs, same_key_sym_trans x.entry_key r.entry_key key)

insert_all-any :
    (user : ℕ) (key : EntryKey) (rs rows : List FeedEntryRow)
    → any (is_entry user key) (insert_all same_entry rs rows).1
      ≡ (any (is_entry user key) rows || any (is_entry user key) rs)
unfolding insert_all any
insert_all-any user key [] rows = ground arith
insert_all-any user key (r ∷ rs) rows = elim (Bool-cases (any (same_entry r) rows)) [
  | inl taken ↦ ground (arith, insert_all-any user key rs rows, any-same r user key rows taken)
  | inr free ↦ ground (arith, insert_all-any user key rs (r ∷ rows))
]

new_entries-any :
    (fresh user : ℕ) (key : EntryKey) (is : List FeedEntryInput)
    → any (is_entry user key) (to_new_entries fresh is) ≡ any (asks_for user key) is
unfolding any
new_entries-any fresh user key [] = refl
new_entries-any fresh user key (i ∷ is) = ground (arith, new_entries-any (suc fresh) user key is)

any-free :
    (r : FeedEntryRow) (user : ℕ) (key : EntryKey) (rows : List FeedEntryRow)
    → any (same_entry r) rows ≡ false
    → is_entry user key r ≡ true
    → any (is_entry user key) rows ≡ false
unfolding any
any-free r user key [] e f = refl
any-free r user key (x ∷ xs) e f = ground (
  arith,
  any-free r user key xs,
  same_key_sym_trans r.entry_key key x.entry_key,
  same_key_sym_trans x.entry_key key r.entry_key,
)

same_key_refl : (a : EntryKey) → same_key a a ≡ true
same_key_refl a = ground arith

insert_all_unique :
    (user : ℕ) (key : EntryKey) (rs rows : List FeedEntryRow)
    → count (is_entry user key) rows ≤ 1
    → count (is_entry user key) (insert_all same_entry rs rows).1 ≤ 1
unfolding insert_all count
insert_all_unique user key [] rows h = h
insert_all_unique user key (r ∷ rs) rows h = elim (Bool-cases (any (same_entry r) rows)) [
  | inl taken ↦ ground (arith, insert_all_unique user key rs rows)
  | inr free ↦ ground (
    arith,
    insert_all_unique user key rs (r ∷ rows),
    (λ (e : is_entry user key r ≡ true).
        any-count (is_entry user key) rows (any-free r user key rows free e)),
  )
]

insert_all-none :
    (rs rows : List FeedEntryRow)
    → ((user : ℕ) (key : EntryKey)
        → any (is_entry user key) rs ≡ true
        → any (is_entry user key) rows ≡ true)
    → insert_all same_entry rs rows ≡ (0, rows)
unfolding insert_all any
insert_all-none [] rows h = refl
insert_all-none (r ∷ rs) rows h =
    let taken : any (same_entry r) rows ≡ true =
      h r.user_id r.entry_key (ground (arith, same_key_refl r.entry_key)) in
    ground (arith, insert_all-none rs rows (λ user key e. h user key (ground arith)))

insert_entries_lem :
    (db : FeedDb) (fresh : ℕ) (is : List FeedEntryInput) (s : Feed)
    → insert_entries db fresh is s ≡ (
        let (n, rows) = insert_all same_entry (to_new_entries fresh is) s.entries in
        (n, record s { entries = rows }))
unfolding insert_entries insert_all
insert_entries_lem db fresh [] s = refl
insert_entries_lem db fresh (j ∷ js) s =
    rw (db.entry.create_many_lem same_entry (to_new_entries fresh (j ∷ js)) s.entries) refl

module _ (db : FeedDb) (fresh : ℕ) (is : List FeedEntryInput) (s : Feed) where
  -- After an upsert a feed has the entries that it had and those that were asked for, by source.
  pub upsert_entries-has :
      (user : ℕ) (key : EntryKey)
      → has_entry user key (upsert_entries db fresh is s).1
        ≡ (has_entry user key s || any (asks_for user key) is)
  unfolding upsert_entries
  upsert_entries-has user key = ground (
    arith,
    insert_entries_lem db fresh is s,
    insert_all-any user key (to_new_entries fresh is) s.entries,
    new_entries-any fresh user key is,
  )

  -- Where a feed has at most one entry of a source, an upsert leaves it at most one.
  pub upsert_entries_unique :
      (user : ℕ) (key : EntryKey)
      → count (is_entry user key) s.entries ≤ 1
      → count (is_entry user key) (upsert_entries db fresh is s).1.entries ≤ 1
  unfolding upsert_entries
  upsert_entries_unique user key h = ground (
    arith,
    insert_entries_lem db fresh is s,
    insert_all_unique user key (to_new_entries fresh is) s.entries h,
  )

-- An upsert that was made before inserts nothing, changes nothing and notifies no one, whatever ids
-- its rows would get.
pub upsert_entries-again :
    (db : FeedDb) (fresh later : ℕ) (is : List FeedEntryInput) (s : Feed)
    → let s' = (upsert_entries db fresh is s).1 in upsert_entries db later is s' ≡ (0, s')
unfolding upsert_entries
upsert_entries-again db fresh later is s =
    let s' = (upsert_entries db fresh is s).1 in
    ground (
      arith,
      insert_entries_lem db later is s',
      insert_all-none (to_new_entries later is) s'.entries (λ user key e.
          ground
            (arith, upsert_entries-has db fresh is s user key, new_entries-any later user key is)),
    )

pub delete_entries_lem :
    (db : FeedDb) (p : FeedEntryRow → Bool) (s : Feed)
    → delete_entries db p s ≡ (count p s.entries, record s { entries = reject p s.entries })
unfolding delete_entries
delete_entries_lem db p s = rw (db.entry.delete_many_lem p s.entries) refl
