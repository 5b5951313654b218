-- ===== src/Posts/Threads/Chain.antt =====
-- The posts above a post (apps/services/posts/src/modules/posts.service.ts, ancestorChain).
use mathlib.Core.List.{reverse}
use xitter.Prelude.{
  ℕ, zero, suc, ◌≤◌, ◌<◌, ◌≡◌, refl, ap, ◌⊎◌, inl, inr, Bool, true, false, Option, none, some, List,
  [], ◌∷◌, length, ◌==◌, any, Bool-cases, Option-cases, arith,
}
use xitter.Posts.{PostRow, PostsDb, Posts, find_visible_post}
use xitter.Posts.Threads.{climb, continues, ancestor_chain}

module _ (db : PostsDb) (s : Posts) where
  -- Each post is the visible post that the one below it replies to.
  abbrev pub Parents : Option ℕ → List PostRow → Type 0
  Parents next [] = Unit {0}
  Parents none (r ∷ rs) = ⊥
  Parents (some id) (r ∷ rs) = (find_visible_post db id s ≡ some r) × Parents r.reply_to_id rs

  -- No post comes twice.
  abbrev pub Fresh : List ℕ → List PostRow → Type 0
  Fresh visited [] = Unit {0}
  Fresh visited (r ∷ rs) = (any (λ v. v == r.id) visited ≡ false) × Fresh (r.id ∷ visited) rs

  abbrev pub was_visited : List ℕ → Option PostRow → Bool
  was_visited visited none = true
  was_visited visited (some r) = any (λ v. v == r.id) visited

  -- The last of the posts replies to none, or to one that is not visible or came before.
  abbrev pub Ended : List ℕ → Option ℕ → List PostRow → Type 0
  Ended visited none [] = Unit {0}
  Ended visited (some id) [] = was_visited visited (find_visible_post db id s) ≡ true
  Ended visited next (r ∷ rs) = Ended (r.id ∷ visited) r.reply_to_id rs

  -- What the last of the posts replies to.
  abbrev pub above : Option ℕ → List PostRow → Option ℕ
  above next [] = next
  above next (r ∷ rs) = above r.reply_to_id rs

  pub record Climbed (room : ℕ) (visited : List ℕ) (next : Option ℕ) (up : List PostRow)
      (end : Option ℕ) : Type 0 where
    pub parents : Parents next up
    pub fresh : Fresh visited up
    pub within : length up ≤ room
    pub whole : (length up ≡ room) ⊎ Ended visited next up
    pub at_end : above next up ≡ end

  stopped :
      (room : ℕ) (visited : List ℕ) (next : Option ℕ)
      → Ended visited next []
      → Climbed room visited next [] next
  stopped room visited next e = record {
    parents = tt;
    fresh = tt;
    within = omega arith;
    whole = inr e;
    at_end = refl;
  }

  hop :
      (room : ℕ) (visited : List ℕ) (id : ℕ) (row : PostRow) (up : List PostRow) (end : Option ℕ)
      → find_visible_post db id s ≡ some row
      → any (λ v. v == row.id) visited ≡ false
      → Climbed room (row.id ∷ visited) row.reply_to_id up end
      → Climbed (suc room) visited (some id) (row ∷ up) end
  hop room visited id row up end seen fresh c = record {
    parents = (seen, c.parents);
    fresh = (fresh, c.fresh);
    within = omega (arith, c.within);
    whole = elim c.whole [ inl full ↦ inl (ap suc full) | inr ended ↦ inr ended ];
    at_end = c.at_end;
  }

  climb_lem :
      (room : ℕ) (visited : List ℕ) (next : Option ℕ)
      → let (up, end) = climb db s room visited next in Climbed room visited next up end
  unfolding climb
  climb_lem zero visited next = record {
    parents = tt;
    fresh = tt;
    within = omega arith;
    whole = inl refl;
    at_end = refl;
  }
  climb_lem (suc room) visited none = stopped (suc room) visited none tt
  climb_lem (suc room) visited (some id) = elim (Option-cases (find_visible_post db id s)) [
    | inl gone ↦ rw (gone, climb) (stopped (suc room) visited (some id) (rw gone refl))
    | inr (row, seen) ↦ elim (Bool-cases (any (λ v. v == row.id) visited)) [
      | inl again ↦
          rw (seen, climb) (rw again (stopped (suc room) visited (some id) (rw seen again)))
      | inr new ↦
          rw (seen, climb)
            (rw new (
              hop room visited id row _ _ seen new
                (climb_lem room (row.id ∷ visited) row.reply_to_id)))
    ]
  ]

  -- The ancestors of a post are, from the one below the top down, the posts that each is a reply to,
  -- all of them visible; none comes twice, nor is the post itself among them. There are at most 25.
  -- Where there are fewer, the chain ends there: at a post that is no reply, or replies to one that is
  -- gone or came before; and it is not called truncated. Where there are 25, it is called truncated
  -- exactly if the last of them replies to a visible post.
  pub ancestor_chain_lem :
      (focus : PostRow)
      → (up : List PostRow) × ((ancestor_chain db s focus).0 ≡ reverse up)
        × Parents focus.reply_to_id up
        × Fresh (focus.id ∷ []) up
        × (((length up ≡ 25)
              × ((ancestor_chain db s focus).1 ≡ continues db s (above focus.reply_to_id up)))
            ⊎ ((length up < 25)
                × Ended (focus.id ∷ []) focus.reply_to_id up
                × ((ancestor_chain db s focus).1 ≡ false)))
  unfolding ancestor_chain
  ancestor_chain_lem focus =
      let up = (climb db s 25 (focus.id ∷ []) focus.reply_to_id).0 in
      let c = climb_lem 25 (focus.id ∷ []) focus.reply_to_id in
      (
        up,
        refl,
        c.parents,
        c.fresh,
        elim (Bool-cases (length up == 25)) [
          | inl full ↦ inl (ground (arith, full), rw (full, c.at_end) refl)
          | inr few ↦ inr (
            ground (arith, few, c.within),
            elim c.whole [ inl full ↦ absurd (ground (arith, few, full)) | inr ended ↦ ended ],
            rw few refl,
          )
        ],
      )
