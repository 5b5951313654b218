-- ===== src/Posts/Moderation.antt =====
-- The counters under the soft deletes and the restore of a post
-- (apps/services/posts/src/modules/posts.repository.ts).
use xitter.Prelude.{
  ℕ, ◌≡◌, refl, true, false, not, Option, none, some, ◌∷◌, find?, any, map_where, arith,
  Option-cases, inl, inr,
}
use xitter.Prelude.Int.{ℤ, increment, decrement}
use xitter.Database.Counts.{find?-of, find?-any}
use xitter.Posts.{
  AuditAction, soft_deleted, restored, PostRow, PostsDb, Posts, Env, Result, ok, is_post, is_live,
  find_visible_post, find_deleted_post, mark_deleted, update_or_skip, write_audit, soft_delete,
  admin_soft_delete, admin_restore,
}
use xitter.Posts.Queries.{
  find_visible_post_lem, find_deleted_post_lem, update_post_lem, update_or_skip_lem,
}
use xitter.Posts.Counts.{IsCounted}
use xitter.Posts.Marks.{set_deleted, parent_step, soft_deleted-IsCounted, restored-IsCounted}

abbrev pub Counted : Posts → Type 0
Counted s = IsCounted s.posts s.interactions

module _ (db : PostsDb) where
  pub skip_parent :
      (target : Option ℕ) (g : ℤ → ℤ) (s : Posts)
      → update_or_skip db target (λ r. record r { reply_count = g r.reply_count }) s
        ≡ (ok tt, record s { posts = parent_step target g s.posts })
  skip_parent none g s = refl
  skip_parent (some id) g s = update_or_skip_lem db id _ s

  -- The mark of a row that is there.
  mark_deleted_lem :
      (d : Option ℕ) (g : ℤ → ℤ) (r : PostRow) (s : Posts)
      → any (is_post r.id) s.posts ≡ true
      → mark_deleted db d (λ x. record x { reply_count = g x.reply_count }) r s ≡ (
        ok (set_deleted d r),
        record s {
          posts = parent_step r.reply_to_id g (map_where (is_post r.id) (set_deleted d) s.posts);
        },
      )
  unfolding mark_deleted
  mark_deleted_lem d g r s here = ground (
    arith,
    update_post_lem db r.id (set_deleted d) s,
    skip_parent r.reply_to_id g
        (record s { posts = map_where (is_post r.id) (set_deleted d) s.posts }),
  )

  visible_row :
      (id : ℕ) (s : Posts) (r : PostRow)
      → Counted s
      → find_visible_post db id s ≡ some r
      → (find? (is_post id) s.posts ≡ some r) × (r.id ≡ id) × (is_live r ≡ true)
  visible_row id s r h e =
      let f =
        find?-of (is_post id) is_live s.posts r (h.ids id)
          (rw (find_visible_post_lem db id s) at e) in
      (f.0, ground arith, f.2)

  deleted_row :
      (id : ℕ) (s : Posts) (r : PostRow)
      → Counted s
      → find_deleted_post db id s ≡ some r
      → (find? (is_post id) s.posts ≡ some r) × (r.id ≡ id) × (is_live r ≡ false)
  deleted_row id s r h e =
      let f =
        find?-of (is_post id) (λ x. not (is_live x)) s.posts r (h.ids id)
          (rw (find_deleted_post_lem db id s) at e) in
      (f.0, ground arith, ground arith)

  -- The rows after a mark, with the counter of the parent moved by `g`.
  abbrev pub remark : ℕ → Option ℕ → (ℤ → ℤ) → PostRow → Posts → Posts
  remark id d g r s = record s {
    posts = parent_step r.reply_to_id g (map_where (is_post id) (set_deleted d) s.posts);
  }

  -- A transaction that marks a row which a lookup finds, and does nothing where it finds none.
  abbrev pub marks :
      Option PostRow
      → ℕ
      → Option ℕ
      → (ℤ → ℤ)
      → (Posts → Posts)
      → Posts
      → Result (Option PostRow) × Posts
  marks none id d g audit s = (ok none, s)
  marks (some r) id d g audit s = (ok (some (set_deleted d r)), audit (remark id d g r s))

  abbrev audited : ℕ → AuditAction → ℕ → Posts → Posts
  audited actor action id s = record s {
    audit = record { actor_id = actor; action = action; target_id = id; hard = false } ∷ s.audit;
  }

  module _ (id : ℕ) (s : Posts) (h : Counted s) where
    soft_delete_lem :
        (env : Env)
        → soft_delete db env id s
          ≡ marks (find_visible_post db id s) id (some env.now) decrement (λ t. t) s
    unfolding soft_delete
    soft_delete_lem env = elim (Option-cases (find_visible_post db id s)) [
      | inl e ↦ ground arith
      | inr (r, e) ↦
          let row = visible_row id s r h e in
          let here = find?-any (is_post id) s.posts r row.0 in
          ground (arith, mark_deleted_lem (some env.now) decrement r s)
    ]

    admin_soft_delete_lem :
        (env : Env) (actor : ℕ)
        → admin_soft_delete db env actor id s
          ≡ marks
              (find_visible_post db id s)
              id
              (some env.now)
              decrement
              (audited actor soft_deleted id)
              s
    unfolding admin_soft_delete write_audit
    admin_soft_delete_lem env actor = elim (Option-cases (find_visible_post db id s)) [
      | inl e ↦ ground arith
      | inr (r, e) ↦
          let row = visible_row id s r h e in
          let here = find?-any (is_post id) s.posts r row.0 in
          ground (arith, mark_deleted_lem (some env.now) decrement r s)
    ]

    admin_restore_lem :
        (actor : ℕ)
        → admin_restore db actor id s
          ≡ marks (find_deleted_post db id s) id none increment (audited actor restored id) s
    unfolding admin_restore write_audit
    admin_restore_lem actor = elim (Option-cases (find_deleted_post db id s)) [
      | inl e ↦ ground arith
      | inr (r, e) ↦
          let row = deleted_row id s r h e in
          let here = find?-any (is_post id) s.posts r row.0 in
          ground (arith, mark_deleted_lem none increment r s)
    ]

    -- The audit entry is no post and no interaction.
    remark-gone :
        (d : ℕ) (r : PostRow)
        → find_visible_post db id s ≡ some r
        → Counted (remark id (some d) decrement r s)
    remark-gone d r e =
        let row = visible_row id s r h e in
        soft_deleted-IsCounted s.posts s.interactions h id (some d) r row.0 refl row.2

    remark-back :
        (r : PostRow) → find_deleted_post db id s ≡ some r → Counted (remark id none increment r s)
    remark-back r e =
        let row = deleted_row id s r h e in
        restored-IsCounted s.posts s.interactions h id none r row.0 refl row.2

    -- The author's delete, the moderator's delete and the restore each keep every counter equal to
    -- what it counts, whether they find the post or not.
    pub marks-Counted :
        (env : Env) (actor : ℕ)
        → Counted (soft_delete db env id s).1
          × Counted (admin_soft_delete db env actor id s).1
          × Counted (admin_restore db actor id s).1
    marks-Counted env actor = (
      rw (soft_delete_lem env) (elim (Option-cases (find_visible_post db id s)) [
        | inl e ↦ rw (e, marks) h
        | inr (r, e) ↦ rw (e, marks) (remark-gone env.now r e)
      ]),
      rw (admin_soft_delete_lem env actor) (elim (Option-cases (find_visible_post db id s)) [
        | inl e ↦ rw (e, marks) h
        | inr (r, e) ↦ rw (e, marks) (remark-gone env.now r e)
      ]),
      rw (admin_restore_lem actor) (elim (Option-cases (find_deleted_post db id s)) [
        | inl e ↦ rw (e, marks) h
        | inr (r, e) ↦ rw (e, marks) (remark-back r e)
      ]),
    )
