-- ===== src/Posts/Threads.antt =====
-- Reading a thread (apps/services/posts/src/modules/posts.service.ts, getThread, ancestorChain and
-- buildThreadNodes, over posts.repository.ts, replies). A post is answered as its row.
pub mod Chain
pub mod Tree
mod Tests
use xitter.Prelude.{
  ℕ, zero, suc, ◌-◌, ◌≡◌, Bool, true, false, ◌&&◌, Option, none, some, List, [], ◌∷◌, length, ltb,
  ◌==◌, same, any, if◌then◌else◌, is_some,
}
use mathlib.Core.List.{reverse}
use xitter.Prelude.Int.{ℤ, pos, negsuc}
use xitter.Paging.{Position, Cursor, start, garbage, from, is_newer, cut}
use xitter.Posts.{
  PostRow, PostsDb, Posts, Result, ok, err, bad_request, not_found, is_live, find_visible_post,
}

abbrev pub thread_ancestors_max : ℕ
thread_ancestors_max = 25

abbrev pub thread_depth_max : ℕ
thread_depth_max = 3

abbrev pub thread_children_preview : ℕ
thread_children_preview = 2

-- A post, the first of its replies, and whether there are more of them.
mutual
  pub data ThreadNode : Type 0 where
    thread_node : PostRow → ThreadNodes → Bool → ThreadNode

  pub data ThreadNodes : Type 0 where
    nil : ThreadNodes
    cons : ThreadNode → ThreadNodes → ThreadNodes

pub record ThreadResponse : Type 0 where
  pub ancestors : List PostRow
  pub ancestors_truncated : Bool
  pub focus : PostRow
  pub replies : ThreadNodes
  pub replies_cursor : Option Position

-- `row.replyCount > n`, where the counter is signed.
abbrev pub exceeds : ℤ → ℕ → Bool
exceeds (pos count) n = ltb n count
exceeds (negsuc count) n = false

abbrev pub post_position : PostRow → Position
post_position r = record { created_at = r.created_at; id = r.id }

-- Oldest first.
abbrev pub older : PostRow → PostRow → Bool
older a b = is_newer (post_position b) (post_position a)

abbrev pub is_past : Option Position → PostRow → Bool
is_past none r = true
is_past (some p) r = is_newer (post_position r) p

abbrev pub is_live_reply : ℕ → PostRow → Bool
is_live_reply post r = same r.reply_to_id (some post) && is_live r

module _ (db : PostsDb) (s : Posts) where
  unfoldable pub replies : ℕ → Option Position → ℕ → List PostRow × Option Position
  replies post cursor limit =
      cut post_position limit (
        db.post.find_page (λ r. is_live_reply post r && is_past cursor r) older (suc limit) s.posts)

  -- The hops of the walk, from the parent up, with the room that is left and the ids that were
  -- visited; and where the walk would go on.
  unfoldable pub climb : ℕ → List ℕ → Option ℕ → List PostRow × Option ℕ
  climb zero visited next = ([], next)
  climb (suc room) visited none = ([], none)
  climb (suc room) visited (some id) = elim (find_visible_post db id s) [
    | none ↦ ([], some id)
    | some row ↦
        let (rest, next) = climb room (row.id ∷ visited) row.reply_to_id in
        if any (λ v. v == row.id) visited then ([], some id) else (row ∷ rest, next)
  ]

  abbrev pub continues : Option ℕ → Bool
  continues none = false
  continues (some id) = is_some (find_visible_post db id s)

  unfoldable pub ancestor_chain : PostRow → List PostRow × Bool
  ancestor_chain focus =
      let (up, next) = climb thread_ancestors_max (focus.id ∷ []) focus.reply_to_id in
      (reverse up, length up == thread_ancestors_max && continues next)

  -- With so many levels to go; at the last one no replies are embedded.
  unfoldable pub build_thread_nodes : ℕ → List PostRow → ThreadNodes
  build_thread_nodes levels [] = nil
  build_thread_nodes zero (r ∷ rs) =
      cons (thread_node r nil (exceeds r.reply_count 0)) (build_thread_nodes zero rs)
  build_thread_nodes (suc levels) (r ∷ rs) =
      let children = (replies r.id none thread_children_preview).0 in
      cons
        (thread_node r (build_thread_nodes levels children)
          (exceeds r.reply_count (length children)))
        (build_thread_nodes (suc levels) rs)

  abbrev pub thread_of :
      PostRow → List PostRow × Bool → List PostRow × Option Position → ThreadResponse
  thread_of focus (ancestors, truncated) (items, next) = record {
    ancestors = ancestors;
    ancestors_truncated = truncated;
    focus = focus;
    replies = build_thread_nodes (thread_depth_max - 1) items;
    replies_cursor = next;
  }

  unfoldable pub get_thread_from : ℕ → Option Position → ℕ → Result ThreadResponse
  get_thread_from post cursor limit = elim (find_visible_post db post s) [
    | none ↦ err not_found
    | some focus ↦ ok (thread_of focus (ancestor_chain focus) (replies post cursor limit))
  ]

  unfoldable pub get_thread : ℕ → Cursor → ℕ → Result ThreadResponse
  get_thread post garbage limit = err bad_request
  get_thread post start limit = get_thread_from post none limit
  get_thread post (from p) limit = get_thread_from post (some p) limit
