-- ===== src/Posts/Threads/Tests.antt =====
-- A thread of three posts (apps/services/posts/src/modules/posts.service.ts, getThread).
use mathlib.Core.List.{reverse}
use xitter.Prelude.{
  ℕ, ◌<◌, ◌≡◌, ◌⊎◌, refl, false, Option, none, some, List, [], ◌∷◌, arith, any, count, find?, keep,
  take, length,
}
use xitter.Prelude.Int.{ℤ, pos}
use xitter.Database.{sort, insert_sorted}
use xitter.Database.Sample.{sample_client}
use xitter.Paging.{start, cut}
use xitter.Posts
use xitter.Posts.{like, repost, bookmark, PostRow, InteractionRow, PostsDb, ok, find_visible_post}
use xitter.Posts.Counts.{IsCounted}
use xitter.Posts.Threads.{
  thread_node, nil, cons, ThreadResponse, climb, continues, ancestor_chain, replies,
  build_thread_nodes, get_thread, get_thread_from,
}
use xitter.Posts.Threads.Chain.{Parents, Fresh, Ended, above, ancestor_chain_lem}
use xitter.Posts.Threads.Tree.{roots, Shows, live_replies_past, get_thread-Shows}

abbrev db : PostsDb
db = record { post = sample_client PostRow; interaction = sample_client InteractionRow }

abbrev post : ℕ → Option ℕ → ℤ → PostRow
post id reply_to reply_count = record {
  id = id;
  author_id = 10;
  text = 104 ∷ [];
  media_ids = [];
  media = [];
  reply_to_id = reply_to;
  repost_of_id = none;
  created_at = 5;
  deleted_at = none;
  reply_count = reply_count;
  like_count = pos 0;
  repost_count = pos 0;
}

abbrev tables : Posts.Posts
tables = record {
  posts = post 1 none (pos 1) ∷ post 2 (some 1) (pos 1) ∷ post 3 (some 2) (pos 0) ∷ [];
  interactions = [];
  audit = [];
  events = [];
  pings = [];
}

tables-IsCounted : IsCounted tables.posts tables.interactions
unfolding count any
tables-IsCounted = record {
  ids = λ i. ground arith;
  parents = λ i e. ground arith;
  targets = λ i k e. ground arith;
  keys = λ k i u. ground arith;
  replies = (refl, (refl, (refl, tt)));
  likes = ((refl, refl), ((refl, refl), ((refl, refl), tt)));
}

abbrev middle : ThreadResponse
middle = record {
  ancestors = post 1 none (pos 1) ∷ [];
  ancestors_truncated = false;
  focus = post 2 (some 1) (pos 1);
  replies = cons (thread_node (post 3 (some 2) (pos 0)) nil false) nil;
  replies_cursor = none;
}

get_thread_lem : get_thread db tables 2 start 20 ≡ ok middle
unfolding get_thread get_thread_from ancestor_chain climb replies build_thread_nodes
    find_visible_post cut sort insert_sorted keep find? any
get_thread_lem = refl

get_thread-Shows_example :
    (find_visible_post db 2 tables ≡ some (post 2 (some 1) (pos 1)))
    × (roots middle.replies ≡ take 20 (live_replies_past tables none 2))
    × Shows tables 2 middle.replies
get_thread-Shows_example =
    get_thread-Shows tables db 2 start 20 middle tables-IsCounted get_thread_lem

ancestor_chain_lem_example :
    (up : List PostRow) × ((ancestor_chain db tables (post 3 (some 2) (pos 0))).0 ≡ reverse up)
    × Parents db tables (some 2) up
    × Fresh db tables (3 ∷ []) up
    × (((length up ≡ 25)
          × ((ancestor_chain db tables (post 3 (some 2) (pos 0))).1
              ≡ continues db tables (above db tables (some 2) up)))
        ⊎ ((length up < 25)
            × Ended db tables (3 ∷ []) (some 2) up
            × ((ancestor_chain db tables (post 3 (some 2) (pos 0))).1 ≡ false)))
ancestor_chain_lem_example = ancestor_chain_lem db tables (post 3 (some 2) (pos 0))
