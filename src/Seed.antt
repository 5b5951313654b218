-- ===== src/Seed.antt =====
-- Seeding the posts of a corpus over a network that fails (packages/scripts/src/seed.ts, seedPosts and
-- createPost, over packages/scripts/src/lib/api.ts). The posts service is its table of posts, which
-- gives a new row the next id. What each request comes to is a script; where it ends, every request
-- is answered. Images are left out.
pub mod Requests
pub mod Once
pub mod Corpus
pub mod Probe
mod Tests
use xitter.Prelude.{
  ℕ, zero, suc, ◌+◌, ◌-◌, ◌<◌, ◌≡◌, Bool, true, false, not, ◌&&◌, Option, none, some, List, [], ◌∷◌,
  take, keep, find?, length, ◌==◌, same_text, if◌then◌else◌, is_some,
}
use xitter.Database.{sort}
use xitter.Paging.{Position, comes_first}

-- A post of the service, as far as a timeline shows it.
pub record Stored : Type 0 where
  pub id : ℕ
  pub author_id : ℕ
  pub text : List ℕ
  pub reply_to_id : Option ℕ
  pub created_at : ℕ
  pub deleted_at : Option ℕ

-- What a request comes to: an answer; a refusal; no connection, or the gateway's 503; or it dies in
-- flight, before or after the service has carried it out.
pub data Fate : Type 0 where
  answered refused never_connected lost_before lost_after : Fate

pub record Server : Type 0 where
  pub rows : List Stored
  pub next_id : ℕ
  pub script : List Fate

-- What the client sees of a failure.
pub data Failure : Type 0 where
  refusal unreached ambiguous : Failure

pub data Answer (A : Type 0) : Type 0 where
  ok : A → Answer A
  failed : Failure → Answer A

pub data RetryCause : Type 0 where
  unreached_only any_transient : RetryCause

abbrev pub retryable : Failure → RetryCause → Bool
retryable refusal causes = false
retryable unreached causes = true
retryable ambiguous unreached_only = false
retryable ambiguous any_transient = true

abbrev pub answer : {A : Type 0} → A × Server → Answer A × Server
answer (a, w) = (ok a, w)

unfoldable pub attempt_json : {A : Type 0} → (Server → A × Server) → Server → Answer A × Server
attempt_json op w = elim w.script [
  | [] ↦ answer (op w)
  | answered ∷ rest ↦ answer (op (record w { script = rest }))
  | refused ∷ rest ↦ (failed refusal, record w { script = rest })
  | never_connected ∷ rest ↦ (failed unreached, record w { script = rest })
  | lost_before ∷ rest ↦ (failed ambiguous, record w { script = rest })
  | lost_after ∷ rest ↦ (failed ambiguous, (op (record w { script = rest })).1)
]

-- With so many retries left.
unfoldable pub request_json :
    {A : Type 0} → ℕ → RetryCause → (Server → A × Server) → Server → Answer A × Server
request_json zero causes op w = attempt_json op w
request_json (suc retries) causes op w =
    let (a, w') = attempt_json op w in
    let again = request_json retries causes op w' in
    elim a [ ok v ↦ (ok v, w') | failed f ↦ if retryable f causes then again else (failed f, w') ]

abbrev pub seed_retries : ℕ
seed_retries = 3

abbrev pub posts_page_limit : ℕ
posts_page_limit = 50

pub record Body : Type 0 where
  pub author_id : ℕ
  pub text : List ℕ
  pub reply_to_id : Option ℕ
  pub created_at : ℕ

abbrev pub row_of : ℕ → Body → Stored
row_of id body = record {
  id = id;
  author_id = body.author_id;
  text = body.text;
  reply_to_id = body.reply_to_id;
  created_at = body.created_at;
  deleted_at = none;
}

-- The internal create of the posts service, and its timeline of an author, newest first.
abbrev pub insert_post : Body → Server → ℕ × Server
insert_post body w =
    (w.next_id, record w { rows = row_of w.next_id body ∷ w.rows; next_id = suc w.next_id })

abbrev pub stored_position : Stored → Position
stored_position r = record { created_at = r.created_at; id = r.id }

abbrev pub is_shown : ℕ → Stored → Bool
is_shown author r = r.author_id == author && not (is_some r.deleted_at)

abbrev pub timeline : ℕ → Server → List Stored
timeline author w =
    take posts_page_limit (sort (comes_first stored_position) (keep (is_shown author) w.rows))

abbrev pub read_timeline : ℕ → Server → List Stored × Server
read_timeline author w = (timeline author w, w)

abbrev pub is_twin : List ℕ → Stored → Bool
is_twin text r = not (is_some r.deleted_at) && same_text r.text text

-- Several twins fail loudly.
abbrev pub only_twin : List Stored → Answer (Option ℕ)
only_twin [] = ok none
only_twin (x ∷ []) = ok (some x.id)
only_twin (x ∷ y ∷ ys) = failed refusal

abbrev pub twin_of : List ℕ → Answer (List Stored) × Server → Answer (Option ℕ) × Server
twin_of text (failed f, w) = (failed f, w)
twin_of text (ok items, w) = (only_twin (keep (is_twin text) items), w)

unfoldable pub find_twin_post : ℕ → List ℕ → Server → Answer (Option ℕ) × Server
find_twin_post author text w =
    twin_of text (request_json seed_retries any_transient (read_timeline author) w)

unfoldable pub create : Body → Server → Answer ℕ × Server
create body w = request_json seed_retries unreached_only (insert_post body) w

-- A twin is adopted; where there is none, the post is created once more.
abbrev pub adopt_or_create : Body → Answer (Option ℕ) × Server → Answer ℕ × Server
adopt_or_create body (failed f, w) = (failed f, w)
adopt_or_create body (ok (some id), w) = (ok id, w)
adopt_or_create body (ok none, w) = create body w

abbrev pub reconcile : Body → Answer ℕ × Server → Answer ℕ × Server
reconcile body (ok id, w) = (ok id, w)
reconcile body (failed refusal, w) = (failed refusal, w)
reconcile body (failed unreached, w) = (failed unreached, w)
reconcile body (failed ambiguous, w) =
    adopt_or_create body (find_twin_post body.author_id body.text w)

unfoldable pub create_post : Body → Server → Answer ℕ × Server
create_post body w = reconcile body (create body w)

-- A post of the corpus; `slot` stands for its author and ordinal.
pub record CorpusPost : Type 0 where
  pub slot : ℕ
  pub author_id : ℕ
  pub text : List ℕ
  pub reply_to : Option ℕ
  pub age : ℕ

abbrev pub Slots : Type 0
Slots = List (ℕ × ℕ)

-- `none` where the target of a reply is missing.
abbrev pub reply_target : Slots → Option ℕ → Option (Option ℕ)
reply_target slots none = some none
reply_target slots (some slot) = elim (find? (λ s. s.0 == slot) slots) [
  | none ↦ none
  | some s ↦ some (some s.1)
]

abbrev pub body_of : ℕ → CorpusPost → Option ℕ → Body
body_of seed_time post reply_to_id = record {
  author_id = post.author_id;
  text = post.text;
  reply_to_id = reply_to_id;
  created_at = seed_time - post.age;
}

-- A post that fails ends the run.
unfoldable pub seed_posts : ℕ → List CorpusPost → Slots → Server → Answer Slots × Server
seed_posts seed_time [] slots w = (ok slots, w)
seed_posts seed_time (p ∷ ps) slots w = elim (reply_target slots p.reply_to) [
  | none ↦ (failed refusal, w)
  | some reply_to_id ↦
      let (a, w') = create_post (body_of seed_time p reply_to_id) w in
      elim a [
        | failed f ↦ (failed f, w')
        | ok id ↦ seed_posts seed_time ps ((p.slot, id) ∷ slots) w'
      ]
]
