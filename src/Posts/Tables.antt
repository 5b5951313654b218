-- ===== src/Posts/Tables.antt =====
-- The tables of the posts service and what a request does to them (apps/services/posts/prisma and
-- apps/services/posts/src/modules/posts.repository.ts): the rows, the errors and the monad.
use xitter.Prelude.{ℕ, Bool, true, false, not, ◌&&◌, Option, none, some, List, ◌==◌, is_some}
use xitter.Prelude.Int.{ℤ, pos, increment, decrement}
use xitter.Database.{Client}

pub data Kind : Type 0 where
  like repost bookmark : Kind

abbrev pub same_kind : Kind → Kind → Bool
same_kind like like = true
same_kind repost repost = true
same_kind bookmark bookmark = true
same_kind _ _ = false

-- An image as the media service resolves it; a ready one may be attached.
pub record Asset : Type 0 where
  pub id : ℕ
  pub ready : Bool
  pub alt_text : Option (List ℕ)

pub record PostRow : Type 0 where
  pub id : ℕ
  pub author_id : ℕ
  pub text : List ℕ
  pub media_ids : List ℕ
  pub media : List Asset
  pub reply_to_id : Option ℕ
  pub repost_of_id : Option ℕ
  pub created_at : ℕ
  pub deleted_at : Option ℕ
  pub reply_count : ℤ
  pub like_count : ℤ
  pub repost_count : ℤ

pub record InteractionRow : Type 0 where
  pub id : ℕ
  pub kind : Kind
  pub post_id : ℕ
  pub user_id : ℕ
  pub created_at : ℕ

pub data AuditAction : Type 0 where
  soft_deleted hard_deleted restored : AuditAction

pub record AuditRow : Type 0 where
  pub actor_id : ℕ
  pub action : AuditAction
  pub target_id : ℕ
  pub hard : Bool

-- The events of the service, with the ids of their payload.
pub data PostsEvent : Type 0 where
  post_created : ℕ → ℕ → Option ℕ → PostsEvent
  post_deleted : ℕ → ℕ → PostsEvent
  interaction_created interaction_deleted : Kind → ℕ → ℕ → PostsEvent

pub record PostsDb : Type 0 where
  pub post : Client PostRow
  pub interaction : Client InteractionRow

pub record Posts : Type 0 where
  pub posts : List PostRow
  pub interactions : List InteractionRow
  pub audit : List AuditRow
  pub events : List PostsEvent
  pub pings : List ℕ

-- What one request brings along: the id and time of a new row, and which events are accepted.
pub record Env : Type 0 where
  pub fresh_id : ℕ
  pub now : ℕ
  pub accepts : PostsEvent → Bool

-- `internal` is a rejected query; `unavailable` another service that does not answer.
pub data Error : Type 0 where
  bad_request forbidden not_found unavailable internal : Error

pub data Result (A : Type 0) : Type 0 where
  ok : A → Result A
  err : Error → Result A

abbrev pub Action : Type 0 → Type 0
Action A = Posts → Result A × Posts

infixl 5 ◌>>=◌ ◌>>◌
abbrev pub ◌>>=◌ : {A B : Type 0} → Action A → (A → Action B) → Action B
◌>>=◌ m f s = let (r, s') = m s in elim r [ ok a ↦ f a s' | err e ↦ (err e, s') ]

abbrev pub ◌>>◌ : {A B : Type 0} → Action A → Action B → Action B
m >> k = m >>= λ _. k

abbrev pub pure : {A : Type 0} → A → Action A
pure a s = (ok a, s)

abbrev pub throw : {A : Type 0} → Error → Action A
throw e s = (err e, s)

abbrev pub throw_if : Bool → Error → Action (Unit {0})
throw_if true e s = (err e, s)
throw_if false e s = (ok tt, s)

abbrev pub gets : {A : Type 0} → (Posts → A) → Action A
gets f s = (ok (f s), s)

abbrev pub modify : (Posts → Posts) → Action (Unit {0})
modify f s = (ok tt, f s)

abbrev pub when : Bool → Action (Unit {0}) → Action (Unit {0})
when true m = m
when false m = pure tt

-- A transaction that throws leaves no trace.
abbrev pub transaction : {A : Type 0} → Action A → Action A
transaction m s = let (r, s') = m s in elim r [ ok a ↦ (ok a, s') | err e ↦ (err e, s) ]

abbrev pub is_post : ℕ → PostRow → Bool
is_post id r = r.id == id

abbrev pub is_live : PostRow → Bool
is_live r = not (is_some r.deleted_at)

-- The unique key of an interaction.
abbrev pub is_interaction : Kind → ℕ → ℕ → InteractionRow → Bool
is_interaction k post user r = same_kind r.kind k && r.post_id == post && r.user_id == user

abbrev pub same_interaction : InteractionRow → InteractionRow → Bool
same_interaction r x = is_interaction r.kind r.post_id r.user_id x

abbrev pub same_post : PostRow → PostRow → Bool
same_post r x = is_post r.id x

abbrev pub one_more_reply : PostRow → PostRow
one_more_reply r = record r { reply_count = increment r.reply_count }

abbrev pub one_less_reply : PostRow → PostRow
one_less_reply r = record r { reply_count = decrement r.reply_count }

-- The counter that a kind of interaction moves; bookmarks have none.
abbrev pub one_more : Kind → PostRow → PostRow
one_more like r = record r { like_count = increment r.like_count }
one_more repost r = record r { repost_count = increment r.repost_count }
one_more bookmark r = r

abbrev pub one_less : Kind → PostRow → PostRow
one_less like r = record r { like_count = decrement r.like_count }
one_less repost r = record r { repost_count = decrement r.repost_count }
one_less bookmark r = r

abbrev pub is_counted : Kind → Bool
is_counted bookmark = false
is_counted _ = true

pub record NewPost : Type 0 where
  pub author_id : ℕ
  pub text : List ℕ
  pub media_ids : List ℕ
  pub media : List Asset
  pub reply_to_id : Option ℕ
  pub created_at : Option ℕ

abbrev pub or_value {ℓ} : {A : Type ℓ} → Option A → A → A
or_value none d = d
or_value (some a) d = a

abbrev pub post_of : Env → NewPost → PostRow
post_of env input = record {
  id = env.fresh_id;
  author_id = input.author_id;
  text = input.text;
  media_ids = input.media_ids;
  media = input.media;
  reply_to_id = input.reply_to_id;
  repost_of_id = none;
  created_at = or_value input.created_at env.now;
  deleted_at = none;
  reply_count = pos 0;
  like_count = pos 0;
  repost_count = pos 0;
}
