-- ===== src/Seed/Requests.antt =====
-- What one request with its retries comes to (packages/scripts/src/lib/api.ts, requestJson).
use xitter.Prelude.{
  ℕ, zero, suc, ◌≡◌, refl, ap, ◌∙◌, ◌⊎◌, inl, inr, List, [], ◌∷◌, take, keep, if◌then◌else◌,
  Bool-cases, arith,
}
use xitter.Database.{sort}
use xitter.Paging.{comes_first}
use xitter.Seed.{
  Stored, Fate, answered, refused, never_connected, lost_before, lost_after, Server, refusal,
  unreached, ambiguous, Answer, ok, failed, RetryCause, unreached_only, attempt_json, retryable,
  request_json, Body, row_of, insert_post, stored_position, is_shown, timeline, read_timeline,
}

abbrev pub Untouched : Server → Server → Type 0
Untouched w v = (v.rows ≡ w.rows) × (v.next_id ≡ w.next_id)

abbrev pub Landed : Body → Server → Server → Type 0
Landed body w v = (v.rows ≡ row_of w.next_id body ∷ w.rows) × (v.next_id ≡ suc w.next_id)

-- A create that is retried only where the service was not reached.
abbrev pub Created : Body → Server → Answer ℕ × Server → Type 0
Created body w (ok id, v) = (id ≡ w.next_id) × Landed body w v
Created body w (failed refusal, v) = Untouched w v
Created body w (failed unreached, v) = Untouched w v
Created body w (failed ambiguous, v) = Untouched w v ⊎ Landed body w v

attempt-Created :
    (body : Body) (w : Server) (script : List Fate)
    → w.script ≡ script
    → Created body w (attempt_json (insert_post body) w)
unfolding attempt_json
attempt-Created body w [] e = rw (attempt_json, e) (refl, (refl, refl))
attempt-Created body w (answered ∷ rest) e = rw (attempt_json, e) (refl, (refl, refl))
attempt-Created body w (refused ∷ rest) e = rw (attempt_json, e) (refl, refl)
attempt-Created body w (never_connected ∷ rest) e = rw (attempt_json, e) (refl, refl)
attempt-Created body w (lost_before ∷ rest) e = rw (attempt_json, e) (inl (refl, refl))
attempt-Created body w (lost_after ∷ rest) e = rw (attempt_json, e) (inr (refl, refl))

Untouched-Created :
    (body : Body) (w v : Server) (r : Answer ℕ × Server)
    → Untouched w v
    → Created body v r
    → Created body w r
Untouched-Created body w v (ok id, u) h c = ground (arith, h, c)
Untouched-Created body w v (failed refusal, u) h c = ground (arith, h, c)
Untouched-Created body w v (failed unreached, u) h c = ground (arith, h, c)
Untouched-Created body w v (failed ambiguous, u) h c = ground (arith, h, c)

retry-Created :
    (body : Body) (w : Server) (r again : Answer ℕ × Server)
    → Created body w r
    → Created body r.1 again
    → Created body w (elim r.0 [
      | ok v ↦ (ok v, r.1)
      | failed f ↦ if retryable f unreached_only then again else (failed f, r.1)
    ])
retry-Created body w (ok id, v) again c d = c
retry-Created body w (failed refusal, v) again c d = c
retry-Created body w (failed unreached, v) again c d = Untouched-Created body w v again c d
retry-Created body w (failed ambiguous, v) again c d = c

pub request-Created :
    (body : Body) (retries : ℕ) (w : Server)
    → Created body w (request_json retries unreached_only (insert_post body) w)
unfolding request_json
request-Created body zero w = attempt-Created body w w.script refl
request-Created body (suc n) w =
    let r = attempt_json (insert_post body) w in
    retry-Created body w r (request_json n unreached_only (insert_post body) r.1)
      (attempt-Created body w w.script refl) (request-Created body n r.1)

-- A read changes nothing, and what it answers is the timeline.
abbrev pub Seen : ℕ → Server → Answer (List Stored) × Server → Type 0
Seen author w (ok items, v) = (items ≡ timeline author w) × Untouched w v
Seen author w (failed f, v) = Untouched w v

attempt-Seen :
    (author : ℕ) (w : Server) (script : List Fate)
    → w.script ≡ script
    → Seen author w (attempt_json (read_timeline author) w)
unfolding attempt_json
attempt-Seen author w [] e = rw (attempt_json, e) (refl, (refl, refl))
attempt-Seen author w (answered ∷ rest) e = rw (attempt_json, e) (refl, (refl, refl))
attempt-Seen author w (refused ∷ rest) e = rw (attempt_json, e) (refl, refl)
attempt-Seen author w (never_connected ∷ rest) e = rw (attempt_json, e) (refl, refl)
attempt-Seen author w (lost_before ∷ rest) e = rw (attempt_json, e) (refl, refl)
attempt-Seen author w (lost_after ∷ rest) e = rw (attempt_json, e) (refl, refl)

timeline_same : (author : ℕ) (w v : Server) → Untouched w v → timeline author v ≡ timeline author w
timeline_same author w v h =
    ap (λ rows. take 50 (sort (comes_first stored_position) (keep (is_shown author) rows))) h.0

retry-Seen :
    (author : ℕ) (w : Server) (causes : RetryCause) (r again : Answer (List Stored) × Server)
    → Seen author w r
    → Seen author r.1 again
    → Seen author w (elim r.0 [
      | ok v ↦ (ok v, r.1)
      | failed f ↦ if retryable f causes then again else (failed f, r.1)
    ])
retry-Seen author w causes (ok items, v) again c d = c
retry-Seen author w causes (failed f, v) again c d = elim (Bool-cases (retryable f causes)) [
  | inl e ↦ rw e (later again d)
  | inr e ↦ rw e c
]
  where
    later : (a : Answer (List Stored) × Server) → Seen author v a → Seen author w a
    later (ok items, u) s = (s.0 ∙ timeline_same author w v c, (s.1.0 ∙ c.0, s.1.1 ∙ c.1))
    later (failed g, u) s = (s.0 ∙ c.0, s.1 ∙ c.1)

pub request-Seen :
    (author retries : ℕ) (causes : RetryCause) (w : Server)
    → Seen author w (request_json retries causes (read_timeline author) w)
unfolding request_json
request-Seen author zero causes w = attempt-Seen author w w.script refl
request-Seen author (suc n) causes w =
    let r = attempt_json (read_timeline author) w in
    retry-Seen author w causes r (request_json n causes (read_timeline author) r.1)
      (attempt-Seen author w w.script refl) (request-Seen author n causes r.1)
