-- ===== src/RateLimiter/Bounds.antt =====
-- How many requests a bucket lets through (packages/auth-nest/src/rate-limiter.ts).
use xitter.Prelude.{
  ℕ, suc, ◌+◌, ◌-◌, ◌*◌, ◌≤◌, ◌≡◌, min, max, refl, true, false, Option, none, some, List, [], ◌∷◌,
  leb, if◌then◌else◌, arith, Bool-cases, inl, inr,
}
use xitter.Http.{ok}
use xitter.RateLimiter.{Bucket, Limit, read, refilled, consume, can_activate}

times-le : (a b c : ℕ) → a ≤ b → a * c ≤ b * c
times-le a b c h = grind arith

abbrev pub sum : List ℕ → ℕ
sum [] = 0
sum (x ∷ xs) = x + sum xs

module _ (limit : Limit) where
  -- Requests that follow each other after the given times: how many are let through, and the bucket.
  unfoldable pub requests : ℕ → Option Bucket → List ℕ → ℕ × Option Bucket
  requests now stored [] = (0, stored)
  requests now stored (gap ∷ gaps) =
      let (reply, stored') = consume limit (now + gap) stored in
      let (n, end) = requests (now + gap) stored' gaps in (if reply.allowed then suc n else n, end)

module _ (limit : Limit) (refills : 1 ≤ limit.refill) where
  -- A key that expired held a bucket that was full again.
  refilled-read :
      (now : ℕ) (stored : Option Bucket)
      → refilled limit now (read limit now stored) ≡ refilled limit now stored
  unfolding read
  refilled-read now none = refl
  refilled-read now (some b) =
      let twice = limit.ceil_div_lem (limit.capacity * 2) limit.refill refills in
      let lives = limit.ceil_div (limit.capacity * 2) limit.refill in
      let old = times-le (1000 * lives) (now - b.ts) limit.refill in ground (arith, twice, old)

  consume_lem :
      (now : ℕ) (stored : Option Bucket)
      → let tokens = refilled limit now stored in
        consume limit now stored ≡ (
          if leb 1000 tokens
          then (
            record { allowed = true; retry_after_seconds = 0 },
            some (record { tokens = tokens - 1000; ts = now }),
          )
          else (
            record {
              allowed = false;
              retry_after_seconds = max 1 (limit.ceil_div (1000 - tokens) (1000 * limit.refill));
            },
            some (record { tokens = tokens; ts = now }),
          ))
  unfolding consume
  consume_lem now stored = rw (refilled-read now stored) refl

  refilled-le :
      (now gap tokens : ℕ)
      → refilled limit (now + gap) (some (record { tokens = tokens; ts = now }))
        ≤ tokens + gap * limit.refill
  refilled-le now gap tokens =
      let since : (now + gap) - now ≡ gap = omega arith in rw since (omega arith)

  requests-tokens :
      (now tokens : ℕ) (gaps : List ℕ)
      → 1000 * (requests limit now (some (record { tokens = tokens; ts = now })) gaps).0
        ≤ tokens + sum gaps * limit.refill
  unfolding requests
  requests-tokens now tokens [] = omega arith
  requests-tokens now tokens (gap ∷ gaps) =
      let stored = some (record { tokens = tokens; ts = now }) in
      let level = refilled limit (now + gap) stored in
      let least = refilled-le now gap tokens in
      rw (consume_lem (now + gap) stored) (elim (Bool-cases (leb 1000 level)) [
        | inl e ↦
            let rest = requests-tokens (now + gap) (level - 1000) gaps in
            rw e (ground (arith, least, rest, e))
        | inr e ↦
            let rest = requests-tokens (now + gap) level gaps in rw e (ground (arith, least, rest))
      ])

  -- With a refill that is not zero, from a bucket that is not there: over any requests that follow each other, however long it takes
  -- and whether the key expires in between, no more are let through than the capacity and what the
  -- time since the first of them refills.
  pub requests-bound :
      (now gap : ℕ) (gaps : List ℕ)
      → 1000 * (requests limit now none (gap ∷ gaps)).0
        ≤ 1000 * limit.capacity + sum gaps * limit.refill
  unfolding requests
  requests-bound now gap gaps =
      let level = refilled limit (now + gap) none in
      rw (consume_lem (now + gap) none) (elim (Bool-cases (leb 1000 level)) [
        | inl e ↦
            let rest = requests-tokens (now + gap) (level - 1000) gaps in
            rw e (ground (arith, rest, e))
        | inr e ↦ let rest = requests-tokens (now + gap) level gaps in rw e (ground (arith, rest))
      ])

  refilled-enough :
      (level told wait : ℕ)
      → 1 ≤ limit.capacity
      → 1000 * told ≤ wait
      → 1000 - level ≤ told * (1000 * limit.refill)
      → 1000 ≤ min (limit.capacity * 1000) (level + wait * limit.refill)
  refilled-enough level told wait some_capacity long covers =
      let more = times-le (1000 * told) wait limit.refill long in
      omega (arith, some_capacity, more, covers)

  -- A client that is refused, and whose next request comes after the seconds that it was told or later,
  -- is let through, where the refill and the capacity are not zero.
  pub can_activate-retry :
      (now later : ℕ) (stored : Option Bucket)
      → 1 ≤ limit.capacity
      → (consume limit now stored).0.allowed ≡ false
      → now + 1000 * (consume limit now stored).0.retry_after_seconds ≤ later
      → (can_activate limit true later (consume limit now stored).1).0 ≡ ok tt
  unfolding can_activate
  can_activate-retry now later stored some_capacity refused waited =
      let level = refilled limit now stored in
      let told = limit.ceil_div (1000 - level) (1000 * limit.refill) in
      let denied : leb 1000 level ≡ false = ground (arith, consume_lem now stored, refused) in
      let bucket : (consume limit now stored).1 ≡ some (record { tokens = level; ts = now }) =
        ground (arith, consume_lem now stored, denied) in
      let long : 1000 * told ≤ later - now =
        ground (arith, consume_lem now stored, denied, waited) in
      let enough =
        refilled-enough level told (later - now) some_capacity long
          (limit.ceil_div_lem (1000 - level) (1000 * limit.refill) (omega (arith, refills))) in
      rw (bucket, consume_lem later (some (record { tokens = level; ts = now })))
        (ground (arith, enough))
