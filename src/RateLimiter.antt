-- ===== src/RateLimiter.antt =====
-- The token buckets of the mutation routes (packages/auth-nest/src/rate-limiter.ts, the script that
-- Valkey runs, and rate-limit.guard.ts). Tokens are counted in thousandths and times in milliseconds,
-- so that the refill of a second, `refill`, is the thousandths of a millisecond; the script's floating
-- point is not modelled. A bucket is the hash of one user, address and route; its key is gone once it
-- expires. How Lua rounds a quotient up is a parameter.
pub mod Bounds
mod Tests
use xitter.Prelude.{
  ℕ, zero, suc, ◌+◌, ◌-◌, ◌*◌, ◌≤◌, ◌≡◌, min, max, Bool, true, false, Option, none, some, List, [],
  ◌∷◌, leb, ltb, if◌then◌else◌,
}
use xitter.Http.{Result, ok, err, rate_limited}

pub record Bucket : Type 0 where
  pub tokens : ℕ
  pub ts : ℕ

pub record Limit : Type 0 where
  pub capacity : ℕ
  pub refill : ℕ
  -- `math.ceil (a / b)`, at least `a / b`
  pub ceil_div : ℕ → ℕ → ℕ
  pub ceil_div_lem : (a b : ℕ) → 1 ≤ b → a ≤ ceil_div a b * b

pub record ConsumeResult : Type 0 where
  pub allowed : Bool
  pub retry_after_seconds : ℕ

module _ (limit : Limit) where
  -- The key expires `math.ceil (capacity / refill * 2)` seconds after the last request.
  abbrev pub lifetime : ℕ
  lifetime = 1000 * limit.ceil_div (limit.capacity * 2) limit.refill

  unfoldable pub read : ℕ → Option Bucket → Option Bucket
  read now none = none
  read now (some b) = if leb lifetime (now - b.ts) then none else some b

  -- A bucket that is not there is full.
  abbrev pub refilled : ℕ → Option Bucket → ℕ
  refilled now none =
      min (limit.capacity * 1000) (limit.capacity * 1000 + (now - now) * limit.refill)
  refilled now (some b) = min (limit.capacity * 1000) (b.tokens + (now - b.ts) * limit.refill)

  -- One request, for one token.
  unfoldable pub consume : ℕ → Option Bucket → ConsumeResult × Option Bucket
  consume now stored =
      let tokens = refilled now (read now stored) in
      if leb 1000 tokens
      then (
        record { allowed = true; retry_after_seconds = 0 },
        some (record { tokens = tokens - 1000; ts = now }),
      )
      else (
        record {
          allowed = false;
          retry_after_seconds = max 1 (limit.ceil_div (1000 - tokens) (1000 * limit.refill));
        },
        some (record { tokens = tokens; ts = now }),
      )

  -- The guard: where Valkey does not answer, the request is let through.
  unfoldable pub can_activate : Bool → ℕ → Option Bucket → Result (Unit {0}) × Option Bucket
  can_activate false now stored = (ok tt, stored)
  can_activate true now stored =
      let (reply, stored') = consume now stored in
      (if reply.allowed then ok tt else err rate_limited, stored')
