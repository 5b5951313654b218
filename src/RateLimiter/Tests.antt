-- ===== src/RateLimiter/Tests.antt =====
-- The theorems of the rate limiter at concrete limits.
use xitter.Prelude.{ℕ, ◌+◌, ◌-◌, ◌*◌, ◌/◌, ◌≤◌, ◌≡◌, refl, true, none, some, [], ◌∷◌, arith}
use xitter.Http.{ok}
use native.Mathlib.Omega.{div_any}
use native.Mathlib.Nat.{mod-lt}
use xitter.RateLimiter
use xitter.RateLimiter.{Limit, Bucket}
use xitter.RateLimiter.Bounds.{requests, sum, requests-bound, can_activate-retry}

abbrev ceil : ℕ → ℕ → ℕ
ceil a b = (a + b - 1) / b

ceil_lem : (a b : ℕ) → 1 ≤ b → a ≤ ceil a b * b
ceil_lem a b h = omega (arith, h, div_any (a + b - 1) b, mod-lt (a + b - 1) {m = b} h)

abbrev limit : Limit
limit = record { capacity = 3; refill = 1; ceil_div = ceil; ceil_div_lem = ceil_lem }

requests-bound_example :
    1000 * (requests limit 5 none (0 ∷ 10 ∷ 10 ∷ 10 ∷ 2000 ∷ [])).0
    ≤ 1000 * limit.capacity + sum (10 ∷ 10 ∷ 10 ∷ 2000 ∷ []) * limit.refill
requests-bound_example = requests-bound limit (omega arith) 5 0 (10 ∷ 10 ∷ 10 ∷ 2000 ∷ [])

can_activate-retry_example :
    (RateLimiter.can_activate limit true 1510
      (RateLimiter.consume limit 510 (some (record { tokens = 700; ts = 500 }))).1).0
    ≡ ok tt
unfolding RateLimiter.consume RateLimiter.read
can_activate-retry_example =
    can_activate-retry limit (omega arith) 510 1510 (some (record { tokens = 700; ts = 500 }))
      (omega arith) refl (omega arith)
