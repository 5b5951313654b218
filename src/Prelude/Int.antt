-- ===== src/Prelude/Int.antt =====
-- Signed integers over the native numbers: the counters of the posts table are `Int` columns that
-- a decrement may take below zero.
use Prim.Native.Nat.{ℕ, suc, ◌+◌, ◌-◌}
use mathlib.Core.Path.{◌≡◌}
use native.Mathlib.Omega.{arith}
use xitter.Prelude.Tests.{leb, if◌then◌else◌}

-- `negsuc n` is -(n + 1).
pub data ℤ : Type 0 where
  pos : ℕ → ℤ
  negsuc : ℕ → ℤ

-- `{ increment: 1 }`
unfoldable pub increment : ℤ → ℤ
increment (pos n) = pos (n + 1)
increment (negsuc n) = if leb n 0 then pos 0 else negsuc (n - 1)

-- `{ decrement: 1 }`
unfoldable pub decrement : ℤ → ℤ
decrement (pos n) = if leb n 0 then negsuc 0 else pos (n - 1)
decrement (negsuc n) = negsuc (n + 1)

pub decrement-increment : (a : ℤ) → decrement (increment a) ≡ a
unfolding increment decrement
decrement-increment a = ground arith

pub increment-decrement : (a : ℤ) → increment (decrement a) ≡ a
unfolding increment decrement
increment-decrement a = ground arith

pub increment-pos : (n : ℕ) → increment (pos n) ≡ pos (suc n)
unfolding increment
increment-pos n = ground arith

pub decrement-pos : (n : ℕ) → decrement (pos (suc n)) ≡ pos n
unfolding decrement
decrement-pos n = ground arith
