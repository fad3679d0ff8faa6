-- ===== src/Base/Words.antt =====
-- Go's int64 as its bit pattern below 2 ^ 64: wrapping sum and difference, and the signed order.
use Prim.Native.Nat.{ℕ, ◌+◌, ◌-◌, ◌%◌, ◌^◌, ◌≤◌, ◌<◌}
use mathlib.Core.Path.{◌≡◌}
use mathlib.Core.Logic.{◌↔◌}
use mathlib.Core.Bool.{Bool, true}
use native.Mathlib.Omega.{arith}
use lopen.Base.Tests.{ltb}

abbrev pub Int64 : Type 0
Int64 = ℕ

unfoldable pub add64 : Int64 → Int64 → Int64
add64 a b = (a + b) % 2 ^ 64

unfoldable pub sub64 : Int64 → Int64 → Int64
sub64 a b = (a + 2 ^ 64 - b) % 2 ^ 64

-- a < b as signed integers: the sign bit is flipped on both sides.
unfoldable pub lt64 : Int64 → Int64 → Bool
lt64 a b = ltb ((a + 2 ^ 63) % 2 ^ 64) ((b + 2 ^ 63) % 2 ^ 64)

-- On patterns that stand for nonnegative integers the order is that of the numbers.
pub lt64_iff : (a b : Int64) → a < 2 ^ 63 → b < 2 ^ 63 → (lt64 a b ≡ true) ↔ (a < b)
unfolding lt64
lt64_iff a b ha hb = ground arith

pub lt64-eq-ltb : (a b : Int64) → a < 2 ^ 63 → b < 2 ^ 63 → lt64 a b ≡ ltb a b
unfolding lt64
lt64-eq-ltb a b ha hb = ground arith

pub add64-eq-add : (a b : Int64) → a + b < 2 ^ 64 → add64 a b ≡ a + b
unfolding add64
add64-eq-add a b h = omega arith

pub sub64-eq-sub : (a b : Int64) → a < 2 ^ 64 → b ≤ a → sub64 a b ≡ a - b
unfolding sub64
sub64-eq-sub a b h k = omega arith

-- A pattern that is not negative and not above a nonnegative limit is a number up to the limit.
pub lt64_bounds :
    (a m : Int64)
    → a < 2 ^ 64
    → m < 2 ^ 63
    → ((lt64 a 0 ≡ true → ⊥) × (lt64 m a ≡ true → ⊥)) ↔ (a ≤ m)
unfolding lt64
lt64_bounds a m ha hm = ground arith
