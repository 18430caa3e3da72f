-- ===== src/Prelude/Int64.antt =====
-- Go's `int64`: an integer, wrapped to 64 bits in two's complement after each operation.
use Prim.Native.Nat.{ℕ, ◌-◌, ◌^◌, ◌%◌}
use mathlib.Core.Path.{◌≡◌}
use native.Mathlib.Omega.{arith}
use go_fintech_microservices.Prelude.Tests.{ltb, if◌then◌else◌}
use go_fintech_microservices.Prelude.Int.{ℤ, pos, negsuc, ◌+ℤ◌, ◌-ℤ◌, ◌≤ℤ◌, ◌<ℤ◌}

abbrev pub max_int64 : ℤ
max_int64 = pos (2 ^ 63 - 1)

abbrev pub min_int64 : ℤ
min_int64 = negsuc (2 ^ 63 - 1)

-- The number that a 64-bit pattern stands for.
abbrev signed64 : ℕ → ℤ
signed64 w = if ltb w (2 ^ 63) then pos w else negsuc (2 ^ 64 - 1 - w)

wrap64 : ℤ → ℤ
wrap64 (pos n) = signed64 (n % 2 ^ 64)
wrap64 (negsuc n) = signed64 (2 ^ 64 - 1 - n % 2 ^ 64)

unfoldable pub add64 : ℤ → ℤ → ℤ
unfolding wrap64 ◌+ℤ◌
add64 a b = wrap64 (a +ℤ b)

unfoldable pub sub64 : ℤ → ℤ → ℤ
unfolding wrap64 ◌-ℤ◌
sub64 a b = wrap64 (a -ℤ b)

pub record IsInt64 (a : ℤ) : Type 0 where
  pub above : min_int64 ≤ℤ a
  pub below : a ≤ℤ max_int64

wrap64_exact : (a : ℤ) → min_int64 ≤ℤ a → a ≤ℤ max_int64 → wrap64 a ≡ a
unfolding wrap64
wrap64_exact (pos n) lo hi = ground arith
wrap64_exact (negsuc n) lo hi = ground arith

wrap64-IsInt64 : (a : ℤ) → IsInt64 (wrap64 a)
unfolding wrap64
wrap64-IsInt64 (pos n) = ground arith
wrap64-IsInt64 (negsuc n) = ground arith

-- Where the true result fits, the machine operation gives it.
pub add64_exact : (a b : ℤ) → min_int64 ≤ℤ a +ℤ b → a +ℤ b ≤ℤ max_int64 → add64 a b ≡ a +ℤ b
unfolding add64
add64_exact a b lo hi = wrap64_exact (a +ℤ b) lo hi

pub sub64_exact : (a b : ℤ) → min_int64 ≤ℤ a -ℤ b → a -ℤ b ≤ℤ max_int64 → sub64 a b ≡ a -ℤ b
unfolding sub64
sub64_exact a b lo hi = wrap64_exact (a -ℤ b) lo hi

pub add64-IsInt64 : (a b : ℤ) → IsInt64 (add64 a b)
unfolding add64
add64-IsInt64 a b = wrap64-IsInt64 (a +ℤ b)

pub sub64-IsInt64 : (a b : ℤ) → IsInt64 (sub64 a b)
unfolding sub64
sub64-IsInt64 a b = wrap64-IsInt64 (a -ℤ b)

-- A sum of two values past the largest one comes out negative.
pub add64_overflow :
    (a b : ℤ) → a ≤ℤ max_int64 → b ≤ℤ max_int64 → max_int64 <ℤ a +ℤ b → add64 a b <ℤ pos 0
unfolding add64
add64_overflow a b ha hb over = ground arith
