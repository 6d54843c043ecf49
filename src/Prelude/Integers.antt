-- ===== src/Prelude/Integers.antt =====
-- Signed integers of 64 bits over the native numbers, and the casts between them and `size_t`.
use dyad.Prelude.Tests.{ltb, if◌then◌else◌, if-lem}
use Prim.Native.Nat.{ℕ, ◌-◌, ◌%◌, ◌^◌, ◌<◌}
use mathlib.Core.Path.{◌≡◌}
use native.Mathlib.Omega.{arith}

-- `negsuc n` is - (n + 1).
pub data ℤ : Type 0 where
  pos negsuc : ℕ → ℤ

-- (int64_t)n of a size_t
abbrev pub int64_of : ℕ → ℤ
int64_of n = if ltb n (2 ^ 63) then pos n else negsuc (2 ^ 64 - 1 - n)

-- (size_t)i of an int64_t
abbrev pub size_of : ℤ → ℕ
size_of (pos n) = n % 2 ^ 64
size_of (negsuc n) = 2 ^ 64 - 1 - n % 2 ^ 64

-- The cast there and back.
pub size_of-int64_of : (n : ℕ) → n < 2 ^ 64 → size_of (int64_of n) ≡ n
size_of-int64_of n small =
    if-lem (λ i. size_of i ≡ n) (ltb n (2 ^ 63)) (λ low. omega arith) (λ high. omega arith)
