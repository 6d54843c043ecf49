-- ===== src/Prelude/Bytes.antt =====
-- Bits of a byte. The laws are checked at every value of a byte.
use Prim.Native.Nat.{bit_and, bit_or}
use Prim.Native.Nat.{ℕ, zero, suc, ◌^◌, ◌<◌}
use mathlib.Core.Path.{◌≡◌, refl, sym, subst}
use native.Mathlib.Decide.{ℕ_discrete}
use mathlib.Core.Bool.{Bool, true, false, not, ◌&&◌, ◌||◌}
use native.Mathlib.Omega.{arith}
use dyad.Prelude.Tests.{◌==◌, ltb, if◌then◌else◌}

-- `(x & (1u << k)) != 0`
unfoldable pub test_bit : ℕ → ℕ → Bool
test_bit x k = not (bit_and x (2 ^ k) == 0)

-- `x | (1u << k)`
unfoldable pub set_bit : ℕ → ℕ → ℕ
set_bit x k = bit_or x (2 ^ k)

-- The test `p` passes at 0, 1, …, `bound - 1`.
passes_to : (ℕ → Bool) → ℕ → Bool
passes_to p zero = true
passes_to p (suc bound) = if p bound then passes_to p bound else false

passes_to-at :
    (p : ℕ → Bool) {bound : ℕ} → passes_to p bound ≡ true → (x : ℕ) → x < bound → p x ≡ true
unfolding passes_to
passes_to-at p {bound = zero} all x below = absurd (omega arith)
passes_to-at p {bound = suc bound} all x below = elim (ℕ_discrete x bound) [
  | yes e ↦ subst (λ y. p y ≡ true) (sym e) (ground arith)
  | no ne ↦ passes_to-at p {bound = bound} (ground arith) x (omega arith)
]

bool_eq : Bool → Bool → Bool
bool_eq true b = b
bool_eq false b = not b

bool_eq_sound : (a b : Bool) → bool_eq a b ≡ true → a ≡ b
unfolding bool_eq
bool_eq_sound a b h = ground arith

set_law : ℕ → ℕ → ℕ → Bool
unfolding test_bit set_bit bool_eq
set_law x k j = ltb (set_bit x k) 256 && bool_eq (test_bit (set_bit x k) j) (k == j || test_bit x j)

set_table : passes_to (λ j. passes_to (λ k. passes_to (λ x. set_law x k j) 256) 8) 8 ≡ true
unfolding passes_to set_law
set_table = refl

set_law-holds : (x k j : ℕ) → x < 256 → k < 8 → j < 8 → set_law x k j ≡ true
set_law-holds x k j hx hk hj =
    passes_to-at (λ x'. set_law x' k j)
      (passes_to-at (λ k'. passes_to (λ x'. set_law x' k' j) 256)
        (passes_to-at (λ j'. passes_to (λ k'. passes_to (λ x'. set_law x' k' j') 256) 8) set_table j
          hj)
        k hk)
      x hx

pub set_bit-lt : (x k : ℕ) → x < 256 → k < 8 → set_bit x k < 256
unfolding set_law
set_bit-lt x k hx hk = ground (arith, set_law-holds x k 0)

pub test_bit-set_bit :
    (x k j : ℕ) → x < 256 → k < 8 → j < 8 → test_bit (set_bit x k) j ≡ (k == j || test_bit x j)
test_bit-set_bit x k j hx hk hj =
    bool_eq_sound _ _ (unfold set_law in ground (arith, set_law-holds x k j))

pub test_bit_zero : (k : ℕ) → k < 8 → test_bit 0 k ≡ false
test_bit_zero k h =
    bool_eq_sound _ _ (passes_to-at (λ j. bool_eq (test_bit 0 j) false) zero_table k h)
  where
    zero_table : passes_to (λ j. bool_eq (test_bit 0 j) false) 8 ≡ true
    zero_table = unfold passes_to bool_eq test_bit in refl
