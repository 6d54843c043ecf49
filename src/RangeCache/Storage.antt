-- ===== src/RangeCache/Storage.antt =====
-- Bits and bytes of a bitmap that is resized, or written over from its start.
use native.Mathlib.Decide.{dec_lt}
use dyad.Prelude.{
  ℕ, ◌/◌, ◌%◌, ◌<◌, ◌≡◌, sym, ◌∙◌, ◌⊎◌, inl, inr, true, false, List, some, arith, length, get_elem?,
  replicate, length-replicate, get_elem?-replicate, Option-cases,
}
use dyad.Prelude.Bytes.{test_bit, test_bit_zero}
use dyad.RangeCache.{resized, write_at}
use dyad.RangeCache.Slots.{
  lt_of_entry, length-resized, get_elem?-resized, get_elem?-resized_new, get_elem?-write_at,
  get_elem?-write_at_after,
}
use dyad.RangeCache.Bitmap.{bit_at, IsBytes, same_bit}

entry_of_bit :
    (xs : List ℕ) (b : ℕ)
    → bit_at xs b ≡ true
    → (x : ℕ) × (get_elem? xs (b / 8) ≡ some x) × (test_bit x (b % 8) ≡ true)
unfolding bit_at
entry_of_bit xs b h = elim (Option-cases (get_elem? xs (b / 8))) [
  | inl e ↦ absurd (ground arith)
  | inr (x, e) ↦ (x, e, ground arith)
]

-- A mark lies within the bitmap.
pub bit_at-lt : (xs : List ℕ) (b : ℕ) → bit_at xs b ≡ true → b / 8 < length xs
bit_at-lt xs b h = let (x, at, _) = entry_of_bit xs b h in lt_of_entry xs (b / 8) at

-- Resizing makes no mark.
pub bit_at-resized :
    (n : ℕ) (xs : List ℕ) (b : ℕ) → bit_at (resized n xs) b ≡ true → bit_at xs b ≡ true
bit_at-resized n xs b h = elim (dec_lt (b / 8) (length xs)) [
  | yes there ↦ sym (same_bit (resized n xs) xs b (get_elem?-resized n xs (b / 8) below there)) ∙ h
  | no new ↦ ground (
    arith,
    entry_of_bit (resized n xs) b h,
    get_elem?-resized_new n xs (b / 8) below (omega arith),
    test_bit_zero (b % 8) (omega arith),
  )
]
  where
    below : b / 8 < n
    below = omega (arith, bit_at-lt (resized n xs) b h, length-resized n xs)

pub bit_at-zeros : (n b : ℕ) → bit_at (replicate n 0) b ≡ false
unfolding bit_at
bit_at-zeros n b = elim (dec_lt (b / 8) n) [
  | yes h ↦
      rw (get_elem?-replicate {A = ℕ} n 0 (b / 8) h, bit_at) (test_bit_zero (b % 8) (omega arith))
  | no h ↦ elim (Option-cases (get_elem? (replicate {A = ℕ} n 0) (b / 8))) [
    | inl e ↦ rw (e, bit_at)
    | inr (x, e) ↦
        absurd (omega (arith, lt_of_entry (replicate n 0) (b / 8) e, length-replicate {A = ℕ} n 0))
  ]
]

pub IsBytes-resized : (n : ℕ) (xs : List ℕ) → IsBytes xs → IsBytes (resized n xs)
IsBytes-resized n xs bytes j x e = elim (dec_lt j (length xs)) [
  | yes there ↦ bytes j x (sym (get_elem?-resized n xs j below there) ∙ e)
  | no new ↦ ground (arith, get_elem?-resized_new n xs j below (omega arith))
]
  where
    below : j < n
    below = omega (arith, lt_of_entry (resized n xs) j e, length-resized n xs)

pub IsBytes-zeros : (n : ℕ) → IsBytes (replicate n 0)
IsBytes-zeros n j x e = ground (
  arith,
  get_elem?-replicate {A = ℕ} n 0 j
      (omega (arith, lt_of_entry (replicate n 0) j e, length-replicate {A = ℕ} n 0)),
)

-- A bitmap written over from its start has the new marks, and behind them its own.
pub bit_at-write_at :
    (new xs : List ℕ) (b : ℕ)
    → bit_at (write_at 0 new xs) b ≡ true
    → (bit_at new b ≡ true) ⊎ (bit_at xs b ≡ true)
bit_at-write_at new xs b h = elim (dec_lt (b / 8) (length new)) [
  | yes inside ↦ inl (
      sym (
        same_bit (write_at 0 new xs) new b
          (get_elem?-write_at 0 new xs (b / 8) (b / 8) (omega arith) inside))
      ∙ h)
  | no behind ↦ inr (
      sym (
        same_bit (write_at 0 new xs) xs b (get_elem?-write_at_after 0 new xs (b / 8) (omega arith)))
      ∙ h)
]

pub bit_at-write_at_new :
    (new xs : List ℕ) (b : ℕ) → bit_at new b ≡ true → bit_at (write_at 0 new xs) b ≡ true
bit_at-write_at_new new xs b h =
    same_bit (write_at 0 new xs) new b
      (get_elem?-write_at 0 new xs (b / 8) (b / 8) (omega arith) (bit_at-lt new b h))
    ∙ h

pub IsBytes-write_at : (new xs : List ℕ) → IsBytes new → IsBytes xs → IsBytes (write_at 0 new xs)
IsBytes-write_at new xs nb xb j x e = elim (dec_lt j (length new)) [
  | yes inside ↦ nb j x (sym (get_elem?-write_at 0 new xs j j (omega arith) inside) ∙ e)
  | no behind ↦ xb j x (sym (get_elem?-write_at_after 0 new xs j (omega arith)) ∙ e)
]
