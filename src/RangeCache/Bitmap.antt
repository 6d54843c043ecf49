-- ===== src/RangeCache/Bitmap.antt =====
-- The bits that the bitmap loops read and set.
use native.Mathlib.Decide.{ℕ_discrete}
use dyad.Prelude.{
  ℕ, zero, suc, ◌+◌, ◌*◌, ◌/◌, ◌%◌, ◌≤◌, ◌<◌, ◌≡◌, refl, sym, ◌∙◌, subst, inl, inr, Bool, true,
  false, ◌||◌, ◌&&◌, leb, List, some, none, arith, ◌==◌, ltb, length, get_elem?, set, length-set,
  get_elem?-set_self, get_elem?-set_ne, Bool-cases,
}
use dyad.Prelude.Bytes.{test_bit, set_bit, set_bit-lt, test_bit-set_bit}
use dyad.Prelude.Run.{returned}
use dyad.RangeCache.{blocks_set, set_blocks}
use dyad.RangeCache.Slots.{entry_at, lt_of_entry}

-- Block `b` is marked. A bit outside the bitmap is not.
unfoldable pub bit_at : List ℕ → ℕ → Bool
bit_at bitmap b = elim (get_elem? bitmap (b / 8)) [ none ↦ false | some x ↦ test_bit x (b % 8) ]

abbrev pub IsBytes : List ℕ → Type 0
IsBytes xs = (j x : ℕ) → get_elem? xs j ≡ some x → x < 256

-- All of `left` blocks from `b` on.
abbrev pub AllMarked : List ℕ → ℕ → ℕ → Type 0
AllMarked bitmap b left = (c : ℕ) → b ≤ c → c < b + left → bit_at bitmap c ≡ true

pub bit_at_entry :
    (bitmap : List ℕ) (b : ℕ) {x : ℕ}
    → get_elem? bitmap (b / 8) ≡ some x
    → bit_at bitmap b ≡ test_bit x (b % 8)
unfolding bit_at
bit_at_entry bitmap b at = rw (at, bit_at)

-- Within the bitmap the loop answers, and it answers whether all the blocks are marked.
pub blocks_set_lem :
    (bitmap : List ℕ) (b left : ℕ)
    → b + left ≤ 8 * length bitmap
    → (hit : Bool) × (blocks_set bitmap b left ≡ returned hit)
      × (hit ≡ true → AllMarked bitmap b left)
      × (AllMarked bitmap b left → hit ≡ true)
unfolding blocks_set
blocks_set_lem bitmap b zero h = (true, refl, (λ _ c p q. absurd (omega arith)), (λ _. refl))
blocks_set_lem bitmap b (suc left) h =
    let (x, at) = entry_at bitmap (b / 8) (omega arith) in
    let (hit, runs, sound, complete) = blocks_set_lem bitmap (b + 1) left (omega arith) in
    elim (Bool-cases (test_bit x (b % 8))) [
      | inl set_here ↦ (
        hit,
        ground arith,
        (λ e c p q. elim (ℕ_discrete b c) [
          | yes here ↦ rw (← here) (bit_at_entry bitmap b at ∙ set_here)
          | no later ↦ sound e c (omega arith) (omega arith)
        ]),
        (λ all. complete (λ c p q. all c (omega arith) (omega arith))),
      )
      | inr clear_here ↦ (
        false,
        ground arith,
        (λ e. cc),
        (λ all. ground (arith, all b (omega arith) (omega arith), bit_at_entry bitmap b at)),
      )
    ]

pub same_bit :
    (xs ys : List ℕ) (c : ℕ)
    → get_elem? xs (c / 8) ≡ get_elem? ys (c / 8)
    → bit_at xs c ≡ bit_at ys c
unfolding bit_at
same_bit xs ys c e = rw (e, bit_at)

-- One bit set.
bit_at-set :
    (bitmap : List ℕ) (b c x : ℕ)
    → IsBytes bitmap
    → get_elem? bitmap (b / 8) ≡ some x
    → bit_at (set bitmap (b / 8) (set_bit x (b % 8))) c ≡ (b == c || bit_at bitmap c)
bit_at-set bitmap b c x bytes at = elim (ℕ_discrete (b / 8) (c / 8)) [
  | yes same ↦
      let there : get_elem? bitmap (c / 8) ≡ some x = rw same at at in
      let here : get_elem? written (c / 8) ≡ some new =
        subst (λ k. get_elem? written k ≡ some new) same new_at in
      ground (
        arith,
        bit_at_entry written c here,
        bit_at_entry bitmap c there,
        test_bit-set_bit x (b % 8) (c % 8) (bytes (b / 8) x at) (omega arith) (omega arith),
      )
  | no other ↦
      let kept = get_elem?-set_ne bitmap new other in ground (arith, same_bit written bitmap c kept)
]
  where
    new : ℕ
    new = set_bit x (b % 8)

    written : List ℕ
    written = set bitmap (b / 8) new

    new_at : get_elem? written (b / 8) ≡ some new
    new_at = get_elem?-set_self bitmap (b / 8) new (lt_of_entry bitmap (b / 8) at)

IsBytes-set :
    (bitmap : List ℕ) (b x : ℕ)
    → IsBytes bitmap
    → get_elem? bitmap (b / 8) ≡ some x
    → IsBytes (set bitmap (b / 8) (set_bit x (b % 8)))
IsBytes-set bitmap b x bytes at j y e = elim (ℕ_discrete (b / 8) j) [
  | yes same ↦
      let here : get_elem? bitmap j ≡ some x = rw same at at in
      ground (
        arith,
        get_elem?-set_self bitmap (b / 8) (set_bit x (b % 8)) (lt_of_entry bitmap (b / 8) at),
        set_bit-lt x (b % 8) (bytes j x here) (omega arith),
      )
  | no other ↦ bytes j y (sym (get_elem?-set_ne bitmap (set_bit x (b % 8)) other) ∙ e)
]

-- Within the bitmap the loop sets exactly the blocks of its range, and keeps the length.
pub set_blocks_lem :
    (bitmap : List ℕ) (b left : ℕ)
    → IsBytes bitmap
    → b + left ≤ 8 * length bitmap
    → (out : List ℕ) × (set_blocks bitmap b left ≡ returned out)
      × (length out ≡ length bitmap)
      × IsBytes out
      × ((c : ℕ) → bit_at out c ≡ ((leb b c && ltb c (b + left)) || bit_at bitmap c))
unfolding set_blocks
set_blocks_lem bitmap b zero bytes h = (bitmap, refl, refl, bytes, λ c. ground arith)
set_blocks_lem bitmap b (suc left) bytes h =
    let (x, at) = entry_at bitmap (b / 8) (omega arith) in
    let here = IsBytes-set bitmap b x bytes at in
    let same = length-set bitmap (b / 8) (set_bit x (b % 8)) in
    let (out, runs, len, out_bytes, bits) =
      set_blocks_lem (set bitmap (b / 8) (set_bit x (b % 8))) (b + 1) left here
        (omega (arith, same)) in
    (
      out,
      ground (arith, runs),
      len ∙ same,
      out_bytes,
      λ c. ground (arith, bits c, bit_at-set bitmap b c x bytes at),
    )
