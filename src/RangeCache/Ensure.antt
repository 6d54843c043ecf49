-- ===== src/RangeCache/Ensure.antt =====
-- `dyad_range_cache_ensure` on a sound state: it never leaves the bitmap, it keeps the invariant,
-- and when it answers DYAD_RC_OK the requested bytes are in the local file.
use dyad.Prelude.{
  ℕ, ◌+◌, ◌-◌, ◌*◌, ◌/◌, ◌^◌, ◌≤◌, ◌<◌, ◌≡◌, refl, sym, subst, ◌⊎◌, inl, inr, Bool, false, not,
  ◌&&◌, ◌==◌, List, some, arith, length, Bool-cases,
}
use dyad.Prelude.Run.{returned}
use dyad.Core.Codes.{Rc, rc_ok, rc_badfio, rc_badbuf}
use dyad.RangeCache.{
  Files, Answers, block_size, u64, with_bitmap, path_too_long, dyad_range_cache_ensure,
}
use dyad.RangeCache.Bounds.{last_block}
use dyad.RangeCache.Sound.{Present, IsSound, with_bitmap-IsSound}
use dyad.RangeCache.Search.{search_and_fill-IsSound}

-- The request is not empty, the path is short enough, and the bitmap file opens and locks.
goes_on : ℕ → List ℕ → Answers → Bool
goes_on len local_path os =
    not (len == 0) && not (path_too_long local_path) && os.open_bitmap && os.shared_lock

-- The returns before the first check: the bitmap file was created at most, and DYAD_RC_OK is
-- answered for an empty request alone.
returns_early :
    (os : Answers) (local_path origin_path : List ℕ) (offset len : ℕ) (fs : Files)
    → goes_on len local_path os ≡ false
    → (r : Files × Rc) × (dyad_range_cache_ensure os local_path (some origin_path) offset len fs
        ≡ returned r)
      × ((r.0 ≡ fs) ⊎ (r.0 ≡ with_bitmap fs))
      × (r.1 ≡ rc_ok → len ≡ 0)
unfolding dyad_range_cache_ensure goes_on
returns_early os local_path origin_path offset len fs stops = elim (Bool-cases (len == 0)) [
  | inl e ↦ ((fs, rc_ok), ground arith, inl refl, λ _. ground arith)
  | inr e ↦ elim (Bool-cases (path_too_long local_path)) [
    | inl e₁ ↦ ((fs, rc_badbuf), ground arith, inl refl, λ x. cc)
    | inr e₁ ↦ elim (Bool-cases os.open_bitmap) [
      | inr e₂ ↦ ((fs, rc_badfio), ground arith, inl refl, λ x. cc)
      | inl e₂ ↦ ((with_bitmap fs, rc_badfio), ground arith, inr refl, λ x. cc)
    ]
  ]
]

module _ (o : List ℕ) where
  -- On a sound state, for a request that ends within the origin (whose size, with one block, fits 64
  -- bits), and whatever the system calls answer: the call reads and writes within the bitmap, leaves
  -- a sound state, and if it answers DYAD_RC_OK every requested byte of the local file is the
  -- origin's.
  pub dyad_range_cache_ensure_lem :
      (os : Answers) (local_path origin_path : List ℕ) (offset len : ℕ) (fs : Files)
      → IsSound o fs
      → length o + block_size < 2 ^ 64
      → offset + len ≤ length o
      → (r : Files × Rc) × (dyad_range_cache_ensure os local_path (some origin_path) offset len fs
          ≡ returned r)
        × IsSound o r.0
        × (r.1 ≡ rc_ok → (i : ℕ) → offset ≤ i → i < offset + len → Present o r.0 i)
  unfolding dyad_range_cache_ensure goes_on
  dyad_range_cache_ensure_lem os local_path origin_path offset len fs s small fits =
      elim (Bool-cases (goes_on len local_path os)) [
        | inl e ↦
            let bounds : (u64 (offset + len + 2 ^ 64 - 1) / block_size * block_size < length o)
                × (offset / block_size ≤ u64 (offset + len + 2 ^ 64 - 1) / block_size)
                × (offset + len ≤ (u64 (offset + len + 2 ^ 64 - 1) / block_size + 1) * block_size) =
              last_block offset len (length o) small (ground arith) fits in
            let (r, runs, sound, present) =
              search_and_fill-IsSound o (offset / block_size)
                (u64 (offset + len + 2 ^ 64 - 1) / block_size) small bounds.0 bounds.1 os
                (with_bitmap fs) (with_bitmap-IsSound o s) in
            (
              r,
              ground (arith, runs),
              sound,
              (λ ok i p q. present ok i (omega arith) (omega (arith, bounds.2)) (omega arith)),
            )
        | inr e ↦
            let (r, runs, same, empty) = returns_early os local_path origin_path offset len fs e in
            (
              r,
              runs,
              elim same [
                | inl x ↦ subst (IsSound o) (sym x) s
                | inr x ↦ subst (IsSound o) (sym x) (with_bitmap-IsSound o s)
              ],
              (λ ok i p q. absurd (omega (arith, empty ok))),
            )
      ]
