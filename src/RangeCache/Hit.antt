-- ===== src/RangeCache/Hit.antt =====
-- A request of `dyad_range_cache_ensure` whose blocks are all marked.
use dyad.Prelude.{
  ℕ, ◌+◌, ◌-◌, ◌/◌, ◌^◌, ◌≤◌, ◌<◌, ◌≡◌, ◌≢◌, refl, sym, ap, ◌∙◌, inl, inr, Bool, true, false, ◌&&◌,
  ltb, ◌==◌, List, some, none, arith, length, Bool-cases, Option-cases,
}
use dyad.Prelude.Run.{returned}
use dyad.Core.Codes.{rc_ok}
use dyad.RangeCache.{
  Files, Answers, content, block_size, u64, probe, with_bitmap, path_too_long, search_and_fill,
  dyad_range_cache_ensure, rounds,
}
use dyad.RangeCache.Bitmap.{blocks_set_lem, AllMarked}
use dyad.RangeCache.Storage.{bit_at-lt}

-- The four calls that a hit makes succeed.
abbrev pub ProbeSucceeds : Answers → Type 0
ProbeSucceeds os =
    (os.open_bitmap ≡ true)
    × (os.shared_lock ≡ true)
    × (os.malloc_probe ≡ true)
    × (os.read_probe ≡ true)

abbrev pub SpanMarked : ℕ → ℕ → Files → Type 0
SpanMarked block_start block_end fs =
    AllMarked (content fs.bitmap_file) block_start (rounds block_start block_end)

probe-hit :
    (os : Answers) (block_start block_end : ℕ) (fs : Files)
    → ProbeSucceeds os
    → block_start ≤ block_end
    → SpanMarked block_start block_end fs
    → probe os block_start block_end fs ≡ returned true
unfolding probe
probe-hit os block_start block_end fs h ordered all =
    let inside =
      bit_at-lt (content fs.bitmap_file) block_end (all block_end ordered (omega arith)) in
    let (hit, runs, _, complete) =
      blocks_set_lem (content fs.bitmap_file) block_start (rounds block_start block_end)
        (omega arith) in
    ground (arith, runs, complete all, inside)

-- Whatever the first check answers, it answers; a hit is a span that is marked.
pub probe-SpanMarked :
    (os : Answers) (block_start block_end : ℕ) (fs : Files)
    → block_start ≤ block_end
    → (hit : Bool) × (probe os block_start block_end fs ≡ returned hit)
      × (hit ≡ true → SpanMarked block_start block_end fs)
unfolding probe
probe-SpanMarked os block_start block_end fs ordered = elim (Bool-cases tried) [
  | inr e ↦ rw e (false, refl, λ h. cc)
  | inl e ↦
      let (hit, runs, sound, _) =
        blocks_set_lem (content fs.bitmap_file) block_start (rounds block_start block_end)
          (ground arith) in
      rw e (hit, runs, sound)
]
  where
    tried : Bool
    tried =
        ltb (block_end / 8) (length (content fs.bitmap_file)) && os.malloc_probe && os.read_probe

with_bitmap-same : (fs : Files) → fs.bitmap_file ≢ none → with_bitmap fs ≡ fs
unfolding with_bitmap
with_bitmap-same fs made = elim (Option-cases fs.bitmap_file) [
  | inl e ↦ absurd (made e)
  | inr (x, e) ↦ ap (λ b. record fs { bitmap_file = b }) (ap (λ b. some (content b)) e ∙ sym e)
]

-- The last block of a request that is not empty.
abbrev pub last_of : ℕ → ℕ → ℕ
last_of offset len = (offset + len - 1) / block_size

pub last_of_lem :
    (offset len : ℕ)
    → (len == 0) ≡ false
    → offset + len < 2 ^ 64
    → u64 (offset + len + 2 ^ 64 - 1) / block_size ≡ last_of offset len
last_of_lem offset len h small = ap (λ x. x / block_size) same
  where
    same : u64 (offset + len + 2 ^ 64 - 1) ≡ offset + len - 1
    same = ground arith

search_and_fill-hit :
    (os : Answers) (block_start block_end : ℕ) (fs : Files)
    → probe os block_start block_end fs ≡ returned true
    → search_and_fill os block_start block_end fs ≡ returned (fs, rc_ok)
unfolding search_and_fill
search_and_fill-hit os block_start block_end fs hit = rw hit

-- A request whose blocks are all marked answers DYAD_RC_OK and changes no file, whatever the calls
-- that fill a span would answer. The path is short enough, the bitmap file exists and is opened,
-- locked and read, and the end of the request fits 64 bits.
pub dyad_range_cache_ensure-hit :
    (os : Answers) (local_path origin_path : List ℕ) (offset len : ℕ) (fs : Files)
    → ProbeSucceeds os
    → path_too_long local_path ≡ false
    → fs.bitmap_file ≢ none
    → offset + len < 2 ^ 64
    → SpanMarked (offset / block_size) (last_of offset len) fs
    → dyad_range_cache_ensure os local_path (some origin_path) offset len fs ≡ returned (fs, rc_ok)
unfolding dyad_range_cache_ensure
dyad_range_cache_ensure-hit os local_path origin_path offset len fs h short made small all =
    elim (Bool-cases (len == 0)) [
      | inl e ↦ ground (arith, e)
      | inr e ↦
          let pos : 0 < len = ground arith in
          let found : search_and_fill os (offset / block_size)
                (u64 (offset + len + 2 ^ 64 - 1) / block_size) (with_bitmap fs)
              ≡ returned (fs, rc_ok) =
            rw (with_bitmap-same fs made, last_of_lem offset len e small)
              (search_and_fill-hit os (offset / block_size) (last_of offset len) fs
                (probe-hit os (offset / block_size) (last_of offset len) fs h (omega arith) all)) in
          ground (arith, e, short, h.0, h.1, found)
    ]
