-- ===== src/RangeCache/PastEnd.antt =====
-- A request that reaches past the last byte of the bitmap: the mark is written outside the buffer.
use dyad.Prelude.{
  ℕ, zero, suc, ◌+◌, ◌-◌, ◌*◌, ◌/◌, ◌%◌, ◌^◌, ◌≤◌, ◌<◌, ◌≡◌, ◌≢◌, refl, sym, ◌∙◌, inl, inr, true,
  false, leb, ◌==◌, List, [], some, none, arith, length, length-set, get_elem?, set, Bool-cases,
  Option-cases,
}
use dyad.Prelude.Bytes.{set_bit}
use dyad.Prelude.Run.{returned, fault}
use dyad.RangeCache.{
  Files, missing, content, block_size, num_blocks, bitmap_bytes, resized, size_files, prepare,
  prepare_sized, probe, with_bitmap, path_too_long, mark_span, fetch_and_mark, search_and_fill,
  dyad_range_cache_ensure, rounds, blocks_set, set_blocks,
}
use dyad.RangeCache.Slots.{lt_of_entry, length-resized, entry_at}
use dyad.RangeCache.Bitmap.{bit_at, bit_at_entry}
use dyad.RangeCache.Storage.{bit_at-resized}
use dyad.RangeCache.Bounds.{blocks_fit}
use dyad.RangeCache.Sound.{IsSound}
use dyad.RangeCache.Hit.{last_of, last_of_lem}
use dyad.RangeCache.Succeeds.{all_succeed, fetch_span-succeeds}

-- The loop that sets bits faults when its last block has no byte.
set_blocks-fault :
    (bitmap : List ℕ) (b left : ℕ)
    → 0 < left
    → length bitmap ≤ (b + left - 1) / 8
    → set_blocks bitmap b left ≡ fault
unfolding set_blocks
set_blocks-fault bitmap b zero h beyond = absurd (omega arith)
set_blocks-fault bitmap b (suc left) h beyond = elim (Option-cases (get_elem? bitmap (b / 8))) [
  | inl e ↦ rw (e, set_blocks)
  | inr (x, e) ↦
      rw (e, set_blocks)
        (set_blocks-fault (set bitmap (b / 8) (set_bit x (b % 8))) (b + 1) left
          (omega (arith, lt_of_entry bitmap (b / 8) e))
          (omega (arith, length-set bitmap (b / 8) (set_bit x (b % 8)))))
]

-- The loop that tests bits answers `false` at once where the first is not set.
blocks_set-first :
    (bitmap : List ℕ) (b left : ℕ)
    → 0 < left
    → b / 8 < length bitmap
    → bit_at bitmap b ≡ false
    → blocks_set bitmap b left ≡ returned false
unfolding blocks_set
blocks_set-first bitmap b zero h inside f = absurd (omega arith)
blocks_set-first bitmap b (suc left) h inside f =
    let (x, at) = entry_at bitmap (b / 8) inside in
    rw (at, sym (bit_at_entry bitmap b at) ∙ f, blocks_set)

mark_span-fault :
    (block_start block_end n : ℕ) (fs : Files)
    → block_start ≤ block_end
    → bitmap_bytes (num_blocks n) ≤ block_end / 8
    → mark_span all_succeed block_start block_end n fs ≡ fault
unfolding mark_span
mark_span-fault block_start block_end n fs ordered beyond = rw (
    set_blocks-fault (resized (bitmap_bytes (num_blocks n)) (content fs.bitmap_file)) block_start
      (rounds block_start block_end) (omega arith)
      (omega (arith, length-resized (bitmap_bytes (num_blocks n)) (content fs.bitmap_file))))

-- The files before the first request of a staged file.
abbrev pub staged : List ℕ → Files
staged o = record { local_file = none; bitmap_file = none; origin_file = some o }

no_marks : (b : ℕ) → bit_at [] b ≢ true
unfolding bit_at
no_marks b h = cc

pub staged-IsSound : (o : List ℕ) → IsSound o (staged o)
staged-IsSound o = record {
  origin = refl;
  bytes = λ j x e. cc;
  marked = λ b i m p q below. absurd (no_marks b m);
}

module _ (o : List ℕ) (block_start block_end : ℕ) (small : length o + block_size < 2 ^ 64)
    (inside : block_start * block_size < length o) (ordered : block_start ≤ block_end)
    (end_small : (block_end + 1) * block_size < 2 ^ 64)
    (past : bitmap_bytes (num_blocks (length o)) ≤ block_end / 8) where
  bytes : ℕ
  bytes = bitmap_bytes (num_blocks (length o))

  sized : Files
  sized = record {
    local_file = some (resized (length o) []);
    bitmap_file = some (resized bytes []);
    origin_file = some o;
  }

  -- The buffer that the sized bitmap is read into has no mark.
  unmarked :
      blocks_set (resized bytes (resized bytes [])) block_start (rounds block_start block_end)
      ≡ returned false
  unfolding bytes
  unmarked =
      blocks_set-first (resized bytes (resized bytes [])) block_start (rounds block_start block_end)
        (omega arith)
        (omega (
          arith,
          length-resized bytes (resized bytes []),
          blocks_fit (length o) block_start small inside,
        ))
        (elim (Bool-cases (bit_at (resized bytes (resized bytes [])) block_start)) [
          | inr e ↦ e
          | inl e ↦ absurd (
              unfold bit_at in
              (let old =
                  bit_at-resized bytes [] block_start
                    (bit_at-resized bytes (resized bytes []) block_start e) in
                cc))
        ])

  prepare-missing :
      prepare all_succeed block_start block_end (with_bitmap (staged o))
      ≡ returned (missing sized (length o))
  unfolding prepare prepare_sized with_bitmap sized bytes size_files
  prepare-missing =
      let filled : (length o == 0) ≡ false = ground arith in
      let short : leb bytes (length {A = ℕ} []) ≡ false =
        ground (arith, blocks_fit (length o) block_start small inside) in
      rw (filled, short, size_files) (rw unmarked refl)

  fetch_and_mark-fault : fetch_and_mark all_succeed block_start block_end (length o) sized ≡ fault
  unfolding fetch_and_mark sized
  fetch_and_mark-fault =
      let (fetched, fetches, _, _) =
        fetch_span-succeeds o block_start block_end small inside ordered end_small sized refl
          (λ e. cc) in
      rw fetches (mark_span-fault block_start block_end (length o) fetched ordered past)

probe-staged :
    (block_start block_end : ℕ) (o : List ℕ)
    → probe all_succeed block_start block_end (with_bitmap (staged o)) ≡ returned false
unfolding probe with_bitmap
probe-staged block_start block_end o = ground arith

-- The first request of a staged file that starts within the file and whose last block has no byte of
-- the bitmap writes outside the bitmap buffer when no call fails. The file's size with one block and
-- the end of the last block fit 64 bits.
dyad_range_cache_ensure_past_end :
    (o local_path origin_path : List ℕ) (offset len : ℕ)
    → path_too_long local_path ≡ false
    → 0 < len
    → offset < length o
    → length o + block_size < 2 ^ 64
    → offset + len + block_size < 2 ^ 64
    → bitmap_bytes (num_blocks (length o)) ≤ last_of offset len / 8
    → dyad_range_cache_ensure all_succeed local_path (some origin_path) offset len (staged o)
      ≡ fault
unfolding dyad_range_cache_ensure search_and_fill
dyad_range_cache_ensure_past_end o local_path origin_path offset len short pos starts small
      end_small past =
    let some_len : (len == 0) ≡ false = ground arith in
    rw (
      some_len,
      short,
      last_of_lem offset len some_len (omega arith),
      probe-staged (offset / block_size) (last_of offset len) o,
      prepare-missing o (offset / block_size) (last_of offset len) small (omega arith) (omega arith)
          (omega arith) past,
      fetch_and_mark-fault o (offset / block_size) (last_of offset len) small (omega arith)
          (omega arith) (omega arith) past,
    )
