-- ===== src/RangeCache/Tests.antt =====
-- Runs of the range cache on a file of three bytes, and its theorems there.
use dyad.Prelude.{
  ℕ, zero, suc, subst, ◌^◌, ◌+◌, ◌≡◌, ◌≤◌, ◌<◌, refl, inr, List, [], ◌∷◌, some, arith, length,
  get_elem?,
}
use dyad.Prelude.Bytes.{test_bit, set_bit}
use dyad.Prelude.Run.{returned}
use dyad.Core.Codes.{Rc, rc_ok}
use dyad.RangeCache.{
  Files, Answers, block_size, num_blocks, bitmap_bytes, blocks_set, set_blocks, resized, write_at,
  fetch_span, size_files, prepare, prepare_sized, probe, with_bitmap, mark_span, fetch_and_mark,
  search_and_fill, dyad_range_cache_ensure,
}
use dyad.RangeCache.Bitmap.{bit_at}
use dyad.RangeCache.Sound.{IsSound, Present, SpanPresent}
use dyad.RangeCache.Ensure.{dyad_range_cache_ensure_lem}
use dyad.RangeCache.Hit.{ProbeSucceeds, SpanMarked}
use dyad.RangeCache.Succeeds.{all_succeed, HasLocal}
use dyad.RangeCache.Complete.{dyad_range_cache_ensure-completes}
use dyad.RangeCache.PastEnd.{staged, staged-IsSound}
use dyad.RangeCache.Races.{
  Phase, starting, checking, finished, Caller, next_part, World, Moves, part, none_yet, and_then,
}
use dyad.RangeCache.Races.Safe.{IsSettled, IsSafe, Reaches-safe}

program : Unit {0}
unfolding test_bit set_bit bit_at num_blocks bitmap_bytes blocks_set set_blocks resized write_at
    fetch_span size_files prepare prepare_sized probe with_bitmap mark_span fetch_and_mark
    search_and_fill dyad_range_cache_ensure
program = tt

abbrev origin : List ℕ
origin = 7 ∷ 8 ∷ 9 ∷ []

-- "/l" and "/o"
abbrev local_path : List ℕ
local_path = b'/' ∷ b'l' ∷ []

abbrev origin_path : List ℕ
origin_path = b'/' ∷ b'o' ∷ []

abbrev filled : Files
filled = record { local_file = some origin; bitmap_file = some (1 ∷ []); origin_file = some origin }

fills :
    dyad_range_cache_ensure all_succeed local_path (some origin_path) 1 2 (staged origin)
    ≡ returned (filled, rc_ok)
unfolding program
fills = refl

staged-HasLocal : HasLocal 3 (staged origin)
unfolding num_blocks bitmap_bytes
staged-HasLocal = inr (omega arith)

dyad_range_cache_ensure_lem_example :
    (r : Files × Rc) × (dyad_range_cache_ensure all_succeed local_path
        (some origin_path)
        1
        2
        (staged origin)
      ≡ returned r)
    × IsSound origin r.0
    × (r.1 ≡ rc_ok → (i : ℕ) → 1 ≤ i → i < 3 → Present origin r.0 i)
dyad_range_cache_ensure_lem_example =
    dyad_range_cache_ensure_lem origin all_succeed local_path origin_path 1 2 (staged origin)
      (staged-IsSound origin) (omega arith) (omega arith)

dyad_range_cache_ensure-completes_example :
    (fs' : Files) × (dyad_range_cache_ensure all_succeed local_path
        (some origin_path)
        1
        2
        (staged origin)
      ≡ returned (fs', rc_ok))
    × ((os : Answers)
        → ProbeSucceeds os
        → dyad_range_cache_ensure os local_path (some origin_path) 1 2 fs' ≡ returned (fs', rc_ok))
dyad_range_cache_ensure-completes_example =
    dyad_range_cache_ensure-completes origin local_path origin_path 1 2 (staged origin)
      (staged-IsSound origin) staged-HasLocal (omega arith) (omega arith) refl

first_marked : SpanMarked 0 0 filled
unfolding program
first_marked c p q = let zero_only : c ≡ 0 = omega arith in rw zero_only

few_bytes : bitmap_bytes (num_blocks 3) ≤ 1
unfolding num_blocks bitmap_bytes
few_bytes = omega arith

abbrev waiting : Caller
waiting = record { block_start = 0; block_end = 0; phase = starting }

abbrev two_callers : World
two_callers = record { files = staged origin; callers = waiting ∷ waiting ∷ [] }

abbrev one_moved : World
one_moved = record {
  files = staged origin;
  callers = record waiting { phase = checking } ∷ waiting ∷ [];
}

moves : Moves two_callers one_moved
unfolding next_part program
moves = part two_callers 0 waiting all_succeed (staged origin) checking refl refl

small : length origin + block_size < 2 ^ 64
small = omega arith

only_waiting : (i : ℕ) (c : Caller) → get_elem? (waiting ∷ waiting ∷ []) i ≡ some c → waiting ≡ c
only_waiting zero c at = cc
only_waiting (suc zero) c at = cc
only_waiting (suc (suc i)) c at = cc

two_callers-IsSafe : IsSafe origin small two_callers
two_callers-IsSafe = record {
  files = staged-IsSound origin;
  callers = λ i c at.
      subst (λ x. IsSettled origin small x (staged origin)) (only_waiting i c at)
        (record { inside = omega arith; ordered = omega arith; settled = tt });
}

Reaches-safe_example :
    IsSound origin one_moved.files
    × ((i : ℕ) (c : Caller)
        → get_elem? one_moved.callers i ≡ some c
        → (c.phase ≡ finished rc_ok → SpanPresent origin c.block_start c.block_end one_moved.files)
          × ((os : Answers)
              → (r : Files × Phase) × (next_part os c.block_start c.block_end c.phase
                    one_moved.files
                  ≡ returned r)))
Reaches-safe_example =
    Reaches-safe origin small two_callers one_moved two_callers-IsSafe
      (and_then (none_yet two_callers) moves)
