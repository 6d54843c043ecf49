-- ===== src/Service/Tests.antt =====
-- A worker serves two bytes of a file whose origin has three.
use dyad.Prelude.{ℕ, ◌≡◌, refl, List, [], ◌∷◌, some, arith, true}
use dyad.Prelude.Bytes.{test_bit, set_bit}
use dyad.Prelude.Run.{returned}
use dyad.Core.Codes.{rc_ok, rc_badfio}
use dyad.RangeCache.{
  Files, num_blocks, bitmap_bytes, blocks_set, set_blocks, resized, write_at, fetch_span,
  size_files, prepare, prepare_sized, probe, with_bitmap, mark_span, fetch_and_mark,
  search_and_fill, dyad_range_cache_ensure,
}
use dyad.RangeCache.Bitmap.{bit_at}
use dyad.RangeCache.Sound.{IsSound}
use dyad.RangeCache.Succeeds.{all_succeed}
use dyad.RangeCache.PastEnd.{staged, staged-IsSound}
use dyad.Service.{
  WorkItem, Reader, WorkerCalls, clamped, read_chunks, read_range, dyad_fetch_worker_process,
}
use dyad.Service.Serves.{IsPread, Served, dyad_fetch_worker_process_lem}

program : Unit {0}
unfolding test_bit set_bit bit_at num_blocks bitmap_bytes blocks_set set_blocks resized write_at
    fetch_span size_files prepare prepare_sized probe with_bitmap mark_span fetch_and_mark
    search_and_fill dyad_range_cache_ensure clamped read_chunks read_range dyad_fetch_worker_process
program = tt

abbrev origin : List ℕ
origin = 7 ∷ 8 ∷ 9 ∷ []

abbrev item : WorkItem
item = record {
  fullpath = b'/' ∷ b'l' ∷ [];
  origin_fullpath = some (b'/' ∷ b'o' ∷ []);
  offset = 1;
  range_length = 2;
  inbuf = [];
  rc = rc_badfio;
  range_len = 0;
}

abbrev reads_all : Reader
reads_all call n = some n

reads_all-IsPread : IsPread reads_all
reads_all-IsPread call n k h = ground arith

abbrev calls : WorkerCalls
calls = record {
  ensure = all_succeed;
  open_file = true;
  shared_lock = rc_ok;
  pread = reads_all;
  fuel = 2;
}

serves :
    dyad_fetch_worker_process calls item (staged origin)
    ≡ returned (
      record { local_file = some origin; bitmap_file = some (1 ∷ []); origin_file = some origin },
      some (record item { inbuf = 8 ∷ 9 ∷ []; rc = rc_ok; range_len = 2 }),
    )
unfolding program
serves = refl

dyad_fetch_worker_process_lem_example :
    (fs' : Files) × ((done : WorkItem) × (dyad_fetch_worker_process calls item (staged origin)
        ≡ returned (fs', some done))
      × IsSound origin fs'
      × Served origin item done)
dyad_fetch_worker_process_lem_example =
    dyad_fetch_worker_process_lem origin item calls (omega arith) (omega arith) reads_all-IsPread
      (omega arith) (b'/' ∷ b'o' ∷ []) (staged origin) (staged-IsSound origin) refl
