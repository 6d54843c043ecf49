-- ===== src/Client/ConsumeRange/Tests.antt =====
-- Two bytes of the file "/p/a", whose origin has three.
use dyad.Prelude.{ℕ, ◌≤◌, ◌≡◌, refl, List, [], ◌∷◌, none, some, arith, true, false}
use dyad.Prelude.Bytes.{test_bit, set_bit}
use dyad.Prelude.Run.{returned}
use dyad.Core.Codes.{rc_ok}
use dyad.Core.Context.{Ctx, dtl_flux_rpc}
use dyad.Core.Samples.{sample_ctx, length_hash}
use dyad.Utils.Strings.{concat_str, extract_user_path, strncmp_eq, c_text, ends_with, apart}
use dyad.Utils.Paths.{hash_str, hash_path_prefix, try_prefix, try_side, cmp_canonical_path_prefix}
use dyad.Utils.Paths.Samples.{asked, frame, side, side-IsHashed}
use dyad.RangeCache.{
  num_blocks, bitmap_bytes, blocks_set, set_blocks, resized, write_at, fetch_span, size_files,
  prepare, prepare_sized, probe, with_bitmap, mark_span, fetch_and_mark, search_and_fill,
  dyad_range_cache_ensure,
}
use dyad.RangeCache.Bitmap.{bit_at}
use dyad.RangeCache.Succeeds.{all_succeed}
use dyad.RangeCache.PastEnd.{staged, staged-IsSound}
use dyad.Client.ConsumeRange.{
  RangeCalls, Ranged, read_local, range_local, range_tracked, dyad_consume_range,
}
use dyad.Client.ConsumeRange.Right.{Right, dyad_consume_range_lem}

program : Unit {0}
unfolding test_bit set_bit bit_at concat_str extract_user_path strncmp_eq c_text ends_with apart
    hash_str hash_path_prefix try_prefix try_side cmp_canonical_path_prefix num_blocks bitmap_bytes
    blocks_set set_blocks resized write_at fetch_span size_files prepare prepare_sized probe
    with_bitmap mark_span fetch_and_mark search_and_fill dyad_range_cache_ensure read_local
    range_local range_tracked dyad_consume_range
program = tt

abbrev origin : List ℕ
origin = 7 ∷ 8 ∷ 9 ∷ []

abbrev calls : RangeCalls
calls = record {
  fetch = (rc_ok, false);
  get_data_range = (rc_ok, none);
  ensure = all_succeed;
  open_file = true;
  shared_lock = rc_ok;
  malloc = true;
  pread = true;
  upath_addr = 40000;
  full_addr = 60000;
  origin_addr = 70000;
}

abbrev ctx : Ctx
ctx = record sample_ctx {
  cons = side;
  dtl_mode = some dtl_flux_rpc;
  origin_path = some (b'/' ∷ b'o' ∷ []);
}

reads :
    dyad_consume_range length_hash frame calls (some ctx) asked 1 2 (staged origin)
    ≡ returned (record {
      files = record {
        local_file = some origin;
        bitmap_file = some (1 ∷ []);
        origin_file = some origin;
      };
      rc = rc_ok;
      data_ = some (8 ∷ 9 ∷ []);
      reenter = true;
    })
unfolding program
reads = refl

in_origin : 3 ≤ 3
in_origin = omega arith

dyad_consume_range_lem_example :
    (r : Ranged) × (dyad_consume_range length_hash frame calls (some ctx) asked 1 2 (staged origin)
      ≡ returned r)
    × Right origin 1 2 in_origin r
dyad_consume_range_lem_example =
    dyad_consume_range_lem length_hash origin frame calls ctx asked 1 2 (b'/' ∷ b'o' ∷ [])
      (staged origin) side-IsHashed (λ _. omega arith) (staged-IsSound origin) (omega arith)
      in_origin refl refl
