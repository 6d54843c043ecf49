-- ===== src/Core/Samples.antt =====
-- Test data: a context with no path set, and a hash function.
use dyad.Prelude.{ℕ, List, none, false, true, length}
use dyad.Core.Context.{Side, Ctx, cache_none}
use dyad.Utils.Paths.{Hash128}

abbrev pub unset_side : Side
unset_side = record {
  managed_path = none;
  managed_len = 0;
  managed_hash = 0;
  real_path = none;
  real_len = 0;
  real_hash = 0;
}

abbrev pub sample_ctx : Ctx
sample_ctx = record {
  has_handle = true;
  dtl_mode = none;
  use_fs_locks = true;
  prod = unset_side;
  cons = unset_side;
  check = false;
  reenter = true;
  shared_storage = false;
  async_publish = false;
  fsync_write = false;
  key_depth = 2;
  key_bins = 256;
  rank = 0;
  service_mux = 1;
  node_idx = 0;
  relative_to_managed_path = false;
  cache_policy_mode = cache_none;
  cache_capacity_bytes = 0;
  low_watermark = 0;
  cache_grace_period_sec = 0;
  origin_path = none;
}

abbrev pub length_hash : List ℕ → ℕ → Hash128
length_hash key seed = record { w0 = length key; w1 = seed; w2 = 0; w3 = 0 }
