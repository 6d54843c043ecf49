-- ===== src/Core/Context.antt =====
-- `dyad_ctx_t`, with the fields that the modelled code reads. The path fields come twice in the
-- source, as prod_* and cons_*: each group of six is one `Side`.
use dyad.Prelude.{ℕ, Bool, List, Option}
use dyad.Utils.Strings.{CStr}

pub record Side : Type 0 where
  pub managed_path : Option CStr
  pub managed_len : ℕ
  pub managed_hash : ℕ
  pub real_path : Option CStr
  pub real_len : ℕ
  pub real_hash : ℕ

pub data DtlMode : Type 0 where
  dtl_ucx dtl_flux_rpc dtl_margo : DtlMode

pub data CachePolicyMode : Type 0 where
  cache_none cache_lru cache_fifo : CachePolicyMode

-- `has_handle` is `h != NULL`, `dtl_mode` the mode of `dtl_handle` where that is not NULL.
-- `low_watermark` is `(uint64_t)(cache_low_watermark_frac * (double)cache_capacity_bytes)`.
pub record Ctx : Type 0 where
  pub has_handle : Bool
  pub dtl_mode : Option DtlMode
  pub use_fs_locks : Bool
  pub prod : Side
  pub cons : Side
  pub check : Bool
  pub reenter : Bool
  pub shared_storage : Bool
  pub async_publish : Bool
  pub fsync_write : Bool
  pub key_depth : ℕ
  pub key_bins : ℕ
  pub rank : ℕ
  pub service_mux : ℕ
  pub node_idx : ℕ
  pub relative_to_managed_path : Bool
  pub cache_policy_mode : CachePolicyMode
  pub cache_capacity_bytes : ℕ
  pub low_watermark : ℕ
  pub cache_grace_period_sec : ℕ
  pub origin_path : Option (List ℕ)
