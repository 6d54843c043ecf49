-- ===== src/Core/Init/Args.antt =====
-- What `dyad_init` is given, what its calls answer, and the default context, of dyad/core/dyad_ctx.c.
use dyad.Prelude.{ℕ, Bool, true, false, List, Option, none}
use dyad.Core.Codes.{Rc}
use dyad.Core.Context.{cache_none}
use dyad.Core.SetPath.{Allocations, no_side}
use dyad.Core.Init.Stages.{Context}

abbrev pub dyad_ctx_default : Context
dyad_ctx_default = record {
  ctx = record {
    has_handle = false;
    dtl_mode = none;
    use_fs_locks = false;
    prod = no_side;
    cons = no_side;
    check = false;
    reenter = false;
    shared_storage = false;
    async_publish = false;
    fsync_write = false;
    key_depth = 3;
    key_bins = 1024;
    rank = 0;
    service_mux = 1;
    node_idx = 0;
    relative_to_managed_path = false;
    cache_policy_mode = cache_none;
    cache_capacity_bytes = 0;
    low_watermark = 0;
    cache_grace_period_sec = 5;
    origin_path = none;
  };
  initialized = true;
  kvs_namespace = none;
  cache_policy = none;
}

-- The parameters of `dyad_init`; `flux_handle` is whether one is passed, and `low_watermark` the
-- product of the fraction and the capacity.
pub record InitArgs : Type 0 where
  pub check : Bool
  pub shared_storage : Bool
  pub reinit : Bool
  pub async_publish : Bool
  pub fsync_write : Bool
  pub key_depth : ℕ
  pub key_bins : ℕ
  pub service_mux : ℕ
  pub kvs_namespace : Option (List ℕ)
  pub prod_managed_path : Option (List ℕ)
  pub cons_managed_path : Option (List ℕ)
  pub relative_to_managed_path : Bool
  pub dtl_mode_str : Option (List ℕ)
  pub flux_handle : Bool
  pub cache_capacity_bytes : ℕ
  pub cache_policy_str : Option (List ℕ)
  pub low_watermark : ℕ
  pub cache_grace_period_sec : ℕ
  pub origin_path : Option (List ℕ)

-- What is answered: the allocations, Flux (`none` is a rank that cannot be had), and the transports
-- that are built in.
pub record InitCalls : Type 0 where
  pub malloc_ctx : Bool
  pub flux_open : Bool
  pub get_rank : Option ℕ
  pub calloc_namespace : Bool
  pub calloc_origin : Bool
  pub malloc_dtl : Bool
  pub ucx_init : Option Rc
  pub margo_init : Option Rc
  pub flux_init : Rc
  pub malloc_policy : Bool
  pub malloc_private : Bool
  pub prod_path : Allocations
  pub cons_path : Allocations
