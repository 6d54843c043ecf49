-- ===== src/Core/Init/Env.antt =====
-- `dyad_init_env` and `dyad_ctx_init` of dyad/core/dyad_ctx.c: the parameters of `dyad_init` from the
-- environment. Numbers are read by arguments: `atoi` as an unsigned int, `strtoull`, and the low
-- watermark, which is the product of the fraction (0.8 if there is none) and the capacity.
use dyad.Prelude.{ℕ, Bool, true, false, List, Option, none, some}
use dyad.Prelude.Run.{Run, ◌>>=◌}
use dyad.Core.Codes.{Rc, is_error}
use dyad.Core.Context.{dtl_flux_rpc, cache_lru}
use dyad.Core.Init.Stages.{Context}
use dyad.Core.Init.{dyad_init}
use dyad.Core.Init.Transport.{dtl_mode_name}
use dyad.Core.Init.Args.{InitArgs, InitCalls}
use dyad.Cache.Policy.{policy_name}
use dyad.Utils.Paths.{Hash128}

pub data Variable : Type 0 where
  sync_debug sync_check shared_storage reinit async_publish fsync_write key_depth key_bins
        service_mux kvs_namespace path_consumer path_producer path_relative dtl_mode cache_capacity
        cache_policy cache_low_watermark cache_grace_period path_origin :
      Variable

pub record Numbers : Type 0 where
  pub atoi : List ℕ → ℕ
  pub strtoull : List ℕ → ℕ
  pub watermark : Option (List ℕ) → ℕ → ℕ

abbrev is_set : Option (List ℕ) → Bool
is_set none = false
is_set (some text) = true

abbrev read_or : (List ℕ → ℕ) → ℕ → Option (List ℕ) → ℕ
read_or read default none = default
read_or read default (some text) = read text

abbrev text_or : List ℕ → Option (List ℕ) → Option (List ℕ)
text_or default none = some default
text_or default (some text) = some text

-- A flag is set when its variable is there, whatever it holds.
unfoldable pub args_of_env : Numbers → (Variable → Option (List ℕ)) → Bool → InitArgs
args_of_env numbers getenv flux_handle =
    let capacity = read_or numbers.strtoull 0 (getenv cache_capacity) in
    record {
      check = is_set (getenv sync_check);
      shared_storage = is_set (getenv shared_storage);
      reinit = is_set (getenv reinit);
      async_publish = is_set (getenv async_publish);
      fsync_write = is_set (getenv fsync_write);
      key_depth = read_or numbers.atoi 3 (getenv key_depth);
      key_bins = read_or numbers.atoi 1024 (getenv key_bins);
      service_mux = read_or numbers.atoi 1 (getenv service_mux);
      kvs_namespace = getenv kvs_namespace;
      prod_managed_path = getenv path_producer;
      cons_managed_path = getenv path_consumer;
      relative_to_managed_path = is_set (getenv path_relative);
      dtl_mode_str = text_or (dtl_mode_name dtl_flux_rpc) (getenv dtl_mode);
      flux_handle = flux_handle;
      cache_capacity_bytes = capacity;
      cache_policy_str = text_or (policy_name cache_lru) (getenv cache_policy);
      low_watermark = numbers.watermark (getenv cache_low_watermark) capacity;
      cache_grace_period_sec = read_or numbers.atoi 5 (getenv cache_grace_period);
      origin_path = getenv path_origin;
    }

-- What `dyad_ctx_init` makes of the answer: a context that failed counts as not initialized.
abbrev pub after_init_env : Option Context × Rc → Option Context
after_init_env (none, rc) = none
after_init_env (some c, rc) =
    let ctx = c.ctx in
    elim (is_error rc) [
      | true ↦ some (record c { initialized = false; ctx = record ctx { reenter = false } })
      | false ↦ some c
    ]

module _ (murmur : List ℕ → ℕ → Hash128) (realpath : List ℕ → Option (List ℕ)) (numbers : Numbers)
    (getenv : Variable → Option (List ℕ)) where
  unfoldable pub dyad_init_env : Bool → InitCalls → Option Context → Run (Option Context × Rc)
  unfolding args_of_env
  dyad_init_env flux_handle os current =
      dyad_init murmur realpath (args_of_env numbers getenv flux_handle) os current

  unfoldable pub dyad_ctx_init : Bool → InitCalls → Option Context → Run (Option Context)
  unfolding dyad_init_env
  dyad_ctx_init flux_handle os current = do
    answer ← dyad_init_env flux_handle os current
    Run.returned (after_init_env answer)
