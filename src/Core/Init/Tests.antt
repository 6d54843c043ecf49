-- ===== src/Core/Init/Tests.antt =====
-- "/p" is managed by a producer, with the namespace "n".
use dyad.Prelude.{ℕ, ◌≡◌, refl, inl, inr, true, false, List, [], ◌∷◌, Option, none, some, arith}
use dyad.Prelude.Run.{returned, fault}
use dyad.Core.Codes.{Rc, rc_ok, rc_noctx, rc_fluxfail}
use dyad.Core.Context.{dtl_flux_rpc}
use dyad.Core.Samples.{length_hash}
use dyad.Core.SetPath.{set_real, set_side, dyad_set_prod_path, dyad_set_cons_path}
use dyad.Utils.Strings.{strncmp_eq}
use dyad.Utils.Paths.{hash_str}
use dyad.Cache.Policy.{
  dyad_cache_lru_init, dyad_cache_fifo_init, dyad_cache_policy_init, dyad_cache_policy_finalize,
  dyad_set_and_init_cache_policy,
}
use dyad.Core.Init.Stages.{Context}
use dyad.Core.Init.{
  init_dtl, init_policy, set_prod, set_cons, set_up, ends, region_finish, dyad_init,
}
use dyad.Core.Init.Transport.{dtl_mode_of, dyad_dtl_init, dyad_set_and_init_dtl_mode}
use dyad.Core.Init.Args.{InitArgs, InitCalls, dyad_ctx_default}
use dyad.Core.Init.Ready.{Inits, dyad_init_lem}
use dyad.Core.Init.Again.{dyad_init-again}
use dyad.Core.Init.Env.{Variable, Numbers, args_of_env, dyad_init_env, dyad_ctx_init}

program : Unit {0}
unfolding strncmp_eq hash_str set_real set_side dyad_set_prod_path dyad_set_cons_path
    dyad_cache_lru_init dyad_cache_fifo_init dyad_cache_policy_init dyad_cache_policy_finalize
    dyad_set_and_init_cache_policy dtl_mode_of dyad_dtl_init dyad_set_and_init_dtl_mode init_dtl
    init_policy set_prod set_cons set_up dyad_init args_of_env dyad_init_env dyad_ctx_init
program = tt

abbrev path : List ℕ
path = b'/' ∷ b'p' ∷ []

abbrev unlinked : List ℕ → Option (List ℕ)
unlinked _ = none

abbrev args : InitArgs
args = record {
  check = false;
  shared_storage = false;
  reinit = false;
  async_publish = false;
  fsync_write = true;
  key_depth = 3;
  key_bins = 1024;
  service_mux = 2;
  kvs_namespace = some (b'n' ∷ []);
  prod_managed_path = some path;
  cons_managed_path = none;
  relative_to_managed_path = false;
  dtl_mode_str = some (b'F' ∷ b'L' ∷ b'U' ∷ b'X' ∷ []);
  flux_handle = false;
  cache_capacity_bytes = 0;
  cache_policy_str = none;
  low_watermark = 0;
  cache_grace_period_sec = 5;
  origin_path = none;
}

abbrev calls : InitCalls
calls = record {
  malloc_ctx = true;
  flux_open = true;
  get_rank = some 7;
  calloc_namespace = true;
  calloc_origin = true;
  malloc_dtl = true;
  ucx_init = none;
  margo_init = none;
  flux_init = rc_ok;
  malloc_policy = true;
  malloc_private = true;
  prod_path = record { managed = some 100; real = none };
  cons_path = record { managed = some 200; real = none };
}

abbrev unnamed : InitArgs
unnamed = record args { kvs_namespace = none }

dyad_init_lem_example :
    (r : Context × Rc) × (dyad_init length_hash unlinked args calls none ≡ returned (some r.0, r.1))
    × Inits length_hash unlinked args calls r
dyad_init_lem_example =
    dyad_init_lem length_hash unlinked args calls none (inr refl) refl refl
      (omega arith, omega arith) tt

dyad_init-again_example :
    (dyad_init length_hash unlinked unnamed calls none ≡ returned (some dyad_ctx_default, rc_noctx))
    × (dyad_init length_hash unlinked args calls (some dyad_ctx_default)
        ≡ returned (some (region_finish dyad_ctx_default rc_ok).0, rc_ok))
dyad_init-again_example =
    dyad_init-again length_hash unlinked unnamed args calls calls 7 refl refl refl refl (inl refl)
      refl

-- The node of rank 7 with two brokers on a node, and the transport of "FLUX".
abbrev made : Context × Rc
made = ends (set_up length_hash unlinked args calls)

ready :
    (made.1 ≡ rc_ok)
    × (made.0.ctx.node_idx ≡ 3)
    × (made.0.ctx.dtl_mode ≡ some dtl_flux_rpc)
    × (made.0.initialized ≡ true)
unfolding program
ready = (refl, refl, refl, refl)

no_memory : dyad_init length_hash unlinked args (record calls { malloc_ctx = false }) none ≡ fault
unfolding program
no_memory = refl

no_broker :
    (ends (set_up length_hash unlinked args (record calls { flux_open = false }))).1 ≡ rc_fluxfail
unfolding program
no_broker = refl

-- Nothing is in the environment but the producer's path: the namespace is missed.
abbrev getenv : Variable → Option (List ℕ)
getenv Variable.path_producer = some path
getenv _ = none

abbrev numbers : Numbers
numbers = record { atoi = λ s. 1; strtoull = λ s. 1; watermark = λ s c. c }

from_env :
    dyad_init_env length_hash unlinked numbers getenv true calls none
    ≡ returned (some dyad_ctx_default, rc_noctx)
unfolding program
from_env = refl

not_initialized :
    dyad_ctx_init length_hash unlinked numbers getenv true calls none
    ≡ returned (some (record dyad_ctx_default { initialized = false }))
unfolding program
not_initialized = refl
