-- ===== src/Core/Init.antt =====
-- `dyad_init`, `dyad_clear` and `dyad_finalize` of dyad/core/dyad_ctx.c, with
-- `dyad_set_and_init_dtl_mode` and the dispatch of dyad/dtl/dyad_dtl_api.c. What the allocations, Flux
-- and the transports answer is an argument.
pub mod Stages
pub mod Args
pub mod Transport
pub mod Parts
pub mod Sides
pub mod Ready
pub mod Again
pub mod Env
mod Tests
use dyad.Prelude.{
  ℕ, ◌/◌, Bool, true, false, not, ◌&&◌, List, [], ◌∷◌, Option, none, some, ltb, ◌==◌, if◌then◌else◌,
  length,
}
use dyad.Prelude.Run
use dyad.Prelude.Run.{Run}
use dyad.Core.Codes.{Rc, rc_ok, rc_sysfail, rc_noctx, rc_baddtlmode, rc_fluxfail, is_error}
use dyad.Core.Context.{Ctx, DtlMode, dtl_ucx, dtl_flux_rpc, dtl_margo, cache_none, cache_lru}
use dyad.Core.SetPath.{Allocations, no_side, dyad_set_prod_path, dyad_set_cons_path}
use dyad.Core.Init.Stages.{Context, Stage, goes, finish, failed, ◌>>=◌}
use dyad.Utils.Strings.{strncmp_eq}
use dyad.Utils.Paths.{Hash128}
use dyad.Cache.Policy.{policy_name, dyad_set_and_init_cache_policy}
use dyad.Core.Init.Args.{dyad_ctx_default, InitArgs, InitCalls}
use dyad.Core.Init.Transport.{
  dtl_mode_name, dtl_mode_of, backend_init, dyad_dtl_init, dyad_dtl_finalize,
  dyad_set_and_init_dtl_mode,
}

-- The lengths and hashes of the paths stay.
abbrev pub dyad_clear : Context → Context
dyad_clear c =
    let ctx = c.ctx in
    record c {
      ctx = record ctx {
        dtl_mode = none;
        has_handle = false;
        prod = record ctx.prod { managed_path = none; real_path = none };
        cons = record ctx.cons { managed_path = none; real_path = none };
        origin_path = none;
      };
      cache_policy = none;
      kvs_namespace = none;
    }

abbrev pub dyad_finalize : Option Context → Option Context × Rc
dyad_finalize current = (none, rc_ok)

-- Up to the Flux handle and the rank. Its failures leave by `init_region_finish`.
abbrev pub connect : InitArgs → InitCalls → Context → Stage Context
connect a os c =
    let has_handle = if a.flux_handle then true else os.flux_open in
    let ctx = c.ctx in
    let set : Ctx = record ctx {
      check = a.check;
      shared_storage = a.shared_storage;
      async_publish = a.async_publish;
      fsync_write = a.fsync_write;
      key_depth = a.key_depth;
      key_bins = a.key_bins;
      cache_capacity_bytes = a.cache_capacity_bytes;
      low_watermark = a.low_watermark;
      cache_grace_period_sec = a.cache_grace_period_sec;
      has_handle = has_handle;
    } in
    let mux = if ltb a.service_mux 1 then 1 else a.service_mux in
    if not has_handle then finish (record c { ctx = set }) rc_fluxfail else elim os.get_rank [
      | none ↦ finish (record c { ctx = set }) rc_fluxfail
      | some rank ↦
          goes (record c {
            ctx = record set { rank = rank; service_mux = mux; node_idx = rank / mux };
          })
    ]

-- Both failures go with the code as it is, DYAD_RC_OK.
abbrev pub set_namespace : InitArgs → InitCalls → Context → Stage Context
set_namespace a os c = elim a.kvs_namespace [
  | none ↦ failed c rc_ok
  | some text ↦
      if os.calloc_namespace then goes (record c { kvs_namespace = some text }) else failed c rc_ok
]

abbrev pub set_origin : InitArgs → InitCalls → Context → Stage Context
set_origin a os c =
    let ctx = c.ctx in
    let unset : Context = record c { ctx = record ctx { origin_path = none } } in
    elim a.origin_path [
      | none ↦ goes unset
      | some path ↦
          if ltb 0 (length path)
          then if os.calloc_origin
            then goes (record c { ctx = record ctx { origin_path = some path } })
            else failed unset rc_ok
          else goes unset
    ]

unfoldable pub init_dtl : InitArgs → InitCalls → Context → Stage Context
init_dtl a os c =
    let (ctx, rc) = dyad_set_and_init_dtl_mode os a.dtl_mode_str c.ctx in
    if is_error rc then failed (record c { ctx = ctx }) rc else goes (record c { ctx = ctx })

-- DYAD_CACHE_DEFAULT is DYAD_CACHE_LRU.
abbrev pub policy_str : InitArgs → List ℕ
policy_str a =
    if a.cache_capacity_bytes == 0
    then policy_name cache_none
    else elim a.cache_policy_str [ none ↦ policy_name cache_lru | some name ↦ name ]

unfoldable pub init_policy : InitArgs → InitCalls → Context → Stage Context
init_policy a os c =
    let ((ctx, policy), rc) =
      dyad_set_and_init_cache_policy os.malloc_policy os.malloc_private (some (policy_str a))
        a.cache_capacity_bytes (c.ctx, c.cache_policy) in
    if is_error rc
    then failed (record c { ctx = ctx; cache_policy = policy }) rc
    else goes (record c { ctx = ctx; cache_policy = policy })

abbrev pub is_given : Option (List ℕ) → Bool
is_given none = false
is_given (some text) = true

abbrev pub no_path : InitArgs → Bool
no_path a = not (is_given a.prod_managed_path) && not (is_given a.cons_managed_path)

abbrev pub is_rc_ok : Rc → Bool
is_rc_ok rc_ok = true
is_rc_ok _ = false

-- A code other than DYAD_RC_OK leaves with the one that stands before the call.
abbrev pub path_set : Context → Option Ctx × Rc → Stage Context
path_set c (none, rc) = failed c rc_ok
path_set c (some ctx, rc) =
    if is_rc_ok rc then goes (record c { ctx = ctx }) else failed (record c { ctx = ctx }) rc_ok

abbrev pub complete : InitArgs → Context → Stage Context
complete a c =
    let ctx = c.ctx in
    goes (record c {
      ctx = record ctx {
        relative_to_managed_path = a.relative_to_managed_path;
        use_fs_locks = true;
      };
      initialized = true;
    })

-- `init_region_failed`: all that is held is given back, and the context is the default one, in which
-- `initialized` is true.
abbrev pub region_failed : Context → Rc → Context × Rc
region_failed c rc_noctx =
    let ctx = dyad_ctx_default.ctx in
    (
      record dyad_ctx_default { initialized = false; ctx = record ctx { reenter = false } },
      rc_noctx,
    )
region_failed c _ = (dyad_ctx_default, rc_noctx)

-- `init_region_finish`
abbrev pub region_finish : Context → Rc → Context × Rc
region_finish c rc = let ctx = c.ctx in (record c { ctx = record ctx { reenter = true } }, rc)

abbrev pub ends : Stage Context → Context × Rc
ends (goes c) = region_finish c rc_ok
ends (finish c rc) = region_finish c rc
ends (failed c rc) = region_failed (dyad_clear c) rc

module _ (murmur : List ℕ → ℕ → Hash128) (realpath : List ℕ → Option (List ℕ)) where
  unfoldable pub set_prod : InitArgs → InitCalls → Context → Stage Context
  set_prod a os c =
      path_set c (dyad_set_prod_path murmur realpath os.prod_path a.prod_managed_path (some c.ctx))

  unfoldable pub set_cons : InitArgs → InitCalls → Context → Stage Context
  set_cons a os c =
      path_set c (dyad_set_cons_path murmur realpath os.cons_path a.cons_managed_path (some c.ctx))

  -- On the default context.
  unfoldable pub set_up : InitArgs → InitCalls → Stage Context
  set_up a os = do
    c ← (if no_path a then finish dyad_ctx_default rc_ok else goes dyad_ctx_default)
    c ← connect a os c
    c ← set_namespace a os c
    c ← set_origin a os c
    c ← init_dtl a os c
    c ← init_policy a os c
    c ← set_prod a os c
    c ← set_cons a os c
    complete a c

  -- `current` is the context of the thread. When `malloc` fails, `init_region_finish` writes through
  -- the NULL.
  unfoldable pub dyad_init : InitArgs → InitCalls → Option Context → Run (Option Context × Rc)
  dyad_init a os current =
      let (made, rc) = ends (set_up a os) in
      let fresh = if os.malloc_ctx then Run.returned (some made, rc) else Run.fault in
      if a.reinit then fresh else elim current [
        | none ↦ fresh
        | some c ↦
            let (kept, ok) = region_finish c rc_ok in
            if c.initialized then Run.returned (some kept, ok) else Run.returned (some made, rc)
      ]
