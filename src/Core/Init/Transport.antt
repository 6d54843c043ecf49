-- ===== src/Core/Init/Transport.antt =====
-- The choice of the transport: `dyad_set_and_init_dtl_mode` of dyad/core/dyad_ctx.c, and dyad/dtl/dyad_dtl_api.c.
use dyad.Prelude.{ℕ, not, List, [], ◌∷◌, Option, none, some, if◌then◌else◌, length}
use dyad.Core.Codes.{Rc, rc_ok, rc_sysfail, rc_baddtlmode, is_error}
use dyad.Core.Context.{Ctx, DtlMode, dtl_ucx, dtl_flux_rpc, dtl_margo}
use dyad.Utils.Strings.{strncmp_eq}
use dyad.Core.Init.Args.{InitCalls}

-- "UCX", "MARGO", "FLUX_RPC"
abbrev pub dtl_mode_name : DtlMode → List ℕ
dtl_mode_name dtl_ucx = b'U' ∷ b'C' ∷ b'X' ∷ []
dtl_mode_name dtl_margo = b'M' ∷ b'A' ∷ b'R' ∷ b'G' ∷ b'O' ∷ []
dtl_mode_name dtl_flux_rpc = b'F' ∷ b'L' ∷ b'U' ∷ b'X' ∷ b'_' ∷ b'R' ∷ b'P' ∷ b'C' ∷ []

-- The default is FLUX_RPC; a name is compared as far as it goes.
unfoldable pub dtl_mode_of : List ℕ → Option DtlMode
dtl_mode_of name =
    if strncmp_eq name (dtl_mode_name dtl_flux_rpc) (length name)
    then some dtl_flux_rpc
    else if strncmp_eq name (dtl_mode_name dtl_ucx) (length name)
    then some dtl_ucx
    else if strncmp_eq name (dtl_mode_name dtl_margo) (length name)
    then some dtl_margo
    else none

-- `none` is a transport that is not built in.
abbrev pub backend_init : InitCalls → DtlMode → Rc
backend_init os dtl_ucx = elim os.ucx_init [ none ↦ rc_baddtlmode | some rc ↦ rc ]
backend_init os dtl_margo = elim os.margo_init [ none ↦ rc_baddtlmode | some rc ↦ rc ]
backend_init os dtl_flux_rpc = os.flux_init

-- The mode of the handle, where there is one.
unfoldable pub dyad_dtl_init : InitCalls → DtlMode → Option DtlMode × Rc
dyad_dtl_init os mode =
    if not os.malloc_dtl then (none, rc_sysfail) else (some mode, backend_init os mode)

-- Whatever the transport answers, the handle is freed and the answer is DYAD_RC_OK.
abbrev pub dyad_dtl_finalize : Option DtlMode → Option DtlMode × Rc
dyad_dtl_finalize handle = (none, rc_ok)

unfoldable pub dyad_set_and_init_dtl_mode : InitCalls → Option (List ℕ) → Ctx → Ctx × Rc
unfolding dtl_mode_of dyad_dtl_init
dyad_set_and_init_dtl_mode os none ctx = (ctx, rc_baddtlmode)
dyad_set_and_init_dtl_mode os (some name) ctx = elim (dtl_mode_of name) [
  | none ↦ (ctx, rc_baddtlmode)
  | some mode ↦
      let (finalized, rc) = dyad_dtl_finalize ctx.dtl_mode in
      let (handle, rc') = dyad_dtl_init os mode in
      if is_error rc
      then (record ctx { dtl_mode = finalized }, rc)
      else (record ctx { dtl_mode = handle }, rc')
]
